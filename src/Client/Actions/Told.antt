-- ===== src/Client/Actions/Told.antt =====
-- What the reader is told of the reply to a request.
use Prim.Native.String
use Prim.Native.String.{String}
use photo_blog.Base.{
  ℕ, ◌≡◌, ◌↔◌, ◌⊎◌, refl, ap, Bool, true, false, Option, none, some, List, [], ◌∷◌, ◌==◌, arith,
  if◌then◌else◌,
}
use photo_blog.Client.{
  Reply, Effect, alert, go_to, remove, rendered, thrown, dispatch, control_delete_album,
  control_add_to_album, control_remove_from_album, control_index_album, get_album_contents,
}
use photo_blog.Client.Actions.{
  delete_album_call, delete_album, reindex_album, add_to_featured, remove_image, remove_image_call,
  load_album,
}

module _ (Json : Type 0) (parse : String → Option Json) (encode : String → String)
    (error_of : Json → String) where
  -- What a reply comes to where a refusal is told, if the refusal is JSON.
  abbrev told : String → Option Json → List Effect
  told message o = elim o [
    | none ↦ thrown ∷ []
    | some j ↦ alert (String.◌++◌ message (error_of j)) ∷ []
  ]

  delete_iff :
      (status : ℕ) (o : Option Json) (message : String) (done : Effect) (effects : List Effect)
      → ((if status == 204
            then done ∷ effects
            else if status == 401
            then told message o
            else if status == 500
            then []
            else thrown ∷ [])
          ≡ [])
        ↔ (status ≡ 500)
  delete_iff status none message done effects = ground arith
  delete_iff status (some j) message done effects = ground arith

  reindex_iff :
      (status : ℕ) (o : Option Json) (message : String) (done : Effect) (effects : List Effect)
      → ((if status == 202
            then done ∷ effects
            else if status == 400
            then told message o
            else if status == 401
            then []
            else if status == 500
            then []
            else thrown ∷ [])
          ≡ [])
        ↔ ((status ≡ 401) ⊎ (status ≡ 500))
  reindex_iff status none message done effects = ground arith
  reindex_iff status (some j) message done effects = ground arith

  add_iff :
      (status : ℕ) (o : Option Json) (message : String)
      → ((if status == 204
            then []
            else if status == 401
            then told message o
            else if status == 500
            then []
            else thrown ∷ [])
          ≡ [])
        ↔ ((status ≡ 204) ⊎ (status ≡ 500))
  add_iff status none message = ground arith
  add_iff status (some j) message = ground arith

  -- The reader confirmed the deletion of an album, or asked to reindex one, or to add an image to
  -- the featured ones. Then, whatever the server replies, nothing happens on the page, no message
  -- and no exception, exactly when: the deletion failed with the status 500; reindexing failed with
  -- 401 or 500; adding succeeded with 204 or failed with 500.
  pub failure-untold :
      (name hash : String) (reply : Reply)
      → ((delete_album Json parse encode error_of true name reply ≡ []) ↔ (reply.status ≡ 500))
        × ((reindex_album Json parse encode error_of name reply ≡ [])
            ↔ ((reply.status ≡ 401) ⊎ (reply.status ≡ 500)))
        × ((add_to_featured Json parse encode error_of hash reply ≡ [])
            ↔ ((reply.status ≡ 204) ⊎ (reply.status ≡ 500)))
  unfolding delete_album delete_album_call control_delete_album reindex_album control_index_album
      add_to_featured control_add_to_album dispatch
  failure-untold name hash reply = (
    delete_iff reply.status (parse reply.text) "Failed to delete album: "
        (alert "Album deleted, you'll be redirected to main page") (go_to "/" ∷ []),
    reindex_iff reply.status (parse reply.text) "Failed to reindex album: "
        (alert "Reindexing started") [],
    add_iff reply.status (parse reply.text) "Failed: ",
  )

  removed_iff :
      (hash : String) (status : ℕ) (o : Option Json)
      → ((if status == 204
            then remove (String.◌++◌ "#img" hash) ∷ []
            else if status == 500
            then elim o [
              | none ↦ thrown ∷ []
              | some j ↦
                  alert (String.◌++◌ "Failed to remove photo from the album: " (error_of j)) ∷ []
            ]
            else thrown ∷ [])
          ≡ remove (String.◌++◌ "#img" hash) ∷ [])
        ↔ ((true ≡ true) × (status ≡ 204))
  removed_iff hash status none = ground arith
  removed_iff hash status (some j) = ground arith

  -- The page of an album loses a photo just if the reader confirmed its removal and the server
  -- answered with the status 204, and then nothing else happens; without the reader's confirmation
  -- nothing at all happens.
  remove_image_iff :
      (confirmed : Bool) (album_name hash collab_key : String) (reply : Reply)
      → ((remove_image Json parse encode error_of confirmed album_name hash collab_key reply
            ≡ remove (String.◌++◌ "#img" hash) ∷ [])
          ↔ ((confirmed ≡ true) × (reply.status ≡ 204)))
        × (remove_image Json parse encode error_of false album_name hash collab_key reply ≡ [])
  unfolding remove_image remove_image_call control_remove_from_album dispatch
  remove_image_iff false album_name hash collab_key reply = (((λ e. cc), (λ e. cc)), refl)
  remove_image_iff true album_name hash collab_key reply =
      (removed_iff hash reply.status (parse reply.text), refl)

  -- What is loaded of an album is rendered, or the reader is told the reason: for each status that
  -- the interface has, if the reply is JSON.
  pub load_album-cases :
      (album_name : String) (reply : Reply) (j : Json)
      → parse reply.text ≡ some j
      → load_album Json parse encode error_of album_name reply ≡ (
          if reply.status == 200
          then rendered ∷ []
          else if reply.status == 400
          then alert (String.◌++◌ "Bad request: " (error_of j)) ∷ []
          else if reply.status == 500
          then alert (String.◌++◌ "Failed: " (error_of j)) ∷ []
          else thrown ∷ [])
  unfolding load_album get_album_contents dispatch
  load_album-cases album_name reply j e =
      ap
        (λ (o : Option Json).
          if reply.status == 200
          then elim o [ none ↦ thrown ∷ [] | some k ↦ rendered ∷ [] ]
          else if reply.status == 400
          then elim o [
            | none ↦ thrown ∷ []
            | some k ↦ alert (String.◌++◌ "Bad request: " (error_of k)) ∷ []
          ]
          else if reply.status == 500
          then elim o [
            | none ↦ thrown ∷ []
            | some k ↦ alert (String.◌++◌ "Failed: " (error_of k)) ∷ []
          ]
          else thrown ∷ [])
        e
