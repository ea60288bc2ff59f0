-- ===== src/Client/Actions.antt =====
-- The functions of the pages that call the server: those of resources/static/album_extra.js, and
-- the loading of an album in resources/static/album.js.
pub mod Told
pub mod Hearts
use Prim.Native.String
use Prim.Native.String.{String}
use photo_blog.Base.{ℕ, Bool, true, false, Option, none, some, List, [], ◌∷◌, if◌then◌else◌}
use photo_blog.Client.{
  Reply, Effect, alert, go_to, remove, rendered, prepended, flipped, thrown, Body, image_hash,
  image_time, dispatch, Call, get_album_contents, control_set_album_image_time,
  control_delete_album, control_add_to_album, control_remove_from_album, control_index_album,
  get_favorite, add_favorite, delete_favorite,
}

-- `error_of` reads the property `error` of a parsed reply.
module _ (Json : Type 0) (parse : String → Option Json) (encode : String → String)
    (error_of : Json → String) where
  -- `function (x) { alert(message + x.error) }`
  abbrev pub tell : String → Option (Json → List Effect)
  tell message = some (λ j. alert (String.◌++◌ message (error_of j)) ∷ [])

  -- An album was created; `hash_of` reads the property `hash` of a parsed reply.
  unfoldable on_album_created : (hash_of : Json → String) → Reply → List Effect
  on_album_created hash_of reply = elim (parse reply.text) [
    | none ↦ thrown ∷ []
    | some j ↦ go_to (String.◌++◌ "/edit/album/" (String.◌++◌ (hash_of j) ".html")) ∷ []
  ]

  -- `confirmed` is the answer of `window.confirm`; without it there is no request.
  unfoldable pub delete_album_call : String → Call Json parse encode ""
  delete_album_call name =
      control_delete_album Json parse encode "" name
        (some (alert "Album deleted, you'll be redirected to main page" ∷ go_to "/" ∷ []))
        (tell "Failed to delete album: ") none

  unfoldable pub delete_album : (confirmed : Bool) → String → Reply → List Effect
  unfolding delete_album_call
  delete_album confirmed name reply =
      if confirmed then dispatch Json parse encode "" (delete_album_call name).cases reply else []

  unfoldable pub reindex_album : String → Reply → List Effect
  unfolding control_index_album
  reindex_album name reply =
      dispatch Json parse encode ""
        (control_index_album Json parse encode "" name none none none none
          (some (alert "Reindexing started" ∷ [])) (tell "Failed to reindex album: ") none
          none).cases
        reply

  unfoldable pub add_to_featured : String → Reply → List Effect
  unfolding control_add_to_album
  add_to_featured hash reply =
      dispatch Json parse encode ""
        (control_add_to_album Json parse encode "" "featured" (image_hash hash) (some [])
          (tell "Failed: ") none).cases
        reply

  -- The request of `removeImage`, and what the page does with its reply.
  unfoldable pub remove_image_call :
      (album_name hash collab_key : String) → Call Json parse encode ""
  remove_image_call album_name hash collab_key =
      control_remove_from_album Json parse encode "" album_name hash (some collab_key)
        (some (remove (String.◌++◌ "#img" hash) ∷ []))
        (tell "Failed to remove photo from the album: ")

  -- A missing `collab_key` is the empty one.
  unfoldable pub remove_image :
      (confirmed : Bool) (album_name hash collab_key : String) → Reply → List Effect
  unfolding remove_image_call
  remove_image confirmed album_name hash collab_key reply =
      if confirmed
      then dispatch Json parse encode "" (remove_image_call album_name hash collab_key).cases reply
      else []

  -- `getFavorite` has one callback: the second function is passed in vain.
  unfoldable pub fill_favorite : String → Reply → List Effect
  unfolding get_favorite
  fill_favorite album_hash reply =
      dispatch Json parse encode ""
        (get_favorite Json parse encode "" (some album_hash) (some (λ j. prepended ∷ []))).cases
        reply

  -- `favorite` is the heart's data; the reply flips the heart.
  unfoldable pub toggle_favorite_call : (favorite : Bool) → String → Call Json parse encode ""
  toggle_favorite_call favorite hash =
      if favorite
      then delete_favorite Json parse encode "" (some hash) (some (flipped ∷ []))
      else add_favorite Json parse encode "" (some hash) (some (flipped ∷ []))

  -- The loading of an album that did not come with its page.
  unfoldable pub load_album : String → Reply → List Effect
  unfolding get_album_contents
  load_album album_name reply =
      dispatch Json parse encode ""
        (get_album_contents Json parse encode "" album_name (some (λ j. rendered ∷ []))
          (tell "Bad request: ") (tell "Failed: ")).cases
        reply
