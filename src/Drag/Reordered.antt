-- ===== src/Drag/Reordered.antt =====
-- A drop and its reply.
use Prim.Native.String
use Prim.Native.String.{String}
use mathlib.Core.Path.{subst}
use mathlib.Core.List.{Perm}
use photo_blog.Base.{
  ℕ, ◌≡◌, refl, sym, ap, ◌∙◌, Bool, true, Option, none, some, List, [], ◌∷◌, ◌++◌, ◌==◌, ==_iff,
  ◌⊎◌, inl, inr, if_of_true, if-elim, length,
}
use photo_blog.Base.Int.{ℤ}
use photo_blog.Client.{
  Reply, Effect, dispatch, reordered, thrown, alert, control_set_album_image_time,
}
use photo_blog.Album.Gallery.Order.{IsChronological}
use photo_blog.Drag.{
  Node, data_ts, find, read_ts, moved, apply, is_target, State, drop, answered, drop_on, without,
  request, step, run,
}
use photo_blog.Drag.Placed.{elements, elements-read_ts, apply-perm}
use photo_blog.Drag.Times.{times, Distinct}
use photo_blog.Drag.Order.{moved-IsChronological}
use photo_blog.Drag.Session.{find-element}
use photo_blog.Drag.Answered.{answer-last, without-last, times-read_ts, find-read_ts}

module _ (Json : Type 0) (parse : String → Option Json) (encode : String → String)
    (error_of : Json → String) (album_name : String) where
  -- The gallery after a drop whose request is answered before anything else happens.
  dropped :
      (s : State Json parse encode error_of album_name) (x : ℕ) (n : Node) (t : ℤ)
      (dragged : String) (reply : Reply)
      → find x s.gallery ≡ some n
      → n.element ≡ x
      → is_target n.kind ≡ true
      → data_ts n ≡ some t
      → run Json parse encode error_of album_name s
          (drop x dragged ∷ answered (length s.pending) reply ∷ [])
        ≡ record {
          gallery =
              apply
                (dispatch Json parse encode ""
                  (request Json parse encode error_of album_name x dragged (some t)).cases
                  reply)
                (read_ts x s.gallery);
          pending = s.pending;
        }
  unfolding run step
  dropped s x n t dragged reply f q k e =
      let call = request Json parse encode error_of album_name x dragged (some t) in
      let s1 : State Json parse encode error_of album_name = record {
        gallery = read_ts x s.gallery;
        pending = s.pending ++ (call ∷ []);
      } in
      let after : drop_on Json parse encode error_of album_name (find x s.gallery) dragged s ≡ s1 =
        ap (λ (o : Option Node). drop_on Json parse encode error_of album_name o dragged s) f
        ∙ if_of_true _ s k
        ∙ ap (λ j. to j (data_ts n)) q
        ∙ ap (to x) e in
      ap (λ r. step Json parse encode error_of album_name r (answered (length s.pending) reply))
        after
      ∙ ap
          (λ g. record {
            gallery = g;
            pending = without Json parse encode error_of album_name (length s.pending) s1.pending;
          })
          (answer-last Json parse encode error_of album_name reply s.pending call
            (read_ts x s.gallery))
      ∙ ap
          (λ p. record {
            gallery = apply (dispatch Json parse encode "" call.cases reply) (read_ts x s.gallery);
            pending = p;
          })
          (without-last Json parse encode error_of album_name s.pending call)
    where
      to : ℕ → Option ℤ → State Json parse encode error_of album_name
      to j o = record {
        gallery = read_ts j s.gallery;
        pending = s.pending ++ (request Json parse encode error_of album_name j dragged o ∷ []);
      }

  -- What a reply does to the gallery: 204 moves the image, all others leave it there.
  replied :
      (P : List Node → Type 0) (x : ℕ) (t : ℤ) (dragged : String) (reply : Reply) (g : List Node)
      → (reply.status ≡ 204 → P (moved x dragged (some t) g))
      → P g
      → P (
          apply
            (dispatch Json parse encode ""
              (request Json parse encode error_of album_name x dragged (some t)).cases
              reply)
            g)
  unfolding dispatch request control_set_album_image_time
  replied P x t dragged reply g m h =
      if-elim (λ r. P (apply r g)) (reply.status == 204) (reordered dragged x (some t) ∷ []) _
        (λ e. m ((==_iff reply.status 204).0 e))
        (λ e.
          if-elim (λ r. P (apply r g)) (reply.status == 401) _ (thrown ∷ [])
            (λ u. told (parse reply.text)) (λ u. h))
    where
      told_of : Option Json → List Effect
      told_of o = elim o [
        | none ↦ thrown ∷ []
        | some j ↦ alert (String.◌++◌ "Failed to reorder image: " (error_of j)) ∷ []
      ]

      told : (o : Option Json) → P (apply (told_of o) g)
      told none = h
      told (some j) = h

  -- In a gallery in chronological order, in which no element is twice, an image is dropped on an
  -- image or text with a time, which `data` does not read otherwise. After the reply 204 the
  -- gallery is in order again, with the same elements, and the request is done; with another
  -- status all times are where they were.
  pub dropped-IsChronological :
      (newest_first : Bool) (s : State Json parse encode error_of album_name) (x : ℕ) (n : Node)
      (t : ℤ) (dragged : String) (reply : Reply)
      → Distinct (elements s.gallery)
      → IsChronological newest_first (times s.gallery)
      → find x s.gallery ≡ some n
      → is_target n.kind ≡ true
      → n.ts ≡ some t
      → data_ts n ≡ some t
      → IsChronological newest_first (
          times
            (run Json parse encode error_of album_name s
              (drop x dragged ∷ answered (length s.pending) reply ∷ [])).gallery)
        × Perm
            (elements
              (run Json parse encode error_of album_name s
                (drop x dragged ∷ answered (length s.pending) reply ∷ [])).gallery)
            (elements s.gallery)
        × ((run Json parse encode error_of album_name s
              (drop x dragged ∷ answered (length s.pending) reply ∷ [])).pending
            ≡ s.pending)
        × ((reply.status ≡ 204)
            ⊎ (times
                  (run Json parse encode error_of album_name s
                    (drop x dragged ∷ answered (length s.pending) reply ∷ [])).gallery
                ≡ times s.gallery))
  dropped-IsChronological newest_first s x n t dragged reply d h f k nt e =
      let g = read_ts x s.gallery in
      let there = find-read_ts x s.gallery n f in
      let same = times-read_ts x s.gallery in
      let ordered : IsChronological newest_first (times g) =
        subst (IsChronological newest_first) (sym same) h in
      let distinct : Distinct (elements g) =
        subst Distinct (sym (elements-read_ts x s.gallery)) d in
      subst
        (λ (r : State Json parse encode error_of album_name).
          IsChronological newest_first (times r.gallery)
          × Perm (elements r.gallery) (elements s.gallery)
          × (r.pending ≡ s.pending)
          × ((reply.status ≡ 204) ⊎ (times r.gallery ≡ times s.gallery)))
        (sym (dropped s x n t dragged reply f (find-element x s.gallery n f) k e))
        (
          replied (λ r. IsChronological newest_first (times r)) x t dragged reply g
              (λ u.
                moved-IsChronological newest_first dragged x (record n { cached = data_ts n }) t g
                  distinct there nt ordered)
              ordered,
          subst
              (Perm (
                elements (
                  apply
                    (dispatch Json parse encode ""
                      (request Json parse encode error_of album_name x dragged (some t)).cases
                      reply)
                    g)))
              (elements-read_ts x s.gallery)
              (apply-perm
                (dispatch Json parse encode ""
                  (request Json parse encode error_of album_name x dragged (some t)).cases reply)
                g),
          refl,
          replied (λ r. (reply.status ≡ 204) ⊎ (times r ≡ times s.gallery)) x t dragged reply g
              (λ u. inl u) (inr same),
        )
