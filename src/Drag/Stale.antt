-- ===== src/Drag/Stale.antt =====
-- Drops on an element after the first one.
use Prim.Native.String.{String}
use mathlib.Core.Path.{subst}
use mathlib.Core.Option.{some-injective}
use mathlib.Core.List.Perm
use photo_blog.Base.{
  ℕ, ◌≡◌, ◌≢◌, sym, ap, ◌∙◌, true, false, Option, some, List, [], ◌∷◌, ◌++◌, ◌==◌, ==_iff, inl, inr,
  All, Bool-cases, Option-cases, if_of_true, if_of_false, if-elim,
}
use photo_blog.Base.Int.{ℤ}
use photo_blog.Drag.{
  Node, data_ts, first_of, find, read_ts, is_target, State, Event, drop, drop_on, request, step,
  run,
}
use photo_blog.Drag.Placed.{elements}
use photo_blog.Drag.Times.{Distinct}
use photo_blog.Drag.Session.{
  found-mem, absent-not_mem, All-find, find-element, Remembers, run-Remembers, run-perm, step-perm,
}

-- The only node of the element.
only-All :
    (x : ℕ) (n : Node) (g : List Node)
    → Distinct (elements g)
    → find x g ≡ some n
    → All (λ m. m.element ≡ x → m ≡ n) g
only-All x n [] d e = tt
only-All x n (m ∷ g) d e = elim (Bool-cases (m.element == x)) [
  | inl i ↦ (
    λ q. some-injective m n (sym (if_of_true (some m) (find x g) i) ∙ e),
    others g (subst (λ k. All (λ j. j ≢ k) (elements g)) ((==_iff m.element x).0 i) d.0),
  )
  | inr i ↦ (
    λ q. absurd (false_true (sym i ∙ (==_iff m.element x).1 q)),
    only-All x n g d.1 (sym (if_of_false (some m) (find x g) i) ∙ e),
  )
]
  where
    false_true : false ≢ true
    false_true e = cc

    others : (g : List Node) → All (λ j. j ≢ x) (elements g) → All (λ m. m.element ≡ x → m ≡ n) g
    others [] h = tt
    others (m ∷ g) h = (λ q. absurd (h.0 q), others g h.1)

read_ts-Remembers :
    (x : ℕ) (t : ℤ) (n : Node) (g : List Node)
    → data_ts n ≡ some t
    → is_target n.kind ≡ true
    → All (λ m. m.element ≡ x → m ≡ n) g
    → All (Remembers x t) (read_ts x g)
read_ts-Remembers x t n [] e k h = tt
read_ts-Remembers x t n (m ∷ g) e k h = (
  if-elim (Remembers x t) (m.element == x) (record m { cached = data_ts m }) m
      (λ i q. (ap data_ts (h.0 q) ∙ e, ap (λ (y : Node). is_target y.kind) (h.0 q) ∙ k))
      (λ i q. absurd (false_true (sym i ∙ (==_iff m.element x).1 q))),
  read_ts-Remembers x t n g e k h.1,
)
  where
    false_true : false ≢ true
    false_true e = cc

module _ (Json : Type 0) (parse : String → Option Json) (encode : String → String)
    (error_of : Json → String) (album_name : String) where
  drop-found :
      (x : ℕ) (t : ℤ) (dragged : String) (s : State Json parse encode error_of album_name)
      (n : Node)
      → find x s.gallery ≡ some n
      → (n.cached ≡ some t) × (is_target n.kind ≡ true)
      → n.element ≡ x
      → (step Json parse encode error_of album_name s (drop x dragged)).pending
        ≡ s.pending ++ (request Json parse encode error_of album_name x dragged (some t) ∷ [])
  unfolding step
  drop-found x t dragged s n f (c, k) q =
      ap (λ (o : Option Node). (drop_on Json parse encode error_of album_name o dragged s).pending)
        f
      ∙ ap (λ (r : State Json parse encode error_of album_name). r.pending) (if_of_true _ s k)
      ∙ ap
          (λ o.
            s.pending ++ (request Json parse encode error_of album_name n.element dragged o ∷ []))
          (ap (λ o. first_of o n.ts) c)
      ∙ ap
          (λ j.
            s.pending ++ (request Json parse encode error_of album_name j dragged (some t) ∷ []))
          q

  -- An image or text with the time `t` has had one drop, in a gallery in which no element is twice.
  -- Whatever is dragged and answered then, the element being moved to another time included, the
  -- next drop on the element sends the time `t` again, the attribute of the element notwithstanding.
  pub drop-again :
      (s : State Json parse encode error_of album_name) (x : ℕ) (n : Node) (t : ℤ)
      (first second : String) (events : List (Event Json parse encode error_of album_name))
      → Distinct (elements s.gallery)
      → find x s.gallery ≡ some n
      → is_target n.kind ≡ true
      → data_ts n ≡ some t
      → (step Json parse encode error_of album_name
          (run Json parse encode error_of album_name s (drop x first ∷ events))
          (drop x second)).pending
        ≡ (run Json parse encode error_of album_name s (drop x first ∷ events)).pending
          ++ (request Json parse encode error_of album_name x second (some t) ∷ [])
  unfolding run step
  drop-again s x n t first second events d f k e =
      let s1 : State Json parse encode error_of album_name =
        drop_on Json parse encode error_of album_name (find x s.gallery) first s in
      let all1 : All (Remembers x t) s1.gallery =
        subst
          (λ (o : Option Node).
            All (Remembers x t) (drop_on Json parse encode error_of album_name o first s).gallery)
          (sym f)
          (if-elim
            (λ (r : State Json parse encode error_of album_name). All (Remembers x t) r.gallery)
            (is_target n.kind) _ s
            (λ i.
              subst (λ j. All (Remembers x t) (read_ts j s.gallery)) (sym here)
                (read_ts-Remembers x t n s.gallery e k (only-All x n s.gallery d f)))
            (λ i. absurd (true-ne-false (sym k ∙ i)))) in
      let s2 : State Json parse encode error_of album_name =
        run Json parse encode error_of album_name s1 events in
      let all2 : All (Remembers x t) s2.gallery =
        run-Remembers Json parse encode error_of album_name x t s1 events all1 in
      elim (Option-cases (find x s2.gallery)) [
        | inl gone ↦ absurd (
            absent-not_mem x s2.gallery gone (
              (Perm.mem_iff (
                  Perm.trans (run-perm Json parse encode error_of album_name s1 events)
                    (step-perm Json parse encode error_of album_name s (drop x first)))).1
                (found-mem x s.gallery n f)))
        | inr (m, there) ↦
            (let (r, q) = All-find (Remembers x t) x s2.gallery m all2 there in
              drop-found x t second s2 m there (r q) q)
      ]
    where
      true-ne-false : true ≢ false
      true-ne-false e = cc

      here : n.element ≡ x
      here = find-element x s.gallery n f
