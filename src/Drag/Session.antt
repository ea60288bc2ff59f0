-- ===== src/Drag/Session.antt =====
-- Drags and replies on an album's page.
use Prim.Native.String.{String}
use mathlib.Core.Path.{subst}
use mathlib.Core.Option.{some-injective}
use mathlib.Core.Logic.Or
use mathlib.Core.HLevel.{⊥_prop}
use mathlib.Core.List.{
  Perm, Mem, mem-cons_self, mem-cons_of_mem, eq-or-mem_of_mem-cons, not-mem-nil,
}
use mathlib.Core.List.Perm
use photo_blog.Base.{
  ℕ, zero, suc, ◌≡◌, sym, ap, ◌∙◌, true, Option, none, some, List, [], ◌∷◌, ◌==◌, ==_iff, inl, inr,
  All, Bool-cases, if_of_true, if_of_false, if-elim,
}
use photo_blog.Base.Int.{ℤ}
use photo_blog.Client.{Reply, Call, dispatch}
use photo_blog.Drag.{
  Node, data_ts, first_of, find, read_ts, with_ts, is_target, State, Event, drop, answered, drop_on,
  answer, without, step, run,
}
use photo_blog.Drag.Placed.{elements, elements-read_ts, apply-perm}
use photo_blog.Drag.Kept.{apply-All}

some-ne-none : {n : Node} → some n ≡ none → ⊥
some-ne-none e = cc

pub found-mem : (x : ℕ) (g : List Node) (n : Node) → find x g ≡ some n → Mem x (elements g)
found-mem x [] n e = cc
found-mem x (m ∷ g) n e = elim (Bool-cases (m.element == x)) [
  | inl i ↦ subst (λ k. Mem k (m.element ∷ elements g)) ((==_iff m.element x).0 i) mem-cons_self
  | inr i ↦
      mem-cons_of_mem m.element (found-mem x g n (sym (if_of_false (some m) (find x g) i) ∙ e))
]

pub find-element : (x : ℕ) (g : List Node) (n : Node) → find x g ≡ some n → n.element ≡ x
find-element x [] n e = cc
find-element x (m ∷ g) n e = elim (Bool-cases (m.element == x)) [
  | inl i ↦
      ap (λ (y : Node). y.element)
        (sym (some-injective m n (sym (if_of_true (some m) (find x g) i) ∙ e)))
      ∙ (==_iff m.element x).0 i
  | inr i ↦ find-element x g n (sym (if_of_false (some m) (find x g) i) ∙ e)
]

pub absent-not_mem : (x : ℕ) (g : List Node) → find x g ≡ none → Mem x (elements g) → ⊥
absent-not_mem x [] e h = not-mem-nil h
absent-not_mem x (m ∷ g) e h =
    Or.elim ⊥_prop (eq-or-mem_of_mem-cons h) (λ q. there m ((==_iff m.element x).1 (sym q)) e)
      (λ k. elim (Bool-cases (m.element == x)) [
        | inl i ↦ there m i e
        | inr i ↦ absent-not_mem x g (sym (if_of_false (some m) (find x g) i) ∙ e) k
      ])
  where
    there : (m : Node) → (m.element == x) ≡ true → find x (m ∷ g) ≡ none → ⊥
    there m i e = some-ne-none (sym (if_of_true (some m) (find x g) i) ∙ e)

-- What holds of all nodes holds of the one that is found.
pub All-find :
    (Q : Node → Type 0) (x : ℕ) (g : List Node) (n : Node)
    → All Q g
    → find x g ≡ some n
    → Q n × (n.element ≡ x)
All-find Q x [] n h e = cc
All-find Q x (m ∷ g) n h e = elim (Bool-cases (m.element == x)) [
  | inl i ↦
      (let q = some-injective m n (sym (if_of_true (some m) (find x g) i) ∙ e) in
        subst (λ k. Q k × (k.element ≡ x)) q (h.0, (==_iff m.element x).0 i))
  | inr i ↦ All-find Q x g n h.1 (sym (if_of_false (some m) (find x g) i) ∙ e)
]

read_ts-All :
    (Q : Node → Type 0) (x : ℕ) (g : List Node)
    → ((n : Node) → Q n → Q (record n { cached = data_ts n }))
    → All Q g
    → All Q (read_ts x g)
read_ts-All Q x [] f h = tt
read_ts-All Q x (n ∷ g) f h = (
  if-elim Q (n.element == x) (record n { cached = data_ts n }) n (λ e. f n h.0) (λ e. h.0),
  read_ts-All Q x g f h.1,
)

-- Every node of an element that a drag was dropped on has kept the time that was read, and is an
-- image or a text.
abbrev pub Remembers : ℕ → ℤ → Node → Type 0
Remembers x t n = n.element ≡ x → (n.cached ≡ some t) × (is_target n.kind ≡ true)

Remembers-with_ts :
    (x : ℕ) (t : ℤ) (ts : Option ℤ) (n : Node) → Remembers x t n → Remembers x t (with_ts ts n)
Remembers-with_ts x t none n h = h
Remembers-with_ts x t (some u) n h = h

Remembers-data_ts :
    (x : ℕ) (t : ℤ) (n : Node) → Remembers x t n → Remembers x t (record n { cached = data_ts n })
Remembers-data_ts x t n h e = (data_ts-some n.cached n.ts (h e).0, (h e).1)
  where
    data_ts-some : (cached ts : Option ℤ) → cached ≡ some t → first_of cached ts ≡ some t
    data_ts-some none ts e = cc
    data_ts-some (some u) ts e = e

module _ (Json : Type 0) (parse : String → Option Json) (encode : String → String)
    (error_of : Json → String) (album_name : String) where
  answer-perm :
      (i : ℕ) (reply : Reply) (calls : List (Call Json parse encode "")) (g : List Node)
      → Perm (elements (answer Json parse encode error_of album_name i reply calls g)) (elements g)
  answer-perm i reply [] g = Perm.refl (elements g)
  answer-perm zero reply (call ∷ calls) g =
      apply-perm (dispatch Json parse encode "" call.cases reply) g
  answer-perm (suc i) reply (call ∷ calls) g = answer-perm i reply calls g

  answer-All :
      (Q : Node → Type 0) (keeps : (ts : Option ℤ) (n : Node) → Q n → Q (with_ts ts n)) (i : ℕ)
      (reply : Reply) (calls : List (Call Json parse encode "")) (g : List Node)
      → All Q g
      → All Q (answer Json parse encode error_of album_name i reply calls g)
  answer-All Q keeps i reply [] g h = h
  answer-All Q keeps zero reply (call ∷ calls) g h =
      apply-All Q keeps (dispatch Json parse encode "" call.cases reply) g h
  answer-All Q keeps (suc i) reply (call ∷ calls) g h = answer-All Q keeps i reply calls g h

  drop_on-perm :
      (o : Option Node) (dragged : String) (s : State Json parse encode error_of album_name)
      → Perm
          (elements (drop_on Json parse encode error_of album_name o dragged s).gallery)
          (elements s.gallery)
  drop_on-perm none dragged s = Perm.refl (elements s.gallery)
  drop_on-perm (some n) dragged s =
      if-elim (λ r. Perm (elements r.gallery) (elements s.gallery)) (is_target n.kind) _ s
        (λ e.
          subst (λ k. Perm k (elements s.gallery)) (sym (elements-read_ts n.element s.gallery))
            (Perm.refl (elements s.gallery)))
        (λ e. Perm.refl (elements s.gallery))

  pub step-perm :
      (s : State Json parse encode error_of album_name)
      (e : Event Json parse encode error_of album_name)
      → Perm
          (elements (step Json parse encode error_of album_name s e).gallery)
          (elements s.gallery)
  unfolding step
  step-perm s (drop target dragged) = drop_on-perm (find target s.gallery) dragged s
  step-perm s (answered i reply) = answer-perm i reply s.pending s.gallery

  -- However images are dragged, and whatever replies arrive in whatever order, the gallery has the
  -- same elements as before.
  pub run-perm :
      (s : State Json parse encode error_of album_name)
      (events : List (Event Json parse encode error_of album_name))
      → Perm
          (elements (run Json parse encode error_of album_name s events).gallery)
          (elements s.gallery)
  unfolding run
  run-perm s [] = Perm.refl (elements s.gallery)
  run-perm s (e ∷ events) =
      Perm.trans (run-perm (step Json parse encode error_of album_name s e) events) (step-perm s e)

  drop_on-Remembers :
      (x : ℕ) (t : ℤ) (o : Option Node) (dragged : String)
      (s : State Json parse encode error_of album_name)
      → All (Remembers x t) s.gallery
      → All (Remembers x t) (drop_on Json parse encode error_of album_name o dragged s).gallery
  drop_on-Remembers x t none dragged s h = h
  drop_on-Remembers x t (some n) dragged s h =
      if-elim (λ r. All (Remembers x t) r.gallery) (is_target n.kind) _ s
        (λ e. read_ts-All (Remembers x t) n.element s.gallery (Remembers-data_ts x t) h) (λ e. h)

  pub run-Remembers :
      (x : ℕ) (t : ℤ) (s : State Json parse encode error_of album_name)
      (events : List (Event Json parse encode error_of album_name))
      → All (Remembers x t) s.gallery
      → All (Remembers x t) (run Json parse encode error_of album_name s events).gallery
  unfolding run step
  run-Remembers x t s [] h = h
  run-Remembers x t s (drop target dragged ∷ events) h =
      run-Remembers x t
        (drop_on Json parse encode error_of album_name (find target s.gallery) dragged s) events
        (drop_on-Remembers x t (find target s.gallery) dragged s h)
  run-Remembers x t s (answered i reply ∷ events) h =
      run-Remembers x t
        (record {
          gallery = answer Json parse encode error_of album_name i reply s.pending s.gallery;
          pending = without Json parse encode error_of album_name i s.pending;
        })
        events (answer-All (Remembers x t) (Remembers-with_ts x t) i reply s.pending s.gallery h)
