-- ===== src/Drag/Placed.antt =====
-- No node is lost or doubled when an image is moved, and none changes but for its time.
use Prim.Native.String.{String}
use mathlib.Core.Path.{subst}
use mathlib.Core.List.{Perm}
use mathlib.Core.List.Perm
use photo_blog.Base.{
  ℕ, ◌≡◌, refl, sym, ap, ◌∙◌, true, Option, none, some, List, [], ◌∷◌, ◌==◌, inl, inr, Bool-cases,
  if_of_true, if_of_false,
}
use photo_blog.Base.Int.{ℤ}
use photo_blog.Client.{
  Effect, alert, go_to, remove, rendered, prepended, flipped, thrown, reordered,
}
use photo_blog.Drag.{
  Node, data_ts, find, read_ts, is_image, with_ts, put_ts, also, take_out, insert, is_there, place,
  moved, apply,
}

-- The elements of the gallery from top to bottom.
abbrev pub elements : List Node → List ℕ
elements [] = []
elements (n ∷ g) = n.element ∷ elements g

with_ts-element : (ts : Option ℤ) (n : Node) → (with_ts ts n).element ≡ n.element
with_ts-element none n = refl
with_ts-element (some t) n = refl

elements-put_ts :
    (hash : String) (ts : Option ℤ) (g : List Node) → elements (put_ts hash ts g) ≡ elements g
elements-put_ts hash ts [] = refl
elements-put_ts hash ts (n ∷ g) = elim (Bool-cases (is_image hash n.kind)) [
  | inl e ↦ rw e (ap (λ k. k ∷ elements g) (with_ts-element ts n))
  | inr e ↦ rw e (ap (λ k. n.element ∷ k) (elements-put_ts hash ts g))
]

pub elements-read_ts : (target : ℕ) (g : List Node) → elements (read_ts target g) ≡ elements g
elements-read_ts target [] = refl
elements-read_ts target (n ∷ g) = elim (Bool-cases (n.element == target)) [
  | inl e ↦
      rw (if_of_true (record n { cached = data_ts n }) n e)
        (ap (λ k. n.element ∷ k) (elements-read_ts target g))
  | inr e ↦
      rw (if_of_false (record n { cached = data_ts n }) n e)
        (ap (λ k. n.element ∷ k) (elements-read_ts target g))
]

insert-perm :
    (target : ℕ) (n : Node) (g : List Node)
    → is_there (find target g) ≡ true
    → Perm (elements (insert target n g)) (n.element ∷ elements g)
insert-perm target n [] h = cc
insert-perm target n (m ∷ g) h = elim (Bool-cases (m.element == target)) [
  | inl e ↦ rw e (Perm.refl (n.element ∷ m.element ∷ elements g))
  | inr e ↦ rw e (
      Perm.trans
        (Perm.cons m.element
          (insert-perm target n g (ap is_there (sym (if_of_false (some m) (find target g) e)) ∙ h)))
        (Perm.swap n.element m.element (elements g)))
]

-- What is left, and where the image was.
abbrev Taken : Option (Node × List Node) → List Node → Type 0
Taken none g = Unit
Taken (some (n, rest)) g = Perm (n.element ∷ elements rest) (elements g)

also-Taken :
    (m : Node) (o : Option (Node × List Node)) (g : List Node)
    → Taken o g
    → Taken (also m o) (m ∷ g)
also-Taken m none g h = tt
also-Taken m (some (n, rest)) g h =
    Perm.trans (Perm.swap m.element n.element (elements rest)) (Perm.cons m.element h)

take_out-Taken : (hash : String) (g : List Node) → Taken (take_out hash g) g
take_out-Taken hash [] = tt
take_out-Taken hash (n ∷ g) = elim (Bool-cases (is_image hash n.kind)) [
  | inl e ↦
      subst (λ o. Taken o (n ∷ g)) (sym (if_of_true (some (n, g)) (also n (take_out hash g)) e))
        (Perm.refl (n.element ∷ elements g))
  | inr e ↦
      subst (λ o. Taken o (n ∷ g)) (sym (if_of_false (some (n, g)) (also n (take_out hash g)) e))
        (also-Taken n (take_out hash g) g (take_out-Taken hash g))
]

unchanged-perm : (xs ys : List ℕ) → xs ≡ ys → Perm xs ys
unchanged-perm xs ys e = rw e (Perm.refl ys)

put_ts-perm :
    (hash : String) (ts : Option ℤ) (g : List Node)
    → Perm (elements (put_ts hash ts g)) (elements g)
put_ts-perm hash ts g = unchanged-perm _ _ (elements-put_ts hash ts g)

place-perm :
    (target : ℕ) (hash : String) (ts : Option ℤ) (o : Option (Node × List Node)) (g : List Node)
    → Taken o g
    → Perm (elements (place target hash ts o g)) (elements g)
place-perm target hash ts none g h = Perm.refl (elements g)
place-perm target hash ts (some (n, rest)) g h = elim (Bool-cases (n.element == target)) [
  | inl e ↦ rw e (put_ts-perm hash ts g)
  | inr e ↦ rw e (elim (Bool-cases (is_there (find target rest))) [
    | inl there ↦ rw there (
        Perm.trans (insert-perm target (with_ts ts n) rest there)
          (subst (λ k. Perm (k ∷ elements rest) (elements g)) (sym (with_ts-element ts n)) h))
    | inr gone ↦ rw gone (put_ts-perm hash ts g)
  ])
]

pub moved-perm :
    (target : ℕ) (hash : String) (ts : Option ℤ) (g : List Node)
    → Perm (elements (moved target hash ts g)) (elements g)
unfolding moved
moved-perm target hash ts g = place-perm target hash ts (take_out hash g) g (take_out-Taken hash g)

pub apply-perm :
    (effects : List Effect) (g : List Node) → Perm (elements (apply effects g)) (elements g)
apply-perm [] g = Perm.refl (elements g)
apply-perm (alert s ∷ effects) g = apply-perm effects g
apply-perm (go_to s ∷ effects) g = apply-perm effects g
apply-perm (remove s ∷ effects) g = apply-perm effects g
apply-perm (rendered ∷ effects) g = apply-perm effects g
apply-perm (prepended ∷ effects) g = apply-perm effects g
apply-perm (flipped ∷ effects) g = apply-perm effects g
apply-perm (thrown ∷ effects) g = apply-perm effects g
apply-perm (reordered hash target ts ∷ effects) g =
    Perm.trans (apply-perm effects (moved target hash ts g)) (moved-perm target hash ts g)
