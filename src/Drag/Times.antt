-- ===== src/Drag/Times.antt =====
-- The times of the gallery where an image is put in before an element with its time.
use mathlib.Core.Path.{subst}
use mathlib.Core.Option.{some-injective}
use photo_blog.Base.{
  ℕ, ◌≡◌, ◌≢◌, sym, ap, ◌∙◌, Bool, Option, none, some, List, [], ◌∷◌, ◌++◌, ◌==◌, inl, inr, All,
  Bool-cases, if_of_true, if_of_false, if-elim, arith,
}
use photo_blog.Base.Int.{ℤ}
use photo_blog.Album.Gallery.Order.{Precedes, IsChronological}
use photo_blog.Drag.{Node, find, insert}

abbrev pub dated : Option ℤ → List ℤ
dated none = []
dated (some t) = t ∷ []

-- The times of the gallery from top to bottom.
abbrev pub times : List Node → List ℤ
times [] = []
times (n ∷ g) = dated n.ts ++ times g

-- No element is in the gallery twice.
abbrev pub Distinct : List ℕ → Type 0
Distinct [] = Unit
Distinct (k ∷ ks) = All (λ j. j ≢ k) ks × Distinct ks

module _ {κ} (P : ℤ → Type κ) where
  All-dated :
      (o : Option ℤ) (t : ℤ) (xs : List ℤ) → o ≡ some t → All P (dated o ++ xs) → P t × All P xs
  All-dated none t xs e h = cc
  All-dated (some u) t xs e h = (subst P (some-injective u t e) h.0, h.1)

  pub All-skip : (o : Option ℤ) (xs : List ℤ) → All P (dated o ++ xs) → All P xs
  All-skip none xs h = h
  All-skip (some u) xs h = h.1

  pub All-under :
      (o : Option ℤ) (xs ys : List ℤ)
      → (All P xs → All P ys)
      → All P (dated o ++ xs)
      → All P (dated o ++ ys)
  All-under none xs ys f h = f h
  All-under (some u) xs ys f h = (h.0, f h.1)

  All-put :
      (o : Option ℤ) (t : ℤ) (xs : List ℤ) → o ≡ some t → P t → All P xs → All P (dated o ++ xs)
  All-put none t xs e p h = cc
  All-put (some u) t xs e p h = (subst P (sym (some-injective u t e)) p, h)

  -- What holds of the times before an image with the target's time is put in holds of them after.
  All-insert :
      (target : ℕ) (n m : Node) (t : ℤ) (g : List Node)
      → n.ts ≡ some t
      → find target g ≡ some m
      → m.ts ≡ some t
      → All P (times g)
      → All P (times (insert target n g))
  All-insert target n m t [] nt f mt h = tt
  All-insert target n m t (x ∷ g) nt f mt h =
      if-elim (λ r. All P (times r)) (x.element == target) (n ∷ x ∷ g) (x ∷ insert target n g)
        (λ e.
          let same = some-injective x m (sym (if_of_true (some x) (find target g) e) ∙ f) in
          All-put n.ts t (times (x ∷ g)) nt
            (All-dated x.ts t (times g) (ap (λ (y : Node). y.ts) same ∙ mt) h).0 h)
        (λ e.
          All-under x.ts (times g) (times (insert target n g))
            (All-insert target n m t g nt (sym (if_of_false (some x) (find target g) e) ∙ f) mt) h)

module _ (newest_first : Bool) where
  Precedes-refl : (t : ℤ) → Precedes newest_first t t
  Precedes-refl t = elim (Bool-cases newest_first) [
    | inl e ↦ rw e (omega arith)
    | inr e ↦ rw e (omega arith)
  ]

  pub IsChronological-skip :
      (o : Option ℤ) (xs : List ℤ)
      → IsChronological newest_first (dated o ++ xs)
      → IsChronological newest_first xs
  IsChronological-skip none xs h = h
  IsChronological-skip (some u) xs h = h.1

  pub IsChronological-under :
      (o : Option ℤ) (xs ys : List ℤ)
      → ((P : ℤ → Type 0) → All P xs → All P ys)
      → (IsChronological newest_first xs → IsChronological newest_first ys)
      → IsChronological newest_first (dated o ++ xs)
      → IsChronological newest_first (dated o ++ ys)
  IsChronological-under none xs ys f k h = k h
  IsChronological-under (some u) xs ys f k h = (f (Precedes newest_first u) h.0, k h.1)

  IsChronological-put :
      (o : Option ℤ) (t : ℤ) (xs : List ℤ)
      → o ≡ some t
      → All (Precedes newest_first t) xs
      → IsChronological newest_first xs
      → IsChronological newest_first (dated o ++ xs)
  IsChronological-put none t xs e p h = cc
  IsChronological-put (some u) t xs e p h =
      (subst (λ v. All (Precedes newest_first v) xs) (sym (some-injective u t e)) p, h)

  -- The first of the times is before itself, too.
  first-Precedes :
      (o : Option ℤ) (t : ℤ) (xs : List ℤ)
      → o ≡ some t
      → IsChronological newest_first (dated o ++ xs)
      → All (Precedes newest_first t) (dated o ++ xs)
  first-Precedes none t xs e h = cc
  first-Precedes (some u) t xs e h =
      subst (λ v. All (Precedes newest_first v) (u ∷ xs)) (some-injective u t e)
        (Precedes-refl u, h.0)

  pub insert-IsChronological :
      (target : ℕ) (n m : Node) (t : ℤ) (g : List Node)
      → n.ts ≡ some t
      → find target g ≡ some m
      → m.ts ≡ some t
      → IsChronological newest_first (times g)
      → IsChronological newest_first (times (insert target n g))
  insert-IsChronological target n m t [] nt f mt h = tt
  insert-IsChronological target n m t (x ∷ g) nt f mt h =
      if-elim (λ r. IsChronological newest_first (times r)) (x.element == target) (n ∷ x ∷ g)
        (x ∷ insert target n g)
        (λ e.
          let same = some-injective x m (sym (if_of_true (some x) (find target g) e) ∙ f) in
          IsChronological-put n.ts t (times (x ∷ g)) nt
            (first-Precedes x.ts t (times g) (ap (λ (y : Node). y.ts) same ∙ mt) h) h)
        (λ e.
          let there = sym (if_of_false (some x) (find target g) e) ∙ f in
          IsChronological-under x.ts (times g) (times (insert target n g))
            (λ P. All-insert P target n m t g nt there mt)
            (insert-IsChronological target n m t g nt there mt) h)
