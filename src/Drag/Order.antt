-- ===== src/Drag/Order.antt =====
-- An image that is dropped on another one, or on a text with a time, falls into the order.
use Prim.Native.String.{String}
use mathlib.Core.Path.{subst}
use mathlib.Core.Option.{some-injective}
use photo_blog.Base.{
  ℕ, ◌≡◌, ◌≢◌, refl, sym, ap, ◌∙◌, Bool, true, false, Option, none, some, List, [], ◌∷◌, ◌++◌, ◌==◌,
  ==_iff, inl, inr, All, Bool-cases, Option-cases, if_of_true, if_of_false, if-elim, if◌then◌else◌,
  arith,
}
use photo_blog.Base.Int.{ℤ}
use photo_blog.Album.Gallery.Order.{IsChronological}
use photo_blog.Drag.{
  Node, find, is_image, with_ts, put_ts, also, take_out, insert, is_there, place, moved,
}
use photo_blog.Drag.Placed.{elements}
use photo_blog.Drag.Times.{
  dated, times, Distinct, All-skip, All-under, IsChronological-skip, IsChronological-under,
  insert-IsChronological,
}

true-ne-false : true ≢ false
true-ne-false e = cc

module _ (newest_first : Bool) (hash : String) (target : ℕ) where
  -- What the order needs of an image and the nodes that are left without it.
  record IsTaken (n : Node) (rest g : List Node) : Type 1 where
    covered : (P : ℤ → Type 0) → All P (times g) → All P (times rest)
    ordered : IsChronological newest_first (times g) → IsChronological newest_first (times rest)
    element_in : (P : ℕ → Type 0) → All P (elements g) → P n.element
    other_found : n.element ≢ target → find target rest ≡ find target g
    itself_found : Distinct (elements g) → n.element ≡ target → find target g ≡ some n
    same_times : (t : ℤ) → n.ts ≡ some t → times (put_ts hash (some t) g) ≡ times g

  head-IsTaken : (n : Node) (g : List Node) → is_image hash n.kind ≡ true → IsTaken n g (n ∷ g)
  head-IsTaken n g e = record {
    covered = λ P h. All-skip P n.ts (times g) h;
    ordered = IsChronological-skip newest_first n.ts (times g);
    element_in = λ P h. h.0;
    other_found = λ d. sym (if_of_false (some n) (find target g) (other n d));
    itself_found = λ d e'. if_of_true (some n) (find target g) ((==_iff n.element target).1 e');
    same_times = λ t nt.
        ap times (if_of_true (with_ts (some t) n ∷ g) (n ∷ put_ts hash (some t) g) e)
        ∙ ap (λ o. dated o ++ times g) (sym nt);
  }
    where
      other : (n : Node) → n.element ≢ target → (n.element == target) ≡ false
      other n d = ground arith

  cons-IsTaken :
      (x n : Node) (rest g : List Node)
      → is_image hash x.kind ≡ false
      → IsTaken n rest g
      → IsTaken n (x ∷ rest) (x ∷ g)
  cons-IsTaken x n rest g e w = record {
    covered = λ P h. All-under P x.ts (times g) (times rest) (w.covered P) h;
    ordered = IsChronological-under newest_first x.ts (times g) (times rest) w.covered w.ordered;
    element_in = λ P h. w.element_in P h.1;
    other_found = λ d. ap (λ o. if x.element == target then some x else o) (w.other_found d);
    itself_found = λ d e'.
        if_of_false (some x) (find target g)
          (apart x (λ q. w.element_in (λ j. j ≢ x.element) d.0 (e' ∙ sym q)))
        ∙ w.itself_found d.1 e';
    same_times = λ t nt.
        ap times (if_of_false (with_ts (some t) x ∷ g) (x ∷ put_ts hash (some t) g) e)
        ∙ ap (λ k. dated x.ts ++ k) (w.same_times t nt);
  }
    where
      apart : (x : Node) → x.element ≢ target → (x.element == target) ≡ false
      apart x d = ground arith

  also-some :
      (x n : Node) (rest : List Node) (o : Option (Node × List Node))
      → also x o ≡ some (n, rest)
      → (left : List Node) × (o ≡ some (n, left)) × (rest ≡ x ∷ left)
  also-some x n rest none e = cc
  also-some x n rest (some (m, left)) e =
      let q = some-injective (m, x ∷ left) (n, rest) e in
      (
        left,
        ap (λ (p : Node × List Node). some (p.0, left)) q,
        sym (ap (λ (p : Node × List Node). p.1) q),
      )

  take_out-IsTaken :
      (n : Node) (rest g : List Node) → take_out hash g ≡ some (n, rest) → IsTaken n rest g
  take_out-IsTaken n rest [] e = absurd (none_some e)
    where
      none_some : ◌≢◌ {A = Option (Node × List Node)} none (some (n, rest))
      none_some e = cc
  take_out-IsTaken n rest (x ∷ g) e = elim (Bool-cases (is_image hash x.kind)) [
    | inl i ↦
        (let q =
            some-injective (x, g) (n, rest) (sym (if_of_true _ (also x (take_out hash g)) i) ∙ e) in
          subst (λ (p : Node × List Node). IsTaken p.0 p.1 (x ∷ g)) q (head-IsTaken x g i))
    | inr i ↦
        (let (left, there, eq) =
            also-some x n rest (take_out hash g) (sym (if_of_false (some (x, g)) _ i) ∙ e) in
          subst (λ r. IsTaken n r (x ∷ g)) (sym eq)
            (cons-IsTaken x n left g i (take_out-IsTaken n left g there)))
  ]

  -- An image takes over the time of an element of the gallery, in which no element is twice: the
  -- gallery is in order if it was before.
  pub moved-IsChronological :
      (m : Node) (t : ℤ) (g : List Node)
      → Distinct (elements g)
      → find target g ≡ some m
      → m.ts ≡ some t
      → IsChronological newest_first (times g)
      → IsChronological newest_first (times (moved target hash (some t) g))
  unfolding moved
  moved-IsChronological m t g d f mt h = elim (Option-cases (take_out hash g)) [
    | inl e ↦
        subst (λ o. IsChronological newest_first (times (place target hash (some t) o g))) (sym e) h
    | inr ((n, rest), e) ↦
        subst (λ o. IsChronological newest_first (times (place target hash (some t) o g))) (sym e)
          (taken n rest (take_out-IsTaken n rest g e))
  ]
    where
      taken :
          (n : Node) (rest : List Node)
          → IsTaken n rest g
          → IsChronological newest_first (times (place target hash (some t) (some (n, rest)) g))
      taken n rest w =
          if-elim (λ r. IsChronological newest_first (times r)) (n.element == target)
            (put_ts hash (some t) g) _
            (λ e.
              let same =
                some-injective n m (sym (w.itself_found d ((==_iff n.element target).0 e)) ∙ f) in
              subst (IsChronological newest_first)
                (sym (w.same_times t (ap (λ (y : Node). y.ts) same ∙ mt))) h)
            (λ e.
              let there =
                w.other_found (λ q. true-ne-false (sym ((==_iff n.element target).1 q) ∙ e)) ∙ f in
              subst (λ r. IsChronological newest_first (times r))
                (sym (
                  if_of_true (insert target (with_ts (some t) n) rest) (put_ts hash (some t) g)
                    (ap is_there there)))
                (insert-IsChronological newest_first target (with_ts (some t) n) m t rest refl there
                  mt (w.ordered h)))
