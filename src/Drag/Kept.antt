-- ===== src/Drag/Kept.antt =====
-- What holds of every node and does not depend on its time goes on to hold when images are moved.
use Prim.Native.String.{String}
use photo_blog.Base.{ℕ, Option, none, some, List, [], ◌∷◌, ◌==◌, All, if-elim}
use photo_blog.Base.Int.{ℤ}
use photo_blog.Client.{
  Effect, alert, go_to, remove, rendered, prepended, flipped, thrown, reordered,
}
use photo_blog.Drag.{
  Node, find, is_image, with_ts, put_ts, also, take_out, insert, is_there, place, moved, apply,
}

module _ (Q : Node → Type 0) (keeps : (ts : Option ℤ) (n : Node) → Q n → Q (with_ts ts n)) where
  put_ts-All : (hash : String) (ts : Option ℤ) (g : List Node) → All Q g → All Q (put_ts hash ts g)
  put_ts-All hash ts [] h = tt
  put_ts-All hash ts (n ∷ g) h =
      if-elim (All Q) (is_image hash n.kind) (with_ts ts n ∷ g) (n ∷ put_ts hash ts g)
        (λ e. (keeps ts n h.0, h.1)) (λ e. (h.0, put_ts-All hash ts g h.1))

  insert-All : (target : ℕ) (n : Node) (g : List Node) → Q n → All Q g → All Q (insert target n g)
  insert-All target n [] q h = tt
  insert-All target n (m ∷ g) q h =
      if-elim (All Q) (m.element == target) (n ∷ m ∷ g) (m ∷ insert target n g) (λ e. (q, h))
        (λ e. (h.0, insert-All target n g q h.1))

  abbrev AllOf : Option (Node × List Node) → Type 0
  AllOf none = Unit
  AllOf (some (n, rest)) = Q n × All Q rest

  also-AllOf : (n : Node) (o : Option (Node × List Node)) → Q n → AllOf o → AllOf (also n o)
  also-AllOf n none q h = tt
  also-AllOf n (some (m, rest)) q h = (h.0, (q, h.1))

  take_out-AllOf : (hash : String) (g : List Node) → All Q g → AllOf (take_out hash g)
  take_out-AllOf hash [] h = tt
  take_out-AllOf hash (n ∷ g) h =
      if-elim AllOf (is_image hash n.kind) (some (n, g)) (also n (take_out hash g)) (λ e. h)
        (λ e. also-AllOf n (take_out hash g) h.0 (take_out-AllOf hash g h.1))

  place-All :
      (target : ℕ) (hash : String) (ts : Option ℤ) (o : Option (Node × List Node)) (g : List Node)
      → AllOf o
      → All Q g
      → All Q (place target hash ts o g)
  place-All target hash ts none g w h = h
  place-All target hash ts (some (n, rest)) g w h =
      if-elim (All Q) (n.element == target) (put_ts hash ts g) _ (λ e. put_ts-All hash ts g h)
        (λ e.
          if-elim (All Q) (is_there (find target rest)) (insert target (with_ts ts n) rest)
            (put_ts hash ts g) (λ there. insert-All target (with_ts ts n) rest (keeps ts n w.0) w.1)
            (λ gone. put_ts-All hash ts g h))

  pub apply-All : (effects : List Effect) (g : List Node) → All Q g → All Q (apply effects g)
  unfolding moved
  apply-All [] g h = h
  apply-All (alert s ∷ effects) g h = apply-All effects g h
  apply-All (go_to s ∷ effects) g h = apply-All effects g h
  apply-All (remove s ∷ effects) g h = apply-All effects g h
  apply-All (rendered ∷ effects) g h = apply-All effects g h
  apply-All (prepended ∷ effects) g h = apply-All effects g h
  apply-All (flipped ∷ effects) g h = apply-All effects g h
  apply-All (thrown ∷ effects) g h = apply-All effects g h
  apply-All (reordered hash target ts ∷ effects) g h =
      apply-All effects (moved target hash ts g)
        (place-All target hash ts (take_out hash g) g (take_out-AllOf hash g h) h)
