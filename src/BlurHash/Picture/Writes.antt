-- ===== src/BlurHash/Picture/Writes.antt =====
-- Writes to the array of the pixels, `P` in `blurHash` of resources/static/blurhash.js.
use photo_blog.Base.{
  ℕ, zero, suc, ◌+◌, ◌<◌, ◌≡◌, ◌≢◌, refl, ap, ◌∙◌, some, List, [], ◌∷◌, get_elem?, length, arith,
}
use photo_blog.BlurHash.Picture.{zeros, write}

pub length-zeros : (n : ℕ) → length (zeros n) ≡ n
length-zeros zero = refl
length-zeros (suc n) = ap suc (length-zeros n)

length-write : (xs : List ℕ) (i v : ℕ) → length (write xs i v) ≡ length xs
length-write [] i v = refl
length-write (x ∷ xs) zero v = refl
length-write (x ∷ xs) (suc i) v = ap suc (length-write xs i v)

none_there : (i : ℕ) → i < 0 → ⊥
none_there i h = omega arith

get-write_self : (xs : List ℕ) (i v : ℕ) → i < length xs → get_elem? (write xs i v) i ≡ some v
get-write_self [] i v h = absurd (none_there i h)
get-write_self (x ∷ xs) zero v h = refl
get-write_self (x ∷ xs) (suc i) v h = get-write_self xs i v (omega arith)

get-write_ne : (xs : List ℕ) (i j v : ℕ) → i ≢ j → get_elem? (write xs i v) j ≡ get_elem? xs j
get-write_ne [] i j v n = refl
get-write_ne (x ∷ xs) zero zero v n = absurd (n refl)
get-write_ne (x ∷ xs) zero (suc j) v n = refl
get-write_ne (x ∷ xs) (suc i) zero v n = refl
get-write_ne (x ∷ xs) (suc i) (suc j) v n = get-write_ne xs i j v (λ e. n (ap suc e))

-- Four writes, one after the other.
abbrev pub write_four : (xs : List ℕ) (b w y v a : ℕ) → List ℕ
write_four xs b w y v a = write (write (write (write xs b w) (b + 1) y) (b + 2) v) (b + 3) a

pub length-write_four : (xs : List ℕ) (b w y v a : ℕ) → length (write_four xs b w y v a) ≡ length xs
length-write_four xs b w y v a =
    length-write (write (write (write xs b w) (b + 1) y) (b + 2) v) (b + 3) a
    ∙ length-write (write (write xs b w) (b + 1) y) (b + 2) v
    ∙ length-write (write xs b w) (b + 1) y
    ∙ length-write xs b w

-- Below the first of the indices nothing changes.
pub get-write_four_below :
    (xs : List ℕ) (b w y v a i : ℕ) → i < b → get_elem? (write_four xs b w y v a) i ≡ get_elem? xs i
get-write_four_below xs b w y v a i h =
    get-write_ne (write (write (write xs b w) (b + 1) y) (b + 2) v) (b + 3) i a (omega arith)
    ∙ get-write_ne (write (write xs b w) (b + 1) y) (b + 2) i v (omega arith)
    ∙ get-write_ne (write xs b w) (b + 1) i y (omega arith)
    ∙ get-write_ne xs b i w (omega arith)

-- Inside the array the four values stand at their indices.
pub get-write_four :
    (xs : List ℕ) (b w y v a : ℕ)
    → b + 3 < length xs
    → (get_elem? (write_four xs b w y v a) b ≡ some w)
      × (get_elem? (write_four xs b w y v a) (b + 1) ≡ some y)
      × (get_elem? (write_four xs b w y v a) (b + 2) ≡ some v)
      × (get_elem? (write_four xs b w y v a) (b + 3) ≡ some a)
get-write_four xs b w y v a h =
    let one = write xs b w in
    let two = write one (b + 1) y in
    let three = write two (b + 2) v in
    let l1 : length one ≡ length xs = length-write xs b w in
    let l2 : length two ≡ length xs = length-write one (b + 1) y ∙ l1 in
    let l3 : length three ≡ length xs = length-write two (b + 2) v ∙ l2 in
    (
      get-write_ne three (b + 3) b a (omega arith)
          ∙ get-write_ne two (b + 2) b v (omega arith)
          ∙ get-write_ne one (b + 1) b y (omega arith)
          ∙ get-write_self xs b w (omega arith),
      get-write_ne three (b + 3) (b + 1) a (omega arith)
          ∙ get-write_ne two (b + 2) (b + 1) v (omega arith)
          ∙ get-write_self one (b + 1) y (omega arith),
      get-write_ne three (b + 3) (b + 2) a (omega arith)
          ∙ get-write_self two (b + 2) v (omega arith),
      get-write_self three (b + 3) a (omega arith),
    )
