-- ===== src/BlurHash/Picture/Pixels.antt =====
-- Where the bytes of a pixel are in the picture.
use mathlib.Core.Path.{subst}
use photo_blog.Base.{
  ℕ, zero, suc, ◌+◌, ◌*◌, ◌<◌, ◌≤◌, ◌≡◌, refl, ap, ◌∙◌, some, List, get_elem?, length, arith,
}
use photo_blog.Base.Int.{ℤ}
use photo_blog.BlurHash.Picture.{zeros, sums, pixel, row, picture}
use photo_blog.BlurHash.Picture.Writes.{
  length-zeros, length-write_four, get-write_four_below, get-write_four,
}

none_left : (i : ℕ) → i < 0 → ⊥
none_left i h = omega arith

suc_mul : (n m : ℕ) → suc n * m ≡ m + n * m
suc_mul n m = grind arith

split_mul : (p left m : ℕ) → (p + suc left) * m ≡ suc p * m + left * m
split_mul p left m = grind arith

area : (h w : ℕ) → (0 + h) * (4 * w) ≡ 4 * w * h
area h w = grind arith

zero_add : (n : ℕ) → 0 + n ≡ n
zero_add n = omega arith

module _ (Number : Type 0) (nought : Number) (add mul : Number → Number → Number)
    (linear : ℕ → Number) (square : ℤ → Number) (contrast : ℕ → Number)
    (basis : (k n i : ℕ) → Number) (byte : Number → ℕ) (colours : List (Number × Number × Number))
    (columns width height rows : ℕ) where
  abbrev pub sums_of : (p h : ℕ) → Number × Number × Number
  sums_of p h =
      sums Number nought add mul linear square contrast basis byte colours columns width height rows
        p h

  abbrev pixel_of : (p h : ℕ) (array : List ℕ) → List ℕ
  pixel_of p h array =
      pixel Number nought add mul linear square contrast basis byte colours columns width height
        rows p h array

  abbrev row_of : (p h left : ℕ) (array : List ℕ) → List ℕ
  row_of p h left array =
      row Number nought add mul linear square contrast basis byte colours columns width height rows
        p h left array

  abbrev picture_of : (p left : ℕ) (array : List ℕ) → List ℕ
  picture_of p left array =
      picture Number nought add mul linear square contrast basis byte colours columns width height
        rows p left array

  -- The picture of the size that is asked for, from an array of zeros on.
  abbrev pub whole_picture : List ℕ
  whole_picture = picture_of 0 height (zeros (4 * width * height))

  -- From index `b` on the array has the bytes of a colour and 255.
  abbrev pub Holds : (array : List ℕ) (b : ℕ) → Number × Number × Number → Type 0
  Holds array b (w, y, v) =
      (get_elem? array b ≡ some (byte w))
      × (get_elem? array (b + 1) ≡ some (byte y))
      × (get_elem? array (b + 2) ≡ some (byte v))
      × (get_elem? array (b + 3) ≡ some 255)

  Holds-congr :
      (xs ys : List ℕ) (b : ℕ) (c : Number × Number × Number)
      → ((i : ℕ) → i < b + 4 → get_elem? ys i ≡ get_elem? xs i)
      → Holds xs b c
      → Holds ys b c
  Holds-congr xs ys b (w, y, v) same (h0, h1, h2, h3) = (
    same b (omega arith) ∙ h0,
    same (b + 1) (omega arith) ∙ h1,
    same (b + 2) (omega arith) ∙ h2,
    same (b + 3) (omega arith) ∙ h3,
  )

  length-pixel : (p h : ℕ) (array : List ℕ) → length (pixel_of p h array) ≡ length array
  unfolding pixel
  length-pixel p h array = length-write_four array (4 * h + p * (4 * width)) _ _ _ 255

  pixel_below :
      (p h : ℕ) (array : List ℕ) (i : ℕ)
      → i < 4 * h + p * (4 * width)
      → get_elem? (pixel_of p h array) i ≡ get_elem? array i
  unfolding pixel
  pixel_below p h array i k = get-write_four_below array (4 * h + p * (4 * width)) _ _ _ 255 i k

  pixel-Holds :
      (p h : ℕ) (array : List ℕ)
      → 4 * h + p * (4 * width) + 3 < length array
      → Holds (pixel_of p h array) (4 * h + p * (4 * width)) (sums_of p h)
  unfolding pixel
  pixel-Holds p h array k = get-write_four array (4 * h + p * (4 * width)) _ _ _ 255 k

  length-row : (p h left : ℕ) (array : List ℕ) → length (row_of p h left array) ≡ length array
  unfolding row
  length-row p h zero array = refl
  length-row p h (suc left) array =
      length-row p (suc h) left (pixel_of p h array) ∙ length-pixel p h array

  row_below :
      (p h left : ℕ) (array : List ℕ) (i : ℕ)
      → i < 4 * h + p * (4 * width)
      → get_elem? (row_of p h left array) i ≡ get_elem? array i
  unfolding row
  row_below p h zero array i k = refl
  row_below p h (suc left) array i k =
      row_below p (suc h) left (pixel_of p h array) i (omega arith) ∙ pixel_below p h array i k

  row-Holds :
      (p h left k : ℕ) (array : List ℕ)
      → k < left
      → 4 * (h + left) + p * (4 * width) ≤ length array
      → Holds (row_of p h left array) (4 * (h + k) + p * (4 * width)) (sums_of p (h + k))
  unfolding row
  row-Holds p h zero k array lt le = absurd (none_left k lt)
  row-Holds p h (suc left) zero array lt le =
      let there : ℕ → Type 0 =
        λ q. Holds (row_of p h (suc left) array) (4 * q + p * (4 * width)) (sums_of p q) in
      let same : h ≡ h + 0 = omega arith in
      subst there same (
        Holds-congr (pixel_of p h array) (row_of p h (suc left) array) (4 * h + p * (4 * width))
          (sums_of p h) (λ i lt. row_below p (suc h) left (pixel_of p h array) i (omega arith))
          (pixel-Holds p h array (omega arith)))
  row-Holds p h (suc left) (suc k) array lt le =
      let there : ℕ → Type 0 =
        λ q. Holds (row_of p h (suc left) array) (4 * q + p * (4 * width)) (sums_of p q) in
      let same : suc h + k ≡ h + suc k = omega arith in
      subst there same (
        row-Holds p (suc h) left k (pixel_of p h array) (omega arith)
          (omega (arith, length-pixel p h array)))

  length-picture : (p left : ℕ) (array : List ℕ) → length (picture_of p left array) ≡ length array
  unfolding picture
  length-picture p zero array = refl
  length-picture p (suc left) array =
      length-picture (suc p) left (row_of p 0 width array) ∙ length-row p 0 width array

  picture_below :
      (p left : ℕ) (array : List ℕ) (i : ℕ)
      → i < p * (4 * width)
      → get_elem? (picture_of p left array) i ≡ get_elem? array i
  unfolding picture
  picture_below p zero array i k = refl
  picture_below p (suc left) array i k =
      picture_below (suc p) left (row_of p 0 width array) i (omega (arith, suc_mul p (4 * width)))
      ∙ row_below p 0 width array i (omega arith)

  picture-Holds :
      (p left k h : ℕ) (array : List ℕ)
      → k < left
      → h < width
      → (p + left) * (4 * width) ≤ length array
      → Holds (picture_of p left array) (4 * h + (p + k) * (4 * width)) (sums_of (p + k) h)
  unfolding picture
  picture-Holds p zero k h array lt hw le = absurd (none_left k lt)
  picture-Holds p (suc left) zero h array lt hw le =
      let there : ℕ → Type 0 =
        λ q. Holds (picture_of p (suc left) array) (4 * h + q * (4 * width)) (sums_of q h) in
      let same : p ≡ p + 0 = omega arith in
      let enough : suc p * (4 * width) ≤ length array =
        omega (arith, split_mul p left (4 * width)) in
      let next : suc p * (4 * width) ≡ 4 * width + p * (4 * width) = suc_mul p (4 * width) in
      subst there same (
        Holds-congr (row_of p 0 width array) (picture_of p (suc left) array)
          (4 * h + p * (4 * width)) (sums_of p h)
          (λ i lt. picture_below (suc p) left (row_of p 0 width array) i (omega arith))
          (subst (λ q. Holds (row_of p 0 width array) (4 * q + p * (4 * width)) (sums_of p q))
            (zero_add h) (row-Holds p 0 width h array hw (omega arith))))
  picture-Holds p (suc left) (suc k) h array lt hw le =
      let there : ℕ → Type 0 =
        λ q. Holds (picture_of p (suc left) array) (4 * h + q * (4 * width)) (sums_of q h) in
      let same : suc p + k ≡ p + suc k = omega arith in
      let same_row : suc p + left ≡ p + suc left = omega arith in
      subst there same (
        picture-Holds (suc p) left k h (row_of p 0 width array) (omega arith) hw
          (omega (arith, length-row p 0 width array, ap (λ (q : ℕ). q * (4 * width)) same_row)))

  -- The picture of a blur hash, whatever its colours are: the array has four bytes for each pixel,
  -- and at the end those of the pixel in column `h` and row `p`, inside the picture, stand from
  -- index `4 * h + p * (4 * width)` on: the bytes of the three sums of this pixel, and 255.
  pub get-pixel :
      (p h : ℕ)
      → p < height
      → h < width
      → (length whole_picture ≡ 4 * width * height)
        × Holds whole_picture (4 * h + p * (4 * width)) (sums_of p h)
  get-pixel p h hp hh = (
    length-picture 0 height (zeros (4 * width * height)) ∙ length-zeros (4 * width * height),
    subst (λ q. Holds whole_picture (4 * h + q * (4 * width)) (sums_of q h)) (zero_add p)
        (picture-Holds 0 height p h (zeros (4 * width * height)) hp hh
          (omega (arith, area height width, length-zeros (4 * width * height)))),
  )
