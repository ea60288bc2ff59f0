-- ===== src/BlurHash/Picture.antt =====
-- The picture of a blur hash: `blurHash` in resources/static/blurhash.js.
pub mod Writes
pub mod Pixels
use Prim.Native.String.{String}
use photo_blog.Base.{
  ℕ, zero, suc, ◌+◌, ◌-◌, ◌*◌, Option, none, some, List, [], ◌∷◌, ◌++◌, get_elem?,
}
use photo_blog.Base.Int.{ℤ, pos, negsuc, ◌+ℤ◌}
use photo_blog.BlurHash.{codes, read_digits, components, average_colour, parts}

-- The characters from `n` on, `count` of them; 0, which is no digit, where the hash has ended.
abbrev pub or_ended : Option ℕ → ℕ
or_ended none = 0
or_ended (some c) = c

abbrev pub slice : (hash : List ℕ) (n count : ℕ) → List ℕ
slice hash n zero = []
slice hash n (suc count) = or_ended (get_elem? hash n) ∷ slice hash (suc n) count

-- `t(hash, n, n + count)`, where it is not negative.
abbrev pub natural : ℤ → Option ℕ
natural (pos n) = some n
natural (negsuc n) = none

abbrev pub number_at : (hash : List ℕ) (n count : ℕ) → Option ℕ
number_at hash n count = natural (read_digits (slice hash n count) (pos 0))

-- `new Uint8ClampedArray(n)`
abbrev pub zeros : ℕ → List ℕ
zeros zero = []
zeros (suc n) = 0 ∷ zeros n

-- `P[i] = v`, which does nothing at an index behind the end.
abbrev pub write : List ℕ → (i v : ℕ) → List ℕ
write [] i v = []
write (x ∷ xs) zero v = v ∷ xs
write (x ∷ xs) (suc i) v = x ∷ write xs i v

-- The functions over floating-point numbers are parameters: `linear` is `c`, `square` is `s` of a
-- whole number, `contrast` is `(n + 1) / 13446`, `basis k n i` is `f(Math.PI * k / n * i)`, and
-- `byte` is `u`, cut off to 0 up to 255 as the array of the pixels does.
module _ (Number : Type 0) (nought : Number) (add mul : Number → Number → Number)
    (linear : ℕ → Number) (square : ℤ → Number) (contrast : ℕ → Number)
    (basis : (k n i : ℕ) → Number) (byte : Number → ℕ) where
  abbrev pub Colour : Type 0
  Colour = Number × Number × Number

  abbrev pub linear_colour : ℕ × ℕ × ℕ → Colour
  linear_colour (red, green, blue) = (linear red, linear green, linear blue)

  abbrev pub squared : Number → ℤ × ℤ × ℤ → Colour
  squared b (x, y, z) = (mul (square x) b, mul (square y) b, mul (square z) b)

  abbrev pub then_squared : Number → Option ℕ → Option (List Colour) → Option (List Colour)
  then_squared b none rest = none
  then_squared b (some m) none = none
  then_squared b (some m) (some colours) = some (squared b (parts m) ∷ colours)

  -- The components from the `g`-th on, `left` of them.
  abbrev pub colours_from : (hash : List ℕ) (b : Number) (g left : ℕ) → Option (List Colour)
  colours_from hash b g zero = some []
  colours_from hash b g (suc left) =
      then_squared b (number_at hash (4 + 2 * g) 2) (colours_from hash b (suc g) left)

  abbrev pub colour_at : List Colour → ℕ → Colour
  colour_at [] k = (nought, nought, nought)
  colour_at (c ∷ colours) zero = c
  colour_at (c ∷ colours) (suc k) = colour_at colours k

  abbrev pub plus : Colour → Number → Colour → Colour
  plus (w, y, v) e (r, g, b) = (add w (mul r e), add y (mul g e), add v (mul b e))

  -- The inner loops at the pixel in column `h` and row `p`: `g` and `k` are the indices of a
  -- component, of which `across` and `down` are left.
  module _ (colours : List Colour) (columns : ℕ) (width height : ℕ) where
    abbrev pub add_across : (h : ℕ) (x : Number) (k g across : ℕ) → Colour → Colour
    add_across h x k g zero sum = sum
    add_across h x k g (suc across) sum =
        add_across h x k (suc g) across
          (plus sum (mul (basis h width g) x) (colour_at colours (g + k * columns)))

    abbrev pub add_down : (p h k down : ℕ) → Colour → Colour
    add_down p h k zero sum = sum
    add_down p h k (suc down) sum =
        add_down p h (suc k) down (add_across h (basis p height k) k 0 columns sum)

    -- The sums `w`, `y` and `v` of a pixel.
    unfoldable pub sums : (rows p h : ℕ) → Colour
    sums rows p h = add_down p h 0 rows (nought, nought, nought)

    -- The four bytes from index `b` on.
    abbrev pub put_bytes : (b : ℕ) → Colour → (array : List ℕ) → List ℕ
    put_bytes b (w, y, v) array =
        write (write (write (write array b (byte w)) (b + 1) (byte y)) (b + 2) (byte v)) (b + 3) 255

    unfoldable pub pixel : (rows p h : ℕ) (array : List ℕ) → List ℕ
    unfolding sums
    pixel rows p h array = put_bytes (4 * h + p * (4 * width)) (sums rows p h) array

    -- The outer loops, from column `h` and from row `p` on.
    unfoldable pub row : (rows p h left : ℕ) (array : List ℕ) → List ℕ
    unfolding pixel
    row rows p h zero array = array
    row rows p h (suc left) array = row rows p (suc h) left (pixel rows p h array)

    unfoldable pub picture : (rows p left : ℕ) (array : List ℕ) → List ℕ
    unfolding row
    picture rows p zero array = array
    picture rows p (suc left) array = picture rows (suc p) left (row rows p 0 width array)

  abbrev pub drawn :
      (columns rows width height : ℕ) → Option ℕ → Option (List Colour) → Option (List ℕ)
  drawn columns rows width height none colours = none
  drawn columns rows width height (some e) none = none
  drawn columns rows width height (some e) (some colours) = some (
      picture (linear_colour (average_colour e) ∷ colours) columns width height rows 0 height
        (zeros (4 * width * height)))

  abbrev pub decode_with :
      (hash : List ℕ) (width height : ℕ) → Option ℕ → Option ℕ → Option (List ℕ)
  decode_with hash width height none b = none
  decode_with hash width height (some d) none = none
  decode_with hash width height (some d) (some b) =
      let size = components d in
      drawn size.0 size.1 width height (number_at hash 2 4)
        (colours_from hash (contrast b) 1 (size.0 * size.1 - 1))

  -- The pixels, `none` where a number in the hash is negative, since it has a character that is no
  -- digit.
  unfoldable pub decode : (hash : String) (width height : ℕ) → Option (List ℕ)
  unfolding picture components average_colour
  decode hash width height =
      decode_with (codes hash) width height (number_at (codes hash) 0 1)
        (number_at (codes hash) 1 1)

  -- The picture that is drawn: 32 by 32 pixels, none for an empty hash.
  unfoldable blur_hash : (hash : String) → Option (List ℕ)
  unfolding decode
  blur_hash hash = decode hash 32 32
