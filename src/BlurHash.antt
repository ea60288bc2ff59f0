-- ===== src/BlurHash.antt =====
-- The numbers in a blur hash: the first part of resources/static/blurhash.js, up to the colours.
pub mod Digits
pub mod Picture
mod Tests
use Prim.Native.Char.{Char, code}
use Prim.Native.String
use Prim.Native.String.{String}
use photo_blog.Base.{
  ℕ, suc, ◌+◌, ◌-◌, ◌*◌, ◌/◌, ◌%◌, ◌^◌, Bool, Option, none, some, List, [], ◌∷◌, ◌==◌,
  if◌then◌else◌,
}
use photo_blog.Base.Int.{ℤ, pos, negsuc, ◌+ℤ◌, ◌-ℤ◌}

abbrev pub codes : String → List ℕ
codes String.[] = []
codes (String.◌∷◌ c s) = code c ∷ codes s

-- The alphabet of the digits.
abbrev pub alphabet : List ℕ
alphabet =
    codes "0123456789ABCDEFGHIJKLMNOPQRSTUVWXYZabcdefghijklmnopqrstuvwxyz#$%*+,-.:;=?@[]^_{|}~"

abbrev pub add_one : Option ℕ → Option ℕ
add_one none = none
add_one (some n) = some (suc n)

-- `indexOf`, `none` for -1.
abbrev pub index_of : (alphabet : List ℕ) → ℕ → Option ℕ
index_of [] c = none
index_of (a ∷ alphabet) c = if a == c then some 0 else add_one (index_of alphabet c)

abbrev pub digit : Option ℕ → ℤ
digit none = negsuc 0
digit (some n) = pos n

-- `o *= 83, o += …` on integers.
abbrev pub times83 : ℤ → ℤ
times83 (pos n) = pos (83 * n)
times83 (negsuc n) = negsuc (83 * n + 82)

-- The loop of `t`, over the characters from `n` up to `e`, and from `o`.
unfoldable pub read_digits : List ℕ → (o : ℤ) → ℤ
read_digits [] o = o
read_digits (c ∷ cs) o = read_digits cs (times83 o +ℤ digit (index_of alphabet c))

-- The sizes in the first digit: `d % 9 + 1` and `1 + ~~(d / 9)`.
unfoldable pub components : (d : ℕ) → ℕ × ℕ
components d = (d % 9 + 1, 1 + d / 9)

-- The average colour: `[e >> 16, e >> 8 & 255, 255 & e]`.
unfoldable pub average_colour : (e : ℕ) → ℕ × ℕ × ℕ
average_colour e = (e / 2 ^ 16, e / 2 ^ 8 % 256, e % 256)

-- The three parts of a component before they are squared: `~~(M / 361) - 9`, `~~(M / 19) % 19 - 9`
-- and `M % 19 - 9`.
unfoldable pub parts : (m : ℕ) → ℤ × ℤ × ℤ
parts m = (pos (m / 361) -ℤ pos 9, pos (m / 19 % 19) -ℤ pos 9, pos (m % 19) -ℤ pos 9)
