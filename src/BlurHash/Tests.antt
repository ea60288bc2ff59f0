-- ===== src/BlurHash/Tests.antt =====
-- Digits of blur hashes.
use photo_blog.Base.{ℕ, ◌+◌, ◌*◌, ◌≡◌, refl, List, [], ◌∷◌, length, arith}
use photo_blog.Base.Int.{ℤ, pos, negsuc, ◌+ℤ◌}
use photo_blog.BlurHash.{codes, read_digits}
use photo_blog.BlurHash.Picture.Pixels.{sums_of, whole_picture, Holds, get-pixel}
use photo_blog.BlurHash.Digits.{write_digits, read_digits-write_digits}

-- The first character of "LEHV6nWB2yk8pyo0adR*.7kCMdnj": 4 by 3 components.
first_character : read_digits (codes "L") (pos 0) ≡ pos 21
unfolding read_digits ◌+ℤ◌
first_character = refl

-- A character that is no digit counts as -1.
not_a_digit : read_digits (codes "\"") (pos 0) ≡ negsuc 0
unfolding read_digits ◌+ℤ◌
not_a_digit = refl

read_digits-write_digits_example : read_digits (write_digits 4 1193046) (pos 0) ≡ pos 1193046
read_digits-write_digits_example = read_digits-write_digits 4 1193046 (omega arith)

abbrev same : ℕ → ℕ
same n = n

abbrev whole : ℤ → ℕ
whole z = 0

-- Whole numbers in place of cosines.
abbrev at_place : ℕ → ℕ → ℕ → ℕ
at_place k n i = k + i

abbrev two_colours : List (ℕ × ℕ × ℕ)
two_colours = (1, 2, 3) ∷ (4, 5, 6) ∷ []

-- The last pixel of a picture of three by two pixels.
get-pixel_example :
    (length (whole_picture ℕ 0 ◌+◌ ◌*◌ same whole same at_place same two_colours 2 3 2 1)
      ≡ 4 * 3 * 2)
    × Holds ℕ 0 ◌+◌ ◌*◌ same whole same at_place same two_colours 2 3 2 1
        (whole_picture ℕ 0 ◌+◌ ◌*◌ same whole same at_place same two_colours 2 3 2 1)
        (4 * 2 + 1 * (4 * 3))
        (sums_of ℕ 0 ◌+◌ ◌*◌ same whole same at_place same two_colours 2 3 2 1 1 2)
get-pixel_example =
    get-pixel ℕ 0 ◌+◌ ◌*◌ same whole same at_place same two_colours 2 3 2 1 1 2 (omega arith)
      (omega arith)
