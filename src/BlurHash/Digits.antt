-- ===== src/BlurHash/Digits.antt =====
-- Numbers in base 83 and what is packed into them.
use mathlib.Core.Path.{subst}
use native.Mathlib.Nat.{mul_assoc, pow-suc}
use photo_blog.Base.{
  ℕ, zero, suc, ◌+◌, ◌*◌, ◌/◌, ◌%◌, ◌^◌, ◌<◌, ◌≡◌, ◌≢◌, refl, sym, ap, ap₂, ◌∙◌, Bool, true, false,
  ◌&&◌, ==_iff, Bool-cases, inl, inr, Option, none, some, List, [], ◌∷◌, ◌++◌, ◌==◌, get_elem?,
  arith,
}
use photo_blog.Base.Int.{ℤ, eq_of_parts, +ℤ_parts, pos, ◌+ℤ◌, ◌-ℤ◌}
use photo_blog.BlurHash.{
  alphabet, index_of, digit, times83, read_digits, components, average_colour, parts,
}

-- The digit of a number below 83.
abbrev pub digit_char : ℕ → ℕ
digit_char n = or_zero (get_elem? alphabet n)
  where
    or_zero : Option ℕ → ℕ
    or_zero none = 0
    or_zero (some c) = c

-- The last `count` digits of a number, the highest first.
abbrev pub write_digits : (count n : ℕ) → List ℕ
write_digits zero n = []
write_digits (suc count) n = write_digits count (n / 83) ++ (digit_char (n % 83) ∷ [])

abbrev is_digit : ℕ → Option ℕ → Bool
is_digit n none = false
is_digit n (some m) = m == n

abbrev all_below : (ℕ → Bool) → ℕ → Bool
all_below p zero = true
all_below p (suc k) = p k && all_below p k

all_below-at : (p : ℕ → Bool) (k n : ℕ) → all_below p k ≡ true → n < k → p n ≡ true
all_below-at p zero n h l = absurd (omega arith)
all_below-at p (suc k) n h l = elim (Bool-cases (p k)) [
  | inl e ↦ elim (Bool-cases (n == k)) [
    | inl q ↦ ap p ((==_iff n k).0 q) ∙ e
    | inr q ↦ all_below-at p k n (ap (λ b. b && all_below p k) (sym e) ∙ h) (below n k l q)
  ]
  | inr e ↦ absurd (false_true (ap (λ b. b && all_below p k) (sym e) ∙ h))
]
  where
    false_true : false ≢ true
    false_true e = cc

    below : (n k : ℕ) → n < suc k → (n == k) ≡ false → n < k
    below n k l q = ground arith

is_digit-eq : (n : ℕ) (o : Option ℕ) → is_digit n o ≡ true → o ≡ some n
is_digit-eq n none e = cc
is_digit-eq n (some m) e = ap some ((==_iff m n).0 e)

all_digits : all_below (λ n. is_digit n (index_of alphabet (digit_char n))) 83 ≡ true
all_digits = refl

-- The alphabet has every digit at its place.
index_of-digit_char : (n : ℕ) → n < 83 → index_of alphabet (digit_char n) ≡ some n
index_of-digit_char n h =
    is_digit-eq n _
      (all_below-at (λ m. is_digit m (index_of alphabet (digit_char m))) 83 n all_digits h)

read_digits-append :
    (xs ys : List ℕ) (o : ℤ) → read_digits (xs ++ ys) o ≡ read_digits ys (read_digits xs o)
unfolding read_digits
read_digits-append [] ys o = refl
read_digits-append (x ∷ xs) ys o =
    read_digits-append xs ys (times83 o +ℤ digit (index_of alphabet x))

pos-add : (a d : ℕ) → pos a +ℤ pos d ≡ pos (a + d)
pos-add a d = eq_of_parts (pos a +ℤ pos d) (pos (a + d)) (omega (arith, +ℤ_parts (pos a) (pos d)))

read_digits-from :
    (count n o : ℕ)
    → n < 83 ^ count
    → read_digits (write_digits count n) (pos o) ≡ pos (o * 83 ^ count + n)
unfolding read_digits
read_digits-from zero n o h = ap pos (one n h)
  where
    one : (n : ℕ) → n < 1 → o ≡ o * 1 + n
    one n h = omega arith
read_digits-from (suc count) n o h =
    read_digits-append (write_digits count (n / 83)) (digit_char (n % 83) ∷ []) (pos o)
    ∙ ap (λ z. times83 z +ℤ digit (index_of alphabet (digit_char (n % 83))))
        (read_digits-from count (n / 83) o
          (fewer (83 ^ count) (subst (λ k. n < k) (pow-suc 83 count) h)))
    ∙ ap (λ d. times83 (pos (o * 83 ^ count + n / 83)) +ℤ digit d)
        (index_of-digit_char (n % 83) (omega arith))
    ∙ pos-add (83 * (o * 83 ^ count + n / 83)) (n % 83)
    ∙ ap pos (
        shift (83 ^ count)
        ∙ ap (λ k. k + n) (mul_assoc o (83 ^ count) 83)
        ∙ ap (λ k. o * k + n) (sym (pow-suc 83 count)))
  where
    fewer : (k : ℕ) → n < k * 83 → n / 83 < k
    fewer k h = omega arith

    shift : (k : ℕ) → 83 * (o * k + n / 83) + n % 83 ≡ o * k * 83 + n
    shift k = omega arith

-- The digits of a number that has at most `count` of them are read as this number.
pub read_digits-write_digits :
    (count n : ℕ) → n < 83 ^ count → read_digits (write_digits count n) (pos 0) ≡ pos n
read_digits-write_digits count n h = read_digits-from count n 0 h ∙ ap pos (omega arith)

-- What a writer packs into a number is what the parts of the number are: a pair of sizes up to 9,
-- the three bytes of a colour, and three parts from -9 to 9.
pub unpacked :
    (x y red green blue a b c : ℕ)
    → x < 9
    → green < 256
    → blue < 256
    → b < 19
    → c < 19
    → (components (9 * y + x) ≡ (x + 1, 1 + y))
      × (average_colour (65536 * red + 256 * green + blue) ≡ (red, green, blue))
      × (parts (361 * a + 19 * b + c) ≡ (pos a -ℤ pos 9, pos b -ℤ pos 9, pos c -ℤ pos 9))
unfolding components average_colour parts
unpacked x y red green blue a b c hx hg hb hb' hc = (
  ap₂ (λ i j. (i + 1, 1 + j)) (omega arith) (omega arith),
  ap₂ (λ i (p : ℕ × ℕ). (i, p.0, p.1)) (omega arith)
      (ap₂ (λ i j. (i, j)) (omega arith) (omega arith)),
  ap₂ (λ i (p : ℕ × ℕ). (pos i -ℤ pos 9, pos p.0 -ℤ pos 9, pos p.1 -ℤ pos 9)) (omega arith)
      (ap₂ (λ i j. (i, j)) (omega arith) (omega arith)),
)
