-- ===== src/FileSize/Rounds.antt =====
-- The loop of `humanFileSize`, round by round with the index of the unit, and how it ends.
use Prim.Native.String.{String}
use photo_blog.Base.{
  ℕ, zero, suc, ◌+◌, ◌*◌, ◌-◌, ◌≤◌, ◌<◌, ◌≡◌, refl, sym, ap, ◌∙◌, false, true, Bool, ◌&&◌, Option,
  none, some, List, [], ◌∷◌, ltb, leb, if_of_true, if_of_false, Bool-cases, inl, inr, length,
  get_elem?, arith, if◌then◌else◌,
}
use photo_blog.FileSize.{Size, in_bytes, scaled, tenths, divide, larger_units, human_file_size}

abbrev pub all_units : List String
all_units = "KiB" ∷ larger_units

abbrev pub with_unit : (tenths : ℕ) → Option String → Option Size
with_unit tenths none = none
with_unit tenths (some unit) = some (scaled tenths unit)

-- One round for each unit of fuel: `n / d` is the number before the round, `u` its unit's index.
unfoldable pub loop : (units : List String) (fuel n d u : ℕ) → Option Size
loop units zero n d u = none
loop units (suc fuel) n d u =
    let rest = loop units fuel n (d * 1024) (suc u) in
    if leb 10240 (tenths n (d * 1024)) && ltb u (length units - 1)
    then rest
    else with_unit (tenths n (d * 1024)) (get_elem? units u)

abbrev from : ℕ → List String → List String
from zero xs = xs
from (suc k) [] = []
from (suc k) (x ∷ xs) = from k xs

from-get :
    (k : ℕ) (xs : List String) (x : String) (more : List String)
    → from k xs ≡ x ∷ more
    → get_elem? xs k ≡ some x
from-get zero [] x more e = cc
from-get zero (y ∷ xs) x more e = cc
from-get (suc k) [] x more e = cc
from-get (suc k) (y ∷ xs) x more e = from-get k xs x more e

from-suc :
    (k : ℕ) (xs : List String) (x : String) (more : List String)
    → from k xs ≡ x ∷ more
    → from (suc k) xs ≡ more
from-suc zero [] x more e = cc
from-suc zero (y ∷ xs) x more e = cc
from-suc (suc k) [] x more e = cc
from-suc (suc k) (y ∷ xs) x more e = from-suc k xs x more e

from-length :
    (k : ℕ) (xs : List String) (x : String) (more : List String)
    → from k xs ≡ x ∷ more
    → length xs ≡ k + suc (length more)
from-length zero [] x more e = cc
from-length zero (y ∷ xs) x more e = omega (arith, ap length e)
from-length (suc k) [] x more e = cc
from-length (suc k) (y ∷ xs) x more e = omega (arith, from-length k xs x more e)

loop-divide :
    (units : List String) (fuel n d u : ℕ) (unit : String) (more : List String)
    → from u units ≡ unit ∷ more
    → length more < fuel
    → loop units fuel n d u ≡ some (divide n d unit more)
unfolding loop divide
loop-divide units zero n d u unit more e h = absurd (none_left (length more) h)
  where
    none_left : (m : ℕ) → m < 0 → ⊥
    none_left m h = omega arith
loop-divide units (suc fuel) n d u unit [] e h =
    if_of_false _ _ (last (leb 10240 (tenths n (d * 1024))) (from-length u units unit [] e))
    ∙ ap (with_unit (tenths n (d * 1024))) (from-get u units unit [] e)
  where
    last : (b : Bool) → length units ≡ u + 1 → (b && ltb u (length units - 1)) ≡ false
    last b e = ground arith
loop-divide units (suc fuel) n d u unit (next ∷ more) e h =
    elim (Bool-cases (leb 10240 (tenths n (d * 1024)))) [
      | inl b ↦
          if_of_true _ _ (again _ (length more) b (from-length u units unit (next ∷ more) e))
          ∙ loop-divide units fuel n (d * 1024) (suc u) next more
              (from-suc u units unit (next ∷ more) e) (omega arith)
          ∙ ap some (sym (if_of_true _ _ b))
      | inr b ↦
          if_of_false _ _ (stop _ b)
          ∙ ap (with_unit (tenths n (d * 1024))) (from-get u units unit (next ∷ more) e)
          ∙ ap some (sym (if_of_false _ _ b))
    ]
  where
    again :
        (b : Bool) (m : ℕ)
        → b ≡ true
        → length units ≡ u + suc (suc m)
        → (b && ltb u (length units - 1)) ≡ true
    again b m e k = ground arith

    stop : (b : Bool) → b ≡ false → (b && ltb u (length units - 1)) ≡ false
    stop b e = ground arith

-- The loop as it is written, a number of bytes of 1024 or more divided until its tenths are few
-- enough or its unit is the last: after at most as many rounds as there are units, eight, it ends,
-- with a unit that exists, and with what the recursion along the list of units gives.
pub loop-human_file_size :
    (bytes fuel : ℕ)
    → 1024 ≤ bytes
    → length all_units ≤ fuel
    → loop all_units fuel bytes 1 0 ≡ some (human_file_size bytes)
unfolding human_file_size
loop-human_file_size bytes fuel h enough =
    loop-divide all_units fuel bytes 1 0 "KiB" larger_units refl (omega arith)
    ∙ ap some (sym (if_of_false (in_bytes bytes) _ (large bytes h)))
  where
    large : (n : ℕ) → 1024 ≤ n → ltb n 1024 ≡ false
    large n h = ground arith
