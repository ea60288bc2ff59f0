-- ===== src/FileSize/Rounded.antt =====
-- The number and the unit that are shown.
use Prim.Native.String.{String}
use mathlib.Core.Path.{subst}
use native.Mathlib.Nat.{le-div_iff_mul-le, lt-mul-div-succ, mul-div-le, mul_assoc, pow-succ'}
use photo_blog.Base.{
  ℕ, suc, ◌+◌, ◌*◌, ◌^◌, ◌≤◌, ◌<◌, ◌≡◌, refl, sym, ap, ◌∙◌, ◌⊎◌, inl, inr, ◌↔◌, if-elim, false,
  some, List, [], ◌∷◌, ltb, leb, leb→le, ltb→lt, Bool-cases, if_of_true, if_of_false, length,
  get_elem?, arith,
}
use photo_blog.FileSize.{Size, in_bytes, scaled, tenths, divide, larger_units, human_file_size}

-- `t` tenths are the nearest to `n / d`, half a tenth rounded up.
abbrev pub IsNearest : (n d t : ℕ) → Type 0
IsNearest n d t = (2 * d * t ≤ 20 * n + d) × (20 * n + d < 2 * d * (t + 1))

tenths-IsNearest : (n d : ℕ) → 0 < d → IsNearest n d (tenths n d)
tenths-IsNearest n d h = (mul-div-le (20 * n + d) (2 * d), lt-mul-div-succ (20 * n + d) (twice d h))
  where
    twice : (d : ℕ) → 0 < d → 0 < 2 * d
    twice d h = omega arith

le-tenths_iff : (n d t : ℕ) → 0 < d → (t ≤ tenths n d) ↔ (t * (2 * d) ≤ 20 * n + d)
le-tenths_iff n d t h = le-div_iff_mul-le (omega arith)

-- What is shown of `n / d` with the unit at `k`: the nearest tenths, one unit at least, less than
-- the next unit unless there is none, and not shown with the unit before since it is 1024 of it or
-- more.
abbrev pub Fits : (n d : ℕ) (units : List String) → Size → Type 0
Fits n d units (in_bytes b) = ⊥
Fits n d units (scaled t unit) =
    (k : ℕ) × (get_elem? units k ≡ some unit)
    × IsNearest n (d * 1024 ^ suc k) t
    × (10 ≤ t)
    × ((t < 10240) ⊎ (suc k ≡ length units))
    × ((k ≡ 0) ⊎ (10240 ≤ tenths n (d * 1024 ^ k)))

first-Fits :
    (n d : ℕ) (unit : String) (more : List String)
    → 0 < d
    → 20479 * d ≤ 20 * n
    → (tenths n (d * 1024) < 10240) ⊎ (1 ≡ suc (length more))
    → Fits n d (unit ∷ more) (scaled (tenths n (d * 1024)) unit)
first-Fits n d unit more h e last = (
  0,
  refl,
  tenths-IsNearest n (d * 1024) (omega arith),
  (le-tenths_iff n (d * 1024) 10 (omega arith)).1 (omega arith),
  last,
  inl refl,
)

later-Fits :
    (n d : ℕ) (unit : String) (more : List String) (s : Size)
    → 10240 ≤ tenths n (d * 1024)
    → Fits n (d * 1024) more s
    → Fits n d (unit ∷ more) s
later-Fits n d unit more (in_bytes b) e f = f
later-Fits n d unit more (scaled t u) e (k, there, near, least, most, before) = (
  suc k,
  there,
  subst (λ m. IsNearest n m t) (shifted (suc k)) near,
  least,
  elim most [ inl h ↦ inl h | inr h ↦ inr (ap suc h) ],
  elim before [
    | inl z ↦ inr (subst (λ j. 10240 ≤ tenths n (d * 1024 ^ suc j)) (sym z) e)
    | inr h ↦ inr (subst (λ m. 10240 ≤ tenths n m) (shifted k) h)
  ],
)
  where
    shifted : (j : ℕ) → d * 1024 * 1024 ^ j ≡ d * 1024 ^ suc j
    shifted j = mul_assoc d 1024 (1024 ^ j) ∙ ap (λ m. d * m) (sym (pow-succ' 1024 j))

divide-Fits :
    (n d : ℕ) (unit : String) (more : List String)
    → 0 < d
    → 20479 * d ≤ 20 * n
    → Fits n d (unit ∷ more) (divide n d unit more)
unfolding divide
divide-Fits n d unit [] h e = first-Fits n d unit [] h e (inr refl)
divide-Fits n d unit (next ∷ more) h e =
    if-elim (Fits n d (unit ∷ next ∷ more)) (leb 10240 (tenths n (d * 1024)))
      (divide n (d * 1024) next more) (scaled (tenths n (d * 1024)) unit)
      (λ b.
        let big = leb→le 10240 (tenths n (d * 1024)) b in
        later-Fits n d unit (next ∷ more) (divide n (d * 1024) next more) big
          (divide-Fits n (d * 1024) next more (omega arith) (enough big)))
      (λ b. first-Fits n d unit (next ∷ more) h e (inl (below (tenths n (d * 1024)) b)))
  where
    below : (t : ℕ) → leb 10240 t ≡ false → t < 10240
    below t b = ground arith

    enough : 10240 ≤ tenths n (d * 1024) → 20479 * (d * 1024) ≤ 20 * n
    enough big = let k = (le-tenths_iff n (d * 1024) 10240 (omega arith)).0 big in omega arith

-- The size that is shown for a number of bytes: the bytes below 1024; otherwise the nearest tenths
-- of a unit, at least one unit, fewer than 1024 of it unless the unit is the largest, and at least
-- 1024 of the unit before, if there is one, when they are rounded.
pub human_file_size-Fits :
    (bytes : ℕ)
    → ((bytes < 1024) × (human_file_size bytes ≡ in_bytes bytes))
      ⊎ ((1024 ≤ bytes) × Fits bytes 1 ("KiB" ∷ larger_units) (human_file_size bytes))
unfolding human_file_size
human_file_size-Fits bytes = elim (Bool-cases (ltb bytes 1024)) [
  | inl e ↦ inl (ltb→lt bytes 1024 e, if_of_true (in_bytes bytes) _ e)
  | inr e ↦ inr (
    large bytes e,
    subst (Fits bytes 1 ("KiB" ∷ larger_units))
        (sym (if_of_false (in_bytes bytes) (divide bytes 1 "KiB" larger_units) e))
        (divide-Fits bytes 1 "KiB" larger_units (omega arith)
          (let h = large bytes e in omega arith)),
  )
]
  where
    large : (n : ℕ) → ltb n 1024 ≡ false → 1024 ≤ n
    large n e = ground arith
