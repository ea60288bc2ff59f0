-- ===== src/Album/Nearest/Shown.antt =====
-- The time that the popup of a track shows is that of a nearest point.
use Prim.Native.String.{String}
use mathlib.Core.Path.{subst}
use photo_blog.Base.{
  ℕ, ◌+◌, ◌≡◌, ◌≢◌, refl, sym, ap, ◌∙◌, false, inl, inr, some, List, [], ◌∷◌, ◌++◌, append_assoc,
  length, length-append, get_elem?, All, All-append, map, arith,
}
use photo_blog.Album.Bounds.{Numbers}
use photo_blog.Album.Nearest.{
  Entry, single, several, Nearest, nearest, entry_time, time_at, numbered, all_points, Some,
  nearest-least,
}

get_elem?-append :
    {A : Type 0} (xs ys : List A) (y : A) → get_elem? (xs ++ y ∷ ys) (length xs) ≡ some y
get_elem?-append [] ys y = refl
get_elem?-append (x ∷ xs) ys y = get_elem?-append xs ys y

length-snoc :
    {A : Type 0} (xs : List A) (y : A) (i : ℕ) → length xs ≡ i → length (xs ++ y ∷ []) ≡ i + 1
length-snoc xs y i e = omega (arith, length-append xs (y ∷ []))

module _ (numbers : Numbers) (Point : Type 0) (dist : Point → numbers.Number)
    (time : Point → String) where
  open numbers use {Number, ltb}

  -- The track's `coordTimes`, in the shape of its points.
  abbrev pub timed : Entry Point → Entry String
  timed (single p) = single (time p)
  timed (several points) = several (map time points)

  abbrev Timed : List (Entry String) → List ℕ × Point → Type 0
  Timed times x = time_at times x.0 ≡ some (time x.1)

  numbered-Timed :
      (pre : List (Entry String)) (post : List (Entry String)) (before : List String)
      (points : List Point) (j : ℕ)
      → length before ≡ j
      → All
          (Timed (pre ++ several (before ++ map time points) ∷ post))
          (numbered numbers Point dist (length pre) j points)
  numbered-Timed pre post before [] j e = tt
  numbered-Timed pre post before (p ∷ points) j e = (
    ap (λ o. entry_time o (j ∷ []))
          (get_elem?-append pre post (several (before ++ time p ∷ map time points)))
        ∙ ap (get_elem? (before ++ time p ∷ map time points)) (sym e)
        ∙ get_elem?-append before (map time points) (time p),
    subst
        (λ l.
          All (Timed (pre ++ several l ∷ post))
            (numbered numbers Point dist (length pre) (j + 1) points))
        (append_assoc before (time p ∷ []) (map time points))
        (numbered-Timed pre post (before ++ time p ∷ []) points (j + 1)
          (length-snoc before (time p) j e)),
  )

  -- The elements after the one at `i`.
  rest-Timed :
      (pre : List (Entry String)) (i : ℕ) (t : Entry String) (entries : List (Entry Point))
      → All
          (Timed ((pre ++ t ∷ []) ++ map timed entries))
          (all_points numbers Point dist (i + 1) entries)
      → All (Timed (pre ++ t ∷ map timed entries)) (all_points numbers Point dist (i + 1) entries)
  rest-Timed pre i t entries =
      subst (λ l. All (Timed l) (all_points numbers Point dist (i + 1) entries))
        (append_assoc pre (t ∷ []) (map timed entries))

  all_points-Timed :
      (pre : List (Entry String)) (i : ℕ) (entries : List (Entry Point))
      → length pre ≡ i
      → All (Timed (pre ++ map timed entries)) (all_points numbers Point dist i entries)
  all_points-Timed pre i [] e = tt
  all_points-Timed pre i (single p ∷ entries) e = (
    ap (λ o. entry_time o [])
        (ap (get_elem? (pre ++ single (time p) ∷ map timed entries)) (sym e)
          ∙ get_elem?-append pre (map timed entries) (single (time p))),
    rest-Timed pre i (single (time p)) entries (
        all_points-Timed (pre ++ single (time p) ∷ []) (i + 1) entries
          (length-snoc pre (single (time p)) i e)),
  )
  all_points-Timed pre i (several points ∷ entries) e =
      All-append (Timed (pre ++ several (map time points) ∷ map timed entries))
        (numbered numbers Point dist i 0 points) (all_points numbers Point dist (i + 1) entries)
        (subst
          (λ k.
            All (Timed (pre ++ several (map time points) ∷ map timed entries))
              (numbered numbers Point dist k 0 points))
          e (numbered-Timed pre (map timed entries) [] points 0 refl))
        (rest-Timed pre i (several (map time points)) entries (
          all_points-Timed (pre ++ several (map time points) ∷ []) (i + 1) entries
            (length-snoc pre (several (map time points)) i e)))

  -- A point with the time that is found and with the distance that is found.
  held_point :
      (times : List (Entry String)) (idx : List ℕ) (d : Number) (xs : List (List ℕ × Point))
      → All (Timed times) xs
      → Some numbers Point dist (λ x. (x.0 ≡ idx) × (dist x.1 ≡ d)) xs
      → (p : Point) × (time_at times idx ≡ some (time p)) × (dist p ≡ d)
  held_point times idx d [] h k = absurd k
  held_point times idx d (x ∷ xs) (t, h) (inl (e, q)) = (x.1, ap (time_at times) (sym e) ∙ t, q)
  held_point times idx d (x ∷ xs) (t, h) (inr k) = held_point times idx d xs h k

  -- For distances that are ordered as numbers without NaN are: where the track has a point, and its
  -- times have the shape of its points, the time that is shown is that of a point of the track than
  -- which none is nearer.
  pub time_at-nearest :
      (entries : List (Entry Point))
      → all_points numbers Point dist 0 entries ≢ []
      → (p : Point) × (time_at (map timed entries) (nearest numbers Point dist entries).pt_idx
          ≡ some (time p))
        × All (λ x. ltb (dist x.1) (dist p) ≡ false) (all_points numbers Point dist 0 entries)
  time_at-nearest entries h =
      let (d, idx, e, low, held) = nearest-least numbers Point dist entries h in
      let (p, shown, q) =
        held_point (map timed entries) idx d (all_points numbers Point dist 0 entries)
          (all_points-Timed [] 0 entries refl) held in
      (
        p,
        ap (λ (s : Nearest numbers Point dist). time_at (map timed entries) s.pt_idx) e ∙ shown,
        subst (λ n. All (λ x. ltb (dist x.1) n ≡ false) (all_points numbers Point dist 0 entries))
            (sym q) low,
      )
