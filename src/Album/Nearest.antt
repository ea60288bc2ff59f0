-- ===== src/Album/Nearest.antt =====
-- The point of a GPX track that is nearest to a click: the search of `gpxPopupHandler` in
-- resources/static/album.js, which gives the time that the popup shows.
pub mod Shown
use Prim.Native.String.{String}
use photo_blog.Base.{
  ℕ, ◌+◌, ◌≡◌, ◌≢◌, refl, sym, ap, ◌∙◌, false, ◌⊎◌, inl, inr, Option, none, some, List, [], ◌∷◌,
  ◌++◌, All, if◌then◌else◌, Bool-cases, if_of_true, if_of_false, get_elem?,
}
use photo_blog.Album.Bounds.{Numbers}

-- An element of the layer's points: one point, or a list of points.
pub data Entry {ℓ} (Point : Type ℓ) : Type ℓ where
  single : Point → Entry Point
  several : List Point → Entry Point

-- An element of `coordTimes` at an index: a time, or one of a list of times.
abbrev pub entry_time : Option (Entry String) → List ℕ → Option String
entry_time (some (single t)) [] = some t
entry_time (some (several times)) (j ∷ []) = get_elem? times j
entry_time _ _ = none

-- `ts`, from `coordTimes` and `ptIdx`.
abbrev pub time_at : List (Entry String) → List ℕ → Option String
time_at times [] = none
time_at times (i ∷ idx) = entry_time (get_elem? times i) idx

-- `dist` is the distance of a point from the click.
module _ (numbers : Numbers) (Point : Type 0) (dist : Point → numbers.Number) where
  open numbers use {Number, ltb, ltb_irrefl, ltb_asymm, not_ltb_trans}

  pub record Nearest : Type 0 where
    pub shortest : Option Number
    pub pt_idx : List ℕ

  -- `if (shortest === null || shortest > dist)`
  unfoldable pub offer : Nearest → List ℕ → Number → Nearest
  offer s idx d = elim s.shortest [
    | none ↦ record { shortest = some d; pt_idx = idx }
    | some n ↦ if ltb d n then record { shortest = some d; pt_idx = idx } else s
  ]

  unfoldable pub scan_points : (i j : ℕ) → Nearest → List Point → Nearest
  unfolding offer
  scan_points i j s [] = s
  scan_points i j s (p ∷ points) = scan_points i (j + 1) (offer s (i ∷ j ∷ []) (dist p)) points

  unfoldable pub scan_entries : (i : ℕ) → Nearest → List (Entry Point) → Nearest
  unfolding offer scan_points
  scan_entries i s [] = s
  scan_entries i s (single p ∷ entries) = scan_entries (i + 1) (offer s (i ∷ []) (dist p)) entries
  scan_entries i s (several points ∷ entries) =
      scan_entries (i + 1) (scan_points i 0 s points) entries

  -- The search over all the points.
  unfoldable pub nearest : List (Entry Point) → Nearest
  unfolding scan_entries
  nearest entries = scan_entries 0 (record { shortest = none; pt_idx = [] }) entries

  -- All points with their indices.
  abbrev pub numbered : (i j : ℕ) → List Point → List (List ℕ × Point)
  numbered i j [] = []
  numbered i j (p ∷ points) = (i ∷ j ∷ [], p) ∷ numbered i (j + 1) points

  abbrev pub all_points : ℕ → List (Entry Point) → List (List ℕ × Point)
  all_points i [] = []
  all_points i (single p ∷ entries) = (i ∷ [], p) ∷ all_points (i + 1) entries
  all_points i (several points ∷ entries) = numbered i 0 points ++ all_points (i + 1) entries

  abbrev best : Nearest → List (List ℕ × Point) → Nearest
  best s [] = s
  best s ((idx, p) ∷ rest) = best (offer s idx (dist p)) rest

  best-append :
      (s : Nearest) (xs ys : List (List ℕ × Point)) → best s (xs ++ ys) ≡ best (best s xs) ys
  best-append s [] ys = refl
  best-append s ((idx, p) ∷ xs) ys = best-append (offer s idx (dist p)) xs ys

  scan_points-best :
      (i j : ℕ) (s : Nearest) (points : List Point)
      → scan_points i j s points ≡ best s (numbered i j points)
  unfolding scan_points
  scan_points-best i j s [] = refl
  scan_points-best i j s (p ∷ points) =
      scan_points-best i (j + 1) (offer s (i ∷ j ∷ []) (dist p)) points

  scan_entries-best :
      (i : ℕ) (s : Nearest) (entries : List (Entry Point))
      → scan_entries i s entries ≡ best s (all_points i entries)
  unfolding scan_entries
  scan_entries-best i s [] = refl
  scan_entries-best i s (single p ∷ entries) =
      scan_entries-best (i + 1) (offer s (i ∷ []) (dist p)) entries
  scan_entries-best i s (several points ∷ entries) =
      scan_entries-best (i + 1) (scan_points i 0 s points) entries
      ∙ ap (λ t. best t (all_points (i + 1) entries)) (scan_points-best i 0 s points)
      ∙ sym (best-append s (numbered i 0 points) (all_points (i + 1) entries))

  abbrev pub Some : (List ℕ × Point → Type 0) → List (List ℕ × Point) → Type 0
  Some P [] = ⊥
  Some P (x ∷ xs) = P x ⊎ Some P xs

  abbrev found : Number → List ℕ → Nearest
  found n idx = record { shortest = some n; pt_idx = idx }

  -- What is found among points, once there is a first one.
  record IsBest (n : Number) (idx : List ℕ) (xs : List (List ℕ × Point)) (s : Nearest)
      : Type 0 where
    at : Number
    index : List ℕ
    is : s ≡ found at index
    below : ltb n at ≡ false
    least : All (λ x. ltb (dist x.1) at ≡ false) xs
    held : ((n ≡ at) × (idx ≡ index)) ⊎ Some (λ x. (x.0 ≡ index) × (dist x.1 ≡ at)) xs

  best-IsBest :
      (n : Number) (idx : List ℕ) (xs : List (List ℕ × Point))
      → IsBest n idx xs (best (found n idx) xs)
  unfolding offer
  best-IsBest n idx [] = record {
    at = n;
    index = idx;
    is = refl;
    below = ltb_irrefl n;
    least = tt;
    held = inl (refl, refl);
  }
  best-IsBest n idx ((i, p) ∷ xs) = elim (Bool-cases (ltb (dist p) n)) [
    | inl t ↦
        let r = best-IsBest (dist p) i xs in
        record {
          at = r.at;
          index = r.index;
          is = ap (λ s. best s xs) (if_of_true _ _ t) ∙ r.is;
          below = not_ltb_trans r.at (dist p) n r.below (ltb_asymm (dist p) n t);
          least = (r.below, r.least);
          held = elim r.held [ inl (e, q) ↦ inr (inl (q, e)) | inr m ↦ inr (inr m) ];
        }
    | inr t ↦
        let r = best-IsBest n idx xs in
        record {
          at = r.at;
          index = r.index;
          is = ap (λ s. best s xs) (if_of_false _ _ t) ∙ r.is;
          below = r.below;
          least = (not_ltb_trans r.at n (dist p) r.below t, r.least);
          held = elim r.held [ inl both ↦ inl both | inr m ↦ inr (inr m) ];
        }
  ]

  -- For distances that are ordered as numbers without NaN are: if the track has a point at all, the
  -- search ends with the index of a point, and with its distance, than which no point of the track
  -- has a smaller one.
  pub nearest-least :
      (entries : List (Entry Point))
      → all_points 0 entries ≢ []
      → (d : Number) × (idx : List ℕ) × (nearest entries
          ≡ record { shortest = some d; pt_idx = idx })
        × All (λ x. ltb (dist x.1) d ≡ false) (all_points 0 entries)
        × Some (λ x. (x.0 ≡ idx) × (dist x.1 ≡ d)) (all_points 0 entries)
  unfolding nearest offer
  nearest-least entries h =
      let (d, idx, e, low, held) = first_point (all_points 0 entries) h in
      (d, idx, scan_entries-best 0 (record { shortest = none; pt_idx = [] }) entries ∙ e, low, held)
    where
      first_point :
          (xs : List (List ℕ × Point))
          → xs ≢ []
          → (d : Number) × (idx : List ℕ) × (best (record { shortest = none; pt_idx = [] }) xs
              ≡ found d idx)
            × All (λ x. ltb (dist x.1) d ≡ false) xs
            × Some (λ x. (x.0 ≡ idx) × (dist x.1 ≡ d)) xs
      first_point [] k = absurd (k refl)
      first_point ((i, p) ∷ xs) k =
          let r = best-IsBest (dist p) i xs in
          (
            r.at,
            r.index,
            r.is,
            (r.below, r.least),
            elim r.held [ inl (e, q) ↦ inl (q, e) | inr m ↦ inr m ],
          )
