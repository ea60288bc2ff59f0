-- ===== src/Table/Paging.antt =====
-- Which rows `tableUpdate` shows: those of the current page, among the rows that match.
use Prim.Native.String.{String}
use mathlib.Core.Path.{fun_ext}
use native.Mathlib.Nat.{div-add-mod, mod-lt, mul-zero}
use photo_blog.Base.{
  ℕ, zero, suc, ◌+◌, ◌-◌, ◌*◌, ◌<◌, ◌≤◌, ◌≡◌, refl, sym, ap, Bool, true, false, inl, inr, List, [],
  ◌∷◌, ◌++◌, arith, if◌then◌else◌, take, drop, select, length, map, Bool-cases, if_of_true,
  if_of_false, ◌∙◌, ap₂, ◌≡⟨◌⟩◌, ◌∎, take-add, drop-drop, take_of_length-le,
}
use photo_blog.Table.{
  Settings, Row, Table, on_page, scan_cells, row_matches, ceil_div, update_rows, table_update,
  click_page,
}

-- What a row holds, without its flag.
abbrev pub content : Row → ℕ × List String
content r = (r.rowid, r.cells)

-- The contents of the rows that are shown.
abbrev pub visible : List Row → List (ℕ × List String)
visible rows = map content (select (λ r. r.shown) rows)

module _ (s : Settings) (t : Table) (p : s.pagination ≡ true) where
  before_page : (m : ℕ) → m ≤ t.per_page * (t.page - 1) → on_page s t m ≡ false
  unfolding on_page
  before_page m h = ground arith

  after_page : (m : ℕ) → t.per_page * t.page < m → on_page s t m ≡ false
  unfolding on_page
  after_page m h = ground arith

  within_page :
      (m : ℕ) → t.per_page * (t.page - 1) < m → m ≤ t.per_page * t.page → on_page s t m ≡ true
  unfolding on_page
  within_page m h k = ground arith

  -- One matching row: `a` matches are still before the page, and `c` places are left on it.
  visible-cons :
      (m a c : ℕ) (r : Row) (rest : List Row) (later : List (ℕ × List String))
      → t.per_page * (t.page - 1) - m ≡ a
      → t.per_page * t.page - m - a ≡ c
      → ((a c : ℕ)
          → t.per_page * (t.page - 1) - (m + 1) ≡ a
          → t.per_page * t.page - (m + 1) - a ≡ c
          → visible rest ≡ take c (drop a later))
      → visible (record r { shown = on_page s t (m + 1) } ∷ rest)
        ≡ take c (drop a (content r ∷ later))
  visible-cons m zero zero r rest later h k ih =
      rw (after_page (m + 1) (omega arith)) (ih 0 0 (omega arith) (omega arith))
  visible-cons m zero (suc c) r rest later h k ih =
      rw (within_page (m + 1) (omega arith) (omega arith))
        (ap (◌∷◌ (content r)) (ih 0 c (omega arith) (omega arith)))
  visible-cons m (suc a) c r rest later h k ih =
      rw (before_page (m + 1) (omega arith)) (ih a c (omega arith) (omega arith))

page_size : (per page : ℕ) → 1 ≤ page → per * page - 0 - per * (page - 1) ≡ per
page_size per page h =
    let e : page ≡ page - 1 + 1 = omega arith in omega (arith, ap (λ (q : ℕ). per * q) e)

le-mul-ceil_div : (a b : ℕ) → 1 ≤ b → a ≤ b * ceil_div a b
le-mul-ceil_div a b h = omega (arith, div-add-mod (a + b - 1) b, mod-lt (a + b - 1) {m = b} h)

module _ (is_search_match : String → String → Bool) (s : Settings) where
  -- The contents of the rows that match the search of a table.
  abbrev pub found : Table → List Row → List (ℕ × List String)
  found t rows = map content (select (row_matches is_search_match s t) rows)

  visible-update_rows :
      (t : Table) (m a c : ℕ) (rows : List Row)
      → s.pagination ≡ true
      → t.per_page * (t.page - 1) - m ≡ a
      → t.per_page * t.page - m - a ≡ c
      → visible (update_rows is_search_match s t m rows).0 ≡ take c (drop a (found t rows))
  unfolding update_rows
  visible-update_rows t m zero zero [] p h k = refl
  visible-update_rows t m zero (suc c) [] p h k = refl
  visible-update_rows t m (suc a) zero [] p h k = refl
  visible-update_rows t m (suc a) (suc c) [] p h k = refl
  visible-update_rows t m a c (r ∷ rows) p h k =
      elim (Bool-cases (row_matches is_search_match s t r)) [
        | inr miss ↦ rw miss (visible-update_rows t m a c rows p h k)
        | inl hit ↦ rw hit (
            visible-cons s t p m a c r (update_rows is_search_match s t (m + 1) rows).0
              (found t rows) h k (λ a c. visible-update_rows t (m + 1) a c rows p))
      ]

  pub matches-update_rows :
      (t : Table) (m : ℕ) (rows : List Row)
      → (update_rows is_search_match s t m rows).1 ≡ m + length (found t rows)
  unfolding update_rows
  matches-update_rows t m [] = omega arith
  matches-update_rows t m (r ∷ rows) = elim (Bool-cases (row_matches is_search_match s t r)) [
    | inr miss ↦ rw miss (matches-update_rows t m rows)
    | inl hit ↦ rw hit (omega (arith, matches-update_rows t (m + 1) rows))
  ]

  -- Without pagination every row that matches is shown.
  visible-update_rows_all :
      (t : Table) (m : ℕ) (rows : List Row)
      → s.pagination ≡ false
      → visible (update_rows is_search_match s t m rows).0 ≡ found t rows
  unfolding update_rows on_page
  visible-update_rows_all t m [] p = refl
  visible-update_rows_all t m (r ∷ rows) p = elim (Bool-cases (row_matches is_search_match s t r)) [
    | inr miss ↦ rw miss (visible-update_rows_all t m rows p)
    | inl hit ↦ rw (hit, p) (ap (◌∷◌ (content r)) (visible-update_rows_all t (m + 1) rows p))
  ]

  content-update_rows :
      (t : Table) (m : ℕ) (rows : List Row)
      → map content (update_rows is_search_match s t m rows).0 ≡ map content rows
  unfolding update_rows
  content-update_rows t m [] = refl
  content-update_rows t m (r ∷ rows) =
      ap (◌∷◌ (content r))
        (content-update_rows t (if row_matches is_search_match s t r then m + 1 else m) rows)

  pub content-table_update :
      (t : Table) → map content (table_update is_search_match s t).rows ≡ map content t.rows
  unfolding table_update
  content-table_update t = content-update_rows t 0 t.rows

  -- The rows of one page of a list of contents.
  abbrev pub page_of : Table → List (ℕ × List String) → List (ℕ × List String)
  page_of t xs = take t.per_page (drop (t.per_page * (t.page - 1)) xs)

  -- After an update of a table with pagination on a page from 1, the rows shown are, in order,
  -- those of that page among the rows that match; without pagination, all that match. The number
  -- of matches is theirs, and the rows keep their contents and their order.
  pub visible-table_update :
      (t : Table)
      → 1 ≤ t.page
      → (visible (table_update is_search_match s t).rows
          ≡ (if s.pagination then page_of t (found t t.rows) else found t t.rows))
        × ((table_update is_search_match s t).matches ≡ length (found t t.rows))
        × (map content (table_update is_search_match s t).rows ≡ map content t.rows)
  unfolding table_update
  visible-table_update t h = (
    elim (Bool-cases s.pagination) [
      | inl p ↦
          visible-update_rows t 0 (t.per_page * (t.page - 1)) t.per_page t.rows p (omega arith)
            (page_size t.per_page t.page h)
          ∙ sym (if_of_true _ _ p)
      | inr p ↦ visible-update_rows_all t 0 t.rows p ∙ sym (if_of_false _ _ p)
    ],
    omega (arith, matches-update_rows t 0 t.rows),
    content-update_rows t 0 t.rows,
  )

  -- The loop over the cells reads nothing of a table but its searches.
  module _ (t u : Table) (p : t.search ≡ u.search) (q : t.search_arr ≡ u.search_arr) where
    scan_cells-congr :
        (k : ℕ) (match global_match : Bool) (cells : List String)
        → scan_cells is_search_match s t k match global_match cells
          ≡ scan_cells is_search_match s u k match global_match cells
    unfolding scan_cells
    scan_cells-congr k match global_match [] = refl
    scan_cells-congr k match global_match (c ∷ cells) =
        simp (p, q) (scan_cells-congr (k + 1) _ _ cells)

    pub found-congr : (rows : List Row) → found t rows ≡ found u rows
    unfolding row_matches
    found-congr rows = rw (fun_ext {A = Row} (λ r. scan_cells-congr 0 true false r.cells))

  -- An update finds what it found before, since it keeps the cells.
  found-update_rows :
      (t : Table) (m : ℕ) (rows : List Row)
      → found t (update_rows is_search_match s t m rows).0 ≡ found t rows
  unfolding update_rows row_matches
  found-update_rows t m [] = refl
  found-update_rows t m (r ∷ rows) = elim (Bool-cases (row_matches is_search_match s t r)) [
    | inr miss ↦ rw miss (found-update_rows t m rows)
    | inl hit ↦ rw hit (ap (◌∷◌ (content r)) (found-update_rows t (m + 1) rows))
  ]

  found-click_page :
      (t : Table) (n : ℕ)
      → found (click_page is_search_match s n t) (click_page is_search_match s n t).rows
        ≡ found t t.rows
  unfolding click_page table_update
  found-click_page t n =
      found-congr (click_page is_search_match s n t) (record t { page = n }) refl refl
        (update_rows is_search_match s (record t { page = n }) 0 t.rows).0
      ∙ found-update_rows (record t { page = n }) 0 t.rows
      ∙ found-congr (record t { page = n }) t refl refl t.rows

  per_page-click_page :
      (t : Table) (n : ℕ) → (click_page is_search_match s n t).per_page ≡ t.per_page
  unfolding click_page table_update
  per_page-click_page t n = refl

  -- What is shown when the links of the pages n, …, n + k - 1 are clicked one after the other, each
  -- on the table that the one before left.
  abbrev pub clicked : Table → (n k : ℕ) → List (ℕ × List String)
  clicked t n zero = []
  clicked t n (suc k) =
      let u = click_page is_search_match s n t in
      let rest = clicked u (n + 1) k in visible u.rows ++ rest

  clicked-eq-take :
      (t : Table) (n k : ℕ)
      → s.pagination ≡ true
      → 1 ≤ n
      → clicked t n k ≡ take (t.per_page * k) (drop (t.per_page * (n - 1)) (found t t.rows))
  unfolding click_page
  clicked-eq-take t n zero p h = rw mul-zero
  clicked-eq-take t n (suc k) p h =
      visible u.rows ++ clicked u (n + 1) k
      ≡⟨ ap₂ ◌++◌ shown (clicked-eq-take u (n + 1) k p (omega arith)) ⟩
        take per (drop m xs)
        ++ take (u.per_page * k) (drop (u.per_page * (n + 1 - 1)) (found u u.rows))
      ≡⟨ ap₂ (λ q ys. take per (drop m xs) ++ take (q * k) (drop (q * (n + 1 - 1)) ys))
          (per_page-click_page t n) (found-click_page t n) ⟩
        take per (drop m xs) ++ take (per * k) (drop (per * (n + 1 - 1)) xs)
      ≡⟨ ap (λ q. take per (drop m xs) ++ take (per * k) q) next ⟩
        take per (drop m xs) ++ take (per * k) (drop per (drop m xs))
      ≡⟨ take-add per (per * k) (drop m xs) ⟩ take (per + per * k) (drop m xs)
      ≡⟨ ap (λ q. take q (drop m xs)) (omega arith) ⟩ take (per * suc k) (drop m xs) ∎
    where
      u : Table
      u = click_page is_search_match s n t

      per : ℕ
      per = t.per_page

      m : ℕ
      m = per * (n - 1)

      xs : List (ℕ × List String)
      xs = found t t.rows

      shown : visible (click_page is_search_match s n t).rows ≡ take per (drop m xs)
      shown = simp p at (
          (visible-table_update (record t { page = n }) h).0
          ∙ ap (λ q. if s.pagination then page_of (record t { page = n }) q else q)
              (found-congr (record t { page = n }) t refl refl t.rows))

      next : drop (per * (n + 1 - 1)) xs ≡ drop per (drop m xs)
      next =
          ap (λ q. drop q xs) (omega (arith, ap (λ (q : ℕ). per * q) index))
          ∙ sym (drop-drop m per xs)
        where
          index : n + 1 - 1 ≡ n - 1 + 1
          index = omega arith

  -- With pagination and at least one row to a page, clicking through the links of all pages, one after
  -- the other and each on the table that the one before left, shows every row that matches exactly
  -- once and in order.
  pub clicked-eq-found :
      (t : Table)
      → s.pagination ≡ true
      → 1 ≤ t.per_page
      → clicked t 1 (table_update is_search_match s t).pages ≡ found t t.rows
  unfolding table_update
  clicked-eq-found t p h =
      clicked-eq-take t 1 (ceil_div (update_rows is_search_match s t 0 t.rows).1 t.per_page) p
        (omega arith)
      ∙ rw mul-zero (
          take_of_length-le _ (found t t.rows) (
            omega (
              arith,
              matches-update_rows t 0 t.rows,
              le-mul-ceil_div (update_rows is_search_match s t 0 t.rows).1 t.per_page h,
            )))
