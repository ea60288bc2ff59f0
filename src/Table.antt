-- ===== src/Table.antt =====
-- The table widget `fancyTable` of resources/static/db/script.js (and, with other spacing, of
-- resources/static/stats/script.js): its state, `tableUpdate` and the handlers that change it.
-- The page's rows are a list; showing and hiding a row sets its flag.
pub mod Paging
pub mod Bar
pub mod Session
pub mod View
pub mod Match
pub mod Sorting
mod Tests
use Prim.Native.String.{String}
use text.Mathlib.Text.{◌==◌ as str_eq}
use photo_blog.Base.{
  ℕ, zero, suc, ◌+◌, ◌-◌, ◌*◌, ◌/◌, Bool, true, false, not, ◌&&◌, ◌||◌, Option, none, some, List,
  [], ◌∷◌, ◌++◌, ltb, leb, ◌==◌, if◌then◌else◌, get_elem?,
}

-- The settings that the operations below read. `global_search_exclude_columns` is `none` where
-- the option is not an array.
pub record Settings : Type 0 where
  pub pagination : Bool
  pub pag_closest : ℕ
  pub global_search : Bool
  pub global_search_exclude_columns : Option (List ℕ)

pub record Row : Type 0 where
  pub rowid : ℕ
  pub cells : List String
  pub shown : Bool

-- An element of the pagination bar: a page's link, marked if it is the current page, or an
-- ellipsis.
pub data Item : Type 0 where
  link : (n : ℕ) (active : Bool) → Item
  ellipsis : Item

-- `elm.fancyTable` with the table's rows and its pagination bar.
pub record Table : Type 0 where
  pub rows : List Row
  pub per_page : ℕ
  pub page : ℕ
  pub pages : ℕ
  pub matches : ℕ
  pub search_arr : List String
  pub search : String
  pub bar : List Item

-- A string that JavaScript takes for true.
abbrev pub truthy : String → Bool
truthy s = not (str_eq s "")

-- `searchArr[n]`, where a missing entry counts as the empty one.
abbrev pub search_at : List String → ℕ → String
search_at xs n = elim (get_elem? xs n) [ none ↦ "" | some s ↦ s ]

abbrev pub includes : List ℕ → ℕ → Bool
includes [] n = false
includes (x ∷ xs) n = x == n || includes xs n

-- Whether column `n`, counted from 0, takes part in the global search.
unfoldable pub searched : Settings → ℕ → Bool
searched s n = elim s.global_search_exclude_columns [
  | none ↦ true
  | some xs ↦ not (includes xs (n + 1))
]

-- Math.ceil(a / b), for b other than 0.
abbrev pub ceil_div : ℕ → ℕ → ℕ
ceil_div a b = (a + b - 1) / b

module _ (s : Settings) where
  -- Whether the `m`-th match, counted from 1, stands on the current page.
  unfoldable pub on_page : Table → ℕ → Bool
  on_page t m = not s.pagination || ltb (t.per_page * (t.page - 1)) m && leb m (t.per_page * t.page)

  -- What the bar shows for page `n`: the page's link with the ellipses beside it, or nothing.
  unfoldable pub bar_items : (page pages n : ℕ) → List Item
  bar_items page pages n =
      let near = ltb page (n + s.pag_closest + 1) && ltb n (page + s.pag_closest + 1) in
      let before = n == pages && ltb (page + s.pag_closest + 1) pages in
      let after = n == 1 && ltb (s.pag_closest + 2) page in
      if n == 1 || near || n == pages
      then (if before then ellipsis ∷ [] else [])
        ++ (link n (n == page) ∷ (if after then ellipsis ∷ [] else []))
      else []

  -- The loop `for (n = …; n <= pages; n++)` with `k` rounds left.
  unfoldable pub bar_from : (page pages n k : ℕ) → List Item
  bar_from page pages n zero = []
  bar_from page pages n (suc k) = bar_items page pages n ++ bar_from page pages (n + 1) k

-- `is_search_match` is the method `isSearchMatch`.
module _ (is_search_match : String → String → Bool) (s : Settings) where
  -- The loop over a row's cells, with the variables `n`, `match` and `globalMatch`.
  pub scan_cells : Table → ℕ → Bool → Bool → List String → Bool
  scan_cells t n match global_match [] =
      s.global_search && global_match || not s.global_search && match
  scan_cells t n match global_match (html ∷ rest) =
      let by_column = search_at t.search_arr n in
      let misses =
        not s.global_search && truthy by_column && not (is_search_match html by_column) in
      let hits = s.global_search && (not (truthy t.search) || is_search_match html t.search) in
      scan_cells t (n + 1) (if misses then false else match)
        (if not misses && hits && searched s n then true else global_match) rest

  unfoldable pub row_matches : Table → Row → Bool
  row_matches t r = scan_cells t 0 true false r.cells

  -- The loop over the rows: `m` matches were met before.
  unfoldable pub update_rows : Table → ℕ → List Row → List Row × ℕ
  update_rows t m [] = ([], m)
  update_rows t m (r ∷ rs) =
      let found = row_matches t r in
      let m' = if found then m + 1 else m in
      let rest = update_rows t m' rs in
      (record r { shown = found && on_page s t m' } ∷ rest.0, rest.1)

  -- `tableUpdate`. Without pagination the bar is left as it is.
  unfoldable pub table_update : Table → Table
  table_update t =
      let (rows, matches) = update_rows t 0 t.rows in
      let pages = ceil_div matches t.per_page in
      record t {
        rows = rows;
        matches = matches;
        pages = pages;
        bar = if s.pagination then bar_from s t.page pages 1 pages else t.bar;
      }

  -- A click on the link of page `n`.
  unfoldable pub click_page : ℕ → Table → Table
  click_page n t = table_update (record t { page = n })

  -- A change of the search field of a table with global search.
  unfoldable pub change_search : String → Table → Table
  change_search query t = table_update (record t { search = query; page = 1 })
