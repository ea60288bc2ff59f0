-- ===== src/Table/Sorting/Headers.antt =====
-- A table in use, with its columns sorted: no row is lost or repeated, and the order of the rows is
-- recorded for the next sort.
use Prim.Native.Nat.{Ordering}
use Prim.Native.String.{String}
use mathlib.Core.List.{Perm}
use mathlib.Core.List.Perm
use photo_blog.Base.{ℕ, ◌≡◌, Bool, Option, some, List, map, get_elem?}
use photo_blog.Table.{Settings, Row, click_page, change_search}
use photo_blog.Table.Paging.{content}
use photo_blog.Table.Sorting.{
  Comparisons, SortOrder, SortAs, Sorted, click_header, change_column_search, init,
}
use photo_blog.Table.Sorting.Numbered.{ids}

-- `sort` returns the elements that it is given, whatever it is told of their order.
module _ (c : Comparisons) (locale_compare : Bool)
    (sort : (Row → Row → Ordering) → List Row → List Row) (sort_as : ℕ → SortAs)
    (value_of : Row → ℕ → String)
    (sort-Perm : (f : Row → Row → Ordering) (rows : List Row) → Perm (sort f rows) rows)
    (is_search_match : String → String → Bool) (settings : Settings) where
  abbrev pub contents : Sorted → List (ℕ × List String)
  contents s = map content s.table.rows

  -- What the reader does with the table.
  pub data Step (s : Sorted) : Sorted → Type 0 where
    header :
        (n : ℕ)
        → Step s (click_header c locale_compare sort sort_as value_of is_search_match settings n s)
    column_query :
        (n : ℕ) (q : String)
        → Step s (
            change_column_search c locale_compare sort sort_as value_of is_search_match settings n q
              s)
    query :
        (q : String)
        → Step s (record s { table = change_search is_search_match settings q s.table })
    page : (n : ℕ) → Step s (record s { table = click_page is_search_match settings n s.table })

  pub data Reach (s : Sorted) : Sorted → Type 0 where
    start : Reach s s
    next : {u v : Sorted} → Reach s u → Step u v → Reach s v

  module _ (searchable : Bool) (per_page : ℕ) (sort_column : Option ℕ) (sort_order : SortOrder)
      (cells : List (List String)) where
    -- The table after its setup.
    abbrev pub begun : Sorted
    begun =
        init c locale_compare sort sort_as value_of is_search_match settings searchable per_page
          sort_column sort_order cells

    -- A table sorted by a column records the place of every row.
    abbrev Recorded : ℕ → (i a : ℕ) → Sorted → Type 0
    Recorded n i a v =
        get_elem? (ids v.table.rows) i ≡ some a
        → (v.order_of a ≡ some i) × (v.sort_column ≡ some n) × (v.marked ≡ some (n, v.sort_order))
