-- ===== src/Table/Sorting/Tests.antt =====
-- A table that is sorted by its columns.
use Prim.Native.Nat.{Ordering, compare}
use Prim.Native.String.{String}
use text.Mathlib.Text.{◌==◌ as str_eq}
use mathlib.Core.List.{Perm}
use mathlib.Core.List.Perm
use photo_blog.Base.{ℕ, Bool, true, false, none, some, List, [], ◌∷◌, get_elem?, if◌then◌else◌, ltb}
use photo_blog.Table.{
  Settings, Row, searched, scan_cells, row_matches, on_page, update_rows, table_update,
}
use photo_blog.Table.Sorting.{
  Comparisons, Sorted, SortAs, plain, ascending, click_header, init, compare_rows, sort_function,
  compare_values, sort_by, table_sort, choose_column, write_order,
}

abbrev is_gt : Ordering → Bool
is_gt Ordering.gt = true
is_gt _ = false

-- A sort that the language may use.
abbrev insert : (Row → Row → Ordering) → Row → List Row → List Row
insert f r [] = r ∷ []
insert f r (x ∷ rows) =
    let rest = insert f r rows in if is_gt (f r x) then x ∷ rest else r ∷ x ∷ rows

abbrev insertion_sort : (Row → Row → Ordering) → List Row → List Row
insertion_sort f [] = []
insertion_sort f (r ∷ rows) = insert f r (insertion_sort f rows)

-- Strings by a size.
abbrev size : String → ℕ
size s = if str_eq s "" then 0 else if str_eq s "x" then 1 else 2

abbrev by_size : Comparisons
by_size = record {
  less = λ a b. ltb (size a) (size b);
  locale = λ a b. compare (size a) (size b);
  numbers = λ a b. compare (size a) (size b);
  dates = λ a b. compare (size a) (size b);
  lower = λ a. a;
}

abbrev settings : Settings
settings = record {
  pagination = false;
  pag_closest = 3;
  global_search = false;
  global_search_exclude_columns = none;
}

abbrev all_plain : ℕ → SortAs
all_plain n = plain

abbrev cell_at : Row → ℕ → String
cell_at r n = elim (get_elem? r.cells n) [ none ↦ "" | some v ↦ v ]

abbrev body : List (List String)
body = ("yy" ∷ []) ∷ ("x" ∷ []) ∷ []

-- The table as it is set up, and after a click on its header.
abbrev set_up : Sorted
set_up =
    init by_size false insertion_sort all_plain cell_at str_eq settings true 10 none ascending body

abbrev by_header : Sorted
by_header = click_header by_size false insertion_sort all_plain cell_at str_eq settings 0 set_up

parts : Unit {0}
unfolding init click_header choose_column table_sort sort_by write_order compare_rows sort_function
    compare_values table_update update_rows row_matches scan_cells searched on_page
parts = tt
