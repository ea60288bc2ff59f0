-- ===== src/Table/Sorting.antt =====
-- Sorting in the widget `fancyTable` of resources/static/db/script.js: `sortFunction`, `tableSort`,
-- the handlers of the column headers and of the columns' search fields, and the setup of a table.
pub mod Compared
pub mod Numbered
pub mod Headers
mod Tests
use Prim.Native.Nat.{Ordering}
use Prim.Native.String.{String}
use text.Mathlib.Text.{◌==◌ as str_eq}
use photo_blog.Base.{
  ℕ, zero, suc, ◌+◌, Bool, true, false, not, ◌&&◌, Option, none, some, List, [], ◌∷◌, length, map,
  ltb, ◌==◌, get_elem?, if◌then◌else◌,
}
use photo_blog.Table.{Settings, Row, Table, table_update}

-- `sortOrder`, which is 1 or -1.
pub data SortOrder : Type 0 where
  ascending descending : SortOrder

abbrev pub negate : SortOrder → SortOrder
negate ascending = descending
negate descending = ascending

-- An entry of `sortAs`; `plain` is a missing one, or a name that the widget does not know.
pub data SortAs : Type 0 where
  numeric datetime case_insensitive plain : SortAs

-- The comparisons of the language and of the browser. `numbers` and `dates` give the sign of the
-- difference of two strings read as numbers or dates, where what cannot be read counts as 0.
pub record Comparisons : Type 0 where
  pub less : String → String → Bool
  pub locale : String → String → Ordering
  pub numbers : String → String → Ordering
  pub dates : String → String → Ordering
  pub lower : String → String

-- `elm.fancyTable` with what sorting reads and writes: `order_of` is `rowSortOrder` by row, and
-- `marked` the column whose header has the arrow.
pub record Sorted : Type 0 where
  pub table : Table
  pub n_columns : ℕ
  pub sort_column : Option ℕ
  pub sort_order : SortOrder
  pub order_of : ℕ → Option ℕ
  pub marked : Option (ℕ × SortOrder)

-- The sign of a result that is turned round for a descending order.
abbrev pub turned : SortOrder → Ordering → Ordering
turned ascending o = o
turned descending Ordering.lt = Ordering.gt
turned descending Ordering.eq = Ordering.eq
turned descending Ordering.gt = Ordering.lt

-- `a > b` for entries of `rowSortOrder`; it is false where one is undefined.
abbrev pub later : Option ℕ → Option ℕ → Bool
later (some a) (some b) = ltb b a
later _ _ = false

module _ (c : Comparisons) (locale_compare : Bool) where
  -- The sign of what `sortFunction` returns for two different values. The difference of numbers or
  -- dates is taken the other way round for a descending order.
  unfoldable pub compare_values : SortAs → SortOrder → String → String → Ordering
  compare_values numeric ascending a b = c.numbers a b
  compare_values numeric descending a b = c.numbers b a
  compare_values datetime ascending a b = c.dates a b
  compare_values datetime descending a b = c.dates b a
  compare_values kind order a b =
      if locale_compare
      then turned order (c.locale a b)
      else if c.less a b
      then turned order Ordering.lt
      else if c.less b a
      then turned order Ordering.gt
      else Ordering.eq

  -- `sortFunction`: for equal values it returns a Boolean, which counts as 1 or 0.
  unfoldable pub sort_function :
      SortAs → SortOrder → (a b : String) → (order_a order_b : Option ℕ) → Ordering
  unfolding compare_values
  sort_function kind order a b order_a order_b =
      if str_eq a b
      then if later order_a order_b then Ordering.gt else Ordering.eq
      else compare_values kind order a b

-- The assignment `searchArr[n] = v` where there is such an entry.
abbrev pub write_at : ℕ → String → List String → List String
write_at n v [] = []
write_at zero v (x ∷ xs) = v ∷ xs
write_at (suc n) v (x ∷ xs) = x ∷ write_at n v xs

-- The rows of a table as the setup numbers them.
abbrev pub number_rows : ℕ → List (List String) → List Row
number_rows index [] = []
number_rows index (cells ∷ rest) =
    record { rowid = index; cells = cells; shown = true } ∷ number_rows (index + 1) rest

abbrev pub first_length : List (List String) → ℕ
first_length [] = 0
first_length (cells ∷ rest) = length cells

abbrev pub blanks : ℕ → List String
blanks zero = []
blanks (suc n) = "" ∷ blanks n

-- The loop over the sorted rows that writes `rowSortOrder`.
unfoldable pub write_order : (index : ℕ) → List Row → (ℕ → Option ℕ) → ℕ → Option ℕ
write_order index [] order = order
write_order index (r ∷ rows) order =
    write_order (index + 1) rows (λ id. if id == r.rowid then some index else order id)

-- The column and the order of a sort, as a click on the header of column `n` sets them.
unfoldable pub choose_column : ℕ → Sorted → Sorted
choose_column n s =
    let again : Bool = elim s.sort_column [ none ↦ false | some column ↦ column == n ] in
    record s { sort_order = if again then negate s.sort_order else ascending; sort_column = some n }

-- `sort` is `Array.prototype.sort`, `sort_as` the entries of `sortAs`, and `value_of` what a cell is
-- sorted by: its data `sortvalue`, or its HTML.
module _ (c : Comparisons) (locale_compare : Bool)
    (sort : (Row → Row → Ordering) → List Row → List Row) (sort_as : ℕ → SortAs)
    (value_of : Row → ℕ → String) where
  abbrev pub lowered : SortAs → String → String
  lowered case_insensitive v = c.lower v
  lowered _ v = v

  -- The function that is handed to `sort`.
  unfoldable pub compare_rows : Sorted → ℕ → Row → Row → Ordering
  unfolding sort_function
  compare_rows s column a b =
      sort_function c locale_compare (sort_as column) s.sort_order
        (lowered (sort_as column) (value_of a column))
        (lowered (sort_as column) (value_of b column)) (s.order_of a.rowid) (s.order_of b.rowid)

  unfoldable pub sort_by : ℕ → Sorted → Sorted
  unfolding compare_rows write_order
  sort_by column s =
      let t = s.table in
      let rows = sort (compare_rows s column) t.rows in
      record s {
        table = record t { rows = rows };
        order_of = write_order 0 rows s.order_of;
        marked = some (column, s.sort_order);
      }

  -- Without a column to sort by, or with one that is not in the table, nothing is done.
  unfoldable pub table_sort : Sorted → Sorted
  unfolding sort_by
  table_sort s = elim s.sort_column [
    | none ↦ s
    | some column ↦ if ltb column s.n_columns then sort_by column s else s
  ]

  module _ (is_search_match : String → String → Bool) (settings : Settings) where
    abbrev pub update : Sorted → Sorted
    update s = record s { table = table_update is_search_match settings s.table }

    -- A click on the header of column `n`.
    unfoldable pub click_header : ℕ → Sorted → Sorted
    unfolding table_sort choose_column
    click_header n s = update (table_sort (choose_column n s))

    -- A change of the search field of column `n`.
    unfoldable pub change_column_search : ℕ → String → Sorted → Sorted
    change_column_search n query s =
        let t = s.table in
        update
          (record s { table = record t { search_arr = write_at n query t.search_arr; page = 1 } })

    -- The table object that the setup makes of a table whose body has the given cells.
    abbrev pub fresh :
        (searchable : Bool) (per_page : ℕ) → Option ℕ → SortOrder → List (List String) → Sorted
    fresh searchable per_page sort_column sort_order cells = record {
      table = record {
        rows = number_rows 0 cells;
        per_page = per_page;
        page = 1;
        pages = 0;
        matches = 0;
        search_arr =
            if searchable && not settings.global_search then blanks (first_length cells) else [];
        search = "";
        bar = [];
      };
      n_columns = first_length cells;
      sort_column = sort_column;
      sort_order = sort_order;
      order_of = λ id. none;
      marked = none;
    }

    -- The setup, which sorts the rows and draws the table.
    unfoldable pub init :
        (searchable : Bool) (per_page : ℕ) → Option ℕ → SortOrder → List (List String) → Sorted
    unfolding table_sort
    init searchable per_page sort_column sort_order cells =
        update (table_sort (fresh searchable per_page sort_column sort_order cells))
