-- ===== src/Results.antt =====
-- The results of queries and of statistics as tables: `renderResult` and `onQuerySQLSuccess` in
-- resources/static/db/script.js, `renderTableContent` in resources/static/stats/script.js.
pub mod Striped
pub mod Query
mod Tests
use Prim.Native.String
use Prim.Native.String.{String}
use text.Mathlib.Text.{◌==◌ as str_eq}
use photo_blog.Base.{ℕ, Bool, true, false, not, Option, none, some, List, [], ◌∷◌, if◌then◌else◌}

infixr 60 ◌+s◌
abbrev pub ◌+s◌ : String → String → String
s +s t = String.◌++◌ s t

-- A result of a query. The cells are the texts that `+` makes of the values; `num_rows` is
-- `values.length` and `elapsed` the time as texts, `error` is "" where it is missing.
pub record Result : Type 0 where
  pub statement : String
  pub error : String
  pub instance_name : String
  pub elapsed : String
  pub num_rows : String
  pub columns : List String
  pub values : List (List String)

-- The loops over columns and cells.
abbrev pub add_cells : (before after : String) → List String → String → String
add_cells before after [] res = res
add_cells before after (v ∷ vs) res = add_cells before after vs (res +s before +s v +s after)

abbrev pub open_row : Bool → String
open_row odd = if odd then "<tr class=\"pure-table-odd\">" else "<tr>"

-- The loop over the rows.
abbrev pub add_rows : (odd : Bool) → List (List String) → String → String
add_rows odd [] res = res
add_rows odd (item ∷ items) res =
    add_rows (not odd) items (add_cells "<td>" "</td>" item (res +s open_row odd) +s "</tr>")

abbrev pub title : Result → String
title result = "<h4>" +s result.statement +s "</h4>"

-- The link to the file and the numbers above the table; `encode` is `encodeURIComponent`.
abbrev pub summary : (encode : String → String) → Result → String
summary encode result =
    "<a href=\"/query-db.csv?instance="
    +s result.instance_name
    +s "&statement="
    +s encode result.statement
    +s "\" style=\"margin-bottom: 10px\" class=\"btn btn-primary\" target=\"_blank\">Download CSV</a> <span id=\"num-rows\">Rows: "
    +s result.num_rows
    +s ", elapsed: "
    +s result.elapsed
    +s "</span>\n"

unfoldable pub render_result : (encode : String → String) → Result → String
render_result encode result =
    if str_eq result.error ""
    then add_rows true result.values (
        (add_cells "<th>" "</th>" result.columns
            ((title result +s summary encode result) +s "<table class=\"pure-table\"><thead><tr>")
          +s "</tr></thead>\n")
        +s "<tbody>")
      +s "</tbody></table>"
    else title result +s "<p>" +s result.error +s "</p>"

abbrev pub add_results : (encode : String → String) → List Result → (html : String) → String
add_results encode [] html = html
add_results encode (result ∷ results) html =
    add_results encode results (html +s "<div>" +s render_result encode result +s "</div>")

-- The element `query-results` after a reply whose text is the list, `none` for `null`, and whether
-- the tables in it get the widget.
unfoldable pub on_query_sql_success :
    (encode : String → String) → Option (List Result) → String × Bool
unfolding render_result
on_query_sql_success encode none = ("<tr><td>No data.</td></tr>", false)
on_query_sql_success encode (some []) = ("<tr><td>No data.</td></tr>", false)
on_query_sql_success encode (some (result ∷ results)) =
    (add_results encode (result ∷ results) "", true)

-- A row of statistics: its properties in order, whether each is a number, and its text.
pub record Property : Type 0 where
  pub key : String
  pub is_number : Bool
  pub text : String

abbrev pub get : String → List Property → String
get k [] = "undefined"
get k (p ∷ ps) = if str_eq p.key k then p.text else get k ps

abbrev pub add_headers : List Property → String → String
add_headers [] res = res
add_headers (p ∷ ps) res = add_headers ps (
    if p.is_number
    then res +s "<th data-sortas=\"numeric\">" +s p.key +s "</th>"
    else res +s "<th>" +s p.key +s "</th>")

abbrev pub keys : List Property → List String
keys [] = []
keys (p ∷ ps) = p.key ∷ keys ps

-- The cells of an item under the columns.
abbrev pub cells : (cols : List String) → List Property → List String
cells [] item = []
cells (c ∷ cols) item = get c item ∷ cells cols item

abbrev pub all_cells : (cols : List String) → List (List Property) → List (List String)
all_cells cols [] = []
all_cells cols (item ∷ items) = cells cols item ∷ all_cells cols items

abbrev pub first : List (List Property) → List Property
first [] = []
first (item ∷ items) = item

unfoldable pub render_table_content : List (List Property) → String
render_table_content a =
    add_rows true (all_cells (keys (first a)) a)
      ((add_headers (first a) "<thead><tr>" +s "</tr></thead>\n") +s "<tbody>")
    +s "</tbody>"
