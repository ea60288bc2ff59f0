-- ===== src/Results/Striped.antt =====
-- What the loops append, row by row.
use Prim.Native.String.{String}
use text.Mathlib.Text.{◌==◌ as str_eq}
use text.Mathlib.TextLemmas.{
  append_assoc as string-append_assoc, append-nil as string-append-nil, nil-append,
}
use photo_blog.Base.{
  ℕ, zero, suc, ◌≡◌, sym, ap, ◌∙◌, Bool, true, not, some, List, [], ◌∷◌, if_of_true, if_of_false,
  if-elim, if◌then◌else◌,
}
use photo_blog.Results.{
  ◌+s◌, Result, Property, add_cells, add_rows, add_results, open_row, title, summary, render_result,
  on_query_sql_success, render_table_content, add_headers, all_cells, keys, first,
}

abbrev pub concat : List String → String
concat [] = ""
concat (s ∷ ss) = s +s concat ss

abbrev pub is_even : ℕ → Bool
is_even zero = true
is_even (suc n) = not (is_even n)

-- Each text between two tags.
abbrev pub tagged : (before after : String) → List String → List String
tagged before after [] = []
tagged before after (v ∷ vs) = (before +s v +s after) ∷ tagged before after vs

-- The row at an index: the first one and every other one after it are marked as odd.
abbrev pub row : ℕ → List String → String
row i item = open_row (is_even i) +s concat (tagged "<td>" "</td>" item) +s "</tr>"

abbrev pub rows : (from : ℕ) → List (List String) → List String
rows i [] = []
rows i (item ∷ items) = row i item ∷ rows (suc i) items

add_cells-eq :
    (before after : String) (vs : List String) (res : String)
    → add_cells before after vs res ≡ res +s concat (tagged before after vs)
add_cells-eq before after [] res = sym (string-append-nil res)
add_cells-eq before after (v ∷ vs) res =
    add_cells-eq before after vs (res +s before +s v +s after)
    ∙ string-append_assoc res (before +s v +s after) (concat (tagged before after vs))

add_rows-eq :
    (i : ℕ) (items : List (List String)) (res : String)
    → add_rows (is_even i) items res ≡ res +s concat (rows i items)
add_rows-eq i [] res = sym (string-append-nil res)
add_rows-eq i (item ∷ items) res =
    add_rows-eq (suc i) items _
    ∙ ap (λ s. (s +s "</tr>") +s concat (rows (suc i) items))
        (add_cells-eq "<td>" "</td>" item (res +s open_row (is_even i)))
    ∙ simp string-append_assoc

-- The table of a result: its columns, and its rows with every other row marked.
abbrev pub table : Result → String
table result =
    "<table class=\"pure-table\"><thead><tr>"
    +s concat (tagged "<th>" "</th>" result.columns)
    +s "</tr></thead>\n"
    +s "<tbody>"
    +s concat (rows 0 result.values)
    +s "</tbody></table>"

-- A result without an error is its title, the summary and the table whose rows are marked from the
-- first one on, every other one; with an error it is the title and the error, and no table.
render_result-eq :
    (encode : String → String) (result : Result)
    → render_result encode result ≡ (
        if str_eq result.error ""
        then title result +s summary encode result +s table result
        else title result +s "<p>" +s result.error +s "</p>")
unfolding render_result
render_result-eq encode result =
    if-elim
      (λ s. s ≡ (
        if str_eq result.error ""
        then title result +s summary encode result +s table result
        else title result +s "<p>" +s result.error +s "</p>"))
      (str_eq result.error "") _ _ (λ e. whole ∙ sym (if_of_true _ _ e))
      (λ e. sym (if_of_false _ _ e))
  where
    above : String
    above = (title result +s summary encode result) +s "<table class=\"pure-table\"><thead><tr>"

    whole :
        add_rows true result.values
            ((add_cells "<th>" "</th>" result.columns above +s "</tr></thead>\n") +s "<tbody>")
          +s "</tbody></table>"
        ≡ title result +s summary encode result +s table result
    whole =
        ap (λ s. s +s "</tbody></table>")
          (add_rows-eq 0 result.values
            ((add_cells "<th>" "</th>" result.columns above +s "</tr></thead>\n") +s "<tbody>"))
        ∙ ap
            (λ s.
              (((s +s "</tr></thead>\n") +s "<tbody>") +s concat (rows 0 result.values))
              +s "</tbody></table>")
            (add_cells-eq "<th>" "</th>" result.columns above)
        ∙ simp string-append_assoc

-- The headers of statistics, marked where the first item has a number.
abbrev pub header : Property → String
header p =
    if p.is_number
    then "<th data-sortas=\"numeric\">" +s p.key +s "</th>"
    else "<th>" +s p.key +s "</th>"

abbrev pub headers : List Property → List String
headers [] = []
headers (p ∷ ps) = header p ∷ headers ps

add_headers-eq :
    (ps : List Property) (res : String) → add_headers ps res ≡ res +s concat (headers ps)
add_headers-eq [] res = sym (string-append-nil res)
add_headers-eq (p ∷ ps) res =
    add_headers-eq ps _
    ∙ ap (λ s. s +s concat (headers ps))
        (if-elim (λ s. s ≡ res +s header p) p.is_number _ _
          (λ e. ap (λ s. res +s s) (sym (if_of_true _ _ e)))
          (λ e. ap (λ s. res +s s) (sym (if_of_false _ _ e))))
    ∙ string-append_assoc res (header p) (concat (headers ps))

-- The table of statistics has the properties of the first item as its columns, and a row for each
-- item with its texts under these columns, every other row marked.
pub render_table_content-eq :
    (a : List (List Property))
    → render_table_content a
      ≡ "<thead><tr>"
        +s concat (headers (first a))
        +s "</tr></thead>\n"
        +s "<tbody>"
        +s concat (rows 0 (all_cells (keys (first a)) a))
        +s "</tbody>"
unfolding render_table_content
render_table_content-eq a =
    ap (λ s. s +s "</tbody>")
      (add_rows-eq 0 (all_cells (keys (first a)) a)
        ((add_headers (first a) "<thead><tr>" +s "</tr></thead>\n") +s "<tbody>"))
    ∙ ap
        (λ s.
          (((s +s "</tr></thead>\n") +s "<tbody>")
            +s concat (rows 0 (all_cells (keys (first a)) a)))
          +s "</tbody>")
        (add_headers-eq (first a) "<thead><tr>")
    ∙ simp string-append_assoc

-- The results of a reply, one after the other.
abbrev pub in_divs : (encode : String → String) → List Result → List String
in_divs encode [] = []
in_divs encode (result ∷ results) =
    ("<div>" +s render_result encode result +s "</div>") ∷ in_divs encode results

add_results-eq :
    (encode : String → String) (results : List Result) (html : String)
    → add_results encode results html ≡ html +s concat (in_divs encode results)
add_results-eq encode [] html = sym (string-append-nil html)
add_results-eq encode (result ∷ results) html =
    add_results-eq encode results _
    ∙ string-append_assoc html ("<div>" +s render_result encode result +s "</div>")
        (concat (in_divs encode results))

-- Every result of a reply is shown, in the order of the reply.
pub on_query_sql_success-eq :
    (encode : String → String) (result : Result) (results : List Result)
    → on_query_sql_success encode (some (result ∷ results))
      ≡ (concat (in_divs encode (result ∷ results)), true)
unfolding on_query_sql_success
on_query_sql_success-eq encode result results =
    ap (λ s. (s, true))
      (add_results-eq encode (result ∷ results) ""
        ∙ nil-append (concat (in_divs encode (result ∷ results))))
