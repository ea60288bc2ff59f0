-- ===== src/Results/Tests.antt =====
-- Small results.
use Prim.Native.String.{String}
use photo_blog.Base.{◌≡◌, refl, true, false, [], ◌∷◌}
use photo_blog.Results.{Result, render_table_content}
use photo_blog.Results.Striped.{table}

abbrev same : String → String
same s = s

abbrev two_rows : Result
two_rows = record {
  statement = "select";
  error = "";
  instance_name = "default";
  elapsed = "1ms";
  num_rows = "2";
  columns = "a" ∷ [];
  values = ("<b>" ∷ []) ∷ ("2" ∷ []) ∷ [];
}

-- A cell is put into the page as it is.
table-two_rows :
    table two_rows
    ≡ "<table class=\"pure-table\"><thead><tr><th>a</th></tr></thead>\n<tbody><tr class=\"pure-table-odd\"><td><b></td></tr><tr><td>2</td></tr></tbody></table>"
table-two_rows = refl

-- The second item has no property "n".
statistics :
    render_table_content (
      (record { key = "n"; is_number = true; text = "1" } ∷ [])
      ∷ (record { key = "m"; is_number = false; text = "x" } ∷ [])
      ∷ [])
    ≡ "<thead><tr><th data-sortas=\"numeric\">n</th></tr></thead>\n<tbody><tr class=\"pure-table-odd\"><td>1</td></tr><tr><td>undefined</td></tr></tbody>"
unfolding render_table_content
statistics = refl
