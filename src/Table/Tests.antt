-- ===== src/Table/Tests.antt =====
-- Runs of the table widget, and its theorems at concrete tables.
use Prim.Native.String.{String}
use text.Mathlib.Text.{◌==◌ as str_eq}
use photo_blog.Base.{ℕ, ◌≤◌, ◌≡◌, refl, true, false, none, [], ◌∷◌, map, arith, length, inl, inr}
use photo_blog.Table.{
  Settings, Row, link, ellipsis, Table, bar_from, ceil_div, searched, scan_cells, row_matches,
  on_page, update_rows, bar_items, table_update, click_page, change_search,
}
use photo_blog.Table.Paging.{content, visible, found, clicked, clicked-eq-found}
use photo_blog.Table.Bar.{IsBar}
use photo_blog.Table.Session.{Reach, start, next, click, Reach-IsBar}
use photo_blog.Table.View.{query, page, act_all, Shows, perform_all, perform_all-refines}

tables : Unit {0}
unfolding searched scan_cells row_matches on_page update_rows bar_items bar_from table_update
    click_page change_search
tables = tt

abbrev paged : Settings
paged = record {
  pagination = true;
  pag_closest = 1;
  global_search = true;
  global_search_exclude_columns = none;
}

abbrev row : ℕ → String → Row
row n cell = record { rowid = n; cells = cell ∷ []; shown = true }

abbrev albums : Table
albums = record {
  rows = row 0 "a" ∷ row 1 "b" ∷ row 2 "a" ∷ row 3 "a" ∷ [];
  per_page = 2;
  page = 1;
  pages = 0;
  matches = 0;
  search_arr = [];
  search = "a";
  bar = [];
}

-- Three rows match; the second page has the last of them.
second_page : visible (click_page str_eq paged 2 albums).rows ≡ (3, "a" ∷ []) ∷ []
unfolding tables
second_page = refl

-- With 9 pages, on page 5 with one neighbour on each side.
bar_of_nine :
    bar_from paged 5 9 1 9
    ≡ link 1 false
      ∷ ellipsis
      ∷ link 4 false
      ∷ link 5 true
      ∷ link 6 false
      ∷ ellipsis
      ∷ link 9 false
      ∷ []
unfolding tables
bar_of_nine = refl

clicked-eq-found_example :
    clicked str_eq paged albums 1 (table_update str_eq paged albums).pages
    ≡ found str_eq paged albums albums.rows
clicked-eq-found_example = clicked-eq-found str_eq paged albums refl (omega arith)

-- The second page is clicked.
abbrev browsed : Table
browsed = click_page str_eq paged 2 (table_update str_eq paged (record albums { page = 1 }))

browsed-Reach : Reach str_eq paged albums browsed
unfolding tables
browsed-Reach = next start (click 2 (inr (inl refl)))

some_page : 1 ≤ browsed.pages
unfolding tables
some_page = omega arith

Reach-IsBar_example :
    (browsed.pages ≡ ceil_div (length (found str_eq paged browsed browsed.rows)) browsed.per_page)
    × (1 ≤ browsed.page)
    × (browsed.page ≤ browsed.pages)
    × IsBar paged browsed.page browsed.pages browsed.bar
Reach-IsBar_example = Reach-IsBar str_eq paged albums browsed refl browsed-Reach some_page

-- A query, and a page that the query leaves.
perform_all-refines_example :
    Shows str_eq paged 2
      (map content albums.rows)
      (act_all (record { typed = "a"; number = 1 }) (query "b" ∷ query "a" ∷ page 2 ∷ []))
      (perform_all str_eq paged
        (table_update str_eq paged (record albums { page = 1 }))
        (query "b" ∷ query "a" ∷ page 2 ∷ []))
perform_all-refines_example =
    perform_all-refines str_eq paged albums (query "b" ∷ query "a" ∷ page 2 ∷ []) refl refl
      (tt, (tt, (omega arith, tt)))
