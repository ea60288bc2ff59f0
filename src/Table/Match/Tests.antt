-- ===== src/Table/Match/Tests.antt =====
-- Searches, and the theorem at a pattern that is refused.
use Prim.Native.String.{String}
use text.Mathlib.Text.{◌==◌ as str_eq}
use photo_blog.Base.{
  ℕ, ◌≡◌, refl, true, false, none, some, [], ◌∷◌, map, arith, leb, ltb, if◌then◌else◌,
}
use photo_blog.Table.{Settings, Row, Table, change_search}
use photo_blog.Table.Paging.{content, visible}
use photo_blog.Table.Match.{Texts, auto, is_search_match, is_range}
use photo_blog.Table.Match.Invalid.{by_regexp, change_search-invalid}

-- Three numbers; "(" is refused.
abbrev number : String → ℕ
number s = if str_eq s "10" then 10 else if str_eq s "15" then 15 else 20

abbrev texts : Texts
texts = record {
  upper = λ s. s;
  squeeze = λ s. s;
  reg_exp = λ p. if str_eq p "(" then none else some (λ d. str_eq p d);
  below = λ a b. ltb (number a) (number b);
  at_most = λ a b. leb (number a) (number b);
}

in_range : is_search_match texts false auto "15" "10..20" ≡ true
unfolding is_search_match
in_range = refl

above : is_search_match texts false auto "10" ">=15" ≡ false
unfolding is_search_match
above = refl

exact : is_search_match texts true auto "15" "\"15\"" ≡ true
unfolding is_search_match
exact = refl

no_range : is_range "-5" ≡ false
no_range = refl

abbrev global : Settings
global = record {
  pagination = true;
  pag_closest = 1;
  global_search = true;
  global_search_exclude_columns = none;
}

abbrev row : ℕ → String → Row
row n cell = record { rowid = n; cells = cell ∷ []; shown = true }

abbrev results : Table
results = record {
  rows = row 0 "15" ∷ row 1 "20" ∷ [];
  per_page = 2;
  page = 1;
  pages = 1;
  matches = 2;
  search_arr = [];
  search = "";
  bar = [];
}

change_search-invalid_example :
    (visible (change_search (by_regexp texts) global "(" results).rows ≡ [])
    × ((change_search (by_regexp texts) global "(" results).matches ≡ 0)
    × ((change_search (by_regexp texts) global "(" results).pages ≡ 0)
    × (map content (change_search (by_regexp texts) global "(" results).rows
        ≡ map content results.rows)
change_search-invalid_example =
    change_search-invalid texts global results "(" refl (omega arith) refl refl
