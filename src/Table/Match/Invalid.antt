-- ===== src/Table/Match/Invalid.antt =====
-- A search that is no regular expression.
use Prim.Native.String.{String}
use photo_blog.Base.{
  ℕ, zero, suc, ◌+◌, ◌-◌, ◌*◌, ◌≤◌, ◌≡◌, refl, ap, ◌∙◌, Bool, true, false, none, List, [], ◌∷◌,
  arith, map, length, take, drop, if◌then◌else◌,
}
use photo_blog.Table.{Settings, Table, truthy, table_update, change_search, ceil_div}
use photo_blog.Table.Paging.{content, visible, found, visible-table_update}
use photo_blog.Table.View.{has, matching, found-matching}
use photo_blog.Table.Match.{Texts, never, is_search_match}

module _ (t : Texts) where
  -- The pages' way to match: any case, and patterns.
  abbrev pub by_regexp : String → String → Bool
  by_regexp = is_search_match t false never

  invalid-no_match : (html q : String) → t.reg_exp (t.upper q) ≡ none → by_regexp html q ≡ false
  unfolding is_search_match
  invalid-no_match html q e = ground (arith, e)

take_nil : (m n : ℕ) → take {A = ℕ × List String} m (drop n []) ≡ []
take_nil zero zero = refl
take_nil zero (suc n) = refl
take_nil (suc m) zero = refl
take_nil (suc m) (suc n) = refl

no_rows :
    (b : Bool) (m n : ℕ) {xs : List (ℕ × List String)}
    → xs ≡ []
    → (if b then take m (drop n xs) else xs) ≡ []
no_rows true m n e = rw e (take_nil m n)
no_rows false m n e = e

module _ (t : Texts) (s : Settings) where
  has-invalid :
      (q : String) (n : ℕ) (cells : List String)
      → truthy q ≡ true
      → t.reg_exp (t.upper q) ≡ none
      → has (by_regexp t) s q n cells ≡ false
  has-invalid q n [] h e = refl
  has-invalid q n (html ∷ cells) h e =
      rw (h, invalid-no_match t html q e) (has-invalid q (n + 1) cells h e)

  matching-invalid :
      (q : String) (contents : List (ℕ × List String))
      → truthy q ≡ true
      → t.reg_exp (t.upper q) ≡ none
      → matching (by_regexp t) s q contents ≡ []
  matching-invalid q [] h e = refl
  matching-invalid q (c ∷ contents) h e =
      rw (has-invalid q 0 c.1 h e) (matching-invalid q contents h e)

  found-invalid :
      (u : Table)
      → s.global_search ≡ true
      → truthy u.search ≡ true
      → t.reg_exp (t.upper u.search) ≡ none
      → found (by_regexp t) s u u.rows ≡ []
  found-invalid u g h e =
      found-matching (by_regexp t) s u u.rows g ∙ matching-invalid u.search (map content u.rows) h e

  -- In a table with global search, a query that is not empty and that, in upper case, is no regular
  -- expression hides every row, counts no match and no page; the rows keep their contents.
  pub change_search-invalid :
      (u : Table) (q : String)
      → s.global_search ≡ true
      → 1 ≤ u.per_page
      → truthy q ≡ true
      → t.reg_exp (t.upper q) ≡ none
      → (visible (change_search (by_regexp t) s q u).rows ≡ [])
        × ((change_search (by_regexp t) s q u).matches ≡ 0)
        × ((change_search (by_regexp t) s q u).pages ≡ 0)
        × (map content (change_search (by_regexp t) s q u).rows ≡ map content u.rows)
  unfolding change_search
  change_search-invalid u q g per h e =
      let v : Table = record u { search = q; page = 1 } in
      let none_found = found-invalid v g h e in
      let (shown, counted, kept) = visible-table_update (by_regexp t) s v (omega arith) in
      let no_match : (table_update (by_regexp t) s v).matches ≡ 0 =
        counted ∙ ap length none_found in
      (
        shown ∙ no_rows s.pagination v.per_page (v.per_page * (v.page - 1)) none_found,
        no_match,
        pages_counted v ∙ no_page v.per_page per no_match,
        kept,
      )
    where
      pages_counted :
          (v : Table)
          → (table_update (by_regexp t) s v).pages
            ≡ ceil_div (table_update (by_regexp t) s v).matches v.per_page
      pages_counted v = unfold table_update in refl

      no_page : {m : ℕ} (per : ℕ) → 1 ≤ per → m ≡ 0 → ceil_div m per ≡ 0
      no_page per h e = grind arith
