-- ===== src/Table/View.antt =====
-- What the reader sees of a table, as an abstract machine: a query and a page number over the
-- contents of the rows. The widget implements it.
use Prim.Native.String.{String}
use mathlib.Core.Path.{subst}
use photo_blog.Base.{
  ℕ, ◌+◌, ◌≤◌, ◌≡◌, refl, ap, ◌∙◌, Bool, true, false, not, ◌&&◌, ◌||◌, List, [], ◌∷◌, arith, map,
  take, drop, ◌*◌, ◌-◌, All, length, select, if_of_true, Bool-cases, inl, inr,
}
use photo_blog.Table.{
  Settings, Table, Row, truthy, searched, scan_cells, row_matches, table_update, click_page,
  change_search, ceil_div, bar_from,
}
use photo_blog.Table.Paging.{content, visible, found, page_of, visible-table_update}

-- What the reader does: types a query, or clicks the link of a page.
pub data Action : Type 0 where
  query : String → Action
  page : ℕ → Action

-- The state of the abstract machine.
pub record View : Type 0 where
  pub typed : String
  pub number : ℕ

abbrev pub act : View → Action → View
act v (query q) = record { typed = q; number = 1 }
act v (page n) = record v { number = n }

abbrev pub act_all : View → List Action → View
act_all v [] = v
act_all v (a ∷ actions) = act_all (act v a) actions

-- The pages that are clicked are counted from 1.
abbrev pub IsAction : Action → Type 0
IsAction (query q) = Unit
IsAction (page n) = 1 ≤ n

module _ (is_search_match : String → String → Bool) (s : Settings) where
  -- Some cell in a column that is searched, from column `n` on, has the query; each has an empty
  -- one.
  abbrev pub has : String → ℕ → List String → Bool
  has q n [] = false
  has q n (html ∷ cells) =
      (not (truthy q) || is_search_match html q) && searched s n || has q (n + 1) cells

  -- The contents that a query finds.
  abbrev pub matching : String → List (ℕ × List String) → List (ℕ × List String)
  matching q contents = select (λ c. has q 0 c.1) contents

  scan_cells-has :
      (t : Table) (n : ℕ) (match global_match : Bool) (cells : List String)
      → s.global_search ≡ true
      → scan_cells is_search_match s t n match global_match cells
        ≡ (global_match || has t.search n cells)
  unfolding scan_cells
  scan_cells-has t n match global_match [] g = ground arith
  scan_cells-has t n match global_match (html ∷ cells) g =
      rw g (scan_cells-has t (n + 1) match _ cells g ∙ ground arith)

  pub found-matching :
      (t : Table) (rows : List Row)
      → s.global_search ≡ true
      → found is_search_match s t rows ≡ matching t.search (map content rows)
  unfolding row_matches
  found-matching t [] g = refl
  found-matching t (r ∷ rows) g = elim (Bool-cases (has t.search 0 r.cells)) [
    | inl e ↦
        rw (scan_cells-has t 0 true false r.cells g, e)
          (ap (◌∷◌ (content r)) (found-matching t rows g))
    | inr e ↦ rw (scan_cells-has t 0 true false r.cells g, e) (found-matching t rows g)
  ]

  -- The table shows what the view of its contents is: the rows of the page among those that the
  -- query finds, the number of pages, and the bar.
  pub record Shows (per : ℕ) (contents : List (ℕ × List String)) (v : View) (t : Table)
      : Type 0 where
    pub search : t.search ≡ v.typed
    pub per_page : t.per_page ≡ per
    pub kept : map content t.rows ≡ contents
    pub seen : visible t.rows ≡ take per (drop (per * (v.number - 1)) (matching v.typed contents))
    pub pages : t.pages ≡ ceil_div (length (matching v.typed contents)) per
    pub bar : t.bar ≡ bar_from s v.number t.pages 1 t.pages

  abbrev view_of : Table → View
  view_of t = record { typed = t.search; number = t.page }

  table_update-Shows :
      (t : Table)
      → s.global_search ≡ true
      → s.pagination ≡ true
      → 1 ≤ t.page
      → Shows t.per_page (map content t.rows) (view_of t) (table_update is_search_match s t)
  table_update-Shows t g p h =
      let (shown, counted, kept) = visible-table_update is_search_match s t h in
      record {
        search = unfold table_update in refl;
        per_page = unfold table_update in refl;
        kept = kept;
        seen =
            shown ∙ if_of_true _ _ p ∙ ap (page_of is_search_match s t) (found-matching t t.rows g);
        pages =
            pages_counted t
            ∙ ap (λ (m : ℕ). ceil_div m t.per_page)
                (counted ∙ ap length (found-matching t t.rows g));
        bar = unfold table_update in if_of_true _ _ p;
      }
    where
      pages_counted :
          (t : Table)
          → (table_update is_search_match s t).pages
            ≡ ceil_div (table_update is_search_match s t).matches t.per_page
      pages_counted t = unfold table_update in refl

  -- The handlers of the widget.
  abbrev pub perform : Table → Action → Table
  perform t (query q) = change_search is_search_match s q t
  perform t (page n) = click_page is_search_match s n t

  abbrev pub perform_all : Table → List Action → Table
  perform_all t [] = t
  perform_all t (a ∷ actions) = perform_all (perform t a) actions

  perform-Shows :
      (per : ℕ) (contents : List (ℕ × List String)) (v : View) (t : Table) (a : Action)
      → s.global_search ≡ true
      → s.pagination ≡ true
      → IsAction a
      → Shows per contents v t
      → Shows per contents (act v a) (perform t a)
  unfolding change_search click_page
  perform-Shows per contents v t (query q) g p h w =
      subst (λ k. Shows k contents (act v (query q)) (perform t (query q))) w.per_page
        (subst (λ cs. Shows t.per_page cs (act v (query q)) (perform t (query q))) w.kept
          (table_update-Shows (record t { search = q; page = 1 }) g p (omega arith)))
  perform-Shows per contents v t (page n) g p h w =
      subst (λ k. Shows k contents (act v (page n)) (perform t (page n))) w.per_page
        (subst (λ cs. Shows t.per_page cs (act v (page n)) (perform t (page n))) w.kept
          (subst
            (λ q.
              Shows t.per_page (map content t.rows) (record { typed = q; number = n })
                (perform t (page n)))
            w.search (table_update-Shows (record t { page = n }) g p h)))

  perform_all-Shows :
      (per : ℕ) (contents : List (ℕ × List String)) (v : View) (t : Table) (actions : List Action)
      → s.global_search ≡ true
      → s.pagination ≡ true
      → All IsAction actions
      → Shows per contents v t
      → Shows per contents (act_all v actions) (perform_all t actions)
  perform_all-Shows per contents v t [] g p h w = w
  perform_all-Shows per contents v t (a ∷ actions) g p h w =
      perform_all-Shows per contents (act v a) (perform t a) actions g p h.1
        (perform-Shows per contents v t a g p h.0 w)

  -- A table with global search and pagination implements the abstract machine: after its first
  -- update on page 1 and any queries and clicks on pages from 1, it shows the rows of the
  -- machine's page among those of the first contents in which some searched column has the
  -- machine's query, counts their pages, draws the bar for this page, and has kept the contents.
  pub perform_all-refines :
      (t : Table) (actions : List Action)
      → s.global_search ≡ true
      → s.pagination ≡ true
      → All IsAction actions
      → Shows t.per_page
          (map content t.rows)
          (act_all (record { typed = t.search; number = 1 }) actions)
          (perform_all (table_update is_search_match s (record t { page = 1 })) actions)
  perform_all-refines t actions g p h =
      perform_all-Shows t.per_page (map content t.rows) (record { typed = t.search; number = 1 })
        (table_update is_search_match s (record t { page = 1 })) actions g p h
        (table_update-Shows (record t { page = 1 }) g p (omega arith))
