-- ===== src/Table/Session.antt =====
-- A table in use: the reader clicks links of the pagination bar and edits the global search field.
use Prim.Native.String.{String}
use mathlib.Core.Path.{subst}
use photo_blog.Base.{
  ℕ, zero, suc, ◌+◌, ◌<◌, ◌≤◌, ◌≡◌, refl, sym, ap, ◌∙◌, Bool, true, ◌⊎◌, inl, inr, List, [], ◌∷◌,
  ◌++◌, arith, length, if◌then◌else◌, Bool-cases, if_of_true,
}
use photo_blog.Table.{
  Settings, Table, Row, Item, link, ellipsis, bar_items, bar_from, ceil_div, row_matches,
  update_rows, table_update, click_page, change_search,
}
use photo_blog.Table.Paging.{found, found-congr, matches-update_rows}
use photo_blog.Table.Bar.{IsBar, IsBar-bar_from}

-- The link of page `n` is in the bar.
abbrev pub HasLink : ℕ → List Item → Type 0
HasLink n [] = ⊥
HasLink n (ellipsis ∷ items) = HasLink n items
HasLink n (link m active ∷ items) = (n ≡ m) ⊎ HasLink n items

HasLink-append : (n : ℕ) (xs ys : List Item) → HasLink n (xs ++ ys) → HasLink n xs ⊎ HasLink n ys
HasLink-append n [] ys h = inr h
HasLink-append n (ellipsis ∷ xs) ys h = HasLink-append n xs ys h
HasLink-append n (link m a ∷ xs) ys (inl e) = inl (inl e)
HasLink-append n (link m a ∷ xs) ys (inr h) = ground (arith, HasLink-append n xs ys h)

module _ (s : Settings) (page pages : ℕ) where
  HasLink-bar_items : (n m : ℕ) → HasLink n (bar_items s page pages m) → n ≡ m
  unfolding bar_items
  HasLink-bar_items n m h = ground arith

  HasLink-bar_from : (n m k : ℕ) → HasLink n (bar_from s page pages m k) → (m ≤ n) × (n < m + k)
  unfolding bar_from
  HasLink-bar_from n m (suc k) h = elim (HasLink-append n (bar_items s page pages m) _ h) [
    | inl here ↦
        (omega (arith, HasLink-bar_items n m here), omega (arith, HasLink-bar_items n m here))
    | inr later ↦ let (lo, hi) = HasLink-bar_from n (m + 1) k later in (omega arith, omega arith)
  ]
  HasLink-bar_from n m zero h = absurd h

module _ (is_search_match : String → String → Bool) (s : Settings) where
  pub data Step (t : Table) : Table → Type 0 where
    click : (n : ℕ) → HasLink n t.bar → Step t (click_page is_search_match s n t)
    query : (q : String) → Step t (change_search is_search_match s q t)

  -- The tables that come up once `tableUpdate` ran on the first page.
  pub data Reach (t : Table) : Table → Type 0 where
    start : Reach t (table_update is_search_match s (record t { page = 1 }))
    next : {u v : Table} → Reach t u → Step u v → Reach t v

  pub record IsValid (t : Table) : Type 0 where
    pub from_one : 1 ≤ t.page
    pub to_last : (t.page ≡ 1) ⊎ (t.page ≤ t.pages)
    pub counted : t.matches ≡ length (found is_search_match s t t.rows)
    pub paged : t.pages ≡ ceil_div t.matches t.per_page
    pub drawn : t.bar ≡ bar_from s t.page t.pages 1 t.pages

  found-update_rows :
      (t u : Table) (m : ℕ) (rows : List Row)
      → found is_search_match s t (update_rows is_search_match s u m rows).0
        ≡ found is_search_match s t rows
  unfolding update_rows row_matches
  found-update_rows t u m [] = refl
  found-update_rows t u m (r ∷ rows) =
      let m' : ℕ = if row_matches is_search_match s u r then m + 1 else m in
      elim (Bool-cases (row_matches is_search_match s t r)) [
        | inl hit ↦ rw hit (ap (◌∷◌ (r.rowid, r.cells)) (found-update_rows t u m' rows))
        | inr miss ↦ rw miss (found-update_rows t u m' rows)
      ]

  -- The matches are counted anew by an update, and the search is not changed by it.
  found-table_update :
      (t : Table)
      → found is_search_match s
          (table_update is_search_match s t)
          (table_update is_search_match s t).rows
        ≡ found is_search_match s t t.rows
  unfolding table_update
  found-table_update t =
      found-congr is_search_match s (table_update is_search_match s t) t refl refl
        (update_rows is_search_match s t 0 t.rows).0
      ∙ found-update_rows t t 0 t.rows

  matches-table_update :
      (t : Table)
      → (table_update is_search_match s t).matches ≡ length (found is_search_match s t t.rows)
  unfolding table_update
  matches-table_update t = omega (arith, matches-update_rows is_search_match s t 0 t.rows)

  table_update-IsValid :
      (t : Table)
      → s.pagination ≡ true
      → 1 ≤ t.page
      → (t.page ≡ 1) ⊎ (t.page ≤ ceil_div (length (found is_search_match s t t.rows)) t.per_page)
      → IsValid (table_update is_search_match s t)
  table_update-IsValid t p h k = record {
    from_one = unfold table_update in h;
    to_last =
        unfold table_update in ground (arith, matches-update_rows is_search_match s t 0 t.rows);
    counted = matches-table_update t ∙ ap length (sym (found-table_update t));
    paged = unfold table_update in refl;
    drawn = unfold table_update in if_of_true _ _ p;
  }

  clicked_bounds :
      (v : Table) (n : ℕ)
      → IsValid v
      → HasLink n v.bar
      → (1 ≤ n)
        × (n
            ≤ ceil_div (length (found is_search_match s (record v { page = n }) v.rows)) v.per_page)
  clicked_bounds v n w h =
      let (lo, hi) = HasLink-bar_from s v.page v.pages n 1 v.pages (subst (HasLink n) w.drawn h) in
      let same = found-congr is_search_match s (record v { page = n }) v refl refl v.rows in
      (
        lo,
        subst (n ≤◌) (w.paged ∙ ap (λ m. ceil_div m v.per_page) (w.counted ∙ ap length (sym same)))
            (omega arith),
      )

  click_page-IsValid :
      (v : Table) (n : ℕ)
      → s.pagination ≡ true
      → IsValid v
      → HasLink n v.bar
      → IsValid (click_page is_search_match s n v)
  unfolding click_page
  click_page-IsValid v n p w h =
      let (lo, hi) = clicked_bounds v n w h in
      table_update-IsValid (record v { page = n }) p lo (inr hi)

  change_search-IsValid :
      (v : Table) (q : String) → s.pagination ≡ true → IsValid (change_search is_search_match s q v)
  unfolding change_search
  change_search-IsValid v q p =
      table_update-IsValid (record v { search = q; page = 1 }) p (omega arith) (inl refl)

  Reach-IsValid : (t u : Table) → s.pagination ≡ true → Reach t u → IsValid u
  Reach-IsValid t u p start =
      table_update-IsValid (record t { page = 1 }) p (omega arith) (inl refl)
  Reach-IsValid t u p (next {u = v} r (query q)) = change_search-IsValid v q p
  Reach-IsValid t u p (next {u = v} r (click n h)) =
      click_page-IsValid v n p (Reach-IsValid t v p r) h

  -- Whatever links are clicked and searches typed in a table with pagination: if some page is
  -- counted, the number of pages is that of the rows that match, the current page is one of them,
  -- and the bar is as it should be for it.
  pub Reach-IsBar :
      (t u : Table)
      → s.pagination ≡ true
      → Reach t u
      → 1 ≤ u.pages
      → (u.pages ≡ ceil_div (length (found is_search_match s u u.rows)) u.per_page)
        × (1 ≤ u.page)
        × (u.page ≤ u.pages)
        × IsBar s u.page u.pages u.bar
  Reach-IsBar t u p r h =
      let v = Reach-IsValid t u p r in
      let in_range : u.page ≤ u.pages = ground (arith, v.to_last) in
      (
        v.paged ∙ ap (λ m. ceil_div m u.per_page) v.counted,
        v.from_one,
        in_range,
        subst (IsBar s u.page u.pages) (sym v.drawn)
            (IsBar-bar_from s u.page u.pages v.from_one in_range),
      )
