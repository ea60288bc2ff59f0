-- ===== src/Table/Bar.antt =====
-- The pagination bar: which links it has, and where its ellipses stand.
use photo_blog.Base.{
  ℕ, zero, suc, ◌+◌, ◌<◌, ◌≤◌, ◌≡◌, refl, Bool, true, false, ◌⊎◌, inl, inr, List, [], ◌∷◌, ◌++◌,
  arith, ltb, ◌==◌, if◌then◌else◌, Bool-cases,
}
use photo_blog.Table.{Settings, Item, link, ellipsis, bar_items, bar_from}

module _ (s : Settings) (page pages : ℕ) where
  -- Reading a bar after a link of page `p`, with or without an ellipsis since: each link is the
  -- next page's if no ellipsis stands before it, and skips a page if one does; it is active exactly
  -- if it is the current page's; the last link is that of the last page.
  abbrev pub Reads : (p : ℕ) (gap : Bool) → List Item → Type 0
  Reads p gap [] = (p ≡ pages) × (gap ≡ false)
  Reads p gap (ellipsis ∷ items) = (gap ≡ false) × Reads p true items
  Reads p gap (link n active ∷ items) =
      (if gap then p + 1 < n else n ≡ p + 1) × (active ≡ (n == page)) × Reads n false items

  -- A bar begins with the link of page 1.
  abbrev pub IsBar : List Item → Type 0
  IsBar [] = ⊥
  IsBar (ellipsis ∷ items) = ⊥
  IsBar (link n active ∷ items) = (n ≡ 1) × (active ≡ (n == page)) × Reads 1 false items

  bar_items-skip :
      (n : ℕ)
      → 1 < n
      → n < pages
      → (n + s.pag_closest + 1 ≤ page) ⊎ (page + s.pag_closest + 1 ≤ n)
      → bar_items s page pages n ≡ []
  unfolding bar_items
  bar_items-skip n h k far = ground arith

  bar_items-near :
      (n : ℕ)
      → 1 < n
      → n < pages
      → page < n + s.pag_closest + 1
      → n < page + s.pag_closest + 1
      → bar_items s page pages n ≡ link n (n == page) ∷ []
  unfolding bar_items
  bar_items-near n h k u v = ground arith

  bar_items-last :
      1 < pages
      → bar_items s page pages pages
        ≡ (if ltb (page + s.pag_closest + 1) pages then ellipsis ∷ [] else [])
          ++ (link pages (pages == page) ∷ [])
  unfolding bar_items
  bar_items-last h = ground arith

  bar_items-first :
      1 < pages
      → bar_items s page pages 1
        ≡ link 1 (1 == page) ∷ (if ltb (s.pag_closest + 2) page then ellipsis ∷ [] else [])
  unfolding bar_items
  bar_items-first h = ground arith

  -- Where the loop stands before page `n`: in front of the pages near the current one, among
  -- them, or behind them.
  abbrev Stands : (n p : ℕ) (gap : Bool) → Type 0
  Stands n p gap =
      ((n + s.pag_closest ≤ page) × (p ≡ 1) × (gap ≡ ltb (s.pag_closest + 2) page))
      ⊎ (((page < n + s.pag_closest) × (n ≤ page + s.pag_closest + 1) × (p + 1 ≡ n) × (gap ≡ false))
          ⊎ ((page + s.pag_closest + 1 < n) × (p ≡ page + s.pag_closest) × (gap ≡ false)))

  Reads-last :
      (p : ℕ) (gap : Bool)
      → page ≤ pages
      → 1 < pages
      → Stands pages p gap
      → Reads p gap (bar_items s page pages pages ++ [])
  Reads-last p gap h k st = elim (Bool-cases (ltb (page + s.pag_closest + 1) pages)) [
    | inl far ↦ rw (bar_items-last k, far) (ground arith)
    | inr near ↦ rw (bar_items-last k, near) (ground arith)
  ]

  -- `k + 1` rounds are left, the last of them for the last page.
  Reads-bar_from :
      (n k p : ℕ) (gap : Bool)
      → 1 ≤ page
      → page ≤ pages
      → 1 < n
      → n + k ≡ pages
      → Stands n p gap
      → Reads p gap (bar_from s page pages n (suc k))
  unfolding bar_from
  Reads-bar_from n zero p gap h1 h2 h3 e st =
      let e' : n ≡ pages = omega arith in rw e' (Reads-last p gap h2 (omega arith) (rw e' at st))
  Reads-bar_from n (suc k) p gap h1 h2 h3 e (inl before) =
      elim (Bool-cases (ltb page (n + s.pag_closest + 1))) [
        | inl near ↦ rw (bar_items-near n h3 (omega arith) (ground arith) (omega arith)) (
          ground arith,
          refl,
          Reads-bar_from (n + 1) k n false h1 h2 (omega arith) (omega arith)
              (inr (inl (ground arith, omega arith, refl, refl))),
        )
        | inr far ↦ rw (bar_items-skip n h3 (omega arith) (inl (ground arith))) (
            Reads-bar_from (n + 1) k p gap h1 h2 (omega arith) (omega arith)
              (inl (ground arith, before.1, before.2)))
      ]
  Reads-bar_from n (suc k) p gap h1 h2 h3 e (inr (inl among)) =
      elim (Bool-cases (ltb n (page + s.pag_closest + 1))) [
        | inl near ↦ rw (bar_items-near n h3 (omega arith) (omega arith) (ground arith)) (
          ground arith,
          refl,
          Reads-bar_from (n + 1) k n false h1 h2 (omega arith) (omega arith)
              (inr (inl (omega arith, ground arith, refl, refl))),
        )
        | inr far ↦ rw (bar_items-skip n h3 (omega arith) (inr (ground arith))) (
            Reads-bar_from (n + 1) k p gap h1 h2 (omega arith) (omega arith)
              (inr (inr (ground arith, ground arith, among.3))))
      ]
  Reads-bar_from n (suc k) p gap h1 h2 h3 e (inr (inr behind)) =
      rw (bar_items-skip n h3 (omega arith) (inr (omega arith))) (
        Reads-bar_from (n + 1) k p gap h1 h2 (omega arith) (omega arith)
          (inr (inr (omega arith, behind.1, behind.2))))

  Reads-after_first :
      (m : ℕ)
      → 1 ≤ page
      → page ≤ pages
      → 2 + m ≡ pages
      → Reads 1 false (
          (if ltb (s.pag_closest + 2) page then ellipsis ∷ [] else [])
          ++ bar_from s page pages 2 (suc m))
  Reads-after_first m h k e = elim (Bool-cases (ltb (s.pag_closest + 2) page)) [
    | inl far ↦ rw far (refl, rest true (inl (ground arith, refl, ground arith)))
    | inr near ↦ rw near (rest false (at_most near))
  ]
    where
      at_most : ltb (s.pag_closest + 2) page ≡ false → Stands 2 1 false
      at_most near = elim (Bool-cases (ltb page (s.pag_closest + 2))) [
        | inl q ↦ inr (inl (ground arith, omega arith, refl, refl))
        | inr q ↦ inl (ground arith, refl, ground arith)
      ]

      rest : (gap : Bool) → Stands 2 1 gap → Reads 1 gap (bar_from s page pages 2 (suc m))
      rest gap st = Reads-bar_from 2 m 1 gap h k (omega arith) e st

bar_items-only : (s : Settings) → bar_items s 1 1 1 ≡ link 1 true ∷ []
unfolding bar_items
bar_items-only s = ground arith

-- On a current page between 1 and the last, the bar that `tableUpdate` builds has the link of
-- page 1 first and that of the last page last, an ellipsis stands between two neighbouring links
-- exactly if they skip a page, and exactly the current page's link is active.
pub IsBar-bar_from :
    (s : Settings) (page pages : ℕ)
    → 1 ≤ page
    → page ≤ pages
    → IsBar s page pages (bar_from s page pages 1 pages)
unfolding bar_from
IsBar-bar_from s page zero h k = absurd (omega arith)
IsBar-bar_from s page (suc zero) h k =
    let e : page ≡ 1 = omega arith in rw (e, bar_items-only s) (refl, refl, (refl, refl))
IsBar-bar_from s page (suc (suc m)) h k =
    rw (bar_items-first s page (suc (suc m)) (omega arith))
      (refl, refl, Reads-after_first s page (suc (suc m)) m h k (omega arith))
