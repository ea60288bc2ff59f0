-- ===== src/Table/Sorting/Numbered.antt =====
-- The numbers of the rows: each row has one of its own, which the written order keeps.
use Prim.Native.String.{String}
use mathlib.Core.Path.{subst}
use mathlib.Core.Logic.{∥∥₁_elim}
use mathlib.Core.HLevel.{⊥_prop}
use mathlib.Core.List.{
  Mem, Nodup, Nodup-cons, Nodup-nil, mem-cons, mem-cons_self, mem-cons_of_mem, not-mem-nil,
}
use photo_blog.Base.{
  ℕ, zero, suc, ◌+◌, ◌<◌, ◌≡◌, ◌≢◌, refl, sym, ap, ◌∙◌, Option, some, List, [], ◌∷◌, map, arith,
  inl, inr, ◌==◌, ==_iff, get_elem?, All, if_of_true, if_of_false,
}
use photo_blog.Table.{Row}
use photo_blog.Table.Paging.{content}
use photo_blog.Table.Sorting.{write_order, number_rows}

-- None of the numbers is `a`.
abbrev Absent : ℕ → List ℕ → Type 0
Absent a = All (λ b. a ≢ b)

Absent-of_not_mem : (a : ℕ) (l : List ℕ) → ¬ Mem a l → Absent a l
Absent-of_not_mem a [] h = tt
Absent-of_not_mem a (b ∷ l) h = (
  λ e. h (subst (λ c. Mem a (c ∷ l)) e mem-cons_self),
  Absent-of_not_mem a l (λ m. h (mem-cons_of_mem b m)),
)

not_mem-of_Absent : (a : ℕ) (l : List ℕ) → Absent a l → ¬ Mem a l
not_mem-of_Absent a [] h m = not-mem-nil m
not_mem-of_Absent a (b ∷ l) (ne, h) m =
    ∥∥₁_elim (mem-cons.0 m) ⊥_prop
      (λ d. elim d [ inl e ↦ ne e | inr k ↦ not_mem-of_Absent a l h k ])

abbrev pub ids : List Row → List ℕ
ids rows = map (λ (r : Row). r.rowid) rows

number_rows-Absent :
    (a k : ℕ) (cells : List (List String)) → a < k → Absent a (ids (number_rows k cells))
number_rows-Absent a k [] h = tt
number_rows-Absent a k (c ∷ cells) h =
    (λ e. omega arith, number_rows-Absent a (k + 1) cells (omega arith))

pub number_rows-Nodup : (k : ℕ) (cells : List (List String)) → Nodup (ids (number_rows k cells))
number_rows-Nodup k [] = Nodup-nil
number_rows-Nodup k (c ∷ cells) = Nodup-cons.1 (
  not_mem-of_Absent k (ids (number_rows (k + 1) cells))
      (number_rows-Absent k (k + 1) cells (omega arith)),
  number_rows-Nodup (k + 1) cells,
)

pub ids-content :
    (rows : List Row) → map (λ (p : ℕ × List String). p.0) (map content rows) ≡ ids rows
ids-content [] = refl
ids-content (r ∷ rows) = ap (◌∷◌ r.rowid) (ids-content rows)

write_order-Absent :
    (index a : ℕ) (rows : List Row) (order : ℕ → Option ℕ)
    → Absent a (ids rows)
    → write_order index rows order a ≡ order a
unfolding write_order
write_order-Absent index a [] order h = refl
write_order-Absent index a (r ∷ rows) order (ne, h) =
    write_order-Absent (index + 1) a rows _ h
    ∙ if_of_false {b = a == r.rowid} _ _ (ground (arith, ==_iff a r.rowid))

pub write_order-eq :
    (index i a : ℕ) (rows : List Row) (order : ℕ → Option ℕ)
    → Nodup (ids rows)
    → get_elem? (ids rows) i ≡ some a
    → write_order index rows order a ≡ some (index + i)
unfolding write_order
write_order-eq index i a [] order d e = cc
write_order-eq index zero a (r ∷ rows) order d e =
    write_order-Absent (index + 1) a rows _ (
      subst (λ b. Absent b (ids rows)) there
        (Absent-of_not_mem r.rowid (ids rows) (Nodup-cons.0 d).0))
    ∙ if_of_true {b = a == r.rowid} _ _ ((==_iff a r.rowid).1 (sym there))
    ∙ ap some (omega arith)
  where
    there : r.rowid ≡ a
    there = ground arith
write_order-eq index (suc i) a (r ∷ rows) order d e =
    write_order-eq (index + 1) i a rows _ (Nodup-cons.0 d).1 e ∙ ap some (omega arith)
