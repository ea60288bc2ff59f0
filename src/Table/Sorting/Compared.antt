-- ===== src/Table/Sorting/Compared.antt =====
-- The comparison of rows.
use Prim.Native.Nat.{Ordering}
use Prim.Native.String.{String}
use text.Mathlib.Text.{◌==◌ as str_eq}
use text.Mathlib.TextEquality.{eq_iff}
use photo_blog.Base.{
  ℕ, ◌<◌, ◌≡◌, refl, sym, ap, ◌∙◌, Bool, true, false, Option, some, arith, ltb, if◌then◌else◌,
  lt→ltb, if_of_true, if_of_false,
}
use photo_blog.Table.Sorting.{
  Comparisons, SortOrder, ascending, descending, negate, SortAs, numeric, datetime,
  case_insensitive, plain, turned, compare_values, sort_function,
}

abbrev pub reversed : Ordering → Ordering
reversed o = turned descending o

-- What holds of the comparisons: the other way round they have the opposite sign.
pub record IsOrder (c : Comparisons) : Type 0 where
  pub numbers : (a b : String) → c.numbers b a ≡ reversed (c.numbers a b)
  pub dates : (a b : String) → c.dates b a ≡ reversed (c.dates a b)
  pub locale : (a b : String) → c.locale b a ≡ reversed (c.locale a b)
  pub less : (a b : String) → c.less a b ≡ true → c.less b a ≡ false

module _ (c : Comparisons) (w : IsOrder c) (locale_compare : Bool) where
  turned-reversed :
      (order : SortOrder) (o : Ordering) → turned order (reversed o) ≡ reversed (turned order o)
  turned-reversed ascending o = refl
  turned-reversed descending o = refl

  abbrev by_strings : SortOrder → String → String → Ordering
  by_strings order a b =
      if locale_compare
      then turned order (c.locale a b)
      else if c.less a b
      then turned order Ordering.lt
      else if c.less b a
      then turned order Ordering.gt
      else Ordering.eq

  by_strings-swap :
      (order : SortOrder) (a b : String) → by_strings order b a ≡ reversed (by_strings order a b)
  by_strings-swap ascending a b = ground (arith, w.locale a b, w.less a b, w.less b a)
  by_strings-swap descending a b = ground (arith, w.locale a b, w.less a b, w.less b a)

  by_strings-order :
      (order : SortOrder) (a b : String)
      → by_strings (negate order) a b ≡ reversed (by_strings order a b)
  by_strings-order ascending a b = ground arith
  by_strings-order descending a b = ground arith

  compare_values-swap :
      (kind : SortAs) (order : SortOrder) (a b : String)
      → compare_values c locale_compare kind order b a
        ≡ reversed (compare_values c locale_compare kind order a b)
  unfolding compare_values
  compare_values-swap numeric ascending a b = w.numbers a b
  compare_values-swap numeric descending a b = w.numbers b a
  compare_values-swap datetime ascending a b = w.dates a b
  compare_values-swap datetime descending a b = w.dates b a
  compare_values-swap case_insensitive order a b = by_strings-swap order a b
  compare_values-swap plain order a b = by_strings-swap order a b

  compare_values-order :
      (kind : SortAs) (order : SortOrder) (a b : String)
      → compare_values c locale_compare kind (negate order) a b
        ≡ reversed (compare_values c locale_compare kind order a b)
  unfolding compare_values
  compare_values-order numeric ascending a b = w.numbers a b
  compare_values-order numeric descending a b = w.numbers b a
  compare_values-order datetime ascending a b = w.dates a b
  compare_values-order datetime descending a b = w.dates b a
  compare_values-order case_insensitive order a b = by_strings-order order a b
  compare_values-order plain order a b = by_strings-order order a b

  str_eq-swap : (a b : String) → str_eq a b ≡ false → str_eq b a ≡ false
  str_eq-swap a b h = ground (arith, eq_iff a b, eq_iff b a)

  -- If the comparisons of numbers, dates and strings have the opposite sign the other way round,
  -- then `sortFunction` has so for two rows with different values, whatever the column is sorted
  -- as; and the opposite sort order turns its sign round.
  sort_function-swap :
      (kind : SortAs) (order : SortOrder) (a b : String) (m n : Option ℕ)
      → str_eq a b ≡ false
      → (sort_function c locale_compare kind order b a n m
          ≡ reversed (sort_function c locale_compare kind order a b m n))
        × (sort_function c locale_compare kind (negate order) a b m n
            ≡ reversed (sort_function c locale_compare kind order a b m n))
  unfolding sort_function
  sort_function-swap kind order a b m n h = (
    if_of_false _ _ (str_eq-swap a b h)
        ∙ compare_values-swap kind order a b
        ∙ ap reversed (sym (if_of_false _ _ h)),
    if_of_false _ _ h ∙ compare_values-order kind order a b ∙ ap reversed (sym (if_of_false _ _ h)),
  )

module _ (c : Comparisons) (locale_compare : Bool) where
  -- For two rows with the same value, of which the first stood before the second after the last
  -- sort, `sortFunction` says that they are equal, but that the second is greater if it is asked
  -- the other way round; and this for both sort orders.
  sort_function-tie :
      (kind : SortAs) (order : SortOrder) (v : String) (m n : ℕ)
      → m < n
      → (sort_function c locale_compare kind order v v (some m) (some n) ≡ Ordering.eq)
        × (sort_function c locale_compare kind order v v (some n) (some m) ≡ Ordering.gt)
  unfolding sort_function
  sort_function-tie kind order v m n h = (
    if_of_true _ _ ((eq_iff v v).1 refl) ∙ if_of_false {b = ltb n m} _ _ (ground arith),
    if_of_true _ _ ((eq_iff v v).1 refl) ∙ if_of_true {b = ltb m n} _ _ (lt→ltb m n h),
  )
