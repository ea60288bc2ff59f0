-- ===== src/Thumbs/Total.antt =====
-- What is reported of a thumbnail, with what is still to be reported, is the time it was in view.
use Prim.Native.String.{String}
use text.Mathlib.Text.{◌==◌ as str_eq}
use mathlib.Core.Path.{subst}
use photo_blog.Base.{
  ◌≡◌, ◌≢◌, refl, sym, ap, ◌∙◌, Bool, true, false, Option, none, some, List, [], ◌∷◌, inl, inr,
  Bool-cases, if_of_true, if_of_false,
}
use photo_blog.Base.Int.{ℤ, pos, ◌+ℤ◌, ◌-ℤ◌, ltb_ℤ}
use photo_blog.Thumbs.{State, start, observe, observe_all, flush, callback, run}
use photo_blog.Thumbs.Observed.{
  After, After-via, Nonzero, entry_seen, in_view, observe-After, seen, stays, sum_assoc, sum_zero,
  total, zero_sum,
}

entry_seen-Nonzero :
    (now : ℤ) (k : String) (e : String × Bool) (since : Option ℤ)
    → now ≢ pos 0
    → Nonzero since
    → Nonzero (entry_seen k now since e).1
entry_seen-Nonzero now k (h, true) none ne nz = elim (Bool-cases (str_eq k h)) [
  | inl t ↦ subst Nonzero (sym (if_of_true _ _ t)) ne
  | inr t ↦ subst Nonzero (sym (if_of_false _ _ t)) nz
]
entry_seen-Nonzero now k (h, true) (some a) ne nz = elim (Bool-cases (str_eq k h)) [
  | inl t ↦ subst Nonzero (sym (if_of_true _ _ t)) nz
  | inr t ↦ subst Nonzero (sym (if_of_false _ _ t)) nz
]
entry_seen-Nonzero now k (h, false) since ne nz = elim (Bool-cases (str_eq k h)) [
  | inl t ↦ subst Nonzero (sym (if_of_true _ _ t)) tt
  | inr t ↦ subst Nonzero (sym (if_of_false _ _ t)) nz
]

seen-Nonzero :
    (now : ℤ) (k : String) (entries : List (String × Bool)) (since : Option ℤ)
    → now ≢ pos 0
    → Nonzero since
    → Nonzero (seen k now since entries).1
seen-Nonzero now k [] since ne nz = nz
seen-Nonzero now k (e ∷ entries) since ne nz =
    seen-Nonzero now k entries (entry_seen k now since e).1 ne
      (entry_seen-Nonzero now k e since ne nz)

After-trans :
    {k : String} {s t u : State} {x y : ℤ} {a b : Option ℤ}
    → After k s t x a
    → After k t u y b
    → After k s u (x +ℤ y) b
After-trans {k} {s} {x} {y} g h = record {
  time = h.time ∙ ap (λ q. q +ℤ y) g.time ∙ sum_assoc (total k s) x y;
  since_when = h.since_when;
}

observe_all-After :
    (now : ℤ) (s : State) (k : String) (entries : List (String × Bool)) (since : Option ℤ)
    → now ≢ pos 0
    → s.visible_since k ≡ since
    → Nonzero since
    → After k s
        (observe_all now s entries)
        (seen k now since entries).0
        (seen k now since entries).1
unfolding observe_all
observe_all-After now s k [] since ne e nz = stays k s since e
observe_all-After now s k (entry ∷ entries) since ne e nz =
    let first = observe-After now s k entry since e nz in
    After-trans first (
      observe_all-After now (observe now s entry) k entries (entry_seen k now since entry).1 ne
        first.since_when (entry_seen-Nonzero now k entry since ne nz))

-- What is handed over is not lost.
flush-After :
    (now : ℤ) (s : State) (k : String) (since : Option ℤ)
    → s.visible_since k ≡ since
    → After k s (flush now s) (pos 0) since
unfolding flush
flush-After now s k since e = elim (Bool-cases (ltb_ℤ (now -ℤ s.last_flush) (pos 5000))) [
  | inl t ↦ After-via (if_of_true _ _ t) refl refl (stays k s since e)
  | inr t ↦
      After-via (if_of_false _ _ t) refl refl
        (record { time = zero_sum (total k s) ∙ sym (sum_zero (total k s)); since_when = e })
]

-- The clock readings, which are less the time away from the window, are not 0.
abbrev pub Clocked : List (ℤ × List (String × Bool)) → Type 0
Clocked [] = Unit
Clocked ((now, entries) ∷ calls) = (now ≢ pos 0) × Clocked calls

run-total :
    (s : State) (k : String) (calls : List (ℤ × List (String × Bool))) (since : Option ℤ)
    → Clocked calls
    → s.visible_since k ≡ since
    → Nonzero since
    → total k (run s calls) ≡ total k s +ℤ in_view k since calls
unfolding run callback
run-total s k [] since c e nz = sym (sum_zero (total k s))
run-total s k ((now, entries) ∷ calls) since (ne, c) e nz =
    let seen_here = observe_all-After now s k entries since ne e nz in
    let kept =
      flush-After now (observe_all now s entries) k (seen k now since entries).1
        seen_here.since_when in
    run-total (flush now (observe_all now s entries)) k calls (seen k now since entries).1 c
      kept.since_when (seen-Nonzero now k entries since ne nz)
    ∙ ap (λ q. q +ℤ in_view k (seen k now since entries).1 calls)
        (kept.time ∙ sum_zero _ ∙ seen_here.time)
    ∙ sum_assoc (total k s) (seen k now since entries).0
        (in_view k (seen k now since entries).1 calls)

-- If no clock reading is 0, then after any run of the observer's callback from the start, what was
-- handed to `collectStats` for a thumbnail and what is kept for the next time are together the time
-- between the entries that bring it into view and those that take it out of view: nothing is lost
-- or counted twice when the times are handed over.
pub total-run :
    (begin : ℤ) (k : String) (calls : List (ℤ × List (String × Bool)))
    → Clocked calls
    → total k (run (start begin) calls) ≡ in_view k none calls
total-run begin k calls c =
    run-total (start begin) k calls none c refl tt
    ∙ ap (λ q. q +ℤ in_view k none calls) (sum_zero (pos 0))
    ∙ zero_sum (in_view k none calls)
