-- ===== src/Thumbs/Reported.antt =====
-- When the times in view are handed over.
use Prim.Native.String.{String}
use photo_blog.Base.{
  ◌≡◌, refl, sym, ap, ◌∙◌, Bool, true, false, none, List, [], ◌∷◌, ◌++◌, inl, inr, Bool-cases,
  if_of_true, if_of_false,
}
use photo_blog.Base.Int.{ℤ, pos, ◌+ℤ◌, ◌-ℤ◌, ltb_ℤ}
use photo_blog.Thumbs.{State, value, truthy_time, start, observe, observe_all, flush, callback, run}
use photo_blog.Thumbs.Observed.{reported, in_view, zero_sum}
use photo_blog.Thumbs.Total.{Clocked, total-run}

run-append :
    (s : State) (calls : List (ℤ × List (String × Bool))) (call : ℤ × List (String × Bool))
    → run s (calls ++ call ∷ []) ≡ callback (run s calls) call
unfolding run
run-append s [] call = refl
run-append s (c ∷ calls) call = run-append (callback s c) calls call

observe-last_flush :
    (now : ℤ) (s : State) (e : String × Bool) → (observe now s e).last_flush ≡ s.last_flush
unfolding observe
observe-last_flush now s (h, true) = elim (Bool-cases (truthy_time (s.visible_since h))) [
  | inl t ↦ ap (λ (u : State). u.last_flush) (if_of_true _ _ t)
  | inr t ↦ ap (λ (u : State). u.last_flush) (if_of_false _ _ t)
]
observe-last_flush now s (h, false) = elim (Bool-cases (truthy_time (s.visible_since h))) [
  | inl t ↦ ap (λ (u : State). u.last_flush) (if_of_true _ _ t)
  | inr t ↦ ap (λ (u : State). u.last_flush) (if_of_false _ _ t)
]

observe_all-last_flush :
    (now : ℤ) (s : State) (entries : List (String × Bool))
    → (observe_all now s entries).last_flush ≡ s.last_flush
unfolding observe_all
observe_all-last_flush now s [] = refl
observe_all-last_flush now s (e ∷ entries) =
    observe_all-last_flush now (observe now s e) entries ∙ observe-last_flush now s e

callback-late :
    (s : State) (now : ℤ) (entries : List (String × Bool))
    → ltb_ℤ (now -ℤ s.last_flush) (pos 5000) ≡ false
    → (callback s (now, entries) ≡ record (observe_all now s entries) {
      flushed = (observe_all now s entries).visible_for ∷ (observe_all now s entries).flushed;
      visible_for = λ h. none;
      last_flush = now;
    })
unfolding callback flush
callback-late s now entries late =
    if_of_false _ _
      (ap (λ t. ltb_ℤ (now -ℤ t) (pos 5000)) (observe_all-last_flush now s entries) ∙ late)

-- After any run of the observer's callback from the start, with no clock reading that is 0, the
-- next call of it that comes five seconds or more after the last hand-over, or after the start if
-- there was none, hands over all that is recorded: what was handed over for a thumbnail is then the
-- time of all its intervals in view that have ended by the entries so far, while an interval that
-- still lasts is not in it; nothing recorded is kept back, and the five seconds begin anew.
pub flushed-run :
    (begin now : ℤ) (k : String) (calls : List (ℤ × List (String × Bool)))
    (entries : List (String × Bool))
    → Clocked (calls ++ (now, entries) ∷ [])
    → ltb_ℤ (now -ℤ (run (start begin) calls).last_flush) (pos 5000) ≡ false
    → (reported k (run (start begin) (calls ++ (now, entries) ∷ [])).flushed
        ≡ in_view k none (calls ++ (now, entries) ∷ []))
      × ((run (start begin) (calls ++ (now, entries) ∷ [])).visible_for k ≡ none)
      × ((run (start begin) (calls ++ (now, entries) ∷ [])).last_flush ≡ now)
flushed-run begin now k calls entries clocked late =
    let end =
      run-append (start begin) calls (now, entries)
      ∙ callback-late (run (start begin) calls) now entries late in
    let kept = ap (λ (t : State). t.visible_for k) end in
    (
      sym (zero_sum (reported k (run (start begin) (calls ++ (now, entries) ∷ [])).flushed))
          ∙ ap
              (λ o.
                value o +ℤ reported k (run (start begin) (calls ++ (now, entries) ∷ [])).flushed)
              (sym kept)
          ∙ total-run begin k (calls ++ (now, entries) ∷ []) clocked,
      kept,
      ap (λ (t : State). t.last_flush) end,
    )
