-- ===== src/Thumbs.antt =====
-- How long thumbnails are in view: `collectThumbVisibility` of resources/static/album_extra.js, the
-- callback of its observer and what it hands to `collectStats`. Times are milliseconds.
pub mod Observed
pub mod Reported
pub mod Total
mod Tests
use Prim.Native.String.{String}
use text.Mathlib.Text.{◌==◌ as str_eq}
use photo_blog.Base.{ℕ, zero, Bool, true, false, Option, none, some, List, [], ◌∷◌, if◌then◌else◌}
use photo_blog.Base.Int.{ℤ, pos, negsuc, ◌+ℤ◌, ◌-ℤ◌, ltb_ℤ}

-- An object with a field for each hash; a missing one is `none`.
abbrev pub Times : Type 0
Times = String → Option ℤ

abbrev pub no_times : Times
no_times h = none

unfoldable pub set_time : Times → String → Option ℤ → Times
set_time f h v k = if str_eq k h then v else f k

-- A field that JavaScript takes for true.
abbrev pub truthy_time : Option ℤ → Bool
truthy_time none = false
truthy_time (some (pos zero)) = false
truthy_time (some _) = true

-- A field as a number, where a missing one counts as 0.
abbrev pub value : Option ℤ → ℤ
value none = pos 0
value (some t) = t

-- The variables of `collectThumbVisibility`, and what was handed to `collectStats`, the latest
-- first.
pub record State : Type 0 where
  pub visible_since : Times
  pub visible_for : Times
  pub last_flush : ℤ
  pub flushed : List Times

abbrev pub start : ℤ → State
start now = record {
  visible_since = no_times;
  visible_for = no_times;
  last_flush = now;
  flushed = [];
}

-- One entry: whether the thumbnail of a hash is in view.
unfoldable pub observe : ℤ → State → String × Bool → State
unfolding set_time
observe now s (h, true) =
    if truthy_time (s.visible_since h)
    then s
    else record s { visible_since = set_time s.visible_since h (some now) }
observe now s (h, false) =
    if truthy_time (s.visible_since h)
    then (let passed = now -ℤ value (s.visible_since h) in
        record s {
          visible_for = set_time s.visible_for h (
              some (
                if truthy_time (s.visible_for h)
                then value (s.visible_for h) +ℤ passed
                else passed));
          visible_since = set_time s.visible_since h none;
        })
    else s

unfoldable pub observe_all : ℤ → State → List (String × Bool) → State
unfolding observe
observe_all now s [] = s
observe_all now s (e ∷ entries) = observe_all now (observe now s e) entries

unfoldable pub flush : ℤ → State → State
flush now s =
    if ltb_ℤ (now -ℤ s.last_flush) (pos 5000)
    then s
    else record s { flushed = s.visible_for ∷ s.flushed; visible_for = no_times; last_flush = now }

-- The observer's callback; `now` is the clock less `unfocused`.
unfoldable pub callback : State → ℤ × List (String × Bool) → State
unfolding observe_all flush
callback s (now, entries) = flush now (observe_all now s entries)

unfoldable pub run : State → List (ℤ × List (String × Bool)) → State
unfolding callback
run s [] = s
run s (c ∷ calls) = run (callback s c) calls
