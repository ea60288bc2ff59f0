-- ===== src/Viewer/Time/Away.antt =====
-- The time for which the reader is away from the window, and its bounds.
use photo_blog.Base.{◌≡◌, refl, Option, none, some, List, [], ◌∷◌, arith}
use photo_blog.Base.Int.{ℤ, pos, ◌+ℤ◌, ◌-ℤ◌, ◌≤ℤ◌, int_laws}
use photo_blog.Viewer.Time.{Event, blur, focus, scroll, close, activate, resize}

-- The time away in events between two views, `since` the last loss of focus if there is one.
unfoldable pub away : Option ℤ → List (ℤ × Event) → ℤ
away since [] = pos 0
away since ((now, blur) ∷ events) = away (some now) events
away none ((now, focus) ∷ events) = away none events
away none ((now, scroll) ∷ events) = away none events
away (some b) ((now, focus) ∷ events) = now -ℤ b +ℤ away none events
away (some b) ((now, scroll) ∷ events) = now -ℤ b +ℤ away none events
away since ((now, resize w h) ∷ events) = away since events
away since ((now, activate hash w h) ∷ events) = away since events
away since ((now, close) ∷ events) = away since events

-- Events of one view: in the order of their times from `a` to `r`, and no other image is shown.
abbrev pub Within : ℤ → ℤ → List (ℤ × Event) → Type 0
Within a r [] = a ≤ℤ r
Within a r ((now, blur) ∷ events) = (a ≤ℤ now) × Within now r events
Within a r ((now, focus) ∷ events) = (a ≤ℤ now) × Within now r events
Within a r ((now, scroll) ∷ events) = (a ≤ℤ now) × Within now r events
Within a r ((now, resize w h) ∷ events) = (a ≤ℤ now) × Within now r events
Within a r ((now, activate hash w h) ∷ events) = ⊥
Within a r ((now, close) ∷ events) = ⊥

pub away_lower :
    (a r : ℤ) (since : Option ℤ) (events : List (ℤ × Event))
    → Within a r events
    → ((b : ℤ) → since ≡ some b → b ≤ℤ a)
    → pos 0 ≤ℤ away since events
unfolding away
away_lower a r since [] h e = omega arith
away_lower a r since ((now, blur) ∷ events) (h, k) e =
    away_lower now r (some now) events k (λ b q. ground arith)
away_lower a r none ((now, focus) ∷ events) (h, k) e = away_lower now r none events k (λ b q. cc)
away_lower a r none ((now, scroll) ∷ events) (h, k) e = away_lower now r none events k (λ b q. cc)
away_lower a r (some b) ((now, focus) ∷ events) (h, k) e =
    omega (int_laws, away_lower now r none events k (λ b q. cc), e b refl)
away_lower a r (some b) ((now, scroll) ∷ events) (h, k) e =
    omega (int_laws, away_lower now r none events k (λ b q. cc), e b refl)
away_lower a r since ((now, resize w x) ∷ events) (h, k) e =
    away_lower now r since events k (λ b q. omega (arith, e b q))
away_lower a r since ((now, activate hash w x) ∷ events) h e = absurd h
away_lower a r since ((now, close) ∷ events) h e = absurd h

-- Where the time away began, if the reader is away.
abbrev pub from : ℤ → Option ℤ → ℤ
from a none = a
from a (some b) = b

pub away_upper :
    (a r : ℤ) (since : Option ℤ) (events : List (ℤ × Event))
    → Within a r events
    → ((b : ℤ) → since ≡ some b → b ≤ℤ a)
    → away since events ≤ℤ (r -ℤ from a since)
unfolding away
away_upper a r none [] h e = omega int_laws
away_upper a r (some b) [] h e = omega (int_laws, e b refl)
away_upper a r none ((now, blur) ∷ events) (h, k) e =
    omega (int_laws, away_upper now r (some now) events k (λ b q. ground arith))
away_upper a r (some b) ((now, blur) ∷ events) (h, k) e =
    omega (int_laws, away_upper now r (some now) events k (λ b q. ground arith), e b refl)
away_upper a r none ((now, focus) ∷ events) (h, k) e =
    omega (int_laws, away_upper now r none events k (λ b q. cc))
away_upper a r none ((now, scroll) ∷ events) (h, k) e =
    omega (int_laws, away_upper now r none events k (λ b q. cc))
away_upper a r (some b) ((now, focus) ∷ events) (h, k) e =
    omega (int_laws, away_upper now r none events k (λ b q. cc), e b refl)
away_upper a r (some b) ((now, scroll) ∷ events) (h, k) e =
    omega (int_laws, away_upper now r none events k (λ b q. cc), e b refl)
away_upper a r none ((now, resize w x) ∷ events) (h, k) e =
    omega (int_laws, away_upper now r none events k (λ b q. cc))
away_upper a r (some c) ((now, resize w x) ∷ events) (h, k) e =
    away_upper now r (some c) events k (λ b q. omega (arith, e b q))
away_upper a r since ((now, activate hash w x) ∷ events) h e = absurd h
away_upper a r since ((now, close) ∷ events) h e = absurd h
