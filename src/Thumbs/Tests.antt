-- ===== src/Thumbs/Tests.antt =====
-- Runs of the observer's callback.
use Prim.Native.String.{String}
use photo_blog.Base.{◌≡◌, refl, Bool, true, false, none, some, List, [], ◌∷◌, ◌++◌}
use photo_blog.Base.Int.{ℤ, pos, ◌-ℤ◌, ◌+ℤ◌}
use photo_blog.Thumbs.{start, run, set_time, observe, observe_all, flush, callback}
use photo_blog.Thumbs.Observed.{in_view, total, reported}
use photo_blog.Thumbs.Reported.{flushed-run}
use photo_blog.Thumbs.Total.{total-run}

-- In view from 1000 to 3000 and from 7000 to 7500; flushed at 7000.
abbrev scrolled : List (ℤ × List (String × Bool))
scrolled =
    (pos 1000, ("abc", true) ∷ ("def", true) ∷ [])
    ∷ (pos 3000, ("abc", false) ∷ [])
    ∷ (pos 7000, ("abc", true) ∷ [])
    ∷ (pos 7500, ("abc", false) ∷ ("def", false) ∷ [])
    ∷ []

scrolled-run :
    (total "abc" (run (start (pos 500)) scrolled) ≡ pos 2500)
    × ((run (start (pos 500)) scrolled).visible_for "abc" ≡ some (pos 500))
unfolding run callback flush observe_all observe set_time ◌-ℤ◌ ◌+ℤ◌
scrolled-run = (refl, refl)

total-run_example : total "abc" (run (start (pos 500)) scrolled) ≡ in_view "abc" none scrolled
total-run_example =
    total-run (pos 500) "abc" scrolled ((λ e. cc), ((λ e. cc), ((λ e. cc), ((λ e. cc), tt))))

flushed-run_example :
    (reported "abc" (run (start (pos 500)) (scrolled ++ (pos 20000, []) ∷ [])).flushed
      ≡ in_view "abc" none (scrolled ++ (pos 20000, []) ∷ []))
    × ((run (start (pos 500)) (scrolled ++ (pos 20000, []) ∷ [])).visible_for "abc" ≡ none)
    × ((run (start (pos 500)) (scrolled ++ (pos 20000, []) ∷ [])).last_flush ≡ pos 20000)
unfolding run callback flush observe_all observe set_time ◌-ℤ◌ ◌+ℤ◌
flushed-run_example =
    flushed-run (pos 500) (pos 20000) "abc" scrolled []
      ((λ e. cc), ((λ e. cc), ((λ e. cc), ((λ e. cc), ((λ e. cc), tt))))) refl
