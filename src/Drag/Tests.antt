-- ===== src/Drag/Tests.antt =====
-- Drags in a small album, with the JSON text of a reply as it stands.
use Prim.Native.String.{String}
use mathlib.Core.List.{Perm}
use photo_blog.Base.{ℕ, ◌≡◌, ◌⊎◌, refl, false, none, some, List, [], ◌∷◌, ◌++◌, arith}
use photo_blog.Base.Int.{pos}
use photo_blog.Album.Gallery.Order.{IsChronological}
use photo_blog.Client.{Reply, dispatch}
use photo_blog.Drag.{
  Node, photo, caption, chrono_text, State, Event, drop, answered, request, step, run,
}
use photo_blog.Drag.Placed.{elements}
use photo_blog.Drag.Times.{times, Distinct}
use photo_blog.Drag.Session.{run-perm}
use photo_blog.Drag.Stale.{drop-again}
use photo_blog.Drag.Reordered.{dropped-IsChronological}

abbrev image : ℕ → String → ℕ → Node
image k hash t = record { element = k; kind = photo hash; ts = some (pos t); cached = none }

abbrev gallery : List Node
gallery =
    image 1 "a" 10
    ∷ record { element = 2; kind = caption; ts = none; cached = none }
    ∷ image 3 "b" 20
    ∷ record { element = 4; kind = chrono_text; ts = some (pos 30); cached = none }
    ∷ []

abbrev same : String → String
same s = s

abbrev on_page : State String some same same "trip"
on_page = record { gallery = gallery; pending = [] }

abbrev moved_reply : Reply
moved_reply = record { status = 204; text = "" }

-- "b" is dropped on "a", then "a" on the text.
abbrev events : List (Event String some same same "trip")
events = answered 0 moved_reply ∷ drop 4 "a" ∷ answered 0 moved_reply ∷ []

run-events :
    elements (run String some same same "trip" on_page (drop 1 "b" ∷ events)).gallery
    ≡ 3 ∷ 2 ∷ 1 ∷ 4 ∷ []
unfolding run dispatch
run-events = refl

times-events :
    times (run String some same same "trip" on_page (drop 1 "b" ∷ events)).gallery
    ≡ pos 10 ∷ pos 30 ∷ pos 30 ∷ []
unfolding run dispatch
times-events = refl

distinct : Distinct (1 ∷ 2 ∷ 3 ∷ 4 ∷ [])
distinct = (
  (λ e. omega arith, (λ e. omega arith, (λ e. omega arith, tt))),
  ((λ e. omega arith, (λ e. omega arith, tt)), ((λ e. omega arith, tt), (tt, tt))),
)

run-perm_example :
    Perm
      (elements (run String some same same "trip" on_page (drop 1 "b" ∷ events)).gallery)
      (elements gallery)
run-perm_example = run-perm String some same same "trip" on_page (drop 1 "b" ∷ events)

-- "b" dropped on "a" again is sent with 10, although the attribute of "a" is 30 now.
drop-again_example :
    (step String some same same "trip"
      (run String some same same "trip" on_page (drop 1 "b" ∷ events))
      (drop 1 "b")).pending
    ≡ (run String some same same "trip" on_page (drop 1 "b" ∷ events)).pending
      ++ (request String some same same "trip" 1 "b" (some (pos 10)) ∷ [])
drop-again_example =
    drop-again String some same same "trip" on_page 1 (image 1 "a" 10) (pos 10) "b" "b" events
      distinct refl refl refl

dropped-IsChronological_example :
    IsChronological false (
      times
        (run String some same same "trip" on_page
          (drop 1 "b" ∷ answered 0 moved_reply ∷ [])).gallery)
    × Perm
        (elements
          (run String some same same "trip" on_page
            (drop 1 "b" ∷ answered 0 moved_reply ∷ [])).gallery)
        (elements gallery)
    × ((run String some same same "trip" on_page (drop 1 "b" ∷ answered 0 moved_reply ∷ [])).pending
        ≡ [])
    × ((moved_reply.status ≡ 204)
        ⊎ (times
              (run String some same same "trip" on_page
                (drop 1 "b" ∷ answered 0 moved_reply ∷ [])).gallery
            ≡ times gallery))
dropped-IsChronological_example =
    dropped-IsChronological String some same same "trip" false on_page 1 (image 1 "a" 10) (pos 10)
      "b" moved_reply distinct ((omega arith, (omega arith, tt)), ((omega arith, tt), (tt, tt)))
      refl refl refl refl
