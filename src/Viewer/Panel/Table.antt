-- ===== src/Viewer/Panel/Table.antt =====
-- The table of exif data.
use Prim.Native.String.{String}
use photo_blog.Base.{◌≡◌, refl, sym, ap, ◌∙◌, false, Option, some, List, [], ◌∷◌, inl, inr, ◌⊎◌}
use photo_blog.Album.Nodes.{Element}
use photo_blog.Viewer.Panel.{
  Slide, hash_of, State, Event, opens, changes, clicks, closes, html_of, lookup, slide_element,
  step, run,
}

-- The slide has a table.
abbrev pub HasTable : (exif_html : String → Option String) → Event → Type 0
HasTable exif_html opens = Unit
HasTable exif_html (changes slide) =
    (table : String) × (lookup exif_html (hash_of slide.of_element) ≡ some table)
HasTable exif_html clicks = Unit
HasTable exif_html closes = Unit

abbrev pub AllHaveTables : (exif_html : String → Option String) → List Event → Type 0
AllHaveTables exif_html [] = Unit
AllHaveTables exif_html (e ∷ events) = HasTable exif_html e × AllHaveTables exif_html events

-- The table is hidden, or it is that of the slide.
abbrev pub ShowsOwn : (exif_html : String → Option String) → State → Type 0
ShowsOwn exif_html s =
    (s.exif_shown ≡ false)
    ⊎ (lookup exif_html (hash_of (slide_element s.curr_slide)) ≡ some s.exif_table)

-- Before any slide, nothing is shown; a slide has a table.
abbrev pub Ready : (exif_html : String → Option String) → State → Type 0
Ready exif_html s =
    (table : String) × (lookup exif_html (hash_of (slide_element s.curr_slide)) ≡ some table)

clicked-ShowsOwn :
    (exif_html : String → Option String) (inner_html : Element → String) (s : State)
    → Ready exif_html s
    → ShowsOwn exif_html (step exif_html inner_html s clicks)
unfolding step
clicked-ShowsOwn exif_html inner_html s (table, e) =
    inr (e ∙ sym (ap (λ o. some (html_of s.exif_table o)) e))

run-Ready :
    (exif_html : String → Option String) (inner_html : Element → String) (s : State)
    (events : List Event)
    → AllHaveTables exif_html events
    → Ready exif_html s
    → ShowsOwn exif_html s
    → ShowsOwn exif_html (run exif_html inner_html s events)
unfolding run step
run-Ready exif_html inner_html s [] all r own = own
run-Ready exif_html inner_html s (opens ∷ events) (h, all) r own =
    run-Ready exif_html inner_html (step exif_html inner_html s opens) events all r own
run-Ready exif_html inner_html s (changes slide ∷ events) (h, all) r own =
    run-Ready exif_html inner_html (step exif_html inner_html s (changes slide)) events all h
      (inl refl)
run-Ready exif_html inner_html s (clicks ∷ events) (h, all) r own =
    run-Ready exif_html inner_html (step exif_html inner_html s clicks) events all r
      (clicked-ShowsOwn exif_html inner_html s r)
run-Ready exif_html inner_html s (closes ∷ events) (h, all) r own =
    run-Ready exif_html inner_html (step exif_html inner_html s closes) events all r (inl refl)

-- Whatever was shown before the viewer came to a slide, and whatever happens then, slides changed,
-- the button clicked, the viewer closed and opened again, where each slide has a table of exif
-- data: when the table is shown it is that of the slide the viewer is at, never that of an
-- earlier one.
pub run-ShowsOwn :
    (exif_html : String → Option String) (inner_html : Element → String) (s : State) (first : Slide)
    (events : List Event)
    → AllHaveTables exif_html (changes first ∷ events)
    → ShowsOwn exif_html (run exif_html inner_html s (changes first ∷ events))
unfolding run step
run-ShowsOwn exif_html inner_html s first events (h, all) =
    run-Ready exif_html inner_html (step exif_html inner_html s (changes first)) events all h
      (inl refl)
