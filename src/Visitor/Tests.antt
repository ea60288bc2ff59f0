-- ===== src/Visitor/Tests.antt =====
-- Browsers of a visitor.
use photo_blog.Base.{refl, true, none, some, List, [], ◌∷◌}
use photo_blog.Visitor.{Browser}
use photo_blog.Visitor.Identity.{
  IsKnown, Event, low_res, cookie_lost, storage_lost, reload, run, run-IsKnown,
}

abbrev known : Browser
known = record {
  cookie = some "k3";
  stored = some (record { id = "k3"; low_res = none; show_exif = none });
  visitor_data = record { id = "k3"; low_res = none; show_exif = none };
}

abbrev visits : List Event
visits = low_res true ∷ cookie_lost "a" ∷ storage_lost "b" ∷ reload "c" ∷ []

run-IsKnown_example : IsKnown (run known visits) "k3"
run-IsKnown_example =
    run-IsKnown known "k3" visits
      (record { real = refl; visitor_data = refl; cookie = refl; stored = refl })

abbrev empty : Browser
empty = record {
  cookie = none;
  stored = none;
  visitor_data = record { id = ""; low_res = none; show_exif = none };
}
