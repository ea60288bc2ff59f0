-- ===== src/Menu/Tests.antt =====
-- The menu of a page.
use Prim.Native.String.{String}
use text.Mathlib.Text.{◌==◌ as str_eq}
use photo_blog.Base.{◌≡◌, refl, Bool, true, false, [], ◌∷◌}
use photo_blog.Menu.{Elements, handle_event}
use photo_blog.Menu.Open.{IsClosed, opened, handle_event-again}

abbrev page : Elements
page = record { layout = "" ∷ []; menu = "pure-menu" ∷ []; menu_link = "menu-link" ∷ [] }

page-IsClosed : IsClosed page
page-IsClosed = record { layout = (refl, tt); menu = (refl, tt); menu_link = (refl, tt) }

abbrev is_active : String → Bool
is_active c = str_eq c "active"

handle_event-again_example :
    (handle_event is_active true page ≡ (opened page, true))
    × (handle_event is_active false (handle_event is_active true page).0 ≡ (page, false))
handle_event-again_example = handle_event-again is_active false page refl page-IsClosed
