-- ===== src/Viewer/Panel/Quick.antt =====
-- The short exif text beside a slide.
use Prim.Native.String.{String}
use photo_blog.Base.{◌≡◌, refl, ap, ◌∙◌, Bool, Option, some, List, [], ◌∷◌}
use photo_blog.Album.Link as Link
use photo_blog.Album.Nodes.{Element, link_node}
use photo_blog.Album.Nodes.Found.{AllWithout, link_node-Without}
use photo_blog.Viewer.Panel.{
  State, Event, opens, changes, clicks, closes, text_from, quick_from, step, run,
}

-- The slides' elements are links as `renderAlbum` leaves them, new ones or ones of the page.
abbrev pub IsRendered : Event → Type 0
IsRendered (changes slide) =
    (thumb_base : String) × (wide : String) × (has_sprite : Bool) × (existing : Option Element)
    × (attributes : List (String × String)) × (img : Link.Image) × AllWithout existing
    × (slide.of_element ≡ some (link_node thumb_base wide has_sprite existing attributes img))
IsRendered opens = Unit
IsRendered clicks = Unit
IsRendered closes = Unit

abbrev pub AllRendered : List Event → Type 0
AllRendered [] = Unit
AllRendered (e ∷ events) = IsRendered e × AllRendered events

step-quick_exif :
    (exif_html : String → Option String) (inner_html : Element → String) (s : State) (e : Event)
    → IsRendered e
    → s.quick_exif ≡ ""
    → (step exif_html inner_html s e).quick_exif ≡ ""
unfolding step
step-quick_exif exif_html inner_html s opens h empty = refl
step-quick_exif exif_html inner_html s (changes slide)
      (thumb_base, wide, has_sprite, existing, attributes, img, without, e) empty =
    ap (quick_from inner_html s.quick_exif) e
    ∙ ap (text_from inner_html s.quick_exif)
        (link_node-Without thumb_base wide has_sprite existing attributes img without)
    ∙ empty
step-quick_exif exif_html inner_html s clicks h empty = empty
step-quick_exif exif_html inner_html s closes h empty = empty

-- The links of the gallery are as `renderAlbum` leaves them, new ones, or ones of the server's page
-- that have no element "quick-exif" in them; the short exif text is empty, as it is when the
-- viewer opens. Then it stays empty whatever happens in the viewer: the captions, where the
-- "quick-exif" elements are, stand next to the links and not in them, where the code looks.
pub run-quick_exif :
    (exif_html : String → Option String) (inner_html : Element → String) (s : State)
    (events : List Event)
    → AllRendered events
    → s.quick_exif ≡ ""
    → (run exif_html inner_html s events).quick_exif ≡ ""
unfolding run
run-quick_exif exif_html inner_html s [] all empty = empty
run-quick_exif exif_html inner_html s (e ∷ events) (h, all) empty =
    run-quick_exif exif_html inner_html (step exif_html inner_html s e) events all
      (step-quick_exif exif_html inner_html s e h empty)
