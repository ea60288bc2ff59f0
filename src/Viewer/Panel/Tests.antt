-- ===== src/Viewer/Panel/Tests.antt =====
-- A session with two slides.
use Prim.Native.String.{String}
use photo_blog.Base.{ℕ, ◌≡◌, refl, true, false, Option, none, some, List, [], ◌∷◌}
use photo_blog.Base.Int.{ℤ, pos}
use photo_blog.Results.{◌+s◌}
use photo_blog.Album.Link as Link
use photo_blog.Album.Link.{link}
use photo_blog.Album.Nodes.{
  Element, element, nil, cons, fits, attributes_of, link_node, CaptionNode, caption_node,
}
use photo_blog.Viewer.Panel.{
  Slide, State, Event, opens, changes, clicks, closes, thumb_el, dom_item_data, caption_content,
  run,
}
use photo_blog.Viewer.Panel.Table.{ShowsOwn, run-ShowsOwn}
use photo_blog.Viewer.Panel.Quick.{run-quick_exif}
use photo_blog.Viewer.Panel.Opened.{thumb_kind, opened-link_node}

abbrev hidden : State
hidden = record {
  curr_slide = none;
  exif_table = "";
  exif_shown = false;
  quick_exif = "";
  download = none;
}

abbrev of_hash : String → List (String × String)
of_hash hash = ("data-hash", hash) ∷ []

abbrev image : String → Link.Image
image hash = record { hash = hash; width = 600; height = 400; utime = pos 1 }

abbrev anchor : String → Element
anchor hash = link_node "/thumb" "600" true none (of_hash hash) (image hash)

-- A link of the page, with a picture.
abbrev served : Element
served =
    element "a" (of_hash "b2") (
      cons (element "span" (("class", "thumb portrait") ∷ []) (cons (element "img" [] nil) nil))
        nil)

abbrev slide : Element → Slide
slide e = record { src = "/image/full.jpg"; of_element = some e }

abbrev table_of : String → Option String
table_of hash = some ("<table>" +s hash)

abbrev no_text : Element → String
no_text e = "text"

abbrev session : List Event
session = clicks ∷ changes (slide served) ∷ clicks ∷ closes ∷ opens ∷ []

run-ShowsOwn_example :
    ShowsOwn table_of (run table_of no_text hidden (changes (slide (anchor "a1")) ∷ session))
unfolding link_node
run-ShowsOwn_example =
    run-ShowsOwn table_of no_text hidden (slide (anchor "a1")) session
      (("<table>a1", refl), (tt, (("<table>b2", refl), (tt, (tt, (tt, tt))))))

run-quick_exif_example :
    (run table_of no_text hidden (
      opens
      ∷ changes (slide (anchor "a1"))
      ∷ changes (slide (link_node "/thumb" "600" false (some served) (of_hash "b2") (image "b2")))
      ∷ clicks
      ∷ [])).quick_exif
    ≡ ""
unfolding link_node
run-quick_exif_example =
    run-quick_exif table_of no_text hidden
      (opens
        ∷ changes (slide (anchor "a1"))
        ∷ changes (slide (link_node "/thumb" "600" false (some served) (of_hash "b2") (image "b2")))
        ∷ clicks
        ∷ [])
      (
        tt,
        (
          ("/thumb", "600", true, none, of_hash "a1", image "a1", tt, refl),
          (("/thumb", "600", false, some served, of_hash "b2", image "b2", refl, refl), (tt, tt)),
        ),
      )
      refl

abbrev number : ℕ → String
number n = "7"

abbrev integer : ℤ → String
integer n = "1"

abbrev linked : Element
linked =
    link_node "/thumb" "600" false none
      (attributes_of number integer (link number "/image" "/thumb" false false 0 none (image "a1")))
      (image "a1")

abbrev before : CaptionNode
before = record { data_hash = "b2"; html = "Lake"; has_edit_icon = true }

opened-link_node_example :
    ((x : Element) × (thumb_el none (some linked) ≡ some x) × (fits (thumb_kind false) x ≡ true))
    × (dom_item_data "/thumb" none (some linked) ≡ some "/thumb/300w/a1.jpg")
    × (caption_content
          (some (record { src = "/a1.jpg"; of_element = some linked }))
          (before ∷ caption_node false none "a1" "edit" "Hill" ∷ [])
        ≡ "Hill")
opened-link_node_example =
    opened-link_node number integer "/image" "/thumb" false false "600" false 0 (image "a1")
      "/a1.jpg" "edit" "Hill" (before ∷ []) [] refl (refl, tt)
