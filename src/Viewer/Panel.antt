-- ===== src/Viewer/Panel.antt =====
-- What the viewer shows beside a slide, in `renderAlbum` of resources/static/album.js: the table of
-- exif data behind a button, the short exif text, the link for downloads, the caption and the
-- picture that a slide opens from.
pub mod Table
pub mod Quick
pub mod Opened
mod Tests
use Prim.Native.String
use Prim.Native.String.{String}
use text.Mathlib.Text.{◌==◌ as str_eq}
use photo_blog.Base.{Bool, true, false, not, Option, none, some, List, [], ◌∷◌, if◌then◌else◌}
use photo_blog.Results.{◌+s◌}
use photo_blog.Album.Nodes.{
  Element, element, of_class, of_tag, attribute, query_selector, query_inside, CaptionNode,
}

-- `currSlide.data`, with its element if it has one.
pub record Slide : Type 0 where
  pub src : String
  pub of_element : Option Element

abbrev pub attribute_of : String → Element → Option String
attribute_of name (element tag attributes children) = attribute name attributes

-- `$(element).data('hash')`, `none` where it is undefined.
abbrev pub hash_of : Option Element → Option String
hash_of none = none
hash_of (some e) = attribute_of "data-hash" e

-- What the filter `domItemData` sets: the picture that is shown while a slide opens, if any; with
-- it goes the mark that this picture is cropped.
abbrev pub msrc_for : (thumb_base : String) → Option String → Option String
msrc_for thumb_base none = none
msrc_for thumb_base (some hash) =
    if str_eq hash "" then none else some (thumb_base +s "/300w/" +s hash +s ".jpg")

abbrev pub source_element : (elem link_el : Option Element) → Option Element
source_element elem none = elem
source_element elem (some link) = some link

unfoldable pub dom_item_data : (thumb_base : String) (elem link_el : Option Element) → Option String
dom_item_data thumb_base elem link_el = msrc_for thumb_base (hash_of (source_element elem link_el))

-- The filter `thumbEl`.
abbrev pub or_else_found : Option Element → Option Element → Option Element
or_else_found none other = other
or_else_found (some e) other = some e

unfoldable pub thumb_el : (thumbnail elem : Option Element) → Option Element
thumb_el (some t) elem = some t
thumb_el none none = none
thumb_el none (some e) =
    or_else_found (query_selector (of_class "thumb-sprite") e)
      (query_inside (of_class "thumb") (of_tag "img") e)

-- `captionContent`, over the captions of the page.
abbrev pub caption_with : String → List CaptionNode → String
caption_with hash [] = ""
caption_with hash (c ∷ captions) =
    if str_eq c.data_hash hash then c.html else caption_with hash captions

abbrev pub caption_for : Option String → List CaptionNode → String
caption_for none captions = ""
caption_for (some hash) captions = if str_eq hash "" then "" else caption_with hash captions

unfoldable pub caption_content : Option Slide → List CaptionNode → String
caption_content none captions = ""
caption_content (some slide) captions = caption_for (hash_of slide.of_element) captions

-- `exif_table` is `#exif-container`'s content, `quick_exif` that of the element "custom-caption",
-- which the viewer has where the visitor or the album asks for exif data.
pub record State : Type 0 where
  pub curr_slide : Option Slide
  pub exif_table : String
  pub exif_shown : Bool
  pub quick_exif : String
  pub download : Option String

-- The viewer opens, which makes its elements anew; it changes to a slide, in which `change` and
-- `contentActivate` are told; the button of the technical details is clicked; the viewer closes.
pub data Event : Type 0 where
  opens : Event
  changes : Slide → Event
  clicks : Event
  closes : Event

-- jQuery's `html(value)` leaves the content alone where the value is undefined.
abbrev pub html_of : (content : String) → Option String → String
html_of content none = content
html_of content (some value) = value

-- `exifHtml[hash]`
abbrev pub lookup : (exif_html : String → Option String) → Option String → Option String
lookup exif_html none = none
lookup exif_html (some hash) = exif_html hash

abbrev pub slide_element : Option Slide → Option Element
slide_element none = none
slide_element (some slide) = slide.of_element

-- `inner_html` is `innerHTML`.
abbrev pub text_from : (inner_html : Element → String) (content : String) → Option Element → String
text_from inner_html content none = content
text_from inner_html content (some hidden) = inner_html hidden

abbrev pub quick_from : (inner_html : Element → String) (content : String) → Option Element → String
quick_from inner_html content none = content
quick_from inner_html content (some e) =
    text_from inner_html content (query_selector (of_class "quick-exif") e)

module _ (exif_html : String → Option String) (inner_html : Element → String) where
  unfoldable pub step : State → Event → State
  step s opens = record s { quick_exif = ""; download = none }
  step s (changes slide) = record {
    curr_slide = some slide;
    exif_table = s.exif_table;
    exif_shown = false;
    quick_exif = quick_from inner_html s.quick_exif slide.of_element;
    download = some slide.src;
  }
  step s clicks = record s {
    exif_table = html_of s.exif_table (lookup exif_html (hash_of (slide_element s.curr_slide)));
    exif_shown = not s.exif_shown;
  }
  step s closes = record s { exif_shown = false }

  unfoldable pub run : State → List Event → State
  unfolding step
  run s [] = s
  run s (e ∷ events) = run (step s e) events
