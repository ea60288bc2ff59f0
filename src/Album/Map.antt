-- ===== src/Album/Map.antt =====
-- The map of an album, in `renderAlbum` of resources/static/album.js: the markers of the images, the
-- tracks and what their popups show, and the registry by which a popup opens an image.
pub mod Click
pub mod Tracks
pub mod Overlays
mod Tests
use Prim.Native.String
use Prim.Native.String.{String}
use text.Mathlib.Text.{◌==◌ as str_eq}
use photo_blog.Base.{
  ℕ, ◌+◌, ◌*◌, ◌/◌, Bool, true, false, Option, none, some, List, [], ◌∷◌, ltb, ◌==◌, if◌then◌else◌,
}
use photo_blog.Results.{◌+s◌}
use photo_blog.Album.Sprites.{Sprite, Sheet, Icon, marker_icon_for}
use photo_blog.Album.Nearest.{Entry, time_at}

-- `openByHash` of a gallery: the index that the viewer is opened at, `none` where it is undefined.
abbrev pub Opener : Type 0
Opener = String → Option ℕ

-- `openByHashRegistry`, where the latest entry of a gallery stands first.
abbrev pub Registry : Type 0
Registry = List (String × Opener)

abbrev pub register : (gallery_key : String) → Opener → Registry → Registry
register gallery_key opener registry = (gallery_key, opener) ∷ registry

-- `openByHashInGallery`: nothing happens where the gallery is not registered.
abbrev pub open_by_hash_in_gallery : Registry → (gallery_key hash : String) → Option (Option ℕ)
open_by_hash_in_gallery [] gallery_key hash = none
open_by_hash_in_gallery ((key, opener) ∷ registry) gallery_key hash =
    if str_eq key gallery_key
    then some (opener hash)
    else open_by_hash_in_gallery registry gallery_key hash

-- The script of a link in a popup.
abbrev pub on_click : (gallery_key_js hash : String) → String
on_click gallery_key_js hash =
    "openByHashInGallery('" +s gallery_key_js +s "', '" +s hash +s "');return false"

-- `Math.round(w * img.width / img.height)`
abbrev pub rounded : (n d : ℕ) → ℕ
rounded n d = (2 * n + d) / (2 * d)

-- The width of the picture in a popup.
abbrev pub popup_width : (width height : ℕ) → ℕ
popup_width width height = if ltb width height then rounded (300 * width) height else 300

-- The picture in a popup, from the end of the link's first tag on; `decimal` is the text of a
-- natural number.
abbrev pub popup_picture :
    (decimal : ℕ → String) (thumb_base hash : String) (width height : ℕ) → String
popup_picture decimal thumb_base hash width height =
    "><img style=\"width: "
    +s decimal (popup_width width height)
    +s "px\" src=\""
    +s thumb_base
    +s "/200h/"
    +s hash
    +s ".jpg\" srcset=\""
    +s thumb_base
    +s "/400h/"
    +s hash
    +s ".jpg 2x\" /></a>"

-- The link in a popup, whose script stands in an attribute in double quotes.
abbrev pub popup_link :
    (decimal : ℕ → String) (thumb_base gallery_key_js hash : String) (width height : ℕ) → String
popup_link decimal thumb_base gallery_key_js hash width height =
    "<a href=\"#\" onclick=\""
    +s on_click gallery_key_js hash
    +s "\""
    +s popup_picture decimal thumb_base hash width height

-- `Number` is the type of coordinates, `fixed` is `toFixed` with a number of digits, `show` the text
-- of a number, `decimal` that of a natural one.
module _ (Number : Type 0) (fixed : ℕ → Number → String) (show : Number → String)
    (decimal : ℕ → String) where
  pub record Gps : Type 0 where
    pub latitude : Number
    pub longitude : Number
    pub altitude : Number
    pub hash : String

  pub record Located : Type 0 where
    pub gps : Gps
    pub width : ℕ
    pub height : ℕ
    pub description : String

  abbrev pub text_of : Located → String
  text_of img =
      "<p>Pos: "
      +s fixed 6 img.gps.latitude
      +s ","
      +s fixed 6 img.gps.longitude
      +s ", Alt: "
      +s show img.gps.altitude
      +s "m</p>"
      +s (if str_eq img.description "" then "" else "<div>" +s img.description +s "</div>")

  pub record Marker : Type 0 where
    pub at : Number × Number
    pub icon : Icon
    pub popup : String

  -- `thumb_size` is "400h" on a screen with more than one pixel for each of the page.
  abbrev pub thumb_size : (device_pixel_ratio_above_1 : Bool) → String
  thumb_size above = if above then "400h" else "200h"

  unfoldable pub popup_content : (thumb_base gallery_key_js : String) → Located → String
  popup_content thumb_base gallery_key_js img =
      text_of img +s popup_link decimal thumb_base gallery_key_js img.gps.hash img.width img.height

  -- `icon_for` is `markerIconFor`, with the address and the size of a picture for markers without
  -- a sprite.
  unfoldable pub marker :
      (icon_for : (hash fallback_url : String) (fallback_size : ℕ) → Icon) (above : Bool)
      (thumb_base gallery_key_js : String)
      → Located
      → Marker
  unfolding popup_content
  marker icon_for above thumb_base gallery_key_js img = record {
    at = (img.gps.latitude, img.gps.longitude);
    icon =
        icon_for img.gps.hash
          (thumb_base +s "/" +s thumb_size above +s "/" +s img.gps.hash +s ".jpg") 40;
    popup = popup_content thumb_base gallery_key_js img;
  }

  unfoldable pub markers :
      (icon_for : (hash fallback_url : String) (fallback_size : ℕ) → Icon) (above : Bool)
      (thumb_base gallery_key_js : String)
      → List Located
      → List Marker
  unfolding marker
  markers icon_for above thumb_base gallery_key_js [] = []
  markers icon_for above thumb_base gallery_key_js (img ∷ imgs) =
      marker icon_for above thumb_base gallery_key_js img
      ∷ markers icon_for above thumb_base gallery_key_js imgs

  abbrev pub map_links : (lat lon : Number) → String
  map_links lat lon =
      "<br /><a class=\"google-maps\" href=\"https://maps.google.com/maps?q=loc:"
      +s fixed 8 lat
      +s ","
      +s fixed 8 lon
      +s "\">google maps</a>"
      +s "<br /><a class=\"apple-maps\" href=\"https://maps.apple.com/?ll="
      +s fixed 8 lat
      +s ","
      +s fixed 8 lon
      +s "\">apple maps</a>"

  -- What a track's popup is opened at: a point of its own, or a place on a line, whose
  -- `coordTimes` may be missing.
  pub data Geometry : Type 0 where
    point : (lat lon : Number) → Geometry
    line : (coord_times : Option (List (Entry String))) → Geometry

  pub record Feature : Type 0 where
    pub desc : String
    pub name : String
    pub geometry : Geometry

  abbrev pub line_of : String → String
  line_of s = if str_eq s "" then "" else s +s "<br />"

  abbrev pub or_undefined : Option String → String
  or_undefined none = "undefined"
  or_undefined (some s) = s

  -- `pt_idx` and `away`, the rounded distance, are what the search for the nearest point gives.
  abbrev pub time_text : Option (List (Entry String)) → (pt_idx : List ℕ) (away : String) → String
  time_text none pt_idx away = ""
  time_text (some coord_times) pt_idx away =
      "<br />" +s or_undefined (time_at coord_times pt_idx) +s " (" +s away +s "m away)"

  abbrev pub place_text : Geometry → (pt_idx : List ℕ) (away : String) (lat lon : Number) → String
  place_text (point p_lat p_lon) pt_idx away lat lon =
      fixed 8 p_lat +s ", " +s fixed 8 p_lon +s map_links p_lat p_lon
  place_text (line coord_times) pt_idx away lat lon =
      fixed 8 lat +s ", " +s fixed 8 lon +s time_text coord_times pt_idx away +s map_links lat lon

  -- The popup of a track at the place (`lat`, `lon`) of a click.
  unfoldable pub gpx_popup :
      (name : String) → Feature → (pt_idx : List ℕ) (away : String) (lat lon : Number) → String
  gpx_popup name feat pt_idx away lat lon =
      name
      +s "<br />"
      +s line_of feat.desc
      +s line_of feat.name
      +s place_text feat.geometry pt_idx away lat lon
