-- ===== src/Album/Caption.antt =====
-- The caption of an image and its table of exif data, in the loop of `renderAlbum` in
-- resources/static/album.js, as texts.
pub mod Says
pub mod Properties
use Prim.Native.Char.{Char, code}
use Prim.Native.String
use Prim.Native.String.{String}
use text.Mathlib.Text.{◌==◌ as str_eq}
use photo_blog.Base.{
  ℕ, Bool, true, false, ◌||◌, Option, none, some, List, [], ◌∷◌, ◌==◌, ltb, if◌then◌else◌,
}
use photo_blog.Results.{◌+s◌}

-- All are the texts that `+` makes of the properties; the four numbers are "" where they are missing
-- or 0.
pub record Exif : Type 0 where
  pub camera_model : String
  pub lens_model : String
  pub focal_length : String
  pub exposure_time : String
  pub f_number : String
  pub iso_speed : String

pub record Classification : Type 0 where
  pub model : String
  pub text : String
  pub score : String

pub record Description : Type 0 where
  pub model : String
  pub prompt : String
  pub text : String

-- `faces` is the number of faces.
pub record Meta : Type 0 where
  pub image_classification : List Classification
  pub faces : ℕ
  pub image_descriptions : List Description
  pub geo_label : String

pub record Image : Type 0 where
  pub hash : String
  pub description : String
  pub exif : Option Exif
  pub meta : Option Meta

-- The parameters of the page and the album's name; "" stands for a key that is missing.
pub record Settings : Type 0 where
  pub album_name : String
  pub result_name : String
  pub featured : String
  pub collab_key : String
  pub show_ai_says : Bool

abbrev pub controls : Settings → (hash : String) → String
controls s hash =
    "<a title=\"Edit details\" class=\"control-panel ctrl-btn edit-icon\" href=\"/edit/image/"
    +s hash
    +s ".html\"></a>"
    +s (if str_eq s.result_name s.featured
        then ""
        else "<a title=\"Add to featured\" class=\"control-panel ctrl-btn star-icon\" href=\"#\" onclick=\"addToFeatured('"
          +s hash +s "');return false\"></a>")
    +s (if str_eq s.collab_key ""
        then "<a title=\"Remove from album\" class=\"control-panel ctrl-btn trash-icon\" href=\"#\" onclick=\"removeImage('"
          +s s.album_name +s "','" +s hash +s "');return false\"></a>"
        else "<a title=\"Remove from album\" class=\"ctrl-btn trash-icon\" href=\"#\" onclick=\"removeImage('"
          +s s.album_name +s "','" +s hash +s "','" +s s.collab_key +s "');return false\"></a>")

abbrev pub when_given : (given shown : String) → String
when_given given shown = if str_eq given "" then "" else shown

abbrev pub quick_exif : Option Exif → String
quick_exif none = ""
quick_exif (some e) =
    "<div class=\"quick-exif\">"
    +s e.camera_model
    +s " "
    +s e.lens_model
    +s " @ "
    +s when_given e.focal_length (e.focal_length +s "mm")
    +s " "
    +s when_given e.exposure_time (e.exposure_time +s "s")
    +s " "
    +s when_given e.f_number ("f/" +s e.f_number)
    +s " "
    +s when_given e.iso_speed ("iso" +s e.iso_speed)
    +s "</div>"

-- `split("\n").join("<br />")`
abbrev pub with_breaks : String → String
with_breaks String.[] = ""
with_breaks (String.◌∷◌ c s) =
    let rest = with_breaks s in if code c == b'\n' then "<br />" +s rest else String.◌∷◌ c rest

-- The first description with a text.
abbrev pub find_description : List Description → Option Description
find_description [] = none
find_description (d ∷ ds) = if str_eq d.text "" then find_description ds else some d

abbrev pub find_classification : List Classification → Option Classification
find_classification [] = none
find_classification (c ∷ cs) =
    if str_eq c.model "cf-uform-gen2" then some c else find_classification cs

abbrev pub opening : String
opening =
    "<div class=\"ai-says\" style=\"margin-top: 20px\"><span title=\"I don't always talk bullshit, but when I do, I'm confident\" class=\"icon-link robot-icon\"></span>"

abbrev pub says_classification : Option Classification → String
says_classification none = ""
says_classification (some c) = opening +s "<em>AI says:</em><br/>" +s with_breaks c.text +s "</div>"

abbrev pub says_description : Option Description → (cl : List Classification) → String
says_description none cl = says_classification (find_classification cl)
says_description (some d) cl =
    opening
    +s "<em title=\""
    +s d.model
    +s ": "
    +s d.prompt
    +s "\">AI says:</em><br/>"
    +s with_breaks d.text
    +s "</div>"

unfoldable pub ai_says : Bool → Meta → String
ai_says show meta =
    if show
    then says_description (find_description meta.image_descriptions) meta.image_classification
    else ""

-- `decimal` is the text of a number.
module _ (decimal : ℕ → String) where
  abbrev pub meta_part : Bool → Option Meta → String
  meta_part show none = ""
  meta_part show (some meta) =
      "<div class=\"control-panel\">"
      +s (if ltb 0 meta.faces then decimal meta.faces +s " face(s)<br/>" else "")
      +s "</div>"
      +s ai_says show meta
      +s when_given meta.geo_label (
          "<div style=\"margin-top: 20px\"><span class=\"icon-link location-icon\"></span>"
          +s meta.geo_label +s "</div>")

  -- `img_description`
  unfoldable pub img_description : Settings → Image → String
  unfolding ai_says
  img_description s img =
      controls s img.hash
      +s when_given img.description ("<div>" +s img.description +s "</div>")
      +s quick_exif img.exif
      +s meta_part s.show_ai_says img.meta

abbrev pub is_hidden : String → Bool
is_hidden k = str_eq k "hash" || str_eq k "exposure_time_sec" || str_eq k "created_at"

abbrev pub add_properties : List (String × String) → (exh : String) → String
add_properties [] exh = exh
add_properties ((k, v) ∷ properties) exh =
    if is_hidden k
    then add_properties properties exh
    else if str_eq v ""
    then add_properties properties exh
    else add_properties properties (exh +s "<tr><th>" +s k +s "</th><td>" +s v +s "</td>")

-- The table of the properties in their order, with "" for a value that is missing, 0 or false.
unfoldable pub exif_html : List (String × String) → String
exif_html exif = add_properties exif "<table>" +s "</table>"
