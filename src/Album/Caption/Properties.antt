-- ===== src/Album/Caption/Properties.antt =====
-- The properties in an image's table of exif data, in `renderAlbum` of resources/static/album.js:
-- those that the image was taken with, and those that the page adds.
use Prim.Native.String.{String}
use text.Mathlib.Text.{◌==◌ as str_eq}
use text.Mathlib.TextEquality.{eq_iff}
use photo_blog.Base.{
  ℕ, ◌*◌, ◌≡◌, refl, ap, ◌∙◌, Option, none, some, List, [], ◌∷◌, if◌then◌else◌, arith,
}
use photo_blog.Results.{◌+s◌}
use photo_blog.FileSize.{Size, human_file_size}
use photo_blog.Album.Caption.{Classification, exif_html}

-- `exif[k] = v`: in its place if the object has it, behind the others if not.
abbrev pub put_property : String → String → List (String × String) → List (String × String)
put_property k v [] = (k, v) ∷ []
put_property k v ((j, w) ∷ exif) =
    if str_eq j k then (j, v) ∷ exif else (j, w) ∷ put_property k v exif

abbrev pub put_classifications :
    List Classification → List (String × String) → List (String × String)
put_classifications [] exif = exif
put_classifications (l ∷ cl) exif =
    put_classifications cl (put_property (l.model +s ":" +s l.text) l.score exif)

-- The links to two maps, of the texts of a position.
abbrev pub location_text : String × String → String
location_text (lat, lon) =
    "<a class=\"google-maps\" href=\"https://maps.google.com/maps?q=loc:" +s lat +s "," +s lon
    +s "\">google maps</a> <a class=\"apple-maps\" href=\"https://maps.apple.com/?ll=" +s lat +s ","
    +s lon +s "\">apple maps</a>"

abbrev pub put_location : Option (String × String) → List (String × String) → List (String × String)
put_location none exif = exif
put_location (some gps) exif = put_property "location" (location_text gps) exif

abbrev pub exif_or_empty : Option (List (String × String)) → List (String × String)
exif_or_empty none = []
exif_or_empty (some exif) = exif

abbrev pub classifications : Option (List Classification) → List Classification
classifications none = []
classifications (some cl) = cl

-- `size_text` is the text of a size, `megapixels` that of `Math.round(n / 10000) / 100`.
module _ (size_text : Size → String) (megapixels : ℕ → String) where
  abbrev pub size_property : (size width height : ℕ) → String
  size_property size width height =
      size_text (human_file_size size) +s ", " +s megapixels (width * height) +s " MP"

  -- `exif` after the properties that the page adds.
  unfoldable image_properties :
      (exif : Option (List (String × String))) (name : String) (size width height : ℕ)
      (gps : Option (String × String)) (meta : Option (List Classification))
      → List (String × String)
  image_properties exif name size width height gps meta =
      put_classifications (classifications meta) (
        put_location gps (
          put_property "size" (size_property size width height)
            (put_property "file_name" name (exif_or_empty exif))))

  unfoldable image_exif_html :
      (exif : Option (List (String × String))) (name : String) (size width height : ℕ)
      (gps : Option (String × String)) (meta : Option (List Classification))
      → String
  unfolding image_properties exif_html
  image_exif_html exif name size width height gps meta =
      exif_html (image_properties exif name size width height gps meta)

abbrev pub property : String → List (String × String) → Option String
property k [] = none
property k ((j, w) ∷ exif) = if str_eq j k then some w else property k exif

property-put_property :
    (k j v : String) (exif : List (String × String))
    → property k (put_property j v exif) ≡ (if str_eq j k then some v else property k exif)
property-put_property k j v [] = refl
property-put_property k j v ((i, w) ∷ exif) =
    ground (arith, eq_iff i j, eq_iff j k, eq_iff i k, property-put_property k j v exif)

-- The last classification with the key, or else what was there before.
abbrev pub classified : String → List Classification → Option String → Option String
classified k [] before = before
classified k (l ∷ cl) before =
    classified k cl (if str_eq (l.model +s ":" +s l.text) k then some l.score else before)

property-put_classifications :
    (k : String) (cl : List Classification) (exif : List (String × String))
    → property k (put_classifications cl exif) ≡ classified k cl (property k exif)
property-put_classifications k [] exif = refl
property-put_classifications k (l ∷ cl) exif =
    property-put_classifications k cl (put_property (l.model +s ":" +s l.text) l.score exif)
    ∙ ap (classified k cl) (property-put_property k (l.model +s ":" +s l.text) l.score exif)

-- The table of an image has the page's name and size of the file, whatever the image's exif data
-- say of them, unless a classification has that key; a property that the page does not add is that
-- of the exif data.
property-image_properties :
    (size_text : Size → String) (megapixels : ℕ → String) (k : String)
    (exif : Option (List (String × String))) (name : String) (size width height : ℕ)
    (meta : Option (List Classification))
    → property k (image_properties size_text megapixels exif name size width height none meta)
      ≡ classified k (classifications meta) (
          if str_eq "size" k
          then some (size_property size_text megapixels size width height)
          else if str_eq "file_name" k
          then some name
          else property k (exif_or_empty exif))
unfolding image_properties
property-image_properties size_text megapixels k exif name size width height meta =
    property-put_classifications k (classifications meta) _
    ∙ ap (classified k (classifications meta)) (
        property-put_property k "size" (size_property size_text megapixels size width height)
          (put_property "file_name" name (exif_or_empty exif))
        ∙ ap
            (λ o.
              if str_eq "size" k
              then some (size_property size_text megapixels size width height)
              else o)
            (property-put_property k "file_name" name (exif_or_empty exif)))
