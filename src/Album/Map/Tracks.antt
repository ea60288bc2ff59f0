-- ===== src/Album/Map/Tracks.antt =====
-- The tracks on an album's map, in `renderAlbum` of resources/static/album.js: their colours and the
-- layers that can be switched.
use Prim.Native.String.{String}
use text.Mathlib.Text.{◌==◌ as str_eq}
use photo_blog.Base.{ℕ, List, [], ◌∷◌, ◌==◌, if◌then◌else◌}
use photo_blog.Results.{◌+s◌}

-- `getDarkColor`; `randoms` are the six numbers below 12.
abbrev pub hex_digit : ℕ → String
hex_digit n =
    if n == 10
    then "a"
    else if n == 11
    then "b"
    else if n == 9
    then "9"
    else if n == 8
    then "8"
    else if n == 7
    then "7"
    else if n == 6
    then "6"
    else if n == 5
    then "5"
    else if n == 4
    then "4"
    else if n == 3
    then "3"
    else if n == 2
    then "2"
    else if n == 1
    then "1"
    else "0"

abbrev pub dark_color : (randoms : List ℕ) → (color : String) → String
dark_color [] color = color
dark_color (n ∷ randoms) color = dark_color randoms (color +s hex_digit n)

abbrev pub get_dark_color : (randoms : List ℕ) → String
get_dark_color randoms = dark_color randoms "#"

-- A layer of the map: the photos, or the track of a file.
pub data Layer : Type 0 where
  photos : Layer
  track : (url : String) → Layer

pub record Track : Type 0 where
  pub hash : String
  pub name : String

-- `overlayMaps[name] = layer`
abbrev pub put_layer : String → Layer → List (String × Layer) → List (String × Layer)
put_layer name layer [] = (name, layer) ∷ []
put_layer name layer ((n, l) ∷ overlays) =
    if str_eq n name then (n, layer) ∷ overlays else (n, l) ∷ put_layer name layer overlays

abbrev pub add_tracks : List Track → List (String × Layer) → List (String × Layer)
add_tracks [] overlays = overlays
add_tracks (gpx ∷ tracks) overlays =
    add_tracks tracks (put_layer gpx.name (track ("/track/" +s gpx.hash +s ".gpx")) overlays)

-- What the control of the layers offers.
unfoldable pub overlay_maps : List Track → List (String × Layer)
overlay_maps tracks = add_tracks tracks (("Photos", photos) ∷ [])
