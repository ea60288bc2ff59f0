-- ===== src/Album/Tests.antt =====
-- Runs of the parts of `renderAlbum`, and their theorems at concrete albums.
use Prim.Native.String
use Prim.Native.String.{String}
use text.Mathlib.Text.{◌==◌ as str_eq}
use photo_blog.Base.{
  map, All, ℕ, ◌≡◌, refl, Bool, true, false, not, Option, none, some, List, [], ◌∷◌, ◌++◌, arith,
  ltb, ◌==◌, ◌⊎◌, if◌then◌else◌,
}
use photo_blog.Base.Int.{ℤ, pos}
use photo_blog.Album.Nearest.Shown.{timed, time_at-nearest}
use photo_blog.Album.Nearest.{
  time_at, Entry, single, several, nearest, scan_entries, scan_points, offer, all_points,
}
use photo_blog.Album.Bounds.{
  Numbers, Box, IsHull, IsBoundsOf, spots, gps_bounds, gps_bounds-IsBoundsOf,
}
use photo_blog.Album.Bounds as Bounds
use photo_blog.Album.MapSides.{MapSettings, picked, fitted, fitted-picked}
use photo_blog.Album.Link as Link
use photo_blog.Album.Params.{Params, Location, Page, prepare, escape}
use photo_blog.Album.Params.Literal.{read_attribute, read_literal, prepared-gallery}
use photo_blog.Album.Link.{source_set, link}
use photo_blog.Album.Link.Sources.{link-hidden}
use photo_blog.Album.Gallery.{Image, Text, anchor, caption, chrono, rendered, gallery_of, is_later}
use photo_blog.Album.Gallery.Index.{IsIndexed, slides, slide_hashes, rendered-IsIndexed}
use photo_blog.Album.Gallery.Order.{
  IsChronological, time_of, node_times, IsChronological-gallery_of,
}

not_ltb_trans : (a b c : ℕ) → ltb b a ≡ false → ltb c b ≡ false → ltb c a ≡ false
not_ltb_trans a b c h k = ground arith

ltb_asymm : (a b : ℕ) → ltb a b ≡ true → ltb b a ≡ false
ltb_asymm a b h = ground arith

ltb_irrefl : (a : ℕ) → ltb a a ≡ false
ltb_irrefl a = ground arith

-- Positions counted in degrees from the south pole and from the date line.
abbrev degrees : Numbers
degrees = record {
  Number = ℕ;
  ltb = ltb;
  truthy = λ n. not (n == 0);
  ltb_irrefl = ltb_irrefl;
  ltb_asymm = ltb_asymm;
  not_ltb_trans = not_ltb_trans;
}

abbrev at : String → ℕ → ℕ → Bounds.Image degrees
at blur lat lon = record {
  blur_hash = blur;
  gps = some (record { latitude = lat; longitude = lon });
}

abbrev photos : List (Bounds.Image degrees)
photos = at "LE" 140 20 ∷ at "" 10 10 ∷ at "LF" 130 25 ∷ []

abbrev track : Box degrees
track = record { min_lat = 135; max_lat = 150; min_lon = 22; max_lon = 23 }

around : Box degrees
around = record { min_lat = 130; max_lat = 150; min_lon = 20; max_lon = 25 }

-- The second photo is still being indexed.
bounds_of_photos : gps_bounds degrees photos (track ∷ []) ≡ some around
unfolding gps_bounds around
bounds_of_photos = refl

gps_bounds-IsBoundsOf_example :
    IsBoundsOf degrees (gps_bounds degrees photos (track ∷ [])) (spots degrees photos ++ track ∷ [])
gps_bounds-IsBoundsOf_example = gps_bounds-IsBoundsOf degrees photos (track ∷ [])

abbrev no_sides : MapSettings degrees
no_sides = record {
  map_min_lat = some 0;
  map_max_lat = none;
  map_min_lon = none;
  map_max_lon = none;
}

abbrev lower_only : MapSettings degrees
lower_only = record {
  map_min_lat = some 90;
  map_max_lat = none;
  map_min_lon = none;
  map_max_lon = none;
}

fitted-picked_example :
    (b : Box degrees) × IsHull degrees b (spots degrees photos ++ track ∷ [])
    × (fitted degrees true no_sides photos (track ∷ []) ≡ some (picked degrees no_sides b))
fitted-picked_example = fitted-picked degrees no_sides photos (track ∷ []) (λ e. cc)

-- Times are written in unary digits, in thousands of seconds.
abbrev parse : String → Option ℤ
parse s = if str_eq s "i" then some (pos 1500) else if str_eq s "ii" then some (pos 2500) else none

abbrev texts : List Text
texts =
    record { time = "i"; text = "first day" }
    ∷ record { time = "soon"; text = "no time" }
    ∷ record { time = "ii"; text = "second day" }
    ∷ []

abbrev image : String → Bool → ℕ → Image
image hash pano ts = record { hash = hash; blur_hash = "LE"; is_360_pano = pano; utime = pos ts }

abbrev images : List Image
images = image "a" false 1 ∷ image "p" true 1 ∷ image "b" false 2 ∷ []

abbrev no_page : String → Bool
no_page h = false

-- The first text falls between the two images, the last one behind them.
gallery_of-images :
    gallery_of parse false no_page false (some texts) images
    ≡ chrono (record { time = "soon"; text = "no time" })
      ∷ anchor "a" (pos 1)
      ∷ caption "a"
      ∷ chrono (record { time = "i"; text = "first day" })
      ∷ anchor "b" (pos 2)
      ∷ caption "b"
      ∷ chrono (record { time = "ii"; text = "second day" })
      ∷ []
unfolding gallery_of is_later
gallery_of-images = refl

rendered-IsIndexed_example :
    IsIndexed (rendered parse false no_page false (some texts) images) (slide_hashes images)
    × (slides (gallery_of parse false no_page false (some texts) images) ≡ slide_hashes images)
rendered-IsIndexed_example = rendered-IsIndexed parse false no_page false (some texts) images

IsChronological-gallery_of_example :
    IsChronological false
      (node_times parse (gallery_of parse false no_page false (some texts) images))
unfolding time_of
IsChronological-gallery_of_example =
    IsChronological-gallery_of parse false no_page texts images (omega arith) (omega arith)

-- A track of a point and a segment, by the distances of its points.
abbrev segments : List (Entry ℕ)
segments = single 7 ∷ several (5 ∷ 3 ∷ 9 ∷ 3 ∷ []) ∷ []

nearest_segment :
    nearest degrees ℕ (λ d. d) segments ≡ record { shortest = some 3; pt_idx = 1 ∷ 1 ∷ [] }
unfolding nearest scan_entries scan_points offer
nearest_segment = refl

abbrev clock : ℕ → String
clock d = if d == 3 then "12:00" else "11:00"

time_at-nearest_example :
    (p : ℕ) × (time_at
        (map (timed degrees ℕ (λ d. d) clock) segments)
        (nearest degrees ℕ (λ d. d) segments).pt_idx
      ≡ some (clock p))
    × All (λ x. ltb x.1 p ≡ false) (all_points degrees ℕ (λ d. d) 0 segments)
time_at-nearest_example = time_at-nearest degrees ℕ (λ d. d) clock segments (λ e. cc)

abbrev wide_image : Link.Image
wide_image = record { hash = "a"; width = 4000; height = 3000; utime = pos 1 }

abbrev no_decimal : ℕ → String
no_decimal n = "4000"

link-hidden_example :
    (link no_decimal "/image" "/thumb" true false 0 none wide_image
      ≡ link no_decimal "/other" "/thumb" true false 0 none wide_image)
    × ((link no_decimal "/image" "/thumb" true false 0 none wide_image).href ≡ some "#")
link-hidden_example =
    link-hidden no_decimal "/image" "/other" "/thumb" true false 0 none wide_image refl

abbrev quoted_gallery : Params
quoted_gallery = record {
  album_name = "trip";
  map_tiles = "";
  map_attribution = "";
  gallery = "#it's \\ mine";
  gallery_pano = "";
  base_url = "";
  thumb_base_url = "";
  image_base_url = "";
}

abbrev at_trip : Location
at_trip = record { pathname = "/trip/"; search = "" }

prepared-gallery_example :
    (page : Page) × (prepare at_trip quoted_gallery ≡ some page)
    × (str_eq page.params.gallery "" ≡ false)
    × ((str_eq quoted_gallery.gallery "" ≡ true) ⊎ (page.params.gallery ≡ quoted_gallery.gallery))
    × (read_attribute (
          String.◌++◌
            (String.◌++◌ page.gallery_key_js (String.◌++◌ "'" ", 'a')"))
            (String.◌++◌ "\"" ">"))
        ≡ some (String.◌++◌ page.gallery_key_js (String.◌++◌ "'" ", 'a')")))
    × (read_literal false (String.◌++◌ page.gallery_key_js (String.◌++◌ "'" ", 'a')"))
        ≡ some (page.params.gallery, ", 'a')"))
prepared-gallery_example =
    prepared-gallery at_trip quoted_gallery ", 'a')" ">" refl (search) (search)

gallery_key_js : escape "it's \\" ≡ "it\\'s \\\\"
unfolding escape
gallery_key_js = refl
