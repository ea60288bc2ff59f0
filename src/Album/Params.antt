-- ===== src/Album/Params.antt =====
-- The parameters of an album's page: the first part of `loadAlbum` in resources/static/album.js.
pub mod Literal
use Prim.Native.Char.{Char, char, code}
use Prim.Native.String
use Prim.Native.String.{String}
use text.Mathlib.Text.{◌==◌ as str_eq}
use photo_blog.Base.{ℕ, Bool, true, false, not, ◌&&◌, Option, none, some, ◌==◌, if◌then◌else◌}
use photo_blog.Results.{◌+s◌}

-- `params`: the album's name is always there, the others are "" where they are missing, too.
pub record Params : Type 0 where
  pub album_name : String
  pub map_tiles : String
  pub map_attribution : String
  pub gallery : String
  pub gallery_pano : String
  pub base_url : String
  pub thumb_base_url : String
  pub image_base_url : String

-- The page's address: `location.pathname` and `location.search`.
pub record Location : Type 0 where
  pub pathname : String
  pub search : String

-- The variables of the function.
pub record Page : Type 0 where
  pub params : Params
  pub thumb_base : String
  pub image_base : String
  pub gallery_key_js : String

abbrev pub or_else : (given default : String) → String
or_else given default = if str_eq given "" then default else given

-- `replace(/\\/g, "\\\\")`
abbrev pub double_backslashes : String → String
double_backslashes String.[] = ""
double_backslashes (String.◌∷◌ c s) =
    let rest = double_backslashes s in
    if code c == b'\\' then String.◌∷◌ c (String.◌∷◌ c rest) else String.◌∷◌ c rest

abbrev pub backslash : Char
backslash = char b'\\' tt

-- `replace(/'/g, "\\'")`
abbrev pub escape_quotes : String → String
escape_quotes String.[] = ""
escape_quotes (String.◌∷◌ c s) =
    let rest = escape_quotes s in
    if code c == b'\'' then String.◌∷◌ backslash (String.◌∷◌ c rest) else String.◌∷◌ c rest

unfoldable pub escape : String → String
escape s = escape_quotes (double_backslashes s)

-- The album's own address, and on another page at the root that page's.
abbrev pub own_url : Location → (base_url : String) → String
own_url location base_url =
    if str_eq base_url "/" && not (str_eq location.pathname "/")
    then location.pathname +s location.search
    else base_url

-- Without an album there is nothing to load.
unfoldable pub prepare : Location → Params → Option Page
unfolding escape
prepare location p =
    let gallery = or_else p.gallery "#gallery" in
    if str_eq p.album_name ""
    then none
    else some (record {
      params = record {
        album_name = p.album_name;
        map_tiles = or_else p.map_tiles "https://tile.openstreetmap.org/{z}/{x}/{y}.png";
        map_attribution =
            or_else p.map_attribution
              "&copy; <a href=\"https://www.openstreetmap.org/copyright\">OpenStreetMap</a>";
        gallery = gallery;
        gallery_pano = or_else p.gallery_pano "#gallery-pano";
        base_url = own_url location (or_else p.base_url ("/" +s p.album_name));
        thumb_base_url = p.thumb_base_url;
        image_base_url = p.image_base_url;
      };
      thumb_base = or_else p.thumb_base_url "/thumb";
      image_base = or_else p.image_base_url "/image";
      gallery_key_js = escape gallery;
    })
