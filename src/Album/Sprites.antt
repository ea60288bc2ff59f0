-- ===== src/Album/Sprites.antt =====
-- Thumbnails and markers that are parts of a larger picture: `spriteThumbStyle`,
-- `updateResponsiveSpriteThumbs`, `markerSpriteStyle` and `markerIconFor` in
-- resources/static/album.js.
pub mod Unscaled
use Prim.Native.String.{String}
use photo_blog.Base.{ℕ, Bool, true, false, ◌&&◌, ◌||◌, Option, none, some, ltb, ◌==◌, if◌then◌else◌}
use photo_blog.Results.{◌+s◌}

-- The two files of a sheet.
pub record Sheet : Type 0 where
  pub chunk_1x : String
  pub chunk_2x : String

-- Where an image is in its sheet; a number that is missing is 0.
pub record Sprite : Type 0 where
  pub width : ℕ
  pub height : ℕ
  pub offset_y : ℕ
  pub background_width : ℕ
  pub background_height : ℕ

pub record Style : Type 0 where
  pub width : String
  pub height : String
  pub background_image : String
  pub background_position : String
  pub background_repeat : String
  pub background_size : String

-- The size of a canvas, `none` where it is given back to the page's styles.
pub record Thumb : Type 0 where
  pub sprite : Style
  pub canvas : Option (ℕ × ℕ)

-- A picture of its own, with its size, or a part of a sheet.
pub data Icon : Type 0 where
  icon : (url : String) (size : ℕ) → Icon
  div_icon : (width height : ℕ) (html : String) → Icon

abbrev pub url_of : (chunk : String) → String
url_of chunk = "/thumb-sprite/" +s chunk +s ".jpg"

-- `decimal` is the text of a number, and `scaled n a b` is `Math.round(n * (a / b))`; `image_set`
-- says whether the browser knows `image-set`.
module _ (decimal : ℕ → String) (scaled : ℕ → ℕ → ℕ → ℕ) (image_set : Bool) where
  abbrev pub px : ℕ → String
  px n = decimal n +s "px"

  -- `Math.round(n * scale)`, where the scale is 1 unless both widths are positive.
  abbrev pub at_scale : (width background_width n : ℕ) → ℕ
  at_scale width background_width n =
      if ltb 0 background_width && ltb 0 width then scaled n width background_width else n

  unfoldable pub sprite_thumb_style :
      Sheet → (width height offset_y background_width background_height : ℕ) → Style
  sprite_thumb_style sheet width height offset_y background_width background_height = record {
    width = px width;
    height = px height;
    background_image =
        if image_set
        then "image-set(url('"
          +s url_of sheet.chunk_1x
          +s "') 1x, url('"
          +s url_of sheet.chunk_2x
          +s "') 2x)"
        else "url('" +s url_of sheet.chunk_1x +s "')";
    background_position = "0 -" +s px (at_scale width background_width offset_y);
    background_repeat = "no-repeat";
    background_size =
        px (at_scale width background_width background_width)
        +s " "
        +s px (at_scale width background_width background_height);
  }

  abbrev pub has_sizes : Sprite → Bool
  has_sizes s =
      ltb 0 s.width && (ltb 0 s.height && (ltb 0 s.background_width && ltb 0 s.background_height))

  -- One thumbnail on a page, whose width is that of its element; `none` where it is left as it is.
  abbrev pub on_mobile : (thumb_width : ℕ) → Sprite → Sheet → Option Thumb
  on_mobile thumb_width s sheet =
      let height = scaled s.height thumb_width s.width in
      if thumb_width == 0
      then none
      else some (record {
        sprite =
            sprite_thumb_style sheet thumb_width height s.offset_y s.background_width
              s.background_height;
        canvas = some (thumb_width, height);
      })

  unfoldable pub update_thumb :
      (mobile : Bool) (thumb_width : ℕ) → Option Sprite → Option Sheet → Option Thumb
  unfolding sprite_thumb_style
  update_thumb mobile thumb_width none sheet = none
  update_thumb mobile thumb_width (some s) none = none
  update_thumb mobile thumb_width (some s) (some sheet) =
      if has_sizes s
      then if mobile
        then on_mobile thumb_width s sheet
        else some (record {
          sprite =
              sprite_thumb_style sheet s.width s.height s.offset_y s.background_width
                s.background_height;
          canvas = none;
        })
      else none

  unfoldable pub marker_sprite_style : Sprite → Option Sheet → String
  marker_sprite_style s none = ""
  marker_sprite_style s (some sheet) =
      let one_x = url_of sheet.chunk_1x in
      let two_x = url_of sheet.chunk_2x in
      "width:"
      +s px s.width
      +s ";height:"
      +s px s.height
      +s ";background-image:url('"
      +s one_x
      +s "');background-image:-webkit-image-set(url('"
      +s one_x
      +s "') 1x, url('"
      +s two_x
      +s "') 2x);background-image:image-set(url('"
      +s one_x
      +s "') 1x, url('"
      +s two_x
      +s "') 2x);background-position:0 -"
      +s px s.offset_y
      +s ";background-repeat:no-repeat;background-size:"
      +s px s.background_width
      +s " "
      +s px s.background_height
      +s ";display:block;border-radius:20%;"

  unfoldable pub marker_icon_for :
      Option Sprite → Option Sheet → (fallback_url : String) (fallback_size : ℕ) → Icon
  unfolding marker_sprite_style
  marker_icon_for none sheet fallback_url fallback_size = icon fallback_url fallback_size
  marker_icon_for (some s) sheet fallback_url fallback_size =
      div_icon s.width s.height
        ("<span class=\"image-marker\" style=\"" +s marker_sprite_style s sheet +s "\"></span>")
