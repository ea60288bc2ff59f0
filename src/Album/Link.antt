-- ===== src/Album/Link.antt =====
-- The link of an image in the gallery, in the loop of `renderAlbum` in resources/static/album.js:
-- its attributes, and the set of sources that the viewer chooses from.
pub mod Sources
use Prim.Native.String
use Prim.Native.String.{String}
use photo_blog.Base.{ℕ, Bool, true, false, not, ◌&&◌, Option, none, some, ltb, leb, if◌then◌else◌}
use photo_blog.Base.Int.{ℤ}
use photo_blog.Results.{◌+s◌}

-- What is read of an image; the numbers are texts where they are put into one.
pub record Image : Type 0 where
  pub hash : String
  pub width : ℕ
  pub height : ℕ
  pub utime : ℤ

-- The attributes of the element `a`, `none` where one is not set.
pub record Link : Type 0 where
  pub id : Option String
  pub data_hash : Option String
  pub class_name : Option String
  pub href : Option String
  pub target : Option String
  pub data_idx : Option ℕ
  pub pswp_width : Option ℕ
  pub pswp_height : Option ℕ
  pub pswp_srcset : Option String
  pub data_ts : Option ℤ

abbrev pub landscape : Image → String
landscape img = if leb img.height img.width then " landscape" else " portrait"

-- `decimal` is the text of a number, `image_base` and `thumb_base` are the variables of the page,
-- `hide_original` is the album's setting, and `low_res` the visitor's.
module _ (decimal : ℕ → String) (image_base thumb_base : String)
    (hide_original low_res : Bool) where
  -- A new element where the page has none.
  abbrev pub element : (i : ℕ) → Option Link → Image → Link
  element i (some existing) img = existing
  element i none img = record {
    id = some ("img" +s img.hash);
    data_hash = some img.hash;
    class_name =
        some
          (if ltb i 4 then "image img" +s decimal i +s landscape img else "image" +s landscape img);
    href = none;
    target = none;
    data_idx = none;
    pswp_width = none;
    pswp_height = none;
    pswp_srcset = none;
    data_ts = none;
  }

  abbrev pub has_size : Image → Bool
  has_size img = ltb 0 img.width && ltb 0 img.height

  abbrev pub thumb_sources : Image → String
  thumb_sources img =
      let small =
        thumb_base +s "/300w/" +s img.hash +s ".jpg 300w" +s ", " +s thumb_base +s "/600w/"
        +s img.hash +s ".jpg 600w" +s ", " +s thumb_base +s "/1200w/" +s img.hash +s ".jpg 1200w" in
      if low_res
      then small
      else small +s ", " +s thumb_base +s "/2400w/" +s img.hash +s ".jpg 2400w"

  unfoldable pub source_set : Image → String
  source_set img =
      if has_size img && (not hide_original && not low_res)
      then thumb_sources img
        +s ", "
        +s image_base
        +s "/"
        +s img.hash
        +s ".jpg "
        +s decimal img.width
        +s "w"
      else thumb_sources img

  -- The link of the i-th image of the album.
  unfoldable pub link : (i : ℕ) → Option Link → Image → Link
  unfolding source_set
  link i existing img =
      let a = element i existing img in
      record {
        id = a.id;
        data_hash = a.data_hash;
        class_name = a.class_name;
        href = some (if hide_original then "#" else image_base +s "/" +s img.hash +s ".jpg");
        target = some "_blank";
        data_idx = some i;
        pswp_width = if has_size img then some img.width else a.pswp_width;
        pswp_height = if has_size img then some img.height else a.pswp_height;
        pswp_srcset = some (source_set img);
        data_ts = some img.utime;
      }
