-- ===== src/Album/Gallery.antt =====
-- The loop of `renderAlbum` in resources/static/album.js that fills the gallery: the images with
-- their indices, and the album's texts between them in chronological order.
pub mod Layout
pub mod Order
pub mod Index
use Prim.Native.String.{String}
use text.Mathlib.Text.{◌==◌ as str_eq}
use photo_blog.Base.{
  ℕ, suc, ◌+◌, ◌*◌, Bool, true, false, not, ◌&&◌, Option, none, some, List, [], ◌∷◌, ◌++◌, map,
  if◌then◌else◌,
}
use photo_blog.Base.Int.{ℤ, pos, negsuc, ltb_ℤ}

-- What the loop reads of an image; `blur_hash` is "" where it is missing, `utime` is in seconds.
pub record Image : Type 0 where
  pub hash : String
  pub blur_hash : String
  pub is_360_pano : Bool
  pub utime : ℤ

pub record Text : Type 0 where
  pub time : String
  pub text : String

-- What is appended to the gallery: the link of an image, its caption, or a text.
pub data Node : Type 0 where
  anchor : (hash : String) (ts : ℤ) → Node
  caption : (hash : String) → Node
  chrono : Text → Node

-- The variables of the loop. `chrono_texts` is `none` where it is undefined; the objects
-- `hashByIdx` and `idxByHash` are lists of entries, the latest first.
pub record State : Type 0 where
  pub gallery : List Node
  pub panos : List String
  pub chrono_texts : Option (List Text)
  pub idx : ℕ
  pub hash_by_idx : List (ℕ × String)
  pub idx_by_hash : List (String × ℕ)

-- A number of seconds in milliseconds.
abbrev pub milliseconds : ℤ → ℤ
milliseconds (pos n) = pos (1000 * n)
milliseconds (negsuc n) = negsuc (1000 * n + 999)

abbrev pub texts_of : Option (List Text) → List Text
texts_of none = []
texts_of (some ts) = ts

abbrev pub start : Option (List Text) → State
start texts = record {
  gallery = [];
  panos = [];
  chrono_texts = texts;
  idx = 0;
  hash_by_idx = [];
  idx_by_hash = [];
}

-- `parse` is `Date.parse`, in milliseconds and `none` where it gives NaN.
module _ (parse : String → Option ℤ) (newest_first : Bool) where
  -- The text comes later than an image taken at `ts` and is kept for the next one.
  unfoldable pub is_later : ℤ → Text → Bool
  is_later ts t = elim (parse t.time) [
    | none ↦ false
    | some tt ↦ if newest_first then ltb_ℤ tt (milliseconds ts) else ltb_ℤ (milliseconds ts) tt
  ]

  -- The loop over `chronoTexts` before the link of an image: what is later is kept for the next.
  unfoldable pub put_from : ℤ → List Text → List Node → List Text → List Node × List Text
  put_from ts [] gallery kept = (gallery, kept)
  put_from ts (t ∷ rest) gallery kept =
      put_from ts rest (if is_later ts t then gallery else gallery ++ chrono t ∷ [])
        (if is_later ts t then kept ++ t ∷ [] else kept)

-- `in_page` says whether the server's page has an element for a hash.
module _ (parse : String → Option ℤ) (newest_first : Bool) (in_page : String → Bool)
    (pre_rendered : Bool) where
  abbrev pub existing : Image → Bool
  existing img = pre_rendered && in_page img.hash

  -- The gallery and `chronoTexts` after the texts before an image. Without texts, or where the
  -- server rendered them, `chronoTexts` is undefined afterwards.
  unfoldable pub texts_put : ℤ → Option (List Text) → List Node → List Node × Option (List Text)
  unfolding put_from
  texts_put ts none gallery = (gallery, none)
  texts_put ts (some texts) gallery =
      if pre_rendered
      then (gallery, none)
      else (let put = put_from parse newest_first ts texts gallery [] in (put.0, some put.1))

  unfoldable pub put_texts : ℤ → State → State
  unfolding texts_put
  put_texts ts s =
      let put = texts_put ts s.chrono_texts s.gallery in
      record s { gallery = put.0; chrono_texts = put.1 }

  -- An image that is not a panorama takes the next index, whether or not it is on the page.
  unfoldable pub put_image : State → Image → State
  unfolding put_texts
  put_image s img =
      let s1 = put_texts img.utime (record s {
        idx = s.idx + 1;
        hash_by_idx = (s.idx, img.hash) ∷ s.hash_by_idx;
        idx_by_hash = (img.hash, s.idx) ∷ s.idx_by_hash;
      }) in
      if existing img
      then s1
      else record s1 { gallery = s1.gallery ++ (anchor img.hash img.utime ∷ caption img.hash ∷ []) }

  unfoldable pub put_pano : State → Image → State
  put_pano s img = if existing img then s else record s { panos = s.panos ++ img.hash ∷ [] }

  -- One round: an image without a blur hash is likely still being indexed.
  unfoldable pub render_image : State → Image → State
  unfolding put_image put_pano
  render_image s img =
      if str_eq img.blur_hash ""
      then s
      else if img.is_360_pano
      then put_pano s img
      else put_image s img

  unfoldable pub render_images : State → List Image → State
  unfolding render_image
  render_images s [] = s
  render_images s (img ∷ imgs) = render_images (render_image s img) imgs

  -- The texts that are left are put behind the images.
  unfoldable pub put_rest : State → List Node
  put_rest s = if pre_rendered then s.gallery else s.gallery ++ map chrono (texts_of s.chrono_texts)

  unfoldable pub rendered : Option (List Text) → List Image → State
  unfolding render_images
  rendered texts imgs = render_images (start texts) imgs

  unfoldable pub gallery_of : Option (List Text) → List Image → List Node
  unfolding rendered put_rest
  gallery_of texts imgs = put_rest (rendered texts imgs)
