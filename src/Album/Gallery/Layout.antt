-- ===== src/Album/Gallery/Layout.antt =====
-- What the loop puts into the gallery, image by image: none of the texts is lost or repeated.
use Prim.Native.String.{String}
use text.Mathlib.Text.{◌==◌ as str_eq}
use mathlib.Core.List.{Perm}
use mathlib.Core.List.Perm
use mathlib.Core.List.{perm_middle}
use photo_blog.Base.{
  ◌≡◌, refl, ap, ◌∙◌, Bool, false, not, ◌||◌, append-nil, append_assoc, map, inl, inr, Option, some,
  List, [], ◌∷◌, ◌++◌, select, if◌then◌else◌, Bool-cases,
}
use photo_blog.Base.Int.{ℤ}
use photo_blog.Album.Gallery.{
  Image, Text, Node, anchor, caption, chrono, State, is_later, put_from, texts_put, gallery_of,
  put_texts, put_image, put_pano, render_image, render_images, put_rest, start,
}

module _ (parse : String → Option ℤ) (newest_first : Bool) where
  -- The texts that are put in front of an image taken at `ts`.
  abbrev pub early : ℤ → List Text → List Text
  early ts texts = select (λ t. not (is_later parse newest_first ts t)) texts

  abbrev pub later : ℤ → List Text → List Text
  later ts texts = select (λ t. is_later parse newest_first ts t) texts

  put_from-eq :
      (ts : ℤ) (texts : List Text) (gallery : List Node) (kept : List Text)
      → put_from parse newest_first ts texts gallery kept
        ≡ (gallery ++ map chrono (early ts texts), kept ++ later ts texts)
  unfolding put_from
  put_from-eq ts [] gallery kept = simp append-nil
  put_from-eq ts (t ∷ texts) gallery kept = elim (Bool-cases (is_later parse newest_first ts t)) [
    | inl e ↦ simp (e, put_from-eq ts texts gallery (kept ++ t ∷ []), append_assoc)
    | inr e ↦ simp (e, put_from-eq ts texts (gallery ++ chrono t ∷ []) kept, append_assoc)
  ]

  abbrev pub skipped : Image → Bool
  skipped img = str_eq img.blur_hash "" || img.is_360_pano

  -- What one image puts into the gallery, and the texts that it leaves.
  abbrev pub nodes_of : List Text → Image → List Node
  nodes_of texts img =
      if skipped img
      then []
      else map chrono (early img.utime texts) ++ (anchor img.hash img.utime ∷ caption img.hash ∷ [])

  abbrev pub left_of : List Text → Image → List Text
  left_of texts img = if skipped img then texts else later img.utime texts

  abbrev pub laid_out : List Text → List Image → List Node
  laid_out texts [] = map chrono texts
  laid_out texts (img ∷ imgs) = nodes_of texts img ++ laid_out (left_of texts img) imgs

  module _ (in_page : String → Bool) where
    gallery-render_image :
        (s : State) (texts : List Text) (img : Image)
        → s.chrono_texts ≡ some texts
        → (render_image parse newest_first in_page false s img).gallery
          ≡ s.gallery ++ nodes_of texts img
    unfolding render_image put_image put_pano put_texts texts_put
    gallery-render_image s texts img c = elim (Bool-cases (str_eq img.blur_hash "")) [
      | inl e ↦ simp (e, append-nil)
      | inr e ↦ elim (Bool-cases img.is_360_pano) [
        | inl pano ↦ simp (e, pano, append-nil)
        | inr plain ↦ simp (e, plain, c, put_from-eq, append_assoc)
      ]
    ]

    texts-render_image :
        (s : State) (texts : List Text) (img : Image)
        → s.chrono_texts ≡ some texts
        → (render_image parse newest_first in_page false s img).chrono_texts
          ≡ some (left_of texts img)
    unfolding render_image put_image put_pano put_texts texts_put
    texts-render_image s texts img c = elim (Bool-cases (str_eq img.blur_hash "")) [
      | inl e ↦ simp (e, c)
      | inr e ↦ elim (Bool-cases img.is_360_pano) [
        | inl pano ↦ simp (e, pano, c)
        | inr plain ↦ simp (e, plain, c, put_from-eq)
      ]
    ]

    put_rest-render_images :
        (s : State) (texts : List Text) (imgs : List Image)
        → s.chrono_texts ≡ some texts
        → put_rest parse newest_first in_page false
            (render_images parse newest_first in_page false s imgs)
          ≡ s.gallery ++ laid_out texts imgs
    unfolding render_images put_rest
    put_rest-render_images s texts [] c = simp c
    put_rest-render_images s texts (img ∷ imgs) c =
        put_rest-render_images (render_image parse newest_first in_page false s img)
          (left_of texts img) imgs (texts-render_image s texts img c)
        ∙ ap (λ g. g ++ laid_out (left_of texts img) imgs) (gallery-render_image s texts img c)
        ∙ append_assoc s.gallery (nodes_of texts img) _

    pub gallery_of-eq :
        (texts : List Text) (imgs : List Image)
        → gallery_of parse newest_first in_page false (some texts) imgs ≡ laid_out texts imgs
    unfolding gallery_of
    gallery_of-eq texts imgs = put_rest-render_images (start (some texts)) texts imgs refl

  -- The texts in a gallery.
  abbrev pub texts_in : List Node → List Text
  texts_in [] = []
  texts_in (chrono t ∷ nodes) = t ∷ texts_in nodes
  texts_in (anchor h ts ∷ nodes) = texts_in nodes
  texts_in (caption h ∷ nodes) = texts_in nodes

  texts_in-append : (xs ys : List Node) → texts_in (xs ++ ys) ≡ texts_in xs ++ texts_in ys
  texts_in-append [] ys = refl
  texts_in-append (chrono t ∷ xs) ys = rw (texts_in-append xs ys)
  texts_in-append (anchor h ts ∷ xs) ys = texts_in-append xs ys
  texts_in-append (caption h ∷ xs) ys = texts_in-append xs ys

  texts_in-map_chrono : (texts : List Text) → texts_in (map chrono texts) ≡ texts
  texts_in-map_chrono [] = refl
  texts_in-map_chrono (t ∷ texts) = rw (texts_in-map_chrono texts)

  early_later-perm : (ts : ℤ) (texts : List Text) → Perm (early ts texts ++ later ts texts) texts
  early_later-perm ts [] = Perm.refl []
  early_later-perm ts (t ∷ texts) = elim (Bool-cases (is_later parse newest_first ts t)) [
    | inl e ↦ rw e (
        Perm.trans (perm_middle (early ts texts) (later ts texts))
          (Perm.cons t (early_later-perm ts texts)))
    | inr e ↦ rw e (Perm.cons t (early_later-perm ts texts))
  ]

  laid_out-perm :
      (texts : List Text) (imgs : List Image) → Perm (texts_in (laid_out texts imgs)) texts
  laid_out-perm texts [] = rw texts_in-map_chrono (Perm.refl texts)
  laid_out-perm texts (img ∷ imgs) = elim (Bool-cases (skipped img)) [
    | inl e ↦ rw e (laid_out-perm texts imgs)
    | inr e ↦ rw e (
        simp (texts_in-append, texts_in-map_chrono, append-nil)
          (Perm.trans
            (Perm.append_left (early img.utime texts) (laid_out-perm (later img.utime texts) imgs))
            (early_later-perm img.utime texts)))
  ]

  -- Without server rendering every text of the album stands in the gallery exactly as often as in
  -- the album.
  texts_in-gallery_of-perm :
      (in_page : String → Bool) (texts : List Text) (imgs : List Image)
      → Perm (texts_in (gallery_of parse newest_first in_page false (some texts) imgs)) texts
  texts_in-gallery_of-perm in_page texts imgs =
      rw (gallery_of-eq in_page texts imgs) (laid_out-perm texts imgs)
