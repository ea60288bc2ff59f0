-- ===== src/Album/Gallery/Index.antt =====
-- The indices by which the gallery's viewer opens an image.
use Prim.Native.String.{String}
use text.Mathlib.Text.{◌==◌ as str_eq}
use text.Mathlib.TextEquality.{eq_iff}
use mathlib.Core.Path.{subst}
use photo_blog.Base.{
  ℕ, zero, suc, ◌+◌, ◌<◌, ◌≡◌, ◌≢◌, refl, sym, ap, ◌∙◌, Bool, false, ◌&&◌, ◌||◌, append-nil,
  append_assoc, map, inl, inr, Option, none, some, List, [], ◌∷◌, ◌++◌, arith, ◌==◌, length,
  get_elem?, All, All-append, length-append, if◌then◌else◌, Bool-cases,
}
use photo_blog.Base.Int.{ℤ}
use photo_blog.Album.Gallery.{
  texts_of, Image, Text, Node, anchor, caption, chrono, State, is_later, put_from, texts_put,
  gallery_of, put_texts, put_image, put_pano, render_image, render_images, rendered, start,
}

-- `hashByIdx[i]` and `idxByHash[hash]`.
pub hash_at : ℕ → List (ℕ × String) → Option String
hash_at i [] = none
hash_at i ((j, h) ∷ rest) = if j == i then some h else hash_at i rest

pub idx_of : String → List (String × ℕ) → Option ℕ
idx_of h [] = none
idx_of h ((k, i) ∷ rest) = if str_eq k h then some i else idx_of h rest

-- The hashes of the links in a gallery: the viewer's slides, in order.
abbrev pub slides : List Node → List String
slides [] = []
slides (anchor h ts ∷ nodes) = h ∷ slides nodes
slides (caption h ∷ nodes) = slides nodes
slides (chrono t ∷ nodes) = slides nodes

slides-append : (xs ys : List Node) → slides (xs ++ ys) ≡ slides xs ++ slides ys
slides-append [] ys = refl
slides-append (anchor h ts ∷ xs) ys = rw (slides-append xs ys)
slides-append (caption h ∷ xs) ys = slides-append xs ys
slides-append (chrono t ∷ xs) ys = slides-append xs ys

get_elem?-concat :
    (xs : List String) (x : String) (i : ℕ)
    → get_elem? (xs ++ x ∷ []) i ≡ (if length xs == i then some x else get_elem? xs i)
get_elem?-concat [] x zero = refl
get_elem?-concat [] x (suc i) = ground arith
get_elem?-concat (y ∷ xs) x zero = ground arith
get_elem?-concat (y ∷ xs) x (suc i) = ground (arith, get_elem?-concat xs x i)

get_elem?-lt : (xs : List String) (i : ℕ) (x : String) → get_elem? xs i ≡ some x → i < length xs
get_elem?-lt [] i x e = cc
get_elem?-lt (y ∷ xs) zero x e = omega arith
get_elem?-lt (y ∷ xs) (suc i) x e = omega (arith, get_elem?-lt xs i x e)

-- The two objects agree with the slides `hs`: index `i` is that of slide `i`, the index of a hash
-- is that of a slide with this hash, and a hash with no index is that of no slide.
pub record IsIndexed (s : State) (hs : List String) : Type 0 where
  pub counted : s.idx ≡ length hs
  pub at : (i : ℕ) → hash_at i s.hash_by_idx ≡ get_elem? hs i
  pub of : (h : String) (i : ℕ) → idx_of h s.idx_by_hash ≡ some i → get_elem? hs i ≡ some h
  pub absent : (h : String) → idx_of h s.idx_by_hash ≡ none → All (λ k. k ≢ h) hs

IsIndexed-start : (texts : Option (List Text)) → IsIndexed (start texts) []
unfolding hash_at idx_of
IsIndexed-start texts = record {
  counted = refl;
  at = λ i. refl;
  of = λ h i e. cc;
  absent = λ h e. tt;
}

-- Another slide takes the next index.
IsIndexed-cons :
    (s : State) (hs : List String) (h : String)
    → IsIndexed s hs
    → IsIndexed
        (record s {
          idx = s.idx + 1;
          hash_by_idx = (s.idx, h) ∷ s.hash_by_idx;
          idx_by_hash = (h, s.idx) ∷ s.idx_by_hash;
        })
        (hs ++ h ∷ [])
unfolding hash_at idx_of
IsIndexed-cons s hs h v = record {
  counted = omega (arith, v.counted, length-append {0} hs (h ∷ []));
  at = λ i. ground (arith, v.counted, v.at i, get_elem?-concat hs h i);
  of = λ k i e.
      ground (arith, v.counted, v.of k i, get_elem?-concat hs h i, eq_iff h k, get_elem?-lt hs i k);
  absent = λ k e.
      All-append (λ j. j ≢ k) hs (h ∷ []) (v.absent k (ground (arith, eq_iff h k)))
        (λ same. ground (arith, eq_iff h k), tt);
}

-- The images that are slides.
abbrev pub slide_of : Image → List String
slide_of img = if str_eq img.blur_hash "" || img.is_360_pano then [] else img.hash ∷ []

abbrev pub slide_hashes : List Image → List String
slide_hashes [] = []
slide_hashes (img ∷ imgs) = slide_of img ++ slide_hashes imgs

module _ (parse : String → Option ℤ) (newest_first : Bool) where
  slides-put_from :
      (ts : ℤ) (texts : List Text) (gallery : List Node) (kept : List Text)
      → slides (put_from parse newest_first ts texts gallery kept).0 ≡ slides gallery
  unfolding put_from
  slides-put_from ts [] gallery kept = refl
  slides-put_from ts (t ∷ texts) gallery kept =
      slides-put_from ts texts _ _ ∙ (elim (Bool-cases (is_later parse newest_first ts t)) [
        | inl e ↦ rw e
        | inr e ↦ rw e (slides-append gallery (chrono t ∷ []) ∙ append-nil (slides gallery))
      ])

  module _ (in_page : String → Bool) (pre_rendered : Bool) where
    IsIndexed-put_image :
        (s : State) (img : Image) (hs : List String)
        → IsIndexed s hs
        → IsIndexed (put_image parse newest_first in_page pre_rendered s img) (hs ++ img.hash ∷ [])
    unfolding put_image
    IsIndexed-put_image s img hs v =
        let w = IsIndexed-cons s hs img.hash v in
        elim (Bool-cases (pre_rendered && in_page img.hash)) [
          | inl e ↦ rw e (record { counted = w.counted; at = w.at; of = w.of; absent = w.absent })
          | inr e ↦ rw e (record { counted = w.counted; at = w.at; of = w.of; absent = w.absent })
        ]

    IsIndexed-put_pano :
        (s : State) (img : Image) (hs : List String)
        → IsIndexed s hs
        → IsIndexed (put_pano parse newest_first in_page pre_rendered s img) hs
    unfolding put_pano
    IsIndexed-put_pano s img hs v = elim (Bool-cases (pre_rendered && in_page img.hash)) [
      | inl e ↦ rw e v
      | inr e ↦ rw e (record { counted = v.counted; at = v.at; of = v.of; absent = v.absent })
    ]

    IsIndexed-render_image :
        (s : State) (img : Image) (hs : List String)
        → IsIndexed s hs
        → IsIndexed
            (render_image parse newest_first in_page pre_rendered s img)
            (hs ++ slide_of img)
    unfolding render_image
    IsIndexed-render_image s img hs v = elim (Bool-cases (str_eq img.blur_hash "")) [
      | inl e ↦ simp (e, append-nil) v
      | inr e ↦ elim (Bool-cases img.is_360_pano) [
        | inl pano ↦ simp (e, pano, append-nil) (IsIndexed-put_pano s img hs v)
        | inr plain ↦ simp (e, plain) (IsIndexed-put_image s img hs v)
      ]
    ]

    IsIndexed-render_images :
        (s : State) (imgs : List Image) (hs : List String)
        → IsIndexed s hs
        → IsIndexed
            (render_images parse newest_first in_page pre_rendered s imgs)
            (hs ++ slide_hashes imgs)
    unfolding render_images
    IsIndexed-render_images s [] hs v = rw append-nil v
    IsIndexed-render_images s (img ∷ imgs) hs v =
        subst (IsIndexed _) (append_assoc hs (slide_of img) (slide_hashes imgs)) (
          IsIndexed-render_images (render_image parse newest_first in_page pre_rendered s img) imgs
            (hs ++ slide_of img) (IsIndexed-render_image s img hs v))

  slides-texts_put :
      (in_page : String → Bool) (ts : ℤ) (texts : Option (List Text)) (gallery : List Node)
      → slides (texts_put parse newest_first in_page false ts texts gallery).0 ≡ slides gallery
  unfolding texts_put
  slides-texts_put in_page ts none gallery = refl
  slides-texts_put in_page ts (some texts) gallery = slides-put_from ts texts gallery []

  slides-render_image :
      (in_page : String → Bool) (s : State) (img : Image)
      → slides (render_image parse newest_first in_page false s img).gallery
        ≡ slides s.gallery ++ slide_of img
  unfolding render_image put_image put_pano put_texts
  slides-render_image in_page s img = elim (Bool-cases (str_eq img.blur_hash "")) [
    | inl e ↦ simp (e, append-nil)
    | inr e ↦ elim (Bool-cases img.is_360_pano) [
      | inl pano ↦ simp (e, pano, append-nil)
      | inr plain ↦ simp (e, plain, slides-append, slides-texts_put)
    ]
  ]

  slides-render_images :
      (in_page : String → Bool) (s : State) (imgs : List Image)
      → slides (render_images parse newest_first in_page false s imgs).gallery
        ≡ slides s.gallery ++ slide_hashes imgs
  unfolding render_images
  slides-render_images in_page s [] = sym (append-nil _)
  slides-render_images in_page s (img ∷ imgs) =
      slides-render_images in_page (render_image parse newest_first in_page false s img) imgs
      ∙ ap (λ hs. hs ++ slide_hashes imgs) (slides-render_image in_page s img)
      ∙ append_assoc (slides s.gallery) (slide_of img) (slide_hashes imgs)

  slides-map_chrono : (texts : List Text) → slides (map chrono texts) ≡ []
  slides-map_chrono [] = refl
  slides-map_chrono (t ∷ texts) = slides-map_chrono texts

  -- The two objects of `renderAlbum` agree with the album's slides, the images that are indexed
  -- and no panoramas, in order; and without server rendering these are the links in the gallery,
  -- by which the viewer counts.
  pub rendered-IsIndexed :
      (in_page : String → Bool) (pre_rendered : Bool) (texts : Option (List Text))
      (imgs : List Image)
      → IsIndexed (rendered parse newest_first in_page pre_rendered texts imgs) (slide_hashes imgs)
        × (slides (gallery_of parse newest_first in_page false texts imgs) ≡ slide_hashes imgs)
  unfolding rendered gallery_of
  rendered-IsIndexed in_page pre_rendered texts imgs = (
    IsIndexed-render_images in_page pre_rendered (start texts) imgs [] (IsIndexed-start texts),
    slides-append (rendered parse newest_first in_page false texts imgs).gallery (
          map chrono (texts_of (rendered parse newest_first in_page false texts imgs).chrono_texts))
        ∙ rw (slides-map_chrono, append-nil) (slides-render_images in_page (start texts) imgs),
  )
