-- ===== src/Album/Gallery/Order.antt =====
-- The chronological order of the gallery.
use Prim.Native.String.{String}
use text.Mathlib.Text.{◌==◌ as str_eq}
use photo_blog.Base.{
  ◌||◌, ◌≡◌, refl, sym, ap, ◌∙◌, Bool, true, false, map, Option, none, some, List, [], ◌∷◌, ◌++◌,
  arith, inl, inr, All, All-append, All-of_append, All-map, select, if◌then◌else◌, Bool-cases,
  append_assoc,
}
use photo_blog.Base.Int.{ℤ, ◌≤ℤ◌}
use photo_blog.Album.Gallery.{
  Image, Text, Node, anchor, caption, chrono, milliseconds, is_later, gallery_of,
}
use photo_blog.Album.Gallery.Layout.{early, later, skipped, laid_out, gallery_of-eq}

module _ (newest_first : Bool) where
  -- `a` may stand before `b`.
  abbrev pub Precedes : ℤ → ℤ → Type 0
  Precedes a b = if newest_first then b ≤ℤ a else a ≤ℤ b

  abbrev pub IsChronological : List ℤ → Type 0
  IsChronological [] = Unit
  IsChronological (a ∷ rest) = All (Precedes a) rest × IsChronological rest

  Precedes-trans : (a b c : ℤ) → Precedes a b → Precedes b c → Precedes a c
  Precedes-trans a b c h k = elim (Bool-cases newest_first) [
    | inl e ↦ rw e (let h' : b ≤ℤ a = rw e at h in let k' : c ≤ℤ b = rw e at k in omega arith)
    | inr e ↦ rw e (let h' : a ≤ℤ b = rw e at h in let k' : b ≤ℤ c = rw e at k in omega arith)
  ]

  IsChronological-append :
      (xs ys : List ℤ)
      → IsChronological xs
      → IsChronological ys
      → All (λ x. All (Precedes x) ys) xs
      → IsChronological (xs ++ ys)
  IsChronological-append [] ys h k c = k
  IsChronological-append (x ∷ xs) ys h k c =
      (All-append (Precedes x) xs ys h.0 c.0, IsChronological-append xs ys h.1 k c.1)

  IsChronological-of_append :
      (xs ys : List ℤ)
      → IsChronological (xs ++ ys)
      → IsChronological xs × IsChronological ys × All (λ x. All (Precedes x) ys) xs
  IsChronological-of_append [] ys h = (tt, h, tt)
  IsChronological-of_append (x ∷ xs) ys h =
      let (a, b) = All-of_append (Precedes x) xs ys h.0 in
      let (c, d, e) = IsChronological-of_append xs ys h.1 in ((a, c), d, (b, e))

abbrev pub image_times : List Image → List ℤ
image_times [] = []
image_times (img ∷ imgs) =
    (if str_eq img.blur_hash "" || img.is_360_pano then [] else milliseconds img.utime ∷ [])
    ++ image_times imgs

module _ (parse : String → Option ℤ) where
  -- The time of a text in milliseconds, if it can be parsed.
  unfoldable pub time_of : Text → List ℤ
  time_of t = elim (parse t.time) [ none ↦ [] | some z ↦ z ∷ [] ]

  abbrev pub text_times : List Text → List ℤ
  text_times [] = []
  text_times (t ∷ texts) = time_of t ++ text_times texts

  -- The times in a gallery, from top to bottom.
  abbrev pub node_times : List Node → List ℤ
  node_times [] = []
  node_times (chrono t ∷ nodes) = time_of t ++ node_times nodes
  node_times (anchor h ts ∷ nodes) = milliseconds ts ∷ node_times nodes
  node_times (caption h ∷ nodes) = node_times nodes

  node_times-append : (xs ys : List Node) → node_times (xs ++ ys) ≡ node_times xs ++ node_times ys
  node_times-append [] ys = refl
  node_times-append (chrono t ∷ xs) ys =
      ap (λ q. time_of t ++ q) (node_times-append xs ys) ∙ sym (append_assoc (time_of t) _ _)
  node_times-append (anchor h ts ∷ xs) ys = rw (node_times-append xs ys)
  node_times-append (caption h ∷ xs) ys = node_times-append xs ys

  node_times-map_chrono : (texts : List Text) → node_times (map chrono texts) ≡ text_times texts
  node_times-map_chrono [] = refl
  node_times-map_chrono (t ∷ texts) = ap (λ q. time_of t ++ q) (node_times-map_chrono texts)

  -- What holds of all times of texts holds of those of a selection.
  All-select :
      (P : ℤ → Type 0) (p : Text → Bool) (texts : List Text)
      → All P (text_times texts)
      → All P (text_times (select p texts))
  All-select P p [] h = tt
  All-select P p (t ∷ texts) h =
      let (a, b) = All-of_append P (time_of t) (text_times texts) h in
      elim (Bool-cases (p t)) [
        | inl q ↦ rw q (All-append P (time_of t) _ a (All-select P p texts b))
        | inr q ↦ rw q (All-select P p texts b)
      ]

  module _ (newest_first : Bool) where
    IsChronological-select :
        (p : Text → Bool) (texts : List Text)
        → IsChronological newest_first (text_times texts)
        → IsChronological newest_first (text_times (select p texts))
    IsChronological-select p [] h = tt
    IsChronological-select p (t ∷ texts) h =
        let (a, b, c) = IsChronological-of_append newest_first (time_of t) (text_times texts) h in
        elim (Bool-cases (p t)) [
          | inl q ↦ rw q (
              IsChronological-append newest_first (time_of t) _ a (IsChronological-select p texts b)
                (All-map (λ x d. All-select (Precedes newest_first x) p texts d) (time_of t) c))
          | inr q ↦ rw q (IsChronological-select p texts b)
        ]

    time_of-early :
        (ts : ℤ) (t : Text)
        → is_later parse newest_first ts t ≡ false
        → All (λ z. Precedes newest_first z (milliseconds ts)) (time_of t)
    unfolding is_later time_of
    time_of-early ts t h = ground arith

    time_of-later :
        (ts : ℤ) (t : Text)
        → is_later parse newest_first ts t ≡ true
        → All (Precedes newest_first (milliseconds ts)) (time_of t)
    unfolding is_later time_of
    time_of-later ts t h = ground arith

    early-Precedes :
        (ts : ℤ) (texts : List Text)
        → All
            (λ z. Precedes newest_first z (milliseconds ts))
            (text_times (early parse newest_first ts texts))
    early-Precedes ts [] = tt
    early-Precedes ts (t ∷ texts) = elim (Bool-cases (is_later parse newest_first ts t)) [
      | inl q ↦ rw q (early-Precedes ts texts)
      | inr q ↦ rw q (All-append _ (time_of t) _ (time_of-early ts t q) (early-Precedes ts texts))
    ]

    Precedes-later :
        (ts : ℤ) (texts : List Text)
        → All
            (Precedes newest_first (milliseconds ts))
            (text_times (later parse newest_first ts texts))
    Precedes-later ts [] = tt
    Precedes-later ts (t ∷ texts) = elim (Bool-cases (is_later parse newest_first ts t)) [
      | inl q ↦ rw q (All-append _ (time_of t) _ (time_of-later ts t q) (Precedes-later ts texts))
      | inr q ↦ rw q (Precedes-later ts texts)
    ]

    -- The times of one image's nodes, with the texts in front of it.
    node_times-cons :
        (texts : List Text) (img : Image) (rest : List Node)
        → node_times
            ((map chrono texts ++ (anchor img.hash img.utime ∷ caption img.hash ∷ [])) ++ rest)
          ≡ text_times texts ++ (milliseconds img.utime ∷ node_times rest)
    node_times-cons texts img rest = simp (node_times-append, node_times-map_chrono, append_assoc)

    All-laid_out :
        (P : ℤ → Type 0) (texts : List Text) (imgs : List Image)
        → All P (text_times texts)
        → All P (image_times imgs)
        → All P (node_times (laid_out parse newest_first texts imgs))
    All-laid_out P texts [] h k = rw node_times-map_chrono h
    All-laid_out P texts (img ∷ imgs) h k = elim (Bool-cases (skipped parse newest_first img)) [
      | inl q ↦ rw q (All-laid_out P texts imgs h (rw q at k))
      | inr q ↦
          rw (q, node_times-cons)
            (let k' : P (milliseconds img.utime) × All P (image_times imgs) = rw q at k in
              All-append P _ _ (All-select P _ texts h) (
                k'.0,
                All-laid_out P (later parse newest_first img.utime texts) imgs
                    (All-select P _ texts h) k'.1,
              ))
    ]

    IsChronological-laid_out :
        (texts : List Text) (imgs : List Image)
        → IsChronological newest_first (text_times texts)
        → IsChronological newest_first (image_times imgs)
        → IsChronological newest_first (node_times (laid_out parse newest_first texts imgs))
    IsChronological-laid_out texts [] h k = rw node_times-map_chrono h
    IsChronological-laid_out texts (img ∷ imgs) h k =
        elim (Bool-cases (skipped parse newest_first img)) [
          | inl q ↦ rw q (IsChronological-laid_out texts imgs h (rw q at k))
          | inr q ↦
              rw (q, node_times-cons)
                (let m = milliseconds img.utime in
                  let k' : All (Precedes newest_first m) (image_times imgs)
                      × IsChronological newest_first (image_times imgs) =
                    rw q at k in
                  let after : All (Precedes newest_first m) (
                      node_times (
                        laid_out parse newest_first (later parse newest_first img.utime texts)
                          imgs)) =
                    All-laid_out (Precedes newest_first m)
                      (later parse newest_first img.utime texts) imgs
                      (Precedes-later img.utime texts) k'.0 in
                  IsChronological-append newest_first _ _ (IsChronological-select _ texts h)
                    (
                      after,
                      IsChronological-laid_out (later parse newest_first img.utime texts) imgs
                          (IsChronological-select _ texts h) k'.1,
                    )
                    (All-map
                      (λ x d. (d, All-map (λ y e. Precedes-trans newest_first x m y d e) _ after)) _
                      (early-Precedes img.utime texts)))
        ]

    -- If the texts that can be parsed are in chronological order, and so are the images, in the
    -- direction that the album asks for, then the gallery without server rendering is in this
    -- order from top to bottom, texts and images together.
    pub IsChronological-gallery_of :
        (in_page : String → Bool) (texts : List Text) (imgs : List Image)
        → IsChronological newest_first (text_times texts)
        → IsChronological newest_first (image_times imgs)
        → IsChronological newest_first
            (node_times (gallery_of parse newest_first in_page false (some texts) imgs))
    IsChronological-gallery_of in_page texts imgs h k =
        rw (gallery_of-eq parse newest_first in_page texts imgs)
          (IsChronological-laid_out texts imgs h k)
