-- ===== src/Viewer/Open/Shared.antt =====
-- An address that is shared: the page that it opens shows the same image at the same address.
use Prim.Native.Char.{Char}
use Prim.Native.String
use Prim.Native.String.{String}
use text.Mathlib.Text.{◌==◌ as str_eq}
use text.Mathlib.TextEquality.{eq_iff}
use text.Mathlib.TextLemmas.{append_assoc as string-append_assoc, nil-append, cons-append, cons≢nil}
use mathlib.Core.Path.{subst}
use photo_blog.Base.{
  ℕ, ◌≡◌, ◌≢◌, refl, ap, ◌∙◌, Bool, false, Option, none, some, List, [], ◌∷◌, suc, All, get_elem?,
  Option-cases, if◌then◌else◌, if_of_false, Bool-cases, inl, inr,
}
use mathlib.Core.Option.{some-injective}
use photo_blog.Base.Int.{ℤ}
use photo_blog.Album.Gallery as Gallery
use photo_blog.Album.Gallery.{Image, Text, rendered}
use photo_blog.Album.Gallery.Index.{idx_of, hash_at, IsIndexed, slide_hashes, rendered-IsIndexed}
use photo_blog.Viewer.Address as Address
use photo_blog.Viewer.Address.{address, change, hash_of}
use photo_blog.Viewer.Address.Follows.{sync-some}
use photo_blog.Viewer.Open.Pattern.{Clear, photo_path, match_photo-append}
use photo_blog.Viewer.Open.{hash_or, match_photo, img_hash, opened}

hash_of-some :
    (f : ℕ → Option String) (i : ℕ) (h : String)
    → f i ≡ some h
    → str_eq h "" ≡ false
    → hash_of f (some i) ≡ some h
hash_of-some f i h e n =
    ap
      (λ (o : Option String).
        let r : Option String = elim o [
          | none ↦ none
          | some k ↦ if str_eq k "" then none else some k
        ] in
        r)
      e
    ∙ if_of_false _ _ n

-- An image's address is the album's path and the photo's.
abbrev pub album_path : String → String
album_path album_name = String.◌++◌ "/" (String.◌++◌ album_name "/")

address-eq :
    (album_name hash : String)
    → address album_name hash ≡ String.◌++◌ (album_path album_name) (photo_path hash)
address-eq album_name hash =
    ap (λ t. String.◌++◌ "/" (String.◌++◌ album_name t))
      (string-append_assoc "/" "photo-" (String.◌++◌ hash ".html"))
    ∙ simp string-append_assoc

img_hash-address :
    (album_name hash fragment : String)
    → Clear (album_path album_name) (photo_path hash)
    → str_eq hash "" ≡ false
    → img_hash (address album_name hash) fragment ≡ hash
unfolding img_hash
img_hash-address album_name hash fragment h n = ap (hash_or fragment) (
    ap match_photo (address-eq album_name hash)
    ∙ match_photo-append (album_path album_name) hash h n)

All-get {κ} :
    (P : String → Type κ) (xs : List String) (k : ℕ) (x : String)
    → All P xs
    → get_elem? xs k ≡ some x
    → P x
All-get P [] k x h e = cc
All-get P (y ∷ xs) ℕ.zero x h e = subst P (some-injective y x e) h.0
All-get P (y ∷ xs) (suc k) x h e = All-get P xs k x h.1 e

-- The index of a slide's hash, and the slide there.
idx_of-slide :
    (s : Gallery.State) (hs : List String) (k : ℕ) (h : String)
    → IsIndexed s hs
    → get_elem? hs k ≡ some h
    → (i : ℕ) × (idx_of h s.idx_by_hash ≡ some i) × (hash_at i s.hash_by_idx ≡ some h)
idx_of-slide s hs k h w e = elim (Option-cases (idx_of h s.idx_by_hash)) [
  | inl absent ↦ absurd (All-get (λ j. j ≢ h) hs k h (w.absent h absent) e refl)
  | inr (i, there) ↦ (i, there, w.at i ∙ w.of h i there)
]

-- The page of an album is opened at the address of one of its slides, an image that is indexed and
-- no panorama, where no "photo-" begins in the path before that of the file: then the viewer opens
-- a slide with this image's hash, and while the page is not in full screen the address is the one
-- that was opened once the viewer has changed to this slide.
pub opened-address :
    (parse : String → Option ℤ) (newest_first : Bool) (in_page : String → Bool)
    (pre_rendered : Bool) (texts : Option (List Text)) (imgs : List Image) (supported : Bool)
    (album_name base_url fragment hash : String) (k : ℕ) (s : Address.State)
    → get_elem? (slide_hashes imgs) k ≡ some hash
    → str_eq hash "" ≡ false
    → Clear (album_path album_name) (photo_path hash)
    → s.fullscreen_enabled ≡ false
    → (i : ℕ) × (opened
          (rendered parse newest_first in_page pre_rendered texts imgs).idx_by_hash
          (address album_name hash)
          fragment
        ≡ some i)
      × (hash_at i (rendered parse newest_first in_page pre_rendered texts imgs).hash_by_idx
          ≡ some hash)
      × ((Address.step
            (λ j.
              hash_at j (rendered parse newest_first in_page pre_rendered texts imgs).hash_by_idx)
            supported
            album_name
            base_url
            s
            (change i)).path
          ≡ address album_name hash)
unfolding opened Address.step
opened-address parse newest_first in_page pre_rendered texts imgs supported album_name base_url
      fragment hash k s e n clear windowed =
    let g = rendered parse newest_first in_page pre_rendered texts imgs in
    let (i, there, shown) =
      idx_of-slide g (slide_hashes imgs) k hash
        (rendered-IsIndexed parse newest_first in_page pre_rendered texts imgs).0 e in
    (
      i,
      rw (img_hash-address album_name hash fragment clear n, n) there,
      shown,
      ap (λ (t : Address.State). t.path)
          (if_of_false _ _ windowed
            ∙ sync-some (λ j. hash_at j g.hash_by_idx) supported album_name base_url hash
                (record s { index = some i })
                (hash_of-some (λ j. hash_at j g.hash_by_idx) i hash shown n)),
    )

nonempty_cons : (c : Char) (s : String) → str_eq (String.◌∷◌ c s) "" ≡ false
nonempty_cons c s = elim (Bool-cases (str_eq (String.◌∷◌ c s) "")) [
  | inl e ↦ absurd (cons≢nil ((eq_iff (String.◌∷◌ c s) "").0 e))
  | inr e ↦ e
]

nonempty_left : (s t : String) → str_eq s "" ≡ false → str_eq (String.◌++◌ s t) "" ≡ false
nonempty_left String.[] t h = cc
nonempty_left (String.◌∷◌ c s) t h =
    ap (λ u. str_eq u "") (cons-append c s t) ∙ nonempty_cons c (String.◌++◌ s t)

nonempty_right : (s t : String) → str_eq t "" ≡ false → str_eq (String.◌++◌ s t) "" ≡ false
nonempty_right String.[] t h = ap (λ u. str_eq u "") (nil-append t) ∙ h
nonempty_right (String.◌∷◌ c s) t h =
    ap (λ u. str_eq u "") (cons-append c s t) ∙ nonempty_cons c (String.◌++◌ s t)

-- What is read as the hash where the album's name goes on with `last` after a "photo-".
abbrev pub inner_name : (last hash : String) → String
inner_name last hash = String.◌++◌ last (String.◌++◌ "/photo-" hash)

-- The name of an album may have "photo-" in it. Then the text behind its first "photo-" is taken
-- for the hash, up to the end of the file's name, for every image of the album: unless this text
-- itself is the hash of a slide, the viewer is not opened, although the address is the one that the
-- viewer gives to the image.
pub opened-inner :
    (parse : String → Option ℤ) (newest_first : Bool) (in_page : String → Bool)
    (pre_rendered : Bool) (texts : Option (List Text)) (imgs : List Image)
    (first last hash fragment : String)
    → Clear (String.◌++◌ "/" first) (photo_path (inner_name last hash))
    → All (λ h. h ≢ inner_name last hash) (slide_hashes imgs)
    → (img_hash (address (String.◌++◌ first (String.◌++◌ "photo-" last)) hash) fragment
        ≡ inner_name last hash)
      × (opened
            (rendered parse newest_first in_page pre_rendered texts imgs).idx_by_hash
            (address (String.◌++◌ first (String.◌++◌ "photo-" last)) hash)
            fragment
          ≡ none)
unfolding opened img_hash
opened-inner parse newest_first in_page pre_rendered texts imgs first last hash fragment clear
      other =
    let name = inner_name last hash in
    let full : str_eq name "" ≡ false =
      nonempty_right last (String.◌++◌ "/photo-" hash) (nonempty_left "/photo-" hash refl) in
    let read : img_hash (address (String.◌++◌ first (String.◌++◌ "photo-" last)) hash) fragment
        ≡ name =
      ap (λ p. hash_or fragment (match_photo p)) (inner-eq first last hash)
      ∙ ap (hash_or fragment) (match_photo-append (String.◌++◌ "/" first) name clear full) in
    let g = rendered parse newest_first in_page pre_rendered texts imgs in
    let w = (rendered-IsIndexed parse newest_first in_page pre_rendered texts imgs).0 in
    (
      read,
      ap (λ n. if str_eq n "" then none else idx_of n g.idx_by_hash) read
          ∙ if_of_false _ _ full
          ∙ no_slide g w,
    )
  where
    inner-eq :
        (first last hash : String)
        → address (String.◌++◌ first (String.◌++◌ "photo-" last)) hash
          ≡ String.◌++◌ (String.◌++◌ "/" first) (photo_path (inner_name last hash))
    inner-eq first last hash = simp string-append_assoc

    no_slide :
        (g : Gallery.State)
        → IsIndexed g (slide_hashes imgs)
        → idx_of (inner_name last hash) g.idx_by_hash ≡ none
    no_slide g w = elim (Option-cases (idx_of (inner_name last hash) g.idx_by_hash)) [
      | inl absent ↦ absent
      | inr (i, there) ↦ absurd (
          All-get (λ h. h ≢ inner_name last hash) (slide_hashes imgs) i (inner_name last hash) other
            (w.of (inner_name last hash) i there) refl)
    ]
