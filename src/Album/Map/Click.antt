-- ===== src/Album/Map/Click.antt =====
-- A click on the picture in a marker's popup.
use Prim.Native.String.{String}
use text.Mathlib.Text.{◌==◌ as str_eq}
use text.Mathlib.TextEquality.{eq_iff}
use text.Mathlib.TextLemmas.{append_assoc as string-append_assoc}
use photo_blog.Base.{
  ℕ, ◌≡◌, ◌≢◌, refl, sym, ap, ◌∙◌, Bool, false, Option, none, some, List, [], ◌∷◌, ◌++◌, All,
  if_of_true, if_of_false, Option-cases, inl, inr, ◌⊎◌,
}
use photo_blog.Base.Int.{ℤ}
use photo_blog.Results.{◌+s◌}
use photo_blog.Viewer.Open.{after_prefix}
use photo_blog.Viewer.Open.Pattern.{after_prefix-append}
use photo_blog.Album.Params.{escape}
use photo_blog.Album.Params.Literal.{
  Safe, Safe-escape, Safe-append, read_attribute, read_attribute-Safe, read_literal,
  read_literal-escape,
}
use photo_blog.Album.Gallery.{Image, Text, rendered}
use photo_blog.Album.Gallery.Index.{idx_of, hash_at, slide_hashes, rendered-IsIndexed}
use photo_blog.Album.Map.{
  Opener, Registry, register, open_by_hash_in_gallery, on_click, popup_picture, popup_link,
}

abbrev then_literal : (Option String) → Option (String × String)
then_literal none = none
then_literal (some s) = read_literal false s

abbrev pair_with : String → Option (String × String) → Option (String × String)
pair_with a none = none
pair_with a (some (b, rest)) = some (a, b)

abbrev second_argument : Option (String × String) → Option (String × String)
second_argument none = none
second_argument (some (a, rest)) = pair_with a (then_literal (after_prefix ", '" rest))

-- The two arguments of the call, as JavaScript reads them.
abbrev pub arguments : (script : String) → Option (String × String)
arguments script = second_argument (then_literal (after_prefix "openByHashInGallery('" script))

abbrev call_with : Registry → Option (String × String) → Option (Option ℕ)
call_with registry none = none
call_with registry (some (gallery_key, hash)) = open_by_hash_in_gallery registry gallery_key hash

-- The script of a link, as the browser reads it from the link's markup.
abbrev pub then_attribute : Option String → Option String
then_attribute none = none
then_attribute (some s) = read_attribute s

abbrev pub script_of : (link : String) → Option String
script_of link = then_attribute (after_prefix "<a href=\"#\" onclick=\"" link)

abbrev pub then_arguments : Option String → Option (String × String)
then_arguments none = none
then_arguments (some script) = arguments script

-- What a click on a link does: the index that a viewer is opened at, if one is.
abbrev pub clicked : Registry → (link : String) → Option (Option ℕ)
clicked registry link = call_with registry (then_arguments (script_of link))

arguments-on_click :
    (gallery hash : String)
    → Safe gallery
    → Safe hash
    → escape hash ≡ hash
    → arguments (on_click (escape gallery) hash) ≡ some (gallery, hash)
arguments-on_click gallery hash g h plain =
    ap (λ o. second_argument (then_literal o))
      (after_prefix-append "openByHashInGallery('"
        (escape gallery +s "', '" +s hash +s "');return false"))
    ∙ ap (λ t. second_argument (read_literal false (escape gallery +s t)))
        (string-append_assoc "'" ", '" (hash +s "');return false"))
    ∙ ap second_argument (read_literal-escape gallery (", '" +s hash +s "');return false") g)
    ∙ ap (λ o. pair_with gallery (then_literal o))
        (after_prefix-append ", '" (hash +s "');return false"))
    ∙ ap (λ t. pair_with gallery (read_literal false (t +s "');return false"))) (sym plain)
    ∙ ap (pair_with gallery) (read_literal-escape hash ");return false" h)

Safe-on_click : (key hash : String) → Safe key → Safe hash → Safe (on_click key hash)
Safe-on_click key hash k h =
    Safe-append "openByHashInGallery('" (key +s "', '" +s hash +s "');return false") (search) (
      Safe-append key ("', '" +s hash +s "');return false") k (
        Safe-append "', '" (hash +s "');return false") (search)
          (Safe-append hash "');return false" h (search))))

-- The browser reads the script of a popup's link as it was written.
script_of-popup_link :
    (decimal : ℕ → String) (thumb_base key hash : String) (width height : ℕ)
    → Safe key
    → Safe hash
    → script_of (popup_link decimal thumb_base key hash width height) ≡ some (on_click key hash)
script_of-popup_link decimal thumb_base key hash width height k h =
    let picture = popup_picture decimal thumb_base hash width height in
    ap then_attribute
      (after_prefix-append "<a href=\"#\" onclick=\"" (on_click key hash +s "\"" +s picture))
    ∙ read_attribute-Safe (on_click key hash) picture (Safe-on_click key hash k h)

open_by_hash-register :
    (later : Registry) (gallery hash : String) (opener : Opener) (registry : Registry)
    → All (λ e. str_eq e.0 gallery ≡ false) later
    → open_by_hash_in_gallery (later ++ register gallery opener registry) gallery hash
      ≡ some (opener hash)
open_by_hash-register [] gallery hash opener registry h =
    if_of_true _ _ ((eq_iff gallery gallery).1 refl)
open_by_hash-register ((key, other) ∷ later) gallery hash opener registry (n, h) =
    if_of_false _ _ n ∙ open_by_hash-register later gallery hash opener registry h

-- The picture in the popup of a marker is clicked, where neither the gallery's name nor the hash of
-- the marker's image has double quotes, ampersands, line breaks or characters 0, and the hash no
-- single quotes or backslashes either; the name may hold any of these. The gallery is registered by
-- its indices, and other galleries may be, before and after it, under other names. Then either the viewer of this gallery is opened at the index of a slide
-- with the image's hash, or no slide has this hash, as with a panorama, and a viewer is
-- opened all the same, at an undefined index.
pub clicked-on_click :
    (parse : String → Option ℤ) (newest_first : Bool) (in_page : String → Bool)
    (pre_rendered : Bool) (texts : Option (List Text)) (imgs : List Image)
    (later registry : Registry) (gallery hash : String) (decimal : ℕ → String) (thumb_base : String)
    (width height : ℕ)
    → All (λ e. str_eq e.0 gallery ≡ false) later
    → Safe gallery
    → Safe hash
    → escape hash ≡ hash
    → ((i : ℕ) × (clicked
            (later
              ++ register gallery
                  (λ h.
                    idx_of h
                      (rendered parse newest_first in_page pre_rendered texts imgs).idx_by_hash)
                  registry)
            (popup_link decimal thumb_base (escape gallery) hash width height)
          ≡ some (some i))
        × (hash_at i (rendered parse newest_first in_page pre_rendered texts imgs).hash_by_idx
            ≡ some hash))
      ⊎ ((clicked
              (later
                ++ register gallery
                    (λ h.
                      idx_of h
                        (rendered parse newest_first in_page pre_rendered texts imgs).idx_by_hash)
                    registry)
              (popup_link decimal thumb_base (escape gallery) hash width height)
            ≡ some none)
          × All (λ j. j ≢ hash) (slide_hashes imgs))
clicked-on_click parse newest_first in_page pre_rendered texts imgs later registry gallery hash
      decimal thumb_base width height others safe safe_hash plain =
    let g = rendered parse newest_first in_page pre_rendered texts imgs in
    let indexed = (rendered-IsIndexed parse newest_first in_page pre_rendered texts imgs).0 in
    let opener : Opener = λ h. idx_of h g.idx_by_hash in
    let called : clicked (later ++ register gallery opener registry)
          (popup_link decimal thumb_base (escape gallery) hash width height)
        ≡ some (opener hash) =
      ap (λ o. call_with (later ++ register gallery opener registry) (then_arguments o))
        (script_of-popup_link decimal thumb_base (escape gallery) hash width height
          (Safe-escape gallery safe) safe_hash)
      ∙ ap (call_with (later ++ register gallery opener registry))
          (arguments-on_click gallery hash safe safe_hash plain)
      ∙ open_by_hash-register later gallery hash opener registry others in
    elim (Option-cases (idx_of hash g.idx_by_hash)) [
      | inl absent ↦ inr (called ∙ ap some absent, indexed.absent hash absent)
      | inr (i, there) ↦ inl (i, called ∙ ap some there, indexed.at i ∙ indexed.of hash i there)
    ]
