-- ===== src/Album/Link/Sources.antt =====
-- Which files a link gives: the thumbnails, and the original where it is not hidden.
use Prim.Native.String.{String}
use text.Mathlib.TextLemmas.{append_assoc as string-append_assoc}
use photo_blog.Base.{
  ℕ, ◌≡◌, refl, sym, ap, ap₂, ◌∙◌, Bool, true, false, not, ◌&&◌, Option, none, some, List, [], ◌∷◌,
  ◌++◌, if_of_true, if_of_false, if◌then◌else◌,
}
use photo_blog.Results.{◌+s◌}
use photo_blog.Album.Link.{Image, Link, has_size, source_set, link}

-- A source and its width, as the attribute `srcset` has them: with a blank between the two, and
-- commas between the sources.
abbrev pub printed : List (String × String) → String
printed [] = ""
printed ((url, width) ∷ []) = url +s " " +s width
printed ((url, width) ∷ (s ∷ ss)) = (url +s " " +s width) +s ", " +s printed (s ∷ ss)

glue : (s : String) → ".jpg" +s " " +s s ≡ ".jpg " +s s
glue s = sym (string-append_assoc ".jpg" " " s)

glue300 : (s : String) → ".jpg " +s "300w" +s s ≡ ".jpg 300w" +s s
glue300 s = sym (string-append_assoc ".jpg " "300w" s)

glue600 : (s : String) → ".jpg " +s "600w" +s s ≡ ".jpg 600w" +s s
glue600 s = sym (string-append_assoc ".jpg " "600w" s)

glue1200 : (s : String) → ".jpg " +s "1200w" +s s ≡ ".jpg 1200w" +s s
glue1200 s = sym (string-append_assoc ".jpg " "1200w" s)

glue2400 : (s : String) → ".jpg " +s "2400w" +s s ≡ ".jpg 2400w" +s s
glue2400 s = sym (string-append_assoc ".jpg " "2400w" s)

module _ (decimal : ℕ → String) (image_base thumb_base : String)
    (hide_original low_res : Bool) where
  abbrev pub thumb : Image → (folder size : String) → String × String
  thumb img folder size = (thumb_base +s folder +s img.hash +s ".jpg", size)

  -- The thumbnails up to 1200 pixels, the large one unless the visitor saves data, and the original
  -- if the image has a size, the album shows originals and the visitor does not save data.
  abbrev pub sources : Image → List (String × String)
  sources img =
      (thumb img "/300w/" "300w" ∷ thumb img "/600w/" "600w" ∷ thumb img "/1200w/" "1200w" ∷ [])
      ++ (if low_res then [] else thumb img "/2400w/" "2400w" ∷ [])
      ++ (if has_size decimal image_base thumb_base hide_original low_res img
            && (not hide_original && not low_res)
          then (image_base +s "/" +s img.hash +s ".jpg", decimal img.width +s "w") ∷ []
          else [])

  printed-sources :
      (low wanted : Bool) (img : Image)
      → (let small =
            thumb_base +s "/300w/" +s img.hash +s ".jpg 300w" +s ", " +s thumb_base +s "/600w/"
            +s img.hash +s ".jpg 600w" +s ", " +s thumb_base +s "/1200w/" +s img.hash
            +s ".jpg 1200w" in
          let thumbs =
            if low
            then small
            else small +s ", " +s thumb_base +s "/2400w/" +s img.hash +s ".jpg 2400w" in
          if wanted
          then thumbs
            +s ", "
            +s image_base
            +s "/"
            +s img.hash
            +s ".jpg "
            +s decimal img.width
            +s "w"
          else thumbs)
        ≡ printed (
            ((thumb_base +s "/300w/" +s img.hash +s ".jpg", "300w")
              ∷ (thumb_base +s "/600w/" +s img.hash +s ".jpg", "600w")
              ∷ (thumb_base +s "/1200w/" +s img.hash +s ".jpg", "1200w")
              ∷ [])
            ++ (if low then [] else (thumb_base +s "/2400w/" +s img.hash +s ".jpg", "2400w") ∷ [])
            ++ (if wanted
                then (image_base +s "/" +s img.hash +s ".jpg", decimal img.width +s "w") ∷ []
                else []))
  printed-sources true true img = simp (string-append_assoc, glue, glue300, glue600, glue1200)
  printed-sources true false img = simp (string-append_assoc, glue, glue300, glue600)
  printed-sources false true img =
      simp (string-append_assoc, glue, glue300, glue600, glue1200, glue2400)
  printed-sources false false img = simp (string-append_assoc, glue, glue300, glue600, glue1200)

  -- The set of sources of a link is the list of the sources, printed.
  source_set-sources :
      (img : Image)
      → source_set decimal image_base thumb_base hide_original low_res img ≡ printed (sources img)
  unfolding source_set
  source_set-sources img =
      printed-sources low_res
        (has_size decimal image_base thumb_base hide_original low_res img
          && (not hide_original && not low_res))
        img

-- In an album that hides its originals a link does not depend on where they are: whatever the
-- base of their addresses is, all attributes are the same, and a click leads nowhere.
pub link-hidden :
    (decimal : ℕ → String) (image_base other_base thumb_base : String)
    (hide_original low_res : Bool) (i : ℕ) (existing : Option Link) (img : Image)
    → hide_original ≡ true
    → (link decimal image_base thumb_base hide_original low_res i existing img
        ≡ link decimal other_base thumb_base hide_original low_res i existing img)
      × ((link decimal image_base thumb_base hide_original low_res i existing img).href ≡ some "#")
unfolding link source_set
link-hidden decimal image_base other_base thumb_base hide_original low_res i existing img h =
    (same existing, ap some (if_of_true _ _ h))
  where
    cond_false : (b low : Bool) → (b && (not hide_original && not low)) ≡ false
    cond_false true low = ap (λ o. not o && not low) h
    cond_false false low = refl

    same_sources :
        source_set decimal image_base thumb_base hide_original low_res img
        ≡ source_set decimal other_base thumb_base hide_original low_res img
    same_sources =
        if_of_false _ _
          (cond_false (has_size decimal image_base thumb_base hide_original low_res img) low_res)
        ∙ sym (
            if_of_false _ _ (
              cond_false (has_size decimal image_base thumb_base hide_original low_res img)
                low_res))

    to : Link → String → String → Link
    to a href sources = record a { href = some href; pswp_srcset = some sources }

    same_href :
        (if hide_original then "#" else image_base +s "/" +s img.hash +s ".jpg")
        ≡ (if hide_original then "#" else other_base +s "/" +s img.hash +s ".jpg")
    same_href = if_of_true _ _ h ∙ sym (if_of_true _ _ h)

    same :
        (existing : Option Link)
        → link decimal image_base thumb_base hide_original low_res i existing img
          ≡ link decimal other_base thumb_base hide_original low_res i existing img
    same (some l) =
        ap₂ (to (link decimal image_base thumb_base hide_original low_res i (some l) img)) same_href
          same_sources
    same none =
        ap₂ (to (link decimal image_base thumb_base hide_original low_res i none img)) same_href
          same_sources
