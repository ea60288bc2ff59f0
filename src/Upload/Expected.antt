-- ===== src/Upload/Expected.antt =====
-- Which files are expected as thumbnails.
use Prim.Native.String.{String}
use text.Mathlib.Text.{◌==◌ as str_eq}
use text.Mathlib.TextEquality.{eq_iff}
use photo_blog.Base.{
  ◌≡◌, refl, sym, ap, ap₂, ◌∙◌, Bool, true, false, not, ◌&&◌, Option, none, some, List, [], ◌∷◌,
  map, select, if_of_true, if_of_false, if-elim, if◌then◌else◌,
}
use photo_blog.Upload.{
  File, thumb_sizes, size_in, push, thumbs_of, join, is_some, before_upload_request,
}

-- A file is a thumbnail of a name: it has this name, and a size in its path.
abbrev pub is_thumb : (name : String) → File → Bool
is_thumb name f =
    not (str_eq f.relative_path "")
    && (str_eq f.name name && is_some (size_in thumb_sizes f.relative_path))

abbrev pub text_or_empty : Option String → String
text_or_empty none = ""
text_or_empty (some t) = t

abbrev pub size_of : File → String
size_of f = text_or_empty (size_in thumb_sizes f.relative_path)

chosen :
    (no_path named : Bool) (size : Option String) (f : File) (thumbs : List String)
    (files : List File)
    → thumbs ≡ map size_of files
    → text_or_empty size ≡ size_of f
    → (if no_path then thumbs else if not named then thumbs else push size thumbs)
      ≡ map size_of (if not no_path && (named && is_some size) then f ∷ files else files)
chosen true named size f thumbs files e q = e
chosen false false size f thumbs files e q = e
chosen false true none f thumbs files e q = e
chosen false true (some t) f thumbs files e q = ap₂ (λ u us. u ∷ us) q e

thumbs_of-select :
    (name : String) (files : List File)
    → thumbs_of name files ≡ map size_of (select (is_thumb name) files)
thumbs_of-select name [] = refl
thumbs_of-select name (f ∷ files) =
    chosen (str_eq f.relative_path "") (str_eq f.name name) (size_in thumb_sizes f.relative_path) f
      (thumbs_of name files) (select (is_thumb name) files) (thumbs_of-select name files) refl

-- A file in a folder of thumbnails is uploaded without the header; every other one with the sizes
-- of the thumbnails of its name among all files, in the order of the files. Where there are none
-- the header is set all the same, to the empty text.
before_upload_request-select :
    (file : File) (all_files : List File)
    → (before_upload_request file all_files ≡ (
        if is_thumb file.name file
        then none
        else some (join (map size_of (select (is_thumb file.name) all_files)))))
unfolding before_upload_request
before_upload_request-select file all_files =
    if-elim
      (λ r. r ≡ (
        if is_thumb file.name file
        then none
        else some (join (map size_of (select (is_thumb file.name) all_files)))))
      (not (str_eq file.relative_path "") && is_some (size_in thumb_sizes file.relative_path)) none
      _ (λ e. sym (if_of_true _ _ (itself ∙ e)))
      (λ e.
        ap (λ ts. some (join ts)) (thumbs_of-select file.name all_files)
        ∙ sym (if_of_false _ _ (itself ∙ e)))
  where
    itself :
        is_thumb file.name file
        ≡ not (str_eq file.relative_path "") && is_some (size_in thumb_sizes file.relative_path)
    itself =
        ap
          (λ b.
            not (str_eq file.relative_path "")
            && (b && is_some (size_in thumb_sizes file.relative_path)))
          ((eq_iff file.name file.name).1 refl)
