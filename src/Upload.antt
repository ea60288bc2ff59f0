-- ===== src/Upload.antt =====
-- The header of an upload that says which thumbnails are uploaded with an image:
-- `beforeUploadRequest` in resources/static/album_extra.js.
pub mod Expected
mod Tests
use Prim.Native.Char.{Char, code}
use Prim.Native.String
use Prim.Native.String.{String}
use text.Mathlib.Text.{◌==◌ as str_eq}
use photo_blog.Base.{
  ℕ, Bool, true, false, not, ◌&&◌, ◌||◌, Option, none, some, List, [], ◌∷◌, ◌==◌, if◌then◌else◌,
}
use photo_blog.Results.{◌+s◌}

-- `file.data`; the path is "" where it is missing.
pub record File : Type 0 where
  pub name : String
  pub relative_path : String

abbrev pub starts_with : (prefix s : String) → Bool
starts_with String.[] s = true
starts_with (String.◌∷◌ p prefix) String.[] = false
starts_with (String.◌∷◌ p prefix) (String.◌∷◌ c s) = code p == code c && starts_with prefix s

-- `s.includes(t)`
abbrev pub includes : (t s : String) → Bool
includes t String.[] = starts_with t ""
includes t (String.◌∷◌ c s) = starts_with t (String.◌∷◌ c s) || includes t s

abbrev pub thumb_sizes : List String
thumb_sizes = "300w" ∷ "600w" ∷ "1200w" ∷ "2400w" ∷ []

-- The first size in a path.
abbrev pub size_in : (sizes : List String) → (path : String) → Option String
size_in [] path = none
size_in (t ∷ sizes) path = if includes t path then some t else size_in sizes path

abbrev pub push : Option String → List String → List String
push none thumbs = thumbs
push (some t) thumbs = t ∷ thumbs

-- The loop over all files.
abbrev pub thumbs_of : (name : String) → List File → List String
thumbs_of name [] = []
thumbs_of name (f ∷ files) =
    if str_eq f.relative_path ""
    then thumbs_of name files
    else if not (str_eq f.name name)
    then thumbs_of name files
    else push (size_in thumb_sizes f.relative_path) (thumbs_of name files)

-- `thumbs.join(",")`
abbrev pub join : List String → String
join [] = ""
join (t ∷ []) = t
join (t ∷ (u ∷ ts)) = t +s "," +s join (u ∷ ts)

abbrev pub is_some : Option String → Bool
is_some none = false
is_some (some t) = true

-- The header "X-Expect-Thumbnails" of the request, `none` where it is not set. The test on the
-- list of thumbnails is true for the empty list, too.
unfoldable pub before_upload_request : (file : File) (all_files : List File) → Option String
before_upload_request file all_files =
    if not (str_eq file.relative_path "") && is_some (size_in thumb_sizes file.relative_path)
    then none
    else some (join (thumbs_of file.name all_files))
