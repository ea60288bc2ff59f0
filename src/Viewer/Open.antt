-- ===== src/Viewer/Open.antt =====
-- Which image a page opens: `openByHash` of resources/static/album.js and the hash that is read
-- from the address when the gallery is ready.
pub mod Pattern
pub mod Shared
use Prim.Native.Char.{Char, code}
use Prim.Native.String
use Prim.Native.String.{String}
use text.Mathlib.Text.{◌==◌ as str_eq}
use photo_blog.Base.{ℕ, Bool, true, false, Option, none, some, List, [], ◌∷◌, ◌==◌, if◌then◌else◌}
use photo_blog.Album.Gallery.Index.{idx_of}

-- What follows a prefix.
abbrev pub after_prefix : String → String → Option String
after_prefix String.[] s = some s
after_prefix (String.◌∷◌ p prefix) String.[] = none
after_prefix (String.◌∷◌ p prefix) (String.◌∷◌ c s) =
    let rest = after_prefix prefix s in if code p == code c then rest else none

abbrev pub put_before : Char → Option String → Option String → Option String
put_before c (some h) rest = some (String.◌∷◌ c h)
put_before c none (some rest) = some ""
put_before c none none = none

-- What stands before the last ".html": the longest text that `(.+)` can take, or the empty one.
abbrev pub before_html : String → Option String
before_html String.[] = none
before_html (String.◌∷◌ c s) = put_before c (before_html s) (after_prefix ".html" (String.◌∷◌ c s))

-- The match at a place, where `later` is the match further on. The group is not empty.
abbrev pub take_group : (later : Option String) → Option String → Option String
take_group later none = later
take_group later (some h) = if str_eq h "" then later else some h

abbrev pub take_match : (later : Option String) → Option String → Option String
take_match later none = later
take_match later (some rest) = take_group later (before_html rest)

-- The group of `match(/photo-(.+)\.html/)` in a text of one line.
unfoldable pub match_photo : String → Option String
match_photo String.[] = none
match_photo (String.◌∷◌ c s) = take_match (match_photo s) (after_prefix "photo-" (String.◌∷◌ c s))

abbrev pub hash_or : (fragment : String) → Option String → String
hash_or fragment none = fragment
hash_or fragment (some h) = h

-- `imgHash`; `fragment` is `location.hash` without its first character.
unfoldable pub img_hash : (path fragment : String) → String
unfolding match_photo
img_hash path fragment = hash_or fragment (match_photo path)

-- The index of the slide that is opened when the gallery is ready, if any.
unfoldable pub opened : List (String × ℕ) → (path fragment : String) → Option ℕ
unfolding img_hash
opened idx_by_hash path fragment =
    let hash = img_hash path fragment in if str_eq hash "" then none else idx_of hash idx_by_hash
