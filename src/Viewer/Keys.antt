-- ===== src/Viewer/Keys.antt =====
-- The key that removes the shown image: the listener of `keyup` in resources/static/album.js.
pub mod Asked
use Prim.Native.String.{String}
use text.Mathlib.Text.{◌==◌ as str_eq}
use photo_blog.Base.{Bool, true, false, ◌&&◌, Option, none, some, if◌then◌else◌}
use photo_blog.Viewer.Time.{CurrentImage}
use photo_blog.Client.{Call}
use photo_blog.Client.Actions.{remove_image_call}

-- The album's name and the hash that `removeImage` is called with, if it is.
unfoldable pub key_up : (ctrl_key : Bool) (key : String) → CurrentImage → Option (String × String)
key_up ctrl_key key c =
    if ctrl_key && str_eq key "x"
    then if str_eq c.img "" then none else some (c.album, c.img)
    else none

module _ (Json : Type 0) (parse : String → Option Json) (encode : String → String)
    (error_of : Json → String) where
  abbrev pub asked_for :
      (confirmed : Bool) → Option (String × String) → Option (Call Json parse encode "")
  asked_for confirmed none = none
  asked_for confirmed (some (album_name, hash)) =
      if confirmed
      then some (remove_image_call Json parse encode error_of album_name hash "")
      else none

  -- The request that follows, if the reader confirms it.
  unfoldable pub removal :
      (ctrl_key : Bool) (key : String) (confirmed : Bool)
      → CurrentImage
      → Option (Call Json parse encode "")
  unfolding key_up
  removal ctrl_key key confirmed c = asked_for confirmed (key_up ctrl_key key c)
