-- ===== src/Stats.antt =====
-- The request of statistics: `collectStats` in resources/static/album_extra.js, which the thumbnails
-- and the viewer call.
mod Kept
use Prim.Native.String.{String}
use text.Mathlib.Text.{◌==◌ as str_eq}
use photo_blog.Base.{
  ℕ, Bool, true, false, not, ◌&&◌, Option, none, some, List, [], ◌∷◌, leb, ◌==◌, if◌then◌else◌,
}

-- The screen; `portrait` is the match of "(orientation: portrait)", `none` where `matchMedia` is
-- missing.
pub record Screen : Type 0 where
  pub width : ℕ
  pub height : ℕ
  pub portrait : Option Bool

pub data Value : Type 0 where
  number : ℕ → Value
  words : String → Value

-- Set a property: in its place if the object has it, behind the others if not.
abbrev pub set : String → Value → List (String × Value) → List (String × Value)
set k v [] = (k, v) ∷ []
set k v ((j, w) ∷ params) = if str_eq j k then (j, v) ∷ params else (j, w) ∷ set k v params

abbrev pub is_portrait : Option Bool → Bool
is_portrait none = false
is_portrait (some b) = b

-- `hostname` reads the host of an address, `host` is that of the page, `referrer` is
-- `document.referrer`, `px` `devicePixelRatio` and `visitor` `visitorData.id`.
module _ (hostname : String → String) (host referrer visitor : String) (px : Value)
    (s : Screen) where
  abbrev pub with_referrer : List (String × Value) → List (String × Value)
  with_referrer params =
      if not (str_eq referrer "") && not (str_eq (hostname referrer) host)
      then set "ref" (words referrer) params
      else params

  abbrev pub with_portrait : List (String × Value) → List (String × Value)
  with_portrait params =
      if not (s.width == 0) && (leb s.width 576 && is_portrait s.portrait)
      then set "prt" (number 1) params
      else params

  -- The object that is sent to "/stats".
  unfoldable pub collect_stats : List (String × Value) → List (String × Value)
  collect_stats params = with_portrait (
      with_referrer (
        set "v" (words visitor)
          (set "px" px (set "sh" (number s.height) (set "sw" (number s.width) params)))))
