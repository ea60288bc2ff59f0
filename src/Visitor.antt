-- ===== src/Visitor.antt =====
-- The visitor's identity and settings in resources/static/app.js: the cookie, the entry in
-- `localStorage` and `window.visitorData`.
pub mod Identity
mod Tests
use Prim.Native.String.{String}
use text.Mathlib.Text.{◌==◌ as str_eq}
use photo_blog.Base.{Bool, true, false, Option, none, some, if◌then◌else◌}

-- `visitorData`; `id` is "" where it is missing, the settings are `none` until they are set.
pub record VisitorData : Type 0 where
  pub id : String
  pub low_res : Option Bool
  pub show_exif : Option Bool

-- `cookie` is the cookie "v", `stored` the parsed entry "visitorData" of the storage, `visitor_data` is
-- `window.visitorData`.
pub record Browser : Type 0 where
  pub cookie : Option String
  pub stored : Option VisitorData
  pub visitor_data : VisitorData

abbrev pub id_or : Option String → String → String
id_or none random = random
id_or (some c) random = if str_eq c "" then random else c

-- A new visitor, known by the cookie if there is one.
abbrev pub newcomer : (random : String) → Browser → Browser
newcomer random s =
    let v : VisitorData = record { id = id_or s.cookie random; low_res = none; show_exif = none } in
    record { cookie = some v.id; stored = some v; visitor_data = v }

-- The script's start; `random` is what `randomInt().toString(36)` gives. The cookie is written again
-- where it differs, which makes it the stored id in both cases.
unfoldable pub load : (random : String) → Browser → Browser
load random s = elim s.stored [
  | none ↦ newcomer random s
  | some v ↦
      if str_eq v.id ""
      then newcomer random s
      else record s { cookie = some v.id; visitor_data = v }
]

unfoldable pub set_low_res : Bool → Browser → Browser
set_low_res b s =
    let v = s.visitor_data in
    let w : VisitorData = record v { low_res = some b } in
    record s { visitor_data = w; stored = some w }

unfoldable pub set_show_exif : Bool → Browser → Browser
set_show_exif b s =
    let v = s.visitor_data in
    let w : VisitorData = record v { show_exif = some b } in
    record s { visitor_data = w; stored = some w }
