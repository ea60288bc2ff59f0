-- ===== src/Viewer/Time.antt =====
-- The statistics of an image's view in resources/static/album.js: the variables `lastBlur`,
-- `unfocused` and `currentImage`, the window's listeners, and the handlers of the viewer's events
-- `contentResize`, `contentActivate` and `close`. Times are milliseconds of `Date`.
pub mod Away
pub mod Focus
use Prim.Native.String.{String}
use text.Mathlib.Text.{◌==◌ as str_eq}
use photo_blog.Base.{ℕ, Bool, true, false, Option, none, some, List, [], ◌∷◌, ltb, if◌then◌else◌}
use photo_blog.Base.Int.{ℤ, pos, ◌+ℤ◌, ◌-ℤ◌}

-- `currentImage`. A field that was never set is `none`; `time` is read only while `img` is set.
pub record CurrentImage : Type 0 where
  pub album : String
  pub img : String
  pub time : ℤ
  pub w : Option ℕ
  pub h : Option ℕ
  pub mw : Option ℕ
  pub mh : Option ℕ

pub record State : Type 0 where
  pub last_blur : Option ℤ
  pub unfocused : ℤ
  pub current : CurrentImage

abbrev pub start : State
start = record {
  last_blur = none;
  unfocused = pos 0;
  current = record { album = ""; img = ""; time = pos 0; w = none; h = none; mw = none; mh = none };
}

pub data Event : Type 0 where
  blur focus scroll close : Event
  -- the viewer shows the image of a hash at a size
  activate : (hash : String) (w h : ℕ) → Event
  -- the shown image is drawn at a size
  resize : (w h : ℕ) → Event

-- `width > limit`, false where the limit is undefined.
abbrev pub wider : ℕ → Option ℕ → Bool
wider width none = false
wider width (some limit) = ltb limit width

-- What the listeners of `focus` and `scroll` do.
unfoldable pub come_back : ℤ → State → State
come_back now s = elim s.last_blur [
  | none ↦ record s { last_blur = none }
  | some since ↦ record s { last_blur = none; unfocused = s.unfocused +ℤ (now -ℤ since) }
]

-- `album_name` is `params.albumName`.
module _ (album_name : String) where
  -- The object that is handed to `collectStats`: the time since the image was activated.
  unfoldable pub viewed : ℤ → State → CurrentImage
  viewed now s =
      let c = s.current in record c { album = album_name; time = now -ℤ c.time -ℤ s.unfocused }

  unfoldable pub activated : ℤ → String → (w h : ℕ) → State → State
  activated now hash w h s =
      let c = s.current in
      record s {
        current = record c {
          album = if str_eq c.img "" then c.album else album_name;
          img = hash;
          time = now -ℤ s.unfocused;
          w = some w;
          h = some h;
        };
      }

  unfoldable pub resized : (w h : ℕ) → State → State
  resized w h s =
      let c = s.current in
      if wider w c.w then record s { current = record c { mw = some w; mh = some h } } else s

  unfoldable pub closed : ℤ → State → State
  unfolding viewed
  closed now s =
      if str_eq s.current.img ""
      then s
      else (let c = viewed now s in record s { current = record c { album = ""; img = "" } })

  -- The state after an event at the time `now`, and the object that is reported, if any.
  unfoldable pub step : State → ℤ × Event → State × Option CurrentImage
  unfolding come_back viewed activated resized closed
  step s (now, blur) = (record s { last_blur = some now }, none)
  step s (now, focus) = (come_back now s, none)
  step s (now, scroll) = (come_back now s, none)
  step s (now, activate hash w h) =
      (activated now hash w h s, if str_eq s.current.img "" then none else some (viewed now s))
  step s (now, resize w h) = (resized w h s, none)
  step s (now, close) =
      (closed now s, if str_eq s.current.img "" then none else some (viewed now s))

  -- A run, with what is reported in order.
  abbrev pub report_of : Option CurrentImage → List CurrentImage
  report_of none = []
  report_of (some c) = c ∷ []

  unfoldable pub run : State → List (ℤ × Event) → State
  run s [] = s
  run s (e ∷ events) = run (step s e).0 events
