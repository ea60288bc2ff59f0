-- ===== src/Viewer/Address.antt =====
-- The address of the page while the viewer is open, and full screen: `syncCurrentImageAddress`,
-- `restoreAlbumAddress` and the handlers of `change` and `close` in resources/static/album.js,
-- `toggleFullscreen` and `exitFullscreen` in resources/static/album_extra.js.
pub mod Follows
pub mod Others
use Prim.Native.String
use Prim.Native.String.{String}
use text.Mathlib.Text.{◌==◌ as str_eq}
use photo_blog.Base.{
  ℕ, suc, ◌+◌, Bool, true, false, not, Option, none, some, List, [], ◌∷◌, ◌==◌, if◌then◌else◌,
}

-- `window.syncGalleryAddressAfterFullscreen`, which each gallery of the page sets when it is loaded:
-- not set yet (no event below loads another gallery), set last by this gallery, or set last by another one, whose viewer shows a slide with
-- the hash `shown`, if it is there and the hash is not empty.
pub data Registered : Type 0 where
  unset : Registered
  own : Registered
  other : (album_name : String) (shown : Option String) → Registered

-- `path` is `location.pathname`, `full_element` whether the document has a `fullscreenElement`,
-- `styled` whether `html` and `body` have the class of full screen, `listeners` how often
-- `toggleFullscreen` has added its listener, and `index` the viewer's `currIndex` while
-- `lightbox.pswp` is set. `registered` is the function of the page that full screen calls.
pub record State : Type 0 where
  pub path : String
  pub fullscreen_enabled : Bool
  pub full_element : Bool
  pub styled : Bool
  pub listeners : ℕ
  pub index : Option ℕ
  pub registered : Registered

-- What the reader, the viewer and the browser do.
pub data Event : Type 0 where
  -- the viewer shows another slide, its first one included
  change : ℕ → Event
  toggle : Event
  -- the browser entered or left full screen, and fires `fullscreenchange`
  fullscreen_change : Bool → Event
  close : Event
  -- the viewer is gone: `lightbox.pswp` is undefined again
  destroy : Event

-- The address of an image in an album.
abbrev pub address : (album_name hash : String) → String
address album_name hash =
    String.◌++◌ "/" (String.◌++◌ album_name (String.◌++◌ "/photo-" (String.◌++◌ hash ".html")))

-- The hash of the current slide, if the viewer is there and the hash is not empty; `hash_by_idx` is
-- the object `hashByIdx`.
abbrev pub hash_of : (hash_by_idx : ℕ → Option String) → Option ℕ → Option String
hash_of hash_by_idx none = none
hash_of hash_by_idx (some i) = elim (hash_by_idx i) [
  | none ↦ none
  | some h ↦ if str_eq h "" then none else some h
]

-- The address is replaced by that of a hash, if there is one and it is another address.
unfoldable pub show_hash : (album_name : String) → Option String → State → State
show_hash album_name none s = s
show_hash album_name (some h) s =
    if str_eq s.path (address album_name h) then s else record s { path = address album_name h }

-- `supported` says whether `document.exitFullscreen` is a function; `album_name` and `base_url` are
-- the page's parameters.
module _ (hash_by_idx : ℕ → Option String) (supported : Bool) (album_name base_url : String) where
  unfoldable pub sync_current_image_address : State → State
  unfolding show_hash
  sync_current_image_address s = show_hash album_name (hash_of hash_by_idx s.index) s

  unfoldable pub restore_album_address : State → State
  restore_album_address s = if str_eq s.path base_url then s else record s { path = base_url }

  -- The call of `window.syncGalleryAddressAfterFullscreen`, if it is a function.
  abbrev pub sync_by : Registered → State → State
  sync_by unset s = s
  sync_by own s = sync_current_image_address s
  sync_by (other name shown) s = show_hash name shown s

  unfoldable pub sync_after_fullscreen : State → State
  unfolding sync_current_image_address show_hash
  sync_after_fullscreen s = sync_by s.registered s

  unfoldable pub toggle_fullscreen : State → State
  unfolding sync_after_fullscreen
  toggle_fullscreen s =
      if s.fullscreen_enabled
      then sync_after_fullscreen (record s { fullscreen_enabled = false; styled = false })
      else record s {
        fullscreen_enabled = true;
        styled = true;
        listeners = if supported then suc s.listeners else s.listeners;
      }

  unfoldable pub exit_fullscreen : State → State
  exit_fullscreen s = record s { fullscreen_enabled = false; styled = false }

  -- The listeners of `fullscreenchange`, one after the other.
  unfoldable pub run_listeners : ℕ → State → State
  unfolding sync_after_fullscreen
  run_listeners ℕ.zero s = s
  run_listeners (suc n) s = run_listeners n (
      if s.full_element
      then s
      else sync_after_fullscreen (record s { styled = false; fullscreen_enabled = false }))

  unfoldable pub step : State → Event → State
  unfolding sync_current_image_address restore_album_address toggle_fullscreen exit_fullscreen
      run_listeners
  step s (change i) =
      let t : State = record s { index = some i } in
      if s.fullscreen_enabled then t else sync_current_image_address t
  step s toggle = toggle_fullscreen s
  step s (fullscreen_change full) = run_listeners s.listeners (record s { full_element = full })
  step s close = exit_fullscreen (restore_album_address s)
  step s destroy = record s { index = none }

  unfoldable pub run : State → List Event → State
  unfolding step
  run s [] = s
  run s (e ∷ events) = run (step s e) events
