-- ===== src/Drag.antt =====
-- The order of an album's images, changed by drag and drop: `enableDragNDropImagesReordering` in
-- resources/static/album_extra.js.
pub mod Placed
pub mod Times
pub mod Kept
pub mod Order
pub mod Session
pub mod Stale
pub mod Answered
pub mod Reordered
mod Tests
use Prim.Native.String
use Prim.Native.String.{String}
use text.Mathlib.Text.{◌==◌ as str_eq}
use photo_blog.Base.{
  ℕ, zero, suc, Bool, true, false, Option, none, some, List, [], ◌∷◌, ◌++◌, ◌==◌, if◌then◌else◌,
}
use photo_blog.Base.Int.{ℤ}
use photo_blog.Client.{
  Reply, Effect, reordered, image_time, Call, dispatch, control_set_album_image_time,
}
use photo_blog.Client.Actions.{tell}

pub data Kind : Type 0 where
  photo : (hash : String) → Kind
  caption chrono_text : Kind

-- A node of the gallery: `element` tells the elements of the page apart, `ts` is the attribute
-- `data-ts`, `cached` what `data('ts')` has read before. jQuery reads the attribute when the
-- property is first accessed and keeps the value from then on.
pub record Node : Type 0 where
  pub element : ℕ
  pub kind : Kind
  pub ts : Option ℤ
  pub cached : Option ℤ

abbrev pub first_of : Option ℤ → Option ℤ → Option ℤ
first_of none ts = ts
first_of (some t) ts = some t

-- `data('ts')`
abbrev pub data_ts : Node → Option ℤ
data_ts n = first_of n.cached n.ts

abbrev pub find : ℕ → List Node → Option Node
find target [] = none
find target (n ∷ g) = if n.element == target then some n else find target g

-- The elements after `data('ts')` of one of them was read.
abbrev pub read_ts : ℕ → List Node → List Node
read_ts target [] = []
read_ts target (n ∷ g) =
    (if n.element == target then record n { cached = data_ts n } else n) ∷ read_ts target g

-- The element with the id "img" and the hash.
abbrev pub is_image : String → Kind → Bool
is_image hash (photo h) = str_eq h hash
is_image hash caption = false
is_image hash chrono_text = false

-- `attr('data-ts', ts)`, which changes nothing where `ts` is undefined.
abbrev pub with_ts : Option ℤ → Node → Node
with_ts none n = n
with_ts (some t) n = record n { ts = some t }

abbrev pub put_ts : String → Option ℤ → List Node → List Node
put_ts hash ts [] = []
put_ts hash ts (n ∷ g) = if is_image hash n.kind then with_ts ts n ∷ g else n ∷ put_ts hash ts g

abbrev pub also : Node → Option (Node × List Node) → Option (Node × List Node)
also n none = none
also n (some (m, g)) = some (m, n ∷ g)

-- The image and the other nodes.
abbrev pub take_out : String → List Node → Option (Node × List Node)
take_out hash [] = none
take_out hash (n ∷ g) = if is_image hash n.kind then some (n, g) else also n (take_out hash g)

abbrev pub insert : ℕ → Node → List Node → List Node
insert target n [] = []
insert target n (m ∷ g) = if m.element == target then n ∷ m ∷ g else m ∷ insert target n g

abbrev pub is_there : Option Node → Bool
is_there none = false
is_there (some n) = true

-- `before` puts the image where the target is on the page, and leaves one that is dropped on
-- itself in its place. A target is an element that a drop found on the page, and no event below
-- takes one away, so that it is there; the last case is for lists of nodes without it.
abbrev pub place : ℕ → String → Option ℤ → Option (Node × List Node) → List Node → List Node
place target hash ts none g = g
place target hash ts (some (n, rest)) g =
    if n.element == target
    then put_ts hash ts g
    else if is_there (find target rest)
    then insert target (with_ts ts n) rest
    else put_ts hash ts g

-- `$(e.currentTarget).before($("#img" + draggedHash).attr('data-ts', beforeTs))`
unfoldable pub moved : ℕ → String → Option ℤ → List Node → List Node
moved target hash ts g = place target hash ts (take_out hash g) g

abbrev pub apply : List Effect → List Node → List Node
apply [] g = g
apply (reordered hash target ts ∷ effects) g = apply effects (moved target hash ts g)
apply (_ ∷ effects) g = apply effects g

-- Images and texts are targets, captions are not.
abbrev pub is_target : Kind → Bool
is_target (photo hash) = true
is_target caption = false
is_target chrono_text = true

module _ (Json : Type 0) (parse : String → Option Json) (encode : String → String)
    (error_of : Json → String) (album_name : String) where
  unfoldable pub request : ℕ → String → Option ℤ → Call Json parse encode ""
  unfolding control_set_album_image_time
  request target hash before_ts =
      control_set_album_image_time Json parse encode "" (image_time album_name hash before_ts)
        (some (reordered hash target before_ts ∷ []))
        (tell Json parse encode error_of "Failed to reorder image: ")

  -- What is under way on the page: the gallery and the requests without a reply.
  pub record State : Type 0 where
    pub gallery : List Node
    pub pending : List (Call Json parse encode "")

  pub data Event : Type 0 where
    -- the text of the drag is dropped on an element
    drop : (target : ℕ) (dragged : String) → Event
    -- one of the requests is answered
    answered : ℕ → Reply → Event

  abbrev pub drop_on : Option Node → String → State → State
  drop_on none dragged s = s
  drop_on (some n) dragged s =
      if is_target n.kind
      then record {
        gallery = read_ts n.element s.gallery;
        pending = s.pending ++ (request n.element dragged (data_ts n) ∷ []);
      }
      else s

  abbrev pub answer : ℕ → Reply → List (Call Json parse encode "") → List Node → List Node
  answer i reply [] g = g
  answer zero reply (call ∷ calls) g = apply (dispatch Json parse encode "" call.cases reply) g
  answer (suc i) reply (call ∷ calls) g = answer i reply calls g

  abbrev pub without : ℕ → List (Call Json parse encode "") → List (Call Json parse encode "")
  without i [] = []
  without zero (call ∷ calls) = calls
  without (suc i) (call ∷ calls) = call ∷ without i calls

  unfoldable pub step : State → Event → State
  unfolding request moved
  step s (drop target dragged) = drop_on (find target s.gallery) dragged s
  step s (answered i reply) = record {
    gallery = answer i reply s.pending s.gallery;
    pending = without i s.pending;
  }

  unfoldable pub run : State → List Event → State
  unfolding step
  run s [] = s
  run s (e ∷ events) = run (step s e) events
