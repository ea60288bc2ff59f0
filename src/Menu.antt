-- ===== src/Menu.antt =====
-- The menu of resources/static/menu.js: the classes of its three elements, and the clicks.
pub mod Open
mod Tests
use Prim.Native.String.{String}
use text.Mathlib.Text.{◌==◌ as str_eq}
use photo_blog.Base.{ℕ, Bool, true, false, ◌||◌, List, [], ◌∷◌, ◌++◌, length, ◌==◌, if◌then◌else◌}

-- The words of `className`: what `split(/\s+/)` gives and `join(' ')` puts together.
abbrev pub Classes : Type 0
Classes = List String

-- The loop of `toggleClass`, which takes the first occurrence out.
unfoldable pub take_out : String → Classes → Classes
take_out class_name [] = []
take_out class_name (c ∷ classes) =
    let rest = take_out class_name classes in if str_eq c class_name then classes else c ∷ rest

-- A class that was not found is put at the end.
unfoldable pub toggle_class : String → Classes → Classes
unfolding take_out
toggle_class class_name classes =
    let rest = take_out class_name classes in
    if length rest == length classes then rest ++ class_name ∷ [] else rest

pub record Elements : Type 0 where
  pub layout : Classes
  pub menu : Classes
  pub menu_link : Classes

unfoldable pub toggle_all : Elements → Elements
unfolding toggle_class
toggle_all e = record {
  layout = toggle_class "active" e.layout;
  menu = toggle_class "active" e.menu;
  menu_link = toggle_class "active" e.menu_link;
}

-- `mentions` says whether a class holds the text "active": `className.indexOf('active') !== -1`.
abbrev pub indexes : (mentions : String → Bool) → Classes → Bool
indexes mentions [] = false
indexes mentions (c ∷ classes) = mentions c || indexes mentions classes

-- A click; `on_link` says whether its target has the id of the menu's link. The second component
-- says whether the browser's own action is prevented.
unfoldable pub handle_event :
    (mentions : String → Bool) → (on_link : Bool) → Elements → Elements × Bool
unfolding toggle_all
handle_event mentions on_link e =
    if on_link
    then (toggle_all e, true)
    else if indexes mentions e.menu
    then (toggle_all e, false)
    else (e, false)
