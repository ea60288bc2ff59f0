-- ===== src/Album/Nodes.antt =====
-- The elements of the gallery in resources/static/album.js: what `renderAlbum` puts in the link of
-- an image, as a tree, and what a selector finds there.
pub mod Found
use Prim.Native.Char.{Char, code}
use Prim.Native.String
use Prim.Native.String.{String}
use text.Mathlib.Text.{◌==◌ as str_eq}
use photo_blog.Base.{
  ℕ, Bool, true, false, ◌&&◌, ◌||◌, not, Option, none, some, List, [], ◌∷◌, ◌==◌, if◌then◌else◌,
}
use photo_blog.Base.Int.{ℤ}
use photo_blog.Results.{◌+s◌}
use photo_blog.Album.Link as Link
use photo_blog.Album.Link.{landscape}

-- An element of a page, with the elements in it.
mutual
  pub data Element : Type 0 where
    element : (tag : String) (attributes : List (String × String)) (children : Elements) → Element

  pub data Elements : Type 0 where
    nil : Elements
    cons : Element → Elements → Elements

abbrev pub attribute : String → List (String × String) → Option String
attribute name [] = none
attribute name ((k, v) ∷ attributes) = if str_eq k name then some v else attribute name attributes

-- The classes of a text, in which they stand between spaces; `word` is read so far.
abbrev pub words_from : (word : String) → String → List String
words_from word String.[] = word ∷ []
words_from word (String.◌∷◌ c s) =
    let next = word ∷ words_from "" s in
    let rest = words_from (word +s String.◌∷◌ c String.[]) s in
    if code c == b' ' then next else rest

abbrev pub classes : Option String → List String
classes none = []
classes (some s) = words_from "" s

abbrev pub listed : Option String → List String
listed none = []
listed (some s) = s ∷ []

abbrev pub is_in : String → List String → Bool
is_in x [] = false
is_in x (y ∷ ys) = str_eq y x || is_in x ys

-- A selector of an element: of a class, of a tag, or of an id.
pub data Selector : Type 0 where
  of_class : String → Selector
  of_tag : String → Selector
  of_id : String → Selector

abbrev pub fits : Selector → Element → Bool
fits (of_class name) (element tag attributes children) =
    is_in name (classes (attribute "class" attributes))
fits (of_tag name) (element tag attributes children) = str_eq tag name
fits (of_id name) (element tag attributes children) =
    is_in name (listed (attribute "id" attributes))

abbrev pub or_first : Option Element → Option Element → Option Element
or_first none later = later
or_first (some e) later = some e

abbrev pub self_if : Bool → Element → Option Element
self_if true e = some e
self_if false e = none

-- The first element, in the order of the page, that fits a selector.
unfoldable mutual
  pub find_in : Selector → Element → Option Element
  find_in selector (element tag attributes children) =
      or_first
        (self_if (fits selector (element tag attributes children))
          (element tag attributes children))
        (find_all selector children)

  pub find_all : Selector → Elements → Option Element
  find_all selector nil = none
  find_all selector (cons e es) = or_first (find_in selector e) (find_all selector es)

-- The first element, in the order of the page, that fits a selector and has one above it
-- that fits `outer`, unless that is so of all of them.
unfoldable mutual
  pub query_in : (under : Bool) (outer selector : Selector) → Element → Option Element
  query_in under outer selector (element tag attributes children) =
      or_first
        (self_if (fits selector (element tag attributes children) && under)
          (element tag attributes children))
        (query_all (fits outer (element tag attributes children) || under) outer selector children)

  pub query_all : (under : Bool) (outer selector : Selector) → Elements → Option Element
  query_all under outer selector nil = none
  query_all under outer selector (cons e es) =
      or_first (query_in under outer selector e) (query_all under outer selector es)

abbrev pub children_of : Element → Elements
children_of (element tag attributes children) = children

-- `querySelector` of an element with one selector, and with one inside another.
abbrev pub query_selector : Selector → Element → Option Element
query_selector selector e = find_all selector (children_of e)

abbrev pub query_inside : (outer selector : Selector) → Element → Option Element
query_inside outer selector e = query_all (fits outer e) outer selector (children_of e)

abbrev pub is_found : Option Element → Bool
is_found none = false
is_found (some e) = true

-- `find(selector).prepend(e)`: each element found gets a new first child.
abbrev pub put_first : Bool → Element → Elements → Elements
put_first true new children = cons new children
put_first false new children = children

unfoldable mutual
  pub prepend_in : (selector : Selector) (new : Element) → Element → Element
  prepend_in selector new (element tag attributes children) = element tag attributes (
      put_first (fits selector (element tag attributes children)) new
        (prepend_all selector new children))

  pub prepend_all : (selector : Selector) (new : Element) → Elements → Elements
  prepend_all selector new nil = nil
  prepend_all selector new (cons e es) =
      cons (prepend_in selector new e) (prepend_all selector new es)

abbrev pub prepend : (selector : Selector) (new : Element) → Element → Element
prepend selector new (element tag attributes children) =
    element tag attributes (prepend_all selector new children)

abbrev pub canvas_of : (hash : String) → Element
canvas_of hash =
    element "canvas" (("id", "bh-" +s hash) ∷ ("width", "32") ∷ ("height", "32") ∷ []) nil

-- `wide` is the text of `Math.round(400 * aspectRatio)`.
abbrev pub thumb_img : (thumb_base wide : String) → Link.Image → Element
thumb_img thumb_base wide img =
    element "img"
      (("alt", "photo")
        ∷ ("src", thumb_base +s "/200h/" +s img.hash +s ".jpg")
        ∷ (
          "srcset",
          thumb_base +s "/400h/" +s img.hash +s ".jpg " +s wide +s "w, " +s thumb_base +s "/300w/"
              +s img.hash +s ".jpg 300w, " +s thumb_base +s "/600w/" +s img.hash +s ".jpg 600w",
        )
        ∷ [])
      nil

abbrev pub classic_thumb_html : (thumb_base wide : String) → Link.Image → Elements
classic_thumb_html thumb_base wide img =
    cons (canvas_of img.hash) (cons (thumb_img thumb_base wide img) nil)

abbrev pub thumb_sprite : Element
thumb_sprite = element "span" (("class", "thumb-sprite") ∷ []) nil

abbrev pub sprite_thumb_html : Link.Image → Elements
sprite_thumb_html img = cons (canvas_of img.hash) (cons thumb_sprite nil)

-- `attr(name, value)`, over the attributes that are set.
abbrev pub set_attribute : String → Option String → List (String × String) → List (String × String)
set_attribute name none attributes = attributes
set_attribute name (some v) attributes = (name, v) ∷ attributes

abbrev pub texts {ℓ} : {A : Type ℓ} → (A → String) → Option A → Option String
texts text none = none
texts text (some n) = some (text n)

-- `decimal` and `show` are the texts of numbers.
abbrev pub attributes_of :
    (decimal : ℕ → String) (show : ℤ → String) → Link.Link → List (String × String)
attributes_of decimal show a = set_attribute "id" a.id (
    set_attribute "data-hash" a.data_hash (
      set_attribute "class" a.class_name (
        set_attribute "href" a.href (
          set_attribute "target" a.target (
            set_attribute "data-idx" (texts decimal a.data_idx) (
              set_attribute "data-pswp-width" (texts decimal a.pswp_width) (
                set_attribute "data-pswp-height" (texts decimal a.pswp_height) (
                  set_attribute "data-pswp-srcset" a.pswp_srcset
                    (set_attribute "data-ts" (texts show a.data_ts) [])))))))))

-- The caption of an image: its text, and whether there is an `.edit-icon` in it.
pub record CaptionNode : Type 0 where
  pub data_hash : String
  pub html : String
  pub has_edit_icon : Bool

-- `has_sprite` says whether `thumbSprites` has the image.
abbrev pub thumb_html : (thumb_base wide : String) (has_sprite : Bool) → Link.Image → Elements
thumb_html thumb_base wide true img = sprite_thumb_html img
thumb_html thumb_base wide false img = classic_thumb_html thumb_base wide img

-- A new link gets its thumbnail; one of the server's page gets a canvas, unless it has one or
-- shows a sprite.
unfoldable pub link_node :
    (thumb_base wide : String) (has_sprite : Bool)
    → (existing : Option Element) (attributes : List (String × String)) → Link.Image
    → Element
unfolding find_in find_all prepend_in prepend_all
link_node thumb_base wide has_sprite none attributes img = element "a" attributes (
    cons
      (element "div" (("class", "thumb" +s landscape img) ∷ [])
        (thumb_html thumb_base wide has_sprite img))
      nil)
link_node thumb_base wide has_sprite (some a) attributes img =
    if not (is_found (query_selector (of_class "thumb-sprite") a))
      && not (is_found (query_selector (of_id ("bh-" +s img.hash)) a))
    then prepend (of_class "thumb") (canvas_of img.hash) a
    else a

-- The caption next to it, where `on_page` is the one that the page has for the hash of a link that
-- it has, too.
unfoldable pub caption_node :
    (existing : Bool) (on_page : Option CaptionNode) (hash controls description : String)
    → CaptionNode
caption_node false on_page hash controls description = record {
  data_hash = hash;
  html = description;
  has_edit_icon = true;
}
caption_node true none hash controls description = record {
  data_hash = hash;
  html = controls;
  has_edit_icon = true;
}
caption_node true (some c) hash controls description =
    if c.has_edit_icon
    then c
    else record { data_hash = c.data_hash; html = controls +s c.html; has_edit_icon = true }
