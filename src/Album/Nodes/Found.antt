-- ===== src/Album/Nodes/Found.antt =====
-- What selectors find in the link of an image.
use Prim.Native.String.{String}
use photo_blog.Base.{
  ◌≡◌, refl, ap, ◌∙◌, Bool, true, false, ◌&&◌, not, Option, none, some, List, inl, inr, Bool-cases,
  if-elim, leb,
}
use photo_blog.Results.{◌+s◌}
use photo_blog.Album.Link as Link
use photo_blog.Album.Link.{landscape}
use photo_blog.Album.Nodes.{
  Element, element, Elements, nil, cons, Selector, of_class, of_id, fits, or_first, self_if,
  find_in, find_all, query_selector, is_found, put_first, prepend_in, prepend_all, prepend,
  canvas_of, link_node,
}

or_first-none : (o p : Option Element) → o ≡ none → p ≡ none → or_first o p ≡ none
or_first-none o p e f = ap (λ q. or_first q p) e ∙ f

first_none : (o p : Option Element) → or_first o p ≡ none → o ≡ none
first_none none p e = refl
first_none (some x) p e = cc

later_none : (o p : Option Element) → or_first o p ≡ none → p ≡ none
later_none none p e = e
later_none (some x) p e = cc

self_if-none : (b : Bool) (e f : Element) → self_if b e ≡ none → self_if b f ≡ none
self_if-none true e f h = cc
self_if-none false e f h = refl

-- A class other than those of a new element is not found after it is put into others.
put_first-none :
    (q : Bool) (name : String) (new : Element) (es : Elements)
    → find_in (of_class name) new ≡ none
    → find_all (of_class name) es ≡ none
    → find_all (of_class name) (put_first q new es) ≡ none
unfolding find_in find_all
put_first-none true name new es e f = or_first-none _ _ e f
put_first-none false name new es e f = f

mutual
  unfolding find_in find_all prepend_in prepend_all

  prepend_in-none :
      (name : String) (selector : Selector) (new e : Element)
      → find_in (of_class name) new ≡ none
      → find_in (of_class name) e ≡ none
      → find_in (of_class name) (prepend_in selector new e) ≡ none
  prepend_in-none name selector new (element tag attributes children) n h =
      or_first-none _ _
        (self_if-none (fits (of_class name) (element tag attributes children)) _ _
          (first_none _ _ h))
        (put_first-none (fits selector (element tag attributes children)) name new
          (prepend_all selector new children) n
          (prepend_all-none name selector new children n (later_none _ _ h)))

  prepend_all-none :
      (name : String) (selector : Selector) (new : Element) (es : Elements)
      → find_in (of_class name) new ≡ none
      → find_all (of_class name) es ≡ none
      → find_all (of_class name) (prepend_all selector new es) ≡ none
  prepend_all-none name selector new nil n h = refl
  prepend_all-none name selector new (cons e es) n h =
      or_first-none _ _ (prepend_in-none name selector new e n (first_none _ _ h))
        (prepend_all-none name selector new es n (later_none _ _ h))

-- No element with the class "quick-exif" is in a link.
abbrev pub Without : Element → Type 0
Without e = query_selector (of_class "quick-exif") e ≡ none

prepend-Without :
    (selector : Selector) (hash : String) (a : Element)
    → Without a
    → Without (prepend selector (canvas_of hash) a)
unfolding find_in find_all
prepend-Without selector hash (element tag attributes children) h =
    prepend_all-none "quick-exif" selector (canvas_of hash) children refl h

abbrev pub AllWithout : Option Element → Type 0
AllWithout none = Unit
AllWithout (some a) = Without a

new-Without :
    (thumb_base wide : String) (has_sprite : Bool) (attributes : List (String × String))
    (img : Link.Image)
    → Without (link_node thumb_base wide has_sprite none attributes img)
unfolding link_node find_in find_all
new-Without thumb_base wide true attributes img = elim (Bool-cases (leb img.height img.width)) [
  | inl e ↦ rw e refl
  | inr e ↦ rw e refl
]
new-Without thumb_base wide false attributes img = elim (Bool-cases (leb img.height img.width)) [
  | inl e ↦ rw e refl
  | inr e ↦ rw e refl
]

pub link_node-Without :
    (thumb_base wide : String) (has_sprite : Bool) (existing : Option Element)
    (attributes : List (String × String)) (img : Link.Image)
    → AllWithout existing
    → Without (link_node thumb_base wide has_sprite existing attributes img)
unfolding link_node
link_node-Without thumb_base wide has_sprite none attributes img h =
    new-Without thumb_base wide has_sprite attributes img
link_node-Without thumb_base wide has_sprite (some a) attributes img h =
    if-elim Without
      (not (is_found (query_selector (of_class "thumb-sprite") a))
        && not (is_found (query_selector (of_id ("bh-" +s img.hash)) a)))
      (prepend (of_class "thumb") (canvas_of img.hash) a) a
      (λ e. prepend-Without (of_class "thumb") img.hash a h) (λ e. h)
