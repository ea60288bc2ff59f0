-- ===== src/Viewer/Panel/Opened.antt =====
-- What a slide opens from, and its caption, for a link and a caption that `renderAlbum` made.
use Prim.Native.String.{String}
use text.Mathlib.Text.{◌==◌ as str_eq}
use text.Mathlib.TextEquality.{eq_iff}
use photo_blog.Base.{
  ℕ, ◌≡◌, refl, ap, ◌∙◌, Bool, true, false, none, some, List, [], ◌∷◌, ◌++◌, inl, inr, Bool-cases,
  if_of_true, if_of_false, leb, All,
}
use photo_blog.Base.Int.{ℤ}
use photo_blog.Results.{◌+s◌}
use photo_blog.Album.Link as Link
use photo_blog.Album.Link.{link}
use photo_blog.Album.Nodes.{
  Element, Selector, of_class, of_tag, fits, thumb_sprite, thumb_img, find_in, find_all, query_in,
  query_all, attributes_of, link_node, CaptionNode, caption_node,
}
use photo_blog.Viewer.Panel.{
  hash_of, dom_item_data, thumb_el, msrc_for, caption_with, caption_for, caption_content,
}

-- What a thumbnail is: the part of a sprite, or a picture of its own.
abbrev pub thumb_kind : (has_sprite : Bool) → Selector
thumb_kind true = of_class "thumb-sprite"
thumb_kind false = of_tag "img"

caption_with-append :
    (hash : String) (earlier later : List CaptionNode) (c : CaptionNode)
    → All (λ (d : CaptionNode). str_eq d.data_hash hash ≡ false) earlier
    → c.data_hash ≡ hash
    → caption_with hash (earlier ++ c ∷ later) ≡ c.html
caption_with-append hash [] later c h e = if_of_true _ _ ((eq_iff c.data_hash hash).1 e)
caption_with-append hash (d ∷ earlier) later c (n, h) e =
    if_of_false _ _ n ∙ caption_with-append hash earlier later c h e

thumb_el-link_node :
    (thumb_base wide : String) (has_sprite : Bool) (attributes : List (String × String))
    (img : Link.Image)
    → (x : Element) × (thumb_el none
          (some (link_node thumb_base wide has_sprite none attributes img))
        ≡ some x)
      × (fits (thumb_kind has_sprite) x ≡ true)
unfolding thumb_el link_node find_in find_all query_in query_all
thumb_el-link_node thumb_base wide true attributes img =
    elim (Bool-cases (leb img.height img.width)) [
      | inl e ↦ (thumb_sprite, rw e refl, refl)
      | inr e ↦ (thumb_sprite, rw e refl, refl)
    ]
thumb_el-link_node thumb_base wide false attributes img =
    elim (Bool-cases (leb img.height img.width)) [
      | inl e ↦ (thumb_img thumb_base wide img, rw e refl, refl)
      | inr e ↦ (thumb_img thumb_base wide img, rw e refl, refl)
    ]

hash_of-link_node :
    (decimal : ℕ → String) (show : ℤ → String) (image_base thumb_base : String)
    (hide_original low_res : Bool) (wide : String) (has_sprite : Bool) (i : ℕ) (img : Link.Image)
    → hash_of (
        some (
          link_node thumb_base wide has_sprite none
            (attributes_of decimal show
              (link decimal image_base thumb_base hide_original low_res i none img))
            img))
      ≡ some img.hash
unfolding link_node link
hash_of-link_node decimal show image_base thumb_base hide_original low_res wide has_sprite i img =
    refl

-- An image with a hash that `renderAlbum` makes a new link and a new caption for, where no caption
-- before it has this hash. The viewer opens its slide from the image's part of a sprite, if it
-- has one, and from its thumbnail picture if not; until the slide is loaded it shows the thumbnail
-- file of this hash; and the slide's caption is the image's description.
pub opened-link_node :
    (decimal : ℕ → String) (show : ℤ → String) (image_base thumb_base : String)
    (hide_original low_res : Bool) (wide : String) (has_sprite : Bool) (i : ℕ) (img : Link.Image)
    (src controls description : String) (earlier later : List CaptionNode)
    → str_eq img.hash "" ≡ false
    → All (λ (d : CaptionNode). str_eq d.data_hash img.hash ≡ false) earlier
    → ((x : Element) × (thumb_el none (
            some (
              link_node thumb_base wide has_sprite none
                (attributes_of decimal show
                  (link decimal image_base thumb_base hide_original low_res i none img))
                img))
          ≡ some x)
        × (fits (thumb_kind has_sprite) x ≡ true))
      × (dom_item_data thumb_base none (
            some (
              link_node thumb_base wide has_sprite none
                (attributes_of decimal show
                  (link decimal image_base thumb_base hide_original low_res i none img))
                img))
          ≡ some (thumb_base +s "/300w/" +s img.hash +s ".jpg"))
      × (caption_content
            (some (record {
              src = src;
              of_element = some (
                  link_node thumb_base wide has_sprite none
                    (attributes_of decimal show
                      (link decimal image_base thumb_base hide_original low_res i none img))
                    img);
            }))
            (earlier ++ caption_node false none img.hash controls description ∷ later)
          ≡ description)
unfolding dom_item_data caption_content caption_node
opened-link_node decimal show image_base thumb_base hide_original low_res wide has_sprite i img src
      controls description earlier later named others =
    let hashed =
      hash_of-link_node decimal show image_base thumb_base hide_original low_res wide has_sprite i
        img in
    (
      thumb_el-link_node thumb_base wide has_sprite
          (attributes_of decimal show
            (link decimal image_base thumb_base hide_original low_res i none img))
          img,
      ap (msrc_for thumb_base) hashed ∙ if_of_false _ _ named,
      ap
            (λ o.
              caption_for o
                (earlier ++ caption_node false none img.hash controls description ∷ later))
            hashed
          ∙ if_of_false _ _ named
          ∙ caption_with-append img.hash earlier later
              (caption_node false none img.hash controls description) others refl,
    )
