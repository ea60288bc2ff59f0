-- ===== src/Album/Caption/Says.antt =====
-- Which text of a model a caption has, and what is in the table.
use Prim.Native.String.{String}
use text.Mathlib.Text.{◌==◌ as str_eq}
use text.Mathlib.TextLemmas.{append_assoc as string-append_assoc, append-nil as string-append-nil}
use photo_blog.Base.{
  ◌≡◌, refl, sym, ap, ◌∙◌, Bool, true, false, not, ◌&&◌, Option, none, some, List, [], ◌∷◌, ◌++◌,
  All, select, if-elim, Bool-cases, inl, inr,
}
use photo_blog.Results.{◌+s◌}
use photo_blog.Results.Striped.{concat}
use photo_blog.Album.Caption.{
  Description, Meta, find_description, says_description, ai_says, is_hidden, add_properties,
  exif_html,
}

-- A description is found after descriptions without a text only, and has one.
abbrev pub IsFirst : List Description → Option Description → Type 0
IsFirst ds none = All (λ d. str_eq d.text "" ≡ true) ds
IsFirst ds (some d) =
    (before : List Description) × (after : List Description) × (ds ≡ before ++ (d ∷ after))
    × All (λ e. str_eq e.text "" ≡ true) before
    × (str_eq d.text "" ≡ false)

IsFirst-cons :
    (d : Description) (ds : List Description) (o : Option Description)
    → str_eq d.text "" ≡ true
    → IsFirst ds o
    → IsFirst (d ∷ ds) o
IsFirst-cons d ds none e h = (e, h)
IsFirst-cons d ds (some c) e (before, after, eq, h, n) =
    (d ∷ before, after, ap (λ es. d ∷ es) eq, (e, h), n)

find_description-IsFirst : (ds : List Description) → IsFirst ds (find_description ds)
find_description-IsFirst [] = tt
find_description-IsFirst (d ∷ ds) =
    if-elim (IsFirst (d ∷ ds)) (str_eq d.text "") (find_description ds) (some d)
      (λ e. IsFirst-cons d ds (find_description ds) e (find_description-IsFirst ds))
      (λ e. ([], ds, refl, tt, e))

-- A caption with texts of models has the first description that is not empty, and a classification
-- only where all descriptions are empty.
pub ai_says-IsFirst :
    (meta : Meta)
    → (d : Option Description) × IsFirst meta.image_descriptions d
      × (ai_says true meta ≡ says_description d meta.image_classification)
unfolding ai_says
ai_says-IsFirst meta = (
  find_description meta.image_descriptions,
  find_description-IsFirst meta.image_descriptions,
  refl,
)

-- The rows of the properties that are shown.
abbrev pub is_shown : String × String → Bool
is_shown (k, v) = not (is_hidden k) && not (str_eq v "")

abbrev pub table_rows : List (String × String) → List String
table_rows [] = []
table_rows ((k, v) ∷ properties) =
    ("<tr><th>" +s k +s "</th><td>" +s v +s "</td>") ∷ table_rows properties

add_properties-eq :
    (properties : List (String × String)) (exh : String)
    → add_properties properties exh ≡ exh +s concat (table_rows (select is_shown properties))
add_properties-eq [] exh = sym (string-append-nil exh)
add_properties-eq ((k, v) ∷ properties) exh = elim (Bool-cases (is_hidden k)) [
  | inl e ↦ rw e (add_properties-eq properties exh)
  | inr e ↦ elim (Bool-cases (str_eq v "")) [
    | inl n ↦ rw (e, n) (add_properties-eq properties exh)
    | inr n ↦
        rw (e, n)
          (add_properties-eq properties _
            ∙ string-append_assoc exh ("<tr><th>" +s k +s "</th><td>" +s v +s "</td>")
                (concat (table_rows (select is_shown properties))))
  ]
]

-- The table has the properties with a value, in their order, but for three that are never shown.
pub exif_html-eq :
    (exif : List (String × String))
    → exif_html exif ≡ ("<table>" +s concat (table_rows (select is_shown exif))) +s "</table>"
unfolding exif_html
exif_html-eq exif = ap (λ s. s +s "</table>") (add_properties-eq exif "<table>")
