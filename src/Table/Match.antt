-- ===== src/Table/Match.antt =====
-- Whether a cell matches a search: `isSearchMatch` of the widget `fancyTable` in
-- resources/static/db/script.js and resources/static/stats/script.js.
pub mod Invalid
mod Tests
use Prim.Native.Char.{Char, code}
use Prim.Native.String
use Prim.Native.String.{String}
use text.Mathlib.Text.{◌==◌ as str_eq}
use photo_blog.Base.{
  ℕ, Bool, true, false, not, ◌&&◌, ◌||◌, Option, none, some, List, [], ◌∷◌, ◌==◌, if◌then◌else◌,
}

-- The option `exactMatch`: false, true or "auto".
pub data ExactMatch : Type 0 where
  never always auto : ExactMatch

-- What the language gives: `toUpperCase`, `replace(/\s+/g, "")`, `new RegExp(…).test`, where
-- `none` is a pattern that is refused, and `a * 1 < b * 1`, `a * 1 <= b * 1` for two texts.
pub record Texts : Type 0 where
  pub upper : String → String
  pub squeeze : String → String
  pub reg_exp : String → Option (String → Bool)
  pub below : String → String → Bool
  pub at_most : String → String → Bool

abbrev pub is_char : Char → ℕ → Bool
is_char c n = code c == n

-- The text without its last character.
abbrev pub without_last : String → String
without_last String.[] = ""
without_last (String.◌∷◌ c String.[]) = ""
without_last (String.◌∷◌ c (String.◌∷◌ d s)) = String.◌∷◌ c (without_last (String.◌∷◌ d s))

abbrev pub ends_with_quote : String → Bool
ends_with_quote String.[] = false
ends_with_quote (String.◌∷◌ c String.[]) = is_char c b'"'
ends_with_quote (String.◌∷◌ c (String.◌∷◌ d s)) = ends_with_quote (String.◌∷◌ d s)

-- `/^".*?"$/` for a text of one line, and then what `substring(1, length - 1)` gives.
abbrev pub quoted : String → Option String
quoted String.[] = none
quoted (String.◌∷◌ c s) =
    if is_char c b'"' && ends_with_quote s then some (without_last s) else none

pub data Comp : Type 0 where
  gt lt ge le : Comp

-- `/^[<>]=?/`, and what follows.
abbrev pub after_comp : (strict loose : Comp) → String → Comp × String
after_comp strict loose String.[] = (strict, "")
after_comp strict loose (String.◌∷◌ c s) =
    if is_char c b'=' then (loose, s) else (strict, String.◌∷◌ c s)

abbrev pub comparison : String → Option (Comp × String)
comparison String.[] = none
comparison (String.◌∷◌ c s) =
    if is_char c b'>'
    then some (after_comp gt ge s)
    else if is_char c b'<'
    then some (after_comp lt le s)
    else none

-- A separator `..` or `-` at the start, and what follows.
abbrev pub after_separator : String → Option String
after_separator String.[] = none
after_separator (String.◌∷◌ c String.[]) = if is_char c b'-' then some "" else none
after_separator (String.◌∷◌ c (String.◌∷◌ d s)) =
    if is_char c b'-'
    then some (String.◌∷◌ d s)
    else if is_char c b'.' && is_char d b'.'
    then some s
    else none

abbrev pub is_text : Option String → Bool
is_text none = false
is_text (some s) = not (str_eq s "")

-- A separator that something follows.
abbrev pub separates : String → Bool
separates String.[] = false
separates (String.◌∷◌ c s) = is_text (after_separator (String.◌∷◌ c s)) || separates s

-- `/^.+(\.\.|-).+$/`
abbrev pub is_range : String → Bool
is_range String.[] = false
is_range (String.◌∷◌ c s) = separates s

-- The first piece of `split(/\.\.|-/)`, and what stands behind its separator.
abbrev pub first_piece : String → String × String
first_piece String.[] = ("", "")
first_piece (String.◌∷◌ c s) =
    let rest = first_piece s in
    elim (after_separator (String.◌∷◌ c s)) [
      | some behind ↦ ("", behind)
      | none ↦ (String.◌∷◌ c rest.0, rest.1)
    ]

module _ (t : Texts) (match_case : Bool) (exact_match : ExactMatch) where
  abbrev pub compare_numbers : Comp → String → String → Bool
  compare_numbers gt d v = t.below v d
  compare_numbers lt d v = t.below d v
  compare_numbers ge d v = t.at_most v d
  compare_numbers le d v = t.at_most d v

  -- The last statement: a pattern that is refused matches nothing.
  abbrev pub by_pattern : ExactMatch → (d search : String) → Bool
  by_pattern always d search = str_eq d search
  by_pattern _ d search = elim (t.reg_exp search) [ none ↦ false | some test ↦ test d ]

  -- The three ways of "auto", where one applies.
  abbrev pub by_auto : (d search : String) → Bool
  by_auto d search =
      let compact = t.squeeze search in
      let arr = first_piece compact in
      elim (quoted search) [
        | some inner ↦ str_eq d inner
        | none ↦ elim (comparison compact) [
          | some (comp, v) ↦ compare_numbers comp d v
          | none ↦
              if is_range compact
              then t.at_most arr.0 d && t.at_most d (first_piece arr.1).0
              else by_pattern auto d search
        ]
      ]

  abbrev pub search_match : ExactMatch → (d search : String) → Bool
  search_match auto d search = by_auto d search
  search_match never d search = by_pattern never d search
  search_match always d search = by_pattern always d search

  unfoldable pub is_search_match : (html search : String) → Bool
  is_search_match html search =
      if match_case
      then search_match exact_match html search
      else search_match exact_match (t.upper html) (t.upper search)
