-- ===== src/Album/Params/Literal.antt =====
-- The gallery's name inside a text of JavaScript that stands in an attribute of the map's links.
use Prim.Native.Char.{Char, char, code}
use Prim.Native.String.{String}
use text.Mathlib.Text.{◌==◌ as str_eq}
use text.Mathlib.TextLemmas.{nil-append, cons-append}
use mathlib.Core.Path.{subst}
use photo_blog.Base.{
  ℕ, ◌≡◌, refl, sym, ap, ◌∙◌, ◌||◌, Bool, true, false, Option, none, some, ◌==◌, ◌⊎◌, inl, inr,
  if-elim, Bool-cases, if_of_true, if_of_false, if◌then◌else◌, arith,
}
use photo_blog.Results.{◌+s◌}
use photo_blog.Album.Params.{
  Params, Location, Page, backslash, escape_quotes, escape, prepare, or_else,
}

abbrev pub put : Char → Option (String × String) → Option (String × String)
put c none = none
put c (some (s, rest)) = some (String.◌∷◌ c s, rest)

-- The characters that an attribute in double quotes does not hold as they are, or a text of
-- JavaScript does not: the double quote, the ampersand, line breaks and the character 0.
abbrev pub special : ℕ → Bool
special n = n == b'"' || n == b'&' || n == 10 || n == 13 || n == 0

-- No character of the text is one of these.
abbrev pub Safe : String → Type 0
Safe String.[] = Unit
Safe (String.◌∷◌ c s) = (special (code c) ≡ false) × Safe s

abbrev pub prefixed : Char → Option String → Option String
prefixed c none = none
prefixed c (some s) = some (String.◌∷◌ c s)

-- The value of an attribute, from behind its opening double quote up to the closing one; `none`
-- where a character reference may begin or a special character stands, or no quote follows.
abbrev pub read_attribute : String → Option String
read_attribute String.[] = none
read_attribute (String.◌∷◌ c s) =
    let closed = some "" in
    let rest = read_attribute s in
    if code c == b'"' then closed else if special (code c) then none else prefixed c rest

-- What a text in single quotes stands for, and what follows its closing quote; the text is read
-- from behind the opening quote on, and `escaped` says that a backslash stands before it. A line
-- break is an error, and behind a backslash only a backslash or a quote is read.
abbrev pub read_literal : (escaped : Bool) → String → Option (String × String)
read_literal escaped String.[] = none
read_literal true (String.◌∷◌ c s) =
    let rest = read_literal false s in
    if code c == b'\\' || code c == b'\'' then put c rest else none
read_literal false (String.◌∷◌ c s) =
    let closed = some ("", s) in
    let next = read_literal true s in
    let rest = read_literal false s in
    if code c == b'\''
    then closed
    else if code c == b'\\'
    then next
    else if code c == 10 || code c == 13
    then none
    else put c rest

no_quote : (n : ℕ) → (n == b'\\') ≡ true → (n == b'\'') ≡ false
no_quote n e = ground arith

escape-backslash :
    (c : Char) (s : String)
    → (code c == b'\\') ≡ true
    → escape (String.◌∷◌ c s) ≡ String.◌∷◌ c (String.◌∷◌ c (escape s))
unfolding escape
escape-backslash c s e =
    ap escape_quotes (if_of_true _ _ e)
    ∙ if_of_false _ _ (no_quote (code c) e)
    ∙ ap (λ t. String.◌∷◌ c t) (if_of_false _ _ (no_quote (code c) e))

escape-quote :
    (c : Char) (s : String)
    → (code c == b'\\') ≡ false
    → (code c == b'\'') ≡ true
    → escape (String.◌∷◌ c s) ≡ String.◌∷◌ backslash (String.◌∷◌ c (escape s))
unfolding escape
escape-quote c s e q = ap escape_quotes (if_of_false _ _ e) ∙ if_of_true _ _ q

escape-plain :
    (c : Char) (s : String)
    → (code c == b'\\') ≡ false
    → (code c == b'\'') ≡ false
    → escape (String.◌∷◌ c s) ≡ String.◌∷◌ c (escape s)
unfolding escape
escape-plain c s e q = ap escape_quotes (if_of_false _ _ e) ∙ if_of_false _ _ q

either_left : (n : ℕ) → (n == b'\\') ≡ true → (n == b'\\' || n == b'\'') ≡ true
either_left n e = ground arith

either_right : (n : ℕ) → (n == b'\'') ≡ true → (n == b'\\' || n == b'\'') ≡ true
either_right n e = ground arith

pub Safe-escape : (s : String) → Safe s → Safe (escape s)
unfolding escape
Safe-escape String.[] h = tt
Safe-escape (String.◌∷◌ c s) (h, k) = elim (Bool-cases (code c == b'\\')) [
  | inl e ↦ subst Safe (sym (escape-backslash c s e)) (h, (h, Safe-escape s k))
  | inr e ↦ elim (Bool-cases (code c == b'\'')) [
    | inl q ↦ subst Safe (sym (escape-quote c s e q)) (refl, (h, Safe-escape s k))
    | inr q ↦ subst Safe (sym (escape-plain c s e q)) (h, Safe-escape s k)
  ]
]

pub Safe-append : (s t : String) → Safe s → Safe t → Safe (s +s t)
Safe-append String.[] t h k = subst Safe (sym (nil-append t)) k
Safe-append (String.◌∷◌ c s) t (h, j) k =
    subst Safe (sym (cons-append c s t)) (h, Safe-append s t j k)

not_closing : (n : ℕ) → special n ≡ false → (n == b'"') ≡ false
not_closing n h = ground arith

no_break : (n : ℕ) → special n ≡ false → (n == 10 || n == 13) ≡ false
no_break n h = ground arith

-- A text without special characters is the value of the attribute that it stands in.
pub read_attribute-Safe : (s rest : String) → Safe s → read_attribute (s +s "\"" +s rest) ≡ some s
read_attribute-Safe String.[] rest h =
    ap read_attribute (nil-append ("\"" +s rest) ∙ cons-append (char b'"' tt) "" rest)
read_attribute-Safe (String.◌∷◌ c s) rest (h, k) =
    ap read_attribute (cons-append c s ("\"" +s rest))
    ∙ if_of_false _ _ (not_closing (code c) h)
    ∙ if_of_false _ _ h
    ∙ ap (prefixed c) (read_attribute-Safe s rest k)

-- Of a text without special characters, the escaped form with a quote behind it is read as this
-- text, up to that quote.
pub read_literal-escape :
    (s rest : String) → Safe s → read_literal false (escape s +s "'" +s rest) ≡ some (s, rest)
unfolding escape
read_literal-escape String.[] rest h =
    ap (read_literal false) (nil-append ("'" +s rest) ∙ cons-append quote "" rest)
    ∙ ap (λ t. some ("", t)) (nil-append rest)
  where
    quote : Char
    quote = char b'\'' tt
read_literal-escape (String.◌∷◌ c s) rest (h, k) = elim (Bool-cases (code c == b'\\')) [
  | inl e ↦
      ap (λ t. read_literal false (t +s "'" +s rest)) (escape-backslash c s e)
      ∙ ap (read_literal false) (
          cons-append c (String.◌∷◌ c (escape s)) ("'" +s rest)
          ∙ ap (λ t. String.◌∷◌ c t) (cons-append c (escape s) ("'" +s rest)))
      ∙ if_of_false _ _ (no_quote (code c) e)
      ∙ if_of_true _ _ e
      ∙ if_of_true _ _ (either_left (code c) e)
      ∙ ap (put c) (read_literal-escape s rest k)
  | inr e ↦ elim (Bool-cases (code c == b'\'')) [
    | inl q ↦
        ap (λ t. read_literal false (t +s "'" +s rest)) (escape-quote c s e q)
        ∙ ap (read_literal false) (
            cons-append backslash (String.◌∷◌ c (escape s)) ("'" +s rest)
            ∙ ap (λ t. String.◌∷◌ backslash t) (cons-append c (escape s) ("'" +s rest)))
        ∙ if_of_true _ _ (either_right (code c) q)
        ∙ ap (put c) (read_literal-escape s rest k)
    | inr q ↦
        ap (λ t. read_literal false (t +s "'" +s rest)) (escape-plain c s e q)
        ∙ ap (read_literal false) (cons-append c (escape s) ("'" +s rest))
        ∙ if_of_false _ _ q
        ∙ if_of_false _ _ e
        ∙ if_of_false _ _ (no_break (code c) h)
        ∙ ap (put c) (read_literal-escape s rest k)
  ]
]

-- A page with an album is prepared: its gallery has a name, the one given if there is one. Where
-- the name given has no double quotes, ampersands, line breaks or characters 0, it is also read in
-- the map's links, whatever single quotes and backslashes are in it: in an attribute in double
-- quotes its escaped form, with a single quote and harmless text behind it, is read by the browser
-- as it was written, and JavaScript reads it from there, up to that quote, as the gallery's name.
pub prepared-gallery :
    (location : Location) (p : Params) (rest after : String)
    → str_eq p.album_name "" ≡ false
    → Safe p.gallery
    → Safe rest
    → (page : Page) × (prepare location p ≡ some page)
      × (str_eq page.params.gallery "" ≡ false)
      × ((str_eq p.gallery "" ≡ true) ⊎ (page.params.gallery ≡ p.gallery))
      × (read_attribute ((page.gallery_key_js +s "'" +s rest) +s "\"" +s after)
          ≡ some (page.gallery_key_js +s "'" +s rest))
      × (read_literal false (page.gallery_key_js +s "'" +s rest) ≡ some (page.params.gallery, rest))
unfolding prepare
prepared-gallery location p rest after n safe later = (
  _,
  if_of_false _ _ n,
  named p.gallery,
  given p.gallery,
  read_attribute-Safe (key +s "'" +s rest) after (
      Safe-append key ("'" +s rest)
        (Safe-escape (or_else p.gallery "#gallery") (still p.gallery safe))
        (Safe-append "'" rest (refl, tt) later)),
  read_literal-escape (or_else p.gallery "#gallery") rest (still p.gallery safe),
)
  where
    key : String
    key = escape (or_else p.gallery "#gallery")

    named : (g : String) → str_eq (or_else g "#gallery") "" ≡ false
    named g = if-elim (λ s. str_eq s "" ≡ false) (str_eq g "") "#gallery" g (λ e. refl) (λ e. e)

    given : (g : String) → (str_eq g "" ≡ true) ⊎ (or_else g "#gallery" ≡ g)
    given g = elim (Bool-cases (str_eq g "")) [ inl e ↦ inl e | inr e ↦ inr (if_of_false _ _ e) ]

    still : (g : String) → Safe g → Safe (or_else g "#gallery")
    still g h = if-elim Safe (str_eq g "") "#gallery" g (λ e. search) (λ e. h)
