-- ===== src/Viewer/Open/Pattern.antt =====
-- The pattern of a photo's file in a path: a prefix in which the pattern does not begin is left out.
use Prim.Native.Char.{code}
use Prim.Native.String
use Prim.Native.String.{String}
use text.Mathlib.Text.{◌==◌ as str_eq}
use text.Mathlib.TextLemmas.{nil-append, cons-append}
use photo_blog.Base.{
  ◌≡◌, refl, sym, ap, ◌∙◌, false, none, some, ◌==◌, ==_iff, if_of_true, if_of_false,
}
use photo_blog.Viewer.Open.{
  after_prefix, put_before, before_html, take_group, take_match, match_photo,
}

pub after_prefix-append : (p s : String) → after_prefix p (String.◌++◌ p s) ≡ some s
after_prefix-append String.[] s = ap some (nil-append s)
after_prefix-append (String.◌∷◌ c p) s =
    ap (after_prefix (String.◌∷◌ c p)) (cons-append c p s)
    ∙ if_of_true {b = code c == code c} _ _ ((==_iff (code c) (code c)).1 refl)
    ∙ after_prefix-append p s

before_html-append : (h : String) → before_html (String.◌++◌ h ".html") ≡ some h
before_html-append String.[] = ap before_html (nil-append ".html")
before_html-append (String.◌∷◌ c h) =
    ap before_html (cons-append c h ".html")
    ∙ ap (λ o. put_before c o (after_prefix ".html" (String.◌∷◌ c (String.◌++◌ h ".html"))))
        (before_html-append h)

match_photo-some :
    (s rest h : String)
    → after_prefix "photo-" s ≡ some rest
    → before_html rest ≡ some h
    → str_eq h "" ≡ false
    → match_photo s ≡ some h
unfolding match_photo
match_photo-some String.[] rest h e k n = cc
match_photo-some (String.◌∷◌ c s) rest h e k n =
    ap (take_match (match_photo s)) e ∙ ap (take_group (match_photo s)) k ∙ if_of_false _ _ n

-- No "photo-" begins in `pre`, where `rest` follows it.
abbrev pub Clear : (pre rest : String) → Type 0
Clear String.[] rest = Unit
Clear (String.◌∷◌ c s) rest =
    (after_prefix "photo-" (String.◌++◌ (String.◌∷◌ c s) rest) ≡ none) × Clear s rest

match_photo-Clear :
    (pre rest : String) → Clear pre rest → match_photo (String.◌++◌ pre rest) ≡ match_photo rest
unfolding match_photo
match_photo-Clear String.[] rest h = ap match_photo (nil-append rest)
match_photo-Clear (String.◌∷◌ c s) rest (h, k) =
    ap match_photo (cons-append c s rest)
    ∙ ap (take_match (match_photo (String.◌++◌ s rest)))
        (ap (after_prefix "photo-") (sym (cons-append c s rest)) ∙ h)
    ∙ match_photo-Clear s rest k

-- `album ++ "/photo-" ++ name ++ ".html"` in two pieces.
abbrev pub photo_path : (name : String) → String
photo_path name = String.◌++◌ "photo-" (String.◌++◌ name ".html")

match_photo-photo_path :
    (name : String) → str_eq name "" ≡ false → match_photo (photo_path name) ≡ some name
match_photo-photo_path name n =
    match_photo-some (photo_path name) (String.◌++◌ name ".html") name
      (after_prefix-append "photo-" (String.◌++◌ name ".html")) (before_html-append name) n

-- What is read from a path in which "photo-" begins once before a name that is not empty.
pub match_photo-append :
    (pre name : String)
    → Clear pre (photo_path name)
    → str_eq name "" ≡ false
    → match_photo (String.◌++◌ pre (photo_path name)) ≡ some name
match_photo-append pre name h n =
    match_photo-Clear pre (photo_path name) h ∙ match_photo-photo_path name n
