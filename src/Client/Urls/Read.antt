-- ===== src/Client/Urls/Read.antt =====
-- What a server reads of the address of a request.
use Prim.Native.String
use Prim.Native.String.{String}
use Prim.Native.Char.{Char, code, char}
use text.Mathlib.TextLemmas.{append_assoc, append-nil, nil-append, cons-append}
use mathlib.Core.Path.{subst}
use photo_blog.Base.{
  ℕ, ◌≡◌, refl, sym, ap, ap₂, ◌∙◌, false, Option, none, some, List, [], ◌∷◌, map, All, ◌==◌,
  if_of_false, if◌then◌else◌,
}
use photo_blog.Client.{url_with}
use photo_blog.Client.Urls.{joined, url_with-query}

-- The text behind the first question mark.
abbrev pub after_mark : String → Option String
after_mark String.[] = none
after_mark (String.◌∷◌ c s) = let rest = after_mark s in if code c == b'?' then some s else rest

abbrev pub into_first : Char → List String → List String
into_first c [] = String.◌∷◌ c String.[] ∷ []
into_first c (x ∷ xs) = String.◌∷◌ c x ∷ xs

-- The texts between ampersands.
abbrev pub pieces : String → List String
pieces String.[] = String.[] ∷ []
pieces (String.◌∷◌ c s) =
    let rest = pieces s in if code c == b'&' then String.[] ∷ rest else into_first c rest

abbrev pub key_before : Char → String × String → String × String
key_before c (k, v) = (String.◌∷◌ c k, v)

-- A key and what follows the first sign of equality.
abbrev pub cut : String → String × String
cut String.[] = (String.[], String.[])
cut (String.◌∷◌ c s) =
    let rest = cut s in if code c == b'=' then (String.[], s) else key_before c rest

abbrev pub read_piece : (decode : String → String) → String × String → String × String
read_piece decode (k, v) = (k, decode v)

abbrev pub read_after : (decode : String → String) → Option String → List (String × String)
read_after decode none = []
read_after decode (some q) = map (λ p. read_piece decode (cut p)) (pieces q)

-- The parameters in an address, in their order.
abbrev pub read_query : (decode : String → String) → String → List (String × String)
read_query decode url = read_after decode (after_mark url)

abbrev pub Lacks : ℕ → String → Type 0
Lacks n String.[] = Unit
Lacks n (String.◌∷◌ c s) = ((code c == n) ≡ false) × Lacks n s

Lacks-append : (n : ℕ) (s t : String) → Lacks n s → Lacks n t → Lacks n (String.◌++◌ s t)
Lacks-append n String.[] t h k = subst (Lacks n) (sym (nil-append t)) k
Lacks-append n (String.◌∷◌ c s) t (m, h) k =
    subst (Lacks n) (sym (cons-append c s t)) (m, Lacks-append n s t h k)

after_mark-none : (s : String) → Lacks b'?' s → after_mark s ≡ none
after_mark-none String.[] h = refl
after_mark-none (String.◌∷◌ c s) (n, h) = if_of_false _ _ n ∙ after_mark-none s h

after_mark-append :
    (s q : String) → Lacks b'?' s → after_mark (String.◌++◌ s (String.◌++◌ "?" q)) ≡ some q
after_mark-append String.[] q h =
    ap after_mark (nil-append (String.◌++◌ "?" q) ∙ cons-append (char b'?' tt) String.[] q)
    ∙ ap some (nil-append q)
after_mark-append (String.◌∷◌ c s) q (n, h) =
    ap after_mark (cons-append c s (String.◌++◌ "?" q))
    ∙ if_of_false _ _ n
    ∙ after_mark-append s q h

pieces-one : (s : String) → Lacks b'&' s → pieces s ≡ s ∷ []
pieces-one String.[] h = refl
pieces-one (String.◌∷◌ c s) (n, h) = if_of_false _ _ n ∙ ap (into_first c) (pieces-one s h)

pieces-append :
    (s t : String) → Lacks b'&' s → pieces (String.◌++◌ s (String.◌++◌ "&" t)) ≡ s ∷ pieces t
pieces-append String.[] t h =
    ap pieces (nil-append (String.◌++◌ "&" t) ∙ cons-append (char b'&' tt) String.[] t)
    ∙ ap (λ u. String.[] ∷ pieces u) (nil-append t)
pieces-append (String.◌∷◌ c s) t (n, h) =
    ap pieces (cons-append c s (String.◌++◌ "&" t))
    ∙ if_of_false _ _ n
    ∙ ap (into_first c) (pieces-append s t h)

cut-append : (k v : String) → Lacks b'=' k → cut (String.◌++◌ k (String.◌++◌ "=" v)) ≡ (k, v)
cut-append String.[] v h =
    ap cut (nil-append (String.◌++◌ "=" v) ∙ cons-append (char b'=' tt) String.[] v)
    ∙ ap (λ u. (String.[], u)) (nil-append v)
cut-append (String.◌∷◌ c k) v (n, h) =
    ap cut (cons-append c k (String.◌++◌ "=" v))
    ∙ if_of_false _ _ n
    ∙ ap (key_before c) (cut-append k v h)

-- What a server reads back: a key without ampersands and signs of equality, and a value that is
-- encoded without ampersands and decoded to itself.
abbrev pub Readable : (encode decode : String → String) → String × String → Type 0
Readable encode decode (k, v) =
    Lacks b'&' k × Lacks b'=' k × Lacks b'&' (encode v) × (decode (encode v) ≡ v)

pair-Lacks :
    (encode : String → String) (k v : String)
    → Lacks b'&' k
    → Lacks b'&' (encode v)
    → Lacks b'&' (String.◌++◌ k (String.◌++◌ "=" (encode v)))
pair-Lacks encode k v h e =
    Lacks-append b'&' k (String.◌++◌ "=" (encode v)) h
      (Lacks-append b'&' "=" (encode v) (refl, tt) e)

read_pair :
    (encode decode : String → String) (k v : String)
    → Lacks b'=' k
    → decode (encode v) ≡ v
    → read_piece decode (cut (String.◌++◌ k (String.◌++◌ "=" (encode v)))) ≡ (k, v)
read_pair encode decode k v h e =
    ap (read_piece decode) (cut-append k (encode v) h) ∙ ap (λ w. (k, w)) e

read_joined :
    (encode decode : String → String) (k v : String) (params : List (String × String))
    → All (Readable encode decode) ((k, v) ∷ params)
    → map (λ p. read_piece decode (cut p)) (pieces (joined encode k v params)) ≡ (k, v) ∷ params
read_joined encode decode k v [] ((h, i, e, d), all) =
    ap (map (λ p. read_piece decode (cut p)))
      (pieces-one (String.◌++◌ k (String.◌++◌ "=" (encode v))) (pair-Lacks encode k v h e))
    ∙ ap (λ x. x ∷ []) (read_pair encode decode k v i d)
read_joined encode decode k v ((l, w) ∷ params) ((h, i, e, d), all) =
    ap (map (λ p. read_piece decode (cut p))) (
      ap pieces regrouped
      ∙ pieces-append (String.◌++◌ k (String.◌++◌ "=" (encode v))) (joined encode l w params)
          (pair-Lacks encode k v h e))
    ∙ ap₂ (λ x xs. x ∷ xs) (read_pair encode decode k v i d)
        (read_joined encode decode l w params all)
  where
    regrouped :
        joined encode k v ((l, w) ∷ params)
        ≡ String.◌++◌
            (String.◌++◌ k (String.◌++◌ "=" (encode v)))
            (String.◌++◌ "&" (joined encode l w params))
    regrouped = simp append_assoc

-- The address of a request is read back: what stands behind its first question mark, cut at the
-- ampersands, each part cut at its first sign of equality and decoded, are the parameters that were
-- set, in their order, and no others, where no question mark is in the path, keys have no
-- ampersands and signs of equality, and values are encoded without ampersands and decoded to
-- themselves.
pub read_query-url_with :
    (encode decode : String → String) (path : String) (params : List (String × String))
    → Lacks b'?' path
    → All (Readable encode decode) params
    → read_query decode (url_with encode path params) ≡ params
read_query-url_with encode decode path [] h all =
    ap (read_after decode)
      (ap after_mark (url_with-query encode path [] ∙ append-nil path) ∙ after_mark-none path h)
read_query-url_with encode decode path ((k, v) ∷ params) h all =
    ap (read_after decode) (
      ap after_mark (url_with-query encode path ((k, v) ∷ params))
      ∙ after_mark-append path (joined encode k v params) h)
    ∙ read_joined encode decode k v params all
