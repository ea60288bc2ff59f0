-- ===== src/Client/Urls.antt =====
-- The addresses of requests.
pub mod Read
use Prim.Native.String
use Prim.Native.String.{String}
use Prim.Native.Char.{Char}
use text.Mathlib.TextLemmas.{append_assoc, append-nil, nil-append, cons-append}
use photo_blog.Base.{◌≡◌, ap, ◌∙◌, sym, List, [], ◌∷◌}
use photo_blog.Client.{drop_last, add_params, url_with}

-- A query as it is written: nothing without parameters, and else a question mark and the
-- parameters, with an ampersand between two of them.
abbrev pub joined : (encode : String → String) → String → String → List (String × String) → String
joined encode k v [] = String.◌++◌ k (String.◌++◌ "=" (encode v))
joined encode k v ((l, w) ∷ params) =
    let rest = joined encode l w params in
    String.◌++◌ k (String.◌++◌ "=" (String.◌++◌ (encode v) (String.◌++◌ "&" rest)))

abbrev pub query : (encode : String → String) → List (String × String) → String
query encode [] = ""
query encode ((k, v) ∷ params) = String.◌++◌ "?" (joined encode k v params)

drop_last-append : (s : String) (c : Char) → drop_last (String.◌++◌ s (String.◌∷◌ c String.[])) ≡ s
drop_last-append String.[] c = ap drop_last (nil-append (String.◌∷◌ c String.[]))
drop_last-append (String.◌∷◌ a String.[]) c = ap drop_last (
    cons-append a String.[] (String.◌∷◌ c String.[])
    ∙ ap (String.◌∷◌ a) (nil-append (String.◌∷◌ c String.[])))
drop_last-append (String.◌∷◌ a (String.◌∷◌ b s)) c =
    let last = String.◌∷◌ c String.[] in
    ap drop_last (cons-append a (String.◌∷◌ b s) last ∙ ap (String.◌∷◌ a) (cons-append b s last))
    ∙ ap (String.◌∷◌ a)
        (ap drop_last (sym (cons-append b s last)) ∙ drop_last-append (String.◌∷◌ b s) c)

without_mark : (s : String) → drop_last (String.◌++◌ s "?") ≡ s
without_mark s = drop_last-append s _

without_ampersand : (s : String) → drop_last (String.◌++◌ s "&") ≡ s
without_ampersand s = drop_last-append s _

add_params-joined :
    (encode : String → String) (url k v : String) (params : List (String × String))
    → drop_last (add_params encode url ((k, v) ∷ params))
      ≡ String.◌++◌ url (joined encode k v params)
add_params-joined encode url k v [] =
    ap drop_last regrouped
    ∙ without_ampersand (String.◌++◌ url (String.◌++◌ k (String.◌++◌ "=" (encode v))))
  where
    regrouped :
        String.◌++◌ url (String.◌++◌ k (String.◌++◌ "=" (String.◌++◌ (encode v) "&")))
        ≡ String.◌++◌ (String.◌++◌ url (String.◌++◌ k (String.◌++◌ "=" (encode v)))) "&"
    regrouped = simp append_assoc
add_params-joined encode url k v ((l, w) ∷ params) =
    add_params-joined encode
      (String.◌++◌ url (String.◌++◌ k (String.◌++◌ "=" (String.◌++◌ (encode v) "&")))) l w params
    ∙ simp append_assoc

-- The address of a request is its path, followed by the query of the parameters that are set: the
-- character that is cut off at the end is never one of the path's or of a parameter's.
pub url_with-query :
    (encode : String → String) (path : String) (params : List (String × String))
    → url_with encode path params ≡ String.◌++◌ path (query encode params)
unfolding url_with
url_with-query encode path [] = without_mark path ∙ sym (append-nil path)
url_with-query encode path ((k, v) ∷ params) =
    add_params-joined encode (String.◌++◌ path "?") k v params ∙ append_assoc path "?" _
