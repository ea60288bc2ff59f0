-- ===== src/Stats/Kept.antt =====
-- What the callers put into the object.
use Prim.Native.String.{String}
use text.Mathlib.Text.{◌==◌ as str_eq}
use text.Mathlib.TextEquality.{eq_iff}
use photo_blog.Base.{
  ◌≡◌, ◌≢◌, sym, ap, ◌∙◌, false, not, ◌&&◌, Option, none, some, List, [], ◌∷◌, All, leb, ◌==◌,
  if-elim, if_of_false, Bool-cases, inl, inr, if◌then◌else◌,
}
use photo_blog.Stats.{Screen, Value, number, words, set, with_referrer, is_portrait, collect_stats}

abbrev pub get : String → List (String × Value) → Option Value
get k [] = none
get k ((j, v) ∷ params) = if str_eq j k then some v else get k params

differ-eq : (j k : String) → j ≢ k → str_eq j k ≡ false
differ-eq j k d = elim (Bool-cases (str_eq j k)) [
  | inl e ↦ absurd (d ((eq_iff j k).0 e))
  | inr e ↦ e
]

get-set :
    (k j : String) (v : Value) (params : List (String × Value))
    → j ≢ k
    → get k (set j v params) ≡ get k params
get-set k j v [] d = if_of_false _ _ (differ-eq j k d)
get-set k j v ((i, w) ∷ params) d =
    if-elim (λ r. get k r ≡ get k ((i, w) ∷ params)) (str_eq i j) ((i, v) ∷ params)
      ((i, w) ∷ set j v params)
      (λ e.
        let other = differ-eq i k (λ q. d (sym ((eq_iff i j).0 e) ∙ q)) in
        if_of_false _ _ other ∙ sym (if_of_false _ _ other))
      (λ e. ap (λ o. if str_eq i k then some w else o) (get-set k j v params d))

-- The properties that `collectStats` sets.
abbrev pub own_keys : List String
own_keys = "sw" ∷ "sh" ∷ "px" ∷ "v" ∷ "ref" ∷ "prt" ∷ []

-- Every other property of the caller's object is sent as the caller has set it.
get-collect_stats :
    (hostname : String → String) (host referrer visitor : String) (px : Value) (s : Screen)
    (params : List (String × Value)) (k : String)
    → All (λ j. j ≢ k) own_keys
    → get k (collect_stats hostname host referrer visitor px s params) ≡ get k params
unfolding collect_stats
get-collect_stats hostname host referrer visitor px s params k
      (sw, (sh, (x, (v, (ref, (prt, u)))))) =
    if-elim (λ r. get k r ≡ get k params)
      (not (s.width == 0) && (leb s.width 576 && is_portrait s.portrait)) _ _
      (λ e. get-set k "prt" (number 1) _ prt ∙ referred) (λ e. referred)
  where
    before : List (String × Value)
    before =
        set "v" (words visitor)
          (set "px" px (set "sh" (number s.height) (set "sw" (number s.width) params)))

    set_before : get k before ≡ get k params
    set_before =
        get-set k "v" (words visitor) _ v
        ∙ get-set k "px" px _ x
        ∙ get-set k "sh" (number s.height) _ sh
        ∙ get-set k "sw" (number s.width) params sw

    referred : get k (with_referrer hostname host referrer visitor px s before) ≡ get k params
    referred =
        if-elim (λ r. get k r ≡ get k params)
          (not (str_eq referrer "") && not (str_eq (hostname referrer) host)) _ _
          (λ e. get-set k "ref" (words referrer) before ref ∙ set_before) (λ e. set_before)
