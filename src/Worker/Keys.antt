-- ===== src/Worker/Keys.antt =====
-- What a request gets, with the key and without.
use Prim.Native.String.{String}
use text.Mathlib.TextEquality.{eq_iff}
use photo_blog.Base.{
  ℕ, ◌≡◌, ◌≢◌, refl, sym, ◌∙◌, ap, ◌⊎◌, inl, inr, Bool, true, false, Option, none, some, List, [],
  Bool-cases, if_of_true, if_of_false,
}
use photo_blog.Base.Int.{ℤ}
use photo_blog.Worker.{Request, Run, ModelReply, Outcome, refused, threw, on_json, has_key, fetch}

has_key-eq : (key : Option String) → has_key key ≡ true → key ≡ some "foo"
has_key-eq none e = cc
has_key-eq (some key) e = ap some ((eq_iff key "foo").0 e)

-- Whatever the models, the clock and the body are: a request without the key is refused with 403,
-- a request with it ends in an exception, and no model is run in both cases.
pub fetch-cases :
    (run : Run → Option ModelReply) (clock : ℕ → ℤ) (is_json : String → Bool)
    (image_of : String → Option (List ℕ)) (request : Request)
    → ((fetch run clock is_json image_of request).runs ≡ [])
      × (((request.authorization ≢ some "foo")
            × ((fetch run clock is_json image_of request).end
                ≡ refused 403 "Sorry, you have supplied an invalid key."))
          ⊎ ((request.authorization ≡ some "foo")
              × ((fetch run clock is_json image_of request).end ≡ threw)))
unfolding fetch
fetch-cases run clock is_json image_of request = elim (Bool-cases (has_key request.authorization)) [
  | inl e ↦ (
    ap (λ (o : Outcome). o.runs) (if_of_true _ _ e) ∙ (with_key (is_json request.body)).0,
    inr (
      has_key-eq request.authorization e,
      ap (λ (o : Outcome). o.end) (if_of_true _ _ e) ∙ (with_key (is_json request.body)).1,
    ),
  )
  | inr e ↦ (
    ap (λ (o : Outcome). o.runs) (if_of_false _ _ e),
    inl (λ q. no_key (sym e ∙ ap has_key q), ap (λ (o : Outcome). o.end) (if_of_false _ _ e)),
  )
]
  where
    no_key : false ≢ true
    no_key e = cc

    with_key :
        (valid : Bool)
        → ((on_json run clock is_json image_of request true valid).runs ≡ [])
          × ((on_json run clock is_json image_of request true valid).end ≡ threw)
    with_key true = (refl, refl)
    with_key false = (refl, refl)
