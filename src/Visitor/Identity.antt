-- ===== src/Visitor/Identity.antt =====
-- A visitor stays the same one.
use Prim.Native.String.{String}
use text.Mathlib.Text.{◌==◌ as str_eq}
use mathlib.Core.Path.{subst}
use photo_blog.Base.{
  ◌≡◌, refl, ap, ◌∙◌, sym, Bool, false, Option, none, some, List, [], ◌∷◌, if_of_true, if_of_false,
  Bool-cases, inl, inr,
}
use photo_blog.Visitor.{VisitorData, Browser, id_or, newcomer, load, set_low_res, set_show_exif}

-- The cookie, the stored entry and the data of the page agree on an id.
pub record IsKnown (s : Browser) (id : String) : Type 0 where
  pub real : str_eq id "" ≡ false
  pub visitor_data : s.visitor_data.id ≡ id
  pub cookie : s.cookie ≡ some id
  pub stored : s.stored ≡ some s.visitor_data

-- What happens to a browser: settings change, the page is loaded again, and the reader deletes the
-- cookie or the stored entry, after which a page is loaded.
pub data Event : Type 0 where
  low_res show_exif : Bool → Event
  reload cookie_lost storage_lost : (random : String) → Event

unfoldable pub step : Browser → Event → Browser
unfolding set_low_res set_show_exif load
step s (low_res b) = set_low_res b s
step s (show_exif b) = set_show_exif b s
step s (reload random) = load random s
step s (cookie_lost random) = load random (record s { cookie = none })
step s (storage_lost random) = load random (record s { stored = none })

unfoldable pub run : Browser → List Event → Browser
unfolding step
run s [] = s
run s (e ∷ events) = run (step s e) events

load-stored :
    (random id : String) (c : Option String) (v : VisitorData)
    → str_eq id "" ≡ false
    → v.id ≡ id
    → IsKnown (load random (record { cookie = c; stored = some v; visitor_data = v })) id
unfolding load
load-stored random id c v real e =
    subst (λ s. IsKnown s id) (sym (if_of_false _ _ (ap (λ i. str_eq i "") e ∙ real)))
      (record { real = real; visitor_data = e; cookie = ap some e; stored = refl })

load-cookie :
    (random id : String) (v : VisitorData)
    → str_eq id "" ≡ false
    → IsKnown (load random (record { cookie = some id; stored = none; visitor_data = v })) id
unfolding load
load-cookie random id v real =
    let same : id_or (some id) random ≡ id = if_of_false _ _ real in
    record { real = real; visitor_data = same; cookie = ap some same; stored = refl }

-- The fields of a known visitor's browser, written out.
known_fields :
    (s : Browser) (id : String)
    → IsKnown s id
    → s ≡ record { cookie = some id; stored = some s.visitor_data; visitor_data = s.visitor_data }
known_fields s id w =
    λ i. record { cookie = w.cookie i; stored = w.stored i; visitor_data = s.visitor_data }

step-IsKnown : (s : Browser) (id : String) (e : Event) → IsKnown s id → IsKnown (step s e) id
unfolding step set_low_res set_show_exif
step-IsKnown s id (low_res b) w = record {
  real = w.real;
  visitor_data = w.visitor_data;
  cookie = w.cookie;
  stored = refl;
}
step-IsKnown s id (show_exif b) w = record {
  real = w.real;
  visitor_data = w.visitor_data;
  cookie = w.cookie;
  stored = refl;
}
step-IsKnown s id (reload random) w =
    subst (λ t. IsKnown (load random t) id) (sym (known_fields s id w))
      (load-stored random id (some id) s.visitor_data w.real w.visitor_data)
step-IsKnown s id (cookie_lost random) w =
    subst (λ (t : Browser). IsKnown (load random (record t { cookie = none })) id)
      (sym (known_fields s id w)) (load-stored random id none s.visitor_data w.real w.visitor_data)
step-IsKnown s id (storage_lost random) w =
    subst (λ (t : Browser). IsKnown (load random (record t { stored = none })) id)
      (sym (known_fields s id w)) (load-cookie random id s.visitor_data w.real)

-- Once the page, the cookie and the stored entry agree on an id that is not empty, they agree on it
-- after any changes of settings, loadings of the page, and losses of the cookie or of the stored
-- entry, as long as a page is loaded after each loss.
pub run-IsKnown :
    (s : Browser) (id : String) (events : List Event) → IsKnown s id → IsKnown (run s events) id
unfolding run
run-IsKnown s id [] w = w
run-IsKnown s id (e ∷ events) w = run-IsKnown (step s e) id events (step-IsKnown s id e w)

id_or-real :
    (random : String) (c : Option String)
    → str_eq random "" ≡ false
    → str_eq (id_or c random) "" ≡ false
id_or-real random none h = h
id_or-real random (some c) h = elim (Bool-cases (str_eq c "")) [
  | inl t ↦ ap (λ i. str_eq i "") (if_of_true _ _ t) ∙ h
  | inr t ↦ ap (λ i. str_eq i "") (if_of_false _ _ t) ∙ t
]

-- Whatever the browser holds, once a page was loaded with a random id that is not empty, the page,
-- the cookie and the stored entry agree on an id that is not empty.
pub load-IsKnown :
    (random : String) (s : Browser)
    → str_eq random "" ≡ false
    → (id : String) × IsKnown (load random s) id
unfolding load
load-IsKnown random s h = on_stored s.stored refl
  where
    new_id : IsKnown (newcomer random s) (id_or s.cookie random)
    new_id = record {
      real = id_or-real random s.cookie h;
      visitor_data = refl;
      cookie = refl;
      stored = refl;
    }

    on_stored : (o : Option VisitorData) → s.stored ≡ o → (id : String) × IsKnown (load random s) id
    on_stored none e = (id_or s.cookie random, rw e new_id)
    on_stored (some v) e = elim (Bool-cases (str_eq v.id "")) [
      | inl t ↦ (id_or s.cookie random, rw (e, t) new_id)
      | inr t ↦
          (v.id, rw (e, t) (record { real = t; visitor_data = refl; cookie = refl; stored = refl }))
    ]
