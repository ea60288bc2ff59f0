-- ===== src/Worker/Models.antt =====
-- What is done with an image once it is read, where no translation is asked for.
use Prim.Native.String.{String}
use mathlib.Core.Path.{subst}
use photo_blog.Base.{ℕ, suc, ◌≡◌, refl, sym, Bool, Option, none, some, List, [], ◌∷◌, ◌++◌, map}
use photo_blog.Base.Int.{ℤ, ◌-ℤ◌}
use photo_blog.Worker.{
  Request, Run, llava, detr, ModelReply, State, Entry, End, answered, start, run_models,
  llava_model, detr_model, translated, timed, ask, put_entry, put,
}

-- The models that a request asks for, and what they are asked.
abbrev models : (x_llava x_detr : Option String) → List String
models none none = []
models none (some b) = detr_model ∷ []
models (some a) none = llava_model ∷ []
models (some a) (some b) = llava_model ∷ detr_model ∷ []

abbrev questions : (image : List ℕ) (x_llava x_detr : Option String) → List Run
questions image none none = []
questions image none (some b) = detr image ∷ []
questions image (some a) none = llava image ∷ []
questions image (some a) (some b) = llava image ∷ detr image ∷ []

module _ (run : Run → Option ModelReply) (clock : ℕ → ℤ) (is_json : String → Bool)
    (image_of : String → Option (List ℕ)) where
  abbrev Answered : (image : List ℕ) (x_llava x_detr : Option String) → End × State → Type 0
  Answered image l x (end, s) =
      (entries : List Entry) × (end ≡ answered entries)
      × (map (λ (e : Entry). e.model) entries ≡ models l x)
      × (s.runs ≡ questions image l x)

  translated-none :
      (o : Option String) (s : State)
      → translated run clock is_json image_of o none s ≡ (answered s.response, s)
  translated-none none s = refl
  translated-none (some d) s = refl

  abbrev entry : (model : String) → ModelReply → State → Entry
  entry model r s = record {
    model = model;
    reply = r;
    elapsed_time_ms = clock (suc s.readings) -ℤ clock s.readings;
    translations = [];
  }

  -- After a model was run and its entry was put.
  abbrev after : (model : String) → Run → ModelReply → State → State
  after model q r s = record {
    response = put (entry model r s) s.response;
    runs = s.runs ++ (q ∷ []);
    readings = suc (suc s.readings);
  }

  asked :
      (P : End × State → Type 0) (model : String) (q : Run) (r : ModelReply) (s : State)
      (next : Option String → State → End × State)
      → run q ≡ some r
      → P (next r.description (after model q r s))
      → P (put_entry run clock is_json image_of (ask run clock is_json image_of model q s) next)
  asked P model q r s next e h =
      subst
        (λ o. P (
          put_entry run clock is_json image_of
            (timed run clock is_json image_of model o (record s { runs = s.runs ++ (q ∷ []) }))
            next))
        (sym e) h

  run_models-Answered :
      (image : List ℕ) (key l x : Option String) (body : String)
      → ((q : Run) → (r : ModelReply) × (run q ≡ some r))
      → Answered image l x (
          run_models run clock is_json image_of
            (record {
              authorization = key;
              x_llava = l;
              x_detr = x;
              x_translate = none;
              body = body;
            })
            image
            (start))
  unfolding run_models
  run_models-Answered image key none none body accepts = ([], refl, refl, refl)
  run_models-Answered image key none (some b) body accepts =
      let (r, e) = accepts (detr image) in
      asked (Answered image none (some b)) detr_model (detr image) r (start) _ e
        (entry detr_model r (start) ∷ [], refl, refl, refl)
  run_models-Answered image key (some a) none body accepts =
      let (r, e) = accepts (llava image) in
      asked (Answered image (some a) none) llava_model (llava image) r (start) _ e (
        subst (Answered image (some a) none) (sym (translated-none r.description _))
          (entry llava_model r (start) ∷ [], refl, refl, refl))
  run_models-Answered image key (some a) (some b) body accepts =
      let (r, e) = accepts (llava image) in
      let (r', e') = accepts (detr image) in
      let s : State = after llava_model (llava image) r (start) in
      let last : State = after detr_model (detr image) r' s in
      asked (Answered image (some a) (some b)) llava_model (llava image) r (start) _ e (
        asked (Answered image (some a) (some b)) detr_model (detr image) r' s
          (λ d t. translated run clock is_json image_of r.description none t) e'
          (subst (Answered image (some a) (some b)) (sym (translated-none r.description last))
            (last.response, refl, refl, refl)))

  -- Where no translation is asked for and every model replies, the reply has one entry for each
  -- model that was asked for, in this order, and these models were run, once each and on the image.
  run_models-answered :
      (request : Request) (image : List ℕ)
      → request.x_translate ≡ none
      → ((q : Run) → (r : ModelReply) × (run q ≡ some r))
      → (entries : List Entry) × ((run_models run clock is_json image_of request image (start)).0
          ≡ answered entries)
        × (map (λ (e : Entry). e.model) entries ≡ models request.x_llava request.x_detr)
        × ((run_models run clock is_json image_of request image (start)).1.runs
            ≡ questions image request.x_llava request.x_detr)
  run_models-answered request image n accepts =
      subst
        (λ o. Answered image request.x_llava request.x_detr (
          run_models run clock is_json image_of (record request { x_translate = o }) image (start)))
        (sym n)
        (run_models-Answered image request.authorization request.x_llava request.x_detr request.body
          accepts)
