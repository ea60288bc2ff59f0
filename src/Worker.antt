-- ===== src/Worker.antt =====
-- The worker that runs models on an image: internal/infra/image/cloudflare/worker.js.
pub mod Models
pub mod Translations
pub mod Keys
mod Tests
use Prim.Native.Char.{Char, code}
use Prim.Native.String
use Prim.Native.String.{String}
use text.Mathlib.Text.{◌==◌ as str_eq}
use photo_blog.Base.{
  ℕ, zero, suc, Bool, true, false, Option, none, some, List, [], ◌∷◌, ◌++◌, ◌==◌, if◌then◌else◌,
}
use photo_blog.Base.Int.{ℤ, ◌-ℤ◌}

-- The headers that are read, `none` where one is missing, and the text of the body.
pub record Request : Type 0 where
  pub authorization : Option String
  pub x_llava : Option String
  pub x_detr : Option String
  pub x_translate : Option String
  pub body : String

-- The arguments of `env.AI.run`.
pub data Run : Type 0 where
  llava : (image : List ℕ) → Run
  detr : (image : List ℕ) → Run
  translate : (text target_lang : String) → Run

-- The reply of a model, and what the worker puts into its own: the reply and the time it took.
pub record ModelReply : Type 0 where
  pub description : Option String
  pub text : String

-- What is put into an entry under a language.
pub record Translation : Type 0 where
  pub lang : String
  pub reply : ModelReply
  pub elapsed_time_ms : ℤ

pub record Entry : Type 0 where
  pub model : String
  pub reply : ModelReply
  pub elapsed_time_ms : ℤ
  pub translations : List Translation

-- `response` is an object whose keys are models, `runs` is what the models were asked so far,
-- `readings` how often the clock was read.
pub record State : Type 0 where
  pub response : List Entry
  pub runs : List Run
  pub readings : ℕ

-- How a request ends: a text with a status, `Response.json`, or an exception, which the platform
-- answers.
pub data End : Type 0 where
  refused : (status : ℕ) (text : String) → End
  answered : List Entry → End
  threw : End

pub record Outcome : Type 0 where
  pub end : End
  pub runs : List Run

abbrev pub llava_model : String
llava_model = "@cf/llava-hf/llava-1.5-7b-hf"

abbrev pub detr_model : String
detr_model = "@cf/facebook/detr-resnet-50"

abbrev pub translate_model : String
translate_model = "@cf/meta/m2m100-1.2b"

abbrev pub is_there {ℓ} : {A : Type ℓ} → Option A → Bool
is_there none = false
is_there (some a) = true

-- `split(",")`
abbrev pub prepend : Char → List String → List String
prepend c [] = (String.◌∷◌ c "") ∷ []
prepend c (word ∷ words) = (String.◌∷◌ c word) ∷ words

abbrev pub split : String → List String
split String.[] = "" ∷ []
split (String.◌∷◌ c s) = if code c == b',' then "" ∷ split s else prepend c (split s)

abbrev pub has_key : Option String → Bool
has_key none = false
has_key (some key) = str_eq key "foo"

-- An entry under a model, at the end unless the model is there.
abbrev pub put : Entry → List Entry → List Entry
put e [] = e ∷ []
put e (d ∷ entries) = if str_eq d.model e.model then e ∷ entries else d ∷ put e entries

abbrev pub put_lang : Translation → List Translation → List Translation
put_lang t [] = t ∷ []
put_lang t (u ∷ translations) =
    if str_eq u.lang t.lang then t ∷ translations else u ∷ put_lang t translations

abbrev pub and_before : Entry → Option (List Entry) → Option (List Entry)
and_before e none = none
and_before e (some entries) = some (e ∷ entries)

-- `response[translateModel][lang] = …`: `none` where `response[translateModel]` is undefined.
abbrev pub put_translation : Translation → List Entry → Option (List Entry)
put_translation t [] = none
put_translation t (e ∷ entries) =
    let rest = put_translation t entries in
    if str_eq e.model translate_model
    then some (record e { translations = put_lang t e.translations } ∷ entries)
    else and_before e rest

abbrev pub start : State
start = record { response = []; runs = []; readings = 0 }

abbrev pub outcome : End × State → Outcome
outcome (end, s) = record { end = end; runs = s.runs }

-- `run` is `env.AI.run`, `none` where it rejects; `clock` the milliseconds that the clock shows when
-- it is read for the n-th time; `is_json` says whether a text is JSON, and `image_of` is the image
-- in form data, `none` where the text is no form data or has no file of this name.
module _ (run : Run → Option ModelReply) (clock : ℕ → ℤ) (is_json : String → Bool)
    (image_of : String → Option (List ℕ)) where
  -- The reply of a model under its name, or `none` where the model rejects.
  abbrev pub timed : (model : String) → Option ModelReply → State → Option Entry × State
  timed model none s = (none, record s { readings = suc s.readings })
  timed model (some reply) s = (
    some (record {
      model = model;
      reply = reply;
      elapsed_time_ms = clock (suc s.readings) -ℤ clock s.readings;
      translations = [];
    }),
    record s { readings = suc (suc s.readings) },
  )

  abbrev pub ask : (model : String) → Run → State → Option Entry × State
  ask model question s = timed model (run question) (record s { runs = s.runs ++ (question ∷ []) })

  -- The reply of the model for translations is put into the response, and what follows is done; the
  -- clock was read once before.
  abbrev pub put_reply : Option (List Entry) → State → (State → End × State) → End × State
  put_reply none s next = (threw, record s { readings = suc s.readings })
  put_reply (some entries) s next =
      next (record s { response = entries; readings = suc (suc s.readings) })

  abbrev pub on_reply :
      (lang : String) → Option ModelReply → State → (State → End × State) → End × State
  on_reply lang none s next = (threw, record s { readings = suc s.readings })
  on_reply lang (some reply) s next =
      let t : Translation = record {
        lang = lang;
        reply = reply;
        elapsed_time_ms = clock (suc s.readings) -ℤ clock s.readings;
      } in
      put_reply (put_translation t s.response) s next

  -- `for (var l in languages)`; the model is run before its reply is put anywhere.
  abbrev pub translate_all : (description : String) → List String → State → End × State
  translate_all description [] s = (answered s.response, s)
  translate_all description (lang ∷ languages) s =
      let question = translate description lang in
      on_reply lang (run question) (record s { runs = s.runs ++ (question ∷ []) })
        (λ t. translate_all description languages t)

  abbrev pub translated : Option String → (header : Option String) → State → End × State
  translated none header s = (answered s.response, s)
  translated (some description) none s = (answered s.response, s)
  translated (some description) (some header) s =
      if str_eq description ""
      then (answered s.response, s)
      else translate_all description (split header) s

  -- A model's entry is put into the response, and what follows is done.
  abbrev pub put_entry : Option Entry × State → (Option String → State → End × State) → End × State
  put_entry (none, s) next = (threw, s)
  put_entry (some e, s) next = next e.reply.description (record s { response = put e s.response })

  abbrev pub with_detr : (request : Request) (image : List ℕ) → Option String → State → End × State
  with_detr request image description s =
      if is_there request.x_detr
      then put_entry (ask detr_model (detr image) s)
          (λ d t. translated description request.x_translate t)
      else translated description request.x_translate s

  -- What is done with an image.
  unfoldable pub run_models : (request : Request) (image : List ℕ) → State → End × State
  run_models request image s =
      if is_there request.x_llava
      then put_entry (ask llava_model (llava image) s) (λ d t. with_detr request image d t)
      else with_detr request image none s

  -- The body of a request is read once: a second reading rejects.
  abbrev pub form_data : (body_used : Bool) → String → Option (List ℕ)
  form_data true body = none
  form_data false body = image_of body

  abbrev pub on_image : Request → Option (List ℕ) → Outcome
  on_image request none = record { end = threw; runs = [] }
  on_image request (some image) = outcome (run_models request image start)

  abbrev pub on_json : Request → (body_used valid : Bool) → Outcome
  on_json request body_used false = record { end = threw; runs = [] }
  on_json request body_used true = on_image request (form_data body_used request.body)

  unfoldable pub fetch : Request → Outcome
  unfolding run_models
  fetch request =
      if has_key request.authorization
      then on_json request true (is_json request.body)
      else record { end = refused 403 "Sorry, you have supplied an invalid key."; runs = [] }
