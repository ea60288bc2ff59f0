-- ===== src/Worker/Translations.antt =====
-- Translations of a description, once the image of a request is read.
use Prim.Native.Char.{Char, code}
use Prim.Native.String.{String}
use text.Mathlib.Text.{◌==◌ as str_eq}
use photo_blog.Base.{
  ℕ, ◌≡◌, refl, ap, ◌∙◌, Bool, false, Option, none, some, List, [], ◌∷◌, ◌++◌, ◌==◌, if-elim,
  if_of_true, if_of_false, All,
}
use photo_blog.Base.Int.{ℤ}
use photo_blog.Worker.{
  Request, Run, llava, detr, translate, ModelReply, State, Translation, Entry, translate_model,
  put_translation, and_before, put_reply, on_reply, End, threw, run_models, is_there, llava_model,
  detr_model, split, prepend, translate_all, translated, with_detr, timed, put_entry, put,
}

abbrev Rest : List String → Type 0
Rest words = (word : String) × (more : List String) × (words ≡ word ∷ more)

prepend-cons : (c : Char) (words : List String) → Rest (prepend c words)
prepend-cons c [] = (String.◌∷◌ c "", [], refl)
prepend-cons c (word ∷ words) = (String.◌∷◌ c word, words, refl)

split-cons : (s : String) → Rest (split s)
split-cons String.[] = ("", [], refl)
split-cons (String.◌∷◌ c s) =
    if-elim Rest (code c == b',') ("" ∷ split s) (prepend c (split s)) (λ e. ("", split s, refl))
      (λ e. prepend-cons c (split s))

-- No entry is that of the model for translations.
abbrev Untranslated : List Entry → Type 0
Untranslated = All (λ e. str_eq e.model translate_model ≡ false)

put-Untranslated :
    (e : Entry) (entries : List Entry)
    → str_eq e.model translate_model ≡ false
    → Untranslated entries
    → Untranslated (put e entries)
put-Untranslated e [] h k = (h, tt)
put-Untranslated e (d ∷ entries) h (j, k) =
    if-elim Untranslated (str_eq d.model e.model) (e ∷ entries) (d ∷ put e entries) (λ q. (h, k))
      (λ q. (j, put-Untranslated e entries h k))

put_translation-Untranslated :
    (t : Translation) (entries : List Entry)
    → Untranslated entries
    → put_translation t entries ≡ none
put_translation-Untranslated t [] h = refl
put_translation-Untranslated t (e ∷ entries) (h, k) =
    if_of_false _ _ h ∙ ap (and_before e) (put_translation-Untranslated t entries k)

module _ (run : Run → Option ModelReply) (clock : ℕ → ℤ) (is_json : String → Bool)
    (image_of : String → Option (List ℕ)) where
  on_reply-threw :
      (lang : String) (o : Option ModelReply) (s : State) (next : State → End × State)
      → Untranslated s.response
      → (on_reply run clock is_json image_of lang o s next).0 ≡ threw
  on_reply-threw lang none s next h = refl
  on_reply-threw lang (some r) s next h =
      ap (λ o. (put_reply run clock is_json image_of o s next).0)
        (put_translation-Untranslated _ s.response h)

  translated-threw :
      (d h : String) (s : State)
      → Untranslated s.response
      → str_eq d "" ≡ false
      → (translated run clock is_json image_of (some d) (some h) s).0 ≡ threw
  translated-threw d h s u n =
      let (word, more, e) = split-cons h in
      ap (λ (p : End × State). p.0) (if_of_false _ _ n)
      ∙ ap (λ ws. (translate_all run clock is_json image_of d ws s).0) e
      ∙ on_reply-threw word (run (translate d word))
          (record s { runs = s.runs ++ (translate d word ∷ []) })
          (λ t. translate_all run clock is_json image_of d more t) u

  with_detr-threw :
      (request : Request) (image : List ℕ) (d h : String) (s : State)
      → Untranslated s.response
      → request.x_translate ≡ some h
      → str_eq d "" ≡ false
      → (with_detr run clock is_json image_of request image (some d) s).0 ≡ threw
  with_detr-threw request image d h s without e n =
      if-elim (λ (p : End × State). p.0 ≡ threw) (is_there request.x_detr) _ _
        (λ u.
          then_threw (run (detr image)) (record s { runs = s.runs ++ (detr image ∷ []) }) without)
        (λ u. to_threw s without)
    where
      to_threw :
          (t : State)
          → Untranslated t.response
          → (translated run clock is_json image_of (some d) request.x_translate t).0 ≡ threw
      to_threw t u =
          ap (λ o. (translated run clock is_json image_of (some d) o t).0) e
          ∙ translated-threw d h t u n

      then_threw :
          (o : Option ModelReply) (t : State)
          → Untranslated t.response
          → (put_entry run clock is_json image_of
              (timed run clock is_json image_of detr_model o t)
              (λ d' u. translated run clock is_json image_of (some d) request.x_translate u)).0
            ≡ threw
      then_threw none t u = refl
      then_threw (some r) t u = to_threw _ (put-Untranslated _ t.response refl u)

  -- Once the image of a request is read, in any state whose response has no entry of the model for
  -- translations, such as the first one: where a translation is asked for and the first model
  -- describes the image, the handling ends in an exception, whatever the other models reply, since
  -- the response has no object for the translations when the first of them is put there.
  run_models-threw :
      (request : Request) (image : List ℕ) (a h d : String) (r : ModelReply) (s : State)
      → Untranslated s.response
      → request.x_llava ≡ some a
      → request.x_translate ≡ some h
      → run (llava image) ≡ some r
      → r.description ≡ some d
      → str_eq d "" ≡ false
      → (run_models run clock is_json image_of request image s).0 ≡ threw
  unfolding run_models
  run_models-threw request image a h d r s u l e m w n =
      ap (λ (p : End × State). p.0) (if_of_true _ _ (ap is_there l))
      ∙ ap
          (λ o.
            (put_entry run clock is_json image_of
              (timed run clock is_json image_of llava_model o
                (record s { runs = s.runs ++ (llava image ∷ []) }))
              (λ d' t. with_detr run clock is_json image_of request image d' t)).0)
          m
      ∙ described r.description _ (put-Untranslated _ s.response refl u) w
    where
      described :
          (o : Option String) (t : State)
          → Untranslated t.response
          → o ≡ some d
          → (with_detr run clock is_json image_of request image o t).0 ≡ threw
      described o t v q =
          ap (λ p. (with_detr run clock is_json image_of request image p t).0) q
          ∙ with_detr-threw request image d h t v e n
