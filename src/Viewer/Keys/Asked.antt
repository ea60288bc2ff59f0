-- ===== src/Viewer/Keys/Asked.antt =====
-- Which image, and of which album, the key asks to remove.
use Prim.Native.String.{String}
use text.Mathlib.Text.{◌==◌ as str_eq}
use mathlib.Core.Path.{subst}
use photo_blog.Base.{
  ℕ, ◌≡◌, ◌≢◌, refl, sym, ap, ap₂, ◌∙◌, true, false, Option, none, some, List, [], ◌∷◌, if_of_true,
  if_of_false, if-elim, Option-cases, inl, inr,
}
use photo_blog.Base.Int.{ℤ}
use photo_blog.Viewer.Time.{
  CurrentImage, State, start, Event, blur, focus, scroll, close, activate, resize, wider, come_back,
  activated, resized, closed, step, run,
}
use photo_blog.Viewer.Keys.{key_up}

-- What is in the viewer: nothing, the first image since it was opened, or a later one.
pub data Shown : Type 0 where
  nothing : Shown
  first later : (hash : String) → Shown

abbrev pub show : String → Shown → Shown
show hash nothing = first hash
show hash (first h) = later hash
show hash (later h) = later hash

abbrev pub shown : Shown → List (ℤ × Event) → Shown
shown v [] = v
shown v ((now, activate hash w h) ∷ events) = shown (show hash v) events
shown v ((now, close) ∷ events) = shown nothing events
shown v ((now, blur) ∷ events) = shown v events
shown v ((now, focus) ∷ events) = shown v events
shown v ((now, scroll) ∷ events) = shown v events
shown v ((now, resize w h) ∷ events) = shown v events

-- The images have hashes.
abbrev pub Named : List (ℤ × Event) → Type 0
Named [] = Unit
Named ((now, activate hash w h) ∷ events) = (str_eq hash "" ≡ false) × Named events
Named ((now, _) ∷ events) = Named events

true-ne-false : true ≢ false
true-ne-false e = cc

module _ (album_name : String) where
  -- The first image since the viewer was opened is asked for without the album's name.
  abbrev pub asked : Shown → Option (String × String)
  asked nothing = none
  asked (first hash) = some ("", hash)
  asked (later hash) = some (album_name, hash)

  abbrev hash_in : Shown → String
  hash_in nothing = ""
  hash_in (first hash) = hash
  hash_in (later hash) = hash

  abbrev album_in : Shown → String
  album_in nothing = ""
  album_in (first hash) = ""
  album_in (later hash) = album_name

  abbrev IsNamed : Shown → Type 0
  IsNamed nothing = Unit
  IsNamed (first hash) = str_eq hash "" ≡ false
  IsNamed (later hash) = str_eq hash "" ≡ false

  -- `currentImage` has the image that is shown, and the album from the second one on.
  record Matches (v : Shown) (c : CurrentImage) : Type 0 where
    img : c.img ≡ hash_in v
    album : c.album ≡ album_in v
    named : IsNamed v

  come_back-same : (now : ℤ) (s : State) → (come_back now s).current ≡ s.current
  unfolding come_back
  come_back-same now s = elim (Option-cases s.last_blur) [ inl e ↦ rw e | inr (since, e) ↦ rw e ]

  resized-Matches :
      (w h : ℕ) (v : Shown) (s : State)
      → Matches v s.current
      → Matches v (resized album_name w h s).current
  unfolding resized
  resized-Matches w h v s m =
      if-elim (λ (t : State). Matches v t.current) (wider w s.current.w)
        (record s { current = record s.current { mw = some w; mh = some h } }) s
        (λ e. record { img = m.img; album = m.album; named = m.named }) (λ e. m)

  activated-Matches :
      (now : ℤ) (hash : String) (w h : ℕ) (v : Shown) (s : State)
      → str_eq hash "" ≡ false
      → Matches v s.current
      → Matches (show hash v) (activated album_name now hash w h s).current
  unfolding activated
  activated-Matches now hash w h nothing s n m = record {
    img = refl;
    album = if_of_true _ _ (ap (λ i. str_eq i "") m.img) ∙ m.album;
    named = n;
  }
  activated-Matches now hash w h (first k) s n m = record {
    img = refl;
    album = if_of_false _ _ (ap (λ i. str_eq i "") m.img ∙ m.named);
    named = n;
  }
  activated-Matches now hash w h (later k) s n m = record {
    img = refl;
    album = if_of_false _ _ (ap (λ i. str_eq i "") m.img ∙ m.named);
    named = n;
  }

  closed-Matches :
      (now : ℤ) (v : Shown) (s : State)
      → Matches v s.current
      → Matches nothing (closed album_name now s).current
  unfolding closed
  closed-Matches now v s m =
      if-elim (λ (t : State). Matches nothing t.current) (str_eq s.current.img "") s _
        (λ e. already v m e) (λ e. record { img = refl; album = refl; named = tt })
    where
      already :
          (v : Shown)
          → Matches v s.current
          → str_eq s.current.img "" ≡ true
          → Matches nothing s.current
      already nothing m e = m
      already (first k) m e = absurd (true-ne-false (sym e ∙ ap (λ i. str_eq i "") m.img ∙ m.named))
      already (later k) m e = absurd (true-ne-false (sym e ∙ ap (λ i. str_eq i "") m.img ∙ m.named))

  run-Matches :
      (v : Shown) (s : State) (events : List (ℤ × Event))
      → Named events
      → Matches v s.current
      → Matches (shown v events) (run album_name s events).current
  unfolding run step
  run-Matches v s [] n m = m
  run-Matches v s ((now, activate hash w h) ∷ events) (n, ns) m =
      run-Matches (show hash v) (activated album_name now hash w h s) events ns
        (activated-Matches now hash w h v s n m)
  run-Matches v s ((now, close) ∷ events) n m =
      run-Matches nothing (closed album_name now s) events n (closed-Matches now v s m)
  run-Matches v s ((now, blur) ∷ events) n m =
      run-Matches v (record s { last_blur = some now }) events n m
  run-Matches v s ((now, focus) ∷ events) n m =
      run-Matches v (come_back now s) events n (subst (Matches v) (sym (come_back-same now s)) m)
  run-Matches v s ((now, scroll) ∷ events) n m =
      run-Matches v (come_back now s) events n (subst (Matches v) (sym (come_back-same now s)) m)
  run-Matches v s ((now, resize w h) ∷ events) n m =
      run-Matches v (resized album_name w h s) events n (resized-Matches w h v s m)

  key_up-Matches : (v : Shown) (c : CurrentImage) → Matches v c → key_up true "x" c ≡ asked v
  unfolding key_up
  key_up-Matches nothing c m = if_of_true _ _ (ap (λ i. str_eq i "") m.img)
  key_up-Matches (first k) c m =
      if_of_false _ _ (ap (λ i. str_eq i "") m.img ∙ m.named)
      ∙ ap₂ (λ a h. some (a, h)) m.album m.img
  key_up-Matches (later k) c m =
      if_of_false _ _ (ap (λ i. str_eq i "") m.img ∙ m.named)
      ∙ ap₂ (λ a h. some (a, h)) m.album m.img

  -- After any run of the viewer with images that have hashes, Ctrl+X asks to remove the image that
  -- is shown, and nothing while the viewer is closed. The album it is removed from is that of the
  -- page from the second image on; for the first image since the viewer was opened the name of the
  -- album is empty.
  pub key_up-run :
      (events : List (ℤ × Event))
      → Named events
      → key_up true "x" (run album_name start events).current ≡ asked (shown nothing events)
  key_up-run events n =
      key_up-Matches (shown nothing events) (run album_name start events).current
        (run-Matches nothing start events n (record { img = refl; album = refl; named = tt }))
