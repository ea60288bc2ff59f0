-- ===== src/Viewer/Time/Focus.antt =====
-- What the reported time of a view is: the time since the image was shown, less the time for which
-- the reader was away from the window.
use Prim.Native.String.{String}
use text.Mathlib.Text.{◌==◌ as str_eq}
use text.Mathlib.TextEquality.{eq_iff}
use mathlib.Core.Path.{subst}
use photo_blog.Base.{
  ℕ, ◌≡◌, ◌≢◌, refl, ◌∙◌, ap, ap₂, sym, if_of_false, false, Option, none, some, List, [], ◌∷◌,
  arith,
}
use photo_blog.Base.Int.{ℤ, pos, ◌+ℤ◌, ◌-ℤ◌, ◌≤ℤ◌, ◌<ℤ◌, int_laws, eq_of_parts}
use photo_blog.Viewer.Time.{
  CurrentImage, State, Event, blur, focus, scroll, close, activate, resize, come_back, viewed,
  activated, resized, step, run,
}
use photo_blog.Viewer.Time.Away.{away, Within, away_lower, away_upper}

-- What a view's events leave of the state: the image, its start, and the time away.
record Keeps (s t : State) (gone : ℤ) : Type 0 where
  img : t.current.img ≡ s.current.img
  time : t.current.time ≡ s.current.time
  unfocused : t.unfocused ≡ s.unfocused +ℤ gone

sum_assoc : (a b c : ℤ) → a +ℤ b +ℤ c ≡ a +ℤ (b +ℤ c)
sum_assoc a b c = eq_of_parts _ _ (omega int_laws)

zero_sum : (a : ℤ) → pos 0 +ℤ a ≡ a
zero_sum a = eq_of_parts _ _ (omega int_laws)

Keeps-trans : {s t u : State} {x y : ℤ} → Keeps s t x → Keeps t u y → Keeps s u (x +ℤ y)
Keeps-trans {s} {x} {y} h k = record {
  img = k.img ∙ h.img;
  time = k.time ∙ h.time;
  unfocused = k.unfocused ∙ ap (λ q. q +ℤ y) h.unfocused ∙ sum_assoc s.unfocused x y;
}

Keeps-after_zero : {s t u : State} {y : ℤ} → Keeps s t (pos 0) → Keeps t u y → Keeps s u y
Keeps-after_zero {s} {u} {y} h k = subst (Keeps s u) (zero_sum y) (Keeps-trans h k)

zero_parts : (s : State) → s.unfocused ≡ s.unfocused +ℤ pos 0
zero_parts s = eq_of_parts _ _ (omega int_laws)

view_sum : (r a u g : ℤ) → r -ℤ (a -ℤ u) -ℤ (u +ℤ g) ≡ r -ℤ a -ℤ g
view_sum r a u g = eq_of_parts _ _ (omega int_laws)

is_image : (s : String) → s ≢ "" → str_eq s "" ≡ false
is_image s ne = ground (arith, eq_iff s "")

module _ (album_name : String) where
  come_back-none :
      (now : ℤ) (s : State)
      → s.last_blur ≡ none
      → Keeps s (come_back now s) (pos 0) × ((come_back now s).last_blur ≡ none)
  unfolding come_back
  come_back-none now s e = ground (arith, zero_parts s)

  come_back-some :
      (now b : ℤ) (s : State)
      → s.last_blur ≡ some b
      → Keeps s (come_back now s) (now -ℤ b) × ((come_back now s).last_blur ≡ none)
  unfolding come_back
  come_back-some now b s e = ground arith

  resized-Keeps :
      (w h : ℕ) (s : State)
      → Keeps s (resized album_name w h s) (pos 0)
        × ((resized album_name w h s).last_blur ≡ s.last_blur)
  unfolding resized
  resized-Keeps w h s = ground (arith, zero_parts s)

  run-Keeps :
      (a r : ℤ) (s : State) (since : Option ℤ) (events : List (ℤ × Event))
      → s.last_blur ≡ since
      → Within a r events
      → Keeps s (run album_name s events) (away since events)
  unfolding run away step
  run-Keeps a r s since [] e h = record { img = refl; time = refl; unfocused = zero_parts s }
  run-Keeps a r s since ((now, blur) ∷ events) e (h, k) =
      Keeps-after_zero (record { img = refl; time = refl; unfocused = zero_parts s })
        (run-Keeps now r (record s { last_blur = some now }) (some now) events refl k)
  run-Keeps a r s none ((now, focus) ∷ events) e (h, k) =
      let (keeps, blurred) = come_back-none now s e in
      Keeps-after_zero keeps (run-Keeps now r (come_back now s) none events blurred k)
  run-Keeps a r s none ((now, scroll) ∷ events) e (h, k) =
      let (keeps, blurred) = come_back-none now s e in
      Keeps-after_zero keeps (run-Keeps now r (come_back now s) none events blurred k)
  run-Keeps a r s (some b) ((now, focus) ∷ events) e (h, k) =
      let (keeps, blurred) = come_back-some now b s e in
      Keeps-trans keeps (run-Keeps now r (come_back now s) none events blurred k)
  run-Keeps a r s (some b) ((now, scroll) ∷ events) e (h, k) =
      let (keeps, blurred) = come_back-some now b s e in
      Keeps-trans keeps (run-Keeps now r (come_back now s) none events blurred k)
  run-Keeps a r s since ((now, resize w x) ∷ events) e (h, k) =
      let (keeps, blurred) = resized-Keeps w x s in
      Keeps-after_zero keeps
        (run-Keeps now r (resized album_name w x s) since events (blurred ∙ e) k)
  run-Keeps a r s since ((now, activate hash w x) ∷ events) e h = absurd h
  run-Keeps a r s since ((now, close) ∷ events) e h = absurd h

  -- What is reported at `r` of the view of an image that is shown at `a`.
  abbrev pub report : State → ℤ → String → (w h : ℕ) → List (ℤ × Event) → ℤ → Option CurrentImage
  report s a hash w h events r =
      (step album_name (run album_name (step album_name s (a, activate hash w h)).0 events)
        (r, close)).1

  report-lem :
      (s : State) (since : Option ℤ) (a r : ℤ) (hash : String) (w h : ℕ) (events : List (ℤ × Event))
      → s.last_blur ≡ since
      → hash ≢ ""
      → Within a r events
      → (c : CurrentImage) × (report s a hash w h events r ≡ some c)
        × (c.img ≡ hash)
        × (c.album ≡ album_name)
        × (c.time ≡ r -ℤ a -ℤ away since events)
  unfolding step viewed activated
  report-lem s since a r hash w h events e ne k =
      let t : State = run album_name (activated album_name a hash w h s) events in
      let keeps : Keeps (activated album_name a hash w h s) t (away since events) =
        run-Keeps a r (activated album_name a hash w h s) since events e k in
      (
        viewed album_name r t,
        if_of_false _ _ (is_image t.current.img (λ q. ne (sym keeps.img ∙ q))),
        keeps.img,
        refl,
        ap₂ (λ x y. r -ℤ x -ℤ y) keeps.time keeps.unfocused
            ∙ view_sum r a s.unfocused (away since events),
      )

  -- An image is shown at the time `a` while the reader is at the window, and the viewer is closed
  -- at `r`; in between the reader may leave the window and come back, scroll, and resize the image,
  -- in the order of their times. Then one view of this image in this album is reported, and its time
  -- is `r - a` less the time away from the window: at least 0 and at most `r - a`.
  pub report_focused :
      (s : State) (a r : ℤ) (hash : String) (w h : ℕ) (events : List (ℤ × Event))
      → s.last_blur ≡ none
      → hash ≢ ""
      → Within a r events
      → (c : CurrentImage) × (report s a hash w h events r ≡ some c)
        × (c.img ≡ hash)
        × (c.album ≡ album_name)
        × (c.time ≡ r -ℤ a -ℤ away none events)
        × (pos 0 ≤ℤ c.time)
        × (c.time ≤ℤ (r -ℤ a))
  report_focused s a r hash w h events e ne k =
      let (c, reported, img, album, time) = report-lem s none a r hash w h events e ne k in
      let low = away_lower a r none events k (λ b q. cc) in
      let high = away_upper a r none events k (λ b q. cc) in
      (
        c,
        reported,
        img,
        album,
        time,
        subst (pos 0 ≤ℤ◌) (sym time) (omega (int_laws, low, high)),
        subst (λ x. x ≤ℤ (r -ℤ a)) (sym time) (omega (int_laws, low, high)),
      )

  -- Where the reader left the window at `b`, an image is shown at `a`, the reader comes back at `f`
  -- and closes the viewer at `r`: if the reader was away from the window for longer than the image
  -- was shown, the time that is reported for the image is negative.
  pub report_away :
      (s : State) (b a f r : ℤ) (hash : String) (w h : ℕ)
      → s.last_blur ≡ some b
      → hash ≢ ""
      → a ≤ℤ f
      → f ≤ℤ r
      → (r -ℤ a) <ℤ (f -ℤ b)
      → (c : CurrentImage) × (report s a hash w h ((f, focus) ∷ []) r ≡ some c)
        × (c.img ≡ hash)
        × (c.time <ℤ pos 0)
  unfolding away
  report_away s b a f r hash w h e ne k l m =
      let (c, reported, img, album, time) =
        report-lem s (some b) a r hash w h ((f, focus) ∷ []) e ne (k, l) in
      (c, reported, img, subst (λ x. x <ℤ pos 0) (sym time) (omega int_laws))
