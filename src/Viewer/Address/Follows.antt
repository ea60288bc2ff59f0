-- ===== src/Viewer/Address/Follows.antt =====
-- When the address is that of the shown image, and how full screen and its style agree.
use Prim.Native.String.{String}
use text.Mathlib.Text.{◌==◌ as str_eq}
use text.Mathlib.TextEquality.{eq_iff}
use mathlib.Core.Path.{subst}
use photo_blog.Base.{
  ℕ, zero, suc, ◌≡◌, ◌≢◌, refl, ◌∙◌, sym, Bool, false, Option, none, some, List, [], ◌∷◌, arith,
  Bool-cases, Option-cases, inl, inr, ap, if_of_true, if_of_false, All,
}
use photo_blog.Viewer.Address.{
  State, own, Event, change, toggle, fullscreen_change, close, destroy, address, hash_of, show_hash,
  sync_current_image_address, sync_by, sync_after_fullscreen, restore_album_address,
  toggle_fullscreen, exit_fullscreen, run_listeners, step, run,
}

module _ (hash_by_idx : ℕ → Option String) (supported : Bool) (album_name base_url : String) where
  -- Outside full screen the address is that of the current slide, full screen is styled, and this
  -- gallery is the last one loaded on the page.
  pub record Follows (s : State) : Type 0 where
    pub current :
        (h : String)
        → s.fullscreen_enabled ≡ false
        → hash_of hash_by_idx s.index ≡ some h
        → s.path ≡ address album_name h
    pub style : s.styled ≡ s.fullscreen_enabled
    pub last : s.registered ≡ own

  show_hash-some :
      (h : String) (s : State)
      → show_hash album_name (some h) s ≡ record s { path = address album_name h }
  unfolding show_hash
  show_hash-some h s = elim (Bool-cases (str_eq s.path (address album_name h))) [
    | inl e ↦
        if_of_true _ _ e ∙ (λ i. record s { path = (eq_iff s.path (address album_name h)).0 e i })
    | inr e ↦ if_of_false _ _ e
  ]

  -- Where the current slide has a hash the address becomes its own; else nothing changes.
  pub sync-some :
      (h : String) (s : State)
      → hash_of hash_by_idx s.index ≡ some h
      → sync_current_image_address hash_by_idx supported album_name base_url s
        ≡ record s { path = address album_name h }
  unfolding sync_current_image_address
  sync-some h s e = ap (λ o. show_hash album_name o s) e ∙ show_hash-some h s

  sync-none :
      (s : State)
      → hash_of hash_by_idx s.index ≡ none
      → sync_current_image_address hash_by_idx supported album_name base_url s ≡ s
  unfolding sync_current_image_address show_hash
  sync-none s e = ap (λ o. show_hash album_name o s) e

  sync-Follows :
      (s : State)
      → s.styled ≡ s.fullscreen_enabled
      → s.registered ≡ own
      → Follows (sync_current_image_address hash_by_idx supported album_name base_url s)
  sync-Follows s e o = elim (Option-cases (hash_of hash_by_idx s.index)) [
    | inl absent ↦
        subst Follows (sym (sync-none s absent))
          (record { current = λ h k q. cc; style = e; last = o })
    | inr (h, there) ↦
        subst Follows (sym (sync-some h s there))
          (record { current = λ j k q. ground arith; style = e; last = o })
  ]

  -- The page calls the function of this gallery, where it is the last one loaded.
  sync_after-own :
      (s : State)
      → s.registered ≡ own
      → sync_after_fullscreen hash_by_idx supported album_name base_url s
        ≡ sync_current_image_address hash_by_idx supported album_name base_url s
  unfolding sync_after_fullscreen
  sync_after-own s o = ap (λ r. sync_by hash_by_idx supported album_name base_url r s) o

  sync_after-Follows :
      (s : State)
      → s.styled ≡ s.fullscreen_enabled
      → s.registered ≡ own
      → Follows (sync_after_fullscreen hash_by_idx supported album_name base_url s)
  sync_after-Follows s e o = subst Follows (sym (sync_after-own s o)) (sync-Follows s e o)

  run_listeners-Follows :
      (n : ℕ) (s : State)
      → Follows s
      → Follows (run_listeners hash_by_idx supported album_name base_url n s)
  unfolding run_listeners
  run_listeners-Follows zero s f = f
  run_listeners-Follows (suc n) s f = elim (Bool-cases s.full_element) [
    | inl e ↦
        subst (λ t. Follows (run_listeners hash_by_idx supported album_name base_url n t))
          (sym (if_of_true _ _ e)) (run_listeners-Follows n s f)
    | inr e ↦
        subst (λ t. Follows (run_listeners hash_by_idx supported album_name base_url n t))
          (sym (if_of_false _ _ e))
          (run_listeners-Follows n
            (sync_after_fullscreen hash_by_idx supported album_name base_url
              (record s { styled = false; fullscreen_enabled = false }))
            (sync_after-Follows (record s { styled = false; fullscreen_enabled = false }) refl
              f.last))
  ]

  step-Follows :
      (s : State) (e : Event)
      → e ≢ close
      → Follows s
      → Follows (step hash_by_idx supported album_name base_url s e)
  unfolding step toggle_fullscreen
  step-Follows s (change i) ne f = elim (Bool-cases s.fullscreen_enabled) [
    | inl e ↦
        subst Follows (sym (if_of_true _ _ e))
          (record { current = λ h k q. cc; style = f.style; last = f.last })
    | inr e ↦
        subst Follows (sym (if_of_false _ _ e))
          (sync-Follows (record s { index = some i }) f.style f.last)
  ]
  step-Follows s toggle ne f = elim (Bool-cases s.fullscreen_enabled) [
    | inl e ↦
        subst Follows (sym (if_of_true _ _ e))
          (sync_after-Follows (record s { fullscreen_enabled = false; styled = false }) refl f.last)
    | inr e ↦
        subst Follows (sym (if_of_false _ _ e))
          (record { current = λ h k q. cc; style = refl; last = f.last })
  ]
  step-Follows s (fullscreen_change full) ne f =
      run_listeners-Follows s.listeners (record s { full_element = full })
        (record { current = f.current; style = f.style; last = f.last })
  step-Follows s close ne f = absurd (ne refl)
  step-Follows s destroy ne f = record { current = λ h k q. cc; style = f.style; last = f.last }

  -- The gallery is the last one loaded on the page, whose function full screen calls. From a state
  -- in which this holds, and until the viewer is closed: whatever slides are shown and however full
  -- screen is entered and left, outside full screen the address is that of the current slide's
  -- image, the style of full screen is set exactly while full screen is enabled, and the page's
  -- function is still this gallery's.
  pub run-Follows :
      (s : State) (events : List Event)
      → All (λ e. e ≢ close) events
      → Follows s
      → Follows (run hash_by_idx supported album_name base_url s events)
  unfolding run
  run-Follows s [] ne f = f
  run-Follows s (e ∷ events) (ne, rest) f =
      run-Follows (step hash_by_idx supported album_name base_url s e) events rest
        (step-Follows s e ne f)

  restore_lem :
      (s : State)
      → restore_album_address hash_by_idx supported album_name base_url s
        ≡ record s { path = base_url }
  unfolding restore_album_address
  restore_lem s = elim (Bool-cases (str_eq s.path base_url)) [
    | inl e ↦ if_of_true _ _ e ∙ (λ i. record s { path = (eq_iff s.path base_url).0 e i })
    | inr e ↦ if_of_false _ _ e
  ]

  -- A state after full screen was left.
  abbrev left : State → State
  left s = record s { fullscreen_enabled = false; styled = false; full_element = false }

  -- After at least one listener ran outside full screen, the address is that of the slide.
  run_listeners-path :
      (n : ℕ) (h : String) (s : State)
      → s.registered ≡ own
      → s.full_element ≡ false
      → hash_of hash_by_idx s.index ≡ some h
      → (run_listeners hash_by_idx supported album_name base_url (suc n) s).path
        ≡ address album_name h
  unfolding run_listeners
  run_listeners-path zero h s o e there =
      ap (λ (t : State). t.path) (if_of_false _ _ e)
      ∙ ap (λ (t : State). t.path)
          (sync_after-own (record s { styled = false; fullscreen_enabled = false }) o
            ∙ sync-some h (record s { styled = false; fullscreen_enabled = false }) there)
  run_listeners-path (suc n) h s o e there =
      ap (λ t. (run_listeners hash_by_idx supported album_name base_url (suc n) t).path)
        (if_of_false _ _ e
          ∙ sync_after-own (record s { styled = false; fullscreen_enabled = false }) o
          ∙ sync-some h (record s { styled = false; fullscreen_enabled = false }) there)
      ∙ run_listeners-path n h
          (record s { styled = false; fullscreen_enabled = false; path = address album_name h }) o e
          there

  -- The gallery is the last one loaded on the page, whose function full screen calls. Closing the
  -- viewer puts the album's address back and leaves full screen. But if full screen had been entered with the button, and the browser reports that it was left before the viewer is
  -- gone, then the address becomes that of the last slide's image again.
  pub close-fullscreen_change :
      (s : State) (h : String) (n : ℕ)
      → s.registered ≡ own
      → s.listeners ≡ suc n
      → hash_of hash_by_idx s.index ≡ some h
      → ((step hash_by_idx supported album_name base_url s close).path ≡ base_url)
        × ((step hash_by_idx supported album_name base_url s close).fullscreen_enabled ≡ false)
        × ((run hash_by_idx supported album_name base_url s
              (close ∷ fullscreen_change false ∷ [])).path
            ≡ address album_name h)
  unfolding run step exit_fullscreen restore_album_address
  close-fullscreen_change s h n o l e = (
    ap (λ (t : State). t.path) (restore_lem s),
    refl,
    ap (λ t. (run_listeners hash_by_idx supported album_name base_url t.listeners (left t)).path)
          (restore_lem s)
        ∙ ap
            (λ k.
              (run_listeners hash_by_idx supported album_name base_url k
                (left (record s { path = base_url }))).path)
            l
        ∙ run_listeners-path n h (left (record s { path = base_url })) o refl e,
  )
