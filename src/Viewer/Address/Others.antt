-- ===== src/Viewer/Address/Others.antt =====
-- The address on a page with several galleries.
use Prim.Native.String.{String}
use mathlib.Core.Path.{subst}
use photo_blog.Base.{
  ℕ, zero, suc, ◌≡◌, refl, ap, ◌∙◌, sym, Bool, true, false, Option, none, some, List, [], ◌∷◌, ◌++◌,
  map, ◌⊎◌, inl, inr, if_of_true, if_of_false,
}
use photo_blog.Viewer.Address.{
  State, other, Event, change, toggle, fullscreen_change, show_hash, sync_by, sync_after_fullscreen,
  toggle_fullscreen, run_listeners, step, run,
}

-- Full screen was left, and the address and the slide are those of an earlier state.
abbrev pub IsStale : (before after : State) → Type 0
IsStale s t = (t.path ≡ s.path) × (t.fullscreen_enabled ≡ false) × (t.index ≡ s.index)

module _ (hash_by_idx : ℕ → Option String) (supported : Bool) (album_name base_url : String)
    (name : String) where
  -- Another gallery was loaded last, and its viewer is not open.
  sync_after-other :
      (s : State)
      → s.registered ≡ other name none
      → sync_after_fullscreen hash_by_idx supported album_name base_url s ≡ s
  unfolding sync_after_fullscreen show_hash
  sync_after-other s o = ap (λ r. sync_by hash_by_idx supported album_name base_url r s) o

  run_listeners-IsStale :
      (n : ℕ) (s : State)
      → s.registered ≡ other name none
      → s.full_element ≡ false
      → s.fullscreen_enabled ≡ false
      → IsStale s (run_listeners hash_by_idx supported album_name base_url n s)
  unfolding run_listeners
  run_listeners-IsStale zero s o w e = (refl, e, refl)
  run_listeners-IsStale (suc n) s o w e =
      let windowed : State = record s { styled = false; fullscreen_enabled = false } in
      subst (λ t. IsStale s (run_listeners hash_by_idx supported album_name base_url n t))
        (sym (if_of_false _ _ w ∙ sync_after-other windowed o))
        (run_listeners-IsStale n windowed o w refl)

  leave-IsStale :
      (n : ℕ) (s : State) (leave : Event)
      → s.registered ≡ other name none
      → s.fullscreen_enabled ≡ true
      → s.listeners ≡ suc n
      → (leave ≡ toggle) ⊎ (leave ≡ fullscreen_change false)
      → IsStale s (step hash_by_idx supported album_name base_url s leave)
  unfolding step toggle_fullscreen run_listeners
  leave-IsStale n s leave o e l (inl q) =
      let windowed : State = record s { fullscreen_enabled = false; styled = false } in
      subst (λ k. IsStale s (step hash_by_idx supported album_name base_url s k)) (sym q)
        (subst (IsStale s) (sym (if_of_true _ _ e ∙ sync_after-other windowed o))
          (refl, refl, refl))
  leave-IsStale n s leave o e l (inr q) =
      let left : State = record s { full_element = false } in
      let windowed : State = record left { styled = false; fullscreen_enabled = false } in
      subst (λ k. IsStale s (step hash_by_idx supported album_name base_url s k)) (sym q)
        (subst (λ k. IsStale s (run_listeners hash_by_idx supported album_name base_url k left))
          (sym l)
          (subst (λ t. IsStale s (run_listeners hash_by_idx supported album_name base_url n t))
            (sym (sync_after-other windowed o)) (run_listeners-IsStale n windowed o refl refl)))

  -- Another gallery of the page was loaded after this one, and its viewer is not open. In full
  -- screen, which was entered with the button of this gallery's viewer, any slides are shown and
  -- then the one at index `i`; then full screen is left, with the button or by the browser. The
  -- address stays the one at the beginning, whatever image the shown slide has.
  pub leave-stale :
      (n i : ℕ) (s : State) (slides : List ℕ) (leave : Event)
      → s.registered ≡ other name none
      → s.fullscreen_enabled ≡ true
      → s.listeners ≡ suc n
      → (leave ≡ toggle) ⊎ (leave ≡ fullscreen_change false)
      → ((run hash_by_idx supported album_name base_url s
            (map change slides ++ change i ∷ leave ∷ [])).path
          ≡ s.path)
        × ((run hash_by_idx supported album_name base_url s
              (map change slides ++ change i ∷ leave ∷ [])).fullscreen_enabled
            ≡ false)
        × ((run hash_by_idx supported album_name base_url s
              (map change slides ++ change i ∷ leave ∷ [])).index
            ≡ some i)
  unfolding run step
  leave-stale n i s [] leave o e l q =
      let t : State = record s { index = some i } in
      subst (λ u. IsStale t (step hash_by_idx supported album_name base_url u leave))
        (sym (if_of_true _ _ e)) (leave-IsStale n t leave o e l q)
  leave-stale n i s (j ∷ slides) leave o e l q =
      let t : State = record s { index = some j } in
      subst
        (λ u.
          ((run hash_by_idx supported album_name base_url u
              (map change slides ++ change i ∷ leave ∷ [])).path
            ≡ s.path)
          × ((run hash_by_idx supported album_name base_url u
                (map change slides ++ change i ∷ leave ∷ [])).fullscreen_enabled
              ≡ false)
          × ((run hash_by_idx supported album_name base_url u
                (map change slides ++ change i ∷ leave ∷ [])).index
              ≡ some i))
        (sym (if_of_true _ _ e)) (leave-stale n i t slides leave o e l q)
