-- ===== src/Album/Sprites/Unscaled.antt =====
-- Thumbnails in the size of their sheet.
use Prim.Native.String.{String}
use photo_blog.Base.{
  ℕ, ◌<◌, arith, ◌≡◌, refl, ap, ap₂, ◌∙◌, Bool, true, false, ◌&&◌, none, some, ltb, if-elim,
  if_of_true,
}
use photo_blog.Results.{◌+s◌}
use photo_blog.Album.Sprites.{Sheet, Sprite, Thumb, px, at_scale, has_sizes, update_thumb}

module _ (decimal : ℕ → String) (scaled : ℕ → ℕ → ℕ → ℕ) (image_set : Bool) where
  at_scale-same :
      ((n b : ℕ) → 0 < b → scaled n b b ≡ n)
      → (b n : ℕ) → at_scale decimal scaled image_set b b n ≡ n
  at_scale-same exact b n =
      if-elim (λ m. m ≡ n) (ltb 0 b && ltb 0 b) (scaled n b b) n (λ e. exact n b (positive b e))
        (λ e. refl)
    where
      positive : (b : ℕ) → (ltb 0 b && ltb 0 b) ≡ true → 0 < b
      positive b e = ground arith

  -- On a wide page a thumbnail that is as wide as its sheet shows the sheet in its own size, from
  -- the offset of the image on.
  pub update_thumb-unscaled :
      (s : Sprite) (sheet : Sheet) (thumb_width : ℕ)
      → ((n b : ℕ) → 0 < b → scaled n b b ≡ n)
      → has_sizes decimal scaled image_set s ≡ true
      → s.width ≡ s.background_width
      → (t : Thumb) × (update_thumb decimal scaled image_set false thumb_width (some s) (some sheet)
          ≡ some t)
        × (t.sprite.background_position ≡ "0 -" +s px decimal scaled image_set s.offset_y)
        × (t.sprite.background_size
            ≡ px decimal scaled image_set s.background_width
              +s " "
              +s px decimal scaled image_set s.background_height)
        × (t.canvas ≡ none)
  unfolding update_thumb
  update_thumb-unscaled s sheet thumb_width exact sizes same = (
    _,
    if_of_true _ _ sizes,
    ap (λ n. "0 -" +s px decimal scaled image_set n) (own s.offset_y),
    ap₂ (λ n m. px decimal scaled image_set n +s " " +s px decimal scaled image_set m)
        (own s.background_width) (own s.background_height),
    refl,
  )
    where
      own : (n : ℕ) → at_scale decimal scaled image_set s.width s.background_width n ≡ n
      own n =
          ap (λ w. at_scale decimal scaled image_set w s.background_width n) same
          ∙ at_scale-same exact s.background_width n
