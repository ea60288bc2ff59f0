-- ===== src/Album/Map/Tests.antt =====
-- A click in a popup, and the layers of two tracks with one name.
use Prim.Native.String.{String}
use photo_blog.Base.{
  All, ℕ, ◌≡◌, ◌≢◌, refl, true, false, Option, none, some, List, [], ◌∷◌, ◌++◌, ◌⊎◌,
}
use photo_blog.Base.Int.{ℤ, pos}
use photo_blog.Album.Params.{escape}
use photo_blog.Album.Gallery.{Image, rendered}
use photo_blog.Album.Gallery.Index.{idx_of, hash_at, slide_hashes}
use photo_blog.Album.Map.{Registry, register, popup_link}
use photo_blog.Album.Map.Tracks.{Track, track, overlay_maps}
use photo_blog.Album.Map.Click.{clicked, clicked-on_click}
use photo_blog.Album.Map.Overlays.{
  layer_at, or_before, last_named, own_layer, layer_at-overlay_maps,
}

abbrev no_dates : String → Option ℤ
no_dates text = none

abbrev pair : List Image
pair =
    record { hash = "a1"; blur_hash = "LE"; is_360_pano = false; utime = pos 1 }
    ∷ record { hash = "p2"; blur_hash = "LE"; is_360_pano = true; utime = pos 2 }
    ∷ []

abbrev other : Registry
other = ("#other", λ h. none) ∷ []

-- The width of the picture as it is written there.
abbrev two_digits : ℕ → String
two_digits n = "300"

clicked-on_click_example :
    ((i : ℕ) × (clicked
          (other
            ++ register "#mum's"
                (λ h. idx_of h (rendered no_dates false (λ h. false) false none pair).idx_by_hash)
                [])
          (popup_link two_digits "/thumb" (escape "#mum's") "p2" 640 480)
        ≡ some (some i))
      × (hash_at i (rendered no_dates false (λ h. false) false none pair).hash_by_idx ≡ some "p2"))
    ⊎ ((clicked
            (other
              ++ register "#mum's"
                  (λ h. idx_of h (rendered no_dates false (λ h. false) false none pair).idx_by_hash)
                  [])
            (popup_link two_digits "/thumb" (escape "#mum's") "p2" 640 480)
          ≡ some none)
        × All (λ j. j ≢ "p2") (slide_hashes pair))
unfolding escape
clicked-on_click_example =
    clicked-on_click no_dates false (λ h. false) false none pair other [] "#mum's" "p2" two_digits
      "/thumb" 640 480 (refl, tt) (search) (search) refl

abbrev two_walks : List Track
two_walks = record { hash = "t1"; name = "Walk" } ∷ record { hash = "t2"; name = "Walk" } ∷ []

layer_at-overlay_maps_example :
    layer_at "Walk" (overlay_maps two_walks)
    ≡ or_before (last_named "Walk" two_walks) (own_layer "Walk")
layer_at-overlay_maps_example = layer_at-overlay_maps "Walk" two_walks

only_last : layer_at "Walk" (overlay_maps two_walks) ≡ some (track "/track/t2.gpx")
unfolding overlay_maps
only_last = refl
