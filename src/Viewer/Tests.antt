-- ===== src/Viewer/Tests.antt =====
-- Runs of the viewer, and its theorems at concrete sessions.
use Prim.Native.String.{String}
use photo_blog.Base.{
  ℕ, suc, ◌≡◌, ◌≢◌, refl, true, false, Option, none, some, List, [], ◌∷◌, ◌++◌, map, inr, arith,
}
use photo_blog.Base.Int.{ℤ, pos, ◌-ℤ◌, ◌≤ℤ◌, ◌<ℤ◌}
use photo_blog.Album.Gallery as Gallery
use photo_blog.Album.Gallery.{Image, rendered}
use photo_blog.Album.Gallery.Index.{hash_at}
use photo_blog.Viewer.Keys.{key_up}
use photo_blog.Viewer.Keys.Asked.{nothing, shown, asked, key_up-run}
use photo_blog.Viewer.Open.{opened, img_hash}
use photo_blog.Viewer.Open.Shared.{opened-address, opened-inner}
use photo_blog.Viewer.Time as Time
use photo_blog.Viewer.Time.{CurrentImage, Event, blur, focus, scroll, resize, activate, start}
use photo_blog.Viewer.Time.Away.{away}
use photo_blog.Viewer.Time.Focus.{report, report_focused, report_away}
use photo_blog.Viewer.Address as Address
use photo_blog.Viewer.Address.{
  State, own, other, change, toggle, fullscreen_change, close, address, hash_of, step, run,
}
use photo_blog.Viewer.Address.Others.{leave-stale}
use photo_blog.Viewer.Address.Follows.{Follows, run-Follows, close-fullscreen_change}

not_empty : ◌≢◌ {A = String} "abc" ""
not_empty e = cc

-- Shown at 100, away from 120 to 150, closed at 200.
abbrev visit : List (ℤ × Event)
visit = (pos 120, blur) ∷ (pos 150, focus) ∷ (pos 160, resize 800 600) ∷ []

report_focused_example :
    (c : CurrentImage) × (report "trip" Time.start (pos 100) "abc" 640 480 visit (pos 200) ≡ some c)
    × (c.img ≡ "abc")
    × (c.album ≡ "trip")
    × (c.time ≡ pos 200 -ℤ pos 100 -ℤ away none visit)
    × (pos 0 ≤ℤ c.time)
    × (c.time ≤ℤ (pos 200 -ℤ pos 100))
report_focused_example =
    report_focused "trip" Time.start (pos 100) (pos 200) "abc" 640 480 visit refl not_empty
      (omega arith)

abbrev gone : Time.State
gone = record Time.start { last_blur = some (pos 0) }

-- Away from 0, a slide show shows the image at 90, the reader is back at 95 and closes at 100.
report_away_example :
    (c : CurrentImage) × (report "trip" gone (pos 90) "abc" 640 480 ((pos 95, focus) ∷ []) (pos 100)
      ≡ some c)
    × (c.img ≡ "abc")
    × (c.time <ℤ pos 0)
unfolding ◌-ℤ◌
report_away_example =
    report_away "trip" gone (pos 0) (pos 90) (pos 95) (pos 100) "abc" 640 480 refl not_empty
      (omega arith) (omega arith) (omega arith)

abbrev two_images : ℕ → Option String
two_images ℕ.zero = some "abc"
two_images (suc ℕ.zero) = some "def"
two_images _ = none

abbrev on_album : State
on_album = record {
  path = "/trip";
  fullscreen_enabled = false;
  full_element = false;
  styled = false;
  listeners = 0;
  index = none;
  registered = own;
}

on_album-Follows : Follows two_images true "trip" "/trip" on_album
on_album-Follows = record { current = λ h e q. cc; style = refl; last = refl }

-- Full screen is entered on the first slide and left by the browser on the second.
abbrev browsing : List Address.Event
browsing = change 0 ∷ toggle ∷ fullscreen_change true ∷ change 1 ∷ fullscreen_change false ∷ []

run-Follows_example :
    Follows two_images true "trip" "/trip" (run two_images true "trip" "/trip" on_album browsing)
run-Follows_example =
    run-Follows two_images true "trip" "/trip" on_album browsing
      ((λ e. cc), ((λ e. cc), ((λ e. cc), ((λ e. cc), ((λ e. cc), tt))))) on_album-Follows

abbrev in_fullscreen : State
in_fullscreen = record on_album {
  path = "/trip/photo-abc.html";
  fullscreen_enabled = true;
  full_element = true;
  styled = true;
  listeners = 1;
  index = some 0;
}

close-fullscreen_change_example :
    ((step two_images true "trip" "/trip" in_fullscreen close).path ≡ "/trip")
    × ((step two_images true "trip" "/trip" in_fullscreen close).fullscreen_enabled ≡ false)
    × ((run two_images true "trip" "/trip" in_fullscreen
          (close ∷ fullscreen_change false ∷ [])).path
        ≡ address "trip" "abc")
close-fullscreen_change_example =
    close-fullscreen_change two_images true "trip" "/trip" in_fullscreen "abc" 0 refl refl refl

abbrev of_two : State
of_two = record in_fullscreen { registered = other "walk" none }

-- The second image is shown when the browser leaves full screen, but the address is the first's.
leave-stale_example :
    ((run two_images true "trip" "/trip" of_two
        (map change (0 ∷ []) ++ change 1 ∷ fullscreen_change false ∷ [])).path
      ≡ of_two.path)
    × ((run two_images true "trip" "/trip" of_two
          (map change (0 ∷ []) ++ change 1 ∷ fullscreen_change false ∷ [])).fullscreen_enabled
        ≡ false)
    × ((run two_images true "trip" "/trip" of_two
          (map change (0 ∷ []) ++ change 1 ∷ fullscreen_change false ∷ [])).index
        ≡ some 1)
leave-stale_example =
    leave-stale two_images true "trip" "/trip" "walk" 0 1 of_two (0 ∷ []) (fullscreen_change false)
      refl refl refl (inr refl)

abbrev parse : String → Option ℤ
parse text = none

abbrev image : String → ℕ → Image
image hash ts = record { hash = hash; blur_hash = "LE"; is_360_pano = false; utime = pos ts }

abbrev trip : List Image
trip = image "a1" 1 ∷ image "b2" 2 ∷ []

abbrev album : Gallery.State
album = rendered parse false (λ h. false) false none trip

opened-address_example :
    (i : ℕ) × (opened album.idx_by_hash "/trip/photo-b2.html" "" ≡ some i)
    × (hash_at i album.hash_by_idx ≡ some "b2")
    × ((step (λ j. hash_at j album.hash_by_idx) true "trip" "/trip" on_album (change i)).path
        ≡ "/trip/photo-b2.html")
opened-address_example =
    opened-address parse false (λ h. false) false none trip true "trip" "/trip" "" "b2" 1 on_album
      refl refl (refl, (refl, (refl, (refl, (refl, (refl, tt)))))) refl

not_a1 : ◌≢◌ {A = String} "a1" "s/photo-b2"
not_a1 e = cc

not_b2 : ◌≢◌ {A = String} "b2" "s/photo-b2"
not_b2 e = cc

-- In the album "photo-s" the image "b2" is looked up as "s/photo-b2".
opened-inner_example :
    (img_hash "/photo-s/photo-b2.html" "" ≡ "s/photo-b2")
    × (opened album.idx_by_hash "/photo-s/photo-b2.html" "" ≡ none)
opened-inner_example =
    opened-inner parse false (λ h. false) false none trip "" "s" "b2" "" (refl, tt)
      (not_a1, (not_b2, tt))

-- The second image of a visit.
abbrev second_image : List (ℤ × Event)
second_image =
    (pos 100, activate "a1" 640 480)
    ∷ (pos 150, blur)
    ∷ (pos 160, focus)
    ∷ (pos 200, activate "b2" 640 480)
    ∷ []

key_up-run_example :
    key_up true "x" (Time.run "trip" start second_image).current
    ≡ asked "trip" (shown nothing second_image)
key_up-run_example = key_up-run "trip" second_image (refl, (refl, tt))
