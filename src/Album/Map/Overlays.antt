-- ===== src/Album/Map/Overlays.antt =====
-- What the control of the map's layers offers under a name.
use Prim.Native.String.{String}
use text.Mathlib.Text.{◌==◌ as str_eq}
use text.Mathlib.TextEquality.{eq_iff}
use photo_blog.Base.{
  ◌≡◌, refl, ap, ◌∙◌, Bool, true, false, Option, none, some, List, [], ◌∷◌, if◌then◌else◌, arith,
}
use photo_blog.Results.{◌+s◌}
use photo_blog.Album.Map.Tracks.{Layer, photos, track, Track, put_layer, add_tracks, overlay_maps}

abbrev pub layer_at : String → List (String × Layer) → Option Layer
layer_at name [] = none
layer_at name ((n, l) ∷ overlays) = if str_eq n name then some l else layer_at name overlays

abbrev pub or_before : Option Layer → Option Layer → Option Layer
or_before none before = before
or_before (some l) before = some l

abbrev pub file_layer : Track → Layer
file_layer gpx = track ("/track/" +s gpx.hash +s ".gpx")

-- The layer of the last track with a name.
abbrev pub last_named : String → List Track → Option Layer
last_named name [] = none
last_named name (gpx ∷ tracks) =
    or_before (last_named name tracks)
      (if str_eq gpx.name name then some (file_layer gpx) else none)

-- The layer that is there without any track.
abbrev pub own_layer : String → Option Layer
own_layer name = if str_eq "Photos" name then some photos else none

layer_at-put_layer :
    (name n : String) (l : Layer) (overlays : List (String × Layer))
    → layer_at name (put_layer n l overlays)
      ≡ (if str_eq n name then some l else layer_at name overlays)
layer_at-put_layer name n l [] = refl
layer_at-put_layer name n l ((m, k) ∷ overlays) =
    ground (arith, eq_iff m n, eq_iff n name, eq_iff m name, layer_at-put_layer name n l overlays)

or_before-if :
    (later before : Option Layer) (b : Bool) (l : Layer)
    → or_before later (if b then some l else before)
      ≡ or_before (or_before later (if b then some l else none)) before
or_before-if none before true l = refl
or_before-if none before false l = refl
or_before-if (some k) before b l = refl

layer_at-add_tracks :
    (name : String) (tracks : List Track) (overlays : List (String × Layer))
    → layer_at name (add_tracks tracks overlays)
      ≡ or_before (last_named name tracks) (layer_at name overlays)
layer_at-add_tracks name [] overlays = refl
layer_at-add_tracks name (gpx ∷ tracks) overlays =
    layer_at-add_tracks name tracks (put_layer gpx.name (file_layer gpx) overlays)
    ∙ ap (or_before (last_named name tracks))
        (layer_at-put_layer name gpx.name (file_layer gpx) overlays)
    ∙ or_before-if (last_named name tracks) (layer_at name overlays) (str_eq gpx.name name)
        (file_layer gpx)

-- Under any name the control of the map's layers offers the track that has this name and comes last
-- in the album, and the photos under "Photos" if no track has that name, and nothing else: of two
-- tracks with one name only the last can be switched.
pub layer_at-overlay_maps :
    (name : String) (tracks : List Track)
    → layer_at name (overlay_maps tracks) ≡ or_before (last_named name tracks) (own_layer name)
unfolding overlay_maps
layer_at-overlay_maps name tracks = layer_at-add_tracks name tracks (("Photos", photos) ∷ [])
