-- ===== src/Album/MapSides.antt =====
-- What the map of an album is fitted to: `renderAlbum` of resources/static/album.js overrides the
-- bounds by the album's settings, and draws the map if there is a lower latitude.
use mathlib.Core.Path.{subst}
use photo_blog.Base.{
  refl, ap, ◌∙◌, ◌≡◌, ◌≢◌, Bool, true, Option, none, some, List, [], ◌++◌, arith, if◌then◌else◌,
}
use photo_blog.Album.Bounds.{
  Numbers, Box, Image, IsHull, IsBoundsOf, spots, gps_bounds, gps_bounds-IsBoundsOf,
}

module _ (numbers : Numbers) where
  open numbers use {Number, truthy}

  -- `gpsBounds` after the loops, where a side may be null.
  pub record Sides : Type 0 where
    pub min_lat : Option Number
    pub max_lat : Option Number
    pub min_lon : Option Number
    pub max_lon : Option Number

  -- The album's settings; a field is `none` where it is missing.
  pub record MapSettings : Type 0 where
    pub map_min_lat : Option Number
    pub map_max_lat : Option Number
    pub map_min_lon : Option Number
    pub map_max_lon : Option Number

  abbrev pub sides_of : Option (Box numbers) → Sides
  sides_of none = record { min_lat = none; max_lat = none; min_lon = none; max_lon = none }
  sides_of (some b) = record {
    min_lat = some b.min_lat;
    max_lat = some b.max_lat;
    min_lon = some b.min_lon;
    max_lon = some b.max_lon;
  }

  -- `if (setting) { side = setting }`
  unfoldable pub override_side : Option Number → Option Number → Option Number
  override_side none side = side
  override_side (some n) side = if truthy n then some n else side

  unfoldable pub override_sides : MapSettings → Sides → Sides
  unfolding override_side
  override_sides c b = record {
    min_lat = override_side c.map_min_lat b.min_lat;
    max_lat = override_side c.map_max_lat b.max_lat;
    min_lon = override_side c.map_min_lon b.min_lon;
    max_lon = override_side c.map_max_lon b.max_lon;
  }

  -- What `fitBounds` is called with, if the map is drawn.
  unfoldable pub fitted_to : (show_map : Bool) → Sides → Option Sides
  fitted_to show_map b = elim b.min_lat [ none ↦ none | some _ ↦ if show_map then some b else none ]

  unfoldable pub fitted :
      (show_map : Bool) → MapSettings → List (Image numbers) → List (Box numbers) → Option Sides
  unfolding fitted_to override_sides
  fitted show_map c imgs tracks =
      fitted_to show_map (override_sides c (sides_of (gps_bounds numbers imgs tracks)))

  -- A setting's number where it counts, or else a side of the box.
  abbrev pub pick : Option Number → Number → Number
  pick none side = side
  pick (some n) side = if truthy n then n else side

  abbrev pub picked : MapSettings → Box numbers → Sides
  picked c b = record {
    min_lat = some (pick c.map_min_lat b.min_lat);
    max_lat = some (pick c.map_max_lat b.max_lat);
    min_lon = some (pick c.map_min_lon b.min_lon);
    max_lon = some (pick c.map_max_lon b.max_lon);
  }

  override_side-some : (o : Option Number) (n : Number) → override_side o (some n) ≡ some (pick o n)
  unfolding override_side
  override_side-some none n = refl
  override_side-some (some m) n = ground arith

  fitted-some :
      (c : MapSettings) (imgs : List (Image numbers)) (tracks : List (Box numbers))
      (b : Box numbers)
      → gps_bounds numbers imgs tracks ≡ some b
      → fitted true c imgs tracks ≡ some (picked c b)
  unfolding fitted
  fitted-some c imgs tracks b e = ap (λ o. fitted_to true (override_sides c (sides_of o))) e ∙ whole
    where
      whole : fitted_to true (override_sides c (sides_of (some b))) ≡ some (picked c b)
      whole = simp override_side-some

  -- If some indexed image has a position, or there is a track, a shown map is fitted to four sides
  -- that are numbers: each is the album's setting if there is one other than 0, and else the side
  -- of the least box around the positions and the tracks.
  pub fitted-picked :
      (c : MapSettings) (imgs : List (Image numbers)) (tracks : List (Box numbers))
      → spots numbers imgs ++ tracks ≢ []
      → (b : Box numbers) × IsHull numbers b (spots numbers imgs ++ tracks)
        × (fitted true c imgs tracks ≡ some (picked c b))
  fitted-picked c imgs tracks h = on_bounds (gps_bounds numbers imgs tracks) refl
    where
      on_bounds :
          (o : Option (Box numbers))
          → gps_bounds numbers imgs tracks ≡ o
          → (b : Box numbers) × IsHull numbers b (spots numbers imgs ++ tracks)
            × (fitted true c imgs tracks ≡ some (picked c b))
      on_bounds none e = absurd (
          h (
            subst (λ o. IsBoundsOf numbers o (spots numbers imgs ++ tracks)) e
              (gps_bounds-IsBoundsOf numbers imgs tracks)))
      on_bounds (some b) e = (
        b,
        subst (λ o. IsBoundsOf numbers o (spots numbers imgs ++ tracks)) e
            (gps_bounds-IsBoundsOf numbers imgs tracks),
        fitted-some c imgs tracks b e,
      )

  gps_bounds-none :
      (imgs : List (Image numbers)) (tracks : List (Box numbers))
      → spots numbers imgs ++ tracks ≡ []
      → gps_bounds numbers imgs tracks ≡ none
  gps_bounds-none imgs tracks h = on_bounds (gps_bounds numbers imgs tracks) (
      subst (IsBoundsOf numbers (gps_bounds numbers imgs tracks)) h
        (gps_bounds-IsBoundsOf numbers imgs tracks))
    where
      on_bounds : (o : Option (Box numbers)) → IsBoundsOf numbers o [] → o ≡ none
      on_bounds none e = refl
      on_bounds (some b) hull = absurd hull.south

  -- Where no indexed image has a position and there is no track, a lower latitude other than 0 in
  -- the settings is enough for a shown map to be drawn; and if the settings have no upper latitude,
  -- then `fitBounds` is called with null for it.
  fitted-null_side :
      (c : MapSettings) (imgs : List (Image numbers)) (tracks : List (Box numbers)) (n : Number)
      → spots numbers imgs ++ tracks ≡ []
      → c.map_min_lat ≡ some n
      → truthy n ≡ true
      → c.map_max_lat ≡ none
      → (s : Sides) × (fitted true c imgs tracks ≡ some s)
        × (s.min_lat ≡ some n)
        × (s.max_lat ≡ none)
  unfolding fitted
  fitted-null_side c imgs tracks n h e t k = (
    override_sides c (sides_of none),
    ap (λ o. fitted_to true (override_sides c (sides_of o))) (gps_bounds-none imgs tracks h)
        ∙ simp (e, t),
    simp (e, t),
    simp k,
  )
