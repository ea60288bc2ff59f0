-- ===== src/Album/Bounds.antt =====
-- The variable `gpsBounds` of `renderAlbum` in resources/static/album.js: the box around the
-- positions of an album's images and around its GPX tracks, and what the album's settings override.
use Prim.Native.String.{String}
use text.Mathlib.Text.{◌==◌ as str_eq}
use mathlib.Core.Path.{subst}
use photo_blog.Base.{
  ◌≡◌, refl, sym, ap, ◌∙◌, ◌≡⟨◌⟩◌, ◌∎, Bool, true, false, ◌⊎◌, inl, inr, Option, none, some, List,
  [], ◌∷◌, ◌++◌, arith, All, if◌then◌else◌, Bool-cases,
}

-- The numbers that are compared and tested for truth: those of JavaScript without NaN.
pub record Numbers : Type 1 where
  pub Number : Type 0
  pub ltb : Number → Number → Bool
  -- the test `if (n)`
  pub truthy : Number → Bool
  pub ltb_irrefl : (a : Number) → ltb a a ≡ false
  pub ltb_asymm : (a b : Number) → ltb a b ≡ true → ltb b a ≡ false
  -- `b` is at least `a`, `c` at least `b`
  pub not_ltb_trans : (a b c : Number) → ltb b a ≡ false → ltb c b ≡ false → ltb c a ≡ false

module _ (numbers : Numbers) where
  open numbers use {Number, ltb, truthy, ltb_irrefl, ltb_asymm, not_ltb_trans}

  pub record Gps : Type 0 where
    pub latitude : Number
    pub longitude : Number

  -- Four bounds, none of them null; also what is read of a GPX track.
  pub record Box : Type 0 where
    pub min_lat : Number
    pub max_lat : Number
    pub min_lon : Number
    pub max_lon : Number

  -- What the loop reads of an image; `blur_hash` is "" where it is missing.
  pub record Image : Type 0 where
    pub blur_hash : String
    pub gps : Option Gps

  abbrev pub greater : Number → Number → Number
  greater bound n = if ltb bound n then n else bound

  abbrev pub lesser : Number → Number → Number
  lesser bound n = if ltb n bound then n else bound

  -- `none` stands for the bounds that are all null.
  unfoldable pub merge_gps : Option Box → Gps → Option Box
  merge_gps none g = some (record {
    min_lat = g.latitude;
    max_lat = g.latitude;
    min_lon = g.longitude;
    max_lon = g.longitude;
  })
  merge_gps (some b) g = some (record {
    min_lat = lesser b.min_lat g.latitude;
    max_lat = greater b.max_lat g.latitude;
    min_lon = lesser b.min_lon g.longitude;
    max_lon = greater b.max_lon g.longitude;
  })

  unfoldable pub merge_track : Option Box → Box → Option Box
  merge_track none gpx = some gpx
  merge_track (some b) gpx = some (record {
    min_lat = lesser b.min_lat gpx.min_lat;
    max_lat = greater b.max_lat gpx.max_lat;
    min_lon = lesser b.min_lon gpx.min_lon;
    max_lon = greater b.max_lon gpx.max_lon;
  })

  -- An image that is still being indexed is passed over.
  unfoldable pub merge_image : Option Box → Image → Option Box
  unfolding merge_gps
  merge_image b img =
      if str_eq img.blur_hash "" then b else elim img.gps [ none ↦ b | some g ↦ merge_gps b g ]

  unfoldable pub merge_images : Option Box → List Image → Option Box
  unfolding merge_image
  merge_images b [] = b
  merge_images b (img ∷ imgs) = merge_images (merge_image b img) imgs

  unfoldable pub merge_tracks : Option Box → List Box → Option Box
  unfolding merge_track
  merge_tracks b [] = b
  merge_tracks b (gpx ∷ rest) = merge_tracks (merge_track b gpx) rest

  -- The bounds after both loops.
  unfoldable pub gps_bounds : List Image → List Box → Option Box
  unfolding merge_images merge_tracks
  gps_bounds imgs tracks = merge_tracks (merge_images none imgs) tracks

  -- The boxes that the bounds have to enclose: a point for each position, and each track.
  abbrev pub point : Gps → Box
  point g = record {
    min_lat = g.latitude;
    max_lat = g.latitude;
    min_lon = g.longitude;
    max_lon = g.longitude;
  }

  abbrev pub spot : Image → List Box
  spot img =
      if str_eq img.blur_hash "" then [] else elim img.gps [ none ↦ [] | some g ↦ point g ∷ [] ]

  abbrev pub spots : List Image → List Box
  spots [] = []
  spots (img ∷ imgs) = spot img ++ spots imgs

  abbrev pub Some : (Box → Type 0) → List Box → Type 0
  Some P [] = ⊥
  Some P (b ∷ bs) = P b ⊎ Some P bs

  -- `b` encloses `q`.
  pub record Encloses (b q : Box) : Type 0 where
    pub south : ltb q.min_lat b.min_lat ≡ false
    pub north : ltb b.max_lat q.max_lat ≡ false
    pub west : ltb q.min_lon b.min_lon ≡ false
    pub east : ltb b.max_lon q.max_lon ≡ false

  -- `b` is the least box around `bs`: it encloses them, and each side is touched by one of them.
  pub record IsHull (b : Box) (bs : List Box) : Type 0 where
    pub encloses : All (Encloses b) bs
    pub south : Some (λ q. q.min_lat ≡ b.min_lat) bs
    pub north : Some (λ q. q.max_lat ≡ b.max_lat) bs
    pub west : Some (λ q. q.min_lon ≡ b.min_lon) bs
    pub east : Some (λ q. q.max_lon ≡ b.max_lon) bs

  lesser-le :
      (bound n : Number) → (ltb bound (lesser bound n) ≡ false) × (ltb n (lesser bound n) ≡ false)
  lesser-le bound n = ground (arith, ltb_irrefl bound, ltb_irrefl n, ltb_asymm n bound)

  greater-ge :
      (bound n : Number) → (ltb (greater bound n) bound ≡ false) × (ltb (greater bound n) n ≡ false)
  greater-ge bound n = ground (arith, ltb_irrefl bound, ltb_irrefl n, ltb_asymm bound n)

  -- The box that `merge_track` makes of two.
  abbrev join : Box → Box → Box
  join b q = record {
    min_lat = lesser b.min_lat q.min_lat;
    max_lat = greater b.max_lat q.max_lat;
    min_lon = lesser b.min_lon q.min_lon;
    max_lon = greater b.max_lon q.max_lon;
  }

  Encloses-join : (b q c : Box) → Encloses c (join b q) → Encloses c b × Encloses c q
  Encloses-join b q c e = (
    record {
      south = not_ltb_trans _ _ _ e.south (lesser-le b.min_lat q.min_lat).0;
      north = not_ltb_trans _ _ _ (greater-ge b.max_lat q.max_lat).0 e.north;
      west = not_ltb_trans _ _ _ e.west (lesser-le b.min_lon q.min_lon).0;
      east = not_ltb_trans _ _ _ (greater-ge b.max_lon q.max_lon).0 e.east;
    },
    record {
      south = not_ltb_trans _ _ _ e.south (lesser-le b.min_lat q.min_lat).1;
      north = not_ltb_trans _ _ _ (greater-ge b.max_lat q.max_lat).1 e.north;
      west = not_ltb_trans _ _ _ e.west (lesser-le b.min_lon q.min_lon).1;
      east = not_ltb_trans _ _ _ (greater-ge b.max_lon q.max_lon).1 e.east;
    },
  )

  lesser-cases : (a n c : Number) {P : Type 0} → (lesser a n ≡ c) ⊎ P → (a ≡ c) ⊎ ((n ≡ c) ⊎ P)
  lesser-cases a n c (inr p) = inr (inr p)
  lesser-cases a n c (inl e) = elim (Bool-cases (ltb n a)) [
    | inl t ↦ inr (inl (rw t at e))
    | inr f ↦ inl (rw f at e)
  ]

  greater-cases : (a n c : Number) {P : Type 0} → (greater a n ≡ c) ⊎ P → (a ≡ c) ⊎ ((n ≡ c) ⊎ P)
  greater-cases a n c (inr p) = inr (inr p)
  greater-cases a n c (inl e) = elim (Bool-cases (ltb a n)) [
    | inl t ↦ inr (inl (rw t at e))
    | inr f ↦ inl (rw f at e)
  ]

  IsHull-join : (b q c : Box) (bs : List Box) → IsHull c (join b q ∷ bs) → IsHull c (b ∷ q ∷ bs)
  IsHull-join b q c bs h =
      let (inside_b, inside_q) = Encloses-join b q c h.encloses.0 in
      record {
        encloses = (inside_b, (inside_q, h.encloses.1));
        south = lesser-cases _ _ _ h.south;
        north = greater-cases _ _ _ h.north;
        west = lesser-cases _ _ _ h.west;
        east = greater-cases _ _ _ h.east;
      }

  -- What the bounds have to be: null if there is nothing to enclose, and else the least box.
  abbrev pub IsBoundsOf : Option Box → List Box → Type 0
  IsBoundsOf none bs = bs ≡ []
  IsBoundsOf (some b) bs = IsHull b bs

  IsBoundsOf-join :
      (b q : Box) (o : Option Box) (bs : List Box)
      → IsBoundsOf o (join b q ∷ bs)
      → IsBoundsOf o (b ∷ q ∷ bs)
  IsBoundsOf-join b q none bs h = cc
  IsBoundsOf-join b q (some c) bs h = IsHull-join b q c bs h

  merge_tracks-IsHull : (b : Box) (bs : List Box) → IsBoundsOf (merge_tracks (some b) bs) (b ∷ bs)
  unfolding merge_tracks
  merge_tracks-IsHull b [] = record {
    encloses = (
      record {
        south = ltb_irrefl b.min_lat;
        north = ltb_irrefl b.max_lat;
        west = ltb_irrefl b.min_lon;
        east = ltb_irrefl b.max_lon;
      },
      tt,
    );
    south = inl refl;
    north = inl refl;
    west = inl refl;
    east = inl refl;
  }
  merge_tracks-IsHull b (q ∷ bs) =
      IsBoundsOf-join b q (merge_tracks (some (join b q)) bs) bs (merge_tracks-IsHull (join b q) bs)

  merge_tracks-append :
      (o : Option Box) (bs cs : List Box)
      → merge_tracks o (bs ++ cs) ≡ merge_tracks (merge_tracks o bs) cs
  unfolding merge_tracks
  merge_tracks-append o [] cs = refl
  merge_tracks-append o (b ∷ bs) cs = merge_tracks-append (merge_track o b) bs cs

  merge_image-eq : (o : Option Box) (img : Image) → merge_image o img ≡ merge_tracks o (spot img)
  unfolding merge_image merge_tracks
  merge_image-eq none img = ground arith
  merge_image-eq (some b) img = ground arith

  merge_images-eq :
      (o : Option Box) (imgs : List Image) → merge_images o imgs ≡ merge_tracks o (spots imgs)
  unfolding merge_image merge_tracks merge_images
  merge_images-eq o [] = refl
  merge_images-eq o (img ∷ imgs) =
      merge_images (merge_image o img) imgs
      ≡⟨ ap (λ q. merge_images q imgs) (merge_image-eq o img) ⟩
        merge_images (merge_tracks o (spot img)) imgs
      ≡⟨ merge_images-eq (merge_tracks o (spot img)) imgs ⟩
        merge_tracks (merge_tracks o (spot img)) (spots imgs)
      ≡⟨ sym (merge_tracks-append o (spot img) (spots imgs)) ⟩ merge_tracks o (spots (img ∷ imgs)) ∎

  merge_tracks-IsBoundsOf : (bs : List Box) → IsBoundsOf (merge_tracks none bs) bs
  unfolding merge_tracks
  merge_tracks-IsBoundsOf [] = refl
  merge_tracks-IsBoundsOf (b ∷ bs) = merge_tracks-IsHull b bs

  gps_bounds-eq :
      (imgs : List Image) (tracks : List Box)
      → gps_bounds imgs tracks ≡ merge_tracks none (spots imgs ++ tracks)
  unfolding gps_bounds
  gps_bounds-eq imgs tracks =
      ap (λ o. merge_tracks o tracks) (merge_images-eq none imgs)
      ∙ sym (merge_tracks-append none (spots imgs) tracks)

  -- For numbers that are ordered as JavaScript's are without NaN: after both loops the bounds are
  -- null if no indexed image has a position and there is no track; else they are the least box
  -- that encloses all these positions and all the tracks.
  pub gps_bounds-IsBoundsOf :
      (imgs : List Image) (tracks : List Box)
      → IsBoundsOf (gps_bounds imgs tracks) (spots imgs ++ tracks)
  gps_bounds-IsBoundsOf imgs tracks =
      subst (λ o. IsBoundsOf o (spots imgs ++ tracks)) (sym (gps_bounds-eq imgs tracks))
        (merge_tracks-IsBoundsOf (spots imgs ++ tracks))
