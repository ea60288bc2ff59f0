-- ===== src/Client/Actions/Hearts.antt =====
-- The heart of an image, which `toggleFavorite` of resources/static/album_extra.js switches: clicks
-- send requests, and the replies come one after the other.
use Prim.Native.String.{String}
use photo_blog.Base.{
  ℕ, zero, suc, ◌+◌, ◌≡◌, refl, ap, ◌∙◌, Bool, true, false, not, Option, List, [], ◌∷◌, ◌++◌, arith,
  ◌==◌, if◌then◌else◌,
}
use photo_blog.Client.{Reply, flipped, thrown, dispatch, add_favorite, delete_favorite}
use photo_blog.Client.Actions.{toggle_favorite_call}

-- The heart: its data `favorite`, and whether it has the class of a full heart; and the requests
-- that are not answered yet, by the data that their reply sets.
pub record Heart : Type 0 where
  pub favorite : Bool
  pub full : Bool
  pub asked : List Bool

-- What the callback of a request makes of the heart.
abbrev pub set_heart : Bool → Heart → Heart
set_heart b s = record s { favorite = b; full = b }

-- A click asks for the opposite of what the heart shows.
unfoldable pub click_heart : Heart → Heart
click_heart s = record s { asked = s.asked ++ not s.favorite ∷ [] }

-- The oldest request is answered; a status other than 204 throws and leaves the heart.
unfoldable pub answer_heart : ℕ → Heart → Heart
answer_heart status s = elim s.asked [
  | [] ↦ s
  | b ∷ rest ↦
      let t : Heart = record s { asked = rest } in if status == 204 then set_heart b t else t
]

abbrev pub times : ℕ → (Heart → Heart) → Heart → Heart
times zero f s = s
times (suc n) f s = times n f (f s)

abbrev copies : ℕ → Bool → List Bool
copies zero b = []
copies (suc n) b = b ∷ copies n b

copies-snoc : (n : ℕ) (b : Bool) → copies n b ++ (b ∷ []) ≡ copies (suc n) b
copies-snoc zero b = refl
copies-snoc (suc n) b = ap (◌∷◌ b) (copies-snoc n b)

abbrev heart : Bool → Bool → List Bool → Heart
heart b f l = record { favorite = b; full = f; asked = l }

clicks-copies :
    (m n : ℕ) (b f : Bool)
    → times n click_heart (heart b f (copies m (not b))) ≡ heart b f (copies (m + n) (not b))
unfolding click_heart
clicks-copies m zero b f = ap (λ q. heart b f (copies q (not b))) (omega arith)
clicks-copies m (suc n) b f =
    ap (λ l. times n click_heart (heart b f l)) (copies-snoc m (not b))
    ∙ clicks-copies (suc m) n b f
    ∙ ap (λ q. heart b f (copies q (not b))) (omega arith)

replies-copies :
    (n : ℕ) (c : Bool) → times n (answer_heart 204) (heart c c (copies n c)) ≡ heart c c []
unfolding answer_heart
replies-copies zero c = refl
replies-copies (suc n) c = replies-copies n c

add_zero_left : (n : ℕ) → 0 + n ≡ n
add_zero_left n = omega arith

-- A heart with no request under way is clicked once or more often before the first reply arrives,
-- and all the requests succeed: then it shows the opposite of what it showed at first, however
-- often it was clicked, its class agrees with its data, and no request is left.
pub clicks-replies :
    (n : ℕ) (b f : Bool)
    → times
        (suc n)
        (answer_heart 204)
        (times (suc n) click_heart (record { favorite = b; full = f; asked = [] }))
      ≡ record { favorite = not b; full = not b; asked = [] }
unfolding answer_heart
clicks-replies n b f =
    ap (times (suc n) (answer_heart 204)) (clicks-copies 0 (suc n) b f)
    ∙ ap (λ q. times (suc n) (answer_heart 204) (heart b f (copies q (not b))))
        (add_zero_left (suc n))
    ∙ first_reply
  where
    first_reply :
        times (suc n) (answer_heart 204) (heart b f (copies (suc n) (not b)))
        ≡ heart (not b) (not b) []
    first_reply = replies-copies n (not b)

-- The reply to the request that a click sends: a full heart asks for the deletion, an empty one for
-- the addition, and either flips the heart just for the status 204.
toggle_favorite_call-lem :
    (Json : Type 0) (parse : String → Option Json) (encode : String → String)
    (error_of : Json → String) (favorite : Bool) (hash : String) (r : Reply)
    → dispatch Json parse encode ""
        (toggle_favorite_call Json parse encode error_of favorite hash).cases
        r
      ≡ (if r.status == 204 then flipped ∷ [] else thrown ∷ [])
unfolding toggle_favorite_call add_favorite delete_favorite dispatch
toggle_favorite_call-lem Json parse encode error_of true hash r = refl
toggle_favorite_call-lem Json parse encode error_of false hash r = refl
