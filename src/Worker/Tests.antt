-- ===== src/Worker/Tests.antt =====
-- Requests to the worker.
use Prim.Native.String.{String}
use photo_blog.Base.{ℕ, ◌≡◌, ◌≢◌, ◌⊎◌, refl, Bool, true, Option, none, some, List, [], ◌∷◌}
use photo_blog.Base.Int.{ℤ, pos}
use photo_blog.Worker.{Request, Run, ModelReply, refused, threw, split, fetch}
use photo_blog.Worker.Keys.{fetch-cases}

languages : split "russian,german" ≡ "russian" ∷ "german" ∷ []
languages = refl

abbrev a_cat : ModelReply
a_cat = record { description = some "a cat"; text = "" }

abbrev cats : Run → Option ModelReply
cats q = some a_cat

abbrev clock : ℕ → ℤ
clock n = pos n

abbrev anything : String → Bool
anything s = true

abbrev one_byte : String → Option (List ℕ)
one_byte s = some (255 ∷ [])

abbrev translated_request : Request
translated_request = record {
  authorization = some "foo";
  x_llava = some "1";
  x_detr = some "1";
  x_translate = some "russian,german";
  body = "cat";
}

abbrev plain_request : Request
plain_request = record translated_request { x_translate = none }

fetch-cases_example :
    ((fetch cats clock anything one_byte plain_request).runs ≡ [])
    × (((plain_request.authorization ≢ some "foo")
          × ((fetch cats clock anything one_byte plain_request).end
              ≡ refused 403 "Sorry, you have supplied an invalid key."))
        ⊎ ((plain_request.authorization ≡ some "foo")
            × ((fetch cats clock anything one_byte plain_request).end ≡ threw)))
fetch-cases_example = fetch-cases cats clock anything one_byte plain_request
