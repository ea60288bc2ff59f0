-- ===== src/Client/Tests.antt =====
-- Requests of the pages, with the JSON text of a reply as it stands.
use Prim.Native.String.{String}
use text.Mathlib.Text.{◌==◌ as str_eq}
use photo_blog.Base.{if◌then◌else◌, ◌≡◌, ◌↔◌, ◌⊎◌, refl, true, false, some, List, [], ◌∷◌}
use photo_blog.Client.{Reply, url_with}
use photo_blog.Client.Urls.Read.{read_query, read_query-url_with}
use photo_blog.Client.Actions.{delete_album, reindex_album, add_to_featured}
use photo_blog.Client.Actions.Told.{failure-untold}
use photo_blog.Client.Actions.Hearts.{click_heart, answer_heart, times, clicks-replies}

abbrev same : String → String
same s = s

abbrev params : List (String × String)
params = ("name", "trip") ∷ ("collabKey", "k") ∷ []

url : url_with same "/album/trip" params ≡ "/album/trip?name=trip&collabKey=k"
unfolding url_with
url = refl

-- An ampersand is the only text that is written otherwise.
abbrev escaped : String → String
escaped s = if str_eq s "&" then "%26" else s

abbrev unescaped : String → String
unescaped s = if str_eq s "%26" then "&" else s

abbrev collaborator : List (String × String)
collaborator = ("name", "trip") ∷ ("collabKey", "&") ∷ []

read_query-url_with_example :
    read_query unescaped (url_with escaped "/album/trip" collaborator) ≡ collaborator
read_query-url_with_example =
    read_query-url_with escaped unescaped "/album/trip" collaborator (search) (search)

abbrev failed : Reply
failed = record { status = 500; text = "down" }

failure-untold_example :
    ((delete_album String some same same true "trip" failed ≡ []) ↔ (failed.status ≡ 500))
    × ((reindex_album String some same same "trip" failed ≡ [])
        ↔ ((failed.status ≡ 401) ⊎ (failed.status ≡ 500)))
    × ((add_to_featured String some same same "abc" failed ≡ [])
        ↔ ((failed.status ≡ 204) ⊎ (failed.status ≡ 500)))
failure-untold_example = failure-untold String some same same "trip" "abc" failed

abbrev gone : Reply
gone = record { status = 204; text = "" }

clicks-replies_example :
    times 2
      (answer_heart 204)
      (times 2 click_heart (record { favorite = false; full = false; asked = [] }))
    ≡ record { favorite = true; full = true; asked = [] }
clicks-replies_example = clicks-replies 1 false false
