-- ===== src/Upload/Tests.antt =====
-- Uploads of a folder.
use Prim.Native.String.{String}
use photo_blog.Base.{◌≡◌, refl, none, some, List, [], ◌∷◌}
use photo_blog.Upload.{File, before_upload_request}

abbrev file : String → String → File
file name path = record { name = name; relative_path = path }

abbrev folder : List File
folder =
    file "a.jpg" "trip/a.jpg"
    ∷ file "a.jpg" "trip/thumb/300w/a.jpg"
    ∷ file "b.jpg" "trip/thumb/600w/b.jpg"
    ∷ file "a.jpg" "trip/thumb/1200w/a.jpg"
    ∷ []

sent :
    (before_upload_request (file "a.jpg" "trip/a.jpg") folder ≡ some "300w,1200w")
    × (before_upload_request (file "b.jpg" "trip/thumb/600w/b.jpg") folder ≡ none)
    × (before_upload_request (file "c.jpg" "") folder ≡ some "")
unfolding before_upload_request
sent = (refl, refl, refl)
