-- ===== src/Client/Methods/Search.antt =====
-- The calls of the server for places and searches: methods of `Backend` in resources/static/client.js.
use Prim.Native.String.{String}
use photo_blog.Base.{Option, List, [], ◌∷◌, ◌++◌}
use photo_blog.Results.{◌+s◌}
use photo_blog.Client.{Effect, get, head, no_body, param, url_with, raw, parsed, Call}

module _ (Json : Type 0) (parse : String → Option Json) (encode : String → String)
    (base_url : String) where
  unfoldable pub download_images_poi_gpx :
      (name : String) (on_no_content : Option (List Effect))
      (on_bad_request on_internal_server_error : Option (Json → List Effect))
      → Call Json parse encode base_url
  download_images_poi_gpx name on_no_content on_bad_request on_internal_server_error = record {
    verb = get;
    url = url_with encode (base_url +s "/poi/photos-" +s encode name +s ".gpx") [];
    body = no_body;
    cases =
        (204, raw on_no_content)
        ∷ (400, parsed on_bad_request)
        ∷ (500, parsed on_internal_server_error)
        ∷ [];
  }

  unfoldable pub download_images_poi_gpx2 :
      (name : String) (on_no_content on_bad_request on_internal_server_error : Option (List Effect))
      → Call Json parse encode base_url
  download_images_poi_gpx2 name on_no_content on_bad_request on_internal_server_error = record {
    verb = head;
    url = url_with encode (base_url +s "/poi/photos-" +s encode name +s ".gpx") [];
    body = no_body;
    cases =
        (204, raw on_no_content)
        ∷ (400, raw on_bad_request)
        ∷ (500, raw on_internal_server_error)
        ∷ [];
  }

  unfoldable pub search_images :
      (q lens camera offset : Option String) (on_no_content : Option (List Effect))
      (on_bad_request on_internal_server_error : Option (Json → List Effect))
      → Call Json parse encode base_url
  search_images q lens camera offset on_no_content on_bad_request on_internal_server_error =
      record {
        verb = get;
        url = url_with encode (base_url +s "/search/") (
            param "q" q
            ++ (param "lens" lens ++ (param "camera" camera ++ (param "offset" offset))));
        body = no_body;
        cases =
            (204, raw on_no_content)
            ∷ (400, parsed on_bad_request)
            ∷ (500, parsed on_internal_server_error)
            ∷ [];
      }

  unfoldable pub search_images2 :
      (q lens camera offset : Option String)
      (on_no_content on_bad_request on_internal_server_error : Option (List Effect))
      → Call Json parse encode base_url
  search_images2 q lens camera offset on_no_content on_bad_request on_internal_server_error =
      record {
        verb = head;
        url = url_with encode (base_url +s "/search/") (
            param "q" q
            ++ (param "lens" lens ++ (param "camera" camera ++ (param "offset" offset))));
        body = no_body;
        cases =
            (204, raw on_no_content)
            ∷ (400, raw on_bad_request)
            ∷ (500, raw on_internal_server_error)
            ∷ [];
      }
