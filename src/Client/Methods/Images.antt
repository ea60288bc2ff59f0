-- ===== src/Client/Methods/Images.antt =====
-- The calls of the server for images: methods of `Backend` in resources/static/client.js.
use Prim.Native.String.{String}
use photo_blog.Base.{Option, List, [], ◌∷◌}
use photo_blog.Results.{◌+s◌}
use photo_blog.Client.{Effect, get, head, put, no_body, json_of, param, url_with, raw, parsed, Call}

module _ (Json : Type 0) (parse : String → Option Json) (encode : String → String)
    (base_url : String) where
  unfoldable pub control_update_photo_image :
      (body : Option String) (on_no_content : Option (List Effect))
      (on_bad_request on_unauthorized on_internal_server_error : Option (Json → List Effect))
      → Call Json parse encode base_url
  control_update_photo_image body on_no_content on_bad_request on_unauthorized
        on_internal_server_error =
      record {
        verb = put;
        url = url_with encode (base_url +s "/image") [];
        body = json_of body;
        cases =
            (204, raw on_no_content)
            ∷ (400, parsed on_bad_request)
            ∷ (401, parsed on_unauthorized)
            ∷ (500, parsed on_internal_server_error)
            ∷ [];
      }

  unfoldable pub get_image_info :
      (hash : String) (read_meta : Option String)
      (on_ok on_unauthorized : Option (Json → List Effect))
      → Call Json parse encode base_url
  get_image_info hash read_meta on_ok on_unauthorized = record {
    verb = get;
    url =
        url_with encode (base_url +s "/image-info/" +s encode hash +s ".json")
          (param "read_meta" read_meta);
    body = no_body;
    cases = (200, parsed on_ok) ∷ (401, parsed on_unauthorized) ∷ [];
  }

  unfoldable pub get_image_info2 :
      (hash : String) (read_meta : Option String) (on_ok on_unauthorized : Option (List Effect))
      → Call Json parse encode base_url
  get_image_info2 hash read_meta on_ok on_unauthorized = record {
    verb = head;
    url =
        url_with encode (base_url +s "/image-info/" +s encode hash +s ".json")
          (param "read_meta" read_meta);
    body = no_body;
    cases = (200, raw on_ok) ∷ (401, raw on_unauthorized) ∷ [];
  }

  unfoldable pub show_image3 :
      (hash : String) (on_no_content : Option (List Effect)) → Call Json parse encode base_url
  show_image3 hash on_no_content = record {
    verb = get;
    url = url_with encode (base_url +s "/image/" +s encode hash +s ".avif") [];
    body = no_body;
    cases = (204, raw on_no_content) ∷ [];
  }

  unfoldable pub show_image4 :
      (hash : String) (on_no_content : Option (List Effect)) → Call Json parse encode base_url
  show_image4 hash on_no_content = record {
    verb = head;
    url = url_with encode (base_url +s "/image/" +s encode hash +s ".avif") [];
    body = no_body;
    cases = (204, raw on_no_content) ∷ [];
  }

  unfoldable pub show_image :
      (hash : String) (on_no_content : Option (List Effect)) → Call Json parse encode base_url
  show_image hash on_no_content = record {
    verb = get;
    url = url_with encode (base_url +s "/image/" +s encode hash +s ".jpg") [];
    body = no_body;
    cases = (204, raw on_no_content) ∷ [];
  }

  unfoldable pub show_image2 :
      (hash : String) (on_no_content : Option (List Effect)) → Call Json parse encode base_url
  show_image2 hash on_no_content = record {
    verb = head;
    url = url_with encode (base_url +s "/image/" +s encode hash +s ".jpg") [];
    body = no_body;
    cases = (204, raw on_no_content) ∷ [];
  }

  unfoldable pub control_get_photo_image :
      (hash : String)
      (on_ok on_bad_request on_unauthorized on_internal_server_error : Option (Json → List Effect))
      → Call Json parse encode base_url
  control_get_photo_image hash on_ok on_bad_request on_unauthorized on_internal_server_error =
      record {
        verb = get;
        url = url_with encode (base_url +s "/image/" +s encode hash +s ".json") [];
        body = no_body;
        cases =
            (200, parsed on_ok)
            ∷ (400, parsed on_bad_request)
            ∷ (401, parsed on_unauthorized)
            ∷ (500, parsed on_internal_server_error)
            ∷ [];
      }

  unfoldable pub control_get_photo_image2 :
      (hash : String)
      (on_ok on_bad_request on_unauthorized on_internal_server_error : Option (List Effect))
      → Call Json parse encode base_url
  control_get_photo_image2 hash on_ok on_bad_request on_unauthorized on_internal_server_error =
      record {
        verb = head;
        url = url_with encode (base_url +s "/image/" +s encode hash +s ".json") [];
        body = no_body;
        cases =
            (200, raw on_ok)
            ∷ (400, raw on_bad_request)
            ∷ (401, raw on_unauthorized)
            ∷ (500, raw on_internal_server_error)
            ∷ [];
      }
