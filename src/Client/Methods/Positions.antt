-- ===== src/Client/Methods/Positions.antt =====
-- The calls of the server for favorites, gathered files and positions: methods of `Backend` in resources/static/client.js.
use Prim.Native.String.{String}
use photo_blog.Base.{Option, List, [], ◌∷◌}
use photo_blog.Results.{◌+s◌}
use photo_blog.Client.{
  Effect, get, head, post, put, no_body, json_of, param, url_with, raw, parsed, Call,
}

module _ (Json : Type 0) (parse : String → Option Json) (encode : String → String)
    (base_url : String) where
  unfoldable pub get_favorite2 :
      (album_hash : Option String) (on_ok : Option (List Effect)) → Call Json parse encode base_url
  get_favorite2 album_hash on_ok = record {
    verb = head;
    url = url_with encode (base_url +s "/favorite") (param "album_hash" album_hash);
    body = no_body;
    cases = (200, raw on_ok) ∷ [];
  }

  unfoldable pub control_gather_files :
      (name : String) (check_missing : Option String)
      (on_ok on_bad_request on_unauthorized on_internal_server_error : Option (Json → List Effect))
      → Call Json parse encode base_url
  control_gather_files name check_missing on_ok on_bad_request on_unauthorized
        on_internal_server_error =
      record {
        verb = post;
        url =
            url_with encode (base_url +s "/gather/" +s encode name)
              (param "check_missing" check_missing);
        body = no_body;
        cases =
            (200, parsed on_ok)
            ∷ (400, parsed on_bad_request)
            ∷ (401, parsed on_unauthorized)
            ∷ (500, parsed on_internal_server_error)
            ∷ [];
      }

  unfoldable pub control_update_photogps :
      (body : Option String) (on_no_content : Option (List Effect))
      (on_bad_request on_unauthorized on_internal_server_error : Option (Json → List Effect))
      → Call Json parse encode base_url
  control_update_photogps body on_no_content on_bad_request on_unauthorized
        on_internal_server_error =
      record {
        verb = put;
        url = url_with encode (base_url +s "/gps") [];
        body = json_of body;
        cases =
            (204, raw on_no_content)
            ∷ (400, parsed on_bad_request)
            ∷ (401, parsed on_unauthorized)
            ∷ (500, parsed on_internal_server_error)
            ∷ [];
      }

  unfoldable pub control_get_photogps :
      (hash : String)
      (on_ok on_bad_request on_unauthorized on_internal_server_error : Option (Json → List Effect))
      → Call Json parse encode base_url
  control_get_photogps hash on_ok on_bad_request on_unauthorized on_internal_server_error = record {
    verb = get;
    url = url_with encode (base_url +s "/gps/" +s encode hash +s ".json") [];
    body = no_body;
    cases =
        (200, parsed on_ok)
        ∷ (400, parsed on_bad_request)
        ∷ (401, parsed on_unauthorized)
        ∷ (500, parsed on_internal_server_error)
        ∷ [];
  }

  unfoldable pub control_get_photogps2 :
      (hash : String)
      (on_ok on_bad_request on_unauthorized on_internal_server_error : Option (List Effect))
      → Call Json parse encode base_url
  control_get_photogps2 hash on_ok on_bad_request on_unauthorized on_internal_server_error =
      record {
        verb = head;
        url = url_with encode (base_url +s "/gps/" +s encode hash +s ".json") [];
        body = no_body;
        cases =
            (200, raw on_ok)
            ∷ (400, raw on_bad_request)
            ∷ (401, raw on_unauthorized)
            ∷ (500, raw on_internal_server_error)
            ∷ [];
      }
