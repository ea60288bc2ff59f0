-- ===== src/Client/Methods/Albums.antt =====
-- The calls of the server for albums and their pages: methods of `Backend` in resources/static/client.js.
use Prim.Native.String.{String}
use photo_blog.Base.{Option, List, [], ◌∷◌}
use photo_blog.Results.{◌+s◌}
use photo_blog.Client.{
  Effect, get, head, post, put, no_body, form, json_of, param, url_with, raw, parsed, Call,
}

module _ (Json : Type 0) (parse : String → Option Json) (encode : String → String)
    (base_url : String) where
  unfoldable pub show_main :
      (on_no_content : Option (List Effect))
      (on_bad_request on_internal_server_error : Option (Json → List Effect))
      → Call Json parse encode base_url
  show_main on_no_content on_bad_request on_internal_server_error = record {
    verb = get;
    url = url_with encode (base_url +s "/") [];
    body = no_body;
    cases =
        (204, raw on_no_content)
        ∷ (400, parsed on_bad_request)
        ∷ (500, parsed on_internal_server_error)
        ∷ [];
  }

  unfoldable pub show_main2 :
      (on_no_content on_bad_request on_internal_server_error : Option (List Effect))
      → Call Json parse encode base_url
  show_main2 on_no_content on_bad_request on_internal_server_error = record {
    verb = head;
    url = url_with encode (base_url +s "/") [];
    body = no_body;
    cases =
        (204, raw on_no_content)
        ∷ (400, raw on_bad_request)
        ∷ (500, raw on_internal_server_error)
        ∷ [];
  }

  unfoldable pub control_add_album :
      (on_ok : Option (List Effect))
      (on_bad_request on_unauthorized on_internal_server_error : Option (Json → List Effect))
      → Call Json parse encode base_url
  control_add_album on_ok on_bad_request on_unauthorized on_internal_server_error = record {
    verb = get;
    url = url_with encode (base_url +s "/add-album.html") [];
    body = no_body;
    cases =
        (200, raw on_ok)
        ∷ (400, parsed on_bad_request)
        ∷ (401, parsed on_unauthorized)
        ∷ (500, parsed on_internal_server_error)
        ∷ [];
  }

  unfoldable pub control_add_album2 :
      (on_ok on_bad_request on_unauthorized on_internal_server_error : Option (List Effect))
      → Call Json parse encode base_url
  control_add_album2 on_ok on_bad_request on_unauthorized on_internal_server_error = record {
    verb = head;
    url = url_with encode (base_url +s "/add-album.html") [];
    body = no_body;
    cases =
        (200, raw on_ok)
        ∷ (400, raw on_bad_request)
        ∷ (401, raw on_unauthorized)
        ∷ (500, raw on_internal_server_error)
        ∷ [];
  }

  unfoldable pub control_create_album :
      (body : Option String)
      (on_ok on_bad_request on_unauthorized on_internal_server_error : Option (Json → List Effect))
      → Call Json parse encode base_url
  control_create_album body on_ok on_bad_request on_unauthorized on_internal_server_error = record {
    verb = post;
    url = url_with encode (base_url +s "/album") [];
    body = json_of body;
    cases =
        (200, parsed on_ok)
        ∷ (400, parsed on_bad_request)
        ∷ (401, parsed on_unauthorized)
        ∷ (500, parsed on_internal_server_error)
        ∷ [];
  }

  unfoldable pub control_update_photo_album :
      (body : Option String) (on_no_content : Option (List Effect))
      (on_bad_request on_unauthorized on_internal_server_error : Option (Json → List Effect))
      → Call Json parse encode base_url
  control_update_photo_album body on_no_content on_bad_request on_unauthorized
        on_internal_server_error =
      record {
        verb = put;
        url = url_with encode (base_url +s "/album") [];
        body = json_of body;
        cases =
            (204, raw on_no_content)
            ∷ (400, parsed on_bad_request)
            ∷ (401, parsed on_unauthorized)
            ∷ (500, parsed on_internal_server_error)
            ∷ [];
      }

  unfoldable pub get_album_contents2 :
      (name : String) (on_ok on_bad_request on_internal_server_error : Option (List Effect))
      → Call Json parse encode base_url
  get_album_contents2 name on_ok on_bad_request on_internal_server_error = record {
    verb = head;
    url = url_with encode (base_url +s "/album-contents/" +s encode name +s ".json") [];
    body = no_body;
    cases = (200, raw on_ok) ∷ (400, raw on_bad_request) ∷ (500, raw on_internal_server_error) ∷ [];
  }

  unfoldable pub control_add_directory_recursive :
      (path : Option String)
      (on_ok on_bad_request on_unauthorized on_internal_server_error : Option (Json → List Effect))
      → Call Json parse encode base_url
  control_add_directory_recursive path on_ok on_bad_request on_unauthorized
        on_internal_server_error =
      record {
        verb = post;
        url = url_with encode (base_url +s "/album/add-recursive") [];
        body = form (param "path" path);
        cases =
            (200, parsed on_ok)
            ∷ (400, parsed on_bad_request)
            ∷ (401, parsed on_unauthorized)
            ∷ (500, parsed on_internal_server_error)
            ∷ [];
      }

  unfoldable pub control_get_photo_album :
      (hash : String)
      (on_ok on_bad_request on_unauthorized on_internal_server_error : Option (Json → List Effect))
      → Call Json parse encode base_url
  control_get_photo_album hash on_ok on_bad_request on_unauthorized on_internal_server_error =
      record {
        verb = get;
        url = url_with encode (base_url +s "/album/" +s encode hash +s ".json") [];
        body = no_body;
        cases =
            (200, parsed on_ok)
            ∷ (400, parsed on_bad_request)
            ∷ (401, parsed on_unauthorized)
            ∷ (500, parsed on_internal_server_error)
            ∷ [];
      }

  unfoldable pub control_get_photo_album2 :
      (hash : String)
      (on_ok on_bad_request on_unauthorized on_internal_server_error : Option (List Effect))
      → Call Json parse encode base_url
  control_get_photo_album2 hash on_ok on_bad_request on_unauthorized on_internal_server_error =
      record {
        verb = head;
        url = url_with encode (base_url +s "/album/" +s encode hash +s ".json") [];
        body = no_body;
        cases =
            (200, raw on_ok)
            ∷ (400, raw on_bad_request)
            ∷ (401, raw on_unauthorized)
            ∷ (500, raw on_internal_server_error)
            ∷ [];
      }
