-- ===== src/Client/Methods/Editing.antt =====
-- The calls of the server for the pages for editing: methods of `Backend` in resources/static/client.js.
use Prim.Native.String.{String}
use photo_blog.Base.{Option, List, [], ◌∷◌}
use photo_blog.Results.{◌+s◌}
use photo_blog.Client.{Effect, get, head, put, no_body, json_of, url_with, raw, parsed, Call}

module _ (Json : Type 0) (parse : String → Option Json) (encode : String → String)
    (base_url : String) where
  unfoldable pub control_edit_album :
      (hash : String) (on_ok : Option (List Effect))
      (on_bad_request on_unauthorized on_internal_server_error : Option (Json → List Effect))
      → Call Json parse encode base_url
  control_edit_album hash on_ok on_bad_request on_unauthorized on_internal_server_error = record {
    verb = get;
    url = url_with encode (base_url +s "/edit/album/" +s encode hash +s ".html") [];
    body = no_body;
    cases =
        (200, raw on_ok)
        ∷ (400, parsed on_bad_request)
        ∷ (401, parsed on_unauthorized)
        ∷ (500, parsed on_internal_server_error)
        ∷ [];
  }

  unfoldable pub control_edit_album2 :
      (hash : String)
      (on_ok on_bad_request on_unauthorized on_internal_server_error : Option (List Effect))
      → Call Json parse encode base_url
  control_edit_album2 hash on_ok on_bad_request on_unauthorized on_internal_server_error = record {
    verb = head;
    url = url_with encode (base_url +s "/edit/album/" +s encode hash +s ".html") [];
    body = no_body;
    cases =
        (200, raw on_ok)
        ∷ (400, raw on_bad_request)
        ∷ (401, raw on_unauthorized)
        ∷ (500, raw on_internal_server_error)
        ∷ [];
  }

  unfoldable pub control_edit_image :
      (hash : String) (on_ok : Option (List Effect))
      (on_bad_request on_unauthorized on_internal_server_error : Option (Json → List Effect))
      → Call Json parse encode base_url
  control_edit_image hash on_ok on_bad_request on_unauthorized on_internal_server_error = record {
    verb = get;
    url = url_with encode (base_url +s "/edit/image/" +s encode hash +s ".html") [];
    body = no_body;
    cases =
        (200, raw on_ok)
        ∷ (400, parsed on_bad_request)
        ∷ (401, parsed on_unauthorized)
        ∷ (500, parsed on_internal_server_error)
        ∷ [];
  }

  unfoldable pub control_edit_image2 :
      (hash : String)
      (on_ok on_bad_request on_unauthorized on_internal_server_error : Option (List Effect))
      → Call Json parse encode base_url
  control_edit_image2 hash on_ok on_bad_request on_unauthorized on_internal_server_error = record {
    verb = head;
    url = url_with encode (base_url +s "/edit/image/" +s encode hash +s ".html") [];
    body = no_body;
    cases =
        (200, raw on_ok)
        ∷ (400, raw on_bad_request)
        ∷ (401, raw on_unauthorized)
        ∷ (500, raw on_internal_server_error)
        ∷ [];
  }

  unfoldable pub control_settings_edit_admin_password :
      (on_ok : Option (List Effect))
      (on_unauthorized on_internal_server_error : Option (Json → List Effect))
      → Call Json parse encode base_url
  control_settings_edit_admin_password on_ok on_unauthorized on_internal_server_error = record {
    verb = get;
    url = url_with encode (base_url +s "/edit/password.html") [];
    body = no_body;
    cases =
        (200, raw on_ok)
        ∷ (401, parsed on_unauthorized)
        ∷ (500, parsed on_internal_server_error)
        ∷ [];
  }

  unfoldable pub control_settings_edit_admin_password2 :
      (on_ok on_unauthorized on_internal_server_error : Option (List Effect))
      → Call Json parse encode base_url
  control_settings_edit_admin_password2 on_ok on_unauthorized on_internal_server_error = record {
    verb = head;
    url = url_with encode (base_url +s "/edit/password.html") [];
    body = no_body;
    cases =
        (200, raw on_ok) ∷ (401, raw on_unauthorized) ∷ (500, raw on_internal_server_error) ∷ [];
  }

  unfoldable pub control_settings_edit :
      (on_ok : Option (List Effect))
      (on_unauthorized on_internal_server_error : Option (Json → List Effect))
      → Call Json parse encode base_url
  control_settings_edit on_ok on_unauthorized on_internal_server_error = record {
    verb = get;
    url = url_with encode (base_url +s "/edit/settings.html") [];
    body = no_body;
    cases =
        (200, raw on_ok)
        ∷ (401, parsed on_unauthorized)
        ∷ (500, parsed on_internal_server_error)
        ∷ [];
  }

  unfoldable pub control_settings_edit2 :
      (on_ok on_unauthorized on_internal_server_error : Option (List Effect))
      → Call Json parse encode base_url
  control_settings_edit2 on_ok on_unauthorized on_internal_server_error = record {
    verb = head;
    url = url_with encode (base_url +s "/edit/settings.html") [];
    body = no_body;
    cases =
        (200, raw on_ok) ∷ (401, raw on_unauthorized) ∷ (500, raw on_internal_server_error) ∷ [];
  }

  unfoldable pub control_update_photo_exif :
      (body : Option String) (on_no_content : Option (List Effect))
      (on_bad_request on_unauthorized on_internal_server_error : Option (Json → List Effect))
      → Call Json parse encode base_url
  control_update_photo_exif body on_no_content on_bad_request on_unauthorized
        on_internal_server_error =
      record {
        verb = put;
        url = url_with encode (base_url +s "/exif") [];
        body = json_of body;
        cases =
            (204, raw on_no_content)
            ∷ (400, parsed on_bad_request)
            ∷ (401, parsed on_unauthorized)
            ∷ (500, parsed on_internal_server_error)
            ∷ [];
      }

  unfoldable pub control_get_photo_exif :
      (hash : String)
      (on_ok on_bad_request on_unauthorized on_internal_server_error : Option (Json → List Effect))
      → Call Json parse encode base_url
  control_get_photo_exif hash on_ok on_bad_request on_unauthorized on_internal_server_error =
      record {
        verb = get;
        url = url_with encode (base_url +s "/exif/" +s encode hash +s ".json") [];
        body = no_body;
        cases =
            (200, parsed on_ok)
            ∷ (400, parsed on_bad_request)
            ∷ (401, parsed on_unauthorized)
            ∷ (500, parsed on_internal_server_error)
            ∷ [];
      }

  unfoldable pub control_get_photo_exif2 :
      (hash : String)
      (on_ok on_bad_request on_unauthorized on_internal_server_error : Option (List Effect))
      → Call Json parse encode base_url
  control_get_photo_exif2 hash on_ok on_bad_request on_unauthorized on_internal_server_error =
      record {
        verb = head;
        url = url_with encode (base_url +s "/exif/" +s encode hash +s ".json") [];
        body = no_body;
        cases =
            (200, raw on_ok)
            ∷ (400, raw on_bad_request)
            ∷ (401, raw on_unauthorized)
            ∷ (500, raw on_internal_server_error)
            ∷ [];
      }

  unfoldable pub serve_favicon :
      (on_no_content : Option (List Effect)) → Call Json parse encode base_url
  serve_favicon on_no_content = record {
    verb = get;
    url = url_with encode (base_url +s "/favicon.ico") [];
    body = no_body;
    cases = (204, raw on_no_content) ∷ [];
  }

  unfoldable pub serve_favicon2 :
      (on_no_content : Option (List Effect)) → Call Json parse encode base_url
  serve_favicon2 on_no_content = record {
    verb = head;
    url = url_with encode (base_url +s "/favicon.ico") [];
    body = no_body;
    cases = (204, raw on_no_content) ∷ [];
  }
