-- ===== src/Client/Methods/Services.antt =====
-- The calls of the server for indexing, forms, map tiles and messages: methods of `Backend` in resources/static/client.js.
use Prim.Native.String.{String}
use photo_blog.Base.{Option, List, [], ◌∷◌}
use photo_blog.Results.{◌+s◌}
use photo_blog.Client.{Effect, get, head, post, no_body, json_of, url_with, raw, parsed, Call}

module _ (Json : Type 0) (parse : String → Option Json) (encode : String → String)
    (base_url : String) where
  unfoldable pub control_index_remote :
      (body : Option String) (on_accepted : Option (List Effect))
      (on_bad_request on_unauthorized on_internal_server_error : Option (Json → List Effect))
      → Call Json parse encode base_url
  control_index_remote body on_accepted on_bad_request on_unauthorized on_internal_server_error =
      record {
        verb = post;
        url = url_with encode (base_url +s "/index-remote") [];
        body = json_of body;
        cases =
            (202, raw on_accepted)
            ∷ (400, parsed on_bad_request)
            ∷ (401, parsed on_unauthorized)
            ∷ (500, parsed on_internal_server_error)
            ∷ [];
      }

  unfoldable pub swaggest_jsonform_go_repository_get_schema :
      (name : String) (on_ok on_not_found : Option (Json → List Effect))
      → Call Json parse encode base_url
  swaggest_jsonform_go_repository_get_schema name on_ok on_not_found = record {
    verb = get;
    url = url_with encode (base_url +s "/json-form/" +s encode name +s "-schema.json") [];
    body = no_body;
    cases = (200, parsed on_ok) ∷ (404, parsed on_not_found) ∷ [];
  }

  unfoldable pub swaggest_jsonform_go_repository_get_schema2 :
      (name : String) (on_ok on_not_found : Option (List Effect)) → Call Json parse encode base_url
  swaggest_jsonform_go_repository_get_schema2 name on_ok on_not_found = record {
    verb = head;
    url = url_with encode (base_url +s "/json-form/" +s encode name +s "-schema.json") [];
    body = no_body;
    cases = (200, raw on_ok) ∷ (404, raw on_not_found) ∷ [];
  }

  unfoldable pub control_login :
      (on_ok : Option (List Effect)) (on_unauthorized : Option (Json → List Effect))
      → Call Json parse encode base_url
  control_login on_ok on_unauthorized = record {
    verb = get;
    url = url_with encode (base_url +s "/login") [];
    body = no_body;
    cases = (200, raw on_ok) ∷ (401, parsed on_unauthorized) ∷ [];
  }

  unfoldable pub control_login2 :
      (on_ok on_unauthorized : Option (List Effect)) → Call Json parse encode base_url
  control_login2 on_ok on_unauthorized = record {
    verb = head;
    url = url_with encode (base_url +s "/login") [];
    body = no_body;
    cases = (200, raw on_ok) ∷ (401, raw on_unauthorized) ∷ [];
  }

  unfoldable pub map_tile :
      (s r z x y : String) (on_no_content : Option (List Effect)) → Call Json parse encode base_url
  map_tile s r z x y on_no_content = record {
    verb = get;
    url =
        url_with encode
          (base_url
            +s "/map-tile/"
            +s encode s
            +s "/"
            +s encode r
            +s "/"
            +s encode z
            +s "/"
            +s encode x
            +s "/"
            +s encode y
            +s ".png")
          [];
    body = no_body;
    cases = (204, raw on_no_content) ∷ [];
  }

  unfoldable pub map_tile2 :
      (s r z x y : String) (on_no_content : Option (List Effect)) → Call Json parse encode base_url
  map_tile2 s r z x y on_no_content = record {
    verb = head;
    url =
        url_with encode
          (base_url
            +s "/map-tile/"
            +s encode s
            +s "/"
            +s encode r
            +s "/"
            +s encode z
            +s "/"
            +s encode x
            +s "/"
            +s encode y
            +s ".png")
          [];
    body = no_body;
    cases = (204, raw on_no_content) ∷ [];
  }

  unfoldable pub add_message :
      (body : Option String) (on_ok : Option (Json → List Effect)) → Call Json parse encode base_url
  add_message body on_ok = record {
    verb = post;
    url = url_with encode (base_url +s "/message") [];
    body = json_of body;
    cases = (200, parsed on_ok) ∷ [];
  }

  unfoldable pub control_approve_message :
      (body : Option String) (on_no_content : Option (List Effect))
      (on_unauthorized : Option (Json → List Effect))
      → Call Json parse encode base_url
  control_approve_message body on_no_content on_unauthorized = record {
    verb = post;
    url = url_with encode (base_url +s "/message/approve") [];
    body = json_of body;
    cases = (204, raw on_no_content) ∷ (401, parsed on_unauthorized) ∷ [];
  }
