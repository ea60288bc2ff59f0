-- ===== src/Client/Methods/Shown.antt =====
-- The calls of the server for the pages of an album: methods of `Backend` in resources/static/client.js.
use Prim.Native.String.{String}
use photo_blog.Base.{Option, List, [], ◌∷◌}
use photo_blog.Results.{◌+s◌}
use photo_blog.Client.{Effect, get, head, no_body, param, url_with, raw, parsed, Call}

module _ (Json : Type 0) (parse : String → Option Json) (encode : String → String)
    (base_url : String) where
  unfoldable pub show_album :
      (name : String) (collab_key : Option String) (on_no_content : Option (List Effect))
      (on_bad_request on_forbidden on_internal_server_error : Option (Json → List Effect))
      → Call Json parse encode base_url
  show_album name collab_key on_no_content on_bad_request on_forbidden on_internal_server_error =
      record {
        verb = get;
        url =
            url_with encode (base_url +s "/" +s encode name +s "/") (param "collab_key" collab_key);
        body = no_body;
        cases =
            (204, raw on_no_content)
            ∷ (400, parsed on_bad_request)
            ∷ (403, parsed on_forbidden)
            ∷ (500, parsed on_internal_server_error)
            ∷ [];
      }

  unfoldable pub show_album2 :
      (name : String) (collab_key : Option String)
      (on_no_content on_bad_request on_forbidden on_internal_server_error : Option (List Effect))
      → Call Json parse encode base_url
  show_album2 name collab_key on_no_content on_bad_request on_forbidden on_internal_server_error =
      record {
        verb = head;
        url =
            url_with encode (base_url +s "/" +s encode name +s "/") (param "collab_key" collab_key);
        body = no_body;
        cases =
            (204, raw on_no_content)
            ∷ (400, raw on_bad_request)
            ∷ (403, raw on_forbidden)
            ∷ (500, raw on_internal_server_error)
            ∷ [];
      }

  unfoldable pub show_pano :
      (name hash : String) (on_no_content : Option (List Effect))
      (on_bad_request on_internal_server_error : Option (Json → List Effect))
      → Call Json parse encode base_url
  show_pano name hash on_no_content on_bad_request on_internal_server_error = record {
    verb = get;
    url = url_with encode (base_url +s "/" +s encode name +s "/pano-" +s encode hash +s ".html") [];
    body = no_body;
    cases =
        (204, raw on_no_content)
        ∷ (400, parsed on_bad_request)
        ∷ (500, parsed on_internal_server_error)
        ∷ [];
  }

  unfoldable pub show_pano2 :
      (name hash : String)
      (on_no_content on_bad_request on_internal_server_error : Option (List Effect))
      → Call Json parse encode base_url
  show_pano2 name hash on_no_content on_bad_request on_internal_server_error = record {
    verb = head;
    url = url_with encode (base_url +s "/" +s encode name +s "/pano-" +s encode hash +s ".html") [];
    body = no_body;
    cases =
        (204, raw on_no_content)
        ∷ (400, raw on_bad_request)
        ∷ (500, raw on_internal_server_error)
        ∷ [];
  }

  unfoldable pub show_album_at_image :
      (name hash : String) (collab_key : Option String) (on_no_content : Option (List Effect))
      (on_bad_request on_internal_server_error : Option (Json → List Effect))
      → Call Json parse encode base_url
  show_album_at_image name hash collab_key on_no_content on_bad_request on_internal_server_error =
      record {
        verb = get;
        url =
            url_with encode (base_url +s "/" +s encode name +s "/photo-" +s encode hash +s ".html")
              (param "collab_key" collab_key);
        body = no_body;
        cases =
            (204, raw on_no_content)
            ∷ (400, parsed on_bad_request)
            ∷ (500, parsed on_internal_server_error)
            ∷ [];
      }

  unfoldable pub show_album_at_image2 :
      (name hash : String) (collab_key : Option String)
      (on_no_content on_bad_request on_internal_server_error : Option (List Effect))
      → Call Json parse encode base_url
  show_album_at_image2 name hash collab_key on_no_content on_bad_request on_internal_server_error =
      record {
        verb = head;
        url =
            url_with encode (base_url +s "/" +s encode name +s "/photo-" +s encode hash +s ".html")
              (param "collab_key" collab_key);
        body = no_body;
        cases =
            (204, raw on_no_content)
            ∷ (400, raw on_bad_request)
            ∷ (500, raw on_internal_server_error)
            ∷ [];
      }
