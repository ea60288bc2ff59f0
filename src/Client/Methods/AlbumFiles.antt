-- ===== src/Client/Methods/AlbumFiles.antt =====
-- The calls of the server for the files of an album: methods of `Backend` in resources/static/client.js.
use Prim.Native.String.{String}
use photo_blog.Base.{Option, List, [], ◌∷◌}
use photo_blog.Results.{◌+s◌}
use photo_blog.Client.{Effect, get, head, post, no_body, form, param, url_with, raw, parsed, Call}

module _ (Json : Type 0) (parse : String → Option Json) (encode : String → String)
    (base_url : String) where
  unfoldable pub download_album :
      (name : String) (favorite : Option String) (on_no_content : Option (List Effect))
      → Call Json parse encode base_url
  download_album name favorite on_no_content = record {
    verb = get;
    url =
        url_with encode (base_url +s "/album/" +s encode name +s ".zip")
          (param "favorite" favorite);
    body = no_body;
    cases = (204, raw on_no_content) ∷ [];
  }

  unfoldable pub download_album2 :
      (name : String) (favorite : Option String) (on_no_content : Option (List Effect))
      → Call Json parse encode base_url
  download_album2 name favorite on_no_content = record {
    verb = head;
    url =
        url_with encode (base_url +s "/album/" +s encode name +s ".zip")
          (param "favorite" favorite);
    body = no_body;
    cases = (204, raw on_no_content) ∷ [];
  }

  unfoldable pub control_add_directory :
      (name : String) (path : Option String)
      (on_ok on_bad_request on_unauthorized on_internal_server_error : Option (Json → List Effect))
      → Call Json parse encode base_url
  control_add_directory name path on_ok on_bad_request on_unauthorized on_internal_server_error =
      record {
        verb = post;
        url = url_with encode (base_url +s "/album/" +s encode name +s "/directory") [];
        body = form (param "path" path);
        cases =
            (200, parsed on_ok)
            ∷ (400, parsed on_bad_request)
            ∷ (401, parsed on_unauthorized)
            ∷ (500, parsed on_internal_server_error)
            ∷ [];
      }

  unfoldable pub control_add_remote :
      (name : String) (add_missing : Option String) (url : Option String)
      (on_ok on_bad_request on_unauthorized on_internal_server_error : Option (Json → List Effect))
      → Call Json parse encode base_url
  control_add_remote name add_missing url on_ok on_bad_request on_unauthorized
        on_internal_server_error =
      record {
        verb = post;
        url =
            url_with encode (base_url +s "/album/" +s encode name +s "/url")
              (param "add_missing" add_missing);
        body = form (param "url" url);
        cases =
            (200, parsed on_ok)
            ∷ (400, parsed on_bad_request)
            ∷ (401, parsed on_unauthorized)
            ∷ (500, parsed on_internal_server_error)
            ∷ [];
      }

  unfoldable pub get_albums :
      (on_ok on_unauthorized on_internal_server_error : Option (Json → List Effect))
      → Call Json parse encode base_url
  get_albums on_ok on_unauthorized on_internal_server_error = record {
    verb = get;
    url = url_with encode (base_url +s "/albums.json") [];
    body = no_body;
    cases =
        (200, parsed on_ok)
        ∷ (401, parsed on_unauthorized)
        ∷ (500, parsed on_internal_server_error)
        ∷ [];
  }

  unfoldable pub get_albums2 :
      (on_ok on_unauthorized on_internal_server_error : Option (List Effect))
      → Call Json parse encode base_url
  get_albums2 on_ok on_unauthorized on_internal_server_error = record {
    verb = head;
    url = url_with encode (base_url +s "/albums.json") [];
    body = no_body;
    cases =
        (200, raw on_ok) ∷ (401, raw on_unauthorized) ∷ (500, raw on_internal_server_error) ∷ [];
  }

  unfoldable pub control_cleanup_remote :
      (on_accepted : Option (List Effect)) (on_unauthorized : Option (Json → List Effect))
      → Call Json parse encode base_url
  control_cleanup_remote on_accepted on_unauthorized = record {
    verb = post;
    url = url_with encode (base_url +s "/cleanup-remote") [];
    body = no_body;
    cases = (202, raw on_accepted) ∷ (401, parsed on_unauthorized) ∷ [];
  }
