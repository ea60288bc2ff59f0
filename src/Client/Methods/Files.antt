-- ===== src/Client/Methods/Files.antt =====
-- The calls of the server for files, thumbnails and tracks: methods of `Backend` in resources/static/client.js.
use Prim.Native.String.{String}
use photo_blog.Base.{Option, List, [], ◌∷◌}
use photo_blog.Results.{◌+s◌}
use photo_blog.Client.{Effect, get, head, no_body, url_with, raw, Call}

module _ (Json : Type 0) (parse : String → Option Json) (encode : String → String)
    (base_url : String) where
  unfoldable pub serve_site_file :
      (file : String) (on_no_content : Option (List Effect)) → Call Json parse encode base_url
  serve_site_file file on_no_content = record {
    verb = get;
    url = url_with encode (base_url +s "/site/" +s encode file) [];
    body = no_body;
    cases = (204, raw on_no_content) ∷ [];
  }

  unfoldable pub serve_site_file2 :
      (file : String) (on_no_content : Option (List Effect)) → Call Json parse encode base_url
  serve_site_file2 file on_no_content = record {
    verb = head;
    url = url_with encode (base_url +s "/site/" +s encode file) [];
    body = no_body;
    cases = (204, raw on_no_content) ∷ [];
  }

  unfoldable pub show_thumb :
      (size hash : String) (on_no_content : Option (List Effect)) → Call Json parse encode base_url
  show_thumb size hash on_no_content = record {
    verb = get;
    url = url_with encode (base_url +s "/thumb/" +s encode size +s "/" +s encode hash +s ".jpg") [];
    body = no_body;
    cases = (204, raw on_no_content) ∷ [];
  }

  unfoldable pub show_thumb2 :
      (size hash : String) (on_no_content : Option (List Effect)) → Call Json parse encode base_url
  show_thumb2 size hash on_no_content = record {
    verb = head;
    url = url_with encode (base_url +s "/thumb/" +s encode size +s "/" +s encode hash +s ".jpg") [];
    body = no_body;
    cases = (204, raw on_no_content) ∷ [];
  }

  unfoldable pub download_gpx :
      (hash : String) (on_no_content : Option (List Effect)) → Call Json parse encode base_url
  download_gpx hash on_no_content = record {
    verb = get;
    url = url_with encode (base_url +s "/track/" +s encode hash +s ".gpx") [];
    body = no_body;
    cases = (204, raw on_no_content) ∷ [];
  }

  unfoldable pub download_gpx2 :
      (hash : String) (on_no_content : Option (List Effect)) → Call Json parse encode base_url
  download_gpx2 hash on_no_content = record {
    verb = head;
    url = url_with encode (base_url +s "/track/" +s encode hash +s ".gpx") [];
    body = no_body;
    cases = (204, raw on_no_content) ∷ [];
  }
