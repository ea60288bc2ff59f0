-- ===== src/Client/Methods/OpenGraph.antt =====
-- The calls of the server for the pages for previews of links: methods of `Backend` in resources/static/client.js.
use Prim.Native.String.{String}
use photo_blog.Base.{Option, List, [], ◌∷◌}
use photo_blog.Results.{◌+s◌}
use photo_blog.Client.{
  Effect, delete, get, head, options, patch, post, put, trace, no_body, param, url_with, raw, Call,
}

module _ (Json : Type 0) (parse : String → Option Json) (encode : String → String)
    (base_url : String) where
  unfoldable pub og4 :
      (target_url : Option String) (on_no_content : Option (List Effect))
      → Call Json parse encode base_url
  og4 target_url on_no_content = record {
    verb = delete;
    url = url_with encode (base_url +s "/og.html") (param "target_url" target_url);
    body = no_body;
    cases = (204, raw on_no_content) ∷ [];
  }

  unfoldable pub og :
      (target_url : Option String) (on_no_content : Option (List Effect))
      → Call Json parse encode base_url
  og target_url on_no_content = record {
    verb = get;
    url = url_with encode (base_url +s "/og.html") (param "target_url" target_url);
    body = no_body;
    cases = (204, raw on_no_content) ∷ [];
  }

  unfoldable pub og6 :
      (target_url : Option String) (on_no_content : Option (List Effect))
      → Call Json parse encode base_url
  og6 target_url on_no_content = record {
    verb = head;
    url = url_with encode (base_url +s "/og.html") (param "target_url" target_url);
    body = no_body;
    cases = (204, raw on_no_content) ∷ [];
  }

  unfoldable pub og5 :
      (target_url : Option String) (on_no_content : Option (List Effect))
      → Call Json parse encode base_url
  og5 target_url on_no_content = record {
    verb = options;
    url = url_with encode (base_url +s "/og.html") (param "target_url" target_url);
    body = no_body;
    cases = (204, raw on_no_content) ∷ [];
  }

  unfoldable pub og7 :
      (target_url : Option String) (on_no_content : Option (List Effect))
      → Call Json parse encode base_url
  og7 target_url on_no_content = record {
    verb = patch;
    url = url_with encode (base_url +s "/og.html") (param "target_url" target_url);
    body = no_body;
    cases = (204, raw on_no_content) ∷ [];
  }

  unfoldable pub og3 :
      (target_url : Option String) (on_no_content : Option (List Effect))
      → Call Json parse encode base_url
  og3 target_url on_no_content = record {
    verb = post;
    url = url_with encode (base_url +s "/og.html") (param "target_url" target_url);
    body = no_body;
    cases = (204, raw on_no_content) ∷ [];
  }

  unfoldable pub og2 :
      (target_url : Option String) (on_no_content : Option (List Effect))
      → Call Json parse encode base_url
  og2 target_url on_no_content = record {
    verb = put;
    url = url_with encode (base_url +s "/og.html") (param "target_url" target_url);
    body = no_body;
    cases = (204, raw on_no_content) ∷ [];
  }

  unfoldable pub og8 :
      (target_url : Option String) (on_no_content : Option (List Effect))
      → Call Json parse encode base_url
  og8 target_url on_no_content = record {
    verb = trace;
    url = url_with encode (base_url +s "/og.html") (param "target_url" target_url);
    body = no_body;
    cases = (204, raw on_no_content) ∷ [];
  }
