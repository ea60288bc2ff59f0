-- ===== src/Client/Methods/Help.antt =====
-- The calls of the server for the pages of help: methods of `Backend` in resources/static/client.js.
use Prim.Native.String.{String}
use photo_blog.Base.{Option, List, [], ◌∷◌}
use photo_blog.Results.{◌+s◌}
use photo_blog.Client.{Effect, get, head, no_body, url_with, raw, Call}

module _ (Json : Type 0) (parse : String → Option Json) (encode : String → String)
    (base_url : String) where
  unfoldable pub help_index :
      (on_no_content : Option (List Effect)) → Call Json parse encode base_url
  help_index on_no_content = record {
    verb = get;
    url = url_with encode (base_url +s "/help/") [];
    body = no_body;
    cases = (204, raw on_no_content) ∷ [];
  }

  unfoldable pub help_index2 :
      (on_no_content : Option (List Effect)) → Call Json parse encode base_url
  help_index2 on_no_content = record {
    verb = head;
    url = url_with encode (base_url +s "/help/") [];
    body = no_body;
    cases = (204, raw on_no_content) ∷ [];
  }

  unfoldable pub help_serve_file :
      (file : String) (on_no_content : Option (List Effect)) → Call Json parse encode base_url
  help_serve_file file on_no_content = record {
    verb = get;
    url = url_with encode (base_url +s "/help/" +s encode file) [];
    body = no_body;
    cases = (204, raw on_no_content) ∷ [];
  }

  unfoldable pub help_serve_file2 :
      (file : String) (on_no_content : Option (List Effect)) → Call Json parse encode base_url
  help_serve_file2 file on_no_content = record {
    verb = head;
    url = url_with encode (base_url +s "/help/" +s encode file) [];
    body = no_body;
    cases = (204, raw on_no_content) ∷ [];
  }

  unfoldable pub help_markdown :
      (file : String) (on_no_content : Option (List Effect)) → Call Json parse encode base_url
  help_markdown file on_no_content = record {
    verb = get;
    url = url_with encode (base_url +s "/help/" +s encode file +s ".md") [];
    body = no_body;
    cases = (204, raw on_no_content) ∷ [];
  }

  unfoldable pub help_markdown2 :
      (file : String) (on_no_content : Option (List Effect)) → Call Json parse encode base_url
  help_markdown2 file on_no_content = record {
    verb = head;
    url = url_with encode (base_url +s "/help/" +s encode file +s ".md") [];
    body = no_body;
    cases = (204, raw on_no_content) ∷ [];
  }
