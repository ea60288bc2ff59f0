-- ===== src/Client/Methods/Settings.antt =====
-- The calls of the server for settings: methods of `Backend` in resources/static/client.js.
use Prim.Native.String.{String}
use photo_blog.Base.{Option, List, [], ◌∷◌}
use photo_blog.Results.{◌+s◌}
use photo_blog.Client.{
  Effect, get, head, post, no_body, json_of, param, url_with, raw, parsed, Call,
}

module _ (Json : Type 0) (parse : String → Option Json) (encode : String → String)
    (base_url : String) where
  unfoldable pub control_settings_set_appearance :
      (body : Option String) (on_no_content : Option (List Effect))
      (on_unauthorized : Option (Json → List Effect))
      → Call Json parse encode base_url
  control_settings_set_appearance body on_no_content on_unauthorized = record {
    verb = post;
    url = url_with encode (base_url +s "/settings/appearance.json") [];
    body = json_of body;
    cases = (204, raw on_no_content) ∷ (401, parsed on_unauthorized) ∷ [];
  }

  unfoldable pub control_settings_set_external_api :
      (body : Option String) (on_no_content : Option (List Effect))
      (on_unauthorized : Option (Json → List Effect))
      → Call Json parse encode base_url
  control_settings_set_external_api body on_no_content on_unauthorized = record {
    verb = post;
    url = url_with encode (base_url +s "/settings/external_api.json") [];
    body = json_of body;
    cases = (204, raw on_no_content) ∷ (401, parsed on_unauthorized) ∷ [];
  }

  unfoldable pub control_settings_set_image_prompt :
      (body : Option String) (on_no_content : Option (List Effect))
      (on_unauthorized : Option (Json → List Effect))
      → Call Json parse encode base_url
  control_settings_set_image_prompt body on_no_content on_unauthorized = record {
    verb = post;
    url = url_with encode (base_url +s "/settings/image_prompt.json") [];
    body = json_of body;
    cases = (204, raw on_no_content) ∷ (401, parsed on_unauthorized) ∷ [];
  }

  unfoldable pub control_settings_set_indexing :
      (body : Option String) (on_no_content : Option (List Effect))
      (on_unauthorized : Option (Json → List Effect))
      → Call Json parse encode base_url
  control_settings_set_indexing body on_no_content on_unauthorized = record {
    verb = post;
    url = url_with encode (base_url +s "/settings/indexing.json") [];
    body = json_of body;
    cases = (204, raw on_no_content) ∷ (401, parsed on_unauthorized) ∷ [];
  }

  unfoldable pub control_settings_set_maps :
      (body : Option String) (on_no_content : Option (List Effect))
      (on_unauthorized : Option (Json → List Effect))
      → Call Json parse encode base_url
  control_settings_set_maps body on_no_content on_unauthorized = record {
    verb = post;
    url = url_with encode (base_url +s "/settings/maps.json") [];
    body = json_of body;
    cases = (204, raw on_no_content) ∷ (401, parsed on_unauthorized) ∷ [];
  }

  unfoldable pub control_settings_set_password :
      (body : Option String) (on_no_content : Option (List Effect))
      (on_unauthorized : Option (Json → List Effect))
      → Call Json parse encode base_url
  control_settings_set_password body on_no_content on_unauthorized = record {
    verb = post;
    url = url_with encode (base_url +s "/settings/password.json") [];
    body = json_of body;
    cases = (204, raw on_no_content) ∷ (401, parsed on_unauthorized) ∷ [];
  }

  unfoldable pub control_settings_set_privacy :
      (body : Option String) (on_no_content : Option (List Effect))
      (on_unauthorized : Option (Json → List Effect))
      → Call Json parse encode base_url
  control_settings_set_privacy body on_no_content on_unauthorized = record {
    verb = post;
    url = url_with encode (base_url +s "/settings/privacy.json") [];
    body = json_of body;
    cases = (204, raw on_no_content) ∷ (401, parsed on_unauthorized) ∷ [];
  }

  unfoldable pub control_self_update :
      (version : Option String) (on_no_content : Option (List Effect))
      (on_unauthorized : Option (Json → List Effect))
      → Call Json parse encode base_url
  control_self_update version on_no_content on_unauthorized = record {
    verb = get;
    url = url_with encode (base_url +s "/settings/self-update") (param "version" version);
    body = no_body;
    cases = (204, raw on_no_content) ∷ (401, parsed on_unauthorized) ∷ [];
  }

  unfoldable pub control_self_update2 :
      (version : Option String) (on_no_content on_unauthorized : Option (List Effect))
      → Call Json parse encode base_url
  control_self_update2 version on_no_content on_unauthorized = record {
    verb = head;
    url = url_with encode (base_url +s "/settings/self-update") (param "version" version);
    body = no_body;
    cases = (204, raw on_no_content) ∷ (401, raw on_unauthorized) ∷ [];
  }

  unfoldable pub control_settings_set_storage :
      (body : Option String) (on_no_content : Option (List Effect))
      (on_unauthorized : Option (Json → List Effect))
      → Call Json parse encode base_url
  control_settings_set_storage body on_no_content on_unauthorized = record {
    verb = post;
    url = url_with encode (base_url +s "/settings/storage.json") [];
    body = json_of body;
    cases = (204, raw on_no_content) ∷ (401, parsed on_unauthorized) ∷ [];
  }

  unfoldable pub control_version :
      (on_no_content : Option (List Effect)) (on_unauthorized : Option (Json → List Effect))
      → Call Json parse encode base_url
  control_version on_no_content on_unauthorized = record {
    verb = get;
    url = url_with encode (base_url +s "/settings/version.html") [];
    body = no_body;
    cases = (204, raw on_no_content) ∷ (401, parsed on_unauthorized) ∷ [];
  }

  unfoldable pub control_version2 :
      (on_no_content on_unauthorized : Option (List Effect)) → Call Json parse encode base_url
  control_version2 on_no_content on_unauthorized = record {
    verb = head;
    url = url_with encode (base_url +s "/settings/version.html") [];
    body = no_body;
    cases = (204, raw on_no_content) ∷ (401, raw on_unauthorized) ∷ [];
  }

  unfoldable pub control_settings_set_visitors :
      (body : Option String) (on_no_content : Option (List Effect))
      (on_unauthorized : Option (Json → List Effect))
      → Call Json parse encode base_url
  control_settings_set_visitors body on_no_content on_unauthorized = record {
    verb = post;
    url = url_with encode (base_url +s "/settings/visitors.json") [];
    body = json_of body;
    cases = (204, raw on_no_content) ∷ (401, parsed on_unauthorized) ∷ [];
  }
