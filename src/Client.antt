-- ===== src/Client.antt =====
-- The calls of the server's interface that the pages make: methods of `Backend` in
-- resources/static/client.js, as a request and the handling of its reply, and the functions of
-- resources/static/album_extra.js and resources/static/album.js that call them.
pub mod Actions
pub mod Methods
pub mod Urls
mod Tests
use Prim.Native.String
use Prim.Native.String.{String}
use photo_blog.Base.{
  ℕ, Bool, true, false, Option, none, some, List, [], ◌∷◌, ◌++◌, ◌==◌, if◌then◌else◌,
}
use photo_blog.Base.Int.{ℤ}

-- A finished request: `x.status` and `x.responseText`.
pub record Reply : Type 0 where
  pub status : ℕ
  pub text : String

-- What a page does. `thrown` stands for an exception that nothing catches, `rendered` for the
-- rendering of an album, `prepended` for the hearts of the captions.
pub data Effect : Type 0 where
  alert : String → Effect
  go_to : String → Effect
  remove : String → Effect
  rendered prepended flipped thrown : Effect
  -- an image is put before an element of the gallery, and takes over its time
  reordered : (hash : String) (target : ℕ) (before_ts : Option ℤ) → Effect

pub data Body : Type 0 where
  no_body : Body
  json : (text : String) → Body
  form : (fields : List (String × String)) → Body
  image_hash : String → Body
  image_time : (album_name image_hash : String) (timestamp : Option ℤ) → Body

pub data Verb : Type 0 where
  get head post put delete patch options trace : Verb

-- `slice(0, -1)`
abbrev pub drop_last : String → String
drop_last String.[] = ""
drop_last (String.◌∷◌ c String.[]) = ""
drop_last (String.◌∷◌ c (String.◌∷◌ d s)) = String.◌∷◌ c (drop_last (String.◌∷◌ d s))

-- The loop-free chain of `if (req.x != null) { url += 'x=' + encodeURIComponent(req.x) + '&' }`,
-- over the parameters that are set.
abbrev pub add_params : (encode : String → String) → String → List (String × String) → String
add_params encode url [] = url
add_params encode url ((k, v) ∷ params) =
    add_params encode
      (String.◌++◌ url (String.◌++◌ k (String.◌++◌ "=" (String.◌++◌ (encode v) "&")))) params

unfoldable pub url_with : (encode : String → String) → String → List (String × String) → String
url_with encode path params = drop_last (add_params encode (String.◌++◌ path "?") params)

-- A parameter that is null or undefined is left out.
abbrev pub param : String → Option String → List (String × String)
param k none = []
param k (some v) = (k, v) ∷ []

-- A body that is undefined is not sent.
abbrev pub json_of : Option String → Body
json_of none = no_body
json_of (some text) = json text

-- `parse` is `JSON.parse`, `none` where it throws; `encode` is `encodeURIComponent`; `base_url` is
-- `this.baseURL`.
module _ (Json : Type 0) (parse : String → Option Json) (encode : String → String)
    (base_url : String) where
  -- A callback for the request itself, or for the parsed text of the reply; `none` where it is not
  -- a function.
  pub data Callback : Type 0 where
    raw : Option (List Effect) → Callback
    parsed : Option (Json → List Effect) → Callback

  abbrev pub call : Callback → Reply → List Effect
  call (raw none) reply = []
  call (raw (some effects)) reply = effects
  call (parsed none) reply = []
  call (parsed (some f)) reply = elim (parse reply.text) [ none ↦ thrown ∷ [] | some j ↦ f j ]

  -- `switch (x.status)`
  unfoldable pub dispatch : List (ℕ × Callback) → Reply → List Effect
  dispatch [] reply = thrown ∷ []
  dispatch ((status, callback) ∷ cases) reply =
      let rest = dispatch cases reply in
      if reply.status == status then call callback reply else rest

  pub record Call : Type 0 where
    pub verb : Verb
    pub url : String
    pub body : Body
    pub cases : List (ℕ × Callback)

  abbrev pub under : String → String → String
  under path name = String.◌++◌ base_url (String.◌++◌ path (encode name))

  abbrev pub Raw : Type 0
  Raw = Option (List Effect)

  abbrev pub Parsed : Type 0
  Parsed = Option (Json → List Effect)

  unfoldable pub get_album_contents :
      (name : String) (on_ok on_bad_request on_internal_server_error : Parsed) → Call
  get_album_contents name on_ok on_bad_request on_internal_server_error = record {
    verb = get;
    url = url_with encode (String.◌++◌ (under "/album-contents/" name) ".json") [];
    body = no_body;
    cases =
        (200, parsed on_ok)
        ∷ (400, parsed on_bad_request)
        ∷ (500, parsed on_internal_server_error)
        ∷ [];
  }

  unfoldable pub control_set_album_image_time :
      (body : Body) → Raw → (on_unauthorized : Parsed) → Call
  control_set_album_image_time body on_no_content on_unauthorized = record {
    verb = put;
    url = url_with encode (String.◌++◌ base_url "/album-image-time") [];
    body = body;
    cases = (204, raw on_no_content) ∷ (401, parsed on_unauthorized) ∷ [];
  }

  unfoldable pub control_delete_album :
      (name : String) → Raw → (on_unauthorized on_internal_server_error : Parsed) → Call
  control_delete_album name on_no_content on_unauthorized on_internal_server_error = record {
    verb = delete;
    url = url_with encode (under "/album/" name) [];
    body = no_body;
    cases =
        (204, raw on_no_content)
        ∷ (401, parsed on_unauthorized)
        ∷ (500, parsed on_internal_server_error)
        ∷ [];
  }

  unfoldable pub control_add_to_album :
      (name : String) (body : Body)
      → Raw
      → (on_unauthorized on_internal_server_error : Parsed) → Call
  control_add_to_album name body on_no_content on_unauthorized on_internal_server_error = record {
    verb = post;
    url = url_with encode (under "/album/" name) [];
    body = body;
    cases =
        (204, raw on_no_content)
        ∷ (401, parsed on_unauthorized)
        ∷ (500, parsed on_internal_server_error)
        ∷ [];
  }

  unfoldable pub control_remove_from_album :
      (name hash : String) (collab_key : Option String)
      → Raw
      → (on_internal_server_error : Parsed) → Call
  control_remove_from_album name hash collab_key on_no_content on_internal_server_error = record {
    verb = delete;
    url =
        url_with encode (String.◌++◌ (under "/album/" name) (String.◌++◌ "/" (encode hash)))
          (param "collabKey" collab_key);
    body = no_body;
    cases = (204, raw on_no_content) ∷ (500, parsed on_internal_server_error) ∷ [];
  }

  unfoldable pub control_index_album :
      (name : String)
      (rebuild_exif rebuild_gps rebuild_image_size rebuild_thumbnails : Option String)
      → Raw
      → (on_bad_request on_unauthorized on_internal_server_error : Parsed) → Call
  control_index_album name rebuild_exif rebuild_gps rebuild_image_size rebuild_thumbnails
        on_accepted on_bad_request on_unauthorized on_internal_server_error =
      record {
        verb = post;
        url = url_with encode (under "/index/" name) [];
        body = form (
            param "rebuild_exif" rebuild_exif
            ++ (param "rebuild_gps" rebuild_gps
                ++ (param "rebuild_image_size" rebuild_image_size
                    ++ param "rebuild_thumbnails" rebuild_thumbnails)));
        cases =
            (202, raw on_accepted)
            ∷ (400, parsed on_bad_request)
            ∷ (401, parsed on_unauthorized)
            ∷ (500, parsed on_internal_server_error)
            ∷ [];
      }

  unfoldable pub get_favorite : (album_hash : Option String) (on_ok : Parsed) → Call
  get_favorite album_hash on_ok = record {
    verb = get;
    url = url_with encode (String.◌++◌ base_url "/favorite") (param "album_hash" album_hash);
    body = no_body;
    cases = (200, parsed on_ok) ∷ [];
  }

  unfoldable pub add_favorite : (hash : Option String) → Raw → Call
  add_favorite hash on_no_content = record {
    verb = post;
    url = url_with encode (String.◌++◌ base_url "/favorite") (param "image_hash" hash);
    body = no_body;
    cases = (204, raw on_no_content) ∷ [];
  }

  unfoldable pub delete_favorite : (hash : Option String) → Raw → Call
  delete_favorite hash on_no_content = record {
    verb = delete;
    url = url_with encode (String.◌++◌ base_url "/favorite") (param "image_hash" hash);
    body = no_body;
    cases = (204, raw on_no_content) ∷ [];
  }
