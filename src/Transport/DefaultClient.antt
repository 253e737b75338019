-- ===== src/Transport/DefaultClient.antt =====
-- `DefaultHTTPClient` of internal/github/http.go: the requests that its methods build. Whether a
-- URL is accepted and how a request is sent are the libraries'.
pub mod Headers
pub mod Construction
use scafctl_plugin_auth_gith.Prelude.{String, ◌==◌, Option, none, some, [], ◌∷◌, if◌then◌else◌}
use scafctl_plugin_auth_gith.Effect.{Result, ok, Exec, lift, wrapped, ◌>>=◌, and_then}
use scafctl_plugin_auth_gith.Types.{Response}
use scafctl_plugin_auth_gith.World.{Form}
use scafctl_plugin_auth_gith.Transport.HeaderKeys.{canonical_key}

-- `http.Request`, as far as the methods fill it in. A header has one value.
pub record Request : Type 0 where
  pub method : String
  pub url : String
  pub headers : Form
  pub body : Option String

-- A map of headers, whose keys are canonical.
unfoldable pub put : String → String → Form → Form
put key value [] = (key, value) ∷ []
put key value ((k, v) ∷ headers) =
    if k == key then (key, value) ∷ headers else (k, v) ∷ put key value headers

unfoldable pub find : String → Form → Option String
find key [] = none
find key ((k, v) ∷ headers) = if k == key then some v else find key headers

-- `Header.Set`: the value replaces the one that the key has, however it is spelt.
unfoldable pub set_header : String → String → Form → Form
unfolding put canonical_key
set_header key value headers = put (canonical_key key) value headers

-- `Header.Get`, with nothing for a header that is not set.
unfoldable pub header : String → Form → Option String
unfolding find canonical_key
header key headers = find (canonical_key key) headers

-- The loop over the caller's headers, which the list gives in the order in which the loop meets
-- them: for a Go map it may be any.
unfoldable pub set_headers : Form → Form → Form
set_headers [] headers = headers
set_headers ((k, v) ∷ more) headers = set_headers more (set_header k v headers)

module _ (check_request : String → String → Result (Unit {0})) (encode : Form → String) where
  -- `http.NewRequestWithContext`, with no header set.
  new_request : String → String → Option String → Result Request
  new_request method url body =
      and_then (check_request method url)
        λ _. ok (record { method = method; url = url; headers = []; body = body })

  abbrev with_headers : Form → Request → Request
  with_headers headers r = record r { headers = set_headers headers r.headers }

  unfoldable pub form_request : String → Form → Result Request
  unfolding new_request
  form_request url form =
      and_then (wrapped "creating POST request" (new_request "POST" url (some (encode form)))) λ r.
        ok (
          with_headers
            (("Accept", "application/json")
              ∷ ("Content-Type", "application/x-www-form-urlencoded")
              ∷ [])
            r)

  unfoldable pub get_request : String → Form → Result Request
  unfolding new_request
  get_request url headers =
      and_then (wrapped "creating GET request" (new_request "GET" url none))
        λ r. ok (with_headers headers (with_headers (("Accept", "application/json") ∷ []) r))

  -- A body, if there is one, comes as what `json.Marshal` made of it.
  marshalled : Option (Result String) → Result (Option String)
  marshalled none = ok none
  marshalled (some r) = and_then (wrapped "marshaling JSON body" r) λ text. ok (some text)

  unfoldable pub json_request : String → Option (Result String) → Form → Result Request
  unfolding new_request marshalled
  json_request url body headers = and_then (marshalled body) λ text.
      and_then (wrapped "creating POST request" (new_request "POST" url text)) λ r. ok (
        with_headers headers (
          with_headers
            (("Accept", "application/vnd.github+json") ∷ ("Content-Type", "application/json") ∷ [])
            r))

  module _ {S : Type 0} (do_request : Request → Exec S Response) where
    unfoldable pub post_form : String → Form → Exec S Response
    post_form url form = do r ← lift (form_request url form); do_request r

    unfoldable pub get : String → Form → Exec S Response
    get url headers = do r ← lift (get_request url headers); do_request r

    unfoldable pub post_json : String → Option (Result String) → Form → Exec S Response
    post_json url body headers = do r ← lift (json_request url body headers); do_request r
