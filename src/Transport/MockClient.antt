-- ===== src/Transport/MockClient.antt =====
-- `MockHTTPClient` of internal/github/mock.go: canned responses in order, and a record of every
-- request. `encode` stands for `json.Marshal` of a body.
pub mod Order
use scafctl_plugin_auth_gith.Prelude.{
  String, ℕ, zero, suc, ◌+◌, Option, none, some, List, [], ◌∷◌, ◌++◌,
}
use scafctl_plugin_auth_gith.Effect.{Result, ok, err, Exec}
use scafctl_plugin_auth_gith.Types.{Response}
use scafctl_plugin_auth_gith.World.{Form}

pub record MockRequest : Type 0 where
  pub method : String
  pub endpoint : String
  pub form : Form
  pub headers : Form

-- The body is what its marshalling gives, or nothing where it is nil.
pub record MockResponse : Type 0 where
  pub status_code : ℕ
  pub body : Option (Result String)
  pub failure : Option String

pub record MockClient : Type 0 where
  pub requests : List MockRequest
  pub responses : List MockResponse
  pub call_index : ℕ

abbrev pub new_mock : MockClient
new_mock = record { requests = []; responses = []; call_index = 0 }

abbrev pub get_elem? {ℓ} : {A : Type ℓ} → List A → ℕ → Option A
get_elem? [] i = none
get_elem? (x ∷ xs) zero = some x
get_elem? (x ∷ xs) (suc i) = get_elem? xs i

unfoldable pub add_response : ℕ → Option (Result String) → MockClient → MockClient
add_response status body m = record m {
  responses = m.responses ++ (record { status_code = status; body = body; failure = none } ∷ []);
}

unfoldable pub add_error : String → MockClient → MockClient
add_error e m = record m {
  responses = m.responses ++ (record { status_code = 0; body = none; failure = some e } ∷ []);
}

abbrev with_body : ℕ → Result String → Result Response
with_body status (ok text) = ok (record { status_code = status; body = text })
with_body status (err e) = err e
with_body status (Result.panic e) = Result.panic e

abbrev body_or_nothing : Option (Result String) → Result String
body_or_nothing none = ok ""
body_or_nothing (some r) = r

unfoldable pub canned : MockResponse → Result Response
canned resp = elim resp.failure [
  | some e ↦ err e
  | none ↦ with_body resp.status_code (body_or_nothing resp.body)
]

abbrev pub no_mock_response : Response
no_mock_response = record {
  status_code = 500;
  body = "{\"error\": \"no mock response configured\"}";
}

abbrev recorded : MockRequest → MockClient → MockClient
recorded r m = record m { requests = m.requests ++ (r ∷ []) }

-- The response at the call index, which then moves on; past the last one a canned status of 500.
answer : Option MockResponse → MockClient → Result Response × MockClient
answer none m = (ok no_mock_response, m)
answer (some resp) m = (canned resp, record m { call_index = m.call_index + 1 })

unfoldable pub next_response : MockRequest → Exec MockClient Response
unfolding answer canned
next_response r m = answer (get_elem? m.responses m.call_index) (recorded r m)

-- The three methods, for a context that has ended or not.
abbrev unless_ended : Option String → Exec MockClient Response → Exec MockClient Response
unless_ended none m s = m s
unless_ended (some e) m s = (err e, s)

unfoldable pub post_form : Option String → String → Form → Exec MockClient Response
unfolding next_response
post_form ended endpoint form =
    unless_ended ended
      (next_response (record { method = "POST"; endpoint = endpoint; form = form; headers = [] }))

unfoldable pub get : Option String → String → Form → Exec MockClient Response
unfolding next_response
get ended endpoint headers =
    unless_ended ended
      (next_response (record { method = "GET"; endpoint = endpoint; form = []; headers = headers }))

unfoldable pub post_json : Option String → String → Form → Exec MockClient Response
unfolding next_response
post_json ended endpoint headers =
    unless_ended ended (
      next_response (record { method = "POST"; endpoint = endpoint; form = []; headers = headers }))

unfoldable pub get_requests : MockClient → List MockRequest
get_requests m = m.requests

unfoldable pub reset : MockClient → MockClient
reset m = new_mock
