-- ===== src/Tests/TransportExamples.antt =====
-- The one-entry store and the two HTTP clients at concrete inputs.
use scafctl_plugin_auth_gith.Prelude.{
  not, ◌&&◌, ltb_ℤ, String, ◌==◌, pos, ◌+ℤ◌, Option, none, some, [], ◌∷◌, ◌++◌, ◌≡◌, refl,
  if◌then◌else◌,
}
use scafctl_plugin_auth_gith.Effect.{Result, ok}
use scafctl_plugin_auth_gith.Types.{TokenReply}
use scafctl_plugin_auth_gith.World.{Form}
use scafctl_plugin_auth_gith.ServerMode.{pat_answer}
use scafctl_plugin_auth_gith.SingleStore.{SingleStore, new_store, get, set}
use scafctl_plugin_auth_gith.SingleStore.Expiry.{get-set_lifetime}
use scafctl_plugin_auth_gith.Transport.HeaderKeys.{canonical_key}
use scafctl_plugin_auth_gith.Transport.DefaultClient.{Request, get_request, header}
use scafctl_plugin_auth_gith.Transport.DefaultClient.Headers.{Carries, get_request-headers}
use scafctl_plugin_auth_gith.Transport.MockClient.{MockRequest, MockClient, new_mock}
use scafctl_plugin_auth_gith.Transport.MockClient.Order.{serve, expected, drop, serve-in_order}

abbrev store : SingleStore
store = new_store (pos 300)

abbrev token : Option TokenReply
token = some (pat_answer "ghs_install" (pos 4600))

get-set_lifetime_example :
    get (set store (pos 1000) "install" token (pos 3600)) (pos 2000) "install" ≡ (
      if "install" == "install" && not (ltb_ℤ (pos 1000 +ℤ pos 3600) (pos 2000 +ℤ pos 300))
      then token
      else none)
unfolding ◌+ℤ◌
get-set_lifetime_example =
    get-set_lifetime store (pos 1000) (pos 2000) "install" "install" token (pos 3600) refl refl

abbrev accept_all : String → String → Result (Unit {0})
accept_all method url = ok tt

abbrev no_form : Form → String
no_form form = ""

abbrev github_json : Form
github_json = ("accept", "application/vnd.github+json") ∷ []

get_request-headers_example :
    (r : Request) × (get_request accept_all no_form "https://api.github.com/user" github_json
      ≡ ok r)
    × Carries
        (some "application/json")
        ("application/vnd.github+json" ∷ [])
        (header "Accept" r.headers)
unfolding canonical_key
get_request-headers_example =
    get_request-headers accept_all no_form "https://api.github.com/user" github_json "Accept" refl

abbrev asked : MockRequest
asked = record { method = "GET"; endpoint = "https://api.github.com/user"; form = []; headers = [] }

abbrev one_response : MockClient
one_response = record new_mock {
  responses = record { status_code = 200; body = some (ok "{}"); failure = none } ∷ [];
}

serve-in_order_example :
    ((serve (asked ∷ asked ∷ []) one_response).0
      ≡ expected (asked ∷ asked ∷ []) (drop one_response.responses 0))
    × ((serve (asked ∷ asked ∷ []) one_response).1.requests ≡ [] ++ (asked ∷ asked ∷ []))
serve-in_order_example = serve-in_order (asked ∷ asked ∷ []) one_response
