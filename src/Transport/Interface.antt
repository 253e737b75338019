-- ===== src/Transport/Interface.antt =====
-- The `HTTPClient` interface of internal/github/http.go.
use scafctl_plugin_auth_gith.Prelude.{String, Option}
use scafctl_plugin_auth_gith.Effect.{Result, Exec}
use scafctl_plugin_auth_gith.Types.{Response}
use scafctl_plugin_auth_gith.World.{Form}

-- A body that is not nil comes as what `json.Marshal` made of it.
pub record HttpClient (S : Type 0) : Type 0 where
  pub post_form : String → Form → Exec S Response
  pub post_json : String → Option (Result String) → Form → Exec S Response
  pub get : String → Form → Exec S Response
