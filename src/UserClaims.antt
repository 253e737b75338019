-- ===== src/UserClaims.antt =====
-- internal/github/claims.go: the claims of the user that an access token belongs to.
pub mod Isolation
use scafctl_plugin_auth_gith.Prelude.{String, ◌<>◌, eqb, pos, if◌then◌else◌, ◌∷◌, []}
use scafctl_plugin_auth_gith.Prelude.Text.{format_int}
use scafctl_plugin_auth_gith.Effect.{Exec, pure, fail, lift, wrapped, ◌>>=◌, ◌or_wrap◌}
use scafctl_plugin_auth_gith.Types.{Claims, Response}
use scafctl_plugin_auth_gith.World.{World, Form}
use scafctl_plugin_auth_gith.Config.{Config, get_api_base_url}
use scafctl_plugin_auth_gith.Handler.{Handler}

abbrev pub bearer_header : String → Form
bearer_header token = ("Authorization", "Bearer " <> token) ∷ []

module _ ⦃W : World⦄ where
  claims_of_response : Config → Response → Exec W.State Claims
  claims_of_response c resp =
      if eqb resp.status_code 200
      then (do
        user ← lift (wrapped "failed to parse user response" (W.decode_user resp.body))
        now ← W.now
        pure (record {
          issuer = c.hostname;
          subject = user.login;
          object_id = format_int user.id;
          email = user.email;
          name = user.name;
          username = user.login;
          issued_at = now;
        }))
      else fail ("GitHub API returned status " <> format_int (pos resp.status_code))

  unfoldable pub fetch_user_claims : Handler W → String → Exec W.State Claims
  unfolding claims_of_response
  fetch_user_claims p access_token = do
    resp ←
        W.http_get p.http_client (get_api_base_url p.config <> "/user") (bearer_header access_token)
        or_wrap "failed to fetch user info"
    claims_of_response p.config resp
