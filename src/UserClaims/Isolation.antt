-- ===== src/UserClaims/Isolation.antt =====
-- Which secrets fetching the claims touches.
use scafctl_plugin_auth_gith.Prelude.{String, ◌≡◌, eqb}
use scafctl_plugin_auth_gith.Effect.{ok}
use scafctl_plugin_auth_gith.Effect.Keeps.{
  Keeps, Keeps-if, Keeps-bind, Keeps-pure, Keeps-lift, Keeps-fail, Keeps-or_wrap,
}
use scafctl_plugin_auth_gith.World.{World}
use scafctl_plugin_auth_gith.Profile.{validate_profile}
use scafctl_plugin_auth_gith.Frame.{Frame}
use scafctl_plugin_auth_gith.Config.{Config}
use scafctl_plugin_auth_gith.Types.{Response}
use scafctl_plugin_auth_gith.Handler.{Handler}
use scafctl_plugin_auth_gith.UserClaims.{fetch_user_claims, claims_of_response}

module _ ⦃W : World⦄ {P : W.State → Type 0} {profile : String} (F : Frame W P profile)
    (valid : validate_profile profile ≡ ok tt) where
  claims_of_response-Keeps : (c : Config) (resp : Response) → Keeps P (claims_of_response c resp)
  unfolding claims_of_response
  claims_of_response-Keeps c resp =
      Keeps-if (eqb resp.status_code 200) _ _
        (λ _. Keeps-bind _ _ (Keeps-lift _) λ user. Keeps-bind _ _ F.now λ now. Keeps-pure _)
        (λ _. Keeps-fail _)

  pub fetch_user_claims-Keeps :
      (p : Handler W) (token : String) → Keeps P (fetch_user_claims p token)
  unfolding fetch_user_claims
  fetch_user_claims-Keeps p token =
      Keeps-bind _ _ (Keeps-or_wrap _ _ (F.http_get p.http_client _ _))
        λ resp. claims_of_response-Keeps p.config resp
