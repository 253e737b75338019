-- ===== src/CliMode/Availability.antt =====
-- DetectAvailableFlows of internal/github/cli_mode.go.
pub mod Agreement
use scafctl_plugin_auth_gith.Prelude.{
  String, ◌<>◌, ◌==◌, pos, eqb_ℤ, Bool, true, false, not, ◌&&◌, ◌||◌, List, [], ◌∷◌, if◌then◌else◌,
}
use scafctl_plugin_auth_gith.Effect.{Exec, gets}
use scafctl_plugin_auth_gith.Types.{pat, device_code, github_app, interactive, FlowAvailability}
use scafctl_plugin_auth_gith.World.{World}
use scafctl_plugin_auth_gith.Config.{
  Config, get_app_id, env_github_app_private_key, env_github_app_private_key_path,
}
use scafctl_plugin_auth_gith.Handler.{Handler}
use scafctl_plugin_auth_gith.Pat.{
  get_pat_from_env, has_pat_credentials, env_github_token, env_gh_token,
}

module _ ⦃W : World⦄ where
  -- The variable that the token is said to come from.
  unfoldable pub pat_variable : W.State → String
  pat_variable s =
      if get_pat_from_env s == W.getenv s env_gh_token && W.getenv s env_github_token == ""
      then env_gh_token
      else env_github_token

  pat_availability : W.State → FlowAvailability
  pat_availability s =
      if has_pat_credentials s
      then record { flow = pat; available = true; reason = pat_variable s <> " is set" }
      else record {
        flow = pat;
        available = false;
        reason = "neither GITHUB_TOKEN nor GH_TOKEN is set";
      }

  unfoldable pub has_private_key : Config → W.State → Bool
  has_private_key c s =
      not (c.private_key == "")
      || not (c.private_key_path == "")
      || not (c.private_key_secret_name == "")
      || not (W.getenv s env_github_app_private_key == "")
      || not (W.getenv s env_github_app_private_key_path == "")

  app_reason : Bool → Bool → String
  app_reason true true = "GitHub App ID and private key are configured"
  app_reason true false = "GitHub App ID is set but private key is missing"
  app_reason false true = "private key is set but GitHub App ID is missing"
  app_reason false false = "GitHub App credentials not configured"

  app_availability : Bool → Bool → FlowAvailability
  unfolding app_reason
  app_availability has_app_id has_key = record {
    flow = github_app;
    available = has_app_id && has_key;
    reason = app_reason has_app_id has_key;
  }

  -- The environment and the configuration alone decide.
  unfoldable pub available_flows : Handler W → W.State → List FlowAvailability
  unfolding pat_availability app_availability
  available_flows p s =
      pat_availability s
      ∷ app_availability (not (eqb_ℤ (get_app_id p.config s) (pos 0))) (has_private_key p.config s)
      ∷ record {
        flow = device_code;
        available = true;
        reason = "device code flow is always available";
      }
      ∷ record {
        flow = interactive;
        available = true;
        reason = "interactive flow is always available";
      }
      ∷ []

  unfoldable pub detect_available_flows : Handler W → Exec W.State (List FlowAvailability)
  unfolding available_flows
  detect_available_flows p = gets (available_flows p)
