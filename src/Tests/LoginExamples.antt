-- ===== src/Tests/LoginExamples.antt =====
-- A login with the device flow, and the token request after it, at concrete answers.
use scafctl_plugin_auth_gith.Prelude.{
  String, ◌==◌, pos, ◌+ℤ◌, ◌*ℤ◌, wrap, false, some, [], ◌∷◌, inl, ◌≡◌, refl,
}
use scafctl_plugin_auth_gith.Prelude.Text.{format_int}
use scafctl_plugin_auth_gith.Effect.{ok, lift, try, caught, ◌>>=◌}
use scafctl_plugin_auth_gith.Types.{LoginResponse}
use scafctl_plugin_auth_gith.Handler.{host_client}
use scafctl_plugin_auth_gith.Profile.{validate_profile, profile_token_prefix, profile_secret_key}
use scafctl_plugin_auth_gith.Cache.{cache_set, fingerprint_hash}
use scafctl_plugin_auth_gith.UserClaims.{fetch_user_claims}
use scafctl_plugin_auth_gith.Pat.{has_pat_credentials, reply_of}
use scafctl_plugin_auth_gith.Token.Store.{one_year, seconds, store_credentials, token_cache_key}
use scafctl_plugin_auth_gith.DeviceFlow.{
  device_code_login, perform_device_code_flow, request_device_code, poll_for_token, start_interval,
  poll_loop, poll_round, round_of_answer, round_of_body, session_deadline,
}
use scafctl_plugin_auth_gith.CliMode.Login.{login}
use scafctl_plugin_auth_gith.CliMode.GetToken.{get_token, stored_token}
use scafctl_plugin_auth_gith.CliMode.GetToken.AfterLogin.{login-get_token}
use scafctl_plugin_auth_gith.Tests.Store.{Secrets}
use scafctl_plugin_auth_gith.Tests.TestWorld.{test_world, TestState, test-IsHost, secrets_of}
use scafctl_plugin_auth_gith.Tests.Fixtures.{
  handler, state_with, under_profile, device_login, token_request,
}
use scafctl_plugin_auth_gith.Tests.StoreExamples.{stored_claims}
use scafctl_plugin_auth_gith.Tests.Host.{encodes, reliable}

abbrev logged_in_secrets : Secrets
logged_in_secrets =
    ("scafctl.auth.github.work.refresh_token", "ghr_new")
    ∷ ("scafctl.auth.github.work.access_token", "gho_new")
    ∷ ("scafctl.auth.github.work.metadata", "uuid")
    ∷ ("scafctl.auth.github.work.token.github.com:_github", "gho_new")
    ∷ []

abbrev logged_in_state : TestState
logged_in_state = record (state_with logged_in_secrets []) { ticks = 2 }

abbrev logged_in_response : LoginResponse
logged_in_response = record { claims = stored_claims; expires_at = pos 60 +ℤ pos 28800000000000 }

logged_in :
    login ⦃W = test_world⦄ handler (under_profile "work") device_login (state_with [] [])
    ≡ (ok logged_in_response, logged_in_state)
unfolding login host_client ◌>>=◌ lift try caught validate_profile fetch_user_claims cache_set
    profile_token_prefix format_int device_code_login perform_device_code_flow request_device_code
    poll_for_token start_interval seconds wrap ◌*ℤ◌ poll_loop poll_round round_of_answer
    round_of_body store_credentials session_deadline profile_secret_key token_cache_key
    fingerprint_hash
logged_in = refl

login-get_token_example :
    (token : String) × (token == "" ≡ false)
    × (secrets_of logged_in_state "scafctl.auth.github.work.access_token" ≡ some token)
    × ((get_token ⦃W = test_world⦄ handler (under_profile "work") token_request logged_in_state).0
        ≡ ok (reply_of (stored_token token (logged_in_state.time +ℤ one_year))))
unfolding host_client validate_profile has_pat_credentials
login-get_token_example =
    login-get_token reliable test-IsHost tt handler (under_profile "work") refl refl device_login
      token_request (state_with [] []) logged_in_state logged_in_response (inl refl) encodes
      logged_in refl refl
