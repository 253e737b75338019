-- ===== src/Tests/FetchedExamples.antt =====
-- The one-entry store with a fetched installation token, at concrete answers.
use scafctl_plugin_auth_gith.Prelude.{
  ℕ, ◌+◌, ◌==◌, pos, ◌-ℤ◌, ◌+ℤ◌, ltb_ℤ, true, false, some, ◌≡◌, refl, [],
}
use scafctl_plugin_auth_gith.Effect.{ok, ◌>>=◌}
use scafctl_plugin_auth_gith.Types.{InstallationTokenResponse, TokenReply, FetchResult}
use scafctl_plugin_auth_gith.Settings.{AppCredentialConfig}
use scafctl_plugin_auth_gith.AppFlow.{
  create_server_app_jwt, create_installation_token_http, parse_rsa_private_key,
}
use scafctl_plugin_auth_gith.ServerMode.{
  default_store_buffer, FlowFn, installation_answer, server_installation_flow, fetch_for_cache,
}
use scafctl_plugin_auth_gith.SingleStore.{SingleStore, new_store, get, set}
use scafctl_plugin_auth_gith.SingleStore.Fetched.{get-fetched}
use scafctl_plugin_auth_gith.World.{World}
use scafctl_plugin_auth_gith.Reliable.{Reliable}
use scafctl_plugin_auth_gith.Tests.Host.{reliable}
use scafctl_plugin_auth_gith.Tests.TestWorld.{TestState, secrets_of, test_world}
use scafctl_plugin_auth_gith.Tests.Fixtures.{state_with}

abbrev app_settings : AppCredentialConfig
app_settings = record {
  client_id = "Iv1";
  app_id = pos 0;
  installation_id = pos 9;
  private_key = "pem";
}

-- 2^63 nanoseconds, and what the clock shows: a second after that.
abbrev era : ℕ
era = 9223372036854775808

abbrev in_era : TestState
in_era = record (state_with [] []) { time = pos (era + 1000000000) }

abbrev installation : InstallationTokenResponse
installation = record { token = "ghs_install"; expires_at = pos (era + 3601000000000) }

abbrev app_world : World
app_world = record test_world { decode_installation = λ text. ok installation }

app_reliable : Reliable app_world secrets_of (λ s. s.time)
app_reliable = record {
  get_secret = reliable.get_secret;
  set_secret = reliable.set_secret;
  after_set = reliable.after_set;
  delete_secret = reliable.delete_secret;
  after_delete = reliable.after_delete;
  listed = reliable.listed;
  list_secrets = reliable.list_secrets;
  all_listed = reliable.all_listed;
  now = reliable.now;
}

abbrev app_flow : FlowFn app_world
app_flow = server_installation_flow ⦃W = app_world⦄ (some app_settings) "https://api.github.com" tt

-- The flow's token, with the hour that is left of it.
abbrev reply : TokenReply
reply = installation_answer installation

abbrev left : FetchResult
left = record { value = reply; ttl = pos 3600000000000 }

abbrev five_minutes : SingleStore
five_minutes = new_store default_store_buffer

get-fetched_example :
    ("install" == "install" ≡ true)
    × (reply ≡ left.value)
    × (ltb_ℤ reply.expires_at (pos (era + 61000000000)) ≡ false)
unfolding fetch_for_cache server_installation_flow ◌>>=◌ parse_rsa_private_key create_server_app_jwt
    create_installation_token_http ◌-ℤ◌ ◌+ℤ◌ get set
get-fetched_example =
    get-fetched ⦃W = app_world⦄ app_reliable app_flow (record { scope = "" }) in_era left
      five_minutes (pos (era + 2000000000)) (pos (era + 61000000000)) "install" "install" reply refl
      refl refl refl refl refl refl
