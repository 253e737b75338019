-- ===== src/Tests/StatusExamples.antt =====
-- The status after the deadline of a login's refresh token, at concrete answers.
use scafctl_plugin_auth_gith.Prelude.{pos, ◌+ℤ◌, none, some, [], ◌∷◌, ◌≡◌, refl}
use scafctl_plugin_auth_gith.Effect.{ok}
use scafctl_plugin_auth_gith.Types.{TokenMetadata}
use scafctl_plugin_auth_gith.World.{World}
use scafctl_plugin_auth_gith.Reliable.{Reliable}
use scafctl_plugin_auth_gith.Handler.{Handler, Context, host_client}
use scafctl_plugin_auth_gith.Config.{default_config}
use scafctl_plugin_auth_gith.Profile.{validate_profile}
use scafctl_plugin_auth_gith.Pat.{has_pat_credentials, reply_of}
use scafctl_plugin_auth_gith.Token.Store.{one_year}
use scafctl_plugin_auth_gith.CliMode.GetStatus.{get_status, expired_status}
use scafctl_plugin_auth_gith.CliMode.GetToken.{get_token, stored_token}
use scafctl_plugin_auth_gith.CliMode.GetStatus.Agreement.{get_status-get_token}
use scafctl_plugin_auth_gith.Tests.Host.{encodes, reliable}
use scafctl_plugin_auth_gith.Tests.TestWorld.{test_world, TestState, metadata_with, secrets_of}
use scafctl_plugin_auth_gith.Tests.Fixtures.{state_with, token_request}

-- Metadata with a deadline at 10.
abbrev dated_metadata : TokenMetadata
dated_metadata = record (metadata_with "s1") { refresh_token_expires_at = pos 10 }

abbrev dated_world : World
dated_world = record test_world { decode_metadata = λ text. ok dated_metadata }

dated_reliable : Reliable dated_world secrets_of (λ s. s.time)
dated_reliable = record {
  get_secret = reliable.get_secret;
  set_secret = reliable.set_secret;
  after_set = reliable.after_set;
  delete_secret = reliable.delete_secret;
  after_delete = reliable.after_delete;
  listed = reliable.listed;
  list_secrets = reliable.list_secrets;
  all_listed = reliable.all_listed;
  now = reliable.now;
}

abbrev dated_handler : Handler dated_world
dated_handler = record {
  config = default_config;
  http_client = tt;
  cached_host_client = none;
  open_browser = none;
  binary_name = "";
}

abbrev at_work : Context dated_world
at_work = record { host_client = some tt; profile = "work" }

-- The time is 60.
abbrev overdue : TestState
overdue =
    state_with
      (("scafctl.auth.github.work.access_token", "gho_old")
        ∷ ("scafctl.auth.github.work.metadata", "s1")
        ∷ [])
      []

get_status-get_token_example :
    (get_status ⦃W = dated_world⦄ dated_handler at_work overdue
      ≡ (ok (expired_status ⦃W = dated_world⦄ dated_metadata), overdue))
    × ((get_token ⦃W = dated_world⦄ dated_handler at_work token_request overdue).0
        ≡ ok (reply_of (stored_token "gho_old" (pos 60 +ℤ one_year))))
unfolding host_client validate_profile has_pat_credentials
get_status-get_token_example =
    get_status-get_token ⦃W = dated_world⦄ dated_reliable tt dated_handler at_work refl refl
      token_request "gho_old" "s1" dated_metadata overdue refl refl refl refl refl refl encodes
