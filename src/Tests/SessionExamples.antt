-- ===== src/Tests/SessionExamples.antt =====
-- The command line's operations at concrete states of the in-memory host.
use scafctl_plugin_auth_gith.Cache.{cache_purge_expired}
use scafctl_plugin_auth_gith.Cache.Purge.{purge-keeps_lasting}
use scafctl_plugin_auth_gith.Tests.TestWorld.{lasting_entry}
use scafctl_plugin_auth_gith.CliMode.GetToken.Full.{FullReply, get_token-full}
use scafctl_plugin_auth_gith.Types.{TokenRequest}
use scafctl_plugin_auth_gith.Prelude.{◌==◌, true}
use scafctl_plugin_auth_gith.Config.{default_config}
use scafctl_plugin_auth_gith.Types.{device_code}
use scafctl_plugin_auth_gith.Profile.Keys.{prefix_of}
use scafctl_plugin_auth_gith.Cache.{fingerprint_hash}
use scafctl_plugin_auth_gith.Pat.{get_pat_token, pat_cache_key, min_valid_for}
use scafctl_plugin_auth_gith.Pat.Cached.{get_pat_token-cached}
use scafctl_plugin_auth_gith.CliMode.Login.{login}
use scafctl_plugin_auth_gith.CliMode.Login.Precedence.{by_precedence, login-by_precedence}
use scafctl_plugin_auth_gith.Tests.Fixtures.{device_login}
use scafctl_plugin_auth_gith.Prelude.{
  String, ◌<>◌, pos, ◌+ℤ◌, false, none, some, [], ◌∷◌, ◌≡◌, refl,
}
use scafctl_plugin_auth_gith.Effect.{ok, err, ◌>>=◌, try, caught, pure, lift}
use scafctl_plugin_auth_gith.Prelude.Text.{trim_prefix}
use scafctl_plugin_auth_gith.Profile.{profile_token_prefix, profile_secret_key, validate_profile}
use scafctl_plugin_auth_gith.Profile.Keys.{key_of, SecretName, secret_key, key_of-Owned}
use scafctl_plugin_auth_gith.Cache.{
  cache_clear, clear_prefix, delete_listed, delete_all, cache_get, cache_set, token_of,
}
use scafctl_plugin_auth_gith.Cache.RoundTrip.{cache_get-cache_set}
use scafctl_plugin_auth_gith.Handler.{host_client}
use scafctl_plugin_auth_gith.Pat.{has_pat_credentials, get_pat_from_env, unauthenticated, reply_of}
use scafctl_plugin_auth_gith.Token.Store.{one_year}
use scafctl_plugin_auth_gith.CliMode.Logout.{logout, logout_on}
use scafctl_plugin_auth_gith.CliMode.Logout.Complete.{logout_complete, logout-overlap}
use scafctl_plugin_auth_gith.CliMode.GetStatus.{get_status}
use scafctl_plugin_auth_gith.CliMode.GetStatus.SignedOut.{logout-signs_out}
use scafctl_plugin_auth_gith.CliMode.GetToken.{get_token, stored_token}
use scafctl_plugin_auth_gith.CliMode.GetToken.Stored.{get_token-stored}
use scafctl_plugin_auth_gith.Tests.TestWorld.{test_world, secrets_of, TestState, entry_with}
use scafctl_plugin_auth_gith.Tests.Host.{encodes, reliable}
use scafctl_plugin_auth_gith.Tests.Fixtures.{handler, under_profile, state_with, token_request}
use scafctl_plugin_auth_gith.Tests.ProfileExamples.{valid_default, valid_work}

-- A default profile and one called `token` that are signed in.
abbrev signed_in : TestState
signed_in =
    state_with
      (("scafctl.auth.github.access_token", "gho_old")
        ∷ ("scafctl.auth.github.refresh_token", "ghr_old")
        ∷ ("scafctl.auth.github.token.refresh_token", "ghr_other")
        ∷ [])
      []

abbrev at_fifty : TestState
at_fifty = record signed_in { time = pos 50 }

cache_get-cache_set_example :
    (cache_get ⦃W = test_world⦄ tt "k" "work"
      (cache_set ⦃W = test_world⦄ tt "k" (token_of (entry_with "t")) "work" at_fifty).1).0
    ≡ ok (some (record (token_of (entry_with "t")) { cached_at = pos 50 }))
cache_get-cache_set_example =
    cache_get-cache_set reliable tt "work" valid_work "k" "t" (token_of (entry_with "t")) at_fifty
      refl refl

host_given :
    (profile : String) → host_client ⦃W = test_world⦄ handler (under_profile profile) ≡ some tt
unfolding host_client
host_given profile = refl

logout_complete_example :
    ((logout ⦃W = test_world⦄ handler (under_profile "") signed_in).0 ≡ ok tt)
    × (secrets_of
          (logout ⦃W = test_world⦄ handler (under_profile "") signed_in).1
          "scafctl.auth.github.access_token"
        ≡ none)
logout_complete_example =
    logout_complete reliable tt handler (under_profile "") (host_given "") valid_default signed_in
      "scafctl.auth.github.access_token" (key_of-Owned "" SecretName.access_token)

logout-overlap_example :
    (validate_profile "token" ≡ ok tt)
    × (profile_secret_key (secret_key SecretName.refresh_token) "token"
        ≡ ok "scafctl.auth.github.token.refresh_token")
    × ((logout ⦃W = test_world⦄ handler (under_profile "") signed_in).0 ≡ ok tt)
    × (secrets_of
          (logout ⦃W = test_world⦄ handler (under_profile "") signed_in).1
          "scafctl.auth.github.token.refresh_token"
        ≡ none)
logout-overlap_example =
    logout-overlap reliable tt handler (under_profile "") (host_given "") valid_default
      SecretName.refresh_token signed_in refl

no_pat_after :
    has_pat_credentials ⦃W = test_world⦄
      (logout ⦃W = test_world⦄ handler (under_profile "") signed_in).1
    ≡ false
unfolding has_pat_credentials get_pat_from_env logout logout_on host_client cache_clear clear_prefix
    delete_listed delete_all profile_token_prefix profile_secret_key validate_profile trim_prefix
    ◌>>=◌ try caught pure lift
no_pat_after = refl

logout-signs_out_example :
    ((get_status ⦃W = test_world⦄ handler
        (under_profile "")
        (logout ⦃W = test_world⦄ handler (under_profile "") signed_in).1).0
      ≡ ok unauthenticated)
    × ((get_token ⦃W = test_world⦄ handler
          (under_profile "")
          token_request
          (logout ⦃W = test_world⦄ handler (under_profile "") signed_in).1).0
        ≡ err (
            "not authenticated"
            <> (": "
                <> ("secret "
                    <> (test_world.quote (key_of "" SecretName.refresh_token) <> " not found")))))
logout-signs_out_example =
    logout-signs_out reliable tt handler (under_profile "") (host_given "") valid_default signed_in
      token_request no_pat_after

no_pat_before : has_pat_credentials ⦃W = test_world⦄ signed_in ≡ false
unfolding has_pat_credentials get_pat_from_env
no_pat_before = refl

get_token-stored_example :
    (get_token ⦃W = test_world⦄ handler (under_profile "") token_request signed_in).0
    ≡ ok (reply_of (stored_token "gho_old" (pos 60 +ℤ one_year)))
get_token-stored_example =
    get_token-stored reliable tt handler (under_profile "") (host_given "") valid_default
      token_request "gho_old" signed_in no_pat_before refl refl refl encodes

-- An environment whose token was changed after an older one had been cached.
abbrev changed_pat : TestState
changed_pat =
    state_with (("scafctl.auth.github.token.github.com:pat:_github", "ghp_old") ∷ [])
      (("GITHUB_TOKEN", "ghp_new") ∷ [])

abbrev plain_request : TokenRequest
plain_request = record token_request { force_refresh = false }

pat_given : get_pat_from_env ⦃W = test_world⦄ changed_pat == "" ≡ false
unfolding get_pat_from_env
pat_given = refl

pat_held :
    secrets_of changed_pat (prefix_of "" <> pat_cache_key ⦃W = test_world⦄ default_config)
    ≡ some "ghp_old"
unfolding pat_cache_key fingerprint_hash
pat_held = refl

pat_lives :
    test_world.is_valid_for
      (token_of (entry_with "ghp_old"))
      (min_valid_for ⦃W = test_world⦄ plain_request)
      changed_pat
    ≡ (ok true, changed_pat)
unfolding min_valid_for ◌+ℤ◌
pat_lives = refl

get_pat_token-cached_example :
    get_pat_token ⦃W = test_world⦄ handler (under_profile "") plain_request changed_pat
    ≡ (ok (reply_of (token_of (entry_with "ghp_old"))), changed_pat)
get_pat_token-cached_example =
    get_pat_token-cached reliable tt handler (under_profile "") (host_given "") valid_default
      "ghp_old" (entry_with "ghp_old") plain_request changed_pat pat_given pat_held refl pat_lives
      refl

login-by_precedence_example :
    login ⦃W = test_world⦄ handler (under_profile "") device_login changed_pat
    ≡ by_precedence ⦃W = test_world⦄ device_code handler
        (under_profile "")
        device_login
        (has_pat_credentials ⦃W = test_world⦄ changed_pat)
        changed_pat
login-by_precedence_example =
    login-by_precedence handler (under_profile "") device_login changed_pat

stored_reply :
    (get_token ⦃W = test_world⦄ handler (under_profile "") token_request signed_in).0
    ≡ ok (reply_of (stored_token "gho_old" (pos 60 +ℤ one_year)))
stored_reply =
    get_token-stored reliable tt handler (under_profile "") (host_given "") valid_default
      token_request "gho_old" signed_in no_pat_before refl refl refl encodes

get_token-full_example : FullReply (reply_of (stored_token "gho_old" (pos 60 +ℤ one_year)))
get_token-full_example =
    get_token-full handler (under_profile "") token_request refl signed_in
      (reply_of (stored_token "gho_old" (pos 60 +ℤ one_year))) stored_reply

-- A cached token that does not expire, beside one that has expired.
abbrev cached_tokens : TestState
cached_tokens =
    record (state_with
      (("scafctl.auth.github.token.a", "lasting") ∷ ("scafctl.auth.github.token.b", "expired") ∷ [])
      []) { time = pos 200 }

purge-keeps_lasting_example :
    secrets_of
      (cache_purge_expired ⦃W = test_world⦄ tt "" cached_tokens).1
      "scafctl.auth.github.token.a"
    ≡ some "lasting"
purge-keeps_lasting_example =
    purge-keeps_lasting reliable tt "scafctl.auth.github.token.a" "lasting" lasting_entry refl refl
      "" cached_tokens valid_default refl
