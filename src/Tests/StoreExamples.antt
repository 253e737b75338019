-- ===== src/Tests/StoreExamples.antt =====
-- Stored credentials at concrete answers.
use scafctl_plugin_auth_gith.Prelude.{
  pos, ℤ, ◌+ℤ◌, ltb_ℤ, int_laws, arith, ap, List, false, none, [], ◌∷◌, ◌≡◌, refl,
}
use scafctl_plugin_auth_gith.Effect.{ok, lift, try, caught, ◌>>=◌}
use scafctl_plugin_auth_gith.Types.{device_code, Claims, Response, CachedTokenInfo}
use scafctl_plugin_auth_gith.World.{World}
use scafctl_plugin_auth_gith.Reliable.{Passing}
use scafctl_plugin_auth_gith.Profile.Keys.{prefix_of}
use scafctl_plugin_auth_gith.Handler.{host_client}
use scafctl_plugin_auth_gith.Prelude.Text.{format_int}
use scafctl_plugin_auth_gith.Profile.{validate_profile, profile_token_prefix}
use scafctl_plugin_auth_gith.Cache.{cache_set, cache_purge_expired, cache_list_entries}
use scafctl_plugin_auth_gith.Cache.Listing.{Listing, cache_list_entries-Listing}
use scafctl_plugin_auth_gith.Cache.Purge.Expired.{purge-deletes_expired}
use scafctl_plugin_auth_gith.UserClaims.{fetch_user_claims}
use scafctl_plugin_auth_gith.Token.Load.{load_refresh_token, load_access_token}
use scafctl_plugin_auth_gith.Token.Store.{store_credentials}
use scafctl_plugin_auth_gith.Token.Store.Loaded.{DescribedBy, load-store_credentials}
use scafctl_plugin_auth_gith.Config.{get_oauth_base_url}
use scafctl_plugin_auth_gith.Token.Mint.{mint_token, minted}
use scafctl_plugin_auth_gith.Token.Mint.Rotation.{minted_at, mint_token-rotates}
use scafctl_plugin_auth_gith.Tests.Host.{reliable}
use scafctl_plugin_auth_gith.Tests.TestWorld.{
  test_world, TestState, granted, metadata_with, entry_with, secrets_of, test-IsHost,
}
use scafctl_plugin_auth_gith.Tests.Fixtures.{handler, state_with, under_profile}

abbrev pub stored_claims : Claims
stored_claims = record {
  issuer = "github.com";
  subject = "octocat";
  object_id = "7";
  email = "mona@example.com";
  name = "Mona";
  username = "octocat";
  issued_at = pos 60;
}

abbrev stored_state : TestState
stored_state =
    (store_credentials ⦃W = test_world⦄ handler (under_profile "work") granted ("repo" ∷ []) "s1"
      device_code (state_with [] [])).1

stored_credentials :
    store_credentials ⦃W = test_world⦄ handler
      (under_profile "work")
      granted
      ("repo" ∷ [])
      "s1"
      device_code
      (state_with [] [])
    ≡ (ok stored_claims, stored_state)
unfolding store_credentials host_client ◌>>=◌ lift try caught validate_profile fetch_user_claims
    cache_set profile_token_prefix format_int
stored_credentials = refl

load-store_credentials_example :
    ((load_refresh_token ⦃W = test_world⦄ handler (under_profile "work") stored_state).0
      ≡ ok "ghr_new")
    × ((load_access_token ⦃W = test_world⦄ handler (under_profile "work") stored_state).0
        ≡ ok "gho_new")
    × DescribedBy ⦃W = test_world⦄ handler
        (under_profile "work")
        ("repo" ∷ [])
        device_code
        stored_claims
        stored_state
unfolding host_client validate_profile
load-store_credentials_example =
    load-store_credentials reliable test-IsHost tt handler (under_profile "work") refl refl granted
      ("repo" ∷ []) "s1" device_code (state_with [] []) stored_state stored_claims
      stored_credentials refl refl

-- A profile with an old refresh token.
abbrev signed_in : TestState
signed_in =
    state_with
      (("scafctl.auth.github.work.refresh_token", "ghr_old")
        ∷ ("scafctl.auth.github.work.metadata", "s1")
        ∷ [])
      []

abbrev rotated_state : TestState
rotated_state =
    (store_credentials ⦃W = test_world⦄ handler (under_profile "work") granted [] "s1" device_code
      signed_in).1

rotated_credentials :
    store_credentials ⦃W = test_world⦄ handler
      (under_profile "work")
      granted
      []
      "s1"
      device_code
      signed_in
    ≡ (ok stored_claims, rotated_state)
unfolding store_credentials host_client ◌>>=◌ lift try caught validate_profile fetch_user_claims
    cache_set profile_token_prefix format_int
rotated_credentials = refl

abbrev rotated_response : Response
rotated_response = record {
  status_code = 200;
  body = "https://github.com/login/oauth/access_token";
}

mint_token-rotates_example :
    (mint_token ⦃W = test_world⦄ handler (under_profile "work") signed_in ≡ (
      ok (minted ⦃W = test_world⦄ granted (ok (metadata_with "s1")) (minted_at granted (pos 60))),
      rotated_state,
    ))
    × ((load_refresh_token ⦃W = test_world⦄ handler (under_profile "work") rotated_state).0
        ≡ ok "ghr_new")
unfolding host_client validate_profile get_oauth_base_url store_credentials ◌>>=◌ fetch_user_claims
    cache_set profile_token_prefix
mint_token-rotates_example =
    mint_token-rotates reliable test-IsHost tt handler (under_profile "work") refl refl "ghr_old"
      "s1" (metadata_with "s1") rotated_response granted stored_claims signed_in signed_in
      rotated_state refl refl refl refl refl refl refl refl refl rotated_credentials

-- A cached token that expired at 100, at the time 200.
abbrev cached_state : TestState
cached_state = record (state_with (("scafctl.auth.github.work.token.a", "t") ∷ []) []) {
  time = pos 200;
}

purge-deletes_expired_example :
    secrets_of
      (cache_purge_expired ⦃W = test_world⦄ tt "work" cached_state).1
      "scafctl.auth.github.work.token.a"
    ≡ none
unfolding validate_profile
purge-deletes_expired_example =
    purge-deletes_expired reliable tt "scafctl.auth.github.work.token.a" "t" (entry_with "t") refl
      refl (λ k s past. past) "work" "a" cached_state refl refl refl refl

-- A listing of two tokens, of which one does not expire.
abbrev two_cached : TestState
two_cached =
    record (state_with
      (("scafctl.auth.github.work.token.a", "t")
        ∷ ("scafctl.auth.github.work.token.b", "lasting")
        ∷ [])
      []) { time = pos 200 }

-- A world whose clock goes on by 50 with each reading.
abbrev moving_world : World
moving_world = record test_world { now = λ s. (ok s.time, record s { time = s.time +ℤ pos 50 }) }

not_before : (t : ℤ) → ltb_ℤ t t ≡ false
not_before t = ground arith

goes_on : (t : ℤ) → ltb_ℤ (t +ℤ pos 50) t ≡ false
goes_on t = grind (int_laws)

moving : Passing moving_world secrets_of (λ s. s.time)
moving = record {
  get_secret = λ c k s. refl;
  get_keeps = λ c k j s. refl;
  get_forward = λ c k s. not_before s.time;
  listed = reliable.listed;
  list_secrets = λ c prefix s. ap (λ r. r.0) (reliable.list_secrets c prefix s);
  list_keeps = λ c pattern j s. refl;
  list_forward = λ c pattern s. not_before s.time;
  now = λ s. refl;
  now_keeps = λ j s. refl;
  now_forward = λ s. goes_on s.time;
}

cache_list_entries-Listing_example :
    (infos : List CachedTokenInfo) × ((cache_list_entries ⦃W = moving_world⦄ tt "work" two_cached).0
      ≡ ok infos)
    × Listing ⦃W = moving_world⦄
        (secrets_of two_cached)
        (pos 200)
        (cache_list_entries ⦃W = moving_world⦄ tt "work" two_cached).1.time
        (moving.listed two_cached (prefix_of "work"))
        infos
unfolding validate_profile
cache_list_entries-Listing_example =
    cache_list_entries-Listing ⦃W = moving_world⦄ moving tt "work" two_cached refl
