-- ===== src/Tests/ProfileExamples.antt =====
-- The isolation of profiles at concrete calls.
use scafctl_plugin_auth_gith.Prelude.{
  String, ◌≡◌, ◌≢◌, refl, inl, inr, some, List, [], ◌∷◌, eq_iff, arith,
}
use scafctl_plugin_auth_gith.Effect.{ok}
use scafctl_plugin_auth_gith.Profile.{validate_profile}
use scafctl_plugin_auth_gith.Profile.Keys.{
  Owned, Overlaps, SecretName, Owned-disjoint, key_of-Owned,
}
use scafctl_plugin_auth_gith.DeviceFlow.{browser_opener}
use scafctl_plugin_auth_gith.Isolation.{
  Operation, Call, login, logout, get_token, after_all, IsForeign, AllForeign, after_all-secrets,
}
use scafctl_plugin_auth_gith.Tests.TestWorld.{test_world, secrets_of, test-IsHost, TestState}
use scafctl_plugin_auth_gith.Tests.Fixtures.{
  handler, under_profile, state_with, device_login, token_request,
}

pub valid_default : validate_profile "" ≡ ok tt
unfolding validate_profile
valid_default = refl

pub valid_work : validate_profile "work" ≡ ok tt
unfolding validate_profile
valid_work = refl

work_not_default : ◌≢◌ {A = String} "work" ""
work_not_default = ground (arith, eq_iff "work" "")

work_not_token : ◌≢◌ {A = String} "work" "token"
work_not_token = ground (arith, eq_iff "work" "token")

apart : ¬ Overlaps "work" ""
apart (inl (e, f)) = work_not_default e
apart (inr (e, f)) = work_not_token e

Owned-disjoint_example : ¬ Owned "" "scafctl.auth.github.work.access_token"
Owned-disjoint_example =
    Owned-disjoint "work" "" "scafctl.auth.github.work.access_token" valid_work valid_default
      work_not_default apart (key_of-Owned "work" SecretName.access_token)

work_calls : List (Call test_world)
work_calls =
    record { handler = handler; context = under_profile "work"; operation = login device_login }
    ∷ record {
      handler = handler;
      context = under_profile "work";
      operation = get_token token_request;
    }
    ∷ record { handler = handler; context = under_profile "work"; operation = logout }
    ∷ []

before : TestState
before = state_with (("scafctl.auth.github.refresh_token", "ghr_old") ∷ []) []

foreign_calls : AllForeign secrets_of "" work_calls
unfolding browser_opener work_calls
foreign_calls = (is_foreign, (is_foreign, (is_foreign, tt)))
  where
    is_foreign :
        {operation : Operation}
        → IsForeign secrets_of ""
            (record { handler = handler; context = under_profile "work"; operation = operation })
    is_foreign = record {
      valid = valid_work;
      other = work_not_default;
      apart = apart;
      opens = λ key v url. record { at = λ s h. h };
    }

after_all-secrets_example :
    secrets_of (after_all work_calls before) "scafctl.auth.github.refresh_token" ≡ some "ghr_old"
unfolding before
after_all-secrets_example =
    after_all-secrets test-IsHost work_calls "" "scafctl.auth.github.refresh_token" before
      valid_default (key_of-Owned "" SecretName.refresh_token) foreign_calls
