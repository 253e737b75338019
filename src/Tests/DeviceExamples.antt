-- ===== src/Tests/DeviceExamples.antt =====
-- The device flow's loop, and the exchange of an authorization code, at concrete answers.
use scafctl_plugin_auth_gith.Effect.{wrapped, ◌or_wrap◌}
use scafctl_plugin_auth_gith.AuthCodeFlow.{exchange_auth_code, exchanged}
use scafctl_plugin_auth_gith.AuthCodeFlow.Tokens.{FullResponse, exchange_auth_code-full}
use scafctl_plugin_auth_gith.Prelude.{◌==◌, pos, ltb_ℤ, true, false, none, some, [], ◌≡◌, refl}
use scafctl_plugin_auth_gith.Effect.{ok, try, pure, lift, caught, ◌>>=◌}
use scafctl_plugin_auth_gith.Types.{DeviceCodeResponse}
use scafctl_plugin_auth_gith.Config.{default_config}
use scafctl_plugin_auth_gith.DeviceFlow.{
  poll_loop, poll_round, round_of_answer, round_of_body, start_interval, min_poll_interval,
}
use scafctl_plugin_auth_gith.DeviceFlow.Polling.{Ticking, poll_loop-ends}
use scafctl_plugin_auth_gith.DeviceFlow.Tokens.{poll_loop-token}
use scafctl_plugin_auth_gith.DeviceFlow.Intervals.{start_interval-positive}
use scafctl_plugin_auth_gith.Tests.TestWorld.{test_world, TestState, granted, tick_used, le_refl}
use scafctl_plugin_auth_gith.Tests.Fixtures.{handler, state_with}

ticking : Ticking test_world
ticking = record {
  tick = λ interval s h. tick_used s.ticks s h refl;
  request = λ c url form s. le_refl s.ticks;
}

abbrev waiting : TestState
waiting = state_with [] []

poll_loop-ends_example :
    ¬ ((poll_loop ⦃W = test_world⦄ 4 handler "device" (pos 5000000000) waiting).0 ≡ ok none)
poll_loop-ends_example = poll_loop-ends ticking handler "device" (pos 5000000000) waiting

polled_token :
    (poll_loop ⦃W = test_world⦄ 4 handler "device" (pos 5000000000) waiting).0 ≡ ok (some granted)
unfolding poll_loop poll_round round_of_answer round_of_body ◌>>=◌ try caught pure lift
polled_token = refl

poll_loop-token_example : granted.access_token == "" ≡ false
poll_loop-token_example =
    poll_loop-token handler "device" 4 (pos 5000000000) waiting granted polled_token

-- A server that asks for no pause at all.
abbrev hasty : DeviceCodeResponse
hasty = record {
  device_code = "device";
  user_code = "ABCD-1234";
  verification_uri = "https://github.com/login/device";
  expires_in = pos 900;
  interval = pos 0;
}

start_interval-positive_example :
    (ltb_ℤ (pos 0) (start_interval default_config hasty) ≡ true)
    × (ltb_ℤ (start_interval default_config hasty) (min_poll_interval default_config) ≡ false)
start_interval-positive_example = start_interval-positive default_config hasty refl

exchanged_token :
    (exchange_auth_code ⦃W = test_world⦄ handler "code" "http://localhost" "verifier" waiting).0
    ≡ ok granted
unfolding exchange_auth_code exchanged ◌>>=◌ ◌or_wrap◌ wrapped lift
exchanged_token = refl

exchange_auth_code-full_example : FullResponse granted
exchange_auth_code-full_example =
    exchange_auth_code-full handler "code" "http://localhost" "verifier" waiting granted
      exchanged_token
