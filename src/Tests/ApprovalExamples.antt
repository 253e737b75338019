-- ===== src/Tests/ApprovalExamples.antt =====
-- The device flow in a world in which the user approves after the first request.
use scafctl_plugin_auth_gith.Prelude.{
  ℕ, eqb, ◌*ℤ◌, wrap, pos, none, [], ◌==◌, ◌≡◌, refl, String, if◌then◌else◌,
}
use scafctl_plugin_auth_gith.Effect.{ok}
use scafctl_plugin_auth_gith.Types.{TokenResponse, TokenBody, DeviceCodeResponse, Response}
use scafctl_plugin_auth_gith.World.{World}
use scafctl_plugin_auth_gith.Handler.{Handler}
use scafctl_plugin_auth_gith.Config.{default_config}
use scafctl_plugin_auth_gith.Token.Store.{seconds}
use scafctl_plugin_auth_gith.DeviceFlow.{poll_for_token, start_interval}
use scafctl_plugin_auth_gith.DeviceFlow.Polling.{Ticking}
use scafctl_plugin_auth_gith.DeviceFlow.Approval.{
  Answered, approved, pending, poll_for_token-approved,
}
use scafctl_plugin_auth_gith.Tests.TestWorld.{test_world, TestState, granted, tick_used, le_refl}
use scafctl_plugin_auth_gith.Tests.Fixtures.{state_with}

abbrev nothing_yet : TokenResponse
nothing_yet = record granted { access_token = "" }

abbrev body_of : String → TokenBody
body_of text = record {
  token = if text == "wait" then nothing_yet else granted;
  failure = record {
    error = if text == "wait" then "authorization_pending" else "";
    error_description = "";
    error_uri = "";
  };
}

-- The answer while a number of ticks are left.
abbrev answer_at : ℕ → Response
answer_at ticks = record { status_code = 200; body = if eqb ticks 2 then "wait" else "go" }

abbrev patient_world : World
patient_world = record test_world {
  post_form = λ c url form s. (ok (answer_at s.ticks), s);
  decode_token_body = λ text. ok (body_of text);
}

ticking : Ticking patient_world
ticking = record {
  tick = λ interval s h. tick_used s.ticks s h refl;
  request = λ c url form s. le_refl s.ticks;
}

abbrev patient : Handler patient_world
patient = record {
  config = default_config;
  http_client = tt;
  cached_host_client = none;
  open_browser = none;
  binary_name = "";
}

abbrev device : DeviceCodeResponse
device = record {
  device_code = "device";
  user_code = "ABCD-1234";
  verification_uri = "https://github.com/login/device";
  expires_in = pos 900;
  interval = pos 5;
}

abbrev at_tick : ℕ → TestState
at_tick n = record (state_with [] []) { ticks = n }

first_answer :
    Answered ⦃W = patient_world⦄ patient "device"
      (pos 5000000000)
      (at_tick 3)
      (body_of "wait")
      (at_tick 2)
first_answer = record {
  between = at_tick 2;
  ticked = refl;
  answer = answer_at 2;
  posted = refl;
  parsed = refl;
}

second_answer :
    Answered ⦃W = patient_world⦄ patient "device"
      (pos 5000000000)
      (at_tick 2)
      (body_of "go")
      (at_tick 1)
second_answer = record {
  between = at_tick 1;
  ticked = refl;
  answer = answer_at 1;
  posted = refl;
  parsed = refl;
}

poll_for_token-approved_example :
    (poll_for_token ⦃W = patient_world⦄ patient device (at_tick 3)).0 ≡ ok granted
unfolding start_interval seconds wrap ◌*ℤ◌
poll_for_token-approved_example =
    poll_for_token-approved ⦃W = patient_world⦄ ticking patient device (at_tick 3) granted refl (
      pending (body_of "wait") (at_tick 2) first_answer refl refl
        (approved (body_of "go") (at_tick 1) second_answer refl))
