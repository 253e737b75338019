-- ===== src/Tests/TestWorld.antt =====
-- A world with an in-memory host, an environment, a clock that stands still and canned answers. A
-- text is decoded by putting it into the field that matters.
use scafctl_plugin_auth_gith.Prelude.{if◌then◌else◌}
use scafctl_plugin_auth_gith.Prelude.{
  String, ◌<>◌, ◌==◌, ℕ, suc, zero, ℤ, pos, ◌+ℤ◌, ltb_ℤ, ◌<◌, ◌≤◌, arith, ◌≡◌, refl, sym, Bool,
  true, false, Bool-cases, eq_iff, Option, none, some, List, [], inl, inr, subst,
}
use scafctl_plugin_auth_gith.Effect.{Result, ok, err, panic}
use scafctl_plugin_auth_gith.Effect.Keeps.{Keeps}
use scafctl_plugin_auth_gith.Types.{
  Flow, no_flow, pat, device_code, github_app, interactive, other_flow, user, TokenCacheEntry,
  TokenMetadata, TokenResponse, Response, FetchResult, TokenReply,
}
use scafctl_plugin_auth_gith.World.{World, code}
use scafctl_plugin_auth_gith.Profile.Keys.{Owned}
use scafctl_plugin_auth_gith.Frame.{Frame, AllBegin}
use scafctl_plugin_auth_gith.Isolation.{IsHost}
use scafctl_plugin_auth_gith.Tests.Store.{
  Secrets, lookup, insert, erase, lookup-insert, lookup-erase, without_last, without_last_star,
  under, under-AllBegin,
}

pub record TestState : Type 0 where
  pub secrets : Secrets
  pub env : Secrets
  pub time : ℤ
  pub ticks : ℕ

abbrev returns {ℓ} : {A : Type ℓ} → A → TestState → Result A × TestState
returns a s = (ok a, s)

abbrev or_blank : Option String → String
or_blank none = ""
or_blank (some v) = v

abbrev pub take_tick : ℕ → TestState → Result Bool × TestState
take_tick zero s = (ok false, s)
take_tick (suc n) s = (ok true, record s { ticks = n })

abbrev minus_tick : TestState → Result Bool × TestState
minus_tick s = take_tick s.ticks s

abbrev pub granted : TokenResponse
granted = record {
  access_token = "gho_new";
  refresh_token = "ghr_new";
  token_type = "bearer";
  scope = "repo";
  expires_in = pos 0;
  refresh_token_expires_in = pos 0;
}

abbrev pub entry_with : String → TokenCacheEntry
entry_with token = record {
  access_token = token;
  token_type = "Bearer";
  expires_at = pos 100;
  scope = "";
  cached_at = pos 50;
  flow = pat;
  session_id = "";
}

-- The entry that does not expire.
abbrev pub lasting_entry : TokenCacheEntry
lasting_entry = record (entry_with "lasting") { expires_at = pos 0 }

abbrev pub metadata_with : String → TokenMetadata
metadata_with session = record {
  claims = none;
  refresh_token_expires_at = pos 0;
  last_refresh = pos 50;
  hostname = "github.com";
  client_id = "client";
  scopes = [];
  identity_type = user;
  session_id = session;
  flow = device_code;
}

abbrev flow_name : Flow → String
flow_name no_flow = ""
flow_name pat = "pat"
flow_name device_code = "device_code"
flow_name github_app = "github_app"
flow_name interactive = "interactive"
flow_name (other_flow text) = text

abbrev fetched : Result FetchResult → Result TokenReply
fetched (ok r) = ok r.value
fetched (err e) = err e
fetched (panic e) = panic e

abbrev ok_response : String → TestState → Result Response × TestState
ok_response url s = (ok (record { status_code = 200; body = url }), s)

instance abbrev pub test_world : World
test_world = record {
  State = TestState;
  HostClient = Unit;
  get_secret = λ c k s. (ok (lookup s.secrets k), s);
  set_secret = λ c k v s. (ok tt, record s { secrets = insert k v s.secrets });
  delete_secret = λ c k s. (ok tt, record s { secrets = erase k s.secrets });
  list_secrets = λ c pattern s. (ok (under (without_last pattern) s.secrets), s);
  HttpClient = Unit;
  post_form = λ c url form. ok_response url;
  http_get = λ c url form. ok_response url;
  post_json = λ c url form s. (ok (record { status_code = 201; body = url }), s);
  now = λ s. (ok s.time, s);
  getenv = λ s name. or_blank (lookup s.env name);
  read_file = λ path. returns path;
  new_uuid = returns "uuid";
  open_browser = λ url. returns tt;
  notify = λ prompt. returns tt;
  with_timeout = λ timeout. returns tt;
  await_tick = λ interval. minus_tick;
  ticks_left = λ s. s.ticks;
  generate_code_verifier = returns "verifier";
  code_challenge = λ v. v;
  start_callback_server = λ state. returns "http://localhost";
  close_callback_server = returns tt;
  await_callback = λ timeout. returns (code "code");
  encode_query = λ form. "query";
  format_duration = λ d. "5m0s";
  is_valid_for = λ token d s. (ok (ltb_ℤ (s.time +ℤ d) token.expires_at), s);
  default_min_valid_for = pos 10;
  encode_entry = λ e. ok e.access_token;
  decode_entry = λ v. ok (if v == "lasting" then lasting_entry else entry_with v);
  encode_metadata = λ m. ok m.session_id;
  decode_metadata = λ v. ok (metadata_with v);
  decode_token = λ v. ok granted;
  decode_token_error = λ v. ok (record { error = "e"; error_description = v; error_uri = "" });
  decode_token_body = λ v. ok (record {
    token = granted;
    failure = record { error = ""; error_description = ""; error_uri = "" };
  });
  decode_user = λ v. ok (record {
    login = "octocat";
    id = pos 7;
    name = "Mona";
    email = "mona@example.com";
    avatar_url = "";
  });
  decode_device_code = λ v. ok (record {
    device_code = "device";
    user_code = "ABCD-1234";
    verification_uri = "https://github.com/login/device";
    expires_in = pos 900;
    interval = pos 5;
  });
  decode_app_info = λ v. ok (record {
    id = pos 7;
    slug = "app";
    name = "App";
    description = "";
    owner_login = "octocat";
    owner_id = pos 7;
  });
  decode_installation = λ v. ok (record { token = "ghs_install"; expires_at = pos 3600 });
  flow_text = flow_name;
  sha256_hex = λ s. s;
  quote = λ s. "\"" <> (s <> "\"");
  scan_int64 = λ s. some (pos 42);
  split_host = λ s. none;
  PrivateKey = Unit;
  parse_rsa = λ s. ok tt;
  sign_jwt = λ k issued expires issuer. ok issuer;
  default_http_client = tt;
  validate_ref = λ ref. ok tt;
  resolve_ref = λ ref. returns ref;
  unmarshal_config = λ raw c. (record c { hostname = raw }, ok tt);
  decode_server_config = λ raw. err raw;
  Manager = Unit;
  new_manager = λ threshold buffer. returns tt;
  manager_do = λ m key fetch s. let (r, t) = fetch s in (fetched r, t);
}

abbrev pub secrets_of : TestState → String → Option String
secrets_of s k = lookup s.secrets k

ok-injective {ℓ} : {A : Type ℓ} (a b : A) → ok a ≡ ok b → a ≡ b
ok-injective a b e = cc

keeps_all :
    {A : Type 0} {P : TestState → Type 0} (r : TestState → Result A) → Keeps P (λ s. (r s, s))
keeps_all r = record { at = λ s h. h }

-- A key that is written or deleted and belongs to the profile is not one that does not.
set_other :
    (profile key j value : String) (v : Option String) (s : TestState)
    → ¬ Owned profile key
    → Owned profile j
    → lookup s.secrets key ≡ v
    → lookup (insert j value s.secrets) key ≡ v
set_other profile key j value v s foreign owned h =
    rw (lookup-insert j key value s.secrets) (elim (Bool-cases (j == key)) [
      | inl same ↦ absurd (foreign (subst (Owned profile) ((eq_iff j key).0 same) owned))
      | inr other ↦ rw other h
    ])

delete_other :
    (profile key j : String) (v : Option String) (s : TestState)
    → ¬ Owned profile key
    → Owned profile j
    → lookup s.secrets key ≡ v
    → lookup (erase j s.secrets) key ≡ v
delete_other profile key j v s foreign owned h =
    rw (lookup-erase j key s.secrets) (elim (Bool-cases (j == key)) [
      | inl same ↦ absurd (foreign (subst (Owned profile) ((eq_iff j key).0 same) owned))
      | inr other ↦ rw other h
    ])

listed-AllBegin :
    (prefix : String) (s : TestState) (keys : List String)
    → ok (under (without_last (prefix <> "*")) s.secrets) ≡ ok keys
    → AllBegin prefix keys
listed-AllBegin prefix s keys e = subst (AllBegin prefix) (ok-injective _ _ e) (
    subst (λ p. AllBegin prefix (under p s.secrets)) (sym (without_last_star prefix))
      (under-AllBegin prefix s.secrets))

take_tick_secrets : (n : ℕ) (s : TestState) → (take_tick n s).1.secrets ≡ s.secrets
take_tick_secrets zero s = refl
take_tick_secrets (suc n) s = refl

minus_tick_keeps : (key : String) (v : Option String) → Keeps (λ s. secrets_of s key ≡ v) minus_tick
minus_tick_keeps key v = record { at = λ s h. rw take_tick_secrets h }

test-Frame :
    (profile key : String) (v : Option String)
    → ¬ Owned profile key
    → Frame test_world (λ s. secrets_of s key ≡ v) profile
test-Frame profile key v foreign = record {
  get_secret = λ c k. keeps_all _;
  set_secret =
      λ c k value owned. record { at = λ s h. set_other profile key k value v s foreign owned h };
  delete_secret =
      λ c k owned. record { at = λ s h. delete_other profile key k v s foreign owned h };
  list_secrets = λ c pattern. keeps_all _;
  listed = λ c prefix s keys e. listed-AllBegin prefix s keys e;
  post_form = λ c url form. keeps_all _;
  http_get = λ c url form. keeps_all _;
  post_json = λ c url form. keeps_all _;
  now = keeps_all _;
  read_file = λ path. keeps_all _;
  new_uuid = keeps_all _;
  open_browser = λ url. keeps_all _;
  notify = λ prompt. keeps_all _;
  with_timeout = λ timeout. keeps_all _;
  await_tick = λ interval. minus_tick_keeps key v;
  generate_code_verifier = keeps_all _;
  start_callback_server = λ state. keeps_all _;
  close_callback_server = keeps_all _;
  await_callback = λ timeout. keeps_all _;
  is_valid_for = λ token validity. keeps_all _;
}

pub test-IsHost : IsHost secrets_of
test-IsHost = record { frame = test-Frame }

pub tick_used :
    (n : ℕ) (s : TestState)
    → (take_tick n s).0 ≡ ok true
    → s.ticks ≡ n
    → (take_tick n s).1.ticks < n
tick_used zero s h e = cc
tick_used (suc n) s h e = omega arith

pub le_refl : (n : ℕ) → n ≤ n
le_refl n = omega arith
