-- ===== src/Frame.antt =====
-- What keeps a property of the world: an interface for the statement that a run under one profile
-- leaves all else in the host's secret store alone. The operations that the plugin does not
-- implement are assumed to keep the property, a write only where the key belongs to the profile.
pub mod Rules
use scafctl_plugin_auth_gith.Prelude.{String, ◌<>◌, ◌≡◌, ℤ, Option, none, some, List, [], ◌∷◌}
use scafctl_plugin_auth_gith.Effect.{Exec, ok}
use scafctl_plugin_auth_gith.Effect.Keeps.{Keeps}
use scafctl_plugin_auth_gith.Types.{Token, DeviceCodePrompt}
use scafctl_plugin_auth_gith.World.{World, Form}
use scafctl_plugin_auth_gith.Profile.Keys.{Owned}

-- Every key begins with the prefix.
abbrev pub AllBegin : String → List String → Type 0
AllBegin prefix [] = Unit
AllBegin prefix (key ∷ keys) = ((rest : String) × (key ≡ prefix <> rest)) × AllBegin prefix keys

pub record Frame (W : World) (P : W.State → Type 0) (profile : String) : Type 0 where
  pub get_secret : (c : W.HostClient) (key : String) → Keeps P (W.get_secret c key)
  pub set_secret :
      (c : W.HostClient) (key value : String)
      → Owned profile key
      → Keeps P (W.set_secret c key value)
  pub delete_secret :
      (c : W.HostClient) (key : String) → Owned profile key → Keeps P (W.delete_secret c key)
  pub list_secrets : (c : W.HostClient) (pattern : String) → Keeps P (W.list_secrets c pattern)
  -- The host lists only keys that match the pattern.
  pub listed :
      (c : W.HostClient) (prefix : String) (s : W.State) (keys : List String)
      → (W.list_secrets c (prefix <> "*") s).0 ≡ ok keys
      → AllBegin prefix keys
  pub post_form : (c : W.HttpClient) (url : String) (form : Form) → Keeps P (W.post_form c url form)
  pub http_get : (c : W.HttpClient) (url : String) (form : Form) → Keeps P (W.http_get c url form)
  pub post_json : (c : W.HttpClient) (url : String) (form : Form) → Keeps P (W.post_json c url form)
  pub now : Keeps P W.now
  pub read_file : (path : String) → Keeps P (W.read_file path)
  pub new_uuid : Keeps P W.new_uuid
  pub open_browser : (url : String) → Keeps P (W.open_browser url)
  pub notify : (prompt : DeviceCodePrompt) → Keeps P (W.notify prompt)
  pub with_timeout : (timeout : ℤ) → Keeps P (W.with_timeout timeout)
  pub await_tick : (interval : ℤ) → Keeps P (W.await_tick interval)
  pub generate_code_verifier : Keeps P W.generate_code_verifier
  pub start_callback_server : (state : String) → Keeps P (W.start_callback_server state)
  pub close_callback_server : Keeps P W.close_callback_server
  pub await_callback : (timeout : ℤ) → Keeps P (W.await_callback timeout)
  pub is_valid_for : (token : Token) (validity : ℤ) → Keeps P (W.is_valid_for token validity)
