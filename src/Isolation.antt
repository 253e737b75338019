-- ===== src/Isolation.antt =====
-- Any sequence of the command line's operations, and the secrets of a profile that none of them
-- runs under.
use scafctl_plugin_auth_gith.Prelude.{String, Option, List, [], ◌∷◌, ◌≡◌, ◌≢◌, refl, ◌∙◌}
use scafctl_plugin_auth_gith.Effect.{ok}
use scafctl_plugin_auth_gith.Effect.Keeps.{Keeps, Keeps-gets}
use scafctl_plugin_auth_gith.Types.{LoginRequest, TokenRequest}
use scafctl_plugin_auth_gith.World.{World}
use scafctl_plugin_auth_gith.Profile.{validate_profile}
use scafctl_plugin_auth_gith.Profile.Keys.{Owned, Overlaps, Owned-disjoint}
use scafctl_plugin_auth_gith.Frame.{Frame}
use scafctl_plugin_auth_gith.Handler.{Handler, Context}
use scafctl_plugin_auth_gith.DeviceFlow.{browser_opener}
use scafctl_plugin_auth_gith.CliMode
use scafctl_plugin_auth_gith.CliMode.Login.Isolation.{login-Keeps}
use scafctl_plugin_auth_gith.CliMode.Logout.Isolation.{logout-Keeps}
use scafctl_plugin_auth_gith.CliMode.GetStatus.Isolation.{get_status-Keeps}
use scafctl_plugin_auth_gith.CliMode.GetToken.Isolation.{get_token-Keeps}
use scafctl_plugin_auth_gith.CliMode.Listing.Isolation.{
  list_cached_tokens-Keeps, purge_expired_tokens-Keeps,
}

-- The operations of the `mode` interface.
pub data Operation : Type 0 where
  login : LoginRequest → Operation
  get_token : TokenRequest → Operation
  logout get_status list_cached_tokens purge_expired_tokens detect_available_flows : Operation

-- An operation with the plugin and the context that it runs with.
pub record Call (W : World) : Type 0 where
  pub handler : Handler W
  pub context : Context W
  pub operation : Operation

module _ ⦃W : World⦄ where
  -- The world after an operation of the command line, whatever it returned.
  abbrev pub after : Handler W → Context W → Operation → W.State → W.State
  after p ctx (login req) s = (CliMode.login p ctx req s).1
  after p ctx (get_token req) s = (CliMode.get_token p ctx req s).1
  after p ctx logout s = (CliMode.logout p ctx s).1
  after p ctx get_status s = (CliMode.get_status p ctx s).1
  after p ctx list_cached_tokens s = (CliMode.list_cached_tokens p ctx s).1
  after p ctx purge_expired_tokens s = (CliMode.purge_expired_tokens p ctx s).1
  after p ctx detect_available_flows s = (CliMode.detect_available_flows p s).1

  abbrev pub after_all : List (Call W) → W.State → W.State
  after_all [] s = s
  after_all (call ∷ calls) s = after_all calls (after call.handler call.context call.operation s)

  module _ {P : W.State → Type 0} (p : Handler W) (ctx : Context W) (F : Frame W P ctx.profile)
      (valid : validate_profile ctx.profile ≡ ok tt)
      (opens : (url : String) → Keeps P (browser_opener p url)) where
    -- Whatever holds however the profile's own secrets are changed still holds after the operation.
    pub after-frame : (operation : Operation) (s : W.State) → P s → P (after p ctx operation s)
    after-frame (login req) s h = (login-Keeps ctx F valid p opens req).at s h
    after-frame (get_token req) s h = (get_token-Keeps ctx F valid p req).at s h
    after-frame logout s h = (logout-Keeps ctx F valid p).at s h
    after-frame get_status s h = (get_status-Keeps ctx F valid p).at s h
    after-frame list_cached_tokens s h = (list_cached_tokens-Keeps ctx F valid p).at s h
    after-frame purge_expired_tokens s h = (purge_expired_tokens-Keeps ctx F valid p).at s h
    after-frame detect_available_flows s h =
        unfold CliMode.detect_available_flows in
        (Keeps-gets {P = P} (CliMode.available_flows p)).at s h

  -- `secrets` is what the host holds: no call that the plugin makes changes a secret, but for the
  -- secret that it sets or deletes, and the host lists matching keys only.
  pub record IsHost (secrets : W.State → String → Option String) : Type 0 where
    pub frame :
        (profile key : String) (v : Option String)
        → ¬ Owned profile key
        → Frame W (λ s. secrets s key ≡ v) profile

  -- A call under a valid profile that shares no key with `p`, and whose browser opener leaves the
  -- secrets alone.
  pub record IsForeign (secrets : W.State → String → Option String) (p : String) (call : Call W)
      : Type 0 where
    pub valid : validate_profile call.context.profile ≡ ok tt
    pub other : call.context.profile ≢ p
    pub apart : ¬ Overlaps call.context.profile p
    pub opens :
        (key : String) (v : Option String) (url : String)
        → Keeps (λ s. secrets s key ≡ v) (browser_opener call.handler url)

  abbrev pub AllForeign : (W.State → String → Option String) → String → List (Call W) → Type 0
  AllForeign secrets p [] = Unit
  AllForeign secrets p (call ∷ calls) = IsForeign secrets p call × AllForeign secrets p calls

  -- After any sequence of logins, token requests, logouts and other operations under profiles with
  -- valid names, every secret and every cached token of a profile `p` with a valid name is what it
  -- was, if none of the calls runs under `p` and none pairs the default profile with the profile
  -- called `token`. The host is assumed to change the secrets that it is told to change only.
  pub after_all-secrets :
      {secrets : W.State → String → Option String}
      → IsHost secrets
      → (calls : List (Call W)) (p key : String) (s : W.State) → validate_profile p ≡ ok tt
      → Owned p key
      → AllForeign secrets p calls
      → secrets (after_all calls s) key ≡ secrets s key
  after_all-secrets host [] p key s valid owned foreign = refl
  after_all-secrets {secrets} host (call ∷ calls) p key s valid owned (f, foreign) =
      after_all-secrets host calls p key _ valid owned foreign
      ∙ after-frame call.handler call.context
          (host.frame call.context.profile key (secrets s key)
            (λ shared. Owned-disjoint _ p key f.valid valid f.other f.apart shared owned))
          f.valid (f.opens key (secrets s key)) call.operation s refl
