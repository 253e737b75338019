-- ===== src/Handler.antt =====
-- What `Plugin` holds once it is configured, the context of a call, and the helpers of
-- internal/github/token.go that reach the host's secret service.
pub mod Isolation
use scafctl_plugin_auth_gith.Prelude.{
  String, ◌<>◌, ◌==◌, Bool, true, false, Option, none, some, if◌then◌else◌,
}
use scafctl_plugin_auth_gith.Effect.{Result, ok, err, panic, Exec, pure, fail, try, ◌>>=◌}
use scafctl_plugin_auth_gith.World.{World}
use scafctl_plugin_auth_gith.Config.{Config}

-- The values that the source reads from `ctx`: the host client, if any, and the profile.
pub record Context (W : World) : Type 0 where
  pub host_client : Option W.HostClient
  pub profile : String

-- `BrowserOpenFunc`.
abbrev pub BrowserOpener : World → Type 0
BrowserOpener W = String → Exec W.State (Unit {0})

-- The fields of `Plugin` that a configured handler reads.
pub record Handler (W : World) : Type 0 where
  pub config : Config
  pub http_client : W.HttpClient
  pub cached_host_client : Option W.HostClient
  pub open_browser : Option (BrowserOpener W)
  pub binary_name : String

module _ ⦃W : World⦄ where
  -- The context's client goes before the cached one.
  abbrev pub first_client : Option W.HostClient → Option W.HostClient → Option W.HostClient
  first_client (some client) cached = some client
  first_client none cached = cached

  unfoldable pub host_client : Handler W → Context W → Option W.HostClient
  host_client p ctx = first_client ctx.host_client p.cached_host_client

  unfoldable pub binary_name : Handler W → String
  binary_name p = if p.binary_name == "" then "scafctl" else p.binary_name

  unfoldable pub found_secret : String → Option String → Exec W.State String
  found_secret name none = fail ("secret " <> (W.quote name <> " not found"))
  found_secret name (some value) = pure value

  unfoldable pub secret_of : Option W.HostClient → String → Exec W.State String
  unfolding found_secret
  secret_of none name = fail "host service not available"
  secret_of (some client) name = do found ← W.get_secret client name; found_secret name found

  unfoldable pub get_secret : Handler W → Context W → String → Exec W.State String
  unfolding secret_of host_client
  get_secret p ctx name = secret_of (host_client p ctx) name

  unfoldable pub was_found : Result (Option String) → Bool
  was_found (ok (some value)) = true
  was_found (ok none) = false
  was_found (err e) = false
  was_found (panic e) = false

  unfoldable pub exists_in : Option W.HostClient → String → Exec W.State Bool
  unfolding was_found
  exists_in none name = pure false
  exists_in (some client) name = do answer ← try (W.get_secret client name); pure (was_found answer)

  unfoldable pub secret_exists : Handler W → Context W → String → Exec W.State Bool
  unfolding exists_in host_client
  secret_exists p ctx name = exists_in (host_client p ctx) name
