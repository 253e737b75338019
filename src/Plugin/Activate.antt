-- ===== src/Plugin/Activate.antt =====
-- ActivateServerMode of internal/github/server_mode.go.
use Prim.Native.Char.{code}
use Prim.Native.String.{String as Text}
use scafctl_plugin_auth_gith.Prelude.{
  String, ℕ, Bool, true, ◌&&◌, ◌||◌, eqb, leb, some, if◌then◌else◌,
}
use scafctl_plugin_auth_gith.Effect.{Exec, fail, lift, wrapped, ◌>>=◌, ◌>>◌}
use scafctl_plugin_auth_gith.Settings.{ServerConfig}
use scafctl_plugin_auth_gith.World.{World}
use scafctl_plugin_auth_gith.ServerMode.{validate_server, server_state}
use scafctl_plugin_auth_gith.Plugin.State.{System, serving, update, plugin_of, in_world}
use scafctl_plugin_auth_gith.Plugin.Configure.{or_given}

-- `unicode.IsSpace`.
abbrev is_space : ℕ → Bool
is_space c =
    (leb 9 c && leb c 13)
    || eqb c 0x20
    || eqb c 0x85
    || eqb c 0xa0
    || eqb c 0x1680
    || (leb 0x2000 c && leb c 0x200a)
    || eqb c 0x2028
    || eqb c 0x2029
    || eqb c 0x202f
    || eqb c 0x205f
    || eqb c 0x3000

-- `len(bytes.TrimSpace(s)) == 0`.
unfoldable pub is_blank : String → Bool
is_blank Text.[] = true
is_blank (Text.◌∷◌ c s) = is_space (code c) && is_blank s

module _ ⦃W : World⦄ where
  -- The plugin's client, or a new one.
  unfoldable pub activate : ServerConfig → Exec (System W) (Unit {0})
  activate sc = do
    p ← plugin_of
    m ← in_world (server_state sc (or_given p.http_client W.default_http_client))
    update (λ q. record q { mode = some (serving m) })

  unfoldable pub activate_server_mode : String → Exec (System W) (Unit {0})
  unfolding activate
  activate_server_mode settings = do
    decoded ← lift (wrapped "failed to parse server config" (W.decode_server_config settings))
    if is_blank decoded.1
        then (do in_world (validate_server decoded.0); activate decoded.0)
        else fail "failed to parse server config: unexpected trailing data"
