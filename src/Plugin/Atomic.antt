-- ===== src/Plugin/Atomic.antt =====
-- What an activation of server mode changes: ActivateServerMode of internal/github/server_mode.go.
use scafctl_plugin_auth_gith.Prelude.{String, Bool, true, false, some, ◌≡◌, refl, ap, if◌then◌else◌}
use scafctl_plugin_auth_gith.Effect.{
  Result, ok, err, panic, Exec, fail, lift, continue, ◌>>=◌, ◌>>◌,
}
use scafctl_plugin_auth_gith.Settings.{ServerConfig}
use scafctl_plugin_auth_gith.World.{World}
use scafctl_plugin_auth_gith.ServerMode.{ServerState}
use scafctl_plugin_auth_gith.Plugin.State.{serving, Plugin, System, update, plugin_of, in_world}
use scafctl_plugin_auth_gith.Plugin.Activate.{activate, activate_server_mode, is_blank}

module _ ⦃W : World⦄ where
  -- What an activation leaves: the plugin with a server's mode, or the plugin as it was.
  abbrev pub Atomic : Plugin W → Result (Unit {0}) → System W → Type 0
  Atomic p (ok x) t = (m : ServerState W) × (t.plugin ≡ record p { mode = some (serving m) })
  Atomic p (err e) t = t.plugin ≡ p
  Atomic p (panic e) t = t.plugin ≡ p

  AtomicAction : Plugin W → Exec (System W) (Unit {0}) → Type 0
  AtomicAction p m = (s : System W) → s.plugin ≡ p → Atomic p (m s).0 (m s).1

  continue-Atomic :
      {A : Type 0} (p : Plugin W) (r : Result A) (f : A → Exec (System W) (Unit {0})) (t : System W)
      → t.plugin ≡ p
      → ((a : A) → AtomicAction p (f a))
      → Atomic p (continue r f t).0 (continue r f t).1
  unfolding AtomicAction
  continue-Atomic p (ok a) f t h k = k a t h
  continue-Atomic p (err e) f t h k = h
  continue-Atomic p (panic e) f t h k = h

  update-Atomic :
      (p : Plugin W) (m : ServerState W)
      → AtomicAction p (update (λ q. record q { mode = some (serving m) }))
  unfolding AtomicAction update
  update-Atomic p m s h =
      (m, ap {A = Plugin W} {B = Plugin W} (λ q. record q { mode = some (serving m) }) h)

  activate-Atomic : (p : Plugin W) (sc : ServerConfig) → AtomicAction p (activate sc)
  unfolding AtomicAction activate ◌>>=◌ plugin_of in_world
  activate-Atomic p sc s h = continue-Atomic p _ _ _ h (λ m. update-Atomic p m)

  fail-Atomic : (p : Plugin W) (e : String) → AtomicAction p (fail e)
  unfolding AtomicAction fail
  fail-Atomic p e s h = h

  if-Atomic :
      (p : Plugin W) (b : Bool) (m n : Exec (System W) (Unit {0}))
      → AtomicAction p m
      → AtomicAction p n
      → AtomicAction p (if b then m else n)
  if-Atomic p true m n h k = h
  if-Atomic p false m n h k = k

  world-Atomic :
      (p : Plugin W) (w : Exec W.State (Unit {0})) (m : Exec (System W) (Unit {0}))
      → AtomicAction p m
      → AtomicAction p (in_world w >> m)
  unfolding AtomicAction ◌>>=◌ in_world
  world-Atomic p w m k s h = continue-Atomic p _ _ _ h (λ x. k)

  -- An activation of server mode that succeeds changes the plugin's mode alone, to a server's; one
  -- that fails leaves the plugin as it was, the mode that was active before included.
  pub activate_server_mode-Atomic :
      (settings : String) (s : System W)
      → Atomic s.plugin (activate_server_mode settings s).0 (activate_server_mode settings s).1
  unfolding AtomicAction activate_server_mode ◌>>=◌ lift
  activate_server_mode-Atomic settings s = continue-Atomic s.plugin _ _ s refl λ decoded.
      if-Atomic s.plugin (is_blank decoded.1) _ _
        (world-Atomic s.plugin _ _ (activate-Atomic s.plugin decoded.0))
        (fail-Atomic s.plugin "failed to parse server config: unexpected trailing data")
