-- ===== src/Cache/Runs.antt =====
-- What the loops over the cache read on a reliable host: the keys, the secrets and the clock.
use scafctl_plugin_auth_gith.Prelude.{
  String, ◌<>◌, ℤ, ltb_ℤ, Bool, true, false, Option, List, ◌≡◌, refl, ◌∙◌, ap, if◌then◌else◌,
}
use scafctl_plugin_auth_gith.Effect.{ok, Exec, pure, lift, try, caught, ◌>>=◌}
use scafctl_plugin_auth_gith.Effect.Laws.{bind_runs}
use scafctl_plugin_auth_gith.Types.{is_zero}
use scafctl_plugin_auth_gith.World.{World}
use scafctl_plugin_auth_gith.Reliable.{Reliable}
use scafctl_plugin_auth_gith.Profile.{validate_profile, profile_token_prefix}
use scafctl_plugin_auth_gith.Profile.Keys.{prefix_of, profile_token_prefix_valid}
use scafctl_plugin_auth_gith.Cache.{is_past}

-- Whether a time is past at another; the zero time never is.
abbrev pub is_past_at : ℤ → ℤ → Bool
is_past_at t now = if is_zero t then false else ltb_ℤ t now

module _ ⦃W : World⦄ {secrets : W.State → String → Option String} {time : W.State → ℤ}
    (R : Reliable W secrets time) (client : W.HostClient) where
  pub past-runs : (t : ℤ) (s : W.State) → is_past t s ≡ (ok (is_past_at t (time s)), s)
  unfolding is_past pure
  past-runs t s = by_zero (is_zero t)
    where
      by_zero :
          (b : Bool)
          → (if b then pure false else (W.now >>= λ now. pure (ltb_ℤ t now))) s
            ≡ (ok (if b then false else ltb_ℤ t (time s)), s)
      by_zero true = refl
      by_zero false = bind_runs W.now _ s s (time s) (R.now s)

  pub got-runs :
      (k : String) (s : W.State) → try (W.get_secret client k) s ≡ (ok (ok (secrets s k)), s)
  unfolding try caught
  got-runs k s = rw (R.get_secret client k s) refl

  -- Both loops run over the keys that the host lists under the profile's prefix.
  pub listed-runs :
      {A : Type 0} (profile : String) (s : W.State)
      → validate_profile profile ≡ ok tt
      → (loop : List String → Exec W.State A)
      → ((lift (profile_token_prefix profile) >>= λ prefix.
            W.list_secrets client (prefix <> "*") >>= loop)
          s)
        ≡ loop (R.listed s (prefix_of profile)) s
  unfolding lift
  listed-runs profile s valid loop =
      bind_runs (lift (profile_token_prefix profile)) _ s s (prefix_of profile)
        (ap (λ r. (r, s)) (profile_token_prefix_valid profile valid))
      ∙ bind_runs (W.list_secrets client (prefix_of profile <> "*")) _ s s
          (R.listed s (prefix_of profile)) (R.list_secrets client (prefix_of profile) s)
