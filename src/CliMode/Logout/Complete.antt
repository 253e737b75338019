-- ===== src/CliMode/Logout/Complete.antt =====
-- What a logout leaves of a profile: logoutInternal of internal/github/auth_handler.go.
use scafctl_plugin_auth_gith.Prelude.{
  String, ◌<>◌, ◌==◌, eq_refl, ℤ, Bool-cases, Option-cases, Option, none, some, List, [], ◌∷◌, ◌≡◌,
  refl, sym, ◌∙◌, ap, subst, inl, inr,
}
use scafctl_plugin_auth_gith.Effect.{ok, Exec, pure, lift, try, ◌>>◌, or_empty}
use scafctl_plugin_auth_gith.Effect.Laws.{bind_of_tried, bind_of_ok, bind_runs}
use scafctl_plugin_auth_gith.World.{World}
use scafctl_plugin_auth_gith.Reliable.{Reliable, Among}
use scafctl_plugin_auth_gith.Profile.{secret_key_base, validate_profile, profile_secret_key}
use scafctl_plugin_auth_gith.Profile.Keys.{
  prefix_of, key_of, in_profile, prefix_key, token_secret-Owned, SecretName, refresh_token,
  access_token, metadata, Owned, secret_key, profile_secret_key_valid, profile_token_prefix_valid,
}
use scafctl_plugin_auth_gith.Handler.{Handler, Context, host_client}
use scafctl_plugin_auth_gith.CliMode.Logout.{logout, logout_on, delete_quietly}
use scafctl_plugin_auth_gith.Cache.{delete_all, cache_clear, clear_prefix, delete_listed}

token_valid : validate_profile "token" ≡ ok tt
unfolding validate_profile
token_valid = refl

module _ ⦃W : World⦄ {secrets : W.State → String → Option String} {time : W.State → ℤ}
    (R : Reliable W secrets time) (client : W.HostClient) where
  -- One that is gone stays gone.
  pub delete_keeps_none :
      (k j : String) (s : W.State)
      → secrets s j ≡ none
      → secrets (W.delete_secret client k s).1 j ≡ none
  delete_keeps_none k j s gone =
      R.after_delete client k j s
      ∙ elim (Bool-cases (k == j)) [ inl same ↦ rw same refl | inr other ↦ rw (other, gone) refl ]

  pub delete_removes : (k : String) (s : W.State) → secrets (W.delete_secret client k s).1 k ≡ none
  delete_removes k s = R.after_delete client k k s ∙ rw (eq_refl k) refl

  -- One deletion, and the deletions after it.
  delete_step :
      {B : Type 0} (m : Exec W.State B) (k : String) (s : W.State)
      → (try (W.delete_secret client k) >> m) s ≡ m (W.delete_secret client k s).1
  delete_step m k s =
      bind_of_tried (W.delete_secret client k) (λ _. m) s tt (R.delete_secret client k s)

  pub delete_all-ok : (keys : List String) (s : W.State) → (delete_all client keys s).0 ≡ ok tt
  unfolding delete_all pure
  delete_all-ok [] s = refl
  delete_all-ok (k ∷ keys) s =
      ap (λ r. r.0) (delete_step (delete_all client keys) k s) ∙ delete_all-ok keys _

  pub delete_all-keeps_none :
      (keys : List String) (j : String) (s : W.State)
      → secrets s j ≡ none
      → secrets (delete_all client keys s).1 j ≡ none
  unfolding delete_all pure
  delete_all-keeps_none [] j s gone = gone
  delete_all-keeps_none (k ∷ keys) j s gone =
      ap (λ r. secrets r.1 j) (delete_step (delete_all client keys) k s)
      ∙ delete_all-keeps_none keys j _ (delete_keeps_none k j s gone)

  pub delete_all-removes :
      (keys : List String) (j : String) (s : W.State)
      → Among j keys
      → secrets (delete_all client keys s).1 j ≡ none
  unfolding delete_all
  delete_all-removes [] j s m = absurd m
  delete_all-removes (k ∷ keys) j s (inl e) =
      ap (λ r. secrets r.1 j) (delete_step (delete_all client keys) k s)
      ∙ delete_all-keeps_none keys j _ (
          subst (λ i. secrets (W.delete_secret client k s).1 i ≡ none) (sym e) (delete_removes k s))
  delete_all-removes (k ∷ keys) j s (inr m) =
      ap (λ r. secrets r.1 j) (delete_step (delete_all client keys) k s)
      ∙ delete_all-removes keys j _ m

  -- Every cached token under the prefix is deleted.
  module _ (profile : String) (valid : validate_profile profile ≡ ok tt) where
    prefix_runs :
        (s : W.State)
        → clear_prefix client (ok (prefix_of profile)) s
          ≡ delete_all client (R.listed s (prefix_of profile)) s
    unfolding clear_prefix delete_listed
    prefix_runs s =
        bind_of_tried (W.list_secrets client (prefix_of profile <> "*")) (delete_listed client) s
          (R.listed s (prefix_of profile))
          (ap (λ r. r.0) (R.list_secrets client (prefix_of profile) s))
        ∙ ap (λ t. delete_all client (R.listed s (prefix_of profile)) t)
            (ap (λ r. r.1) (R.list_secrets client (prefix_of profile) s))

    cache_clear-runs :
        (s : W.State)
        → cache_clear client profile s ≡ delete_all client (R.listed s (prefix_of profile)) s
    unfolding cache_clear
    cache_clear-runs s =
        ap (λ r. clear_prefix client r s) (profile_token_prefix_valid profile valid) ∙ prefix_runs s

    pub cache_clear-removes :
        (rest : String) (s : W.State)
        → secrets (cache_clear client profile s).1 (prefix_of profile <> rest) ≡ none
    cache_clear-removes rest s =
        ap (λ r. secrets r.1 (prefix_of profile <> rest)) (cache_clear-runs s)
        ∙ elim (Option-cases (secrets s (prefix_of profile <> rest))) [
          | inl gone ↦ delete_all-keeps_none _ _ s gone
          | inr (v, held) ↦
              delete_all-removes _ _ s (R.all_listed (prefix_of profile) rest v s held)
        ]

  -- The three secrets, one after the other.
  pub deleted : String → W.State → W.State
  deleted k s = (W.delete_secret client k s).1

  quiet_runs :
      (k profile key : String) (s : W.State)
      → profile_secret_key k profile ≡ ok key
      → delete_quietly client k profile s ≡ (ok tt, deleted key s)
  unfolding deleted pure
  quiet_runs k profile key s e =
      ap (λ r. (try (W.delete_secret client (or_empty r)) >> pure tt) s) e
      ∙ delete_step (pure tt) key s

  abbrev without_secrets : String → W.State → W.State
  without_secrets profile s =
      deleted (key_of profile metadata)
        (deleted (key_of profile access_token) (deleted (key_of profile refresh_token) s))

  deleted_keeps_none :
      (k j : String) (s : W.State) → secrets s j ≡ none → secrets (deleted k s) j ≡ none
  unfolding deleted
  deleted_keeps_none k j s gone = delete_keeps_none k j s gone

  deleted_removes : (k : String) (s : W.State) → secrets (deleted k s) k ≡ none
  unfolding deleted
  deleted_removes k s = delete_removes k s

  without_secrets-keeps_none :
      (profile j : String) (s : W.State)
      → secrets s j ≡ none
      → secrets (without_secrets profile s) j ≡ none
  without_secrets-keeps_none profile j s gone =
      deleted_keeps_none _ j _ (deleted_keeps_none _ j _ (deleted_keeps_none _ j s gone))

  without_secrets-removes :
      (profile : String) (k : SecretName) (s : W.State)
      → secrets (without_secrets profile s) (key_of profile k) ≡ none
  without_secrets-removes profile refresh_token s =
      deleted_keeps_none _ _ _ (deleted_keeps_none _ _ _ (deleted_removes _ s))
  without_secrets-removes profile access_token s = deleted_keeps_none _ _ _ (deleted_removes _ _)
  without_secrets-removes profile metadata s = deleted_removes _ _

  module _ (p : Handler W) (ctx : Context W) (here : host_client p ctx ≡ some client)
      (valid : validate_profile ctx.profile ≡ ok tt) where
    pub cleared : W.State → W.State
    cleared s = (cache_clear client ctx.profile s).1

    on_runs :
        (s : W.State)
        → logout_on (some client) ctx.profile s ≡ (ok tt, without_secrets ctx.profile (cleared s))
    unfolding logout_on cleared lift
    on_runs s =
        bind_runs _ _ s s tt (ap (λ r. (r, s)) valid)
        ∙ bind_of_ok (cache_clear client ctx.profile) _ s tt
            (ap (λ r. r.0) (cache_clear-runs ctx.profile valid s) ∙ delete_all-ok _ s)
        ∙ bind_runs _ _ _ _ tt
            (quiet_runs _ _ _ _ (profile_secret_key_valid refresh_token ctx.profile valid))
        ∙ bind_runs _ _ _ _ tt
            (quiet_runs _ _ _ _ (profile_secret_key_valid access_token ctx.profile valid))
        ∙ quiet_runs _ _ _ _ (profile_secret_key_valid metadata ctx.profile valid)

    pub logout-runs :
        (s : W.State) → logout p ctx s ≡ (ok tt, without_secrets ctx.profile (cleared s))
    unfolding logout
    logout-runs s = ap (λ c. logout_on c ctx.profile s) here ∙ on_runs s

    Owned-removed :
        (key : String) (s : W.State)
        → Owned ctx.profile key
        → secrets (without_secrets ctx.profile (cleared s)) key ≡ none
    unfolding cleared
    Owned-removed key s (t, (inl (k, et)), e) =
        ap (secrets _) (e ∙ ap (λ u. secret_key_base <> in_profile ctx.profile u) et)
        ∙ without_secrets-removes ctx.profile k _
    Owned-removed key s (t, (inr (rest, et)), e) =
        ap (secrets _) (
          e
          ∙ ap (λ u. secret_key_base <> in_profile ctx.profile u) et
          ∙ sym (prefix_key ctx.profile rest))
        ∙ without_secrets-keeps_none ctx.profile _ _ (cache_clear-removes ctx.profile valid rest s)

    -- If the host's secret service is reliable, a host client is there and the profile's name is
    -- valid, then a logout succeeds and no secret and no cached token of the profile is left.
    pub logout_complete :
        (s : W.State) (key : String)
        → Owned ctx.profile key
        → ((logout p ctx s).0 ≡ ok tt) × (secrets (logout p ctx s).1 key ≡ none)
    logout_complete s key owned = (
      ap (λ r. r.0) (logout-runs s),
      ap (λ r. secrets r.1 key) (logout-runs s) ∙ Owned-removed key s owned,
    )

    -- The name `token` is accepted for a profile, and the profile's three secrets get their keys;
    -- if the host's secret service is reliable and a host client is there, a logout of the default
    -- profile succeeds and leaves none of those three secrets of the other profile.
    pub logout-overlap :
        (k : SecretName) (s : W.State)
        → ctx.profile ≡ ""
        → (validate_profile "token" ≡ ok tt)
          × (profile_secret_key (secret_key k) "token" ≡ ok (key_of "token" k))
          × ((logout p ctx s).0 ≡ ok tt)
          × (secrets (logout p ctx s).1 (key_of "token" k) ≡ none)
    logout-overlap k s default =
        let gone =
          logout_complete s (key_of "token" k)
            (subst (λ q. Owned q (key_of "token" k)) (sym default) (token_secret-Owned k)) in
        (token_valid, profile_secret_key_valid k "token" token_valid, gone.0, gone.1)
