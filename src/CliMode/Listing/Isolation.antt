-- ===== src/CliMode/Listing/Isolation.antt =====
-- Which secrets listing and purging touch.
use scafctl_plugin_auth_gith.Prelude.{◌≡◌, Bool, true, false, Option, some, none}
use scafctl_plugin_auth_gith.Effect.{ok}
use scafctl_plugin_auth_gith.Effect.Keeps.{
  Keeps, keeps_rules, Keeps-bind, Keeps-pure, Keeps-try, Keeps-fail,
}
use scafctl_plugin_auth_gith.World.{World}
use scafctl_plugin_auth_gith.Profile.{validate_profile}
use scafctl_plugin_auth_gith.Frame.{Frame}
use scafctl_plugin_auth_gith.Handler.{Handler, Context, host_client}
use scafctl_plugin_auth_gith.Handler.Isolation.{secret_exists-Keeps}
use scafctl_plugin_auth_gith.Token.Load.Isolation.{load_metadata-Keeps}
use scafctl_plugin_auth_gith.Cache.Isolation.{
  cache_get-Keeps, is_past-Keeps, cache_list_entries-Keeps, cache_purge_expired-Keeps,
}
use scafctl_plugin_auth_gith.CliMode.Listing.{
  list_refresh, list_uncached, list_access, list_on, list_cached_tokens, purge_on,
  purge_expired_tokens,
}

module _ ⦃W : World⦄ {P : W.State → Type 0} (ctx : Context W) (F : Frame W P ctx.profile)
    (valid : validate_profile ctx.profile ≡ ok tt) where
  list_refresh-Keeps : (p : Handler W) (b : Bool) → Keeps P (list_refresh p ctx b)
  unfolding list_refresh
  list_refresh-Keeps p false = Keeps-pure _
  list_refresh-Keeps p true =
      Keeps-bind _ _ (Keeps-try _ (load_metadata-Keeps ctx F valid p))
        λ metadata. Keeps-bind _ _ (is_past-Keeps F valid _) λ expired. Keeps-pure _

  list_uncached-Keeps : (p : Handler W) (b : Bool) → Keeps P (list_uncached p ctx b)
  unfolding list_uncached
  list_uncached-Keeps p true = Keeps-pure _
  list_uncached-Keeps p false =
      Keeps-bind _ _ (Keeps-try _ (load_metadata-Keeps ctx F valid p)) λ metadata. Keeps-pure _

  list_access-Keeps :
      (p : Handler W) (c : W.HostClient) (b : Bool) → Keeps P (list_access p ctx c b)
  unfolding list_access
  list_access-Keeps p c false = Keeps-pure _
  list_access-Keeps p c true =
      Keeps-bind _ _ (Keeps-try _ (cache_get-Keeps F valid c _)) λ cached. list_uncached-Keeps p _

  list_on-Keeps : (p : Handler W) (o : Option W.HostClient) → Keeps P (list_on p ctx o)
  unfolding list_on
  list_on-Keeps p none = Keeps-fail _
  list_on-Keeps p (some c) =
      search
        (
          keeps_rules,
          secret_exists-Keeps F valid,
          list_refresh-Keeps,
          cache_list_entries-Keeps F valid,
          list_access-Keeps,
        )
        depth 10

  pub list_cached_tokens-Keeps : (p : Handler W) → Keeps P (list_cached_tokens p ctx)
  unfolding list_cached_tokens
  list_cached_tokens-Keeps p = list_on-Keeps p (host_client p ctx)

  purge_on-Keeps : (o : Option W.HostClient) → Keeps P (purge_on o ctx.profile)
  unfolding purge_on
  purge_on-Keeps none = Keeps-pure _
  purge_on-Keeps (some c) = search (keeps_rules, cache_purge_expired-Keeps F valid)

  pub purge_expired_tokens-Keeps : (p : Handler W) → Keeps P (purge_expired_tokens p ctx)
  unfolding purge_expired_tokens
  purge_expired_tokens-Keeps p = purge_on-Keeps (host_client p ctx)
