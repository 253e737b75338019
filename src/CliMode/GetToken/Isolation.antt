-- ===== src/CliMode/GetToken/Isolation.antt =====
-- Which secrets getting a token touches.
use scafctl_plugin_auth_gith.Prelude.{String, ◌≡◌, Option, some, none}
use scafctl_plugin_auth_gith.Effect.{ok}
use scafctl_plugin_auth_gith.Effect.Keeps.{Keeps, keeps_rules, Keeps-bind, Keeps-pure, Keeps-try}
use scafctl_plugin_auth_gith.World.{World}
use scafctl_plugin_auth_gith.Profile.{validate_profile}
use scafctl_plugin_auth_gith.Frame.{Frame}
use scafctl_plugin_auth_gith.Types.{Token, TokenRequest}
use scafctl_plugin_auth_gith.Handler.{Handler, Context, host_client}
use scafctl_plugin_auth_gith.Token.Load.Isolation.{load_access_token-Keeps}
use scafctl_plugin_auth_gith.Token.Mint.Isolation.{mint_token-Keeps}
use scafctl_plugin_auth_gith.Token.Store.{token_cache_key}
use scafctl_plugin_auth_gith.Token.Store.Isolation.{far_future-Keeps}
use scafctl_plugin_auth_gith.Pat.Isolation.{
  cached_token-Keeps, cache_if_host-Keeps, get_pat_token-Keeps,
}
use scafctl_plugin_auth_gith.CliMode.GetToken.{
  reply_and_cache, stored_or_minted, fresh_token, oauth_token, get_token,
}

module _ ⦃W : World⦄ {P : W.State → Type 0} (ctx : Context W) (F : Frame W P ctx.profile)
    (valid : validate_profile ctx.profile ≡ ok tt) where
  reply_and_cache-Keeps : (p : Handler W) (token : Token) → Keeps P (reply_and_cache p ctx token)
  unfolding reply_and_cache
  reply_and_cache-Keeps p token =
      Keeps-bind _ _
        (cache_if_host-Keeps ctx F valid (host_client p ctx) (token_cache_key p.config) token)
        λ _. Keeps-pure _

  stored_or_minted-Keeps : (p : Handler W) (o : Option String) → Keeps P (stored_or_minted p ctx o)
  unfolding stored_or_minted
  stored_or_minted-Keeps p (some access_token) =
      Keeps-bind _ _ (far_future-Keeps F valid) λ expires_at. reply_and_cache-Keeps p _
  stored_or_minted-Keeps p none =
      Keeps-bind _ _ (mint_token-Keeps ctx F valid p) λ token. reply_and_cache-Keeps p token

  fresh_token-Keeps : (p : Handler W) (o : Option Token) → Keeps P (fresh_token p ctx o)
  unfolding fresh_token
  fresh_token-Keeps p (some cached) = Keeps-pure _
  fresh_token-Keeps p none =
      Keeps-bind _ _ (Keeps-try _ (load_access_token-Keeps ctx F valid p))
        λ loaded. stored_or_minted-Keeps p _

  oauth_token-Keeps : (p : Handler W) (req : TokenRequest) → Keeps P (oauth_token p ctx req)
  unfolding oauth_token
  oauth_token-Keeps p req = search (keeps_rules, cached_token-Keeps ctx F valid, fresh_token-Keeps)

  pub get_token-Keeps : (p : Handler W) (req : TokenRequest) → Keeps P (get_token p ctx req)
  unfolding get_token
  get_token-Keeps p req = search (keeps_rules, get_pat_token-Keeps ctx F valid, oauth_token-Keeps)
