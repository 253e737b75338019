-- ===== src/Token/Mint/Isolation.antt =====
-- Which secrets minting a token touches.
use scafctl_plugin_auth_gith.Prelude.{String, ◌≡◌, ◌==◌}
use scafctl_plugin_auth_gith.Effect.{Result, ok, err, panic}
use scafctl_plugin_auth_gith.Effect.Keeps.{
  Keeps, keeps_rules, Keeps-if, Keeps-bind, Keeps-pure, Keeps-lift, Keeps-try, Keeps-fail,
}
use scafctl_plugin_auth_gith.World.{World}
use scafctl_plugin_auth_gith.Profile.{validate_profile}
use scafctl_plugin_auth_gith.Frame.{Frame}
use scafctl_plugin_auth_gith.Types.{TokenResponse, TokenMetadata}
use scafctl_plugin_auth_gith.Handler.{Handler, Context}
use scafctl_plugin_auth_gith.Token.Load.Isolation.{load_refresh_token-Keeps, load_metadata-Keeps}
use scafctl_plugin_auth_gith.Token.Store.Isolation.{store_credentials-Keeps}
use scafctl_plugin_auth_gith.Token.Mint.{
  store_rotated, rotate, minted_deadline, accept_refresh, refresh_access_token, mint_token,
}

module _ ⦃W : World⦄ {P : W.State → Type 0} (ctx : Context W) (F : Frame W P ctx.profile)
    (valid : validate_profile ctx.profile ≡ ok tt) where
  store_rotated-Keeps :
      (p : Handler W) (resp : TokenResponse) (r : Result TokenMetadata)
      → Keeps P (store_rotated p ctx resp r)
  unfolding store_rotated
  store_rotated-Keeps p resp (ok m) =
      Keeps-bind _ _
        (Keeps-try _ (store_credentials-Keeps ctx F valid p resp m.scopes m.session_id m.flow))
        λ _. Keeps-pure tt
  store_rotated-Keeps p resp (err e) = Keeps-pure tt
  store_rotated-Keeps p resp (panic e) = Keeps-lift _

  rotate-Keeps :
      (p : Handler W) (token : String) (resp : TokenResponse) (r : Result TokenMetadata)
      → Keeps P (rotate p ctx token resp r)
  unfolding rotate
  rotate-Keeps p token resp r = search (keeps_rules, store_rotated-Keeps)

  minted_deadline-Keeps : (resp : TokenResponse) → Keeps P (minted_deadline resp)
  unfolding minted_deadline
  minted_deadline-Keeps resp = search (keeps_rules, F.now)

  accept_refresh-Keeps :
      (p : Handler W) (token : String) (resp : TokenResponse) (r : Result TokenMetadata)
      → Keeps P (accept_refresh p ctx token resp r)
  unfolding accept_refresh
  accept_refresh-Keeps p token resp r =
      Keeps-if (resp.access_token == "") _ _ (λ _. Keeps-fail _)
        (λ _.
          Keeps-bind _ _ (rotate-Keeps p token resp r)
            λ _. Keeps-bind _ _ (minted_deadline-Keeps resp) λ expires_at. Keeps-pure _)

  pub refresh_access_token-Keeps :
      (p : Handler W) (token client_id : String)
      → Keeps P (refresh_access_token p ctx token client_id)
  unfolding refresh_access_token
  refresh_access_token-Keeps p token client_id =
      search (keeps_rules, load_metadata-Keeps ctx F valid, F.post_form, accept_refresh-Keeps) depth
        8

  pub mint_token-Keeps : (p : Handler W) → Keeps P (mint_token p ctx)
  unfolding mint_token
  mint_token-Keeps p =
      search
        (
          keeps_rules,
          load_metadata-Keeps ctx F valid,
          load_refresh_token-Keeps ctx F valid,
          refresh_access_token-Keeps,
        )
        depth 8
