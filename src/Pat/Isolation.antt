-- ===== src/Pat/Isolation.antt =====
-- Which secrets the operations on a personal access token touch.
use scafctl_plugin_auth_gith.Prelude.{String, ◌≡◌, ◌==◌, Option, none, some}
use scafctl_plugin_auth_gith.Effect.{Result, ok, err, panic}
use scafctl_plugin_auth_gith.Effect.Keeps.{
  Keeps, keeps_rules, Keeps-if, Keeps-bind, Keeps-pure, Keeps-lift, Keeps-fail, Keeps-or_wrap,
  Keeps-gets,
}
use scafctl_plugin_auth_gith.World.{World}
use scafctl_plugin_auth_gith.Profile.{validate_profile}
use scafctl_plugin_auth_gith.Frame.{Frame}
use scafctl_plugin_auth_gith.Types.{Token, TokenRequest}
use scafctl_plugin_auth_gith.Handler.{Handler, Context, host_client}
use scafctl_plugin_auth_gith.Cache.Isolation.{cache_get-Keeps, cache_set-Keeps}
use scafctl_plugin_auth_gith.UserClaims.Isolation.{fetch_user_claims-Keeps}
use scafctl_plugin_auth_gith.Pat.{
  pat_login, pat_status, valid_or_none, cached_in, cached_token, cache_if_host, validated_pat,
  pat_reply, pat_cache_key, get_pat_token,
}

module _ ⦃W : World⦄ {P : W.State → Type 0} (ctx : Context W) (F : Frame W P ctx.profile)
    (valid : validate_profile ctx.profile ≡ ok tt) where
  pub pat_login-Keeps : (p : Handler W) → Keeps P (pat_login p)
  unfolding pat_login
  pat_login-Keeps p = Keeps-bind _ _ (Keeps-gets _) λ token.
      Keeps-if (token == "") _ _ (λ _. Keeps-fail _)
        (λ _.
          Keeps-bind _ _ (Keeps-or_wrap _ _ (fetch_user_claims-Keeps F valid p token))
            λ claims. Keeps-pure _)

  pub pat_status-Keeps : (p : Handler W) → Keeps P (pat_status p)
  unfolding pat_status
  pat_status-Keeps p = search (keeps_rules, fetch_user_claims-Keeps F valid) depth 8

  valid_or_none-Keeps :
      (req : TokenRequest) (r : Result (Option Token)) → Keeps P (valid_or_none req r)
  unfolding valid_or_none
  valid_or_none-Keeps req (ok (some token)) = search (keeps_rules, F.is_valid_for)
  valid_or_none-Keeps req (ok none) = Keeps-pure none
  valid_or_none-Keeps req (err e) = Keeps-pure none
  valid_or_none-Keeps req (panic e) = Keeps-lift _

  cached_in-Keeps :
      (o : Option W.HostClient) (key : String) (req : TokenRequest)
      → Keeps P (cached_in o key ctx.profile req)
  unfolding cached_in
  cached_in-Keeps none key req = Keeps-pure none
  cached_in-Keeps (some c) key req =
      search (keeps_rules, cache_get-Keeps F valid, valid_or_none-Keeps)

  pub cached_token-Keeps :
      (o : Option W.HostClient) (key : String) (req : TokenRequest)
      → Keeps P (cached_token o key ctx.profile req)
  unfolding cached_token
  cached_token-Keeps o key req = search (keeps_rules, cached_in-Keeps)

  pub cache_if_host-Keeps :
      (o : Option W.HostClient) (key : String) (token : Token)
      → Keeps P (cache_if_host o key token ctx.profile)
  unfolding cache_if_host
  cache_if_host-Keeps none key token = Keeps-pure tt
  cache_if_host-Keeps (some c) key token = search (keeps_rules, cache_set-Keeps F valid)

  validated_pat-Keeps : (p : Handler W) (token : String) → Keeps P (validated_pat p ctx token)
  unfolding validated_pat
  validated_pat-Keeps p token =
      Keeps-bind _ _ (Keeps-or_wrap _ _ (fetch_user_claims-Keeps F valid p token)) λ _.
        Keeps-bind _ _ F.now λ now.
          Keeps-bind _ _ (cache_if_host-Keeps (host_client p ctx) (pat_cache_key p.config) _)
            λ _. Keeps-pure _

  pat_reply-Keeps :
      (p : Handler W) (token : String) (o : Option Token) → Keeps P (pat_reply p ctx token o)
  unfolding pat_reply
  pat_reply-Keeps p token (some cached) = Keeps-pure _
  pat_reply-Keeps p token none = validated_pat-Keeps p token

  pub get_pat_token-Keeps : (p : Handler W) (req : TokenRequest) → Keeps P (get_pat_token p ctx req)
  unfolding get_pat_token
  get_pat_token-Keeps p req = search (keeps_rules, cached_token-Keeps, pat_reply-Keeps) depth 8
