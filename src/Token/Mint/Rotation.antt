-- ===== src/Token/Mint/Rotation.antt =====
-- The rotation of refresh tokens: mintToken and refreshAccessToken of internal/github/token.go.
use scafctl_plugin_auth_gith.Prelude.{
  String, ◌==◌, ℤ, pos, ◌+ℤ◌, ltb_ℤ, Bool, true, false, Option, some, ◌≡◌, refl, ◌∙◌, if◌then◌else◌,
}
use scafctl_plugin_auth_gith.Effect.{ok, pure, lift, try, caught, wrapped, ◌>>=◌, ◌or_wrap◌}
use scafctl_plugin_auth_gith.Effect.Laws.{bind_runs}
use scafctl_plugin_auth_gith.Types.{Claims, Response, TokenResponse, TokenMetadata}
use scafctl_plugin_auth_gith.World.{World}
use scafctl_plugin_auth_gith.Reliable.{Reliable}
use scafctl_plugin_auth_gith.Isolation.{IsHost}
use scafctl_plugin_auth_gith.Profile.{validate_profile}
use scafctl_plugin_auth_gith.Profile.Keys.{key_of, refresh_token, metadata}
use scafctl_plugin_auth_gith.Handler.{Handler, Context, host_client}
use scafctl_plugin_auth_gith.Token.Load.{load_refresh_token}
use scafctl_plugin_auth_gith.Token.Load.Stored.{refresh-runs, metadata-runs}
use scafctl_plugin_auth_gith.Token.Store.{store_credentials, seconds, eight_hours}
use scafctl_plugin_auth_gith.Token.Store.Loaded.{load-store_credentials}
use scafctl_plugin_auth_gith.Token.Mint.{
  mint_token, refresh_access_token, accept_refresh, rotate, store_rotated, minted_deadline, minted,
  token_endpoint, refresh_form,
}

-- The expiry of a minted token at a time.
abbrev pub minted_at : TokenResponse → ℤ → ℤ
minted_at resp now =
    if ltb_ℤ (pos 0) resp.expires_in then now +ℤ seconds resp.expires_in else now +ℤ eight_hours

module _ ⦃W : World⦄ {secrets : W.State → String → Option String} {time : W.State → ℤ}
    (R : Reliable W secrets time) (host : IsHost secrets) (client : W.HostClient) (p : Handler W)
    (ctx : Context W) (here : host_client p ctx ≡ some client)
    (valid : validate_profile ctx.profile ≡ ok tt) where
  deadline-runs :
      (resp : TokenResponse) (t : W.State)
      → minted_deadline resp t ≡ (ok (minted_at resp (time t)), t)
  unfolding minted_deadline ◌>>=◌ pure
  deadline-runs resp t = rw (R.now t) (by_lifetime (ltb_ℤ (pos 0) resp.expires_in))
    where
      by_lifetime :
          (b : Bool)
          → (if b
                then (W.now >>= λ now. pure (now +ℤ seconds resp.expires_in))
                else pure (time t +ℤ eight_hours))
              t
            ≡ (ok (if b then time t +ℤ seconds resp.expires_in else time t +ℤ eight_hours), t)
      by_lifetime true = rw (R.now t) refl
      by_lifetime false = refl

  module _ (old : String) (resp : TokenResponse) (m : TokenMetadata) (claims : Claims)
      (s t : W.State)
      (stored : store_credentials p ctx resp m.scopes m.session_id m.flow s ≡ (ok claims, t))
      (refreshed : resp.refresh_token == "" ≡ false) (changed : resp.refresh_token == old ≡ false)
      (granted : resp.access_token == "" ≡ false) where
    rotate-runs : rotate p ctx old resp (ok m) s ≡ (ok tt, t)
    unfolding rotate store_rotated ◌>>=◌ pure try caught
    rotate-runs = rw (refreshed, changed, stored) refl

    accept-runs :
        accept_refresh p ctx old resp (ok m) s
        ≡ (ok (minted resp (ok m) (minted_at resp (time t))), t)
    unfolding accept_refresh
    accept-runs = rw granted (
        bind_runs (rotate p ctx old resp (ok m)) _ s t tt rotate-runs
        ∙ (unfold pure in
            bind_runs (minted_deadline resp) _ t t (minted_at resp (time t))
              (deadline-runs resp t)))

  -- The request that refreshes, and what follows it.
  refreshed-runs :
      (old value : String) (m : TokenMetadata) (answer : Response) (resp : TokenResponse)
      (s between : W.State)
      → secrets s (key_of ctx.profile metadata) ≡ some value
      → W.decode_metadata value ≡ ok m
      → W.post_form p.http_client (token_endpoint p.config) (refresh_form m.client_id old) s
        ≡ (ok answer, between)
      → W.decode_token answer.body ≡ ok resp
      → refresh_access_token p ctx old m.client_id s ≡ accept_refresh p ctx old resp (ok m) between
  unfolding refresh_access_token ◌>>=◌ ◌or_wrap◌ wrapped lift try caught
  refreshed-runs old value m answer resp s between described decoded answered parsed =
      rw (metadata-runs R client p ctx here valid value s described, decoded, answered, parsed) refl

  mint-runs :
      (old value : String) (m : TokenMetadata) (s : W.State)
      → secrets s (key_of ctx.profile refresh_token) ≡ some old
      → secrets s (key_of ctx.profile metadata) ≡ some value
      → W.decode_metadata value ≡ ok m
      → m.client_id == "" ≡ false
      → mint_token p ctx s ≡ refresh_access_token p ctx old m.client_id s
  unfolding mint_token ◌>>=◌ ◌or_wrap◌ wrapped
  mint-runs old value m s held described decoded identified =
      rw
        (
          refresh-runs R client p ctx here valid old s held,
          metadata-runs R client p ctx here valid value s described,
          decoded,
          identified,
        )
        refl

  -- If the host is reliable and changes no secret that it is not told to change, the profile's
  -- name is valid, a refresh token and metadata with a client ID are stored, and the server
  -- answers the refresh with an access token and another refresh token, which are stored without
  -- an error, then minting returns the access token with its expiry, and the refresh token that is
  -- loaded next is the new one.
  pub mint_token-rotates :
      (old value : String) (m : TokenMetadata) (answer : Response) (resp : TokenResponse)
      (claims : Claims) (s between t : W.State)
      → secrets s (key_of ctx.profile refresh_token) ≡ some old
      → secrets s (key_of ctx.profile metadata) ≡ some value
      → W.decode_metadata value ≡ ok m
      → m.client_id == "" ≡ false
      → W.post_form p.http_client (token_endpoint p.config) (refresh_form m.client_id old) s
        ≡ (ok answer, between)
      → W.decode_token answer.body ≡ ok resp
      → resp.access_token == "" ≡ false
      → resp.refresh_token == "" ≡ false
      → resp.refresh_token == old ≡ false
      → store_credentials p ctx resp m.scopes m.session_id m.flow between ≡ (ok claims, t)
      → (mint_token p ctx s ≡ (ok (minted resp (ok m) (minted_at resp (time t))), t))
        × ((load_refresh_token p ctx t).0 ≡ ok resp.refresh_token)
  mint_token-rotates old value m answer resp claims s between t held described decoded identified
        answered parsed granted refreshed changed stored =
      (
        mint-runs old value m s held described decoded identified
            ∙ refreshed-runs old value m answer resp s between described decoded answered parsed
            ∙ accept-runs old resp m claims between t stored refreshed changed granted,
        (load-store_credentials R host client p ctx here valid resp m.scopes m.session_id m.flow
            between t claims stored refreshed granted).0,
      )
