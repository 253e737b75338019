-- ===== src/Token/Store/Loaded.antt =====
-- Loading what was stored: storeCredentials and the three loaders of internal/github/token.go.
use scafctl_plugin_auth_gith.Prelude.{
  String, ◌==◌, false, ℤ, Option, some, List, ◌≡◌, ap, sym, subst, ◌∙◌,
}
use scafctl_plugin_auth_gith.Effect.{ok, wrapped}
use scafctl_plugin_auth_gith.Effect.Ensures.{Ensures}
use scafctl_plugin_auth_gith.Types.{Flow, Claims, TokenResponse, TokenMetadata}
use scafctl_plugin_auth_gith.World.{World}
use scafctl_plugin_auth_gith.Reliable.{Reliable}
use scafctl_plugin_auth_gith.Isolation.{IsHost}
use scafctl_plugin_auth_gith.Profile.{validate_profile}
use scafctl_plugin_auth_gith.Profile.Apart.{stranger}
use scafctl_plugin_auth_gith.Handler.{Handler, Context, host_client}
use scafctl_plugin_auth_gith.Token.Load.{load_refresh_token, load_access_token, load_metadata}
use scafctl_plugin_auth_gith.Token.Load.Stored.{refresh-runs, access-runs, metadata-runs}
use scafctl_plugin_auth_gith.Token.Store.{store_credentials, store_on, store_with}
use scafctl_plugin_auth_gith.Token.Store.Contents.{Anything, Described}
use scafctl_plugin_auth_gith.Token.Store.Outcome.{
  store_with-refresh, store_with-access, store_with-metadata,
}

module _ ⦃W : World⦄ where
  -- The loader returns what the encoding of metadata that describes the login is decoded to.
  abbrev pub DescribedBy : Handler W → Context W → List String → Flow → Claims → W.State → Type 0
  DescribedBy p ctx scopes flow claims t =
      (m : TokenMetadata) × (value : String) × (m.claims ≡ some claims)
      × (m.hostname ≡ p.config.hostname)
      × (m.client_id ≡ p.config.client_id)
      × (m.scopes ≡ scopes)
      × (m.flow ≡ flow)
      × (W.encode_metadata m ≡ ok value)
      × ((load_metadata p ctx t).0
          ≡ wrapped "failed to unmarshal metadata" (W.decode_metadata value))

  module _ {secrets : W.State → String → Option String} {time : W.State → ℤ}
      (R : Reliable W secrets time) (host : IsHost secrets) (client : W.HostClient) (p : Handler W)
      (ctx : Context W) (here : host_client p ctx ≡ some client)
      (valid : validate_profile ctx.profile ≡ ok tt) where
    -- The described metadata is what the loader finds.
    loaded_metadata :
        (scopes : List String) (flow : Flow) (claims : Claims) (t : W.State)
        → Described R host ctx.profile valid (stranger ctx.profile valid) p scopes flow claims t
        → DescribedBy p ctx scopes flow claims t
    loaded_metadata scopes flow claims t
          (m, value, claimed, hosted, client_id, scoped, flowed, encoded, held) =
        (
          m,
          value,
          claimed,
          hosted,
          client_id,
          scoped,
          flowed,
          encoded,
          ap (λ r. r.0) (metadata-runs R client p ctx here valid value t held),
        )

    module _ (resp : TokenResponse) (scopes : List String) (session_id : String) (flow : Flow)
        (s t : W.State) (claims : Claims)
        (stored : store_credentials p ctx resp scopes session_id flow s ≡ (ok claims, t)) where
      stored_with : store_with p client ctx.profile resp scopes session_id flow s ≡ (ok claims, t)
      unfolding store_on
      stored_with =
          sym (ap (λ c. store_on p c ctx.profile resp scopes session_id flow s) here)
          ∙ (unfold store_credentials in stored)

      achieved :
          (Q : Claims → W.State → Type 0)
          → Ensures
              (Anything R host ctx.profile valid (stranger ctx.profile valid))
              (store_with p client ctx.profile resp scopes session_id flow)
              Q
          → Q claims t
      achieved Q ensured =
          subst (Q claims) (ap (λ r. r.1) stored_with)
            (ensured.then s claims tt (ap (λ r. r.0) stored_with))

      -- If the host is reliable and changes no secret that it is not told to change, the
      -- profile's name is valid, the response has both tokens and storing it returns, then the
      -- loaders return its refresh token, its access token, and the decoding of metadata that was
      -- encoded with the claims that were returned, the configured host name and client ID, the
      -- scopes and the flow.
      pub load-store_credentials :
          resp.refresh_token == "" ≡ false
          → resp.access_token == "" ≡ false
          → ((load_refresh_token p ctx t).0 ≡ ok resp.refresh_token)
            × ((load_access_token p ctx t).0 ≡ ok resp.access_token)
            × DescribedBy p ctx scopes flow claims t
      load-store_credentials refresh access =
          let other = stranger ctx.profile valid in
          (
            ap (λ r. r.0)
                (refresh-runs R client p ctx here valid resp.refresh_token t (
                  achieved _ (
                    store_with-refresh R host ctx.profile valid other p client resp scopes
                      session_id flow refresh))),
            ap (λ r. r.0)
                (access-runs R client p ctx here valid resp.access_token t (
                  achieved _ (
                    store_with-access R host ctx.profile valid other p client resp scopes session_id
                      flow access))),
            loaded_metadata scopes flow claims t (
                achieved _ (
                  store_with-metadata R host ctx.profile valid other p client resp scopes session_id
                    flow)),
          )
