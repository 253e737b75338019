-- ===== src/Token/Store/Outcome.antt =====
-- What storing credentials leaves in the host's secret store: storeCredentials of
-- internal/github/token.go as a whole.
use scafctl_plugin_auth_gith.Prelude.{String, ◌==◌, ℤ, false, Option, List, ◌≡◌, refl}
use scafctl_plugin_auth_gith.Effect.{ok, try, ◌>>=◌}
use scafctl_plugin_auth_gith.Effect.Keeps.{Keeps, Keeps-bind, Keeps-try}
use scafctl_plugin_auth_gith.Effect.Ensures.{Ensures, Ensures-of_Keeps, Ensures-bind, Ensures-after}
use scafctl_plugin_auth_gith.Types.{Flow, TokenResponse}
use scafctl_plugin_auth_gith.World.{World}
use scafctl_plugin_auth_gith.Reliable.{Reliable}
use scafctl_plugin_auth_gith.Isolation.{IsHost}
use scafctl_plugin_auth_gith.Profile.{validate_profile}
use scafctl_plugin_auth_gith.Profile.Keys.{
  SecretName, name_text, refresh_token, access_token, metadata, key_of,
}
use scafctl_plugin_auth_gith.Profile.Apart.{Stranger, differ, unlike, key_of-injective}
use scafctl_plugin_auth_gith.Handler.{Handler}
use scafctl_plugin_auth_gith.UserClaims.{fetch_user_claims}
use scafctl_plugin_auth_gith.UserClaims.Isolation.{fetch_user_claims-Keeps}
use scafctl_plugin_auth_gith.Token.Store.{store_with}
use scafctl_plugin_auth_gith.Token.Store.Contents.{
  Anything, Holds, Described, key_text, frame, recorded, recorded-Keeps, recorded-Described,
  store_if_set-Ensures, store_if_set-Keeps, key_text_lem, anything,
}

module _ ⦃W : World⦄ {secrets : W.State → String → Option String} {time : W.State → ℤ}
    (R : Reliable W secrets time) (host : IsHost secrets) (profile : String)
    (valid : validate_profile profile ≡ ok tt) (other : Stranger profile) where
  module _ (p : Handler W) (client : W.HostClient) (resp : TokenResponse) (scopes : List String)
      (session_id : String) (flow : Flow) where
    fetched-Keeps :
        (k : SecretName) (value : String)
        → key_text R host profile valid other metadata == key_of profile k ≡ false
        → Keeps (Holds R host profile valid other k value) (
            try (fetch_user_claims p resp.access_token) >>= λ fetched.
            recorded R host profile valid other p client resp scopes session_id flow fetched)
    fetched-Keeps k value apart =
        Keeps-bind _ _
          (Keeps-try _ (
            fetch_user_claims-Keeps (frame R host profile valid other k value) other.1 p
              resp.access_token))
          (recorded-Keeps R host profile valid other k value apart p client resp scopes session_id
            flow)

    apart_text :
        (k j : SecretName)
        → name_text k == name_text j ≡ false
        → key_text R host profile valid other k == key_of profile j ≡ false
    apart_text k j e = rw (key_text_lem R host profile valid other k) (
        differ _ _ λ same. unlike (name_text k) (name_text j) e (key_of-injective profile k j same))

    pub store_with-refresh :
        resp.refresh_token == "" ≡ false
        → Ensures
            (Anything R host profile valid other)
            (store_with p client profile resp scopes session_id flow)
            (λ _. Holds R host profile valid other refresh_token resp.refresh_token)
    unfolding store_with
    store_with-refresh full = Ensures-after _ _ (anything R host profile valid other _) λ _.
        Ensures-bind _ _
          (store_if_set-Ensures R host profile valid other refresh_token resp.refresh_token client _
            _ (key_text_lem R host profile valid other refresh_token) full)
          λ _. Ensures-of_Keeps _ (
            Keeps-bind _ _
              (store_if_set-Keeps R host profile valid other refresh_token resp.refresh_token client
                _ _ _ (apart_text access_token refresh_token refl))
              λ _.
                fetched-Keeps refresh_token resp.refresh_token
                  (apart_text metadata refresh_token refl))

    pub store_with-access :
        resp.access_token == "" ≡ false
        → Ensures
            (Anything R host profile valid other)
            (store_with p client profile resp scopes session_id flow)
            (λ _. Holds R host profile valid other access_token resp.access_token)
    unfolding store_with
    store_with-access full = Ensures-after _ _ (anything R host profile valid other _) λ _.
        Ensures-after _ _ (anything R host profile valid other _) λ _.
          Ensures-bind _ _
            (store_if_set-Ensures R host profile valid other access_token resp.access_token client _
              _ (key_text_lem R host profile valid other access_token) full)
            λ _.
              Ensures-of_Keeps _ (
                fetched-Keeps access_token resp.access_token
                  (apart_text metadata access_token refl))

    pub store_with-metadata :
        Ensures
          (Anything R host profile valid other)
          (store_with p client profile resp scopes session_id flow)
          (Described R host profile valid other p scopes flow)
    unfolding store_with
    store_with-metadata = Ensures-after _ _ (anything R host profile valid other _) λ _.
        Ensures-after _ _ (anything R host profile valid other _) λ _.
          Ensures-after _ _ (anything R host profile valid other _) λ _.
            Ensures-after _ _ (anything R host profile valid other _) λ fetched.
              recorded-Described R host profile valid other p client resp scopes session_id flow
                fetched
