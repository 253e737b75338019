-- ===== src/Token/Store/Contents.antt =====
-- How storing credentials writes to the host's secret store, step by step: storeCredentials of
-- internal/github/token.go.
use scafctl_plugin_auth_gith.Prelude.{
  String, ◌<>◌, ◌==◌, eq_refl, ℤ, false, Option, some, List, ◌≡◌, refl, sym, ap, subst, ◌∙◌,
}
use scafctl_plugin_auth_gith.Effect.{Result, ok, Exec, pure, or_empty, ◌>>=◌, ◌>>◌}
use scafctl_plugin_auth_gith.Effect.Keeps.{
  Keeps, keeps_rules, Keeps-bind, Keeps-pure, Keeps-lift, Keeps-lift-bind,
}
use scafctl_plugin_auth_gith.Effect.Ensures.{
  Ensures, Ensures-or_wrap, Ensures-pure, Ensures-lift, Ensures-bind, Ensures-after, wrapped-eq-ok,
}
use scafctl_plugin_auth_gith.Types.{Flow, Claims, Token, TokenResponse, TokenMetadata}
use scafctl_plugin_auth_gith.World.{World}
use scafctl_plugin_auth_gith.Reliable.{Reliable}
use scafctl_plugin_auth_gith.Frame.{Frame}
use scafctl_plugin_auth_gith.Isolation.{IsHost}
use scafctl_plugin_auth_gith.Profile.{validate_profile, profile_secret_key, profile_token_prefix}
use scafctl_plugin_auth_gith.Profile.Keys.{
  SecretName, metadata, secret_key, key_of, key_of-Owned, profile_secret_key_valid,
  profile_token_prefix_valid,
}
use scafctl_plugin_auth_gith.Profile.Apart.{Stranger, cached-secret_apart}
use scafctl_plugin_auth_gith.Config.{Config}
use scafctl_plugin_auth_gith.Handler.{Handler}
use scafctl_plugin_auth_gith.Cache.{cache_set}
use scafctl_plugin_auth_gith.Token.Store.Isolation.{
  session_or_new-Keeps, deadline_or_zero-Keeps, login_deadline-Keeps,
}
use scafctl_plugin_auth_gith.Token.Store.{
  metadata_of, or_bare, store_if_set, session_or_new, deadline_or_zero, store_metadata, cache_login,
}

module _ ⦃W : World⦄ {secrets : W.State → String → Option String} {time : W.State → ℤ}
    (R : Reliable W secrets time) (host : IsHost secrets) (profile : String)
    (valid : validate_profile profile ≡ ok tt) (other : Stranger profile) where
  abbrev pub Holds : SecretName → String → W.State → Type 0
  Holds k value s = secrets s (key_of profile k) ≡ some value

  abbrev pub key_text : SecretName → String
  key_text k = or_empty (profile_secret_key (secret_key k) profile)

  pub key_text_lem : (k : SecretName) → key_text k ≡ key_of profile k
  key_text_lem k = ap or_empty (profile_secret_key_valid k profile valid)

  module _ (k : SecretName) (value : String) where
    pub frame : Frame W (Holds k value) other.0
    frame =
        host.frame other.0 (key_of profile k) (some value)
          (other.2 (key_of profile k) (key_of-Owned profile k))

    -- A write to another key.
    set-Keeps :
        (c : W.HostClient) (j v : String)
        → j == key_of profile k ≡ false
        → Keeps (Holds k value) (W.set_secret c j v)
    set-Keeps c j v apart = record {
      at = λ s h. R.after_set c j v (key_of profile k) s ∙ rw apart h;
    }

    cached_apart :
        (prefix rest : String)
        → profile_token_prefix profile ≡ ok prefix
        → (prefix <> rest) == key_of profile k ≡ false
    cached_apart prefix rest e =
        subst (λ x. (x <> rest) == key_of profile k ≡ false)
          (ok-injective _ _ (sym (profile_token_prefix_valid profile valid) ∙ e))
          (cached-secret_apart profile rest k)
      where
        ok-injective : (a b : String) → ok a ≡ ok b → a ≡ b
        ok-injective a b e = cc

    cache_set-Keeps :
        (c : W.HostClient) (name : String) (token : Token)
        → Keeps (Holds k value) (cache_set c name token profile)
    unfolding cache_set
    cache_set-Keeps c name token = Keeps-bind _ _ frame.now λ cached_at.
        Keeps-bind _ _ (Keeps-lift _) λ encoded.
          Keeps-lift-bind _ _
            λ prefix e. set-Keeps c (prefix <> name) encoded (cached_apart prefix name e)

    cache_login-Keeps :
        (config : Config) (c : W.HostClient) (resp : TokenResponse) (scopes : List String)
        (flow : Flow) (session_id : String)
        → Keeps (Holds k value) (cache_login config c profile resp scopes flow session_id)
    unfolding cache_login
    cache_login-Keeps config c resp scopes flow session_id =
        search (keeps_rules, login_deadline-Keeps frame other.1, cache_set-Keeps) depth 8

    store_metadata-Keeps :
        (c : W.HostClient) (m : TokenMetadata)
        → key_text metadata == key_of profile k ≡ false
        → Keeps (Holds k value) (store_metadata c profile m)
    unfolding store_metadata
    store_metadata-Keeps c m apart = search (keeps_rules, set-Keeps)

    pub store_if_set-Keeps :
        (c : W.HostClient) (key v failure : String)
        → key == key_of profile k ≡ false
        → Keeps (Holds k value) (store_if_set c key v failure)
    unfolding store_if_set
    store_if_set-Keeps c key v failure apart = search (keeps_rules, set-Keeps)

    -- The write of the secret itself.
    set-Ensures :
        {P : W.State → Type 0} (c : W.HostClient) (key : String)
        → key ≡ key_of profile k
        → Ensures P (W.set_secret c key value) (λ _. Holds k value)
    set-Ensures c key e = record {
      then = λ s v holds h.
          R.after_set c key value (key_of profile k) s ∙ rw (e, eq_refl (key_of profile k)) refl;
    }

    pub store_if_set-Ensures :
        {P : W.State → Type 0} (c : W.HostClient) (key failure : String)
        → key ≡ key_of profile k
        → value == "" ≡ false
        → Ensures P (store_if_set c key value failure) (λ _. Holds k value)
    unfolding store_if_set
    store_if_set-Ensures c key failure e full =
        rw full (Ensures-or_wrap _ failure (set-Ensures c key e))

  abbrev pub Anything : W.State → Type 0
  Anything s = Unit {0}

  pub anything : {A : Type 0} (m : Exec W.State A) → Keeps Anything m
  anything m = record { at = λ s h. tt }

  -- What store_with does once the two secrets are written and the user is fetched, or not.
  abbrev pub recorded :
      Handler W
      → W.HostClient
      → TokenResponse
      → List String
      → String
      → Flow
      → Result Claims
      → Exec W.State Claims
  recorded p client resp scopes session_id flow fetched = do
    session ← session_or_new session_id
    refresh_deadline ← deadline_or_zero resp.refresh_token_expires_in
    now ← W.now
    store_metadata client profile
        (metadata_of p.config (or_bare p.config fetched) refresh_deadline now scopes session flow)
    cache_login p.config client profile resp scopes flow session
    pure (or_bare p.config fetched)

  pub recorded-Keeps :
      (k : SecretName) (value : String)
      → key_text metadata == key_of profile k ≡ false
      → (p : Handler W) (client : W.HostClient) (resp : TokenResponse) (scopes : List String)
        (session_id : String) (flow : Flow) (fetched : Result Claims)
      → Keeps (Holds k value) (recorded p client resp scopes session_id flow fetched)
  recorded-Keeps k value apart p client resp scopes session_id flow fetched =
      let F = frame k value in
      Keeps-bind _ _ (session_or_new-Keeps F other.1 session_id) λ session.
        Keeps-bind _ _ (deadline_or_zero-Keeps F other.1 resp.refresh_token_expires_in) λ deadline.
          Keeps-bind _ _ F.now λ now.
            Keeps-bind _ _ (store_metadata-Keeps k value client _ apart) λ _.
              Keeps-bind _ _ (cache_login-Keeps k value p.config client resp scopes flow session)
                λ _. Keeps-pure _

  -- Metadata that describes the login is stored.
  abbrev pub Described : Handler W → List String → Flow → Claims → W.State → Type 0
  Described p scopes flow claims t =
      (m : TokenMetadata) × (value : String) × (m.claims ≡ some claims)
      × (m.hostname ≡ p.config.hostname)
      × (m.client_id ≡ p.config.client_id)
      × (m.scopes ≡ scopes)
      × (m.flow ≡ flow)
      × (W.encode_metadata m ≡ ok value)
      × Holds metadata value t

  abbrev Encoded : TokenMetadata → W.State → Type 0
  Encoded m t = (value : String) × (W.encode_metadata m ≡ ok value) × Holds metadata value t

  store_metadata-Encoded :
      (client : W.HostClient) (m : TokenMetadata)
      → Ensures Anything (store_metadata client profile m) (λ _. Encoded m)
  unfolding store_metadata
  store_metadata-Encoded client m =
      Ensures-bind {R = λ value s. W.encode_metadata m ≡ ok value} _ _
        (Ensures-lift _ λ value s e _. wrapped-eq-ok _ _ value e)
        λ value. Ensures-or_wrap _ "failed to store metadata" (record {
          then = λ s v holds e. (
            value,
            holds,
            (set-Ensures metadata value {P = Anything} client _ (key_text_lem metadata)).then s v tt
                e,
          );
        })

  cache_login-Encoded :
      (m : TokenMetadata) (config : Config) (client : W.HostClient) (resp : TokenResponse)
      (scopes : List String) (flow : Flow) (session_id : String)
      → Keeps (Encoded m) (cache_login config client profile resp scopes flow session_id)
  cache_login-Encoded m config client resp scopes flow session_id = record {
    at = λ s h. (
      h.0,
      h.1,
      (cache_login-Keeps metadata h.0 config client resp scopes flow session_id).at s h.2,
    );
  }

  pub recorded-Described :
      (p : Handler W) (client : W.HostClient) (resp : TokenResponse) (scopes : List String)
      (session_id : String) (flow : Flow) (fetched : Result Claims)
      → Ensures Anything
          (recorded p client resp scopes session_id flow fetched)
          (Described p scopes flow)
  recorded-Described p client resp scopes session_id flow fetched =
      Ensures-after _ _ (anything _) λ session. Ensures-after _ _ (anything _) λ deadline.
        Ensures-after _ _ (anything _) λ now.
          Ensures-bind _ _ (store_metadata-Encoded client _) λ _.
            Ensures-after _ _ (cache_login-Encoded _ p.config client resp scopes flow session)
              λ _. Ensures-pure _ λ s h. (_, h.0, refl, refl, refl, refl, refl, h.1, h.2)
