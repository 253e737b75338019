-- ===== src/Cache.antt =====
-- The token cache in the host's secret store: internal/github/cache.go.
pub mod Runs
pub mod Listing
pub mod Purge
pub mod RoundTrip
pub mod Isolation
use scafctl_plugin_auth_gith.Prelude.{
  String, ◌<>◌, ℕ, ◌+◌, ℤ, ltb_ℤ, Bool, true, false, Option, none, some, List, [], ◌∷◌, ◌++◌,
  if◌then◌else◌,
}
use scafctl_plugin_auth_gith.Effect.{
  Result, ok, err, panic, Exec, pure, lift, try, wrapped, ◌>>=◌, ◌>>◌,
}
use scafctl_plugin_auth_gith.Types.{Token, TokenCacheEntry, CachedTokenInfo, is_zero}
use scafctl_plugin_auth_gith.World.{World}
use scafctl_plugin_auth_gith.Profile.{profile_token_prefix}

abbrev pub handler_name : String
handler_name = "github"

abbrev pub token_of : TokenCacheEntry → Token
token_of entry = record {
  access_token = entry.access_token;
  token_type = entry.token_type;
  expires_at = entry.expires_at;
  scope = entry.scope;
  cached_at = entry.cached_at;
  flow = entry.flow;
  session_id = entry.session_id;
}

abbrev pub entry_of : Token → ℤ → TokenCacheEntry
entry_of token at = record {
  access_token = token.access_token;
  token_type = token.token_type;
  expires_at = token.expires_at;
  scope = token.scope;
  cached_at = at;
  flow = token.flow;
  session_id = token.session_id;
}

module _ ⦃W : World⦄ where
  unfoldable pub decode_found : Option String → Result (Option Token)
  decode_found none = ok none
  decode_found (some value) = elim (W.decode_entry value) [
    | ok entry ↦ ok (some (token_of entry))
    | err e ↦ wrapped "failed to unmarshal cached token" (err e)
    | panic e ↦ panic e
  ]

  unfoldable pub cache_get : W.HostClient → String → String → Exec W.State (Option Token)
  unfolding decode_found
  cache_get client cache_key profile = do
    prefix ← lift (profile_token_prefix profile)
    found ← W.get_secret client (prefix <> cache_key)
    lift (decode_found found)

  unfoldable pub cache_set : W.HostClient → String → Token → String → Exec W.State (Unit {0})
  cache_set client cache_key token profile = do
    cached_at ← W.now
    value ←
        lift (
          wrapped "failed to marshal token for caching" (W.encode_entry (entry_of token cached_at)))
    prefix ← lift (profile_token_prefix profile)
    W.set_secret client (prefix <> cache_key) value

  -- The loop of cacheClear: a key that cannot be deleted is passed over.
  unfoldable pub delete_all : W.HostClient → List String → Exec W.State (Unit {0})
  delete_all client [] = pure tt
  delete_all client (key ∷ keys) = try (W.delete_secret client key) >> delete_all client keys

  unfoldable pub delete_listed : W.HostClient → Result (List String) → Exec W.State (Unit {0})
  delete_listed client (ok keys) = delete_all client keys
  delete_listed client (err e) = pure tt
  delete_listed client (panic e) = lift (panic e)

  unfoldable pub clear_prefix : W.HostClient → Result String → Exec W.State (Unit {0})
  unfolding delete_listed
  clear_prefix client (ok prefix) = do
    keys ← try (W.list_secrets client (prefix <> "*"))
    delete_listed client keys
  clear_prefix client (err e) = pure tt
  clear_prefix client (panic e) = lift (panic e)

  unfoldable pub cache_clear : W.HostClient → String → Exec W.State (Unit {0})
  unfolding clear_prefix
  cache_clear client profile = clear_prefix client (profile_token_prefix profile)

  -- `!t.IsZero() && time.Now().After(t)`.
  unfoldable pub is_past : ℤ → Exec W.State Bool
  is_past t = if is_zero t then pure false else (do now ← W.now; pure (ltb_ℤ t now))

  abbrev pub info_of : TokenCacheEntry → Bool → CachedTokenInfo
  info_of entry expired = record {
    handler = handler_name;
    token_kind = "access";
    token_type = entry.token_type;
    scope = entry.scope;
    flow = entry.flow;
    expires_at = entry.expires_at;
    cached_at = entry.cached_at;
    is_expired = expired;
    session_id = entry.session_id;
  }

  -- The entry under a key, or nothing where the loops `continue`.
  unfoldable pub readable : Result (Option String) → Option TokenCacheEntry
  readable (ok (some value)) = elim (W.decode_entry value) [ ok entry ↦ some entry | _ ↦ none ]
  readable (ok none) = none
  readable (err e) = none
  readable (panic e) = none

  list_entry : List CachedTokenInfo → Option TokenCacheEntry → Exec W.State (List CachedTokenInfo)
  list_entry results none = pure results
  list_entry results (some entry) = do
    expired ← is_past entry.expires_at
    pure (results ++ (info_of entry expired ∷ []))

  unfoldable pub list_loop :
      W.HostClient → List String → List CachedTokenInfo → Exec W.State (List CachedTokenInfo)
  unfolding list_entry
  list_loop client [] results = pure results
  list_loop client (key ∷ keys) results = do
    answer ← try (W.get_secret client key)
    results' ← list_entry results (readable answer)
    list_loop client keys results'

  unfoldable pub cache_list_entries : W.HostClient → String → Exec W.State (List CachedTokenInfo)
  cache_list_entries client profile = do
    prefix ← lift (profile_token_prefix profile)
    keys ← W.list_secrets client (prefix <> "*")
    list_loop client keys []

  abbrev pub counted : ℕ → Result (Unit {0}) → ℕ
  counted n (ok _) = n + 1
  counted n (err e) = n
  counted n (panic e) = n

  unfoldable pub purge_key : W.HostClient → String → ℕ → Bool → Exec W.State ℕ
  purge_key client key n false = pure n
  purge_key client key n true = do
    deleted ← try (W.delete_secret client key)
    pure (counted n deleted)

  unfoldable pub purge_entry : W.HostClient → String → ℕ → Option TokenCacheEntry → Exec W.State ℕ
  unfolding purge_key
  purge_entry client key n none = pure n
  purge_entry client key n (some entry) = do
    expired ← is_past entry.expires_at
    purge_key client key n expired

  unfoldable pub purge_loop : W.HostClient → List String → ℕ → Exec W.State ℕ
  unfolding purge_entry
  purge_loop client [] n = pure n
  purge_loop client (key ∷ keys) n = do
    answer ← try (W.get_secret client key)
    n' ← purge_entry client key n (readable answer)
    purge_loop client keys n'

  unfoldable pub cache_purge_expired : W.HostClient → String → Exec W.State ℕ
  cache_purge_expired client profile = do
    prefix ← lift (profile_token_prefix profile)
    keys ← W.list_secrets client (prefix <> "*")
    purge_loop client keys 0

-- `fingerprintHash` and the two cache keys that the CLI operations build from it.
module _ ⦃W : World⦄ where
  unfoldable pub fingerprint_hash : String → String
  fingerprint_hash s = W.sha256_hex s
