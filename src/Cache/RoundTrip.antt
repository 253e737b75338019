-- ===== src/Cache/RoundTrip.antt =====
-- Writing a token to the cache and reading it back: cacheSet and cacheGet of internal/github/cache.go.
use scafctl_plugin_auth_gith.Prelude.{
  String, ◌<>◌, eq_refl, ℤ, Option, some, ◌≡◌, refl, sym, ◌∙◌, ap,
}
use scafctl_plugin_auth_gith.Effect.{Result, ok, err, panic, wrapped, ◌>>=◌}
use scafctl_plugin_auth_gith.Types.{Token, TokenCacheEntry}
use scafctl_plugin_auth_gith.World.{World}
use scafctl_plugin_auth_gith.Reliable.{Reliable}
use scafctl_plugin_auth_gith.Profile.{validate_profile}
use scafctl_plugin_auth_gith.Profile.Keys.{prefix_of, profile_token_prefix_valid}
use scafctl_plugin_auth_gith.Cache.{cache_get, cache_set, decode_found, entry_of, token_of}

returned : {A : Type 0} {a : A} {e : String} → ¬ (ok a ≡ panic e)
returned h = cc

failed : {A : Type 0} {x e : String} → ¬ (◌≡◌ {A = Result A} (err x) (panic e))
failed h = cc

module _ ⦃W : World⦄ {secrets : W.State → String → Option String} {time : W.State → ℤ}
    (R : Reliable W secrets time) (client : W.HostClient) (profile : String)
    (valid : validate_profile profile ≡ ok tt) where
  pub set-runs :
      (key value : String) (token : Token) (s : W.State)
      → W.encode_entry (entry_of token (time s)) ≡ ok value
      → cache_set client key token profile s
        ≡ W.set_secret client (prefix_of profile <> key) value s
  set-runs key value token s encoded =
      unfold cache_set ◌>>=◌ wrapped in
      rw (R.now s, encoded, profile_token_prefix_valid profile valid)

  refused :
      (key x : String) (token : Token) (s : W.State)
      → W.encode_entry (entry_of token (time s)) ≡ err x
      → (cache_set client key token profile s).0
        ≡ err ("failed to marshal token for caching" <> (": " <> x))
  refused key x token s h = unfold cache_set ◌>>=◌ wrapped in rw (R.now s, h) refl

  -- Writing to the cache does not panic where the encoding does not.
  pub set-no_panic :
      (key : String) (token : Token) (s : W.State)
      → ((e : String) → ¬ (W.encode_entry (entry_of token (time s)) ≡ panic e))
      → (e : String) → ¬ ((cache_set client key token profile s).0 ≡ panic e)
  set-no_panic key token s safe e panicked = outcome (W.encode_entry (entry_of token (time s))) refl
    where
      outcome : (r : Result String) → ¬ (W.encode_entry (entry_of token (time s)) ≡ r)
      outcome (ok value) h = returned (
          sym (ap (λ r. r.0) (set-runs key value token s h) ∙ R.set_secret client _ value s)
          ∙ panicked)
      outcome (err x) h = failed (sym (refused key x token s h) ∙ panicked)
      outcome (panic x) h = safe x h

  pub get-runs :
      (key value : String) (entry : TokenCacheEntry) (s : W.State)
      → secrets s (prefix_of profile <> key) ≡ some value
      → W.decode_entry value ≡ ok entry
      → cache_get client key profile s ≡ (ok (some (token_of entry)), s)
  get-runs key value entry s held decoded =
      unfold cache_get ◌>>=◌ decode_found in
      rw (
        profile_token_prefix_valid profile valid,
        R.get_secret client (prefix_of profile <> key) s,
        held,
        decode_found,
        decoded,
      )

  -- If the host's secret service is reliable, the profile's name is valid and an entry is decoded
  -- to what it was encoded from, then a cached token is read back with all its fields, and with
  -- the time of caching as `cached_at`.
  pub cache_get-cache_set :
      (key value : String) (token : Token) (s : W.State)
      → W.encode_entry (entry_of token (time s)) ≡ ok value
      → W.decode_entry value ≡ ok (entry_of token (time s))
      → (cache_get client key profile (cache_set client key token profile s).1).0
        ≡ ok (some (record token { cached_at = time s }))
  cache_get-cache_set key value token s encoded decoded =
      ap (λ r. (cache_get client key profile r.1).0) (set-runs key value token s encoded)
      ∙ ap (λ r. r.0)
          (get-runs key value (entry_of token (time s)) _
            (R.after_set client (prefix_of profile <> key) value (prefix_of profile <> key) s
              ∙ rw (eq_refl (prefix_of profile <> key)))
            decoded)
