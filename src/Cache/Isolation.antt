-- ===== src/Cache/Isolation.antt =====
-- Which secrets the cache's operations touch.
use scafctl_plugin_auth_gith.Prelude.{
  String, ◌<>◌, ℤ, ℕ, ◌≡◌, refl, sym, subst, Bool, true, false, Option, none, some, List, [], ◌∷◌,
}
use scafctl_plugin_auth_gith.Effect.{Result, ok, err, panic}
use scafctl_plugin_auth_gith.Effect.Keeps.{
  Keeps, keeps_rules, Keeps-lift-bind, Keeps-bind_of_result, Keeps-bind, Keeps-pure, Keeps-lift,
  Keeps-try,
}
use scafctl_plugin_auth_gith.Effect.Laws.{try-eq-ok}
use scafctl_plugin_auth_gith.Types.{Token, TokenCacheEntry, CachedTokenInfo}
use scafctl_plugin_auth_gith.World.{World}
use scafctl_plugin_auth_gith.Profile.{validate_profile, profile_token_prefix}
use scafctl_plugin_auth_gith.Profile.Keys.{Owned}
use scafctl_plugin_auth_gith.Frame.{Frame, AllBegin}
use scafctl_plugin_auth_gith.Frame.Rules.{prefix-Owned}
use scafctl_plugin_auth_gith.Cache.{
  cache_get, cache_set, delete_all, delete_listed, clear_prefix, cache_clear, is_past, list_entry,
  list_loop, cache_list_entries, purge_key, purge_entry, purge_loop, cache_purge_expired, readable,
}

module _ ⦃W : World⦄ {P : W.State → Type 0} {profile : String} (F : Frame W P profile)
    (valid : validate_profile profile ≡ ok tt) where
  pub cache_get-Keeps : (c : W.HostClient) (key : String) → Keeps P (cache_get c key profile)
  unfolding cache_get
  cache_get-Keeps c key = search (keeps_rules, F.get_secret)

  pub cache_set-Keeps :
      (c : W.HostClient) (key : String) (token : Token) → Keeps P (cache_set c key token profile)
  unfolding cache_set
  cache_set-Keeps c key token =
      search (keeps_rules, Keeps-lift-bind, F.set_secret, F.now, prefix-Owned profile valid) depth
        10

  delete_all-Keeps :
      (c : W.HostClient) (prefix : String) (keys : List String)
      → profile_token_prefix profile ≡ ok prefix
      → AllBegin prefix keys
      → Keeps P (delete_all c keys)
  unfolding delete_all
  delete_all-Keeps c prefix [] e h = Keeps-pure tt
  delete_all-Keeps c prefix (key ∷ keys) e ((rest, begins), h) =
      Keeps-bind _ _
        (Keeps-try _ (
          F.delete_secret c key
            (subst (Owned profile) (sym begins) (prefix-Owned profile valid prefix rest e))))
        (λ _. delete_all-Keeps c prefix keys e h)

  delete_listed-Keeps :
      (c : W.HostClient) (prefix : String) (r : Result (List String))
      → profile_token_prefix profile ≡ ok prefix
      → ((keys : List String) → r ≡ ok keys → AllBegin prefix keys)
      → Keeps P (delete_listed c r)
  unfolding delete_listed
  delete_listed-Keeps c prefix (ok keys) e h = delete_all-Keeps c prefix keys e (h keys refl)
  delete_listed-Keeps c prefix (err x) e h = Keeps-pure tt
  delete_listed-Keeps c prefix (panic x) e h = Keeps-lift (panic x)

  clear_prefix-Keeps :
      (c : W.HostClient) (r : Result String)
      → profile_token_prefix profile ≡ r
      → Keeps P (clear_prefix c r)
  unfolding clear_prefix
  clear_prefix-Keeps c (ok prefix) e =
      Keeps-bind_of_result _ _ (Keeps-try _ (F.list_secrets c (prefix <> "*"))) λ s r h.
        delete_listed-Keeps c prefix r e (λ keys k.
          F.listed c prefix s keys (try-eq-ok (W.list_secrets c (prefix <> "*")) s r keys h k))
  clear_prefix-Keeps c (err x) e = Keeps-pure tt
  clear_prefix-Keeps c (panic x) e = Keeps-lift (panic x)

  pub cache_clear-Keeps : (c : W.HostClient) → Keeps P (cache_clear c profile)
  unfolding cache_clear
  cache_clear-Keeps c = clear_prefix-Keeps c _ refl

  pub is_past-Keeps : (t : ℤ) → Keeps P (is_past t)
  unfolding is_past
  is_past-Keeps t = search (keeps_rules, F.now)

  list_entry-Keeps :
      (results : List CachedTokenInfo) (o : Option TokenCacheEntry) → Keeps P (list_entry results o)
  unfolding list_entry
  list_entry-Keeps results none = Keeps-pure results
  list_entry-Keeps results (some entry) = search (keeps_rules, is_past-Keeps)

  list_loop-Keeps :
      (c : W.HostClient) (keys : List String) (results : List CachedTokenInfo)
      → Keeps P (list_loop c keys results)
  unfolding list_loop
  list_loop-Keeps c [] results = Keeps-pure results
  list_loop-Keeps c (key ∷ keys) results =
      Keeps-bind _ _ (Keeps-try _ (F.get_secret c key)) λ answer.
        Keeps-bind _ _ (list_entry-Keeps results (readable answer))
          λ more. list_loop-Keeps c keys more

  pub cache_list_entries-Keeps : (c : W.HostClient) → Keeps P (cache_list_entries c profile)
  unfolding cache_list_entries
  cache_list_entries-Keeps c = search (keeps_rules, F.list_secrets, list_loop-Keeps)

  -- What is purged is under the profile's prefix.
  purge_key-Keeps :
      (c : W.HostClient) (key : String) (n : ℕ) (expired : Bool)
      → Owned profile key
      → Keeps P (purge_key c key n expired)
  unfolding purge_key
  purge_key-Keeps c key n false owned = Keeps-pure n
  purge_key-Keeps c key n true owned = search (keeps_rules, F.delete_secret)

  purge_entry-Keeps :
      (c : W.HostClient) (key : String) (n : ℕ) (o : Option TokenCacheEntry)
      → Owned profile key
      → Keeps P (purge_entry c key n o)
  unfolding purge_entry
  purge_entry-Keeps c key n none owned = Keeps-pure n
  purge_entry-Keeps c key n (some entry) owned =
      search (keeps_rules, is_past-Keeps, purge_key-Keeps)

  purge_loop-Keeps :
      (c : W.HostClient) (prefix : String) (keys : List String) (n : ℕ)
      → profile_token_prefix profile ≡ ok prefix
      → AllBegin prefix keys
      → Keeps P (purge_loop c keys n)
  unfolding purge_loop
  purge_loop-Keeps c prefix [] n e h = Keeps-pure n
  purge_loop-Keeps c prefix (key ∷ keys) n e ((rest, begins), h) =
      Keeps-bind _ _ (Keeps-try _ (F.get_secret c key)) λ answer.
        Keeps-bind _ _
          (purge_entry-Keeps c key n (readable answer)
            (subst (Owned profile) (sym begins) (prefix-Owned profile valid prefix rest e)))
          λ m. purge_loop-Keeps c prefix keys m e h

  pub cache_purge_expired-Keeps : (c : W.HostClient) → Keeps P (cache_purge_expired c profile)
  unfolding cache_purge_expired
  cache_purge_expired-Keeps c = Keeps-lift-bind _ _ λ prefix e.
      Keeps-bind_of_result _ _ (F.list_secrets c (prefix <> "*"))
        λ s keys h. purge_loop-Keeps c prefix keys 0 e (F.listed c prefix s keys h)
