-- ===== src/Cache/Purge.antt =====
-- What purging leaves in the cache: cachePurgeExpired of internal/github/cache.go.
pub mod Expired
use scafctl_plugin_auth_gith.Prelude.{
  String, ◌<>◌, ◌==◌, eq_iff, ℕ, ℤ, ltb_ℤ, Bool, true, false, Bool-cases, inl, inr, Option, none,
  some, List, [], ◌∷◌, ◌≡◌, refl, sym, ◌∙◌, ap, subst, if◌then◌else◌,
}
use scafctl_plugin_auth_gith.Effect.{Result, ok, err, panic, Exec, pure, lift, continue, ◌>>=◌}
use scafctl_plugin_auth_gith.Effect.Laws.{bind_of_tried, bind_runs}
use scafctl_plugin_auth_gith.Effect.Keeps.{Keeps, Keeps-pure, Keeps-bind, Keeps-if, Keeps-try}
use scafctl_plugin_auth_gith.Types.{TokenCacheEntry, is_zero}
use scafctl_plugin_auth_gith.World.{World}
use scafctl_plugin_auth_gith.Reliable.{Reliable}
use scafctl_plugin_auth_gith.Profile.{validate_profile, profile_token_prefix}
use scafctl_plugin_auth_gith.Profile.Keys.{prefix_of, profile_token_prefix_valid}
use scafctl_plugin_auth_gith.Cache.Runs.{listed-runs}
use scafctl_plugin_auth_gith.Cache.{
  is_past, readable, purge_key, purge_entry, purge_loop, cache_purge_expired,
}

module _ ⦃W : World⦄ {secrets : W.State → String → Option String} {time : W.State → ℤ}
    (R : Reliable W secrets time) (client : W.HostClient) (key value : String)
    (entry : TokenCacheEntry) (decoded : W.decode_entry value ≡ ok entry)
    (lasting : is_zero entry.expires_at ≡ true) where
  abbrev Held : W.State → Type 0
  Held s = secrets s key ≡ some value

  now-Held : Keeps Held W.now
  now-Held = record { at = λ s h. subst Held (sym (ap (λ r. r.1) (R.now s))) h }

  is_past-Held : (t : ℤ) → Keeps Held (is_past t)
  unfolding is_past
  is_past-Held t =
      Keeps-if (is_zero t) _ _ (λ _. Keeps-pure _)
        (λ _. Keeps-bind _ _ now-Held λ now. Keeps-pure _)

  delete-Held : (k : String) → k == key ≡ false → Keeps Held (W.delete_secret client k)
  delete-Held k other = record { at = λ s h. R.after_delete client k key s ∙ rw other h }

  purge_key-Held :
      (k : String) (n : ℕ) (b : Bool) → k == key ≡ false → Keeps Held (purge_key client k n b)
  unfolding purge_key
  purge_key-Held k n false other = Keeps-pure n
  purge_key-Held k n true other =
      Keeps-bind _ _ (Keeps-try _ (delete-Held k other)) λ deleted. Keeps-pure _

  other-Held :
      (k : String) (n : ℕ) (o : Option TokenCacheEntry)
      → k == key ≡ false
      → Keeps Held (purge_entry client k n o)
  unfolding purge_entry
  other-Held k n none other = Keeps-pure n
  other-Held k n (some e) other =
      Keeps-bind _ _ (is_past-Held e.expires_at) λ expired. purge_key-Held k n expired other

  own_entry : readable (ok (some value)) ≡ some entry
  unfolding readable
  own_entry = rw (readable, decoded) refl

  not_past : (s : W.State) → is_past entry.expires_at s ≡ (ok false, s)
  unfolding is_past pure
  not_past s =
      ap (λ b. (if b then pure false else (do now ← W.now; pure (ltb_ℤ entry.expires_at now))) s)
        lasting

  own-Held :
      (k : String) (n : ℕ) (s : W.State) → Held s → Held (purge_entry client k n (some entry) s).1
  unfolding purge_entry purge_key pure
  own-Held k n s h =
      subst (λ r. Held r.1)
        (sym (bind_runs (is_past entry.expires_at) (purge_key client k n) s s false (not_past s))) h

  entry-Held :
      (k : String) (n : ℕ) (s : W.State)
      → Held s
      → Held (purge_entry client k n (readable (ok (secrets s k))) s).1
  entry-Held k n s h = elim (Bool-cases (k == key)) [
    | inl same ↦
        subst (λ o. Held (purge_entry client k n o s).1)
          (sym (ap (λ v. readable (ok v)) (ap (secrets s) ((eq_iff k key).0 same) ∙ h) ∙ own_entry))
          (own-Held k n s h)
    | inr other ↦ (other-Held k n (readable (ok (secrets s k))) other).at s h
  ]

  next-Held :
      (r : Result ℕ) (keys : List String) (t : W.State)
      → Held t
      → ((n : ℕ) → Held (purge_loop client keys n t).1)
      → Held (continue r (λ n. purge_loop client keys n) t).1
  next-Held (ok n) keys t h rest = rest n
  next-Held (err e) keys t h rest = h
  next-Held (panic e) keys t h rest = h

  loop-Held :
      (keys : List String) (n : ℕ) (s : W.State) → Held s → Held (purge_loop client keys n s).1
  unfolding purge_loop pure ◌>>=◌
  loop-Held [] n s h = h
  loop-Held (k ∷ keys) n s h =
      subst (λ r. Held r.1)
        (sym (
          bind_of_tried (W.get_secret client k) (after k keys n) s (secrets s k)
            (ap (λ r. r.0) (R.get_secret client k s))))
        (subst (λ t. Held (after k keys n (ok (secrets s k)) t).1)
          (sym (ap (λ r. r.1) (R.get_secret client k s)))
          (rest_kept (entry-Held k n s h) (λ m t q. loop-Held keys m t q)))
    where
      after : String → List String → ℕ → Result (Option String) → Exec W.State ℕ
      after k keys n answer =
          purge_entry client k n (readable answer) >>= λ n'. purge_loop client keys n'

      rest_kept :
          Held (purge_entry client k n (readable (ok (secrets s k))) s).1
          → ((m : ℕ) (t : W.State) → Held t → Held (purge_loop client keys m t).1)
          → Held (after k keys n (ok (secrets s k)) s).1
      rest_kept q rest =
          next-Held (purge_entry client k n (readable (ok (secrets s k))) s).0 keys _ q
            (λ m. rest m _ q)

  -- If the host is reliable and the profile's name is valid, then a purge leaves every entry that
  -- has no expiry time in the store, whatever else the store holds.
  pub purge-keeps_lasting :
      (profile : String) (s : W.State)
      → validate_profile profile ≡ ok tt
      → secrets s key ≡ some value
      → secrets (cache_purge_expired client profile s).1 key ≡ some value
  unfolding cache_purge_expired
  purge-keeps_lasting profile s valid h =
      subst (λ r. Held r.1)
        (sym (listed-runs R client profile s valid (λ keys. purge_loop client keys 0)))
        (loop-Held (R.listed s (prefix_of profile)) 0 s h)
