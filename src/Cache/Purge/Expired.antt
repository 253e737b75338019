-- ===== src/Cache/Purge/Expired.antt =====
-- What purging deletes from the cache: cachePurgeExpired of internal/github/cache.go.
use scafctl_plugin_auth_gith.Prelude.{
  String, ◌<>◌, ◌==◌, eq_iff, eq_refl, ℕ, ℤ, ltb_ℤ, Bool, true, false, Bool-cases, inl, inr, ◌⊎◌,
  Option, none, some, List, [], ◌∷◌, ◌≡◌, refl, sym, ◌∙◌, ap, subst, if◌then◌else◌,
}
use scafctl_plugin_auth_gith.Effect.{Result, ok, pure, try}
use scafctl_plugin_auth_gith.Effect.Laws.{bind_of_tried, bind_runs}
use scafctl_plugin_auth_gith.Types.{TokenCacheEntry, is_zero}
use scafctl_plugin_auth_gith.World.{World}
use scafctl_plugin_auth_gith.Reliable.{Reliable, Among}
use scafctl_plugin_auth_gith.Profile.{validate_profile}
use scafctl_plugin_auth_gith.Profile.Keys.{prefix_of}
use scafctl_plugin_auth_gith.Profile.Apart.{unlike}
use scafctl_plugin_auth_gith.Cache.Runs.{is_past_at, past-runs, got-runs, listed-runs}
use scafctl_plugin_auth_gith.Cache.{
  is_past, readable, purge_key, purge_entry, purge_loop, cache_purge_expired, counted,
}

module _ ⦃W : World⦄ {secrets : W.State → String → Option String} {time : W.State → ℤ}
    (R : Reliable W secrets time) (client : W.HostClient) where
  abbrev without : String → W.State → W.State
  without k s = (W.delete_secret client k s).1

  abbrev outcome : Bool → String → ℕ → W.State → Result ℕ × W.State
  outcome b k n s = if b then (ok (counted n (ok tt)), without k s) else (ok n, s)

  key-runs :
      (k : String) (n : ℕ) (b : Bool) (s : W.State) → purge_key client k n b s ≡ outcome b k n s
  unfolding purge_key pure
  key-runs k n true s = bind_of_tried (W.delete_secret client k) _ s tt (R.delete_secret client k s)
  key-runs k n false s = refl

  some-runs :
      (k : String) (n : ℕ) (entry : TokenCacheEntry) (s : W.State)
      → purge_entry client k n (some entry) s ≡ outcome (is_past_at entry.expires_at (time s)) k n s
  unfolding purge_entry
  some-runs k n entry s =
      bind_runs (is_past entry.expires_at) _ s s _ (past-runs R client entry.expires_at s)
      ∙ key-runs k n (is_past_at entry.expires_at (time s)) s

  -- A round returns, and deletes nothing or its own key.
  abbrev Round : String → ℕ → Option TokenCacheEntry → W.State → Type 0
  Round k n o s =
      (m : ℕ) × (t : W.State) × (purge_entry client k n o s ≡ (ok m, t))
      × ((t ≡ s) ⊎ (t ≡ without k s))

  round : (k : String) (n : ℕ) (o : Option TokenCacheEntry) (s : W.State) → Round k n o s
  unfolding purge_entry pure
  round k n none s = (n, s, refl, inl refl)
  round k n (some entry) s = elim (Bool-cases (is_past_at entry.expires_at (time s))) [
    | inl past ↦ (counted n (ok tt), without k s, some-runs k n entry s ∙ rw past refl, inr refl)
    | inr later ↦ (n, s, some-runs k n entry s ∙ rw later refl, inl refl)
  ]

  loop-runs :
      (k : String) (keys : List String) (n m : ℕ) (s t : W.State)
      → purge_entry client k n (readable (ok (secrets s k))) s ≡ (ok m, t)
      → purge_loop client (k ∷ keys) n s ≡ purge_loop client keys m t
  unfolding purge_loop
  loop-runs k keys n m s t e =
      bind_runs (try (W.get_secret client k)) _ s s (ok (secrets s k)) (got-runs R client k s)
      ∙ bind_runs (purge_entry client k n (readable (ok (secrets s k)))) _ s t m e

  without-none :
      (k key : String) (s : W.State) → secrets s key ≡ none → secrets (without k s) key ≡ none
  without-none k key s gone = R.after_delete client k key s ∙ either (k == key)
    where
      either : (b : Bool) → (if b then none else secrets s key) ≡ none
      either true = refl
      either false = gone

  -- Whatever the loop does, a missing entry stays missing.
  loop-none :
      (key : String) (keys : List String) (n : ℕ) (s : W.State)
      → secrets s key ≡ none
      → secrets (purge_loop client keys n s).1 key ≡ none
  loop-none key [] n s gone = unfold purge_loop pure in gone
  loop-none key (k ∷ keys) n s gone =
      let (m, t, runs, moved) = round k n (readable (ok (secrets s k))) s in
      subst (λ r. secrets r.1 key ≡ none) (sym (loop-runs k keys n m s t runs))
        (loop-none key keys m t (elim moved [
          | inl same ↦ subst (λ u. secrets u key ≡ none) (sym same) gone
          | inr deleted ↦
              subst (λ u. secrets u key ≡ none) (sym deleted) (without-none k key s gone)
        ]))

  module _ (key value : String) (entry : TokenCacheEntry)
      (decoded : W.decode_entry value ≡ ok entry) (dated : is_zero entry.expires_at ≡ false)
      (forward : (k : String) (s : W.State)
        → ltb_ℤ entry.expires_at (time s) ≡ true
        → ltb_ℤ entry.expires_at (time (without k s)) ≡ true) where
    abbrev Expired : W.State → Type 0
    Expired s = (secrets s key ≡ some value) × (ltb_ℤ entry.expires_at (time s) ≡ true)

    own-runs :
        (n : ℕ) (s : W.State)
        → Expired s
        → purge_entry client key n (readable (ok (secrets s key))) s
          ≡ (ok (counted n (ok tt)), without key s)
    unfolding readable
    own-runs n s (held, past) =
        ap (λ o. purge_entry client key n o s)
          (ap (λ v. readable (ok v)) held ∙ rw (readable, decoded) refl)
        ∙ some-runs key n entry s
        ∙ past_now (is_zero entry.expires_at) (ltb_ℤ entry.expires_at (time s)) dated past
      where
        past_now :
            (zero_time later : Bool)
            → zero_time ≡ false
            → later ≡ true
            → outcome (if zero_time then false else later) key n s ≡ outcome true key n s
        past_now zero_time later e h = rw (e, h) refl

    other-Expired :
        (k : String) (s : W.State) → k == key ≡ false → Expired s → Expired (without k s)
    other-Expired k s other (held, past) =
        (R.after_delete client k key s ∙ rw other held, forward k s past)

    still :
        (k : String) (s t : W.State)
        → k == key ≡ false
        → (t ≡ s) ⊎ (t ≡ without k s)
        → Expired s
        → Expired t
    still k s t other (inl e) expired = subst Expired (sym e) expired
    still k s t other (inr e) expired = subst Expired (sym e) (other-Expired k s other expired)

    deleted :
        (k : String) (keys : List String) (n : ℕ) (s : W.State)
        → k ≡ key
        → Expired s
        → secrets (purge_loop client (k ∷ keys) n s).1 key ≡ none
    deleted k keys n s e expired =
        subst (λ j. secrets (purge_loop client (j ∷ keys) n s).1 key ≡ none) (sym e)
          (subst (λ r. secrets r.1 key ≡ none)
            (sym (loop-runs key keys n _ s (without key s) (own-runs n s expired)))
            (loop-none key keys _ (without key s)
              (R.after_delete client key key s ∙ rw (eq_refl key) refl)))

    -- The loop comes to the key and deletes the entry.
    loop-gone :
        (keys : List String) (n : ℕ) (s : W.State)
        → Among key keys
        → Expired s
        → secrets (purge_loop client keys n s).1 key ≡ none
    loop-gone [] n s among expired = absurd among
    loop-gone (k ∷ keys) n s among expired = elim (Bool-cases (k == key)) [
      | inl same ↦ deleted k keys n s ((eq_iff k key).0 same) expired
      | inr other ↦
          let (m, t, runs, moved) = round k n (readable (ok (secrets s k))) s in
          subst (λ r. secrets r.1 key ≡ none) (sym (loop-runs k keys n m s t runs))
            (loop-gone keys m t (later among other) (still k s t other moved expired))
    ]
      where
        later : (key ≡ k) ⊎ Among key keys → k == key ≡ false → Among key keys
        later (inl e) other = absurd (unlike k key other (sym e))
        later (inr a) other = a

    -- If the host is reliable, the profile's name is valid, the clock does not run backwards over
    -- a deletion, and a cached entry of the profile has an expiry time that is past when the purge
    -- starts, then the entry is gone after the purge.
    pub purge-deletes_expired :
        (profile rest : String) (s : W.State)
        → validate_profile profile ≡ ok tt
        → key ≡ prefix_of profile <> rest
        → secrets s key ≡ some value
        → ltb_ℤ entry.expires_at (time s) ≡ true
        → secrets (cache_purge_expired client profile s).1 key ≡ none
    unfolding cache_purge_expired
    purge-deletes_expired profile rest s valid at_key held past =
        subst (λ r. secrets r.1 key ≡ none)
          (sym (listed-runs R client profile s valid (λ keys. purge_loop client keys 0)))
          (loop-gone (R.listed s (prefix_of profile)) 0 s
            (subst (λ k. Among k (R.listed s (prefix_of profile))) (sym at_key)
              (R.all_listed (prefix_of profile) rest value s (ap (secrets s) (sym at_key) ∙ held)))
            (held, past))
