-- ===== src/Cache/Listing.antt =====
-- What a listing of the cache returns while time passes: cacheListEntries of
-- internal/github/cache.go.
use scafctl_plugin_auth_gith.Prelude.{
  String, ◌<>◌, ℤ, ltb_ℤ, false, Bool-cases, inl, inr, Option, none, some, List, [], ◌∷◌, ◌++◌, ◌≡◌,
  refl, sym, ◌∙◌, ap, arith, subst,
}
use scafctl_plugin_auth_gith.Effect.{Result, ok, pure, lift, ◌>>=◌}
use scafctl_plugin_auth_gith.Effect.Laws.{bind_runs, bind_of_ok, bind_of_tried}
use scafctl_plugin_auth_gith.Types.{TokenCacheEntry, CachedTokenInfo, is_zero}
use scafctl_plugin_auth_gith.World.{World}
use scafctl_plugin_auth_gith.Reliable.{Passing}
use scafctl_plugin_auth_gith.Profile.{validate_profile, profile_token_prefix}
use scafctl_plugin_auth_gith.Profile.Keys.{prefix_of, profile_token_prefix_valid}
use scafctl_plugin_auth_gith.Cache.Runs.{is_past_at}
use scafctl_plugin_auth_gith.Cache.{
  info_of, is_past, readable, list_entry, list_loop, cache_list_entries,
}

-- The entries that are shown for some keys, in their order: each is said to be expired or not as of
-- a time of its own in the given span, and keys whose entry cannot be read are left out.
pub data Listing ⦃W : World⦄ (held : String → Option String) (from until : ℤ)
    : List String → List CachedTokenInfo → Type 0 where
  ended : Listing held from until [] []
  left_out :
      (key : String) {keys : List String} {infos : List CachedTokenInfo}
      → readable (ok (held key)) ≡ none
      → Listing held from until keys infos
      → Listing held from until (key ∷ keys) infos
  shown :
      (key : String) (entry : TokenCacheEntry) (at : ℤ) {keys : List String}
      {infos : List CachedTokenInfo}
      → readable (ok (held key)) ≡ some entry
      → ltb_ℤ at from ≡ false
      → ltb_ℤ until at ≡ false
      → Listing held from until keys infos
      → Listing held from until
          (key ∷ keys)
          (info_of entry (is_past_at entry.expires_at at) ∷ infos)

append_nil : {A : Type 0} (xs : List A) → xs ++ [] ≡ xs
append_nil [] = refl
append_nil (x ∷ xs) = ap (λ l. x ∷ l) (append_nil xs)

append_assoc : {A : Type 0} (xs ys zs : List A) → (xs ++ ys) ++ zs ≡ xs ++ (ys ++ zs)
append_assoc [] ys zs = refl
append_assoc (x ∷ xs) ys zs = ap (λ l. x ∷ l) (append_assoc xs ys zs)

not_before : (a b c : ℤ) → ltb_ℤ b a ≡ false → ltb_ℤ c b ≡ false → ltb_ℤ c a ≡ false
not_before a b c x y = ground arith

not_before_itself : (a : ℤ) → ltb_ℤ a a ≡ false
not_before_itself a = ground arith

module _ ⦃W : World⦄ {secrets : W.State → String → Option String} {time : W.State → ℤ}
    (P : Passing W secrets time) (client : W.HostClient) (held : String → Option String)
    (from : ℤ) where
  -- The secrets are the ones that were held at the start, which is not in the future.
  abbrev During : W.State → Type 0
  During s = ((k : String) → secrets s k ≡ held k) × (ltb_ℤ (time s) from ≡ false)

  abbrev Later : W.State → W.State → Type 0
  Later s t = During t × (ltb_ℤ (time t) (time s) ≡ false)

  -- What a run of the loop from a state comes to.
  abbrev Lists :
      Result (List CachedTokenInfo) × W.State
      → List String
      → List CachedTokenInfo
      → W.State
      → Type 0
  Lists r keys results s =
      (infos : List CachedTokenInfo) × (r.0 ≡ ok (results ++ infos))
      × (ltb_ℤ (time r.1) (time s) ≡ false)
      × Listing held from (time r.1) keys infos

  got-Later : (key : String) (s : W.State) → During s → Later s (W.get_secret client key s).1
  got-Later key s (same, since) =
      let forward = P.get_forward client key s in
      (
        (
          λ k. P.get_keeps client key k s ∙ same k,
          not_before from (time s) (time (W.get_secret client key s).1) since forward,
        ),
        forward,
      )

  past-Later :
      (t : ℤ) (s : W.State)
      → During s
      → (u : W.State) × (is_past t s ≡ (ok (is_past_at t (time s)), u)) × Later s u
  unfolding is_past pure
  past-Later t s (same, since) = elim (Bool-cases (is_zero t)) [
    | inl zero ↦ (s, rw zero refl, ((same, since), not_before_itself (time s)))
    | inr other ↦
        let forward = P.now_forward s in
        (
          (W.now s).1,
          rw other (bind_of_ok W.now _ s (time s) (P.now s)),
          (
            (
              λ k. P.now_keeps k s ∙ same k,
              not_before from (time s) (time (W.now s).1) since forward,
            ),
            forward,
          ),
        )
  ]

  entry-runs :
      (results : List CachedTokenInfo) (entry : TokenCacheEntry) (s u : W.State)
      → is_past entry.expires_at s ≡ (ok (is_past_at entry.expires_at (time s)), u)
      → list_entry results (some entry) s
        ≡ (ok (results ++ (info_of entry (is_past_at entry.expires_at (time s)) ∷ [])), u)
  unfolding list_entry pure
  entry-runs results entry s u e = bind_runs (is_past entry.expires_at) _ s u _ e

  round :
      (key : String) (keys : List String) (results : List CachedTokenInfo) (s : W.State)
      (o : Option TokenCacheEntry)
      → readable (ok (held key)) ≡ o
      → During s
      → ((results' : List CachedTokenInfo) (t : W.State)
          → During t
          → Lists (list_loop client keys results' t) keys results' t)
      → Lists
          ((list_entry results o >>= λ results'. list_loop client keys results') s)
          (key ∷ keys)
          results
          s
  round key keys results s none e during rest =
      subst (λ r. Lists r (key ∷ keys) results s)
        (sym (bind_runs (list_entry results none) _ s s results (unfold list_entry pure in refl)))
        (let (infos, listed, forward, shows) = rest results s during in
          (infos, listed, forward, left_out key e shows))
  round key keys results s (some entry) e during rest =
      let (t, runs, later) = past-Later entry.expires_at s during in
      let longer = results ++ (info_of entry (is_past_at entry.expires_at (time s)) ∷ []) in
      let (infos, listed, forward, shows) = rest longer t later.0 in
      let after =
        not_before (time s) (time t) (time (list_loop client keys longer t).1) later.1 forward in
      subst (λ r. Lists r (key ∷ keys) results s)
        (sym
          (bind_runs (list_entry results (some entry)) _ s t _ (entry-runs results entry s t runs)))
        (
          info_of entry (is_past_at entry.expires_at (time s)) ∷ infos,
          listed ∙ ap (λ l. ok l) (append_assoc results _ infos),
          after,
          shown key entry (time s) e during.1 after shows,
        )

  loop-Lists :
      (keys : List String) (results : List CachedTokenInfo) (s : W.State)
      → During s
      → Lists (list_loop client keys results s) keys results s
  unfolding list_loop pure
  loop-Lists [] results s during =
      ([], ap (λ l. ok l) (sym (append_nil results)), not_before_itself (time s), ended)
  loop-Lists (key ∷ keys) results s during =
      let (later, forward) = got-Later key s during in
      let t = (W.get_secret client key s).1 in
      let (infos, listed, after, shows) =
        round key keys results t (readable (ok (secrets s key)))
          (ap (λ v. readable (ok v)) (sym (during.0 key))) later
          (λ results' t now. loop-Lists keys results' t now) in
      subst (λ r. Lists r (key ∷ keys) results s)
        (sym
          (bind_of_tried (W.get_secret client key) _ s (secrets s key) (P.get_secret client key s)))
        (
          infos,
          listed,
          not_before (time s) (time t)
              (time
                ((list_entry results (readable (ok (secrets s key))) >>= λ results'.
                    list_loop client keys results')
                  t).1)
              forward after,
          shows,
        )

module _ ⦃W : World⦄ {secrets : W.State → String → Option String} {time : W.State → ℤ}
    (P : Passing W secrets time) (client : W.HostClient) where
  -- If the host can be read while time passes and the profile's name is valid, a listing returns,
  -- and holds for each key that the host lists under the profile's prefix, in the host's order,
  -- what the entry says and whether it is expired as of a time, one for each entry, between the
  -- start and the end of the call; keys whose entry cannot be read are left out.
  pub cache_list_entries-Listing :
      (profile : String) (s : W.State)
      → validate_profile profile ≡ ok tt
      → (infos : List CachedTokenInfo) × ((cache_list_entries client profile s).0 ≡ ok infos)
        × Listing
            (secrets s)
            (time s)
            (time (cache_list_entries client profile s).1)
            (P.listed s (prefix_of profile))
            infos
  unfolding cache_list_entries lift
  cache_list_entries-Listing profile s valid =
      let start = (W.list_secrets client (prefix_of profile <> "*") s).1 in
      let (infos, listed, forward, shows) =
        loop-Lists P client (secrets s) (time s) (P.listed s (prefix_of profile)) [] start (
          λ k. P.list_keeps client (prefix_of profile <> "*") k s,
          P.list_forward client (prefix_of profile <> "*") s,
        ) in
      subst
        (λ r.
          (infos : List CachedTokenInfo) × (r.0 ≡ ok infos)
          × Listing (secrets s) (time s) (time r.1) (P.listed s (prefix_of profile)) infos)
        (sym (
          bind_runs (lift (profile_token_prefix profile)) _ s s (prefix_of profile)
            (ap (λ r. (r, s)) (profile_token_prefix_valid profile valid))
          ∙ bind_of_ok (W.list_secrets client (prefix_of profile <> "*"))
              (λ keys. list_loop client keys []) s (P.listed s (prefix_of profile))
              (P.list_secrets client (prefix_of profile) s)))
        (infos, listed, shows)
