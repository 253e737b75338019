-- ===== src/SingleStore/Fetched.antt =====
-- The one-entry store under the fetch of internal/github/cachedflow.go: for how long a fetched
-- installation token is returned.
use scafctl_plugin_auth_gith.Prelude.{
  Bool, String, ◌==◌, ◌&&◌, not, true, false, ℤ, pos, ◌+ℤ◌, ◌-ℤ◌, ltb_ℤ, eqb_ℤ, arith, int_laws,
  Bool-cases, inl, inr, ◌⊎◌, saturated, least_int64, Option, none, some, ◌≡◌, refl, sym, ◌∙◌, subst,
  if◌then◌else◌,
}
use scafctl_plugin_auth_gith.Effect.{Result, Exec, ok, err, panic, pure, continue, ◌>>=◌}
use scafctl_plugin_auth_gith.Types.{TokenReply, FetchResult, is_zero}
use scafctl_plugin_auth_gith.World.{World}
use scafctl_plugin_auth_gith.Reliable.{Reliable}
use scafctl_plugin_auth_gith.ServerMode.{FlowFn, FlowParams, fetch_for_cache}
use scafctl_plugin_auth_gith.SingleStore.{SingleStore, get, set}
use scafctl_plugin_auth_gith.SingleStore.Expiry.{get-set_lifetime}

-- A saturated duration is not above the one that it stands for, or is the least one.
saturated_at_most : (d : ℤ) → (ltb_ℤ d (saturated d) ≡ false) ⊎ (saturated d ≡ least_int64)
saturated_at_most d = elim (Bool-cases (ltb_ℤ d least_int64)) [
  | inl low ↦ inr (rw low refl)
  | inr enough ↦ inl (clamped d enough)
]
  where
    clamped : (d : ℤ) → ltb_ℤ d least_int64 ≡ false → ltb_ℤ d (saturated d) ≡ false
    clamped d enough = ground arith

-- A value that is kept when the store's clock is past 2^63 nanoseconds has an end.
has_end :
    (stored ttl : ℤ)
    → ltb_ℤ ttl least_int64 ≡ false
    → ltb_ℤ (pos 9223372036854775808) stored ≡ true
    → is_zero (stored +ℤ ttl) ≡ false
has_end stored ttl low late = grind (int_laws)

-- If a value was kept no later than the buffer after its lifetime was read, it is not due before
-- that lifetime's end.
not_late :
    (expires_at read stored now buffer ttl : ℤ)
    → ltb_ℤ (expires_at -ℤ read) ttl ≡ false
    → ltb_ℤ (read +ℤ buffer) stored ≡ false
    → ltb_ℤ (stored +ℤ ttl) (now +ℤ buffer) ≡ false
    → ltb_ℤ expires_at now ≡ false
not_late expires_at read stored now buffer ttl e soon fresh = grind (int_laws)

not_least :
    (stored now buffer : ℤ)
    → ltb_ℤ now stored ≡ false
    → ltb_ℤ buffer (pos 0) ≡ false
    → ¬ (ltb_ℤ (stored +ℤ least_int64) (now +ℤ buffer) ≡ false)
not_least stored now buffer after positive fresh = grind (int_laws)

saturated_at_least : (d : ℤ) → ltb_ℤ (saturated d) least_int64 ≡ false
saturated_at_least d = ground arith

-- The same, with the lifetime as `time.Until` gives it.
in_time :
    (expires_at read stored now buffer ttl : ℤ)
    → ttl ≡ saturated (expires_at -ℤ read)
    → ltb_ℤ (read +ℤ buffer) stored ≡ false
    → ltb_ℤ now stored ≡ false
    → ltb_ℤ buffer (pos 0) ≡ false
    → ltb_ℤ (stored +ℤ ttl) (now +ℤ buffer) ≡ false
    → ltb_ℤ expires_at now ≡ false
in_time expires_at read stored now buffer ttl e soon after positive fresh =
    elim (saturated_at_most (expires_at -ℤ read)) [
      | inl below ↦
          not_late expires_at read stored now buffer ttl
            (subst (λ t. ltb_ℤ (expires_at -ℤ read) t ≡ false) (sym e) below) soon fresh
      | inr least ↦ absurd (
          not_least stored now buffer after positive
            (subst (λ t. ltb_ℤ (stored +ℤ t) (now +ℤ buffer) ≡ false) (e ∙ least) fresh))
    ]

ok-injective : (a b : FetchResult) → ok a ≡ ok b → a ≡ b
ok-injective a b e = cc

reported :
    (read : ℤ) (a b : FetchResult)
    → a.ttl ≡ saturated (a.value.expires_at -ℤ read)
    → ok a ≡ ok b
    → b.ttl ≡ saturated (b.value.expires_at -ℤ read)
reported read a b h e =
    subst (λ f. f.ttl ≡ saturated (f.value.expires_at -ℤ read)) (ok-injective a b e) h

kept :
    (b : Bool) (late : Bool) (a v : TokenReply)
    → (if b && not late then some a else none) ≡ some v
    → (b ≡ true) × (late ≡ false) × (v ≡ a)
kept true true a v e = cc
kept true false a v e = (refl, refl, cc)
kept false late a v e = cc

module _ ⦃W : World⦄ {secrets : W.State → String → Option String} {time : W.State → ℤ}
    (R : Reliable W secrets time) where
  timed : TokenReply → Exec W.State FetchResult
  timed resp =
      W.now >>= λ now. pure (record { value = resp; ttl = saturated (resp.expires_at -ℤ now) })

  timed_lem :
      (resp : TokenReply) (t : W.State)
      → timed resp t
        ≡ (ok (record { value = resp; ttl = saturated (resp.expires_at -ℤ time t) }), t)
  unfolding timed ◌>>=◌ pure
  timed_lem resp t = rw (R.now t) refl

  timed-ok :
      (outcome : Result TokenReply) (t : W.State) (r : FetchResult)
      → (continue outcome timed t).0 ≡ ok r
      → r.ttl ≡ saturated (r.value.expires_at -ℤ time (continue outcome timed t).1)
  timed-ok (ok resp) t r e =
      subst (λ f. (f.0 ≡ ok r) → r.ttl ≡ saturated (r.value.expires_at -ℤ time f.1))
        (sym (timed_lem resp t)) (reported (time t) _ r refl) e
  timed-ok (err x) t r e = cc
  timed-ok (panic x) t r e = cc

  fetch_for_cache-ttl :
      (inner : FlowFn W) (params : FlowParams) (w : W.State) (r : FetchResult)
      → (fetch_for_cache inner params w).0 ≡ ok r
      → r.ttl ≡ saturated (r.value.expires_at -ℤ time (fetch_for_cache inner params w).1)
  unfolding fetch_for_cache timed ◌>>=◌
  fetch_for_cache-ttl inner params w r e = timed-ok (inner params w).0 (inner params w).1 r e

  -- If a fetch for the cache returns a token whose time left is not zero, and a one-entry store
  -- whose buffer is not negative keeps it with that time left, no later than the buffer after the
  -- fetch has read the clock and more than 2^63 nanoseconds after the zero time, then whatever the
  -- store returns from then on under any key is that token, under the key it was kept with, and not
  -- after the token's expiry.
  pub get-fetched :
      (inner : FlowFn W) (params : FlowParams) (w : W.State) (r : FetchResult) (s : SingleStore)
      (stored now : ℤ) (key other : String) (v : TokenReply)
      → (fetch_for_cache inner params w).0 ≡ ok r
      → eqb_ℤ r.ttl (pos 0) ≡ false
      → ltb_ℤ s.expiry_buffer (pos 0) ≡ false
      → ltb_ℤ (time (fetch_for_cache inner params w).1 +ℤ s.expiry_buffer) stored ≡ false
      → ltb_ℤ (pos 9223372036854775808) stored ≡ true
      → ltb_ℤ now stored ≡ false
      → get (set s stored key (some r.value) r.ttl) now other ≡ some v
      → ((key == other) ≡ true) × (v ≡ r.value) × (ltb_ℤ v.expires_at now ≡ false)
  get-fetched inner params w r s stored now key other v e given positive soon late after found =
      let left = fetch_for_cache-ttl inner params w r e in
      let ends =
        has_end stored r.ttl
          (subst (λ t. ltb_ℤ t least_int64 ≡ false) (sym left)
            (saturated_at_least (r.value.expires_at -ℤ time (fetch_for_cache inner params w).1)))
          late in
      let (same, fresh, one) =
        kept (key == other) (ltb_ℤ (stored +ℤ r.ttl) (now +ℤ s.expiry_buffer)) r.value v
          (sym (get-set_lifetime s stored now key other (some r.value) r.ttl given ends) ∙ found) in
      (
        same,
        one,
        rw one (
            in_time r.value.expires_at (time (fetch_for_cache inner params w).1) stored now
              s.expiry_buffer r.ttl left soon after positive fresh),
      )
