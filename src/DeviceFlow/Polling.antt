-- ===== src/DeviceFlow/Polling.antt =====
-- How long the polling loop runs: pollForToken of internal/github/device_flow.go.
use scafctl_plugin_auth_gith.Prelude.{
  pos, ltb_ℤ, List, if◌then◌else◌, String, ℕ, zero, suc, ◌≤◌, ◌<◌, ℤ, Bool, true, false, Option,
  none, some, ◌≡◌, refl, sym, ap, subst, arith,
}
use scafctl_plugin_auth_gith.Effect.{
  Result, ok, err, panic, Exec, pure, lift, try, continue, ◌>>=◌, ◌>>◌,
}
use scafctl_plugin_auth_gith.Types.{TokenResponse, Response}
use scafctl_plugin_auth_gith.World.{World}
use scafctl_plugin_auth_gith.Handler.{Handler}
use scafctl_plugin_auth_gith.Effect.Laws.{bind_pure_state}
use scafctl_plugin_auth_gith.Token.Mint.{token_endpoint}
use scafctl_plugin_auth_gith.DeviceFlow.{
  Round, again, slow_down, finished, poll_form, round_of_answer, poll_round, poll_loop, slowed,
  check_ticker,
}

-- A tick uses up one of those that are left, and a request adds none.
pub record Ticking (W : World) : Type 0 where
  pub tick :
      (interval : ℤ) (s : W.State)
      → (W.await_tick interval s).0 ≡ ok true
      → W.ticks_left (W.await_tick interval s).1 < W.ticks_left s
  pub request :
      (c : W.HttpClient) (url : String) (form : List (String × String)) (s : W.State)
      → W.ticks_left (W.post_form c url form s).1 ≤ W.ticks_left s

-- The rounds after which the loop goes on.
abbrev pub goes_on : Round → Bool
goes_on again = true
goes_on slow_down = true
goes_on (finished result) = false

module _ ⦃W : World⦄ (T : Ticking W) (p : Handler W) (code : String) where
  abbrev post : Exec W.State (Result Response)
  post = try (W.post_form p.http_client (token_endpoint p.config) (poll_form p.config code))

  asked : (t : W.State) → W.ticks_left (post t).1 ≤ W.ticks_left t
  unfolding try
  asked t = T.request p.http_client (token_endpoint p.config) (poll_form p.config code) t

  abbrev request : Exec W.State Round
  request = do answer ← post; pure (round_of_answer answer)

  abbrev on_event : Bool → Exec W.State Round
  on_event ticked = if ticked then request else pure (finished (err "authentication timed out"))

  -- A round that goes on has used up a tick.
  descends :
      (r : Result Bool) (t : W.State) (n : ℕ) (round : Round)
      → (r ≡ ok true → W.ticks_left t < n)
      → (continue r on_event t).0 ≡ ok round
      → goes_on round ≡ true
      → W.ticks_left (continue r on_event t).1 < n
  unfolding ◌>>=◌ pure
  descends (ok true) t n round h e g =
      subst (λ k. k < n) (sym (ap (λ u. W.ticks_left u) (bind_pure_state post round_of_answer t)))
        (bounded (asked t) (h refl))
    where
      bounded : {a b c : ℕ} → a ≤ b → b < c → a < c
      bounded x y = omega arith
  descends (ok false) t n round h e g = cc
  descends (err x) t n round h e g = cc
  descends (panic x) t n round h e g = cc

  pub round_descends :
      (interval : ℤ) (s : W.State) (round : Round)
      → (poll_round p code interval s).0 ≡ ok round
      → goes_on round ≡ true
      → W.ticks_left (poll_round p code interval s).1 < W.ticks_left s
  unfolding poll_round ◌>>=◌
  round_descends interval s round e g =
      descends (W.await_tick interval s).0 (W.await_tick interval s).1 (W.ticks_left s) round
        (λ h. T.tick interval s h) e g

  -- What the loop does after a round.
  abbrev next : ℕ → ℤ → Round → Exec W.State (Option TokenResponse)
  next fuel interval round = elim round [
    | again ↦ poll_loop fuel p code interval
    | slow_down ↦ (do
      check_ticker (slowed p.config interval)
      poll_loop fuel p code (slowed p.config interval))
    | finished result ↦ (do resp ← lift result; pure (some resp))
  ]

  Ends : ℕ → Type 0
  Ends fuel =
      (interval : ℤ) (s : W.State)
      → W.ticks_left s < fuel
      → ¬ ((poll_loop fuel p code interval s).0 ≡ ok none)

  finished_ends :
      (r : Result TokenResponse) (t : W.State)
      → ¬ ((continue r (λ resp. pure {S = W.State} (some resp)) t).0 ≡ ok none)
  unfolding pure
  finished_ends (ok resp) t e = cc
  finished_ends (err x) t e = cc
  finished_ends (panic x) t e = cc

  slowed_ends :
      (fuel : ℕ) (b : Bool) (interval : ℤ) (t : W.State)
      → ¬ ((poll_loop fuel p code interval t).0 ≡ ok none)
      → ¬ (
          (((if b then pure tt else lift (panic "non-positive interval for ticker"))
              >>= (λ _. poll_loop fuel p code interval))
            t).0
          ≡ ok none)
  unfolding ◌>>=◌ pure lift
  slowed_ends fuel true interval t ih e = ih e
  slowed_ends fuel false interval t ih e = cc

  next-Ends :
      (fuel : ℕ) (interval : ℤ) (r : Result Round) (t : W.State)
      → Ends fuel
      → ((round : Round) → r ≡ ok round → goes_on round ≡ true → W.ticks_left t < fuel)
      → ¬ ((continue r (next fuel interval) t).0 ≡ ok none)
  unfolding Ends ◌>>=◌ lift
  next-Ends fuel interval (ok again) t ih less e = ih interval t (less again refl refl) e
  next-Ends fuel interval (ok slow_down) t ih less e =
      slowed_ends fuel (ltb_ℤ (pos 0) (slowed p.config interval)) _ t
        (ih _ t (less slow_down refl refl)) e
  next-Ends fuel interval (ok (finished result)) t ih less e = finished_ends result t e
  next-Ends fuel interval (err x) t ih less e = cc
  next-Ends fuel interval (panic x) t ih less e = cc

  ends : (fuel : ℕ) → Ends fuel
  unfolding Ends poll_loop ◌>>=◌
  ends zero interval s h = absurd (none_below h)
    where
      none_below : {a : ℕ} → ¬ (a < 0)
      none_below h = omega arith
  ends (suc fuel) interval s h =
      next-Ends fuel interval (poll_round p code interval s).0 (poll_round p code interval s).1
        (ends fuel) (λ round e g. tighter (round_descends interval s round e g) h)
    where
      tighter : {a b c : ℕ} → a < b → b < suc c → a < c
      tighter x y = omega arith

  -- If every tick uses up one of those that the context leaves and a request adds none, then the
  -- loop has ended before the bound that the model gives it is reached, whatever the server
  -- answers and however often it asks to slow down.
  pub poll_loop-ends :
      (interval : ℤ) (s : W.State)
      → ¬ ((poll_loop (suc (W.ticks_left s)) p code interval s).0 ≡ ok none)
  unfolding Ends
  poll_loop-ends interval s = ends (suc (W.ticks_left s)) interval s (omega arith)
