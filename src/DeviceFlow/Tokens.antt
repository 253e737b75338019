-- ===== src/DeviceFlow/Tokens.antt =====
-- The tokens that the polling loop returns: pollForToken of internal/github/device_flow.go.
use scafctl_plugin_auth_gith.Prelude.{
  if◌then◌else◌, String, ◌==◌, ℕ, zero, suc, ℤ, pos, ltb_ℤ, Bool, true, false, Bool-cases, inl, inr,
  Option, some, ◌≡◌, subst,
}
use scafctl_plugin_auth_gith.Effect.{
  Result, ok, err, panic, Exec, pure, lift, try, wrapped, continue, ◌>>=◌, ◌>>◌,
}
use scafctl_plugin_auth_gith.Types.{TokenResponse, TokenBody, TokenErrorResponse, Response}
use scafctl_plugin_auth_gith.World.{World}
use scafctl_plugin_auth_gith.Handler.{Handler}
use scafctl_plugin_auth_gith.Token.Mint.{token_endpoint}
use scafctl_plugin_auth_gith.DeviceFlow.{
  Round, again, slow_down, finished, poll_form, round_of_answer, round_of_decoded, round_of_body,
  round_of_error, poll_round, poll_loop, slowed, check_ticker,
}

abbrev Full : Result TokenResponse → Type 0
Full (ok resp) = resp.access_token == "" ≡ false
Full _ = Unit

abbrev FullRound : Round → Type 0
FullRound (finished r) = Full r
FullRound _ = Unit

abbrev FullEnd : Result (Option TokenResponse) → Type 0
FullEnd (ok (some resp)) = Full (ok resp)
FullEnd _ = Unit

full_if : (b : Bool) (x y : Round) → FullRound x → FullRound y → FullRound (if b then x else y)
full_if true x y hx hy = hx
full_if false x y hx hy = hy

round_of_error-Full : (e : TokenErrorResponse) → FullRound (round_of_error e)
unfolding round_of_error
round_of_error-Full e = full_if (e.error == "authorization_pending") _ _ tt (
    full_if (e.error == "slow_down") _ _ tt (
      full_if (e.error == "expired_token") _ _ tt (full_if (e.error == "access_denied") _ _ tt tt)))

round_of_body-Full : (body : TokenBody) → FullRound (round_of_body body)
unfolding round_of_body
round_of_body-Full body = elim (Bool-cases (body.token.access_token == "")) [
  | inl empty ↦ rw empty (round_of_error-Full body.failure)
  | inr full ↦ rw full full
]

module _ ⦃W : World⦄ where
  round_of_decoded-Full : (r : Result TokenBody) → FullRound (round_of_decoded r)
  unfolding wrapped
  round_of_decoded-Full (ok body) = round_of_body-Full body
  round_of_decoded-Full (err e) = tt
  round_of_decoded-Full (panic e) = tt

  round_of_answer-Full : (r : Result Response) → FullRound (round_of_answer r)
  unfolding round_of_answer
  round_of_answer-Full (ok resp) = round_of_decoded-Full (W.decode_token_body resp.body)
  round_of_answer-Full (err e) = tt
  round_of_answer-Full (panic e) = tt

  FullResult : Result Round → Type 0
  FullResult (ok round) = FullRound round
  FullResult _ = Unit

  module _ (p : Handler W) (code : String) where
    answered :
        (r : Result (Result Response)) (t : W.State)
        → FullResult (continue r (λ answer. pure (round_of_answer answer)) t).0
    unfolding pure FullResult
    answered (ok r) t = round_of_answer-Full r
    answered (err e) t = tt
    answered (panic e) t = tt

    abbrev on_event : Bool → Exec W.State Round
    on_event ticked =
        if ticked
        then (do
          answer ←
              try (W.post_form p.http_client (token_endpoint p.config) (poll_form p.config code))
          pure (round_of_answer answer))
        else pure (finished (err "authentication timed out"))

    on_event-Full : (r : Result Bool) (t : W.State) → FullResult (continue r on_event t).0
    unfolding FullResult ◌>>=◌ pure answered
    on_event-Full (ok true) t = answered _ _
    on_event-Full (ok false) t = tt
    on_event-Full (err e) t = tt
    on_event-Full (panic e) t = tt

    poll_round-Full : (interval : ℤ) (s : W.State) → FullResult (poll_round p code interval s).0
    unfolding poll_round ◌>>=◌
    poll_round-Full interval s =
        on_event-Full (W.await_tick interval s).0 (W.await_tick interval s).1

    abbrev next : ℕ → ℤ → Round → Exec W.State (Option TokenResponse)
    next fuel interval round = elim round [
      | again ↦ poll_loop fuel p code interval
      | slow_down ↦ (do
        check_ticker (slowed p.config interval)
        poll_loop fuel p code (slowed p.config interval))
      | finished result ↦ (do resp ← lift result; pure (some resp))
    ]

    FullLoop : ℕ → Type 0
    FullLoop fuel = (interval : ℤ) (s : W.State) → FullEnd (poll_loop fuel p code interval s).0

    finished-Full :
        (r : Result TokenResponse) (t : W.State)
        → Full r
        → FullEnd (continue r (λ resp. pure {S = W.State} (some resp)) t).0
    unfolding pure
    finished-Full (ok resp) t h = h
    finished-Full (err x) t h = tt
    finished-Full (panic x) t h = tt

    slowed-Full :
        (fuel : ℕ) (b : Bool) (interval : ℤ) (t : W.State)
        → FullEnd (poll_loop fuel p code interval t).0
        → FullEnd
            (((if b then pure tt else lift (panic "non-positive interval for ticker"))
                >>= (λ _. poll_loop fuel p code interval))
              t).0
    unfolding ◌>>=◌ pure lift
    slowed-Full fuel true interval t h = h
    slowed-Full fuel false interval t h = tt

    next-Full :
        (fuel : ℕ) (interval : ℤ) (r : Result Round) (t : W.State)
        → FullLoop fuel
        → FullResult r
        → FullEnd (continue r (next fuel interval) t).0
    unfolding FullLoop FullResult ◌>>=◌ lift
    next-Full fuel interval (ok again) t ih h = ih interval t
    next-Full fuel interval (ok slow_down) t ih h =
        slowed-Full fuel (ltb_ℤ (pos 0) (slowed p.config interval)) _ t (ih _ t)
    next-Full fuel interval (ok (finished result)) t ih h = finished-Full result t h
    next-Full fuel interval (err x) t ih h = tt
    next-Full fuel interval (panic x) t ih h = tt

    loop-Full : (fuel : ℕ) → FullLoop fuel
    unfolding FullLoop poll_loop ◌>>=◌ pure
    loop-Full zero interval s = tt
    loop-Full (suc fuel) interval s =
        next-Full fuel interval (poll_round p code interval s).0 _ (loop-Full fuel)
          (poll_round-Full interval s)

    -- The polling loop never returns a response whose access token is empty, whatever the server
    -- answers.
    pub poll_loop-token :
        (fuel : ℕ) (interval : ℤ) (s : W.State) (resp : TokenResponse)
        → (poll_loop fuel p code interval s).0 ≡ ok (some resp)
        → resp.access_token == "" ≡ false
    unfolding FullLoop
    poll_loop-token fuel interval s resp e = subst FullEnd e (loop-Full fuel interval s)
