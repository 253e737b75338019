-- ===== src/DeviceFlow/Approval.antt =====
-- What the polling loop returns where the user approves the login in the end: pollForToken of
-- internal/github/device_flow.go.
use scafctl_plugin_auth_gith.Prelude.{
  String, ◌==◌, ℕ, zero, suc, ◌<◌, ℤ, pos, ltb_ℤ, true, false, some, ◌≡◌, refl, ap, ◌∙◌, subst,
  arith,
}
use scafctl_plugin_auth_gith.Effect.{ok, err, pure, lift, gets, try, caught, wrapped, ◌>>=◌}
use scafctl_plugin_auth_gith.Effect.Laws.{bind_runs}
use scafctl_plugin_auth_gith.Types.{TokenResponse, TokenBody, Response, DeviceCodeResponse}
use scafctl_plugin_auth_gith.World.{World}
use scafctl_plugin_auth_gith.Handler.{Handler}
use scafctl_plugin_auth_gith.Token.Mint.{token_endpoint}
use scafctl_plugin_auth_gith.DeviceFlow.{
  Round, again, slow_down, finished, poll_form, round_of_answer, round_of_body, round_of_error,
  poll_round, poll_loop, poll_for_token, polled, start_interval, slowed,
}
use scafctl_plugin_auth_gith.DeviceFlow.Polling.{Ticking, goes_on, round_descends}

module _ ⦃W : World⦄ (p : Handler W) (code : String) where
  -- A tick comes, and the server answers the request that follows with a body.
  pub record Answered (interval : ℤ) (s : W.State) (body : TokenBody) (t : W.State) : Type 0 where
    pub between : W.State
    pub ticked : W.await_tick interval s ≡ (ok true, between)
    pub answer : Response
    pub posted :
        W.post_form p.http_client (token_endpoint p.config) (poll_form p.config code) between
        ≡ (ok answer, t)
    pub parsed : W.decode_token_body answer.body ≡ ok body

  -- A tick comes, and the request fails without an answer.
  pub record Unanswered (interval : ℤ) (s t : W.State) : Type 0 where
    pub between : W.State
    pub ticked : W.await_tick interval s ≡ (ok true, between)
    pub reason : String
    pub failed :
        W.post_form p.http_client (token_endpoint p.config) (poll_form p.config code) between
        ≡ (err reason, t)

  -- What happens from a state on, in which the loop polls at an interval: the server reports that
  -- the user has not decided, or asks to slow down, or cannot be reached, any number of times, and
  -- then sends a token.
  pub data Approves : ℤ → W.State → TokenResponse → Type 0 where
    approved :
        {interval : ℤ} {s : W.State} (body : TokenBody) (t : W.State)
        → Answered interval s body t
        → body.token.access_token == "" ≡ false
        → Approves interval s body.token
    pending :
        {interval : ℤ} {s : W.State} {resp : TokenResponse} (body : TokenBody) (t : W.State)
        → Answered interval s body t
        → body.token.access_token ≡ ""
        → body.failure.error ≡ "authorization_pending"
        → Approves interval t resp
        → Approves interval s resp
    slower :
        {interval : ℤ} {s : W.State} {resp : TokenResponse} (body : TokenBody) (t : W.State)
        → Answered interval s body t
        → body.token.access_token ≡ ""
        → body.failure.error ≡ "slow_down"
        → ltb_ℤ (pos 0) (slowed p.config interval) ≡ true
        → Approves (slowed p.config interval) t resp
        → Approves interval s resp
    unreachable :
        {interval : ℤ} {s : W.State} {resp : TokenResponse} (t : W.State)
        → Unanswered interval s t
        → Approves interval t resp
        → Approves interval s resp

  -- The round that the body stands for.
  round_by_body :
      (interval : ℤ) (s t : W.State) (body : TokenBody)
      → Answered interval s body t
      → poll_round p code interval s ≡ (ok (round_of_body body), t)
  unfolding poll_round ◌>>=◌ try caught pure round_of_answer wrapped
  round_by_body interval s t body a = rw (a.ticked, a.posted, a.parsed) refl

  no_answer_goes_on :
      (interval : ℤ) (s t : W.State)
      → Unanswered interval s t
      → poll_round p code interval s ≡ (ok again, t)
  unfolding poll_round ◌>>=◌ try caught pure round_of_answer
  no_answer_goes_on interval s t u = rw (u.ticked, u.failed) refl

  pending_round :
      (body : TokenBody)
      → body.token.access_token ≡ ""
      → body.failure.error ≡ "authorization_pending"
      → round_of_body body ≡ again
  unfolding round_of_body round_of_error
  pending_round body empty waiting = rw (empty, waiting) refl

  slower_round :
      (body : TokenBody)
      → body.token.access_token ≡ ""
      → body.failure.error ≡ "slow_down"
      → round_of_body body ≡ slow_down
  unfolding round_of_body round_of_error
  slower_round body empty asked = rw (empty, asked) refl

  approved_round :
      (body : TokenBody)
      → body.token.access_token == "" ≡ false
      → round_of_body body ≡ finished (ok body.token)
  unfolding round_of_body
  approved_round body full = rw full refl

  tighter : {a b c : ℕ} → a < b → b < suc c → a < c
  tighter x y = omega arith

  -- What the loop does after each kind of round.
  again_next :
      (fuel : ℕ) (interval : ℤ) (s t : W.State)
      → poll_round p code interval s ≡ (ok again, t)
      → poll_loop (suc fuel) p code interval s ≡ poll_loop fuel p code interval t
  unfolding poll_loop
  again_next fuel interval s t e = bind_runs (poll_round p code interval) _ s t again e

  slower_next :
      (fuel : ℕ) (interval : ℤ) (s t : W.State)
      → poll_round p code interval s ≡ (ok slow_down, t)
      → ltb_ℤ (pos 0) (slowed p.config interval) ≡ true
      → poll_loop (suc fuel) p code interval s ≡ poll_loop fuel p code (slowed p.config interval) t
  unfolding poll_loop
  slower_next fuel interval s t e positive =
      bind_runs (poll_round p code interval) _ s t slow_down e
      ∙ (unfold ◌>>=◌ pure in rw positive refl)

  finished_next :
      (fuel : ℕ) (interval : ℤ) (s t : W.State) (resp : TokenResponse)
      → poll_round p code interval s ≡ (ok (finished (ok resp)), t)
      → poll_loop (suc fuel) p code interval s ≡ (ok (some resp), t)
  unfolding poll_loop
  finished_next fuel interval s t resp e =
      bind_runs (poll_round p code interval) _ s t (finished (ok resp)) e
      ∙ (unfold ◌>>=◌ lift pure in refl)

  module _ (T : Ticking W) where
    goes_less :
        (interval : ℤ) (s t : W.State) (round : Round)
        → goes_on round ≡ true
        → poll_round p code interval s ≡ (ok round, t)
        → W.ticks_left t < W.ticks_left s
    goes_less interval s t round on e =
        subst (λ u. W.ticks_left u < W.ticks_left s) (ap (λ r. r.1) e)
          (round_descends T p code interval s round (ap (λ r. r.0) e) on)

    loop_returns :
        (fuel : ℕ) (interval : ℤ) (s : W.State) (resp : TokenResponse)
        → Approves interval s resp
        → W.ticks_left s < fuel
        → (poll_loop fuel p code interval s).0 ≡ ok (some resp)
    loop_returns zero interval s resp a less = absurd (omega arith)
    loop_returns (suc fuel) interval s resp (approved body t a full) less =
        ap (λ r. r.0)
          (finished_next fuel interval s t body.token
            (round_by_body interval s t body a ∙ ap (λ r. (ok r, t)) (approved_round body full)))
    loop_returns (suc fuel) interval s resp (pending body t a empty waiting later) less =
        let e =
          round_by_body interval s t body a
          ∙ ap (λ r. (ok r, t)) (pending_round body empty waiting) in
        ap (λ r. r.0) (again_next fuel interval s t e)
        ∙ loop_returns fuel interval t resp later
            (tighter (goes_less interval s t again refl e) less)
    loop_returns (suc fuel) interval s resp (slower body t a empty asked positive later) less =
        let e =
          round_by_body interval s t body a ∙ ap (λ r. (ok r, t)) (slower_round body empty asked) in
        ap (λ r. r.0) (slower_next fuel interval s t e positive)
        ∙ loop_returns fuel (slowed p.config interval) t resp later
            (tighter (goes_less interval s t slow_down refl e) less)
    loop_returns (suc fuel) interval s resp (unreachable t u later) less =
        let e = no_answer_goes_on interval s t u in
        ap (λ r. r.0) (again_next fuel interval s t e)
        ∙ loop_returns fuel interval t resp later
            (tighter (goes_less interval s t again refl e) less)

module _ ⦃W : World⦄ (T : Ticking W) (p : Handler W) where
  -- If every tick uses up one of those that the context leaves and a request adds none, the first
  -- interval is positive, and the server reports any number of times that the user has not
  -- decided, asks to slow down to a positive interval, or is not reachable, and then sends a
  -- token, all before the context ends, then the polling returns that token.
  pub poll_for_token-approved :
      (response : DeviceCodeResponse) (s : W.State) (resp : TokenResponse)
      → ltb_ℤ (pos 0) (start_interval p.config response) ≡ true
      → Approves p response.device_code (start_interval p.config response) s resp
      → (poll_for_token p response s).0 ≡ ok resp
  unfolding poll_for_token ◌>>=◌ gets pure polled
  poll_for_token-approved response s resp positive a =
      rw
        (
          positive,
          loop_returns p response.device_code T (suc (W.ticks_left s)) _ s resp a (omega arith),
        )
        refl
