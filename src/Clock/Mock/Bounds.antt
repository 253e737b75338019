-- ===== src/Clock/Mock/Bounds.antt =====
-- What a mock ticker of internal/clock/mock.go holds, whatever is done with it, and what a reset
-- restores.
use scafctl_plugin_auth_gith.Prelude.{
  ℕ, suc, ◌-◌, ◌≤◌, ℤ, ltb, Bool, true, false, none, some, List, [], ◌∷◌, ◌++◌, ◌≡◌, refl, sym, ap,
  subst, ◌∙◌, arith, if◌then◌else◌,
}
use scafctl_plugin_auth_gith.Clock.Mock.{
  length, offer, taken, MockTicker, received, receive, stop, or_same, buf_size, new_ticker, reset,
  send,
}
use scafctl_plugin_auth_gith.Clock.Mock.Reads.{
  times, channel, holding, Reached, made, read, stopped, restarted, fired, reads, reset_lem,
  reads_lem, made_at, sent_once, length-append, length-times, append_nil,
}

-- The invariant of a ticker's channel.
abbrev pub Bounded : MockTicker → Type 0
Bounded m = (m.ch.capacity ≡ buf_size) × (length m.ch.held ≤ buf_size)

some_injective {ℓ} : {A : Type ℓ} (a b : A) → some a ≡ some b → a ≡ b
some_injective a b e = cc

Bounded-taken :
    (held : List ℤ) (capacity : ℕ) (t : ℤ) (n : MockTicker)
    → received (taken held capacity) ≡ some (t, n)
    → Bounded (holding held capacity)
    → Bounded n
Bounded-taken [] capacity t n e h = cc
Bounded-taken (x ∷ held) capacity t n e h =
    subst Bounded (ap (λ q. q.1) (some_injective (x, holding held capacity) (t, n) e))
      (h.0, omega arith)

Bounded-sent :
    (b : Bool) (now : ℤ) (held : List ℤ) (capacity : ℕ)
    → ltb (length held) capacity ≡ b
    → Bounded (holding held capacity)
    → Bounded (record {
      ch =
          or_same
            (if b then some (channel (held ++ (now ∷ [])) capacity) else none)
            (channel held capacity);
    })
Bounded-sent true now held capacity e h =
    (h.0, grown (sent_once held now) (has_room (length held) capacity e) h.0)
  where
    has_room : (a b : ℕ) → ltb a b ≡ true → suc a ≤ b
    has_room a b e = ground arith

    grown : {a b c : ℕ} → b ≡ suc a → suc a ≤ c → c ≡ buf_size → b ≤ buf_size
    grown x y z = omega arith
Bounded-sent false now held capacity e h = h

Bounded-send : (now : ℤ) (m : MockTicker) → Bounded m → Bounded (send now m)
unfolding send offer
Bounded-send now m h =
    Bounded-sent (ltb (length m.ch.held) m.ch.capacity) now m.ch.held m.ch.capacity refl h

full_after :
    (now : ℤ) (held : List ℤ) (capacity : ℕ)
    → length held ≤ capacity
    → length (held ++ times (capacity - length held) now) ≡ capacity
full_after now held capacity h =
    let split = length-append held (times (capacity - length held) now) in
    let filled = length-times (capacity - length held) now in omega arith

Bounded-reset :
    (now interval : ℤ) (m n : MockTicker) → reset now interval m ≡ some n → Bounded m → Bounded n
Bounded-reset now interval m n e h =
    subst Bounded
      (some_injective _ _ (sym (reset_lem now interval m.ch.held m.ch.capacity (within h)) ∙ e))
      (h.0, filled (full_after now m.ch.held m.ch.capacity (within h)) h.0)
  where
    within : {a b : ℕ} → (b ≡ buf_size) × (a ≤ buf_size) → a ≤ b
    within h = omega arith

    filled : {a b : ℕ} → a ≡ b → b ≡ buf_size → a ≤ buf_size
    filled x y = omega arith

-- A ticker of the mock clock holds at most 64 times in a channel of 64, whatever is read from it,
-- sent to it and reset.
Reached-Bounded : {m : MockTicker} → Reached m → Bounded m
unfolding stop receive
Reached-Bounded (made now interval e) =
    subst Bounded (some_injective _ _ (sym (made_at now interval) ∙ e)) (refl, omega arith)
Reached-Bounded (read t {m} {n} r e) =
    Bounded-taken m.ch.held m.ch.capacity t n e (Reached-Bounded r)
Reached-Bounded (stopped r) = Reached-Bounded r
Reached-Bounded (restarted now interval {m} {n} r e) =
    Bounded-reset now interval m n e (Reached-Bounded r)
Reached-Bounded (fired now {m} r) = Bounded-send now m (Reached-Bounded r)

-- A new ticker can be read 64 times, which gives the time at which it was made, and the next read
-- blocks.
pub new_ticker-reads :
    (now interval : ℤ)
    → (m : MockTicker) × (new_ticker now interval ≡ some m)
      × (reads buf_size m ≡ some (times buf_size now, holding [] buf_size))
      × (receive (holding [] buf_size) ≡ none)
unfolding receive
new_ticker-reads now interval = (
  holding (times buf_size now) buf_size,
  made_at now interval,
  reads_lem (times buf_size now) [] buf_size,
  refl,
)

abbrev Refills : ℤ → ℤ → List ℤ → MockTicker → Type 0
Refills now interval held m =
    (n : MockTicker) × (reset now interval m ≡ some n)
    × (reads buf_size n ≡ some (held ++ times (buf_size - length held) now, holding [] buf_size))

drained :
    (xs : List ℤ)
    → length xs ≡ buf_size
    → reads buf_size (holding xs buf_size) ≡ some (xs, holding [] buf_size)
drained xs e =
    subst (λ k. reads k (holding xs buf_size) ≡ some (xs, holding [] buf_size)) e
      (subst (λ l. reads (length xs) (holding l buf_size) ≡ some (xs, holding [] buf_size))
        (append_nil xs) (reads_lem xs [] buf_size))

holding-Refills :
    (now interval : ℤ) (held : List ℤ)
    → length held ≤ buf_size
    → Refills now interval held (holding held buf_size)
holding-Refills now interval held h = (
  holding (held ++ times (buf_size - length held) now) buf_size,
  reset_lem now interval held buf_size h,
  drained _ (full_after now held buf_size h),
)

-- A reset of a ticker in any state that it gets into returns, and the ticker can then be read 64
-- times: the times that were left unread come first, in their order, and the time of the reset
-- fills what remains.
pub reset-reads :
    (now interval : ℤ) (m : MockTicker)
    → Reached m
    → (n : MockTicker) × (reset now interval m ≡ some n)
      × (reads buf_size n
          ≡ some (m.ch.held ++ times (buf_size - length m.ch.held) now, holding [] buf_size))
reset-reads now interval m r =
    let h = Reached-Bounded r in
    subst (λ c. Refills now interval m.ch.held (holding m.ch.held c)) (sym h.0)
      (holding-Refills now interval m.ch.held h.1)
