-- ===== src/Clock/Mock.antt =====
-- internal/clock/mock.go: the clock for tests, whose tickers hold a buffered channel of times.
pub mod Reads
pub mod Bounds
use scafctl_plugin_auth_gith.Prelude.{
  ℕ, zero, suc, ℤ, ltb, Option, none, some, List, [], ◌∷◌, ◌++◌, if◌then◌else◌,
}
use scafctl_plugin_auth_gith.Clock.{Clock, Ticker}

abbrev pub length {ℓ} : {A : Type ℓ} → List A → ℕ
length [] = 0
length (x ∷ xs) = suc (length xs)

-- A buffered channel: what was sent and not yet received, oldest first.
pub record Channel : Type 0 where
  pub held : List ℤ
  pub capacity : ℕ

-- `select { case ch <- now: ... default: ... }`: the channel after the send, or nothing if it is
-- full. A bare send blocks where this gives nothing.
unfoldable pub offer : ℤ → Channel → Option Channel
offer now ch =
    if ltb (length ch.held) ch.capacity
    then some (record ch { held = ch.held ++ (now ∷ []) })
    else none

-- `<-ch`, which blocks on an empty channel.
abbrev pub taken : List ℤ → ℕ → Option (ℤ × Channel)
taken [] capacity = none
taken (t ∷ held) capacity = some (t, record { held = held; capacity = capacity })

pub record MockTicker : Type 0 where
  pub ch : Channel

abbrev pub received : Option (ℤ × Channel) → Option (ℤ × MockTicker)
received none = none
received (some (t, ch)) = some (t, record { ch = ch })

-- A receive from `C()`.
unfoldable pub receive : MockTicker → Option (ℤ × MockTicker)
receive m = received (taken m.ch.held m.ch.capacity)

unfoldable pub stop : MockTicker → MockTicker
stop m = m

-- The loop of `NewTicker`, which sends a number of times and would block on a full channel.
unfoldable pub fill : ℕ → ℤ → Channel → Option Channel
fill zero now ch = some ch
fill (suc n) now ch = elim (offer now ch) [ none ↦ none | some next ↦ fill n now next ]

-- The loop of `Reset`, with a bound on its rounds; nothing is returned if the bound is reached.
unfoldable pub refill : ℕ → ℤ → Channel → Option Channel
refill zero now ch = none
refill (suc fuel) now ch = elim (offer now ch) [ none ↦ some ch | some next ↦ refill fuel now next ]

abbrev pub over : Option Channel → Option MockTicker
over none = none
over (some ch) = some (record { ch = ch })

abbrev pub or_same : Option Channel → Channel → Channel
or_same none ch = ch
or_same (some next) ch = next

abbrev pub buf_size : ℕ
buf_size = 64

unfoldable pub new_ticker : (now : ℤ) (interval : ℤ) → Option MockTicker
unfolding fill
new_ticker now interval = over (fill buf_size now (record { held = []; capacity = buf_size }))

unfoldable pub reset : (now : ℤ) (interval : ℤ) → MockTicker → Option MockTicker
unfolding refill
reset now interval m = over (refill (suc m.ch.capacity) now m.ch)

-- A send that finds the channel full does nothing.
unfoldable pub send : ℤ → MockTicker → MockTicker
unfolding offer
send now m = record { ch = or_same (offer now m.ch) m.ch }

unfoldable pub mock_ticker : Ticker MockTicker
mock_ticker = record { receive = receive; stop = stop; reset = reset }

unfoldable pub mock_clock : Clock MockTicker
unfolding mock_ticker
mock_clock = record { ticker = mock_ticker; new_ticker = new_ticker }
