-- ===== src/Clock.antt =====
-- The `Clock` and `Ticker` interfaces of internal/clock/clock.go, and the clock over the time
-- package. A call that never returns gives nothing.
pub mod Mock
use scafctl_plugin_auth_gith.Prelude.{ℤ, Option, some}

-- What a caller can do with a ticker in the state `T`: receive from its channel, stop it, and
-- give it another interval. `time.Now` reads `now` during a call.
pub record Ticker (T : Type 0) : Type 0 where
  pub receive : T → Option (ℤ × T)
  pub stop : T → T
  pub reset : (now : ℤ) (interval : ℤ) → T → Option T

pub record Clock (T : Type 0) : Type 0 where
  pub ticker : Ticker T
  pub new_ticker : (now : ℤ) (interval : ℤ) → Option T

-- `time.NewTicker` and the three uses of the `*time.Ticker` that it returns.
module _ {T : Type 0} (new_timer : ℤ → T) (timer_channel : T → Option (ℤ × T)) (stop_timer : T → T)
    (reset_timer : ℤ → T → T) where
  unfoldable pub real_ticker : Ticker T
  real_ticker = record {
    receive = timer_channel;
    stop = stop_timer;
    reset = λ now interval t. some (reset_timer interval t);
  }

  unfoldable pub real_clock : Clock T
  unfolding real_ticker
  real_clock = record {
    ticker = real_ticker;
    new_ticker = λ now interval. some (new_timer interval);
  }
