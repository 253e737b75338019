-- ===== src/DeviceFlow/Intervals.antt =====
-- How long the device flow waits between two requests.
use scafctl_plugin_auth_gith.Prelude.{
  ℕ, ◌+◌, ◌<◌, ℤ, pos, ◌+ℤ◌, ltb_ℤ, eqb_ℤ, wrap, Bool-cases, true, false, ◌≡◌, inl, inr,
  if◌then◌else◌, arith,
}
use scafctl_plugin_auth_gith.Types.{DeviceCodeResponse}
use scafctl_plugin_auth_gith.Config.{Config}
use scafctl_plugin_auth_gith.Token.Store.{seconds}
use scafctl_plugin_auth_gith.DeviceFlow.{min_poll_interval, start_interval, slowed}

positive_or_default :
    (m : ℤ)
    → ltb_ℤ m (pos 0) ≡ false
    → ltb_ℤ (pos 0) (if eqb_ℤ m (pos 0) then pos 5000000000 else m) ≡ true
positive_or_default m h = ground arith

at_least :
    (i m : ℤ)
    → ltb_ℤ (pos 0) m ≡ true
    → (ltb_ℤ (pos 0) (if ltb_ℤ i m then m else i) ≡ true)
      × (ltb_ℤ (if ltb_ℤ i m then m else i) m ≡ false)
at_least i m h = ground arith

longer :
    (n d : ℕ)
    → 0 < d
    → n + d < 9223372036854775808
    → (wrap (pos n +ℤ pos d) ≡ pos n +ℤ pos d) × (ltb_ℤ (pos n) (wrap (pos n +ℤ pos d)) ≡ true)
unfolding wrap ◌+ℤ◌
longer n d h bound = ground arith

-- If the configured minimum is not negative, the loop starts with a positive interval, which is
-- not below the minimum, whatever interval the server asks for.
pub start_interval-positive :
    (c : Config) (r : DeviceCodeResponse)
    → ltb_ℤ c.min_poll_interval (pos 0) ≡ false
    → (ltb_ℤ (pos 0) (start_interval c r) ≡ true)
      × (ltb_ℤ (start_interval c r) (min_poll_interval c) ≡ false)
unfolding start_interval min_poll_interval
start_interval-positive c r h =
    at_least (seconds r.interval) (min_poll_interval c) (positive_or_default c.min_poll_interval h)

-- If neither the interval nor the configured increment is negative and the two with five seconds
-- stay below 2^63 nanoseconds, a `slow_down` makes the interval longer, by the configured
-- increment, or by five seconds where that is zero.
slowed-longer :
    (c : Config) (n m : ℕ)
    → c.slow_down_increment ≡ pos m
    → n + m + 5000000000 < 9223372036854775808
    → (slowed c (pos n) ≡ pos n +ℤ (if eqb_ℤ (pos m) (pos 0) then pos 5000000000 else pos m))
      × (ltb_ℤ (pos n) (slowed c (pos n)) ≡ true)
unfolding slowed
slowed-longer c n m e bound = rw e (elim (Bool-cases (eqb_ℤ (pos m) (pos 0))) [
  | inl zero ↦ rw zero (longer n 5000000000 (omega arith) (omega arith))
  | inr other ↦ rw other (longer n m (ground arith) (omega arith))
])
