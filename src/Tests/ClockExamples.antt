-- ===== src/Tests/ClockExamples.antt =====
-- The mock clock's ticker at concrete times.
use scafctl_plugin_auth_gith.Prelude.{pos, ◌-◌, ◌++◌, some, none, [], ◌≡◌, refl}
use scafctl_plugin_auth_gith.Clock.Mock.{
  MockTicker, length, buf_size, new_ticker, receive, reset, send,
}
use scafctl_plugin_auth_gith.Clock.Mock.Reads.{
  times, holding, Reached, made, read, fired, reads, made_at,
}
use scafctl_plugin_auth_gith.Clock.Mock.Bounds.{new_ticker-reads, reset-reads}

-- One of the times is read, and a later one is sent.
abbrev used : MockTicker
used = send (pos 7) (holding (times 63 (pos 5)) buf_size)

used-Reached : Reached used
unfolding receive
used-Reached = fired (pos 7) (
    read (pos 5) {m = holding (times buf_size (pos 5)) buf_size}
      (made (pos 5) (pos 1) (made_at (pos 5) (pos 1))) refl)

new_ticker-reads_example :
    (m : MockTicker) × (new_ticker (pos 5) (pos 1) ≡ some m)
    × (reads buf_size m ≡ some (times buf_size (pos 5), holding [] buf_size))
    × (receive (holding [] buf_size) ≡ none)
new_ticker-reads_example = new_ticker-reads (pos 5) (pos 1)

reset-reads_example :
    (n : MockTicker) × (reset (pos 9) (pos 1) used ≡ some n)
    × (reads buf_size n
        ≡ some
            (used.ch.held ++ times (buf_size - length used.ch.held) (pos 9), holding [] buf_size))
reset-reads_example = reset-reads (pos 9) (pos 1) used used-Reached
