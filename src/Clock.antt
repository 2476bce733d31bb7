-- ===== src/Clock.antt =====
-- silkoroutine/common/clock_time.cpp. The steady clock is an argument: what it reads, in
-- nanoseconds.
use silkoroutine.Common.{ℕ, ◌+◌, ◌-◌, ◌%◌, ◌^◌, ◌<◌, ◌≡◌, arith}

-- A count of nanoseconds in a `uint64_t`.
unfoldable pub now : ℕ → ℕ
now clock = clock % 2 ^ 64

-- The difference of two `uint64_t`, of which the second is below 2 ^ 64.
unfoldable pub since : ℕ → ℕ → ℕ
unfolding now
since clock start = (now clock + 2 ^ 64 - start) % 2 ^ 64

-- The time since a start that `now` gave is the time that the clock has gone since then, also where
-- the count has wrapped, as long as less than 2 ^ 64 nanoseconds went by.
pub since-now :
    (clock elapsed : ℕ) → elapsed < 2 ^ 64 → since (clock + elapsed) (now clock) ≡ elapsed
unfolding now since
since-now clock elapsed h = omega arith
