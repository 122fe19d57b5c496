-- ===== src/Clock/Delta.antt =====
-- The time difference of plugins/check_clock.c.
use nagios_plugins_linux.Base.{ℕ, ◌+◌, ◌^◌, ◌<◌, ◌≤◌, ◌≡◌, arith}
use nagios_plugins_linux.Base.Int.{pos, to_int}
use nagios_plugins_linux.Clock.{elapsed, labs}

-- Where the clock is ahead by less than 2^31 seconds, the difference is what it is ahead by.
pub elapsed-ahead :
    (now refclock : ℕ)
    → now < 2 ^ 63
    → refclock ≤ now
    → now < refclock + 2 ^ 31
    → labs (elapsed now refclock) + refclock ≡ now
unfolding elapsed labs to_int
elapsed-ahead now refclock l h k = ground arith

-- Where it is behind by at most 2^31 seconds, the difference is what it is behind by.
pub elapsed-behind :
    (now refclock : ℕ)
    → refclock < 2 ^ 63
    → now < refclock
    → refclock ≤ now + 2 ^ 31
    → labs (elapsed now refclock) + now ≡ refclock
unfolding elapsed labs to_int
elapsed-behind now refclock l h k = ground arith

-- A clock that is 2^32 seconds ahead is taken for one that is right.
pub elapsed-wraps :
    (refclock : ℕ) → refclock + 2 ^ 32 < 2 ^ 63 → elapsed (refclock + 2 ^ 32) refclock ≡ pos 0
unfolding elapsed to_int
elapsed-wraps refclock l = ground arith
