-- ===== src/Clock.antt =====
-- core/time.py. Times stand for aware UTC datetimes, so `ensure_utc` is the identity: the worker's
-- `replace(tzinfo=…)` and `ensure_utc` only repair what SQLite forgets.
use hilforge.Base.{ℕ, ◌+◌, Bool, false, Option, none, some, ltb}

-- `last_heartbeat_at > now - timeout`. The timeout stands on the other side, since the subtraction
-- of dates does not stop at 0.
unfoldable pub heartbeat_is_fresh : Option ℕ → ℕ → ℕ → Bool
heartbeat_is_fresh none now timeout_seconds = false
heartbeat_is_fresh (some at) now timeout_seconds = ltb now (at + timeout_seconds)
