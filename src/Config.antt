-- ===== src/Config.antt =====
-- core/config.py: the settings with their bounds, and the limits derived from them. Durations are
-- in microseconds; the two limits are whole seconds, as in the source.
pub mod Limits
use hilforge.Base.{ℕ, ◌+◌, ◌*◌, ◌/◌, ◌≤◌, ◌<◌, max, Bool, true, false, ltb, leb, ◌&&◌, not}

pub record Settings : Type 0 where
  pub job_timeout_seconds : ℕ
  pub host_job_timeout_seconds : ℕ
  pub job_max_attempts : ℕ
  pub retry_backoff_seconds : ℕ
  pub retry_backoff_max_seconds : ℕ
  pub job_lease_grace_seconds : ℕ
  pub heartbeat_timeout_seconds : ℕ
  pub heartbeat_scan_interval_seconds : ℕ
  pub reconcile_interval_seconds : ℕ

abbrev pub second : ℕ
second = 1000000

-- The defaults of the class.
abbrev pub default_settings : Settings
default_settings = record {
  job_timeout_seconds = 4 * second;
  host_job_timeout_seconds = 10 * second;
  job_max_attempts = 3;
  retry_backoff_seconds = 1 * second;
  retry_backoff_max_seconds = 10 * second;
  job_lease_grace_seconds = 5 * second;
  heartbeat_timeout_seconds = 10 * second;
  heartbeat_scan_interval_seconds = 3 * second;
  reconcile_interval_seconds = 2 * second;
}

-- The bounds of the fields.
unfoldable pub fields_in_bounds : Settings → Bool
fields_in_bounds s =
    ltb 0 s.job_timeout_seconds
    && ltb 0 s.host_job_timeout_seconds
    && leb 1 s.job_max_attempts
    && leb s.job_max_attempts 10
    && ltb 0 s.retry_backoff_seconds
    && ltb 0 s.retry_backoff_max_seconds
    && leb (1 * second) s.job_lease_grace_seconds
    && ltb (1 * second) s.heartbeat_timeout_seconds
    && ltb 0 s.heartbeat_scan_interval_seconds
    && ltb 0 s.reconcile_interval_seconds

-- `validate_intervals` does not raise.
unfoldable pub validate_intervals : Settings → Bool
validate_intervals s =
    not (leb s.heartbeat_timeout_seconds s.heartbeat_scan_interval_seconds)
    && not (ltb s.retry_backoff_max_seconds s.retry_backoff_seconds)

-- The settings with which the processes start.
unfoldable pub accepts : Settings → Bool
unfolding fields_in_bounds validate_intervals
accepts s = fields_in_bounds s && validate_intervals s

-- `int` cuts the fraction off.
unfoldable pub worker_hard_time_limit_seconds : Settings → ℕ
worker_hard_time_limit_seconds s = max 10 (
    (max s.job_timeout_seconds s.host_job_timeout_seconds + s.job_lease_grace_seconds + 5 * second)
    / second)

unfoldable pub broker_visibility_timeout_seconds : Settings → ℕ
broker_visibility_timeout_seconds s = max 60 (worker_hard_time_limit_seconds s * 3)
