-- ===== src/Config/Limits.antt =====
-- Why the limits of core/config.py are long enough.
use hilforge.Base.{ℕ, ◌+◌, ◌*◌, ◌≤◌, ◌<◌, max, arith}
use hilforge.Config.{
  Settings, second, worker_hard_time_limit_seconds, broker_visibility_timeout_seconds,
}

-- If the timeout of a job is at most the larger one of the two that are configured, this timeout
-- and the lease grace together are less than the hard time limit of a worker, and that limit is
-- less than the visibility timeout of the broker.
pub limits_nested :
    (s : Settings) (timeout : ℕ)
    → timeout ≤ max s.job_timeout_seconds s.host_job_timeout_seconds
    → (timeout + s.job_lease_grace_seconds < worker_hard_time_limit_seconds s * second)
      × (worker_hard_time_limit_seconds s < broker_visibility_timeout_seconds s)
unfolding worker_hard_time_limit_seconds broker_visibility_timeout_seconds
limits_nested s timeout h = (omega arith, omega arith)
