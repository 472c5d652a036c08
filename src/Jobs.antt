-- ===== src/Jobs.antt =====
-- services/jobs.py: the one place where a job changes its status.
pub mod Lifecycle
use hilforge.Base.{
  ℕ, Bool, true, false, Option, none, some, ◌&&◌, if◌then◌else◌, is_none, Result, ok, err,
  invalid_job_transition,
}
use hilforge.Domain.Status.{JobStatus, job_status_eq, terminal_job_statuses}
use hilforge.Domain.Rows.{TestJob}

-- `target in _ALLOWED_TRANSITIONS[status]`.
unfoldable pub allowed_transitions : JobStatus → JobStatus → Bool
allowed_transitions JobStatus.queued JobStatus.running = true
allowed_transitions JobStatus.running JobStatus.retrying = true
allowed_transitions JobStatus.running JobStatus.passed = true
allowed_transitions JobStatus.running JobStatus.failed = true
allowed_transitions JobStatus.running JobStatus.timed_out = true
allowed_transitions JobStatus.retrying JobStatus.running = true
allowed_transitions _ _ = false

-- What entering a status does to the timestamps.
unfoldable pub enter : TestJob → JobStatus → ℕ → TestJob
enter job JobStatus.running now = record job {
  status = JobStatus.running;
  started_at = if is_none job.started_at then some now else job.started_at;
  completed_at = none;
}
enter job JobStatus.retrying now = record job { status = JobStatus.retrying; completed_at = none }
enter job target now =
    if terminal_job_statuses target
    then record job {
      status = target;
      completed_at = some now;
      lease_expires_at = none;
      next_attempt_at = none;
    }
    else record job { status = target }

unfoldable pub transition_job : TestJob → JobStatus → ℕ → Result TestJob
unfolding allowed_transitions enter
transition_job job target now =
    if job_status_eq job.status target
    then ok job
    else if allowed_transitions job.status target
    then ok (enter job target now)
    else err invalid_job_transition
