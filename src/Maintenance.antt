-- ===== src/Maintenance.antt =====
-- services/maintenance.py: liveness, and the reconciler that recovers expired leases and finds the
-- jobs that have to be published again.
pub mod Valid
pub mod Recovery
use hilforge.Base.{
  ℕ, ◌+◌, String, Bool, true, false, Option, none, some, List, [], ◌∷◌, map, if◌then◌else◌, leb,
  not, ◌&&◌, ◌||◌, where_true, order_by, Result, ok, err, ◌>>=◌, or_fail, attribute_error,
}
use hilforge.Domain.Status.{JobStatus, job_status_eq}
use hilforge.Domain.Rows.{TestJob, ErrorDetails, Db, find_device, put_device, put_job}
use hilforge.Config.{Settings}
use hilforge.Jobs.{transition_job}
use hilforge.Devices.{mark_stale_devices_offline, release_device}
use hilforge.Runs.Status.{recompute_run_status}

unfoldable pub maintain_device_liveness : Settings → ℕ → Db → ℕ × Db
maintain_device_liveness settings now db =
    mark_stale_devices_offline settings.heartbeat_timeout_seconds now db

-- The `WHERE` of the first query: a running job whose lease has run out.
unfoldable pub has_expired : ℕ → TestJob → Bool
has_expired now job =
    job_status_eq job.status JobStatus.running
    && elim job.lease_expires_at [ none ↦ false | some at ↦ leb at now ]

lease_expired_details : Option ErrorDetails
lease_expired_details =
    some (record { kind = "WorkerLeaseExpired"; retryable = true; retry_in_seconds = none })

-- What the branch of a job with no attempt left writes, after the transition.
unfoldable pub gave_up : TestJob → TestJob
unfolding lease_expired_details
gave_up job = record job {
  error_message = some "Worker lease expired after the final attempt";
  error_details = lease_expired_details;
}

unfoldable pub give_up : Settings → ℕ → TestJob → Db → Result Db
give_up settings now job db = do
  moved ← transition_job job JobStatus.failed now
  device ← or_fail (find_device job.device_id db.devices) attribute_error
  let device' = release_device device settings.heartbeat_timeout_seconds now
  ok (put_device device' (put_job (gave_up moved) db))

-- What the branch of a job that is scheduled again writes, after the transition.
unfoldable pub rescheduled : ℕ → TestJob → TestJob
unfolding lease_expired_details
rescheduled now job = record job {
  next_attempt_at = some now;
  lease_expires_at = none;
  error_message = some "Worker lease expired; scheduling another attempt";
  error_details = lease_expired_details;
}

unfoldable pub reschedule : ℕ → TestJob → Db → Result Db
reschedule now job db = do
  moved ← transition_job job JobStatus.retrying now
  ok (put_job (rescheduled now moved) db)

-- One round of the loop.
unfoldable pub recover : Settings → ℕ → TestJob → Db → Result Db
unfolding give_up reschedule
recover settings now job db = do
  db' ←
      (if leb settings.job_max_attempts job.attempts
        then give_up settings now job db
        else reschedule now job db)
  (run', db'') ← recompute_run_status job.test_run_id now db'
  ok db''

unfoldable pub recover_all : Settings → ℕ → List TestJob → Db → Result Db
recover_all settings now [] db = ok db
recover_all settings now (job ∷ jobs) db = do
  db' ← recover settings now job db
  recover_all settings now jobs db'

-- The `WHERE` of the second query.
unfoldable pub is_dispatchable : ℕ → TestJob → Bool
is_dispatchable now job =
    job_status_eq job.status JobStatus.queued
    || (job_status_eq job.status JobStatus.retrying
        && elim job.next_attempt_at [ none ↦ true | some at ↦ leb at now ])

unfoldable pub dispatchable_ids : ℕ → List TestJob → List ℕ
dispatchable_ids now jobs =
    map (λ j. j.id)
      (order_by (λ j k. leb j.created_at k.created_at) (where_true (is_dispatchable now) jobs))

-- `locked`: the job rows that other transactions hold, which `SKIP LOCKED` passes over.
unfoldable pub reconcile_dispatchable_jobs : Settings → ℕ → (ℕ → Bool) → Db → Result (List ℕ × Db)
unfolding recover_all dispatchable_ids
reconcile_dispatchable_jobs settings now locked db = do
  let expired = where_true (λ j. has_expired now j && not (locked j.id)) db.jobs
  db' ← recover_all settings now expired db
  ok (dispatchable_ids now db'.jobs, db')
