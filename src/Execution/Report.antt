-- ===== src/Execution/Report.antt =====
-- The transactions of `JobExecutor` that record an outcome: `_owns_running_attempt`, `_finish`, and
-- `_handle_retryable_failure`.
use hilforge.Base.{
  ℕ, ◌+◌, ◌-◌, ◌*◌, ◌^◌, min, String, Bool, true, false, Option, none, some, List, if◌then◌else◌,
  ◌==◌, ◌&&◌, Result, ok, ◌>>=◌, or_fail, attribute_error,
}
use hilforge.Domain.Json.{Json}
use hilforge.Domain.Status.{JobStatus, job_status_eq}
use hilforge.Domain.Rows.{TestJob, ErrorDetails, Db, find_device, find_job, put_device, put_job}
use hilforge.Config.{Settings}
use hilforge.Jobs.{transition_job}
use hilforge.Devices.{release_device}
use hilforge.Runs.Status.{recompute_run_status}
use hilforge.Execution.Claim.{ClaimedJob}

-- What `_finish` is told, beside the job, the task and the target.
pub record Outcome : Type 0 where
  pub elapsed : ℕ
  pub result : Option Json
  pub logs : Option (List String)
  pub error_message : Option String
  pub error_details : Option ErrorDetails

-- The job is given as the query found it.
unfoldable pub owns_running_attempt : TestJob → ℕ → Bool
owns_running_attempt job worker_task_id =
    job_status_eq job.status JobStatus.running
    && elim job.worker_task_id [ none ↦ false | some task ↦ task == worker_task_id ]

unfoldable pub with_outcome : Outcome → TestJob → TestJob
with_outcome outcome job = record job {
  result = outcome.result;
  logs = outcome.logs;
  error_message = outcome.error_message;
  error_details = outcome.error_details;
  execution_duration = some outcome.elapsed;
}

-- What `_finish` does to a job that the worker owns.
unfoldable pub finish_owned : Settings → ℕ → JobStatus → Outcome → TestJob → Db → Result Db
finish_owned settings now target outcome job db = do
  moved ← transition_job job target now
  let job' = with_outcome outcome moved
  device ← or_fail (find_device job.device_id db.devices) attribute_error
  let device' = release_device device settings.heartbeat_timeout_seconds now
  (run', db') ← recompute_run_status job.test_run_id now (put_device device' (put_job job' db))
  ok db'

unfoldable pub finish : Settings → ℕ → ℕ → ℕ → JobStatus → Outcome → Db → Result Db
unfolding finish_owned
finish settings job_id worker_task_id now target outcome db = elim (find_job job_id db.jobs) [
  | none ↦ ok db
  | some job ↦
      if owns_running_attempt job worker_task_id
      then finish_owned settings now target outcome job db
      else ok db
]

-- `retry_backoff_seconds * 2 ** (attempts - 1)`, capped. An attempt that was claimed has a number of
-- at least 1.
unfoldable pub retry_delay : Settings → ℕ → ℕ
retry_delay settings attempts =
    min (settings.retry_backoff_seconds * 2 ^ (attempts - 1)) settings.retry_backoff_max_seconds

-- An exception as the handlers see it: `type(exc).__name__` and `str(exc)`.
pub record Failure : Type 0 where
  pub kind : String
  pub message : String

unfoldable pub postponed : ℕ → ℕ → Failure → ℕ → TestJob → TestJob
postponed now delay error elapsed job = record job {
  next_attempt_at = some (now + delay);
  lease_expires_at = none;
  error_message = some error.message;
  error_details =
      some (record { kind = error.kind; retryable = true; retry_in_seconds = some delay });
  execution_duration = some elapsed;
}

unfoldable pub retry_owned : Settings → ℕ → ℕ → Failure → ℕ → TestJob → Db → Result Db
retry_owned settings now delay error elapsed job db = do
  moved ← transition_job job JobStatus.retrying now
  let job' = postponed now delay error elapsed moved
  (run', db') ← recompute_run_status job.test_run_id now (put_job job' db)
  ok db'

-- The second half of `_handle_retryable_failure`: whether the job was postponed, and the database.
unfoldable pub retry : Settings → ClaimedJob → ℕ → ℕ → Failure → ℕ → Db → Result (Bool × Db)
unfolding retry_owned
retry settings claim worker_task_id now error elapsed db = elim (find_job claim.job_id db.jobs) [
  | none ↦ ok (false, db)
  | some job ↦
      if owns_running_attempt job worker_task_id
      then (do
        db' ← retry_owned settings now (retry_delay settings claim.attempts) error elapsed job db
        ok (true, db'))
      else ok (false, db)
]
