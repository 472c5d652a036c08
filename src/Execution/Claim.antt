-- ===== src/Execution/Claim.antt =====
-- `JobExecutor._claim`: one transaction that takes a job for an attempt.
use hilforge.Base.{
  ℕ, ◌+◌, String, Bool, true, false, Option, none, some, if◌then◌else◌, ltb, str_eq, not, Result,
  ok, ◌>>=◌, or_fail, attribute_error,
}
use hilforge.Domain.Json.{Json}
use hilforge.Domain.Status.{JobStatus}
use hilforge.Domain.Rows.{
  Device, TestSuite, TestJob, Db, find_device, find_suite, find_run, find_job, put_job,
}
use hilforge.Config.{Settings}
use hilforge.Jobs.{transition_job}
use hilforge.Runs.Status.{recompute_run_status}

pub record ClaimedJob : Type 0 where
  pub job_id : ℕ
  pub run_id : ℕ
  pub endpoint_url : String
  pub suite_slug : String
  pub suite_definition : Json
  pub attempts : ℕ
  pub timeout_seconds : ℕ

-- The early returns: only a queued job, or a retrying one whose time has come, is claimed.
unfoldable pub is_due : JobStatus → Option ℕ → ℕ → Bool
is_due JobStatus.queued next_attempt_at now = true
is_due JobStatus.retrying none now = true
is_due JobStatus.retrying (some next_attempt) now = not (ltb now next_attempt)
is_due _ next_attempt_at now = false

unfoldable pub timeout_for : Settings → Device → ℕ
timeout_for settings device =
    if str_eq device.device_type "windows-host"
    then settings.host_job_timeout_seconds
    else settings.job_timeout_seconds

-- The job as the claim leaves it, after its transition to running.
unfoldable pub leased : Settings → Device → ℕ → ℕ → TestJob → TestJob
unfolding timeout_for
leased settings device worker_task_id now job = record job {
  attempts = job.attempts + 1;
  next_attempt_at = none;
  lease_expires_at = some (now + (timeout_for settings device + settings.job_lease_grace_seconds));
  worker_task_id = some worker_task_id;
}

unfoldable pub claimed : Settings → Device → TestSuite → TestJob → ClaimedJob
unfolding timeout_for
claimed settings device suite job = record {
  job_id = job.id;
  run_id = job.test_run_id;
  endpoint_url = device.endpoint_url;
  suite_slug = suite.slug;
  suite_definition = suite.definition;
  attempts = job.attempts;
  timeout_seconds = timeout_for settings device;
}

-- The part after the early returns, for the job that the query found.
unfoldable pub take_job : Settings → ℕ → ℕ → TestJob → Db → Result (Option ClaimedJob × Db)
take_job settings worker_task_id now job db = do
  moved ← transition_job job JobStatus.running now
  device ← or_fail (find_device job.device_id db.devices) attribute_error
  let job' = leased settings device worker_task_id now moved
  (run', db') ← recompute_run_status job'.test_run_id now (put_job job' db)
  run ← or_fail (find_run job'.test_run_id db'.runs) attribute_error
  suite ← or_fail (find_suite run.test_suite_id db'.suites) attribute_error
  ok (some (claimed settings device suite job'), db')

unfoldable pub claim : Settings → ℕ → ℕ → ℕ → Db → Result (Option ClaimedJob × Db)
unfolding take_job
claim settings job_id worker_task_id now db = elim (find_job job_id db.jobs) [
  | none ↦ ok (none, db)
  | some job ↦
      if is_due job.status job.next_attempt_at now
      then take_job settings worker_task_id now job db
      else ok (none, db)
]
