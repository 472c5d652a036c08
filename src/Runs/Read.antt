-- ===== src/Runs/Read.antt =====
-- The read side of services/runs.py: counts, the read models, and the listing of runs.
use hilforge.Base.{
  ℕ, String, Option, List, ◌==◌, leb, length, count_where, where_true, take, order_by, Result, ok,
  ◌>>=◌, or_fail, test_run_not_found, attribute_error,
}
use hilforge.Domain.Json.{Json}
use hilforge.Domain.Status.{RunStatus, JobStatus, job_status_eq}
use hilforge.Domain.Rows.{
  TestRun, TestJob, RunSource, ErrorDetails, Db, find_run, find_suite, find_device,
}

-- `RunCounts`, `TestRunRead` and `TestJobRead` of schemas/api.py.
pub record RunCounts : Type 0 where
  pub total : ℕ
  pub queued : ℕ
  pub running : ℕ
  pub retrying : ℕ
  pub passed : ℕ
  pub failed : ℕ
  pub timed_out : ℕ

pub record TestRunRead : Type 0 where
  pub id : ℕ
  pub test_suite_id : ℕ
  pub test_suite_name : String
  pub status : RunStatus
  pub created_at : ℕ
  pub started_at : Option ℕ
  pub completed_at : Option ℕ
  pub counts : RunCounts
  pub source : Option RunSource

pub record TestJobRead : Type 0 where
  pub id : ℕ
  pub test_run_id : ℕ
  pub device_id : ℕ
  pub device_name : String
  pub status : JobStatus
  pub attempts : ℕ
  pub result : Option Json
  pub logs : Option (List String)
  pub error_message : Option String
  pub error_details : Option ErrorDetails
  pub created_at : ℕ
  pub started_at : Option ℕ
  pub completed_at : Option ℕ
  pub execution_duration : Option ℕ

-- `Counter(job.status for job in jobs)[status]`.
abbrev count_status : JobStatus → List TestJob → ℕ
count_status s = count_where (λ j. job_status_eq j.status s)

unfoldable pub run_counts : List TestJob → RunCounts
run_counts jobs = record {
  total = length jobs;
  queued = count_status JobStatus.queued jobs;
  running = count_status JobStatus.running jobs;
  retrying = count_status JobStatus.retrying jobs;
  passed = count_status JobStatus.passed jobs;
  failed = count_status JobStatus.failed jobs;
  timed_out = count_status JobStatus.timed_out jobs;
}

-- The relationship `TestRun.jobs`.
abbrev pub jobs_of : ℕ → List TestJob → List TestJob
jobs_of run_id = where_true (λ j. j.test_run_id == run_id)

unfoldable pub load_run : ℕ → Db → Result TestRun
load_run run_id db = or_fail (find_run run_id db.runs) test_run_not_found

-- Newest first; `LIMIT`.
unfoldable pub list_runs : ℕ → Db → List TestRun
list_runs limit db = take limit (order_by (λ r s. leb s.created_at r.created_at) db.runs)

unfoldable pub run_read_model : Db → TestRun → Result TestRunRead
unfolding run_counts
run_read_model db run = do
  suite ← or_fail (find_suite run.test_suite_id db.suites) attribute_error
  ok (record {
    id = run.id;
    test_suite_id = run.test_suite_id;
    test_suite_name = suite.name;
    status = run.status;
    created_at = run.created_at;
    started_at = run.started_at;
    completed_at = run.completed_at;
    counts = run_counts (jobs_of run.id db.jobs);
    source = run.source;
  })

unfoldable pub job_read_model : Db → TestJob → Result TestJobRead
job_read_model db job = do
  device ← or_fail (find_device job.device_id db.devices) attribute_error
  ok (record {
    id = job.id;
    test_run_id = job.test_run_id;
    device_id = job.device_id;
    device_name = device.name;
    status = job.status;
    attempts = job.attempts;
    result = job.result;
    logs = job.logs;
    error_message = job.error_message;
    error_details = job.error_details;
    created_at = job.created_at;
    started_at = job.started_at;
    completed_at = job.completed_at;
    execution_duration = job.execution_duration;
  })
