-- ===== src/Runs/Status.antt =====
-- `recompute_run_status` of services/runs.py: the status of a run follows from its jobs.
pub mod Laws
use hilforge.Base.{
  ℕ, Bool, true, false, Option, none, some, List, [], ◌∷◌, map, if◌then◌else◌, ◌==◌, not, ◌&&◌, any,
  all, where_true, is_none, Result, ok, err, ◌>>=◌, or_fail, test_run_not_found,
}
use hilforge.Domain.Status.{
  RunStatus, JobStatus, job_status_eq, terminal_job_statuses, active_job_statuses,
  terminal_run_statuses,
}
use hilforge.Domain.Rows.{TestRun, TestJob, Db, find_run, put_run}

-- `select(TestJob.status).where(TestJob.test_run_id == run_id)`.
unfoldable pub statuses_of : ℕ → List TestJob → List JobStatus
statuses_of run_id jobs = map (λ j. j.status) (where_true (λ j. j.test_run_id == run_id) jobs)

abbrev stamp : Option ℕ → ℕ → Option ℕ
stamp none now = some now
stamp (some at) now = some at

-- The branches after the query, on a run that is not terminal.
derive : List JobStatus → ℕ → TestRun → TestRun
derive [] now run = record run { status = RunStatus.queued }
derive (s ∷ ss) now run =
    let statuses = s ∷ ss in
    if any active_job_statuses statuses
    then (let has_started = any (λ t. not (job_status_eq t JobStatus.queued)) statuses in
        record run {
          status = if has_started then RunStatus.running else RunStatus.queued;
          started_at = if has_started then stamp run.started_at now else run.started_at;
          completed_at = none;
        })
    else if all terminal_job_statuses statuses
    then record run {
      status =
          if all (λ t. job_status_eq t JobStatus.passed) statuses
          then RunStatus.passed
          else RunStatus.failed;
      started_at = stamp run.started_at now;
      completed_at = stamp run.completed_at now;
    }
    else run

unfoldable pub recomputed : List JobStatus → ℕ → TestRun → TestRun
unfolding derive
recomputed statuses now run =
    if terminal_run_statuses run.status then run else derive statuses now run

-- The run as it is returned, and the database with it written back.
unfoldable pub recompute_run_status : ℕ → ℕ → Db → Result (TestRun × Db)
unfolding recomputed
recompute_run_status run_id now db = do
  run ← or_fail (find_run run_id db.runs) test_run_not_found
  let run' = recomputed (statuses_of run_id db.jobs) now run
  ok (run', put_run run' db)
