-- ===== src/System/Promises.antt =====
-- The promises of the control plane, for every state that it can reach from an empty database.
use hilforge.Base.{
  ◌⊎◌, is_some, All, All-imp, ℕ, suc, ◌≤◌, ◌≡◌, inl, inr, subst, Bool, true, Option, none, some,
  List, arith, ok, All-find_by, find_by-key, false,
}
use hilforge.Domain.Status.{online, JobStatus, active_job_statuses}
use hilforge.Domain.Rows.{
  Device, TestSuite, TestRun, TestJob, Db, find_device, find_run, find_job, device_id_of, run_id_of,
}
use hilforge.Config.{Settings, accepts}
use hilforge.Runs.Status.{statuses_of}
use hilforge.Execution.Claim.{ClaimedJob, claim}
use hilforge.Execution.Execute.{Reply, Report, report}
use hilforge.Execution.Ends.{report-Ends}
use hilforge.Execution.Claimed.{claim-Takes}
use hilforge.Maintenance.{reconcile_dispatchable_jobs}
use hilforge.Maintenance.Valid.{reconcile-Recovered}
use hilforge.Invariant.Reserved.{active_count, IsFree}
use hilforge.Invariant.Agrees.{run_status_of}
use hilforge.Invariant.Attempts.{Attempts-find}
use hilforge.Maintenance.Recovery.{wakes_at, reconcile_loses_nothing}
use hilforge.Runs.Create.{contains}
use hilforge.System.{System, Reach, start}
use hilforge.System.Safety.{IsSafe, accepted_attempts, Reach-IsSafe}

pub start-IsSafe : (settings : Settings) (suites : List TestSuite) → IsSafe settings (start suites)
unfolding start active_count
start-IsSafe settings suites = record {
  valid = record {
    reserved = record { distinct = tt; once = λ d. omega arith; free = tt };
    agrees = record { distinct = tt; each = tt };
    linked = record { jobs = tt; runs = tt };
    attempts = record { distinct = tt; each = tt };
  };
  known = tt;
}

module _ (settings : Settings) (accepted : accepts settings ≡ true) (suites : List TestSuite)
    {s : System} (reached : Reach settings (start suites) s) where
  pub safe : IsSafe settings s
  safe = Reach-IsSafe settings accepted (start-IsSafe settings suites) reached

  -- With settings that pass their validation, in every state that the control plane can reach from
  -- an empty database with some suites, a device has at most one active job.
  pub never_double_booked : (device_id : ℕ) → active_count device_id s.db.jobs ≤ 1
  never_double_booked = safe.valid.reserved.once

  -- With settings that pass their validation, in every state that the control plane can reach from
  -- an empty database with some suites, a device that is found and online has no active job.
  pub online_is_free :
      (device_id : ℕ) {device : Device}
      → find_device device_id s.db.devices ≡ some device
      → device.status ≡ online
      → active_count device_id s.db.jobs ≡ 0
  online_is_free device_id {device} f on =
      subst (λ k. active_count k s.db.jobs ≡ 0) (find_by-key device_id_of device_id s.db.devices f)
        (All-find_by device_id_of (IsFree s.db.jobs) device_id s.db.devices safe.valid.reserved.free
          f on)

  -- With settings that pass their validation, in every state that the control plane can reach from
  -- an empty database with some suites, a job that is found has been attempted at most
  -- `job_max_attempts` times.
  pub attempts_bounded :
      (job_id : ℕ) {job : TestJob}
      → find_job job_id s.db.jobs ≡ some job
      → job.attempts ≤ settings.job_max_attempts
  attempts_bounded job_id f = (Attempts-find safe.valid.attempts job_id f).bounded

  -- With settings that pass their validation, in every state that the control plane can reach from
  -- an empty database with some suites, a job that is found and waits for a retry has an attempt
  -- left.
  pub retrying_has_attempt_left :
      (job_id : ℕ) {job : TestJob}
      → find_job job_id s.db.jobs ≡ some job
      → job.status ≡ JobStatus.retrying
      → suc job.attempts ≤ settings.job_max_attempts
  retrying_has_attempt_left job_id f = (Attempts-find safe.valid.attempts job_id f).retry_left

  -- With settings that pass their validation, in every state that the control plane can reach from
  -- an empty database with some suites, a job that is found and running has a lease and the task
  -- that holds it.
  pub running_is_leased :
      (job_id : ℕ) {job : TestJob}
      → find_job job_id s.db.jobs ≡ some job
      → job.status ≡ JobStatus.running
      → (is_some job.lease_expires_at ≡ true) × (is_some job.worker_task_id ≡ true)
  running_is_leased job_id f = (Attempts-find safe.valid.attempts job_id f).lease

  -- With settings that pass their validation, in every state that the control plane can reach from
  -- an empty database with some suites, the reconciler returns, and an active job that is not
  -- locked, and whose lease or delay is over at that time or which is queued, is then failed or
  -- among the jobs that are returned to be published.
  pub nothing_is_lost :
      (now : ℕ) (locked : ℕ → Bool) (job_id : ℕ) {job : TestJob}
      → find_job job_id s.db.jobs ≡ some job
      → active_job_statuses job.status ≡ true
      → wakes_at job ≤ now
      → locked job_id ≡ false
      → (ids : List ℕ) × (db' : Db) × (job' : TestJob) × (reconcile_dispatchable_jobs settings now
            locked s.db
          ≡ ok (ids, db'))
        × (find_job job_id db'.jobs ≡ some job')
        × ((job'.status ≡ JobStatus.failed) ⊎ (contains job_id ids ≡ true))
  nothing_is_lost now locked job_id f a w u =
      reconcile_loses_nothing settings now locked safe.valid job_id f a w u

  -- With settings that pass their validation, in every state that the control plane can reach from
  -- an empty database with some suites, a run that is found has the status that its jobs' statuses
  -- give: queued if all are queued, else running if one is active, else passed if all passed, else
  -- failed.
  pub run_status_derived :
      (run_id : ℕ) {run : TestRun}
      → find_run run_id s.db.runs ≡ some run
      → run.status ≡ run_status_of (statuses_of run_id s.db.jobs)
  run_status_derived run_id {run} f =
      subst (λ k. run.status ≡ run_status_of (statuses_of k s.db.jobs))
        (find_by-key run_id_of run_id s.db.runs f)
        (All-find_by run_id_of (λ r. r.status ≡ run_status_of (statuses_of r.id s.db.jobs)) run_id
          s.db.runs safe.valid.agrees.each f)

  -- With settings that pass their validation, in every state that the control plane can reach from
  -- an empty database with some suites, claiming any job, reconciling, and the report of any reply
  -- by any worker that is at work return without an exception.
  pub never_raises :
      (job_id task now elapsed : ℕ) (locked : ℕ → Bool) (reply : Reply)
      → ((c : Option ClaimedJob) × (db' : Db) × (claim settings job_id task now s.db ≡ ok (c, db')))
        × ((ids : List ℕ) × (db' : Db) × (reconcile_dispatchable_jobs settings now locked s.db
              ≡ ok (ids, db')))
        × All
            (λ f. (r : Report) × (report settings f.claim f.task now elapsed reply s.db ≡ ok r))
            s.flights
  never_raises job_id task now elapsed locked reply =
      let (db₂, e₂, v₂, a₂, b₂) = reconcile-Recovered settings now locked safe.valid in
      (
        elim (claim-Takes settings job_id task now safe.valid
            (accepted_attempts settings accepted)) [
              | inl (e, n) ↦ (none, s.db, e)
              | inr (c, db', e, v, t) ↦ (some c, db', e)
            ],
        (_, db₂, e₂),
        All-imp _ _ s.flights
            (λ f known.
              let (r, e, v, how) =
                report-Ends settings f.task now safe.valid f.claim elapsed reply known in
              (r, e))
            safe.known,
      )
