-- ===== src/Execution/Claimed.antt =====
-- What a claim does to a valid database.
use hilforge.Base.{
  ℕ, ◌+◌, ◌≤◌, ◌≡◌, ◌⊎◌, inl, inr, refl, sym, ◌∙◌, true, false, none, some, List, arith, subst, ok,
  find_by-put_by_self, find_by-put_by_ne, ◌≢◌, find_by-key, put_by, Option-cases, Bool-cases,
}
use hilforge.Domain.Status.{JobStatus, active_job_statuses}
use hilforge.Domain.Rows.{
  Device, TestSuite, TestRun, TestJob, Db, find_device, find_suite, find_run, find_job, run_id_of,
  job_id_of,
}
use hilforge.Config.{Settings}
use hilforge.Jobs.{transition_job, enter}
use hilforge.Runs.Status.{recompute_run_status, recomputed, statuses_of}
use hilforge.Invariant.Agrees.{recomputed-id}
use hilforge.Invariant.Linked.{linked_device, linked_run, linked_suite}
use hilforge.Invariant.Attempts.{JobIsValid, Attempts-find}
use hilforge.Invariant.Valid.{IsValid, IsValid-move, moved_db, recomputed-suite}
use hilforge.Execution.Claim.{ClaimedJob, claim, take_job, is_due, leased, claimed}

-- The job as a claim leaves it.
unfoldable pub running_job : Settings → Device → ℕ → ℕ → TestJob → TestJob
unfolding leased enter
running_job settings device task now job =
    leased settings device task now (enter job JobStatus.running now)

due-transition_job :
    (job : TestJob) (now : ℕ)
    → is_due job.status job.next_attempt_at now ≡ true
    → transition_job job JobStatus.running now ≡ ok (enter job JobStatus.running now)
unfolding transition_job is_due
due-transition_job job now h = ground arith

pub is_due-active :
    (job : TestJob) (now : ℕ)
    → is_due job.status job.next_attempt_at now ≡ true
    → active_job_statuses job.status ≡ true
unfolding is_due
is_due-active job now h = ground arith

running_job-JobIsValid :
    (settings : Settings) (device : Device) (task now : ℕ) (job : TestJob)
    → 1 ≤ settings.job_max_attempts
    → is_due job.status job.next_attempt_at now ≡ true
    → JobIsValid settings.job_max_attempts job
    → JobIsValid settings.job_max_attempts (running_job settings device task now job)
unfolding running_job is_due
running_job-JobIsValid settings device task now job m h v = ground arith

-- `recompute_run_status` finds its run, and writes it back.
pub recompute_run_status_ok :
    (run_id now : ℕ) (db : Db) {run : TestRun}
    → find_run run_id db.runs ≡ some run
    → let run' = recomputed (statuses_of run_id db.jobs) now run in
      recompute_run_status run_id now db
      ≡ ok (run', record db { runs = put_by run_id_of run' db.runs })
unfolding recompute_run_status
recompute_run_status_ok run_id now db f = rw f

-- The run that was written back is the one that is found.
find_recomputed :
    (r now : ℕ) (ss : List JobStatus) (runs : List TestRun) (run : TestRun)
    → find_run r runs ≡ some run
    → find_run r (put_by run_id_of (recomputed ss now run) runs) ≡ some (recomputed ss now run)
find_recomputed r now ss runs run f =
    let run' = recomputed ss now run in
    let e : run'.id ≡ r = recomputed-id ss now run ∙ find_by-key run_id_of r runs f in
    subst (λ k. find_run k runs ≡ some run → find_run k (put_by run_id_of run' runs) ≡ some run') e
      (find_by-put_by_self run_id_of run run' runs) f

module _ (settings : Settings) (task now : ℕ) {db : Db} (v : IsValid settings.job_max_attempts db)
    (job : TestJob) (device : Device) (run : TestRun) (suite : TestSuite)
    (found : find_job job.id db.jobs ≡ some job)
    (due : is_due job.status job.next_attempt_at now ≡ true)
    (its_device : find_device job.device_id db.devices ≡ some device)
    (its_run : find_run job.test_run_id db.runs ≡ some run)
    (its_suite : find_suite run.test_suite_id db.suites ≡ some suite) where
  take_job_ok : take_job settings task now job db ≡ (
      let job' = running_job settings device task now job in
      ok (some (claimed settings device suite job'), moved_db job' run now db))
  unfolding take_job moved_db running_job recompute_run_status
  take_job_ok =
      rw (due-transition_job job now due, its_device, its_run)
        (rw (
          find_recomputed job.test_run_id now _ db.runs run its_run,
          recomputed-suite _ now run,
          its_suite,
        ))

  running_job-IsValid :
      1 ≤ settings.job_max_attempts
      → IsValid settings.job_max_attempts
          (moved_db (running_job settings device task now job) run now db)
  unfolding running_job
  running_job-IsValid m =
      IsValid-move v job (running_job settings device task now job) run now found
        (is_due-active job now due) refl refl its_run
        (running_job-JobIsValid settings device task now job m due
          (Attempts-find v.attempts job.id found))
        refl

-- A claim that succeeds: `c` is what the worker is told, `db'` what is committed.
pub record Takes (settings : Settings) (job_id task now : ℕ) (db : Db) (c : ClaimedJob) (db' : Db)
    : Type 0 where
  pub job : TestJob
  pub found : find_job job_id db.jobs ≡ some job
  pub due : is_due job.status job.next_attempt_at now ≡ true
  pub job' : TestJob
  pub found' : find_job job_id db'.jobs ≡ some job'
  pub is_running : job'.status ≡ JobStatus.running
  pub owned : job'.worker_task_id ≡ some task
  pub counted : job'.attempts ≡ job.attempts + 1
  pub told_id : c.job_id ≡ job_id
  pub told_attempts : c.attempts ≡ job'.attempts
  pub leased_until :
      job'.lease_expires_at ≡ some (now + (c.timeout_seconds + settings.job_lease_grace_seconds))
  pub written : db'.jobs ≡ put_by job_id_of job' db.jobs

-- The other jobs stay.
pub others-Takes :
    (settings : Settings) (job_id task now : ℕ) (db : Db) (c : ClaimedJob) (db' : Db)
    → Takes settings job_id task now db c db'
    → (k : ℕ) → k ≢ job_id
    → find_job k db'.jobs ≡ find_job k db.jobs
others-Takes settings job_id task now db c db' t k n =
    let here : t.job'.id ≡ job_id = find_by-key job_id_of job_id db'.jobs t.found' in
    rw t.written (find_by-put_by_ne job_id_of k t.job' db.jobs (λ q. n (q ∙ here)))

-- Why a delivery is ignored: the job is unknown, active elsewhere, finished, or not due yet.
abbrev pub NotDue : ℕ → ℕ → Db → Type 0
NotDue job_id now db =
    (find_job job_id db.jobs ≡ none)
    ⊎ ((job : TestJob) × (find_job job_id db.jobs ≡ some job)
        × (is_due job.status job.next_attempt_at now ≡ false))

module _ (settings : Settings) (job_id task now : ℕ) {db : Db}
    (v : IsValid settings.job_max_attempts db) (m : 1 ≤ settings.job_max_attempts) where
  takes :
      (job : TestJob)
      → find_job job_id db.jobs ≡ some job
      → is_due job.status job.next_attempt_at now ≡ true
      → (c : ClaimedJob) × (db' : Db) × (take_job settings task now job db ≡ ok (some c, db'))
        × IsValid settings.job_max_attempts db'
        × Takes settings job_id task now db c db'
  unfolding running_job moved_db claimed
  takes job f due =
      let (device, its_device) = linked_device v.linked job_id f in
      let (run, its_run) = linked_run v.linked job_id f in
      let (suite, its_suite) = linked_suite v.linked job.test_run_id its_run in
      let e : job.id ≡ job_id = find_by-key job_id_of job_id db.jobs f in
      let f' : find_job job.id db.jobs ≡ some job =
        subst (λ k. find_job k db.jobs ≡ some job) (sym e) f in
      let job' = running_job settings device task now job in
      (
        claimed settings device suite job',
        moved_db job' run now db,
        take_job_ok settings task now v job device run suite f' due its_device its_run its_suite,
        running_job-IsValid settings task now v job device run suite f' due its_device its_run
            its_suite m,
        record {
          job = job;
          found = f;
          due = due;
          job' = job';
          found' =
              subst (λ k. find_job k (put_by job_id_of job' db.jobs) ≡ some job') e
                (find_by-put_by_self job_id_of job job' db.jobs f');
          is_running = refl;
          owned = refl;
          counted = refl;
          told_id = e;
          told_attempts = refl;
          leased_until = refl;
          written = refl;
        },
      )

  -- On a valid database, with at least one attempt allowed, a claim returns. Either the job is
  -- unknown or not due, and nothing changes; or it is due and becomes running under the task, with
  -- one attempt more and a lease for the timeout and the grace, no other job is written, and the
  -- database stays valid.
  pub claim-Takes :
      ((claim settings job_id task now db ≡ ok (none, db)) × NotDue job_id now db)
      ⊎ ((c : ClaimedJob) × (db' : Db) × (claim settings job_id task now db ≡ ok (some c, db'))
          × IsValid settings.job_max_attempts db'
          × Takes settings job_id task now db c db')
  unfolding claim
  claim-Takes = elim (Option-cases (find_job job_id db.jobs)) [
    | inl absent ↦ inl (rw (absent, claim), inl absent)
    | inr (job, f) ↦ elim (Bool-cases (is_due job.status job.next_attempt_at now)) [
      | inl due ↦
          let (c, db', e, valid, t) = takes job f due in
          inr (c, db', rw (f, claim) (rw due e), valid, t)
      | inr early ↦ inl (rw (f, claim) (rw early), inr (job, f, early))
    ]
  ]
