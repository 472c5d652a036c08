-- ===== src/Execution/Settled.antt =====
-- The two transactions that report an attempt, `_finish` and the postponement of
-- `_handle_retryable_failure`.
use hilforge.Base.{
  ℕ, ◌<◌, ◌≡◌, ◌≢◌, ◌⊎◌, inl, inr, refl, sym, ◌∙◌, true, false, none, some, arith, subst, ok,
  find_by-put_by_self, find_by-put_by_ne, find_by-key, put_by, Option-cases, Bool-cases,
}
use hilforge.Domain.Status.{JobStatus, terminal_job_statuses}
use hilforge.Domain.Rows.{TestJob, Db, find_job, put_device, job_id_of}
use hilforge.Config.{Settings}
use hilforge.Invariant.Linked.{linked_device, linked_run}
use hilforge.Invariant.Valid.{IsValid, moved_db}
use hilforge.Execution.Claim.{ClaimedJob}
use hilforge.Execution.Report.{Outcome, Failure, owns_running_attempt, finish, retry, retry_delay}
use hilforge.Execution.Reported.{
  owns_iff, finished_job, finished_job-Keeps, Keeps, retrying_job, released, finish_owned_ok,
  finished-IsValid, retry_owned_ok, retrying-IsValid,
}

-- The task does not hold a running attempt of the job.
abbrev pub NotOwned : ℕ → ℕ → Db → Type 0
NotOwned job_id task db =
    (find_job job_id db.jobs ≡ none)
    ⊎ ((job : TestJob) × (find_job job_id db.jobs ≡ some job)
        × (owns_running_attempt job task ≡ false))

-- The running attempt that the task holds is moved to a status, and no other job is written.
pub record Settles (job_id task : ℕ) (status : JobStatus) (db db' : Db) : Type 0 where
  pub job : TestJob
  pub found : find_job job_id db.jobs ≡ some job
  pub owned : (job.status ≡ JobStatus.running) × (job.worker_task_id ≡ some task)
  pub job' : TestJob
  pub found' : find_job job_id db'.jobs ≡ some job'
  pub settled : job'.status ≡ status
  pub keeps : Keeps job job'
  pub written : db'.jobs ≡ put_by job_id_of job' db.jobs

-- The other jobs stay.
pub others-Settles :
    (job_id task : ℕ) (status : JobStatus) (db db' : Db)
    → Settles job_id task status db db'
    → (k : ℕ) → k ≢ job_id
    → find_job k db'.jobs ≡ find_job k db.jobs
others-Settles job_id task status db db' s k n =
    let here : s.job'.id ≡ job_id = find_by-key job_id_of job_id db'.jobs s.found' in
    rw s.written (find_by-put_by_ne job_id_of k s.job' db.jobs (λ q. n (q ∙ here)))

settles :
    (job_id task : ℕ) (status : JobStatus) (db : Db) (job job' : TestJob) (db' : Db)
    → find_job job_id db.jobs ≡ some job
    → owns_running_attempt job task ≡ true
    → job'.status ≡ status
    → Keeps job job'
    → db'.jobs ≡ put_by job_id_of job' db.jobs
    → Settles job_id task status db db'
settles job_id task status db job job' db' f o s k e =
    let here : job'.id ≡ job_id = k.same_id ∙ find_by-key job_id_of job_id db.jobs f in
    record {
      job = job;
      found = f;
      owned = owns_iff job task o;
      job' = job';
      found' = rw e (
          subst
            (λ i.
              find_job i db.jobs ≡ some job
              → find_job i (put_by job_id_of job' db.jobs) ≡ some job')
            here (find_by-put_by_self job_id_of job job' db.jobs) f);
      settled = s;
      keeps = k;
      written = e;
    }

module _ (settings : Settings) (task now : ℕ) {db : Db}
    (v : IsValid settings.job_max_attempts db) where
  -- `_finish` raises nothing: it ends the attempt that the task holds, or changes nothing.
  pub finish-Settles :
      (job_id : ℕ) (target : JobStatus) (outcome : Outcome)
      → terminal_job_statuses target ≡ true
      → ((finish settings job_id task now target outcome db ≡ ok db) × NotOwned job_id task db)
        ⊎ ((db' : Db) × (finish settings job_id task now target outcome db ≡ ok db')
            × IsValid settings.job_max_attempts db'
            × Settles job_id task target db db')
  unfolding finish moved_db
  finish-Settles job_id target outcome t = elim (Option-cases (find_job job_id db.jobs)) [
    | inl absent ↦ inl (rw (absent, finish), inl absent)
    | inr (job, f) ↦ elim (Bool-cases (owns_running_attempt job task)) [
      | inr other ↦ inl (rw (f, finish) (rw other), inr (job, f, other))
      | inl mine ↦
          let (device, its_device) = linked_device v.linked job_id f in
          let (run, its_run) = linked_run v.linked job_id f in
          let f' : find_job job.id db.jobs ≡ some job =
            subst (λ k. find_job k db.jobs ≡ some job)
              (sym (find_by-key job_id_of job_id db.jobs f)) f in
          let r = (owns_iff job task mine).0 in
          let k = finished_job-Keeps outcome target now job t in
          let db' =
            moved_db (finished_job outcome target now job) run now
              (put_device (released settings now v job device run f' r its_device its_run) db) in
          inr (
            db',
            rw (f, finish)
                (rw mine (
                  finish_owned_ok settings now v job device run f' r its_device its_run target
                    outcome t)),
            finished-IsValid settings now v job device run f' r its_device its_run target outcome t,
            settles job_id task target db job (finished_job outcome target now job) db' f mine k.1
                k.0 refl,
          )
    ]
  ]

  -- The postponement raises nothing: it postpones the attempt that the task holds, if there is one
  -- and an attempt is left, or changes nothing.
  pub retry-Settles :
      (c : ClaimedJob) (error : Failure) (elapsed : ℕ)
      → ((job : TestJob)
          → find_job c.job_id db.jobs ≡ some job
          → owns_running_attempt job task ≡ true
          → job.attempts ≡ c.attempts)
      → c.attempts < settings.job_max_attempts
      → ((retry settings c task now error elapsed db ≡ ok (false, db)) × NotOwned c.job_id task db)
        ⊎ ((db' : Db) × (retry settings c task now error elapsed db ≡ ok (true, db'))
            × IsValid settings.job_max_attempts db'
            × Settles c.job_id task JobStatus.retrying db db')
  unfolding retry moved_db retrying_job
  retry-Settles c error elapsed current l = elim (Option-cases (find_job c.job_id db.jobs)) [
    | inl absent ↦ inl (rw (absent, retry), inl absent)
    | inr (job, f) ↦ elim (Bool-cases (owns_running_attempt job task)) [
      | inr other ↦ inl (rw (f, retry) (rw other), inr (job, f, other))
      | inl mine ↦
          let (device, its_device) = linked_device v.linked c.job_id f in
          let (run, its_run) = linked_run v.linked c.job_id f in
          let f' : find_job job.id db.jobs ≡ some job =
            subst (λ k. find_job k db.jobs ≡ some job)
              (sym (find_by-key job_id_of c.job_id db.jobs f)) f in
          let r = (owns_iff job task mine).0 in
          let delay = retry_delay settings c.attempts in
          let job' = retrying_job now delay error elapsed job in
          let db' = moved_db job' run now db in
          inr (
            db',
            rw (f, retry)
                (rw mine (
                  rw (
                    retry_owned_ok settings now v job device run f' r its_device its_run delay error
                      elapsed))),
            retrying-IsValid settings now v job device run f' r its_device its_run delay error
                elapsed (omega (arith, current job f mine)),
            settles c.job_id task JobStatus.retrying db job job' db' f mine refl
                (record {
                  same_id = refl;
                  same_device = refl;
                  same_run = refl;
                  same_attempts = refl;
                })
                refl,
          )
    ]
  ]
