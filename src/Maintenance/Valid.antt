-- ===== src/Maintenance/Valid.antt =====
-- The reconciler on a valid database: every expired lease it may touch becomes a retry or a failure.
use hilforge.Base.{
  ℕ, ◌<◌, ◌≡◌, ◌≢◌, refl, sym, ◌∙◌, Bool, true, not, none, some, List, [], ◌∷◌, map, arith,
  if◌then◌else◌, leb, ◌&&◌, Result, ok, All, All-imp, All-of_map, Distinct, Distinct-where,
  find_by-put_by_self, find_by-put_by_ne, Bool-cases, inl, inr, where_true, All-find_by_self,
  All-where_imp, Option,
}
use hilforge.Domain.Status.{JobStatus}
use hilforge.Domain.Rows.{TestJob, Db, find_job, put_device, job_id_of}
use hilforge.Config.{Settings}
use hilforge.Jobs.{enter}
use hilforge.Runs.Status.{recompute_run_status}
use hilforge.Invariant.Linked.{linked_device, linked_run}
use hilforge.Invariant.Attempts.{JobIsValid, Attempts-find}
use hilforge.Invariant.Valid.{IsValid, IsValid-move, IsValid-finish, moved_db}
use hilforge.Execution.Reported.{running-transition_job, released, released-id}
use hilforge.Maintenance.{
  has_expired, gave_up, rescheduled, recover, recover_all, dispatchable_ids,
  reconcile_dispatchable_jobs,
}

-- The status that a job with an expired lease is given.
abbrev pub recovered_status : Settings → TestJob → JobStatus
recovered_status settings job =
    if leb settings.job_max_attempts job.attempts then JobStatus.failed else JobStatus.retrying

failed_job : ℕ → TestJob → TestJob
unfolding gave_up enter
failed_job now job = gave_up (enter job JobStatus.failed now)

retried_job : ℕ → TestJob → TestJob
unfolding rescheduled enter
retried_job now job = rescheduled now (enter job JobStatus.retrying now)

failed_job-JobIsValid :
    (max now : ℕ) (job : TestJob)
    → job.status ≡ JobStatus.running
    → JobIsValid max job
    → JobIsValid max (failed_job now job)
unfolding failed_job
failed_job-JobIsValid max now job r v = ground arith

retried_job-JobIsValid :
    (max now : ℕ) (job : TestJob)
    → job.attempts < max
    → job.status ≡ JobStatus.running
    → JobIsValid max job
    → JobIsValid max (retried_job now job)
unfolding retried_job
retried_job-JobIsValid max now job l r v = ground arith

-- The time of the next attempt that a job with an expired lease is given.
abbrev pub recovered_attempt : Settings → ℕ → TestJob → Option ℕ
recovered_attempt settings now job =
    if leb settings.job_max_attempts job.attempts then none else some now

-- A job after the reconciler has recovered it.
abbrev pub Recovered : Settings → ℕ → Db → TestJob → Type 0
Recovered settings now db job =
    (job' : TestJob) × (find_job job.id db.jobs ≡ some job')
    × (job'.status ≡ recovered_status settings job)
    × (job'.attempts ≡ job.attempts)
    × (job'.lease_expires_at ≡ none)
    × (job'.next_attempt_at ≡ recovered_attempt settings now job)

abbrev pub IsHeld : Db → TestJob → Type 0
IsHeld db job = (find_job job.id db.jobs ≡ some job) × (job.status ≡ JobStatus.running)

expired_running :
    (now : ℕ) (j : TestJob) (b : Bool)
    → (has_expired now j && not b) ≡ true
    → j.status ≡ JobStatus.running
unfolding has_expired
expired_running now j b t = ground arith

-- What a round comes to.
abbrev Recovers : Settings → ℕ → TestJob → Db → Result Db → Type 0
Recovers settings now job db result =
    (db' : Db) × (result ≡ ok db')
    × IsValid settings.job_max_attempts db'
    × Recovered settings now db' job
    × ((k : ℕ) → k ≢ job.id → find_job k db'.jobs ≡ find_job k db.jobs)

module _ (settings : Settings) (now : ℕ) where
  recover-Recovers :
      (job : TestJob) {db : Db}
      → IsValid settings.job_max_attempts db
      → IsHeld db job
      → Recovers settings now job db (recover settings now job db)
  unfolding recover moved_db recompute_run_status failed_job retried_job released
  recover-Recovers job {db} v (f, r) =
      let (device, its_device) = linked_device v.linked job.id f in
      let (run, its_run) = linked_run v.linked job.id f in
      let valid = Attempts-find v.attempts job.id f in
      let device' = released settings now v job device run f r its_device its_run in
      elim (Bool-cases (leb settings.job_max_attempts job.attempts)) [
        | inl spent ↦ (
          moved_db (failed_job now job) run now (put_device device' db),
          rw (spent, recover)
              (rw
                (running-transition_job job JobStatus.failed now r (λ e. cc) (λ e. cc), its_device)
                (rw its_run)),
          IsValid-finish v job (failed_job now job) run now f (rw r refl) refl refl its_run
              (failed_job-JobIsValid _ now job r valid) device' refl
              (released-id settings now v job device run f r its_device its_run),
          (
            failed_job now job,
            find_by-put_by_self job_id_of job (failed_job now job) db.jobs f,
            rw spent,
            refl,
            refl,
            rw spent,
          ),
          λ k n. find_by-put_by_ne job_id_of k (failed_job now job) db.jobs n,
        )
        | inr left ↦ (
          moved_db (retried_job now job) run now db,
          rw (left, recover)
              (rw (running-transition_job job JobStatus.retrying now r (λ e. cc) (λ e. cc))
                (rw its_run)),
          IsValid-move v job (retried_job now job) run now f (rw r refl) refl refl its_run
              (retried_job-JobIsValid _ now job (ground arith) r valid) refl,
          (
            retried_job now job,
            find_by-put_by_self job_id_of job (retried_job now job) db.jobs f,
            rw left,
            refl,
            refl,
            rw left,
          ),
          λ k n. find_by-put_by_ne job_id_of k (retried_job now job) db.jobs n,
        )
      ]

  still-IsHeld :
      (job : TestJob) (jobs : List TestJob) (db db' : Db)
      → ((k : ℕ) → k ≢ job.id → find_job k db'.jobs ≡ find_job k db.jobs)
      → All (λ j. j.id ≢ job.id) jobs
      → All (IsHeld db) jobs
      → All (IsHeld db') jobs
  still-IsHeld job [] db db' same n h = tt
  still-IsHeld job (j ∷ jobs) db db' same n h =
      ((same j.id n.0 ∙ h.0.0, h.0.1), still-IsHeld job jobs db db' same n.1 h.1)

  recover_all-Recovered :
      (jobs : List TestJob) {db : Db}
      → IsValid settings.job_max_attempts db
      → Distinct (map job_id_of jobs)
      → All (IsHeld db) jobs
      → (db' : Db) × (recover_all settings now jobs db ≡ ok db')
        × IsValid settings.job_max_attempts db'
        × All (Recovered settings now db') jobs
        × ((k : ℕ) → All (λ j. j.id ≢ k) jobs → find_job k db'.jobs ≡ find_job k db.jobs)
  unfolding recover_all
  recover_all-Recovered [] {db} v d h = (db, refl, v, tt, λ k n. refl)
  recover_all-Recovered (job ∷ jobs) {db} v d h =
      let (db₁, e₁, v₁, (job', f, s, a, l, n), same₁) = recover-Recovers job v h.0 in
      let apart = All-of_map (λ m. m ≢ job.id) job_id_of jobs d.0 in
      let (db₂, e₂, v₂, rest, same₂) =
        recover_all-Recovered jobs v₁ d.1 (still-IsHeld job jobs db db₁ same₁ apart h.1) in
      (
        db₂,
        rw e₁ e₂,
        v₂,
        ((job', same₂ job.id apart ∙ f, s, a, l, n), rest),
        λ k n. same₂ k n.1 ∙ same₁ k (λ e. n.0 (sym e)),
      )

  -- The jobs that the first query selects.
  abbrev pub expired_jobs : (ℕ → Bool) → List TestJob → List TestJob
  expired_jobs locked = where_true (λ j. has_expired now j && not (locked j.id))

  pub expired-IsHeld :
      (locked : ℕ → Bool) {db : Db}
      → IsValid settings.job_max_attempts db
      → All (IsHeld db) (expired_jobs locked db.jobs)
  expired-IsHeld locked {db} v = All-where_imp (IsHeld db) _ db.jobs (
      All-imp _ _ db.jobs (λ j f t. (f, expired_running now j (locked j.id) t))
        (All-find_by_self job_id_of db.jobs v.attempts.distinct))

  -- On a valid database the reconciler returns, with a valid database. Every job whose lease has
  -- run out and that is not locked is then failed, if its attempts are used up, or else retrying,
  -- with its attempts as before and without a lease; a key that belongs to no such job has the same
  -- row afterwards. What is returned are the jobs that are dispatchable afterwards.
  pub reconcile-Recovered :
      (locked : ℕ → Bool) {db : Db}
      → IsValid settings.job_max_attempts db
      → (db' : Db) × (reconcile_dispatchable_jobs settings now locked db
          ≡ ok (dispatchable_ids now db'.jobs, db'))
        × IsValid settings.job_max_attempts db'
        × All (Recovered settings now db') (expired_jobs locked db.jobs)
        × ((k : ℕ)
            → All (λ j. j.id ≢ k) (expired_jobs locked db.jobs)
            → find_job k db'.jobs ≡ find_job k db.jobs)
  unfolding reconcile_dispatchable_jobs
  reconcile-Recovered locked {db} v =
      let (db', e, v', all, same) =
        recover_all-Recovered (expired_jobs locked db.jobs) v
          (Distinct-where job_id_of _ db.jobs v.attempts.distinct) (expired-IsHeld locked v) in
      (db', rw e, v', all, same)
