-- ===== src/Maintenance/Recovery.antt =====
-- Nothing is lost: what the reconciler does with a job that is waiting for it.
use hilforge.Base.{
  if◌then◌else◌, Distinct, ◌==◌, ℕ, ◌≤◌, ◌≡◌, ◌≢◌, ◌⊎◌, inl, inr, refl, sym, ap, ◌∙◌, subst, Bool,
  true, false, not, ◌&&◌, none, some, List, [], ◌∷◌, map, arith, find_by, where_true, order_by,
  insert_by, All, All-imp, All-where_imp, All-find_by_self, find_by-key, some-injective, Bool-cases,
  ok,
}
use hilforge.Domain.Status.{JobStatus, active_job_statuses}
use hilforge.Domain.Rows.{TestJob, Db, find_job, job_id_of}
use hilforge.Config.{Settings}
use hilforge.Runs.Create.{contains}
use hilforge.Maintenance.{
  has_expired, is_dispatchable, dispatchable_ids, reconcile_dispatchable_jobs,
}
use hilforge.Maintenance.Valid.{Recovered, reconcile-Recovered}
use hilforge.Execution.Claim.{is_due}
use hilforge.Invariant.Attempts.{Attempts-find, JobIsValid}
use hilforge.Invariant.Valid.{IsValid}

-- When the reconciler may do something with an active job: at the end of the lease of a running one,
-- at the time of the next attempt of a retrying one, and at once for a queued one.
abbrev pub wakes_at : TestJob → ℕ
wakes_at job = elim job.status [
  | JobStatus.running ↦ elim job.lease_expires_at [ none ↦ 0 | some at ↦ at ]
  | JobStatus.retrying ↦ elim job.next_attempt_at [ none ↦ 0 | some at ↦ at ]
  | _ ↦ 0
]

-- The query for dispatchable jobs and the guard of a claim ask the same.
pub is_dispatchable-is_due :
    (now : ℕ) (job : TestJob) → is_dispatchable now job ≡ is_due job.status job.next_attempt_at now
unfolding is_dispatchable is_due
is_dispatchable-is_due now job = ground arith

-- A row that a query may select is among those that it selects.
pub All-where_find {ℓ} :
    (P : TestJob → Type ℓ) (p : TestJob → Bool) (k : ℕ) (jobs : List TestJob) {job : TestJob}
    → All P (where_true p jobs)
    → find_job k jobs ≡ some job
    → p job ≡ true
    → P job
unfolding find_by
All-where_find P p k [] h f t = cc
All-where_find P p k (j ∷ jobs) {job} h f t = elim (Bool-cases (j.id == k)) [
  | inl same ↦
      let here : j ≡ job = ground (arith, same) in
      subst P here (first (p j) (subst (λ i. p i ≡ true) (sym here) t) h)
  | inr other ↦ All-where_find P p k jobs {job = job} (others (p j) h) (ground (arith, other)) t
]
  where
    first :
        (b : Bool) → b ≡ true → All P (if b then j ∷ where_true p jobs else where_true p jobs) → P j
    first true e h = h.0
    first false e h = cc

    others :
        (b : Bool)
        → All P (if b then j ∷ where_true p jobs else where_true p jobs)
        → All P (where_true p jobs)
    others true h = h.1
    others false h = h

-- A row that a query refuses is none of those that it selects.
where_misses :
    (p : TestJob → Bool) (k : ℕ) (jobs : List TestJob) {job : TestJob}
    → Distinct (map job_id_of jobs)
    → find_job k jobs ≡ some job
    → p job ≡ false
    → All (λ j. j.id ≢ k) (where_true p jobs)
where_misses p k jobs {job} d f n = All-where_imp _ p jobs (
    All-imp _ _ jobs
      (λ j self t e.
        let same : j ≡ job =
          some-injective j job (sym (subst (λ i. find_job i jobs ≡ some j) e self) ∙ f) in
        let kept : p job ≡ true = subst (λ i. p i ≡ true) same t in cc)
      (All-find_by_self job_id_of jobs d))

contains-insert_by :
    (le : TestJob → TestJob → Bool) (k : ℕ) (job : TestJob) (jobs : List TestJob)
    → contains k (map job_id_of (insert_by le job jobs)) ≡ contains k (job.id ∷ map job_id_of jobs)
unfolding insert_by
contains-insert_by le k job [] = refl
contains-insert_by le k job (j ∷ jobs) = ground (arith, contains-insert_by le k job jobs)

contains-order_by :
    (le : TestJob → TestJob → Bool) (k : ℕ) (jobs : List TestJob)
    → contains k (map job_id_of (order_by le jobs)) ≡ contains k (map job_id_of jobs)
unfolding order_by
contains-order_by le k [] = refl
contains-order_by le k (j ∷ jobs) =
    ground (arith, contains-insert_by le k j (order_by le jobs), contains-order_by le k jobs)

contains-where :
    (p : TestJob → Bool) (k : ℕ) (jobs : List TestJob) {job : TestJob}
    → find_job k jobs ≡ some job
    → p job ≡ true
    → contains k (map job_id_of (where_true p jobs)) ≡ true
unfolding find_by
contains-where p k [] f t = cc
contains-where p k (j ∷ jobs) {job} f t = ground (arith, contains-where p k jobs {job = job})

-- A dispatchable job is published.
published :
    (now k : ℕ) (jobs : List TestJob) {job : TestJob}
    → find_job k jobs ≡ some job
    → is_dispatchable now job ≡ true
    → contains k (dispatchable_ids now jobs) ≡ true
unfolding dispatchable_ids
published now k jobs f t =
    contains-order_by _ k (where_true (is_dispatchable now) jobs)
    ∙ contains-where (is_dispatchable now) k jobs f t

awake :
    (max now : ℕ) (job : TestJob)
    → JobIsValid max job
    → active_job_statuses job.status ≡ true
    → wakes_at job ≤ now
    → has_expired now job ≡ false
    → is_dispatchable now job ≡ true
unfolding has_expired is_dispatchable
awake max now job v a w e = ground arith

Recovered-is_dispatchable :
    (settings : Settings) (now : ℕ) (db : Db) (job : TestJob)
    → (r : Recovered settings now db job)
    → (r.0.status ≡ JobStatus.failed) ⊎ (is_dispatchable now r.0 ≡ true)
unfolding is_dispatchable
Recovered-is_dispatchable settings now db job (job', f, s, a, l, n) = ground arith

module _ (settings : Settings) (now : ℕ) (locked : ℕ → Bool) {db : Db}
    (v : IsValid settings.job_max_attempts db) (k : ℕ) {job : TestJob}
    (found : find_job k db.jobs ≡ some job) (active : active_job_statuses job.status ≡ true)
    (awakes : wakes_at job ≤ now) (free : locked k ≡ false) where
  -- Its row is free under its own key, too.
  unlocked : not (locked job.id) ≡ true
  unlocked = ap not (ap locked (find_by-key job_id_of k db.jobs found) ∙ free)

  -- An active job that is not locked, and whose lease or delay is over or which is queued, is failed
  -- or published.
  pub reconcile_loses_nothing :
      (ids : List ℕ) × (db' : Db) × (job' : TestJob) × (reconcile_dispatchable_jobs settings now
          locked db
        ≡ ok (ids, db'))
      × (find_job k db'.jobs ≡ some job')
      × ((job'.status ≡ JobStatus.failed) ⊎ (contains k ids ≡ true))
  reconcile_loses_nothing =
      let (db', e, v', all, same) = reconcile-Recovered settings now locked v in
      elim (Bool-cases (has_expired now job)) [
        | inl expired ↦
            let r =
              All-where_find (Recovered settings now db')
                (λ j. has_expired now j && not (locked j.id)) k db.jobs all found
                (rw (expired, unlocked) refl) in
            let f' : find_job k db'.jobs ≡ some r.0 =
              subst (λ i. find_job i db'.jobs ≡ some r.0) (find_by-key job_id_of k db.jobs found)
                r.1 in
            (
              dispatchable_ids now db'.jobs,
              db',
              r.0,
              e,
              f',
              elim (Recovered-is_dispatchable settings now db' job r) [
                | inl failed ↦ inl failed
                | inr due ↦ inr (published now k db'.jobs f' due)
              ],
            )
        | inr held ↦
            let f' =
              same k (
                where_misses (λ j. has_expired now j && not (locked j.id)) k db.jobs
                  v.attempts.distinct found (rw held refl))
              ∙ found in
            (
              dispatchable_ids now db'.jobs,
              db',
              job,
              e,
              f',
              inr (
                  published now k db'.jobs f' (
                    awake settings.job_max_attempts now job (Attempts-find v.attempts k found)
                      active awakes held)),
            )
      ]
