-- ===== src/System/Flights.antt =====
-- A worker in flight knows the attempt count of the job it holds, whatever the others do meanwhile.
use hilforge.Base.{
  ℕ, ◌≡◌, ◌≢◌, ◌⊎◌, inl, inr, sym, ap, ◌∙◌, true, some, List, [], ◌∷◌, ◌++◌, arith, subst, All,
  find_by, ℕ_discrete, some-injective,
}
use hilforge.Domain.Status.{JobStatus}
use hilforge.Domain.Rows.{TestJob, Db, find_job}
use hilforge.Config.{Settings}
use hilforge.Execution.Claim.{ClaimedJob}
use hilforge.Execution.Report.{owns_running_attempt}
use hilforge.Execution.Claimed.{others-Takes, Takes}
use hilforge.Execution.Reported.{owns_iff}
use hilforge.Execution.Settled.{Settles, others-Settles}
use hilforge.Execution.Ends.{IsCurrent, verdict}
use hilforge.Execution.Execute.{Reply}
use hilforge.Maintenance.Valid.{Recovered, recovered_status}

-- A job that is not running is not owned, nor is one that another task runs.
not_owned :
    (job : TestJob) (task : ℕ)
    → job.status ≢ JobStatus.running
    → owns_running_attempt job task ≡ true
    → ⊥
not_owned job task n o = n (owns_iff job task o).0

-- The count stays known when the job stays, and when it is no longer held.
IsCurrent-same :
    (c : ClaimedJob) (task : ℕ) (db db' : Db)
    → find_job c.job_id db'.jobs ≡ find_job c.job_id db.jobs
    → IsCurrent c task db
    → IsCurrent c task db'
IsCurrent-same c task db db' e h job f o = h job (sym e ∙ f) o

IsCurrent-lost :
    (c : ClaimedJob) (task : ℕ) (db' : Db) (job' : TestJob)
    → find_job c.job_id db'.jobs ≡ some job'
    → (owns_running_attempt job' task ≡ true → ⊥)
    → IsCurrent c task db'
IsCurrent-lost c task db' job' f' lost job f o = absurd (
    lost (subst (λ j. owns_running_attempt j task ≡ true) (some-injective job job' (sym f ∙ f')) o))

pub IsCurrent-jobs :
    (db db' : Db)
    → db'.jobs ≡ db.jobs
    → (c : ClaimedJob) (task : ℕ) → IsCurrent c task db
    → IsCurrent c task db'
IsCurrent-jobs db db' e c task =
    IsCurrent-same c task db db' (ap (λ (l : List TestJob). find_job c.job_id l) e)

-- Jobs that are added are queued, so nobody holds them.
find_by-append :
    (k : ℕ) (xs ys : List TestJob) (job : TestJob)
    → find_job k (xs ++ ys) ≡ some job
    → All (λ j. j.status ≡ JobStatus.queued) ys
    → (find_job k xs ≡ some job) ⊎ (job.status ≡ JobStatus.queued)
unfolding find_by
find_by-append k [] [] job f q = cc
find_by-append k [] (y ∷ ys) job f q = ground (arith, find_by-append k [] ys job)
find_by-append k (x ∷ xs) ys job f q = ground (arith, find_by-append k xs ys job)

pub IsCurrent-create :
    (c : ClaimedJob) (task : ℕ) (db db' : Db) (jobs : List TestJob)
    → db'.jobs ≡ db.jobs ++ jobs
    → All (λ j. j.status ≡ JobStatus.queued) jobs
    → IsCurrent c task db
    → IsCurrent c task db'
IsCurrent-create c task db db' jobs e q h job f o =
    elim (find_by-append c.job_id db.jobs jobs job (subst (λ l. find_job c.job_id l ≡ some job) e f)
      q) [ inl old ↦ h job old o | inr new ↦ absurd (not_owned job task (λ r. cc) o) ]

pub IsCurrent-claim :
    (settings : Settings) (job_id task' now : ℕ) (db db' : Db) (c' : ClaimedJob)
    → Takes settings job_id task' now db c' db'
    → (c : ClaimedJob) (task : ℕ) → task ≢ task'
    → IsCurrent c task db
    → IsCurrent c task db'
IsCurrent-claim settings job_id task' now db db' c' t c task n h =
    elim (ℕ_discrete c.job_id job_id) [
      | yes e ↦
          IsCurrent-lost c task db' t.job'
            (subst (λ k. find_job k db'.jobs ≡ some t.job') (sym e) t.found')
            (λ o. n (some-injective task task' (sym (owns_iff t.job' task o).1 ∙ t.owned)))
      | no m ↦
          IsCurrent-same c task db db'
            (others-Takes settings job_id task' now db c' db' t c.job_id m) h
    ]

-- The new flight itself.
pub IsCurrent-new :
    (settings : Settings) (job_id task now : ℕ) (db db' : Db) (c : ClaimedJob)
    → Takes settings job_id task now db c db'
    → IsCurrent c task db'
IsCurrent-new settings job_id task now db db' c t job f o =
    ap (λ (j : TestJob). j.attempts)
      (some-injective job t.job'
        (sym f ∙ subst (λ k. find_job k db'.jobs ≡ some t.job') (sym t.told_id) t.found'))
    ∙ sym t.told_attempts

verdict-not_running :
    (settings : Settings) (c : ClaimedJob) (reply : Reply)
    → verdict settings c reply ≢ JobStatus.running
unfolding verdict
verdict-not_running settings c (Reply.response r) = ground arith
verdict-not_running settings c (Reply.timeout e) = ground arith
verdict-not_running settings c (Reply.transient e) = ground arith
verdict-not_running settings c (Reply.permanent e) = ground arith
verdict-not_running settings c (Reply.unexpected e) = ground arith

pub IsCurrent-report :
    (settings : Settings) (c' : ClaimedJob) (task' : ℕ) (reply : Reply) (db db' : Db)
    → Settles c'.job_id task' (verdict settings c' reply) db db'
    → (c : ClaimedJob) (task : ℕ) → IsCurrent c task db
    → IsCurrent c task db'
IsCurrent-report settings c' task' reply db db' s c task h = elim (ℕ_discrete c.job_id c'.job_id) [
  | yes e ↦
      IsCurrent-lost c task db' s.job'
        (subst (λ k. find_job k db'.jobs ≡ some s.job') (sym e) s.found')
        (not_owned s.job' task (λ r. verdict-not_running settings c' reply (sym s.settled ∙ r)))
  | no m ↦
      IsCurrent-same c task db db'
        (others-Settles c'.job_id task' (verdict settings c' reply) db db' s c.job_id m) h
]

recovered-not_running :
    (settings : Settings) (job : TestJob) → recovered_status settings job ≢ JobStatus.running
recovered-not_running settings job = ground arith

-- A key is the key of a recovered job, or of none of them.
hit_or_miss :
    (settings : Settings) (now : ℕ) (db' : Db) (k : ℕ) (jobs : List TestJob)
    → All (Recovered settings now db') jobs
    → ((job' : TestJob) × (find_job k db'.jobs ≡ some job') × (job'.status ≢ JobStatus.running))
      ⊎ All (λ j. j.id ≢ k) jobs
hit_or_miss settings now db' k [] h = inr tt
hit_or_miss settings now db' k (j ∷ jobs) h = elim (ℕ_discrete j.id k) [
  | yes e ↦
      let (job', f, s, a, l, t) = h.0 in
      inl (
        job',
        subst (λ i. find_job i db'.jobs ≡ some job') e f,
        λ r. recovered-not_running settings j (sym s ∙ r),
      )
  | no n ↦ elim (hit_or_miss settings now db' k jobs h.1) [
    | inl hit ↦ inl hit
    | inr miss ↦ inr (n, miss)
  ]
]

pub IsCurrent-reconcile :
    (settings : Settings) (now : ℕ) (db db' : Db) (jobs : List TestJob)
    → All (Recovered settings now db') jobs
    → ((k : ℕ) → All (λ j. j.id ≢ k) jobs → find_job k db'.jobs ≡ find_job k db.jobs)
    → (c : ClaimedJob) (task : ℕ) → IsCurrent c task db
    → IsCurrent c task db'
IsCurrent-reconcile settings now db db' jobs all same c task h =
    elim (hit_or_miss settings now db' c.job_id jobs all) [
      | inl (job', f, n) ↦ IsCurrent-lost c task db' job' f (not_owned job' task n)
      | inr miss ↦ IsCurrent-same c task db db' (same c.job_id miss) h
    ]
