-- ===== src/System/Attempts.antt =====
-- How often a device is asked to run one job: once for each claim, and each claim is counted.
use hilforge.Base.{
  ℕ, ◌+◌, ◌≤◌, ◌≡◌, ◌≢◌, inl, inr, refl, sym, ap, ◌∙◌, true, none, some, List, [], ◌∷◌, ◌++◌, arith,
  subst, if◌then◌else◌, ◌==◌, All, find_by, ℕ_discrete, ok-injective, Option, All-imp, Option-cases,
}
use hilforge.Domain.Status.{JobStatus}
use hilforge.Domain.Rows.{TestSuite, TestJob, Db, find_job}
use hilforge.Config.{Settings, accepts}
use hilforge.Devices.{mark_stale_devices_offline}
use hilforge.Devices.Valid.{record_heartbeat_lem}
use hilforge.Runs.Requested.{create_run-added, IsNew}
use hilforge.Execution.Claim.{ClaimedJob}
use hilforge.Execution.Claimed.{claim-Takes, Takes, others-Takes}
use hilforge.Execution.Settled.{Settles, others-Settles}
use hilforge.Execution.Ends.{report-Ends}
use hilforge.Maintenance.Valid.{
  reconcile-Recovered, Recovered, expired_jobs, expired-IsHeld, IsHeld,
}
use hilforge.System.{
  System, Step, Reach, start, registers, beats, scans, creates, claims, reports, dies, reconciles,
  here, next,
}
use hilforge.System.Safety.{
  IsSafe, Reach-IsSafe, All-middle, IsKnown, accepted_attempts, register_device-jobs,
}
use hilforge.System.Promises.{start-IsSafe, attempts_bounded}

-- The attempts of the job with a key; none if there is no such job.
abbrev attempts_in : Option TestJob → ℕ
attempts_in none = 0
attempts_in (some job) = job.attempts

unfoldable pub attempts_of : ℕ → List TestJob → ℕ
attempts_of k jobs = attempts_in (find_job k jobs)

-- The claims of a job, which each precede one request to its device.
unfoldable pub claim_weight : {settings : Settings} {s t : System} → ℕ → Step settings s t → ℕ
claim_weight k (claims job_id task now c db' apart e) = if job_id == k then 1 else 0
claim_weight k _ = 0

unfoldable pub claims_of : {settings : Settings} {s t : System} → ℕ → Reach settings s t → ℕ
unfolding claim_weight
claims_of k here = 0
claims_of k (next r step) = claims_of k r + claim_weight k step

attempts_of_found :
    (k : ℕ) (jobs : List TestJob) (job : TestJob)
    → find_job k jobs ≡ some job
    → attempts_of k jobs ≡ job.attempts
unfolding attempts_of
attempts_of_found k jobs job f = ap attempts_in f

attempts_of_same :
    (k : ℕ) (jobs jobs' : List TestJob)
    → find_job k jobs' ≡ find_job k jobs
    → attempts_of k jobs' ≡ attempts_of k jobs
unfolding attempts_of
attempts_of_same k jobs jobs' e = ap attempts_in e

-- New jobs have no attempt.
attempts_of-append :
    (k : ℕ) (xs ys : List TestJob)
    → All (λ j. j.attempts ≡ 0) ys
    → attempts_of k (xs ++ ys) ≡ attempts_of k xs
unfolding attempts_of find_by
attempts_of-append k [] [] z = refl
attempts_of-append k [] (y ∷ ys) z = ground (arith, attempts_of-append k [] ys)
attempts_of-append k (x ∷ xs) ys z = ground (arith, attempts_of-append k xs ys)

-- A row replaced by one with the same key.
attempts_of_row :
    (k i : ℕ) (jobs : List TestJob) (job : TestJob)
    → k ≡ i
    → find_job i jobs ≡ some job
    → attempts_of k jobs ≡ job.attempts
attempts_of_row k i jobs job e f =
    attempts_of_found k jobs job (subst (λ m. find_job m jobs ≡ some job) (sym e) f)

attempts_of-claim :
    (settings : Settings) (job_id task now : ℕ) (db db' : Db) (c : ClaimedJob)
    → Takes settings job_id task now db c db'
    → (k : ℕ) → attempts_of k db'.jobs ≡ attempts_of k db.jobs + (if job_id == k then 1 else 0)
attempts_of-claim settings job_id task now db db' c t k = elim (ℕ_discrete k job_id) [
  | yes e ↦
      let before = attempts_of_row k job_id db.jobs t.job e t.found in
      let after = attempts_of_row k job_id db'.jobs t.job' e t.found' in
      let counted = t.counted in ground (arith, before, after, counted)
  | no n ↦
      let same =
        attempts_of_same k db.jobs db'.jobs
          (others-Takes settings job_id task now db c db' t k n) in
      ground (arith, same)
]

attempts_of-report :
    (job_id task : ℕ) (status : JobStatus) (db db' : Db)
    → Settles job_id task status db db'
    → (k : ℕ) → attempts_of k db'.jobs ≡ attempts_of k db.jobs
attempts_of-report job_id task status db db' s k = elim (ℕ_discrete k job_id) [
  | yes e ↦
      attempts_of_row k job_id db'.jobs s.job' e s.found'
      ∙ s.keeps.same_attempts
      ∙ sym (attempts_of_row k job_id db.jobs s.job e s.found)
  | no n ↦ attempts_of_same k db.jobs db'.jobs (others-Settles job_id task status db db' s k n)
]

attempts_of-Recovered :
    (settings : Settings) (now k : ℕ) (db db' : Db) (jobs : List TestJob)
    → All (IsHeld db) jobs
    → All (Recovered settings now db') jobs
    → (All (λ j. j.id ≢ k) jobs → find_job k db'.jobs ≡ find_job k db.jobs)
    → attempts_of k db'.jobs ≡ attempts_of k db.jobs
attempts_of-Recovered settings now k db db' [] h r same =
    attempts_of_same k db.jobs db'.jobs (same tt)
attempts_of-Recovered settings now k db db' (j ∷ jobs) h ((j', f, s, a, l, n), r) same =
    elim (ℕ_discrete k j.id) [
      | yes e ↦
          attempts_of_row k j.id db'.jobs j' e f
          ∙ a
          ∙ sym (attempts_of_row k j.id db.jobs j e h.0.0)
      | no n ↦
          attempts_of-Recovered settings now k db db' jobs h.1 r
            (λ miss. same (λ e. n (sym e), miss))
    ]

module _ (settings : Settings) (accepted : accepts settings ≡ true) (k : ℕ) where
  Step-attempts_of :
      {s t : System}
      → (step : Step settings s t) → IsSafe settings s
      → attempts_of k t.db.jobs ≡ attempts_of k s.db.jobs + claim_weight k step
  unfolding mark_stale_devices_offline claim_weight
  Step-attempts_of {s} (registers registration new_id now fresh) i =
      omega (arith, ap (attempts_of k) (register_device-jobs registration new_id now s.db))
  Step-attempts_of {s} (beats device_id heartbeat now device db' e) i =
      elim (record_heartbeat_lem i.valid device_id heartbeat now) [
        | inl (a, e') ↦ cc
        | inr (device', e', v, a, b, c) ↦
            subst (λ t. attempts_of k t.1.jobs ≡ attempts_of k s.db.jobs + 0)
              (ok-injective (sym e' ∙ e)) (omega arith)
      ]
  Step-attempts_of {s} (scans now) i = omega arith
  Step-attempts_of {s} (creates env request run ids db' fresh e) i =
      let (jobs, added, new, a, b, c, d) =
        create_run-added env settings.heartbeat_timeout_seconds request i.valid e in
      let same =
        attempts_of-append k s.db.jobs jobs
          (All-imp (IsNew run) (λ j. j.attempts ≡ 0) jobs (λ j q. q.2) new) in
      omega (arith, ap (attempts_of k) added, same)
  Step-attempts_of {s} (claims job_id task now c db' apart e) i =
      elim (claim-Takes settings job_id task now i.valid (accepted_attempts settings accepted)) [
        | inl (e', n) ↦ cc
        | inr (c', db'', e', v, t) ↦
            subst
              (λ q.
                attempts_of k q.1.jobs ≡ attempts_of k s.db.jobs + (if job_id == k then 1 else 0))
              (ok-injective (sym e' ∙ e))
              (attempts_of-claim settings job_id task now s.db db'' c' t k)
      ]
  Step-attempts_of {s} (reports g before after now elapsed reply r split e) i =
      let (mine, others) =
        All-middle (IsKnown s.db) before g after (subst (All (IsKnown s.db)) split i.known) in
      let (r', e', v, how) = report-Ends settings g.task now i.valid g.claim elapsed reply mine in
      subst (λ q. attempts_of k q.db.jobs ≡ attempts_of k s.db.jobs + 0) (ok-injective (sym e' ∙ e))
        (elim how [
          | inl (same, a, b) ↦ rw same (omega arith)
          | inr (settled, a, b) ↦
              omega (arith, attempts_of-report g.claim.job_id g.task _ s.db r'.db settled k)
        ])
  Step-attempts_of (dies f before after split) i = omega arith
  Step-attempts_of {s} (reconciles now locked ids db' e) i =
      let (db'', e', v, all, same) = reconcile-Recovered settings now locked i.valid in
      subst (λ t. attempts_of k t.1.jobs ≡ attempts_of k s.db.jobs + 0) (ok-injective (sym e' ∙ e))
        (omega (
          arith,
          attempts_of-Recovered settings now k s.db db''
              (expired_jobs settings now locked s.db.jobs)
              (expired-IsHeld settings now locked i.valid) all (same k),
        ))

  claims_counted :
      (suites : List TestSuite) {s : System}
      → (r : Reach settings (start suites) s) → attempts_of k s.db.jobs ≡ claims_of k r
  unfolding claims_of start attempts_of find_by
  claims_counted suites here = refl
  claims_counted suites (next r step) =
      let i = Reach-IsSafe settings accepted (start-IsSafe settings suites) r in
      Step-attempts_of step i ∙ ap (λ (n : ℕ). n + claim_weight k step) (claims_counted suites r)

  -- With settings that pass their validation, on every way from an empty database with some suites
  -- a job is claimed at most `job_max_attempts` times.
  pub claims_bounded :
      (suites : List TestSuite) {s : System} (r : Reach settings (start suites) s)
      → claims_of k r ≤ settings.job_max_attempts
  unfolding attempts_of
  claims_bounded suites {s} r = elim (Option-cases (find_job k s.db.jobs)) [
    | inl absent ↦ omega (arith, claims_counted suites r, ap attempts_in absent)
    | inr (job, f) ↦ omega (
      arith,
      claims_counted suites r,
      ap attempts_in f,
      attempts_bounded settings accepted suites r k f,
    )
  ]
