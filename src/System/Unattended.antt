-- ===== src/System/Unattended.antt =====
-- What happens to a job that no worker ever reports: claims and the reconciler alone bring it to an
-- end.
use hilforge.Base.{
  ℕ, max, zero, ◌-◌, suc, ◌+◌, ◌*◌, ◌≤◌, ◌<◌, ◌≡◌, ◌≢◌, inl, inr, refl, sym, ap, ◌∙◌, subst, true,
  false, not, ◌&&◌, some, List, [], ◌∷◌, arith, All, All-imp, find_by-key, leb, Bool-cases,
  if◌then◌else◌, some-injective, ◌⊎◌,
}
use hilforge.Domain.Status.{JobStatus, active_job_statuses}
use hilforge.Domain.Rows.{TestSuite, TestJob, find_job, job_id_of}
use hilforge.Config.{Settings, accepts}
use hilforge.Execution.Claim.{is_due}
use hilforge.Execution.Claimed.{claim-Takes}
use hilforge.Maintenance.{has_expired}
use hilforge.Maintenance.Valid.{Recovered, reconcile-Recovered}
use hilforge.Maintenance.Recovery.{wakes_at, All-where_find}
use hilforge.Invariant.Attempts.{JobIsValid, Attempts-find}
use hilforge.Invariant.Valid.{IsValid}
use hilforge.System.{System, Flight, Reach, start, claims, reconciles, here, next, on_db}
use hilforge.System.Safety.{accepted_attempts}
use hilforge.System.Promises.{safe}
use hilforge.System.Quiet.{
  is_unattended, unattended, steps_of, time_of, clock_of, is_on_time, IsQuiet,
}

-- A task that no worker runs.
unused_task : (flights : List Flight) → (n : ℕ) × All (λ f. f.task < n) flights
unused_task [] = (0, tt)
unused_task (f ∷ flights) =
    let (n, below) = unused_task flights in
    (
      n + f.task + 1,
      (omega arith, All-imp _ _ flights (λ g (l : g.task < n). omega (arith, l)) below),
    )

-- A running job, when its lease has run out.
running-has_expired :
    (max now : ℕ) (job : TestJob)
    → JobIsValid max job
    → job.status ≡ JobStatus.running
    → wakes_at job ≤ now
    → has_expired now job ≡ true
unfolding has_expired
running-has_expired max now job v r w = ground arith

-- A job that waits, when its time has come.
waiting-is_due :
    (now : ℕ) (job : TestJob)
    → active_job_statuses job.status ≡ true
    → job.status ≢ JobStatus.running
    → wakes_at job ≤ now
    → is_due job.status job.next_attempt_at now ≡ true
unfolding is_due
waiting-is_due now job a n w = ground arith

-- Unattended from a time on, a system comes within `n` steps to a state in which the job has failed.
abbrev pub Fails : Settings → System → ℕ → ℕ → ℕ → Type 0
Fails settings s from k n =
    (t : System) × (r : Reach settings s t) × (job : TestJob) × IsQuiet from r
    × (steps_of r ≤ n)
    × (find_job k t.db.jobs ≡ some job)
    × (job.status ≡ JobStatus.failed)

running_or_waits : (s : JobStatus) → (s ≡ JobStatus.running) ⊎ (s ≢ JobStatus.running)
running_or_waits JobStatus.running = inl refl
running_or_waits JobStatus.queued = inr (λ e. cc)
running_or_waits JobStatus.retrying = inr (λ e. cc)
running_or_waits JobStatus.passed = inr (λ e. cc)
running_or_waits JobStatus.failed = inr (λ e. cc)
running_or_waits JobStatus.timed_out = inr (λ e. cc)

module _ (settings : Settings) (allowed : 1 ≤ settings.job_max_attempts) (k from : ℕ)
    {o : System} where
  -- The reconciler, when the lease of a running job has run out.
  reconciled :
      {s : System}
      → IsValid settings.job_max_attempts s.db
      → (job : TestJob) → find_job k s.db.jobs ≡ some job
      → job.status ≡ JobStatus.running
      → (r : Reach settings o s) → IsQuiet from r
      → (t : System) × (r' : Reach settings o t) × IsValid settings.job_max_attempts t.db
        × IsQuiet from r'
        × (steps_of r' ≡ steps_of r + 1)
        × ((job' : TestJob) × (find_job k t.db.jobs ≡ some job')
            × (job'.status ≡ (
                if leb settings.job_max_attempts job.attempts
                then JobStatus.failed
                else JobStatus.retrying))
            × (job'.attempts ≡ job.attempts))
  unfolding unattended is_unattended steps_of is_on_time clock_of time_of
  reconciled {s} v job f running r u =
      let now = max (wakes_at job) (clock_of from r) in
      let on_time : leb (clock_of from r) now ≡ true = ground arith in
      let over =
        running-has_expired _ now job (Attempts-find v.attempts k f) running (omega arith) in
      let (db', e, v', all, same) = reconcile-Recovered settings now (λ i. false) v in
      let (job', f', how, kept, lease, at) =
        All-where_find (Recovered settings now db') (λ j. has_expired now j && not false) k
          s.db.jobs all f (rw over refl) in
      let here : job.id ≡ k = find_by-key job_id_of k s.db.jobs f in
      (
        on_db s db',
        next r (reconciles now (λ i. false) _ db' e),
        v',
        (rw u.0 refl, rw u.1 on_time),
        refl,
        (job', subst (λ i. find_job i db'.jobs ≡ some job') here f', how, kept),
      )

  -- A claim, when a job that waits is due.
  claimed_again :
      {s : System}
      → IsValid settings.job_max_attempts s.db
      → (job : TestJob) → find_job k s.db.jobs ≡ some job
      → active_job_statuses job.status ≡ true
      → job.status ≢ JobStatus.running
      → (r : Reach settings o s) → IsQuiet from r
      → (t : System) × (r' : Reach settings o t) × IsValid settings.job_max_attempts t.db
        × IsQuiet from r'
        × (steps_of r' ≡ steps_of r + 1)
        × ((job' : TestJob) × (find_job k t.db.jobs ≡ some job')
            × (job'.status ≡ JobStatus.running)
            × (job'.attempts ≡ job.attempts + 1))
  unfolding unattended is_unattended steps_of is_on_time clock_of time_of
  claimed_again {s} v job f active waits r u =
      let now = max (wakes_at job) (clock_of from r) in
      let on_time : leb (clock_of from r) now ≡ true = ground arith in
      let due = waiting-is_due now job active waits (omega arith) in
      let (task, below) = unused_task s.flights in
      let apart =
        All-imp (λ g. g.task < task) (λ g. g.task ≢ task) s.flights (λ g l q. omega (arith, l, q))
          below in
      elim (claim-Takes settings k task now v allowed) [
        | inl (e, inl absent) ↦ cc
        | inl (e, inr (job₀, f₀, early)) ↦
            let same : job₀ ≡ job = some-injective job₀ job (sym f₀ ∙ f) in
            let late = subst (λ j. is_due j.status j.next_attempt_at now ≡ false) same early in cc
        | inr (c, db', e, v', t) ↦
            let same : t.job ≡ job = some-injective t.job job (sym t.found ∙ f) in
            (
              record { db = db'; flights = record { task = task; claim = c } ∷ s.flights },
              next r (claims k task now c db' apart e),
              v',
              (rw u.0 refl, rw u.1 on_time),
              refl,
              (
                t.job',
                t.found',
                t.is_running,
                t.counted ∙ ap (λ (j : TestJob). j.attempts + 1) same,
              ),
            )
      ]

  -- A running job with at most `m` attempts left fails.
  running-Fails :
      (m : ℕ) {s : System}
      → IsValid settings.job_max_attempts s.db
      → (job : TestJob) → find_job k s.db.jobs ≡ some job
      → job.status ≡ JobStatus.running
      → settings.job_max_attempts ≤ job.attempts + m
      → (r : Reach settings o s) → IsQuiet from r
      → Fails settings o from k (steps_of r + 2 * m + 1)
  running-Fails zero v job f running enough r u =
      let (t, r', v', u', n, (job', f', how, kept)) = reconciled v job f running r u in
      let spent : leb settings.job_max_attempts job.attempts ≡ true = ground arith in
      (t, r', job', u', omega (arith, n), f', how ∙ rw spent refl)
  running-Fails (suc m) v job f running enough r u =
      let (t, r', v', u', n, (job', f', how, kept)) = reconciled v job f running r u in
      elim (Bool-cases (leb settings.job_max_attempts job.attempts)) [
        | inl spent ↦ (t, r', job', u', omega (arith, n), f', how ∙ rw spent refl)
        | inr left ↦
            let retrying : job'.status ≡ JobStatus.retrying = how ∙ rw left refl in
            let (t₂, r₂, v₂, u₂, n₂, (job₂, f₂, running₂, more)) =
              claimed_again v' job' f' (rw retrying refl) (λ q. cc) r' u' in
            let (t₃, r₃, job₃, u₃, n₃, f₃, failed) =
              running-Fails m v₂ job₂ f₂ running₂ (omega (arith, enough, kept, more)) r₂ u₂ in
            (t₃, r₃, job₃, u₃, omega (arith, n, n₂, n₃), f₃, failed)
      ]

  active-Fails :
      IsValid settings.job_max_attempts o.db
      → (job : TestJob) → find_job k o.db.jobs ≡ some job
      → active_job_statuses job.status ≡ true
      → Fails settings o from k (2 * settings.job_max_attempts + 1)
  unfolding unattended steps_of is_on_time
  active-Fails v job f active = elim (running_or_waits job.status) [
    | inl running ↦
        let (t, r, job', u, n, f', failed) =
          running-Fails settings.job_max_attempts v job f running (omega arith) here (refl, refl) in
        (t, r, job', u, omega (arith, n), f', failed)
    | inr waits ↦
        let (t, r, v', u, n, (job', f', running, more)) =
          claimed_again v job f active waits here (refl, refl) in
        let (t₂, r₂, job₂, u₂, n₂, f₂, failed) =
          running-Fails (settings.job_max_attempts - 1) v' job' f' running (omega (arith, more)) r
            u in
        (t₂, r₂, job₂, u₂, omega (arith, n, n₂, allowed), f₂, failed)
  ]

-- With settings that pass their validation, from every state that the control plane can reach from an
-- empty database with some suites, and from any time on, a way of at most `2 * job_max_attempts + 1`
-- steps, claims and reconciliations alone and none before that time or before the step that it
-- follows, leads to a state in which a given active job has failed.
pub can_fail :
    (settings : Settings)
    → accepts settings ≡ true
    → (suites : List TestSuite) {s : System} → Reach settings (start suites) s
    → (from job_id : ℕ) {job : TestJob} → find_job job_id s.db.jobs ≡ some job
    → active_job_statuses job.status ≡ true
    → Fails settings s from job_id (2 * settings.job_max_attempts + 1)
can_fail settings accepted suites reached from job_id {job} f a =
    active-Fails settings (accepted_attempts settings accepted) job_id from
      (safe settings accepted suites reached).valid job f a
