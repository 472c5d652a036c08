-- ===== src/System/Final.antt =====
-- Terminal jobs are final: no later transaction changes them.
use hilforge.Base.{
  ℕ, ◌≡◌, ◌≢◌, inl, inr, sym, ap, ◌∙◌, true, false, some, List, [], ◌∷◌, ◌++◌, arith, subst, All,
  ok-injective, find_by, ℕ_discrete, some-injective,
}
use hilforge.Domain.Status.{JobStatus, terminal_job_statuses}
use hilforge.Domain.Rows.{TestJob, Db, find_job}
use hilforge.Config.{Settings, accepts}
use hilforge.Devices.{mark_stale_devices_offline}
use hilforge.Devices.Valid.{record_heartbeat_lem}
use hilforge.Runs.Requested.{create_run-added}
use hilforge.Execution.Claim.{ClaimedJob, is_due}
use hilforge.Execution.Claimed.{others-Takes, claim-Takes, Takes}
use hilforge.Execution.Settled.{Settles, others-Settles}
use hilforge.Execution.Ends.{report-Ends}
use hilforge.Maintenance.Valid.{reconcile-Recovered, expired_jobs, expired-IsHeld, IsHeld}
use hilforge.System.{
  System, Step, Reach, registers, beats, scans, creates, claims, reports, dies, reconciles, here,
  next,
}
use hilforge.System.Safety.{
  IsSafe, Step-IsSafe, All-middle, IsKnown, accepted_attempts, register_device-jobs,
}

-- The job is in the database, and has ended.
abbrev pub HasEnded : ℕ → TestJob → Db → Type 0
HasEnded k job db = (find_job k db.jobs ≡ some job) × (terminal_job_statuses job.status ≡ true)

find_by-append_found :
    (k : ℕ) (xs ys : List TestJob) (job : TestJob)
    → find_job k xs ≡ some job
    → find_job k (xs ++ ys) ≡ some job
unfolding find_by
find_by-append_found k [] ys job f = cc
find_by-append_found k (x ∷ xs) ys job f = ground (arith, find_by-append_found k xs ys job)

due-not_terminal :
    (job : TestJob) (now : ℕ)
    → is_due job.status job.next_attempt_at now ≡ true
    → terminal_job_statuses job.status ≡ false
unfolding is_due
due-not_terminal job now d = ground arith

-- Two rows found under one key are one.
same_row :
    (k : ℕ) (jobs : List TestJob) (j j' : TestJob)
    → find_job k jobs ≡ some j
    → find_job k jobs ≡ some j'
    → j ≡ j'
same_row k jobs j j' f f' = some-injective j j' (sym f ∙ f')

-- No job that is held as running has the key of a job that has ended.
none_held :
    (k : ℕ) (db : Db) (job : TestJob) (jobs : List TestJob)
    → HasEnded k job db
    → All (IsHeld db) jobs
    → All (λ j. j.id ≢ k) jobs
none_held k db job [] f h = tt
none_held k db job (j ∷ jobs) f h = (
  λ e.
      let same : j ≡ job =
        same_row k db.jobs j job (subst (λ i. find_job i db.jobs ≡ some j) e h.0.0) f.0 in
      let running : job.status ≡ JobStatus.running =
        subst (λ i. i.status ≡ JobStatus.running) same h.0.1 in
      let ended = f.1 in ground arith,
  none_held k db job jobs f h.1,
)

kept_by_claim :
    (settings : Settings) (job_id task now : ℕ) (db db' : Db) (c : ClaimedJob)
    → Takes settings job_id task now db c db'
    → (k : ℕ) (job : TestJob) → HasEnded k job db
    → find_job k db'.jobs ≡ some job
kept_by_claim settings job_id task now db db' c t k job f = elim (ℕ_discrete k job_id) [
  | yes e ↦
      let same : t.job ≡ job =
        same_row k db.jobs t.job job (subst (λ i. find_job i db.jobs ≡ some t.job) (sym e) t.found)
          f.0 in
      let early = due-not_terminal t.job now t.due in
      let late : terminal_job_statuses t.job.status ≡ true =
        subst (λ i. terminal_job_statuses i.status ≡ true) (sym same) f.1 in
      cc
  | no n ↦ others-Takes settings job_id task now db c db' t k n ∙ f.0
]

kept_by_report :
    (job_id task : ℕ) (status : JobStatus) (db db' : Db)
    → Settles job_id task status db db'
    → (k : ℕ) (job : TestJob) → HasEnded k job db
    → find_job k db'.jobs ≡ some job
kept_by_report job_id task status db db' s k job f = elim (ℕ_discrete k job_id) [
  | yes e ↦
      let same : s.job ≡ job =
        same_row k db.jobs s.job job (subst (λ i. find_job i db.jobs ≡ some s.job) (sym e) s.found)
          f.0 in
      let running = s.owned.0 in
      let late : terminal_job_statuses s.job.status ≡ true =
        subst (λ i. terminal_job_statuses i.status ≡ true) (sym same) f.1 in
      ground arith
  | no n ↦ others-Settles job_id task status db db' s k n ∙ f.0
]

module _ (settings : Settings) (accepted : accepts settings ≡ true) (k : ℕ) (job : TestJob) where
  Step-HasEnded :
      {s t : System}
      → Step settings s t
      → IsSafe settings s
      → HasEnded k job s.db
      → HasEnded k job t.db
  unfolding mark_stale_devices_offline
  Step-HasEnded {s} (registers registration new_id now fresh) i f = (
    ap (λ (l : List TestJob). find_job k l) (register_device-jobs registration new_id now s.db)
        ∙ f.0,
    f.1,
  )
  Step-HasEnded {s} (beats device_id heartbeat now device db' e) i f =
      elim (record_heartbeat_lem i.valid device_id heartbeat now) [
        | inl (a, e') ↦ cc
        | inr (device', e', v, a, b, c) ↦
            subst (λ t. HasEnded k job t.1) (ok-injective (sym e' ∙ e)) f
      ]
  Step-HasEnded (scans now) i f = f
  Step-HasEnded {s} (creates env request run ids db' fresh e) i f =
      let (jobs, added, new, a, b, c, d) =
        create_run-added env settings.heartbeat_timeout_seconds request i.valid e in
      (
        ap (λ (l : List TestJob). find_job k l) added
            ∙ find_by-append_found k s.db.jobs jobs job f.0,
        f.1,
      )
  Step-HasEnded {s} (claims job_id task now c db' apart e) i f =
      elim (claim-Takes settings job_id task now i.valid (accepted_attempts settings accepted)) [
        | inl (e', n) ↦ cc
        | inr (c', db'', e', v, t) ↦
            subst (λ q. HasEnded k job q.1) (ok-injective (sym e' ∙ e))
              (kept_by_claim settings job_id task now s.db db'' c' t k job f, f.1)
      ]
  Step-HasEnded {s} (reports g before after now elapsed reply r split e) i f =
      let (mine, others) =
        All-middle (IsKnown s.db) before g after (subst (All (IsKnown s.db)) split i.known) in
      let (r', e', v, how) = report-Ends settings g.task now i.valid g.claim elapsed reply mine in
      subst (λ q. HasEnded k job q.db) (ok-injective (sym e' ∙ e))
        (elim how [
          | inl (same, a, b) ↦ subst (HasEnded k job) (sym same) f
          | inr (settled, a, b) ↦
              (kept_by_report g.claim.job_id g.task _ s.db r'.db settled k job f, f.1)
        ])
  Step-HasEnded (dies g before after split) i f = f
  Step-HasEnded {s} (reconciles now locked ids db' e) i f =
      let (db'', e', v, all, same) = reconcile-Recovered settings now locked i.valid in
      subst (λ t. HasEnded k job t.1) (ok-injective (sym e' ∙ e))
        (
          same k (
                none_held k s.db job (expired_jobs settings now locked s.db.jobs) f
                  (expired-IsHeld settings now locked i.valid))
              ∙ f.0,
          f.1,
        )

  -- With settings that pass their validation, a job that has ended in a safe state has the same row
  -- in every state that can be reached from there.
  pub ended_stays :
      {s t : System}
      → IsSafe settings s
      → HasEnded k job s.db
      → Reach settings s t
      → find_job k t.db.jobs ≡ some job
  ended_stays i f r = (walk i f r).1.0
    where
      walk :
          {s t : System}
          → IsSafe settings s
          → HasEnded k job s.db
          → Reach settings s t
          → IsSafe settings t × HasEnded k job t.db
      walk i f here = (i, f)
      walk i f (next r st) =
          let (j, g) = walk i f r in (Step-IsSafe settings accepted st j, Step-HasEnded st j g)
