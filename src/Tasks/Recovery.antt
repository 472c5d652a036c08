-- ===== src/Tasks/Recovery.antt =====
-- What the reconciler's task publishes, and that a job which waits for it is not left behind.
use hilforge.Base.{
  ℕ, ◌+◌, ◌≤◌, ◌≡◌, ◌⊎◌, inl, inr, refl, sym, subst, some, if_intro, ==_iff, Bool, true, false,
  List, [], ◌∷◌, map, arith, length, where_true, ok, Bool-cases, ◌==◌, any,
}
use hilforge.Domain.Status.{JobStatus, active_job_statuses}
use hilforge.Domain.Rows.{TestSuite, TestJob, Db, find_job}
use hilforge.Config.{Settings, accepts}
use hilforge.Runs.Create.{contains}
use hilforge.Maintenance.Recovery.{wakes_at}
use hilforge.System.{System, Reach, start}
use hilforge.System.Promises.{nothing_is_lost}
use hilforge.Tasks.{Message, publish_each, reconcile_jobs}

-- A message that asks for a job at once.
abbrev pub at_once : ℕ → Message
at_once job_id = record { task = "pulsehunter.execute_job"; job_id = job_id; countdown = 0 }

-- Some message asks for the job at once.
unfoldable pub is_sent : ℕ → List Message → Bool
is_sent k sent = any (λ m. m.job_id == k) sent

-- The loop publishes what the broker takes, in the order of the jobs, and counts it.
publish_each_lem :
    (takes : Message → Bool) (ids : List ℕ) (n : ℕ)
    → publish_each takes ids n
      ≡ (n + length (where_true takes (map at_once ids)), where_true takes (map at_once ids))
unfolding publish_each
publish_each_lem takes [] n = ground arith
publish_each_lem takes (k ∷ ks) n = elim (Bool-cases (takes (at_once k))) [
  | inl taken ↦ rw (taken, publish_each_lem takes ks (n + 1)) (ground arith)
  | inr refused ↦ rw (refused, publish_each_lem takes ks n) refl
]

publish_all :
    (takes : Message → Bool) (ids : List ℕ)
    → publish_each takes ids 0
      ≡ (length (where_true takes (map at_once ids)), where_true takes (map at_once ids))
publish_all takes ids = rw (publish_each_lem takes ids 0) (ground arith)

-- A job of the list whose message the broker takes is sent.
is_sent-where :
    (takes : Message → Bool) (k : ℕ) (ids : List ℕ)
    → contains k ids ≡ true
    → takes (at_once k) ≡ true
    → is_sent k (where_true takes (map at_once ids)) ≡ true
unfolding is_sent
is_sent-where takes k [] c t = cc
is_sent-where takes k (i ∷ ids) c t = elim (Bool-cases (i == k)) [
  | inl same ↦
      let taken : takes (at_once i) ≡ true =
        subst (λ j. takes (at_once j) ≡ true) (sym ((==_iff i k).0 same)) t in
      rw taken (rw same refl)
  | inr other ↦
      if_intro (λ (s : List Message). is_sent k s ≡ true) (takes (at_once i))
        (rw other (is_sent-where takes k ids (rw other at c) t))
        (is_sent-where takes k ids (rw other at c) t)
]

module _ (settings : Settings) (accepted : accepts settings ≡ true) (suites : List TestSuite)
    {s : System} (reached : Reach settings (start suites) s) where
  -- With settings that pass their validation, in every state that the control plane can reach from
  -- an empty database with some suites, the task `reconcile_jobs` returns, and counts what it has
  -- sent. An active job that is not locked, whose lease or delay is over at that time or which is
  -- queued, and whose message the broker takes, has then failed or been sent, whatever other
  -- messages the broker refuses.
  pub reconcile_jobs_loses_nothing :
      (now : ℕ) (locked : ℕ → Bool) (takes : Message → Bool) (job_id : ℕ) {job : TestJob}
      → find_job job_id s.db.jobs ≡ some job
      → active_job_statuses job.status ≡ true
      → wakes_at job ≤ now
      → locked job_id ≡ false
      → takes (at_once job_id) ≡ true
      → (sent : List Message) × (db' : Db) × (job' : TestJob) × (reconcile_jobs settings now locked
            takes s.db
          ≡ ok (length sent, sent, db'))
        × (find_job job_id db'.jobs ≡ some job')
        × ((job'.status ≡ JobStatus.failed) ⊎ (is_sent job_id sent ≡ true))
  unfolding reconcile_jobs
  reconcile_jobs_loses_nothing now locked takes job_id f a w u t =
      let (ids, db', job', e, f', how) =
        nothing_is_lost settings accepted suites reached now locked job_id f a w u in
      (
        where_true takes (map at_once ids),
        db',
        job',
        rw (e, reconcile_jobs) (rw (publish_all takes ids) refl),
        f',
        elim how [
          | inl failed ↦ inl failed
          | inr listed ↦ inr (is_sent-where takes job_id ids listed t)
        ],
      )
