-- ===== src/Invariant/Agrees.antt =====
-- The stored status of every run is the one that follows from the statuses of its jobs.
use hilforge.Base.{
  ℕ, ◌≡◌, ◌≢◌, refl, sym, ap, Bool, true, false, not, some, List, [], ◌∷◌, ◌++◌, map, if◌then◌else◌,
  ◌==◌, arith, All, All-imp, All-find_by, All-put_by_ne, Distinct, Distinct-put_by, find_by, put_by,
  find_by-key, any, all, All-append, Distinct-append, ◌∙◌,
}
use hilforge.Domain.Status.{
  RunStatus, JobStatus, job_status_eq, active_job_statuses, terminal_job_statuses,
  terminal_run_statuses,
}
use hilforge.Domain.Rows.{TestRun, TestJob, run_id_of, job_id_of, find_run, find_job}
use hilforge.Runs.Status.{statuses_of, recomputed}

abbrev is_queued : JobStatus → Bool
is_queued s = job_status_eq s JobStatus.queued

abbrev is_passed : JobStatus → Bool
is_passed s = job_status_eq s JobStatus.passed

-- The documented meaning: queued before any job starts, running while any job is active, passed
-- only when every job passed, and failed otherwise.
unfoldable pub run_status_of : List JobStatus → RunStatus
run_status_of ss =
    if all is_queued ss
    then RunStatus.queued
    else if any active_job_statuses ss
    then RunStatus.running
    else if all is_passed ss
    then RunStatus.passed
    else RunStatus.failed

pub record Agrees (runs : List TestRun) (jobs : List TestJob) : Type 0 where
  pub distinct : Distinct (map run_id_of runs)
  pub each : All (λ r. r.status ≡ run_status_of (statuses_of r.id jobs)) runs

all_terminal :
    (ss : List JobStatus) → any active_job_statuses ss ≡ false → all terminal_job_statuses ss ≡ true
all_terminal [] h = refl
all_terminal (s ∷ ss) h = ground (arith, all_terminal ss)

started : (ss : List JobStatus) → any (λ t. not (is_queued t)) ss ≡ not (all is_queued ss)
started [] = refl
started (s ∷ ss) = ground (arith, started ss)

-- Recomputing a run that is not terminal gives it the status that its jobs' statuses give: queued
-- if all are queued, else running if one is active, else passed if all passed, else failed.
pub recomputed-run_status_of :
    (ss : List JobStatus) (now : ℕ) (run : TestRun)
    → terminal_run_statuses run.status ≡ false
    → (recomputed ss now run).status ≡ run_status_of ss
unfolding recomputed run_status_of
recomputed-run_status_of [] now run h = rw h
recomputed-run_status_of (s ∷ ss) now run h =
    ground (arith, all_terminal (s ∷ ss), started (s ∷ ss))

pub recomputed-id :
    (ss : List JobStatus) (now : ℕ) (run : TestRun) → (recomputed ss now run).id ≡ run.id
unfolding recomputed
recomputed-id [] now run = ground arith
recomputed-id (s ∷ ss) now run = ground arith

pub statuses_of-put_job :
    (r : ℕ) (job job' : TestJob) (jobs : List TestJob)
    → find_job job'.id jobs ≡ some job
    → job'.test_run_id ≡ job.test_run_id
    → r ≢ job'.test_run_id
    → statuses_of r (put_by job_id_of job' jobs) ≡ statuses_of r jobs
unfolding statuses_of find_by put_by
statuses_of-put_job r job job' [] h e n = refl
statuses_of-put_job r job job' (j ∷ jobs) h e n =
    ground (arith, statuses_of-put_job r job job' jobs)

pub statuses_of-append :
    (r : ℕ) (jobs : List TestJob) (job : TestJob)
    → statuses_of r (jobs ++ job ∷ [])
      ≡ (if job.test_run_id == r then statuses_of r jobs ++ job.status ∷ [] else statuses_of r jobs)
unfolding statuses_of
statuses_of-append r [] job = ground arith
statuses_of-append r (j ∷ jobs) job = ground (arith, statuses_of-append r jobs job)

any_active :
    (k r : ℕ) (jobs : List TestJob) {job : TestJob}
    → find_job k jobs ≡ some job
    → job.test_run_id ≡ r
    → active_job_statuses job.status ≡ true
    → any active_job_statuses (statuses_of r jobs) ≡ true
unfolding statuses_of find_by
any_active k r [] h e a = cc
any_active k r (j ∷ jobs) {job} h e a = ground (arith, any_active k r jobs {job = job})

not_terminal :
    (ss : List JobStatus)
    → any active_job_statuses ss ≡ true
    → terminal_run_statuses (run_status_of ss) ≡ false
unfolding run_status_of
not_terminal ss h = ground arith

still_queued :
    (ss : List JobStatus)
    → run_status_of ss ≡ RunStatus.queued
    → all is_queued (ss ++ JobStatus.queued ∷ []) ≡ true
unfolding run_status_of
still_queued ss h = go ss (ground arith)
  where
    go :
        (ts : List JobStatus)
        → all is_queued ts ≡ true
        → all is_queued (ts ++ JobStatus.queued ∷ []) ≡ true
    go [] q = refl
    go (t ∷ ts) q = ground (arith, go ts)

pub run_status_of-append_queued :
    (ss : List JobStatus)
    → run_status_of ss ≡ RunStatus.queued
    → run_status_of (ss ++ JobStatus.queued ∷ []) ≡ RunStatus.queued
unfolding run_status_of
run_status_of-append_queued ss h = rw (still_queued ss h)

module _ {runs : List TestRun} {jobs : List TestJob} (v : Agrees runs jobs) where
  -- A run with an active job is not terminal.
  pub active-not_terminal :
      (k r : ℕ) {job : TestJob} {run : TestRun}
      → find_job k jobs ≡ some job
      → active_job_statuses job.status ≡ true
      → job.test_run_id ≡ r
      → find_run r runs ≡ some run
      → terminal_run_statuses run.status ≡ false
  active-not_terminal k r {job} {run} h a e f =
      let agreed : run.status ≡ run_status_of (statuses_of run.id jobs) =
        All-find_by run_id_of (λ r. r.status ≡ run_status_of (statuses_of r.id jobs)) r runs v.each
          f in
      let here : run.id ≡ r = find_by-key run_id_of r runs f in
      rw agreed (not_terminal _ (any_active k run.id jobs h (e ∙ sym here) a))

  -- An active job changes, and its run is recomputed from the jobs as they are then.
  pub Agrees-recomputed :
      (job job' : TestJob) (run : TestRun) (now : ℕ)
      → find_job job'.id jobs ≡ some job
      → active_job_statuses job.status ≡ true
      → job'.test_run_id ≡ job.test_run_id
      → find_run job'.test_run_id runs ≡ some run
      → let jobs' = put_by job_id_of job' jobs in
        Agrees
          (put_by run_id_of (recomputed (statuses_of job'.test_run_id jobs') now run) runs)
          jobs'
  Agrees-recomputed job job' run now h a e f = record {
    distinct = Distinct-put_by run_id_of run' runs v.distinct;
    each =
        All-put_by_ne run_id_of _ run' runs v.distinct
          (All-imp _ _ runs
            (λ x g ne.
              rw (statuses_of-put_job x.id job job' jobs h e (λ q. ne (q ∙ sym (same_id ∙ here))))
                g)
            v.each)
          (recomputed-run_status_of _ now run
              (active-not_terminal job'.id job'.test_run_id h a (sym e) f)
            ∙ ap (λ k. run_status_of (statuses_of k (put_by job_id_of job' jobs)))
                (sym (same_id ∙ here)));
  }
    where
      run' : TestRun
      run' = recomputed (statuses_of job'.test_run_id (put_by job_id_of job' jobs)) now run

      same_id : run'.id ≡ run.id
      same_id = recomputed-id (statuses_of job'.test_run_id (put_by job_id_of job' jobs)) now run

      here : run.id ≡ job'.test_run_id
      here = find_by-key run_id_of job'.test_run_id runs f

  -- A queued job joins a run that is queued.
  pub Agrees-append :
      (job : TestJob)
      → job.status ≡ JobStatus.queued
      → All (λ r. r.id ≡ job.test_run_id → r.status ≡ RunStatus.queued) runs
      → Agrees runs (jobs ++ job ∷ [])
  Agrees-append job q s = record { distinct = v.distinct; each = go runs v.each s }
    where
      one :
          (r : TestRun)
          → r.status ≡ run_status_of (statuses_of r.id jobs)
          → (r.id ≡ job.test_run_id → r.status ≡ RunStatus.queued)
          → r.status ≡ run_status_of (statuses_of r.id (jobs ++ job ∷ []))
      one r g s = ground (
        arith,
        statuses_of-append r.id jobs job,
        run_status_of-append_queued (statuses_of r.id jobs),
      )

      go :
          (rs : List TestRun)
          → All (λ r. r.status ≡ run_status_of (statuses_of r.id jobs)) rs
          → All (λ r. r.id ≡ job.test_run_id → r.status ≡ RunStatus.queued) rs
          → All (λ r. r.status ≡ run_status_of (statuses_of r.id (jobs ++ job ∷ []))) rs
      go [] g s = tt
      go (r ∷ rs) g s = (one r g.0 s.0, go rs g.1 s.1)

  -- A new run, queued and with no job yet.
  pub Agrees-new_run :
      (run : TestRun)
      → run.status ≡ RunStatus.queued
      → All (λ r. r.id ≢ run.id) runs
      → statuses_of run.id jobs ≡ []
      → Agrees (runs ++ run ∷ []) jobs
  unfolding run_status_of
  Agrees-new_run run q fresh none_yet = record {
    distinct = Distinct-append run_id_of runs run fresh v.distinct;
    each = All-append _ runs (run ∷ []) v.each (rw none_yet q, tt);
  }
