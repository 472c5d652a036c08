-- ===== src/Runs/Status/Laws.antt =====
-- What a reader of the API sees of a run: its counts agree with its status.
use hilforge.Base.{
  ℕ, ◌+◌, ◌<◌, ◌≡◌, refl, sym, ◌∙◌, subst, true, some, List, [], ◌∷◌, map, arith, length,
  count_where, all, ok, All-find_by, >>=-eq-ok, or_fail, ok-injective,
}
use hilforge.Domain.Status.{RunStatus, JobStatus, job_status_eq}
use hilforge.Domain.Rows.{TestRun, TestJob, Db, find_run, find_suite, run_id_of}
use hilforge.Runs.Status.{statuses_of}
use hilforge.Runs.Read.{TestRunRead, run_counts, run_read_model, jobs_of}
use hilforge.Invariant.Agrees.{Agrees, run_status_of}

-- The six counts of a run's jobs add up to their total.
pub run_counts_total :
    (jobs : List TestJob)
    → let c = run_counts jobs in
      c.queued + c.running + c.retrying + c.passed + c.failed + c.timed_out ≡ c.total
unfolding run_counts
run_counts_total [] = refl
run_counts_total (j ∷ jobs) = ground (arith, run_counts_total jobs)

passed_counts :
    (jobs : List TestJob)
    → run_status_of (map (λ j. j.status) jobs) ≡ RunStatus.passed
    → ((run_counts jobs).passed ≡ (run_counts jobs).total) × (0 < (run_counts jobs).total)
unfolding run_status_of run_counts
passed_counts [] h = absurd (ground arith)
passed_counts (j ∷ jobs) h = (ground (arith, count (j ∷ jobs)), ground arith)
  where
    count :
        (js : List TestJob)
        → all (λ s. job_status_eq s JobStatus.passed) (map (λ j. j.status) js) ≡ true
        → count_where (λ j. job_status_eq j.status JobStatus.passed) js ≡ length js
    count [] e = refl
    count (k ∷ js) e = ground (arith, count js)

-- If the runs' statuses agree with the jobs, a run that is found and shown as passed is shown with
-- all of its jobs passed, and with at least one.
pub shown_passed :
    (db : Db) (run_id : ℕ) {run : TestRun} {shown : TestRunRead}
    → Agrees db.runs db.jobs
    → find_run run_id db.runs ≡ some run
    → run_read_model db run ≡ ok shown
    → shown.status ≡ RunStatus.passed
    → (shown.counts.passed ≡ shown.counts.total) × (0 < shown.counts.total)
unfolding run_read_model statuses_of
shown_passed db run_id {run} {shown} v f e p =
    let (suite, a, made) = >>=-eq-ok (or_fail (find_suite run.test_suite_id db.suites) _) _ e in
    let same = ok-injective made in
    let agreed : run.status ≡ run_status_of (statuses_of run.id db.jobs) =
      All-find_by run_id_of (λ r. r.status ≡ run_status_of (statuses_of r.id db.jobs)) run_id
        db.runs v.each f in
    subst (λ s. (s.counts.passed ≡ s.counts.total) × (0 < s.counts.total)) same
      (passed_counts (jobs_of run.id db.jobs)
        (sym agreed ∙ subst (λ s. s.status ≡ RunStatus.passed) (sym same) p))
