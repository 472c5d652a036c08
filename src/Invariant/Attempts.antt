-- ===== src/Invariant/Attempts.antt =====
-- What the fields of a job are in each status, and the bound on its attempts.
use hilforge.Base.{
  ℕ, ◌≤◌, ◌<◌, ◌≡◌, ◌≢◌, true, none, some, List, [], ◌∷◌, ◌++◌, map, is_some, All, All-append,
  All-find_by, All-put_by, Distinct, Distinct-put_by, Distinct-append, put_by,
}
use hilforge.Domain.Status.{JobStatus, terminal_job_statuses, active_job_statuses}
use hilforge.Domain.Rows.{TestJob, job_id_of, find_job}

pub record JobIsValid (max_attempts : ℕ) (job : TestJob) : Type 0 where
  pub queued_fresh : job.status ≡ JobStatus.queued → (job.attempts ≡ 0) × (job.started_at ≡ none)
  pub counted : job.status ≢ JobStatus.queued → 1 ≤ job.attempts
  pub started : job.status ≢ JobStatus.queued → is_some job.started_at ≡ true
  pub bounded : job.attempts ≤ max_attempts
  pub retry_left : job.status ≡ JobStatus.retrying → job.attempts < max_attempts
  pub lease :
      (job.status ≡ JobStatus.running
        → (is_some job.lease_expires_at ≡ true) × (is_some job.worker_task_id ≡ true))
  pub no_lease : job.status ≢ JobStatus.running → job.lease_expires_at ≡ none
  pub open_end : active_job_statuses job.status ≡ true → job.completed_at ≡ none
  pub closed_end :
      (terminal_job_statuses job.status ≡ true
        → (is_some job.completed_at ≡ true) × (job.next_attempt_at ≡ none))

pub record Attempts (max_attempts : ℕ) (jobs : List TestJob) : Type 0 where
  pub distinct : Distinct (map job_id_of jobs)
  pub each : All (JobIsValid max_attempts) jobs

module _ {max_attempts : ℕ} {jobs : List TestJob} (v : Attempts max_attempts jobs) where
  pub Attempts-find :
      (k : ℕ) {job : TestJob} → find_job k jobs ≡ some job → JobIsValid max_attempts job
  Attempts-find k h = All-find_by job_id_of (JobIsValid max_attempts) k jobs v.each h

  pub Attempts-put_job :
      (job' : TestJob)
      → JobIsValid max_attempts job'
      → Attempts max_attempts (put_by job_id_of job' jobs)
  Attempts-put_job job' j = record {
    distinct = Distinct-put_by job_id_of job' jobs v.distinct;
    each = All-put_by job_id_of (JobIsValid max_attempts) job' jobs v.each j;
  }

  pub Attempts-append :
      (job : TestJob)
      → All (λ j. j.id ≢ job.id) jobs
      → JobIsValid max_attempts job
      → Attempts max_attempts (jobs ++ job ∷ [])
  Attempts-append job fresh j = record {
    distinct = Distinct-append job_id_of jobs job fresh v.distinct;
    each = All-append (JobIsValid max_attempts) jobs (job ∷ []) v.each (j, tt);
  }
