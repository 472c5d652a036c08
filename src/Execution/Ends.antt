-- ===== src/Execution/Ends.antt =====
-- How `execute` ends: every reply of the device is settled by one transaction.
use hilforge.Base.{
  ℕ, ◌≡◌, ◌⊎◌, inl, inr, refl, true, none, some, arith, if◌then◌else◌, Result, ok, ◌>>=◌,
  Bool-cases, leb, String,
}
use hilforge.Domain.Status.{JobStatus, terminal_job_statuses, job_status_value}
use hilforge.Domain.Rows.{TestJob, Db, find_job}
use hilforge.Config.{Settings}
use hilforge.Protocol.{AgentOutcome}
use hilforge.Invariant.Valid.{IsValid}
use hilforge.Execution.Claim.{ClaimedJob}
use hilforge.Execution.Report.{Outcome, Failure, owns_running_attempt, finish, retry_delay}
use hilforge.Execution.Settled.{Settles, NotOwned, finish-Settles, retry-Settles}
use hilforge.Execution.Execute.{
  Reply, Report, response, timeout, transient, permanent, unexpected, handle_retryable_failure,
  report,
}

abbrev deserved : AgentOutcome → JobStatus
deserved AgentOutcome.passed = JobStatus.passed
deserved AgentOutcome.failed = JobStatus.failed

deserved_terminal : (o : AgentOutcome) → terminal_job_statuses (deserved o) ≡ true
deserved_terminal AgentOutcome.passed = refl
deserved_terminal AgentOutcome.failed = refl

-- The status that a reply gives to the attempt of a claim.
unfoldable pub verdict : Settings → ClaimedJob → Reply → JobStatus
verdict settings c (response r) = deserved r.outcome
verdict settings c (permanent error) = JobStatus.failed
verdict settings c (timeout error) =
    if leb settings.job_max_attempts c.attempts then JobStatus.timed_out else JobStatus.retrying
verdict settings c (transient error) =
    if leb settings.job_max_attempts c.attempts then JobStatus.failed else JobStatus.retrying
verdict settings c (unexpected error) =
    if leb settings.job_max_attempts c.attempts then JobStatus.failed else JobStatus.retrying

-- The attempt count in the claim is the one in the database, while the task holds the attempt.
abbrev pub IsCurrent : ClaimedJob → ℕ → Db → Type 0
IsCurrent c task db =
    (job : TestJob)
    → find_job c.job_id db.jobs ≡ some job
    → owns_running_attempt job task ≡ true
    → job.attempts ≡ c.attempts

-- What a report comes to when the status is `status`.
abbrev pub Ends : Settings → ℕ → ClaimedJob → JobStatus → Db → Result Report → Type 0
Ends settings task c status db result =
    (r : Report) × (result ≡ ok r)
    × IsValid settings.job_max_attempts r.db
    × (((r.db ≡ db) × (r.publish ≡ none) × NotOwned c.job_id task db)
        ⊎ (Settles c.job_id task status db r.db
            × (r.answer ≡ job_status_value status)
            × (r.publish ≡ (
                if terminal_job_statuses status
                then none
                else some (c.job_id, retry_delay settings c.attempts)))))

module _ (settings : Settings) (task now : ℕ) {db : Db}
    (v : IsValid settings.job_max_attempts db) where
  finish-Ends :
      (c : ClaimedJob) (target : JobStatus) (outcome : Outcome) (answer : String)
      → terminal_job_statuses target ≡ true
      → answer ≡ job_status_value target
      → Ends settings task c target db (do
        db' ← finish settings c.job_id task now target outcome db
        ok (record { answer = answer; publish = none; db = db' }))
  finish-Ends c target outcome answer t a =
      elim (finish-Settles settings task now v c.job_id target outcome t) [
        | inl (e, n) ↦
            (record { answer = answer; publish = none; db = db }, rw e, v, inl (refl, refl, n))
        | inr (db', e, valid, s) ↦
            (record { answer = answer; publish = none; db = db' }, rw e, valid, inr (s, a, rw t))
      ]

  retryable-Ends :
      (c : ClaimedJob) (error : Failure) (exhausted : JobStatus) (elapsed : ℕ)
      → IsCurrent c task db
      → terminal_job_statuses exhausted ≡ true
      → Ends settings task c
          (if leb settings.job_max_attempts c.attempts then exhausted else JobStatus.retrying)
          db
          (handle_retryable_failure settings c task now error exhausted elapsed db)
  unfolding handle_retryable_failure
  retryable-Ends c error exhausted elapsed current t =
      elim (Bool-cases (leb settings.job_max_attempts c.attempts)) [
        | inl spent ↦ rw (spent, handle_retryable_failure) (finish-Ends c exhausted _ _ t refl)
        | inr left ↦
            rw (left, handle_retryable_failure)
              (elim (retry-Settles settings task now v c error elapsed current (ground arith)) [
                | inl (e, n) ↦ (
                  record { answer = "ignored"; publish = none; db = db },
                  rw e,
                  v,
                  inl (refl, refl, n),
                )
                | inr (db', e, valid, s) ↦ (
                  record {
                    answer = "retrying";
                    publish = some (c.job_id, retry_delay settings c.attempts);
                    db = db';
                  },
                  rw e,
                  valid,
                  inr (s, refl, refl),
                )
              ])
      ]

  -- On a valid database, if the claim has the attempt count of its job while the task holds it,
  -- reporting any reply returns, with a valid database. Either the task does not hold the job, and
  -- nothing changes or is published; or the job, which the task holds, moves to the status that the
  -- reply deserves, no other job is written, the task answers that status, and a retry is published
  -- exactly if that status is not terminal.
  pub report-Ends :
      (c : ClaimedJob) (elapsed : ℕ) (reply : Reply)
      → IsCurrent c task db
      → Ends settings task c
          (verdict settings c reply)
          db
          (report settings c task now elapsed reply db)
  unfolding report verdict
  report-Ends c elapsed (timeout e) current =
      retryable-Ends c e JobStatus.timed_out elapsed current refl
  report-Ends c elapsed (transient e) current =
      retryable-Ends c e JobStatus.failed elapsed current refl
  report-Ends c elapsed (unexpected e) current =
      retryable-Ends c e JobStatus.failed elapsed current refl
  report-Ends c elapsed (permanent e) current = finish-Ends c JobStatus.failed _ _ refl refl
  report-Ends c elapsed (response r) current =
      finish-Ends c (deserved r.outcome) _ _ (deserved_terminal r.outcome) refl
