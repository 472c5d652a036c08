-- ===== src/Execution/Execute.antt =====
-- `JobExecutor.execute`: the claim, the call of the device, and the handlers of its outcome.
use hilforge.Base.{
  ℕ, ◌+◌, String, Bool, true, false, Option, none, some, if◌then◌else◌, leb, Result, ok, ◌>>=◌,
}
use hilforge.Domain.Status.{JobStatus, job_status_value}
use hilforge.Domain.Rows.{Db}
use hilforge.Config.{Settings}
use hilforge.Protocol.{AgentOutcome, AgentExecutionRequest, AgentExecutionResponse}
use hilforge.Execution.Claim.{ClaimedJob, claim}
use hilforge.Execution.Report.{Outcome, Failure, finish, retry, retry_delay}

-- How the call of the device client ends: it returns, or raises an exception of one of the classes
-- that `execute` tells apart.
pub data Reply : Type 0 where
  response : AgentExecutionResponse → Reply
  timeout transient permanent unexpected : Failure → Reply

-- What a report comes to: the answer of the task, the publication of a retry (a job and a delay)
-- if there is one, and the database.
pub record Report : Type 0 where
  pub answer : String
  pub publish : Option (ℕ × ℕ)
  pub db : Db

unfoldable pub failure_outcome : ℕ → Failure → Bool → Outcome
failure_outcome elapsed error retryable = record {
  elapsed = elapsed;
  result = none;
  logs = none;
  error_message = some error.message;
  error_details =
      some (record { kind = error.kind; retryable = retryable; retry_in_seconds = none });
}

unfoldable pub response_outcome : AgentExecutionResponse → Outcome
response_outcome r = record {
  elapsed = r.duration;
  result = some r.result;
  logs = some r.logs;
  error_message = r.error_message;
  error_details = none;
}

-- `_handle_retryable_failure`.
unfoldable pub handle_retryable_failure :
    Settings → ClaimedJob → ℕ → ℕ → Failure → JobStatus → ℕ → Db → Result Report
unfolding failure_outcome
handle_retryable_failure settings claim worker_task_id now error exhausted_status elapsed db =
    if leb settings.job_max_attempts claim.attempts
    then (do
      let outcome = failure_outcome elapsed error true
      db' ← finish settings claim.job_id worker_task_id now exhausted_status outcome db
      ok (record { answer = job_status_value exhausted_status; publish = none; db = db' }))
    else (do
      (owned, db') ← retry settings claim worker_task_id now error elapsed db
      ok (record {
        answer = if owned then "retrying" else "ignored";
        publish = if owned then some (claim.job_id, retry_delay settings claim.attempts) else none;
        db = db';
      }))

target_of : AgentOutcome → JobStatus
target_of AgentOutcome.passed = JobStatus.passed
target_of AgentOutcome.failed = JobStatus.failed

-- Everything after the call. `elapsed` is the time since the call began.
unfoldable pub report : Settings → ClaimedJob → ℕ → ℕ → ℕ → Reply → Db → Result Report
unfolding handle_retryable_failure failure_outcome response_outcome target_of
report settings claim worker_task_id now elapsed (timeout error) db =
    handle_retryable_failure settings claim worker_task_id now error JobStatus.timed_out elapsed db
report settings claim worker_task_id now elapsed (transient error) db =
    handle_retryable_failure settings claim worker_task_id now error JobStatus.failed elapsed db
report settings claim worker_task_id now elapsed (permanent error) db = do
  let outcome = failure_outcome elapsed error false
  db' ← finish settings claim.job_id worker_task_id now JobStatus.failed outcome db
  ok (record { answer = "failed"; publish = none; db = db' })
report settings claim worker_task_id now elapsed (unexpected error) db =
    handle_retryable_failure settings claim worker_task_id now error JobStatus.failed elapsed db
report settings claim worker_task_id now elapsed (response r) db = do
  let target = target_of r.outcome
  db' ← finish settings claim.job_id worker_task_id now target (response_outcome r) db
  ok (record { answer = job_status_value target; publish = none; db = db' })

-- What the surroundings of one delivery decide: its clock readings and the time that the call took, how
-- the device answers a request, and what other transactions commit during the call.
pub record Delivery : Type 0 where
  pub claimed_at : ℕ
  pub requested_at : ℕ
  pub reported_at : ℕ
  pub elapsed : ℕ
  pub call : String → AgentExecutionRequest → ℕ → Reply
  pub meanwhile : Db → Db

unfoldable pub request_of : ClaimedJob → ℕ → AgentExecutionRequest
request_of c now = record {
  job_id = c.job_id;
  run_id = c.run_id;
  suite_slug = c.suite_slug;
  suite_definition = c.suite_definition;
  deadline = now + c.timeout_seconds;
}

unfoldable pub execute : Settings → Delivery → ℕ → ℕ → Db → Result Report
unfolding claim report request_of
execute settings d job_id worker_task_id db = do
  (claimed, db') ← claim settings job_id worker_task_id d.claimed_at db
  elim claimed [
    | none ↦ ok (record { answer = "ignored"; publish = none; db = db' })
    | some c ↦
        let reply = d.call c.endpoint_url (request_of c d.requested_at) c.timeout_seconds in
        report settings c worker_task_id d.reported_at d.elapsed reply (d.meanwhile db')
  ]
