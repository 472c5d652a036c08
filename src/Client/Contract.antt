-- ===== src/Client/Contract.antt =====
-- The worker's client and the agent's endpoint fit together.
use hilforge.Base.{
  ℕ, ◌≤◌, ◌≡◌, refl, String, Bool, true, false, Option, none, some, List, arith, length,
  if◌then◌else◌, ◌==◌, not,
}
use hilforge.Protocol.{AgentExecutionRequest, AgentExecutionResponse, is_accepted}
use hilforge.Execution.Execute.{Reply, response, timeout, transient, permanent, unexpected}
use hilforge.Agent.Engine.{
  AgentSettings, Engine, Task, Admission, awaits, value_error, transient_error, execute, run,
}
use hilforge.Agent.Endpoint
use hilforge.Agent.Endpoint.{HttpReply, success, http_exception, execute_job}
use hilforge.Agent.Idempotence.{IsConsistent, execute-own}
use hilforge.Client
use hilforge.Client.{Transport, timed_out, request_error, answered, is_retryable_status, is_error}

-- The classes of a reply that let the worker try again.
abbrev pub may_retry : Reply → Bool
may_retry (response r) = false
may_retry (timeout e) = true
may_retry (transient e) = true
may_retry (permanent e) = false
may_retry (unexpected e) = true

-- The worker may retry after an answered call exactly if the status of the answer is one of the
-- retryable ones.
pub execute_retry :
    (message : Transport → String) (request : AgentExecutionRequest) (code : ℕ)
    (body : Option AgentExecutionResponse)
    → may_retry (Client.execute message request (answered code body)) ≡ is_retryable_status code
unfolding Client.execute
execute_retry message request code none = ground arith
execute_retry message request code (some b) = ground arith

-- If the client takes a response, the response is for the job that was asked for, and it came as an
-- accepted document with a status that is no error.
pub execute_response :
    (message : Transport → String) (request : AgentExecutionRequest) (t : Transport)
    {r : AgentExecutionResponse}
    → Client.execute message request t ≡ response r
    → (r.job_id ≡ request.job_id)
      × ((code : ℕ) × (t ≡ answered code (some r)) × (is_error code ≡ false))
unfolding Client.execute
execute_response message request timed_out e = cc
execute_response message request (request_error c) e = cc
execute_response message request (answered code none) e = absurd (ground arith)
execute_response message request (answered code (some b)) e =
    (ground arith, (code, ground arith, ground arith))

-- What arrives of the endpoint's reply: status 200 with the document, if the schema accepts it, or
-- the status of the exception.
abbrev pub wire : HttpReply → Transport
wire (success r) = answered 200 (if is_accepted r then some r else none)
wire (http_exception code) = answered code none

-- What the worker makes of the engine's decision.
abbrev pub seen : (Transport → String) → ℕ → List String → Admission → Reply
seen message duration logs (awaits task) = response (run task duration logs)
seen message duration logs value_error =
    permanent (record { kind = "PermanentDeviceError"; message = message (answered 409 none) })
seen message duration logs (transient_error o) =
    transient (record { kind = "TransientDeviceError"; message = message (answered 503 none) })

run-is_accepted :
    (task : Task) (duration : ℕ) (logs : List String)
    → length logs ≤ 500
    → is_accepted (run task duration logs) ≡ true
unfolding run is_accepted
run-is_accepted task duration logs h = ground arith

run-job_id :
    (task : Task) (duration : ℕ) (logs : List String)
    → (run task duration logs).job_id ≡ task.request.job_id
unfolding run
run-job_id task duration logs = ground arith

module _ (fingerprint : AgentExecutionRequest → String) (settings : AgentSettings)
    (message : Transport → String) (request : AgentExecutionRequest) (duration : ℕ)
    (logs : List String) where
  see :
      (a : Admission) (engine engine' : Engine)
      → IsConsistent engine
      → length logs ≤ 500
      → execute fingerprint settings request engine ≡ (a, engine')
      → Client.execute message request (wire (Endpoint.answer a duration logs))
        ≡ seen message duration logs a
  unfolding Client.execute Endpoint.answer
  see (awaits task) engine engine' v h e = ground (
    arith,
    run-is_accepted task duration logs h,
    run-job_id task duration logs,
    execute-own fingerprint settings request engine {task = task} {engine' = engine'} v e,
  )
  see value_error engine engine' v h e = refl
  see (transient_error o) engine engine' v h e = refl

  -- If the engine is consistent and the task writes at most 500 lines of logs, the client makes of
  -- the agent's reply to a request what the engine decided: the response of the task, a permanent
  -- error for a job that was reused, and a transient one for a simulated refusal.
  pub agent_served :
      (engine : Engine)
      → IsConsistent engine
      → length logs ≤ 500
      → Client.execute message request
          (wire (execute_job fingerprint settings request.job_id request duration logs engine).0)
        ≡ seen message duration logs (execute fingerprint settings request engine).0
  unfolding execute_job
  agent_served engine v h =
      let (a, engine') = execute fingerprint settings request engine in
      let same : not (request.job_id == request.job_id) ≡ false = ground arith in
      rw same (see a engine engine' v h refl)
