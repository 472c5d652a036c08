-- ===== src/Agent/Endpoint.antt =====
-- `execute_job` of agent/app.py: the HTTP face of the engine.
use hilforge.Base.{ℕ, String, List, if◌then◌else◌, ◌==◌, not}
use hilforge.Protocol.{AgentExecutionRequest, AgentExecutionResponse}
use hilforge.Agent.Engine.{
  AgentSettings, Engine, Admission, awaits, value_error, transient_error, execute, run,
}

pub data HttpReply : Type 0 where
  success : AgentExecutionResponse → HttpReply
  http_exception : ℕ → HttpReply

unfoldable pub answer : Admission → ℕ → List String → HttpReply
answer (awaits task) duration logs = success (run task duration logs)
answer value_error duration logs = http_exception 409
answer (transient_error outcome) duration logs = http_exception 503

-- `duration` and `logs` are what the awaited task measures and writes.
unfoldable pub execute_job :
    (AgentExecutionRequest → String)
    → AgentSettings
    → ℕ
    → AgentExecutionRequest
    → ℕ
    → List String
    → Engine
    → HttpReply × Engine
unfolding answer
execute_job fingerprint settings job_id request duration logs engine =
    if not (job_id == request.job_id)
    then (http_exception 422, engine)
    else (let (admission, engine') = execute fingerprint settings request engine in
        (answer admission duration logs, engine'))
