-- ===== src/Protocol.antt =====
-- schemas/agent.py: what the worker and a device agent say to each other.
use hilforge.Base.{
  ℕ, String, Bool, true, false, Option, none, some, List, leb, length, ◌&&◌, str_eq, not,
}
use hilforge.Domain.Json.{Json}

pub data AgentOutcome : Type 0 where
  passed failed : AgentOutcome

pub record AgentExecutionRequest : Type 0 where
  pub job_id : ℕ
  pub run_id : ℕ
  pub suite_slug : String
  pub suite_definition : Json
  pub deadline : ℕ

-- The duration is in microseconds, where the field `duration_ms` has a fraction.
pub record AgentExecutionResponse : Type 0 where
  pub job_id : ℕ
  pub outcome : AgentOutcome
  pub duration : ℕ
  pub result : Json
  pub logs : List String
  pub error_message : Option String

has_error : AgentOutcome → Option String → Bool
has_error AgentOutcome.passed m = true
has_error AgentOutcome.failed none = false
has_error AgentOutcome.failed (some m) = not (str_eq m "")

-- `failed_response_has_error`, and the bound on the number of log lines: the response is accepted.
-- The bound on the length of the message is left to the schema library.
unfoldable pub is_accepted : AgentExecutionResponse → Bool
unfolding has_error
is_accepted r = leb (length r.logs) 500 && has_error r.outcome r.error_message
