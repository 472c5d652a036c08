-- ===== src/HostAgent/Endpoint.antt =====
-- What a task of the host agent answers, and `execute_job` of host_agent/app.py.
use Prim.Native.Char.{Char}
use Prim.Native.String.{String}
use hilforge.Base.{
  Bool, Bool-cases, inl, inr, ap, str_eq, eq_iff, ℕ, ◌≡◌, refl, true, false, not, none, some, [],
  ◌∷◌, if◌then◌else◌, ◌==◌, arith,
}
use hilforge.Domain.Json.{Json, obj, end}
use hilforge.Protocol.{AgentExecutionRequest, AgentExecutionResponse, AgentOutcome, is_accepted}
use hilforge.Agent.Endpoint.{HttpReply, success, http_exception}
use hilforge.HostAgent.{HostEngine, HostLibrary, awaits_host, host_value_error, execute_host}

unfoldable pub concat : String → String → String
concat String.[] t = t
concat (String.◌∷◌ c s) t = String.◌∷◌ c (concat s t)

-- How `collect_host_checks` ends: with its document, or with an exception that `_run` catches, as the
-- reason that `_run` gives for it.
pub data HostChecks : Type 0 where
  collected : Json → HostChecks
  broken : String → HostChecks

unfoldable pub run_host : AgentExecutionRequest → ℕ → HostChecks → AgentExecutionResponse
unfolding concat
run_host request duration (broken reason) = record {
  job_id = request.job_id;
  outcome = AgentOutcome.failed;
  duration = duration;
  result = obj end;
  logs = "Predefined host validation failed; see agent log on the laptop" ∷ [];
  error_message = some (concat "Host check failed: " reason);
}
run_host request duration (collected result) = record {
  job_id = request.job_id;
  outcome = AgentOutcome.passed;
  duration = duration;
  result = result;
  logs = "Completed predefined read-only Windows host checks" ∷ [];
  error_message = none;
}

-- `duration` and `checks` are what the awaited task measures and collects.
unfoldable pub execute_host_job :
    HostLibrary
    → ℕ
    → ℕ
    → AgentExecutionRequest
    → ℕ
    → HostChecks
    → HostEngine
    → HttpReply × HostEngine
execute_host_job lib now job_id request duration checks engine =
    if not (job_id == request.job_id)
    then (http_exception 422, engine)
    else (let (admission, engine') = execute_host lib now request engine in
        (
          elim admission [
            | awaits_host task ↦ success (run_host task duration checks)
            | host_value_error message ↦ http_exception 409
          ],
          engine',
        ))

is_blank : String → Bool
is_blank String.[] = true
is_blank (String.◌∷◌ c s) = false

not_blank : (c : Char) (s : String) → str_eq (String.◌∷◌ c s) "" ≡ false
unfolding is_blank
not_blank c s = elim (Bool-cases (str_eq (String.◌∷◌ c s) "")) [
  | inl same ↦
      let blank : false ≡ true = ap is_blank ((eq_iff (String.◌∷◌ c s) "").0 same) in
      absurd (ground arith)
  | inr other ↦ other
]

-- Whatever the checks come to, the document that the task answers is one that the schema accepts.
pub run_host-is_accepted :
    (request : AgentExecutionRequest) (duration : ℕ) (checks : HostChecks)
    → is_accepted (run_host request duration checks) ≡ true
unfolding is_accepted run_host concat
run_host-is_accepted request duration (collected result) = refl
run_host-is_accepted request duration (broken reason) = ap not (not_blank _ _)
