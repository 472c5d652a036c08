-- ===== src/HostAgent.antt =====
-- `HostEngine` of host_agent/runtime.py, the constants of its suite, and `execute_job` of
-- host_agent/app.py. The lock makes the part of `execute` that is modelled here atomic; what it
-- returns is the task that the caller awaits.
pub mod Once
pub mod Endpoint
pub mod Checks
pub mod Command
use hilforge.Base.{
  ℕ, String, Bool, true, false, Option, none, some, List, [], ◌∷◌, if◌then◌else◌, ◌==◌, ◌&&◌, not,
  leb, str_eq, find_by,
}
use hilforge.Domain.Json.{Json, Items, Fields, num, str, arr, obj, nil, cons, field, end}
use hilforge.Protocol.{AgentExecutionRequest, AgentExecutionResponse, AgentOutcome}

abbrev pub host_suite_slug : String
host_suite_slug = "host-health"

abbrev pub host_suite_checks : Items
host_suite_checks = cons (str "system") (
    cons (str "cpu") (
      cons (str "memory") (
        cons (str "memory_integrity") (
          cons (str "disk") (
            cons (str "storage_integrity")
              (cons (str "uptime") (cons (str "network") (cons (str "battery") nil))))))))

abbrev pub host_suite_definition : Json
host_suite_definition = obj (field "checks" (arr host_suite_checks) (field "version" (num 1) end))

-- An accepted execution under its job. Its task runs the predefined checks for the request.
pub record HostExecution : Type 0 where
  pub job_id : ℕ
  pub request_fingerprint : String
  pub task : AgentExecutionRequest

-- The dictionary, and the tasks that were started, newest first, each with the time of its start.
pub record HostEngine : Type 0 where
  pub executions : List HostExecution
  pub started : List (ℕ × AgentExecutionRequest)

abbrev pub host_job_of : HostExecution → ℕ
host_job_of e = e.job_id

-- How `execute` leaves the lock: with a task, or with `ValueError`.
pub data HostAdmission : Type 0 where
  awaits_host : AgentExecutionRequest → HostAdmission
  host_value_error : String → HostAdmission

-- What the surroundings decide: the comparison of documents and the fingerprint of a request without
-- its deadline, which the language and the schema library define.
pub record HostLibrary : Type 0 where
  pub same_document : Json → Json → Bool
  pub fingerprint : AgentExecutionRequest → String

unfoldable pub is_predefined : HostLibrary → AgentExecutionRequest → Bool
is_predefined lib request =
    str_eq request.suite_slug host_suite_slug
    && lib.same_document request.suite_definition host_suite_definition

-- The branch of a job that is not cached.
unfoldable pub start_host :
    HostLibrary → ℕ → AgentExecutionRequest → HostEngine → HostAdmission × HostEngine
start_host lib now request engine =
    if leb request.deadline now
    then (host_value_error "Job deadline has already expired", engine)
    else (
      awaits_host request,
      record {
        executions =
            record {
              job_id = request.job_id;
              request_fingerprint = lib.fingerprint request;
              task = request;
            }
            ∷ engine.executions;
        started = (now, request) ∷ engine.started;
      },
    )

unfoldable pub execute_host :
    HostLibrary → ℕ → AgentExecutionRequest → HostEngine → HostAdmission × HostEngine
unfolding is_predefined start_host
execute_host lib now request engine =
    if not (is_predefined lib request)
    then (host_value_error "Unsupported host validation suite", engine)
    else elim (find_by host_job_of request.job_id engine.executions) [
      | some cached ↦
          if str_eq cached.request_fingerprint (lib.fingerprint request)
          then (awaits_host cached.task, engine)
          else (host_value_error "job_id was reused with a different request", engine)
      | none ↦ start_host lib now request engine
    ]
