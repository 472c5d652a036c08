-- ===== src/Agent/Engine.antt =====
-- `AgentEngine` of agent/runtime.py, and its settings from agent/config.py. The lock makes the part of
-- `execute` that is modelled here atomic; what it returns is the task that the caller awaits.
use hilforge.Base.{
  ℕ, zero, suc, ◌+◌, String, Bool, true, false, Option, none, some, List, [], ◌∷◌, if◌then◌else◌,
  ◌==◌, str_eq,
}
use hilforge.Domain.Json.{num, bool, obj, field, end}
use hilforge.Protocol.{AgentExecutionRequest, AgentExecutionResponse, AgentOutcome}

pub data AgentMode : Type 0 where
  healthy slow unreliable : AgentMode

-- The entries that `validate_outcome_script` lets through.
pub data ScriptedOutcome : Type 0 where
  pass fail transient disconnect : ScriptedOutcome

-- The script is a first outcome and the rest, since the validator refuses an empty one.
pub record AgentSettings : Type 0 where
  pub mode : AgentMode
  pub first_outcome : ScriptedOutcome
  pub more_outcomes : List ScriptedOutcome

-- `asyncio.create_task(self._run(request, outcome))`.
pub record Task : Type 0 where
  pub request : AgentExecutionRequest
  pub outcome : ScriptedOutcome

pub record CachedExecution : Type 0 where
  pub job_id : ℕ
  pub request_fingerprint : String
  pub task : Task

-- The two dictionaries, and the tasks that were started, newest first.
pub record Engine : Type 0 where
  pub executions : List CachedExecution
  pub attempts : List (ℕ × ℕ)
  pub started : List Task

unfoldable pub empty_engine : Engine
empty_engine = record { executions = []; attempts = []; started = [] }

unfoldable pub get_execution : ℕ → List CachedExecution → Option CachedExecution
get_execution k [] = none
get_execution k (e ∷ es) = if e.job_id == k then some e else get_execution k es

-- `self._attempts.get(job_id, 0)`.
unfoldable pub get_attempts : ℕ → List (ℕ × ℕ) → ℕ
get_attempts k [] = 0
get_attempts k ((j, n) ∷ rest) = if j == k then n else get_attempts k rest

unfoldable pub set_attempts : ℕ → ℕ → List (ℕ × ℕ) → List (ℕ × ℕ)
set_attempts k n [] = (k, n) ∷ []
set_attempts k n ((j, m) ∷ rest) = if j == k then (j, n) ∷ rest else (j, m) ∷ set_attempts k n rest

-- `outcomes[min(attempt, len(outcomes) - 1)]`.
unfoldable pub scripted : ScriptedOutcome → List ScriptedOutcome → ℕ → ScriptedOutcome
scripted o [] attempt = o
scripted o (p ∷ rest) zero = o
scripted o (p ∷ rest) (suc attempt) = scripted p rest attempt

unfoldable pub next_outcome : AgentSettings → ℕ → Engine → ScriptedOutcome × Engine
next_outcome settings job_id engine = elim settings.mode [
  | AgentMode.unreliable ↦
      let attempt = get_attempts job_id engine.attempts in
      (
        scripted settings.first_outcome settings.more_outcomes attempt,
        record engine { attempts = set_attempts job_id (attempt + 1) engine.attempts },
      )
  | _ ↦ (pass, engine)
]

-- `outcome in {"transient", "disconnect"}`.
abbrev pub is_refusal : ScriptedOutcome → Bool
is_refusal transient = true
is_refusal disconnect = true
is_refusal _ = false

-- How `execute` leaves the lock: with a task, with `ValueError`, or with `TransientSimulationError`.
pub data Admission : Type 0 where
  awaits : Task → Admission
  value_error : Admission
  transient_error : ScriptedOutcome → Admission

-- The branch of a job that is not cached.
unfoldable pub admit :
    AgentExecutionRequest → String → ScriptedOutcome × Engine → Admission × Engine
admit request fingerprint (outcome, engine) =
    if is_refusal outcome
    then (transient_error outcome, engine)
    else (let task : Task = record { request = request; outcome = outcome } in
        (
          awaits task,
          record engine {
            executions =
                record { job_id = request.job_id; request_fingerprint = fingerprint; task = task }
                ∷ engine.executions;
            started = task ∷ engine.started;
          },
        ))

-- `fingerprint` is the JSON dump of the request without its deadline, which the schema library writes.
unfoldable pub execute :
    (AgentExecutionRequest → String)
    → AgentSettings
    → AgentExecutionRequest
    → Engine
    → Admission × Engine
unfolding get_execution next_outcome admit
execute fingerprint settings request engine =
    elim (get_execution request.job_id engine.executions) [
      | some cached ↦
          if str_eq cached.request_fingerprint (fingerprint request)
          then (awaits cached.task, engine)
          else (value_error, engine)
      | none ↦ admit request (fingerprint request) (next_outcome settings request.job_id engine)
    ]

-- `_run`, once the simulated time is over; `logs` are its three formatted lines.
unfoldable pub run : Task → ℕ → List String → AgentExecutionResponse
run task duration logs = elim task.outcome [
  | fail ↦ record {
    job_id = task.request.job_id;
    outcome = AgentOutcome.failed;
    duration = duration;
    result = obj (field "checks_total" (num 3) (field "checks_passed" (num 2) end));
    logs = logs;
    error_message = some "Simulated validation assertion failed";
  }
  | _ ↦ record {
    job_id = task.request.job_id;
    outcome = AgentOutcome.passed;
    duration = duration;
    result = obj (
        field "checks_total" (num 3) (
          field "checks_passed" (num 3)
            (field "firmware_booted" (bool true) (field "telemetry_valid" (bool true) end))));
    logs = logs;
    error_message = none;
  }
]
