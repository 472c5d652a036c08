-- ===== src/Tests/Edges.antt =====
-- The theorems on the settings, the agent, the device client, the CI command and the web handlers.
use hilforge.Base.{
  ℕ, ◌+◌, ◌*◌, ◌≤◌, ◌<◌, ◌≡◌, refl, Bool, true, if◌then◌else◌, str_eq, String, Option, none, some,
  [], ◌∷◌, arith, leb,
}
use hilforge.Domain.Json.{Json}
use hilforge.Domain.Status.{RunStatus}
use hilforge.Config.{
  second, default_settings, worker_hard_time_limit_seconds, broker_visibility_timeout_seconds,
}
use hilforge.Config.Limits.{limits_nested}
use hilforge.Protocol.{AgentExecutionRequest}
use hilforge.Execution.Execute.{Reply}
use hilforge.Agent.Engine.{
  AgentMode, ScriptedOutcome, AgentSettings, Task, Engine, empty_engine, awaits, value_error,
  execute,
}
use hilforge.Agent.Endpoint.{execute_job}
use hilforge.Agent.Idempotence.{IsConsistent, execute-IsConsistent, after, execute_again}
use hilforge.Client
use hilforge.Client.{Transport, answered, is_retryable_status, is_error}
use hilforge.Client.Contract.{agent_served, wire, seen}
use hilforge.Runs.Read.{TestRunRead}
use hilforge.Domain.Rows.{RunSource}
use hilforge.Ci.{
  ServerUrl, is_usable, Ci, done, client_error, Args, Server, returns, wait_from, create, main,
  sleep_time,
}
use hilforge.Ci.Wait.{Ticks, Ends, wait_from-Ends}
use hilforge.Ci.Gate.{SawPassed, main-passed, main_ends}
use hilforge.HostAgent.{HostEngine, HostLibrary, host_suite_definition, execute_host}
use hilforge.HostAgent.Once.{RunsOnce, execute_host-RunsOnce}
use hilforge.Tests.Scenario.{suite}
use hilforge.Tests.Outcomes.{answer}

limits_nested_example :
    (10 * second + 5 * second < worker_hard_time_limit_seconds default_settings * second)
    × (worker_hard_time_limit_seconds default_settings
        < broker_visibility_timeout_seconds default_settings)
limits_nested_example = limits_nested default_settings (10 * second) (omega arith)

abbrev fingerprint : AgentExecutionRequest → String
fingerprint request = request.suite_slug

abbrev healthy : AgentSettings
healthy = record {
  mode = AgentMode.healthy;
  first_outcome = ScriptedOutcome.pass;
  more_outcomes = [];
}

abbrev asked : AgentExecutionRequest
asked = record {
  job_id = 30;
  run_id = 20;
  suite_slug = "smoke";
  suite_definition = Json.null;
  deadline = 4000300;
}

abbrev task : Task
task = record { request = asked; outcome = ScriptedOutcome.pass }

abbrev started : Engine
started = record {
  executions = record { job_id = 30; request_fingerprint = "smoke"; task = task } ∷ [];
  attempts = [];
  started = task ∷ [];
}

starts : execute fingerprint healthy asked empty_engine ≡ (awaits task, started)
unfolding execute empty_engine
starts = refl

empty-IsConsistent : IsConsistent empty_engine
unfolding empty_engine
empty-IsConsistent = record { cached = refl; once = tt; own = tt }

execute-IsConsistent_example : IsConsistent (execute fingerprint healthy asked empty_engine).1
execute-IsConsistent_example =
    execute-IsConsistent fingerprint healthy asked empty_engine empty-IsConsistent

abbrev asked_later : AgentExecutionRequest
asked_later = record asked { suite_slug = "soak" }

-- Another job comes in between.
abbrev elsewhere : AgentExecutionRequest
elsewhere = record asked { job_id = 31 }

execute_again_example :
    let now = after fingerprint healthy (elsewhere ∷ []) started in
    execute fingerprint healthy asked_later now
    ≡ (if str_eq "smoke" "soak" then awaits task else value_error, now)
execute_again_example =
    execute_again fingerprint healthy asked asked_later empty_engine starts refl (elsewhere ∷ [])

abbrev says : Transport → String
says t = "device error"

agent_served_example :
    Client.execute says asked
      (wire (execute_job fingerprint healthy 30 asked 1000 [] empty_engine).0)
    ≡ seen says 1000 [] (execute fingerprint healthy asked empty_engine).0
agent_served_example =
    agent_served fingerprint healthy says asked 1000 [] empty_engine empty-IsConsistent
      (omega arith)

answers : Client.execute says asked (answered 200 (some answer)) ≡ Reply.response answer
unfolding Client.execute
answers = refl

abbrev read_as : RunStatus → TestRunRead
read_as status = record {
  id = 20;
  test_suite_id = 7;
  test_suite_name = "Smoke";
  status = status;
  created_at = 200;
  started_at = none;
  completed_at = none;
  counts = record {
    total = 1;
    queued = 0;
    running = 0;
    retrying = 0;
    passed = 1;
    failed = 0;
    timed_out = 0;
  };
  source = none;
}

-- The run ends between the first poll and the second.
abbrev server : Server
server = record {
  suites = done (suite ∷ []);
  create = λ request. done (read_as RunStatus.queued);
  started_at = 0;
  tested_at = λ n. n;
  rested_at = λ n. n;
  poll = λ k n. done (read_as (if leb n 0 then RunStatus.running else RunStatus.passed));
  jobs = λ k. done [];
}

abbrev args : Args
args = record {
  suite = "smoke";
  device_ids = [];
  wait = true;
  timeout = 5;
  poll_interval = 1;
  repository = none;
  commit = none;
  ref = none;
  build_id = none;
}

abbrev any_source : RunSource → Bool
any_source source = true

ticks : Ticks server 1 5
unfolding sleep_time
ticks = record { forward = λ n. omega arith; sleeps = λ n. omega arith }

wait_from-Ends_example :
    (w : Ci (Option TestRunRead)) × (wait_from 6 server 20 5 0 ≡ returns w) × Ends server 20 5 w
wait_from-Ends_example = wait_from-Ends server 20 1 5 (omega arith) ticks 6 0 (omega arith)

abbrev server_url : Option ServerUrl
server_url = some (record { scheme = "http" })

gates : main any_source server_url 6 server args ≡ some 0
unfolding main is_usable hilforge.Ci.source_of hilforge.Ci.find_slug wait_from
gates = refl

main-passed_example :
    (is_usable server_url ≡ true)
    × ((made : TestRunRead) × (create any_source server args ≡ done made)
        × SawPassed server made.id)
main-passed_example = main-passed any_source server_url 6 server args refl gates

main_ends_example : (code : ℕ) × (main any_source server_url 6 server args ≡ some code) × (code ≤ 3)
main_ends_example = main_ends any_source server_url server args (omega arith) (omega arith) ticks

-- All documents are taken to be the same.
abbrev library : HostLibrary
library = record { same_document = λ d e. true; fingerprint = fingerprint }

abbrev idle_host : HostEngine
idle_host = record { executions = []; started = [] }

abbrev host_request : AgentExecutionRequest
host_request = record {
  job_id = 31;
  run_id = 21;
  suite_slug = "host-health";
  suite_definition = host_suite_definition;
  deadline = 10000300;
}

idle-RunsOnce : RunsOnce library idle_host
idle-RunsOnce = record { cached = refl; once = tt; predefined = tt; in_time = tt }

execute_host-RunsOnce_example : RunsOnce library (execute_host library 300 host_request idle_host).1
execute_host-RunsOnce_example =
    execute_host-RunsOnce library 300 host_request idle_host idle-RunsOnce
