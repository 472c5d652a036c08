-- ===== src/Tests/Pages.antt =====
-- The theorems on the requests, the pages, the seeded suites and the checks of a host.
use hilforge.Base.{
  Result, ok, err, template_error, ◌++◌, map, ℕ, ◌*◌, ◌≤◌, ◌↔◌, ◌⊎◌, ◌≡◌, refl, true, none, some,
  List, [], ◌∷◌, if◌then◌else◌, is_some, find_by, length, arith, Distinct, sym, eq_iff, put_by,
  for_each, order_by,
}
use hilforge.Domain.Json.{num}
use hilforge.Domain.Status.{RunStatus, JobStatus}
use hilforge.Domain.Rows.{TestSuite, TestJob, Db, find_run, job_id_of}
use hilforge.Runs.Create.{contains}
use hilforge.Runs.Requested.{devices_of}
use hilforge.Config.{second}
use hilforge.Protocol.{AgentExecutionRequest, AgentOutcome}
use hilforge.Runs.Read.{
  TestRunRead, TestJobRead, run_counts, load_run, list_runs, run_read_model, job_read_model,
}
use hilforge.Devices.{mark_stale_devices_offline, is_stale}
use hilforge.Schemas.{accepts_run}
use hilforge.Schemas.Accepted.{accepts_run-create_run}
use hilforge.Seed.{default_suite, host_suite, find_suite_by_slug, seed_all}
use hilforge.Seed.Twice.{IsSeeded, seed_all_lem, seed_all-is_predefined}
use hilforge.HostAgent.{HostLibrary, host_suite_definition, is_predefined}
use hilforge.HostAgent.Endpoint.{run_host}
use hilforge.HostAgent.Checks.Probes.{returned, inet, sensed, Machine}
use hilforge.HostAgent.Checks.{host_checks}
use hilforge.HostAgent.Checks.Sound.{IsSound}
use hilforge.HostAgent.Checks.Passes.{host_passed_iff}
use hilforge.Web.Handlers.{body, http_exception, respond, get_run}
use hilforge.Web.Pages.{Dashboard, dashboard, RunDetail, run_detail, get_runs, get_run_jobs}
use hilforge.Web.Reads.{status_code, Renders, reads_never_fail}
use hilforge.Web.Counts.{dashboard_offers, OffersAvailable, run_detail_counts, CountsJobs}
use hilforge.Tests.Scenario.{
  settings, suite, accepted, registered, request, env, queued_job, busy_bench, queued_db,
  reached_queued, creates_run,
}
use hilforge.Tests.Control.{registered-IsValid}

-- A template that shows its context, and one that raises.
abbrev as_is : {Context : Type 0} → Context → Result Context
as_is context = ok context

abbrev raises : {Context : Type 0} → RunDetail → Result Context
raises context = err template_error

reads_never_fail_example :
    (status_code (get_runs queued_db) ≡ 200)
    × (status_code (get_run 20 queued_db)
        ≡ (if is_some (find_run 20 queued_db.runs) then 200 else 404))
    × (status_code (get_run_jobs 20 queued_db)
        ≡ (if is_some (find_run 20 queued_db.runs) then 200 else 404))
    × Renders as_is (dashboard as_is settings (λ n m. true) 400 queued_db).0
    × (if is_some (find_run 20 queued_db.runs)
        then Renders raises (run_detail (raises {Context = Dashboard}) 20 queued_db)
        else (run_detail (raises {Context = Dashboard}) 20 queued_db ≡ http_exception 404))
reads_never_fail_example =
    reads_never_fail settings accepted (suite ∷ []) reached_queued as_is raises 20 400 (λ n m. true)

abbrev read : TestRunRead
read = record {
  id = 20;
  test_suite_id = 7;
  test_suite_name = "Smoke";
  status = RunStatus.queued;
  created_at = 200;
  started_at = none;
  completed_at = none;
  counts = run_counts (queued_job ∷ []);
  source = none;
}

abbrev job_read : TestJobRead
job_read = record {
  id = 30;
  test_run_id = 20;
  device_id = 1;
  device_name = "bench-1";
  status = JobStatus.queued;
  attempts = 0;
  result = none;
  logs = none;
  error_message = none;
  error_details = none;
  created_at = 200;
  started_at = none;
  completed_at = none;
  execution_duration = none;
}

abbrev page : Dashboard
page = record {
  devices = busy_bench ∷ [];
  runs = read ∷ [];
  suites = suite ∷ [];
  device_counts = record { total = 1; online = 0; offline = 0; busy = 1 };
  available_devices = [];
}

shows_dashboard : (dashboard as_is settings (λ n m. true) 400 queued_db).0 ≡ body page
unfolding dashboard find_by respond for_each list_runs order_by mark_stale_devices_offline
    run_read_model is_stale
shows_dashboard = refl

dashboard_offers_example :
    (shown : Dashboard) × (ok shown ≡ ok page) × OffersAvailable (10 * second) 400 queued_db shown
dashboard_offers_example =
    dashboard_offers as_is settings (λ n m. true) 400 queued_db page shows_dashboard

abbrev detail : RunDetail
detail = record { run = read; jobs = job_read ∷ []; retry_count = 0; active_count = 0 }

shows_run : run_detail as_is 20 queued_db ≡ body detail
unfolding run_detail find_by load_run respond for_each order_by job_read_model run_read_model
shows_run = refl

run_detail_counts_example : (shown : RunDetail) × (ok shown ≡ ok detail) × CountsJobs 20 shown
run_detail_counts_example = run_detail_counts as_is 20 queued_db detail shows_run

abbrev wanted : List ℕ
wanted = 1 ∷ []

abbrev new_ids : List ℕ
new_ids = 30 ∷ []

accepts_run-create_run_example :
    Distinct wanted
    × ((jobs : List TestJob) × (queued_db.jobs ≡ registered.jobs ++ jobs)
        × (map job_id_of jobs ≡ new_ids)
        × ((k : ℕ) → contains k (devices_of jobs) ≡ contains k wanted)
        × Distinct (devices_of jobs))
    × (length new_ids ≡ length wanted)
    × (1 ≤ length new_ids)
    × (length new_ids ≤ 100)
unfolding accepts_run
accepts_run-create_run_example =
    accepts_run-create_run env (10 * second) request wanted registered-IsValid refl refl creates_run

abbrev host_row : TestSuite
host_row = record {
  id = host_suite.id;
  slug = "host-health";
  name = host_suite.name;
  description = host_suite.description;
  definition = host_suite_definition;
  created_at = 50;
}

abbrev smoke : TestSuite
smoke = record suite {
  name = default_suite.name;
  description = default_suite.description;
  definition = default_suite.definition;
}

abbrev seeded : Db
seeded = record registered { suites = smoke ∷ host_row ∷ [] }

-- The suite of the test is the default suite already; the host suite is new.
seeds : seed_all 50 registered ≡ some seeded
unfolding seed_all find_suite_by_slug put_by find_by
seeds = refl

seed_all_lem_example :
    IsSeeded default_suite seeded.suites
    × IsSeeded host_suite seeded.suites
    × (find_suite_by_slug "soak" seeded.suites ≡ find_suite_by_slug "soak" registered.suites)
    × (seed_all 60 seeded ≡ some seeded)
seed_all_lem_example =
    seed_all_lem 50 registered seeded (tt, tt) seeds "soak" 60
      (λ e. cc (sym ((eq_iff "smoke" "soak").1 e)))
      (λ e. cc (sym ((eq_iff "host-health" "soak").1 e)))

-- All documents are taken to be the same.
abbrev library : HostLibrary
library = record { same_document = λ d e. true; fingerprint = λ r. r.suite_slug }

abbrev host_request : AgentExecutionRequest
host_request = record {
  job_id = 31;
  run_id = 21;
  suite_slug = "host-health";
  suite_definition = host_suite_definition;
  deadline = 10000300;
}

seed_all-is_predefined_example : is_predefined library host_request ≡ true
unfolding find_suite_by_slug
seed_all-is_predefined_example =
    seed_all-is_predefined 50 registered seeded (tt, tt) seeds library host_request host_row refl
      refl refl refl

abbrev laptop : Machine
laptop = record {
  cpu_count = returned (some 4, some 8);
  virtual_memory = returned (16000, 8000);
  boot_time = returned 100;
  now = 500;
  battery = sensed none;
  disk_usage = returned (record { volume = "C:"; total_bytes = 900; free_bytes = 300 });
  read_back = λ bytes. returned bytes;
  copied = λ bytes. returned bytes;
  sha256 = length;
  storage_elapsed = 10;
  memory_elapsed = 10;
  net_if_addrs =
      returned (("Wi-Fi", record { family = inet; address = "192.168.30.83" } ∷ []) ∷ []);
  name_le = λ n m. true;
  platform = record { os = "Windows"; release = "11"; version = "10.0"; architecture = "AMD64" };
  hostname = returned "laptop";
  rounded_ms = num;
  rounded_seconds = num;
}

laptop-IsSound : IsSound laptop
laptop-IsSound = record {
  cpus = (4, 8, refl, omega arith, omega arith);
  memory = (16000, 8000, refl, omega arith);
  boots = (100, refl);
  disk = (_, refl);
  stores = refl;
  copies = (_, refl, refl);
  reachable = (_, refl, refl);
  named = (_, refl);
}

host_passed_iff_example :
    (((run_host host_request 1000 (host_checks laptop)).outcome ≡ AgentOutcome.passed)
      ↔ IsSound laptop)
    × (((run_host host_request 1000 (host_checks laptop)).outcome ≡ AgentOutcome.passed)
        ⊎ ((run_host host_request 1000 (host_checks laptop)).outcome ≡ AgentOutcome.failed))
host_passed_iff_example = host_passed_iff laptop host_request 1000

passes : (run_host host_request 1000 (host_checks laptop)).outcome ≡ AgentOutcome.passed
passes = (host_passed_iff laptop host_request 1000).0.1 laptop-IsSound
