-- ===== src/Tests/Scenario.antt =====
-- One device registers, a run is created for it, and a worker claims its job.
use hilforge.Base.{
  ℕ, suc, ◌+◌, ◌*◌, ◌≡◌, refl, Bool, true, false, Option, none, some, List, [], ◌∷◌, ok, arith,
  find_by, put_by,
}
use hilforge.Domain.Json.{Json}
use hilforge.Domain.Status.{DeviceStatus, RunStatus, JobStatus}
use hilforge.Domain.Rows.{Device, TestSuite, TestRun, TestJob, Db}
use hilforge.Config.{Settings, default_settings, accepts}
use hilforge.Devices.{DeviceRegister, register_device}
use hilforge.Runs.Create.{RunCreate, Surroundings, create_run, select_devices, reserve_all, new_run}
use hilforge.Runs.Reserve.{Fresh}
use hilforge.Execution.Claim.{ClaimedJob, claim}
use hilforge.System.{System, Flight, Reach, start, registers, creates, claims, here, next}

abbrev pub settings : Settings
settings = default_settings

abbrev pub suite : TestSuite
suite = record {
  id = 7;
  slug = "smoke";
  name = "Smoke";
  description = "A short check";
  definition = Json.null;
  created_at = 0;
}

abbrev pub registration : DeviceRegister
registration = record {
  name = "bench-1";
  device_type = "simulator";
  endpoint_url = "http://bench:9000/";
  capabilities = Json.null;
}

-- The row that the device is given.
abbrev pub bench : Device
bench = record {
  id = 1;
  name = "bench-1";
  device_type = "simulator";
  status = DeviceStatus.online;
  last_heartbeat_at = some 100;
  endpoint_url = "http://bench:9000";
  capabilities = Json.null;
  created_at = 100;
}

abbrev pub registered : Db
registered = record { devices = bench ∷ []; suites = suite ∷ []; runs = []; jobs = [] }

pub registers_bench : (register_device registration 1 100 (start (suite ∷ [])).db).1 ≡ registered
unfolding register_device start hilforge.Devices.find_device_by_name
    hilforge.Devices.Text.rstrip_slash
registers_bench = refl

abbrev pub request : RunCreate
request = record { test_suite_id = 7; device_ids = some (1 ∷ []); source = none }

abbrev pub env : Surroundings
env = record {
  now = 200;
  locked = λ d. false;
  name_le = λ d e. true;
  run_id = 20;
  job_ids = λ i. 30 + i;
}

abbrev pub created : TestRun
created = record {
  id = 20;
  test_suite_id = 7;
  status = RunStatus.queued;
  started_at = none;
  completed_at = none;
  source = none;
  created_at = 200;
}

abbrev pub queued_job : TestJob
queued_job = record {
  id = 30;
  test_run_id = 20;
  device_id = 1;
  status = JobStatus.queued;
  attempts = 0;
  result = none;
  logs = none;
  error_message = none;
  error_details = none;
  started_at = none;
  completed_at = none;
  execution_duration = none;
  next_attempt_at = none;
  lease_expires_at = none;
  worker_task_id = none;
  created_at = 200;
}

abbrev pub busy_bench : Device
busy_bench = record bench { status = DeviceStatus.busy }

abbrev pub queued_db : Db
queued_db = record {
  devices = busy_bench ∷ [];
  suites = suite ∷ [];
  runs = created ∷ [];
  jobs = queued_job ∷ [];
}

pub creates_run :
    create_run env settings.heartbeat_timeout_seconds request registered
    ≡ ok (created, 30 ∷ [], queued_db)
unfolding create_run find_by put_by hilforge.Base.order_by hilforge.Devices.is_available
    hilforge.Runs.Create.reserve
creates_run = refl

abbrev pub claimed_job : ClaimedJob
claimed_job = record {
  job_id = 30;
  run_id = 20;
  endpoint_url = "http://bench:9000";
  suite_slug = "smoke";
  suite_definition = Json.null;
  attempts = 1;
  timeout_seconds = 4000000;
}

abbrev pub running_job : TestJob
running_job = record queued_job {
  status = JobStatus.running;
  attempts = 1;
  started_at = some 300;
  lease_expires_at = some 9000300;
  worker_task_id = some 5;
}

abbrev pub running_run : TestRun
running_run = record created { status = RunStatus.running; started_at = some 300 }

abbrev pub running_db : Db
running_db = record queued_db { runs = running_run ∷ []; jobs = running_job ∷ [] }

pub claims_job : claim settings 30 5 300 queued_db ≡ ok (some claimed_job, running_db)
unfolding claim find_by put_by hilforge.Execution.Claim.is_due hilforge.Jobs.transition_job
    hilforge.Runs.Status.recompute_run_status hilforge.Execution.Claim.leased
    hilforge.Runs.Status.statuses_of hilforge.Execution.Claim.claimed
claims_job = refl

pub accepted : accepts settings ≡ true
unfolding accepts
accepted = refl

abbrev pub flight : Flight
flight = record { task = 5; claim = claimed_job }

abbrev pub in_flight : System
in_flight = record { db = running_db; flights = flight ∷ [] }

pub env-Fresh : Fresh env registered
unfolding find_by
env-Fresh = record { run_id = refl; job_ids = λ i. refl; apart = λ i j n e. n (omega arith) }

pub reached_registered :
    Reach settings (start (suite ∷ [])) (record { db = registered; flights = [] })
unfolding register_device start find_by hilforge.Devices.find_device_by_name
    hilforge.Devices.Text.rstrip_slash
reached_registered = next here (registers registration 1 100 refl)

pub reached_queued : Reach settings (start (suite ∷ [])) (record { db = queued_db; flights = [] })
reached_queued =
    next reached_registered (creates env request created (30 ∷ []) queued_db env-Fresh creates_run)

pub reached : Reach settings (start (suite ∷ [])) in_flight
reached = next reached_queued (claims 30 5 300 claimed_job running_db tt claims_job)
