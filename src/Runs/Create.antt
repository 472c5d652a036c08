-- ===== src/Runs/Create.antt =====
-- `create_run` of services/runs.py.
use hilforge.Base.{
  ℕ, suc, Bool, true, Option, none, some, List, [], ◌∷◌, ◌++◌, ◌&&◌, not, if◌then◌else◌, ◌==◌, any,
  where_true, order_by, length, Result, ok, err, ◌>>=◌, ◌>>◌, or_fail, test_suite_not_found,
  no_available_devices,
}
use hilforge.Domain.Status.{DeviceStatus, RunStatus, JobStatus}
use hilforge.Domain.Rows.{Device, TestRun, TestJob, RunSource, Db, find_suite, put_device}
use hilforge.Devices.{is_available}

-- `RunCreate` of schemas/api.py.
pub record RunCreate : Type 0 where
  pub test_suite_id : ℕ
  pub device_ids : Option (List ℕ)
  pub source : Option RunSource

-- `value in values`.
abbrev pub contains : ℕ → List ℕ → Bool
contains k ks = any (λ m. m == k) ks

-- `WHERE Device.id IN (…)`, if the request names devices.
abbrev pub is_requested : Option (List ℕ) → Device → Bool
is_requested none device = true
is_requested (some ids) device = contains device.id ids

-- What the transaction is given by its surroundings: the time, the rows that other transactions
-- have locked, the collation of the database, and the UUIDs of the run and of each new job.
pub record Surroundings : Type 0 where
  pub now : ℕ
  pub locked : Device → Bool
  pub name_le : Device → Device → Bool
  pub run_id : ℕ
  pub job_ids : ℕ → ℕ

-- The query for the devices, `FOR UPDATE SKIP LOCKED`.
unfoldable pub select_devices : Surroundings → ℕ → Option (List ℕ) → List Device → List Device
select_devices env heartbeat_timeout_seconds ids devices = order_by env.name_le (
    where_true
      (λ device.
        is_available heartbeat_timeout_seconds env.now device
        && is_requested ids device
        && not (env.locked device))
      devices)

unfoldable pub new_run : Surroundings → RunCreate → TestRun
new_run env request = record {
  id = env.run_id;
  test_suite_id = request.test_suite_id;
  status = RunStatus.queued;
  started_at = none;
  completed_at = none;
  source = request.source;
  created_at = env.now;
}

unfoldable pub new_job : ℕ → ℕ → ℕ → ℕ → TestJob
new_job job_id run_id device_id now = record {
  id = job_id;
  test_run_id = run_id;
  device_id = device_id;
  status = JobStatus.queued;
  attempts = 0;
  result = none;
  logs = none;
  error_message = none;
  error_details = none;
  started_at = none;
  completed_at = none;
  execution_duration = none;
  next_attempt_at = none;
  lease_expires_at = none;
  worker_task_id = none;
  created_at = now;
}

-- One round of the loop over the selected devices; `i` is the number of jobs made so far.
unfoldable pub reserve : Surroundings → ℕ → Device → Db → Db
unfolding new_job
reserve env i device db =
    let db' = put_device (record device { status = DeviceStatus.busy }) db in
    record db' { jobs = db'.jobs ++ new_job (env.job_ids i) env.run_id device.id env.now ∷ [] }

unfoldable pub reserve_all : Surroundings → ℕ → List Device → Db → Db
reserve_all env i [] db = db
reserve_all env i (device ∷ devices) db = reserve_all env (suc i) devices (reserve env i device db)

abbrev pub ids_from : (ℕ → ℕ) → ℕ → List Device → List ℕ
ids_from job_ids i [] = []
ids_from job_ids i (device ∷ devices) = job_ids i ∷ ids_from job_ids (suc i) devices

-- The two refusals that depend on the selection.
unfoldable pub check_selection : Option (List ℕ) → List Device → Result (Unit {0})
check_selection none [] = err (no_available_devices "No online, available devices were found")
check_selection none (d ∷ ds) = ok tt
check_selection (some ids) devices =
    if length devices == length ids
    then (if length devices == 0
        then err (no_available_devices "No online, available devices were found")
        else ok tt)
    else err (
        no_available_devices
          "One or more requested devices are unknown, stale, offline, or already busy")

-- The new run, the identifiers of its jobs, and the database to commit.
unfoldable pub create_run : Surroundings → ℕ → RunCreate → Db → Result (TestRun × List ℕ × Db)
unfolding check_selection select_devices new_run reserve_all
create_run env heartbeat_timeout_seconds request db = do
  suite ← or_fail (find_suite request.test_suite_id db.suites) test_suite_not_found
  let devices = select_devices env heartbeat_timeout_seconds request.device_ids db.devices
  check_selection request.device_ids devices
  let run = new_run env request
  ok (
    run,
    ids_from env.job_ids 0 devices,
    reserve_all env 0 devices (record db { runs = db.runs ++ run ∷ [] }),
  )
