-- ===== src/System.antt =====
-- The control plane as a whole: API requests, workers and the periodic tasks share one database. Each
-- of their transactions is one step; between two steps of one worker any other steps may come.
pub mod Flights
pub mod Safety
pub mod Promises
pub mod Final
pub mod Attempts
pub mod Quiet
pub mod Unattended
use hilforge.Base.{
  ℕ, suc, Bool, true, false, Option, none, some, List, [], ◌∷◌, ◌++◌, ◌≡◌, ◌≢◌, Result, ok, err,
  is_some, All, if◌then◌else◌, ◌==◌,
}
use hilforge.Domain.Rows.{TestSuite, TestRun, Device, Db, find_device}
use hilforge.Config.{Settings}
use hilforge.Devices.{
  DeviceRegister, DeviceHeartbeat, register_device, record_heartbeat, mark_stale_devices_offline,
}
use hilforge.Runs.Create.{RunCreate, Surroundings, create_run}
use hilforge.Runs.Reserve.{Fresh}
use hilforge.Execution.Claim.{ClaimedJob, claim}
use hilforge.Execution.Execute.{Reply, Report, report}
use hilforge.Maintenance.{reconcile_dispatchable_jobs}

-- A worker between its claim and its report: the task that it runs, and what it claimed.
pub record Flight : Type 0 where
  pub task : ℕ
  pub claim : ClaimedJob

pub record System : Type 0 where
  pub db : Db
  pub flights : List Flight

abbrev pub on_db : System → Db → System
on_db s db = record s { db = db }

-- One committed transaction, or the loss of a worker. A task is not delivered a second time while a
-- worker still runs it: that is what the visibility timeout of the broker is for.
pub data Step (settings : Settings) (s : System) : System → Type 0 where
  registers :
      (registration : DeviceRegister) (new_id now : ℕ)
      → is_some (find_device new_id s.db.devices) ≡ false
      → Step settings s (on_db s (register_device registration new_id now s.db).1)
  beats :
      (device_id : ℕ) (heartbeat : DeviceHeartbeat) (now : ℕ) (device : Device) (db' : Db)
      → record_heartbeat device_id heartbeat now s.db ≡ ok (device, db')
      → Step settings s (on_db s db')
  scans :
      (now : ℕ)
      → Step settings s
          (on_db s (mark_stale_devices_offline settings.heartbeat_timeout_seconds now s.db).1)
  creates :
      (env : Surroundings) (request : RunCreate) (run : TestRun) (ids : List ℕ) (db' : Db)
      → Fresh env s.db
      → create_run env settings.heartbeat_timeout_seconds request s.db ≡ ok (run, ids, db')
      → Step settings s (on_db s db')
  claims :
      (job_id task now : ℕ) (c : ClaimedJob) (db' : Db)
      → All (λ f. f.task ≢ task) s.flights
      → claim settings job_id task now s.db ≡ ok (some c, db')
      → Step settings s
          (record { db = db'; flights = record { task = task; claim = c } ∷ s.flights })
  reports :
      (f : Flight) (before after : List Flight) (now elapsed : ℕ) (reply : Reply) (r : Report)
      → s.flights ≡ before ++ f ∷ after
      → report settings f.claim f.task now elapsed reply s.db ≡ ok r
      → Step settings s (record { db = r.db; flights = before ++ after })
  dies :
      (f : Flight) (before after : List Flight)
      → s.flights ≡ before ++ f ∷ after
      → Step settings s (record s { flights = before ++ after })
  reconciles :
      (now : ℕ) (locked : ℕ → Bool) (ids : List ℕ) (db' : Db)
      → reconcile_dispatchable_jobs settings now locked s.db ≡ ok (ids, db')
      → Step settings s (on_db s db')

-- What can come of a system by any number of steps.
pub data Reach (settings : Settings) (s : System) : System → Type 0 where
  here : Reach settings s s
  next : {t u : System} → Reach settings s t → Step settings t u → Reach settings s u

-- A database with its seeded suites and nothing else, and no worker at work.
unfoldable pub start : List TestSuite → System
start suites = record {
  db = record { devices = []; suites = suites; runs = []; jobs = [] };
  flights = [];
}
