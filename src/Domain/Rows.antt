-- ===== src/Domain/Rows.antt =====
-- The rows of the four tables, and the database.
use hilforge.Base.{ℕ, String, Bool, Option, List, find_by, put_by}
use hilforge.Domain.Json.{Json}
use hilforge.Domain.Status.{DeviceStatus, RunStatus, JobStatus}

pub record Device : Type 0 where
  pub id : ℕ
  pub name : String
  pub device_type : String
  pub status : DeviceStatus
  pub last_heartbeat_at : Option ℕ
  pub endpoint_url : String
  pub capabilities : Json
  pub created_at : ℕ

pub record TestSuite : Type 0 where
  pub id : ℕ
  pub slug : String
  pub name : String
  pub description : String
  pub definition : Json
  pub created_at : ℕ

-- `source`: the model dump of a `RunSource`, where an absent field is left out.
pub record RunSource : Type 0 where
  pub repository : Option String
  pub commit_sha : String
  pub ref : Option String
  pub build_id : Option String

pub record TestRun : Type 0 where
  pub id : ℕ
  pub test_suite_id : ℕ
  pub status : RunStatus
  pub started_at : Option ℕ
  pub completed_at : Option ℕ
  pub source : Option RunSource
  pub created_at : ℕ

-- The keys that the program writes into `error_details`.
pub record ErrorDetails : Type 0 where
  pub kind : String
  pub retryable : Bool
  pub retry_in_seconds : Option ℕ

pub record TestJob : Type 0 where
  pub id : ℕ
  pub test_run_id : ℕ
  pub device_id : ℕ
  pub status : JobStatus
  pub attempts : ℕ
  pub result : Option Json
  pub logs : Option (List String)
  pub error_message : Option String
  pub error_details : Option ErrorDetails
  pub started_at : Option ℕ
  pub completed_at : Option ℕ
  pub execution_duration : Option ℕ
  pub next_attempt_at : Option ℕ
  pub lease_expires_at : Option ℕ
  pub worker_task_id : Option ℕ
  pub created_at : ℕ

-- The committed state of the database.
pub record Db : Type 0 where
  pub devices : List Device
  pub suites : List TestSuite
  pub runs : List TestRun
  pub jobs : List TestJob

abbrev pub device_id_of : Device → ℕ
device_id_of d = d.id

abbrev pub suite_id_of : TestSuite → ℕ
suite_id_of s = s.id

abbrev pub run_id_of : TestRun → ℕ
run_id_of r = r.id

abbrev pub job_id_of : TestJob → ℕ
job_id_of j = j.id

-- `session.scalar(select(Row).where(Row.id == id))`, and the relationships of a row.
abbrev pub find_device : ℕ → List Device → Option Device
find_device = find_by device_id_of

abbrev pub find_suite : ℕ → List TestSuite → Option TestSuite
find_suite = find_by suite_id_of

abbrev pub find_run : ℕ → List TestRun → Option TestRun
find_run = find_by run_id_of

abbrev pub find_job : ℕ → List TestJob → Option TestJob
find_job = find_by job_id_of

-- Flushing a changed object.
abbrev pub put_device : Device → Db → Db
put_device d db = record db { devices = put_by device_id_of d db.devices }

abbrev pub put_run : TestRun → Db → Db
put_run r db = record db { runs = put_by run_id_of r db.runs }

abbrev pub put_job : TestJob → Db → Db
put_job j db = record db { jobs = put_by job_id_of j db.jobs }
