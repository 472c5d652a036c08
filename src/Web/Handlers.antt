-- ===== src/Web/Handlers.antt =====
-- The handlers of web.py that run a service, and the publication of jobs in queueing.py.
use hilforge.Base.{
  ℕ, ◌*◌, ◌/◌, ◌%◌, Bool, true, false, Option, none, some, List, [], ◌∷◌, if◌then◌else◌, Result, ok,
  err, ◌>>=◌, Error, test_suite_not_found, no_available_devices,
}
use hilforge.Domain.Rows.{Device, Db, find_device}
use hilforge.Config.{Settings}
use hilforge.Devices.{DeviceRegister, register_device, DeviceHeartbeat, record_heartbeat}
use hilforge.Runs.Create.{RunCreate, Surroundings, create_run}
use hilforge.Runs.Read.{TestRunRead, load_run, run_read_model}

-- A response: a body, an `HTTPException` with its status, or an exception that no handler catches.
pub data Response (A : Type 0) : Type 0 where
  body : A → Response A
  http_exception : ℕ → Response A
  unhandled : Error → Response A

-- `enqueue_jobs`: `enqueue_job` for each job until the broker refuses one. The result is what was
-- published, and whether the call returned.
unfoldable pub enqueue_jobs : (ℕ → Bool) → List ℕ → List ℕ × Bool
enqueue_jobs accepts [] = ([], true)
enqueue_jobs accepts (k ∷ ks) =
    let (published, done) = enqueue_jobs accepts ks in
    if accepts k then (k ∷ published, done) else ([], false)

-- The two handlers of exceptions in `post_run`, and what passes them.
on_create_error : Error → Response TestRunRead
on_create_error test_suite_not_found = http_exception 404
on_create_error (no_available_devices message) = http_exception 409
on_create_error e = unhandled e

unfoldable pub respond : {A : Type 0} → Result A → Response A
respond (ok read) = body read
respond (err e) = unhandled e

-- `post_run`: the response, what was published, and the committed database. A failed publication is
-- logged; the reconciler recovers the run.
unfoldable pub post_run :
    Settings → Surroundings → (ℕ → Bool) → RunCreate → Db → Response TestRunRead × List ℕ × Db
unfolding on_create_error respond
post_run settings env accepts request db =
    elim (create_run env settings.heartbeat_timeout_seconds request db) [
      | err e ↦ (on_create_error e, [], db)
      | ok (run, job_ids, db') ↦
          let (published, done) = enqueue_jobs accepts job_ids in
          (respond (load_run run.id db' >>= run_read_model db'), published, db')
    ]

-- `get_run`.
unfoldable pub get_run : ℕ → Db → Response TestRunRead
unfolding respond
get_run run_id db = elim (load_run run_id db) [
  | err e ↦ http_exception 404
  | ok run ↦ respond (run_read_model db run)
]

-- `register_device_endpoint`.
unfoldable pub register_device_endpoint : DeviceRegister → ℕ → ℕ → Db → Response Device × Db
register_device_endpoint registration new_id now db =
    let (device, db') = register_device registration new_id now db in (body device, db')

-- `heartbeat_endpoint`; no document is the empty heartbeat.
unfoldable pub heartbeat_endpoint : ℕ → Option DeviceHeartbeat → ℕ → Db → Response Device × Db
heartbeat_endpoint device_id heartbeat now db =
    elim (record_heartbeat device_id
      (elim heartbeat [ none ↦ record { capabilities = none } | some h ↦ h ]) now db) [
        | err e ↦ (http_exception 404, db)
        | ok (device, db') ↦ (body device, db')
      ]

-- `get_device`.
unfoldable pub get_device : ℕ → Db → Response Device
get_device device_id db = elim (find_device device_id db.devices) [
  | none ↦ http_exception 404
  | some device ↦ body device
]

-- The numbers of `format_uptime`: days, hours and minutes of a number of whole seconds.
unfoldable pub uptime_parts : ℕ → ℕ × ℕ × ℕ
uptime_parts value =
    let minutes = value / 60 in
    let remainder = minutes % (24 * 60) in (minutes / (24 * 60), remainder / 60, remainder % 60)
