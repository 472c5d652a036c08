-- ===== src/Devices.antt =====
-- services/devices.py: registration, heartbeats, liveness, and the release of a device. Each
-- function is the body of one database transaction; `with_for_update` makes it atomic for its rows.
pub mod Text
pub mod Valid
pub mod Registered
pub mod Liveness
use hilforge.Base.{
  ℕ, zero, suc, ◌+◌, String, Bool, true, false, Option, none, some, List, [], ◌∷◌, ◌++◌, map, ◌&&◌,
  ◌||◌, if◌then◌else◌, ltb, leb, ◌==◌, str_eq, any, where_true, count_where, length, Result, ok,
  err, device_not_found,
}
use hilforge.Domain.Json.{Json}
use hilforge.Domain.Status.{
  DeviceStatus, online, offline, busy, device_status_eq, active_job_statuses,
}
use hilforge.Domain.Rows.{Device, TestJob, Db, find_device, put_device}
use hilforge.Clock.{heartbeat_is_fresh}
use Text.{rstrip_slash}

-- `DeviceRegister` and `DeviceHeartbeat` of schemas/api.py.
pub record DeviceRegister : Type 0 where
  pub name : String
  pub device_type : String
  pub endpoint_url : String
  pub capabilities : Json

pub record DeviceHeartbeat : Type 0 where
  pub capabilities : Option Json

is_active_on : ℕ → TestJob → Bool
is_active_on device_id job = job.device_id == device_id && active_job_statuses job.status

unfoldable pub has_active_job : List TestJob → ℕ → Bool
unfolding is_active_on
has_active_job jobs device_id = any (is_active_on device_id) jobs

-- The status that a device which has just been heard of is given.
unfoldable pub live_status : List TestJob → ℕ → DeviceStatus
live_status jobs device_id = if has_active_job jobs device_id then busy else online

-- `select(Device).where(Device.name == name)`.
unfoldable pub find_device_by_name : String → List Device → Option Device
find_device_by_name name [] = none
find_device_by_name name (d ∷ ds) =
    if str_eq d.name name then some d else find_device_by_name name ds

-- The row of a device that registers for the first time; `new_id` is its UUID.
unfoldable pub new_device : DeviceRegister → ℕ → ℕ → Device
new_device registration new_id now = record {
  id = new_id;
  name = registration.name;
  device_type = registration.device_type;
  status = online;
  last_heartbeat_at = some now;
  endpoint_url = rstrip_slash registration.endpoint_url;
  capabilities = registration.capabilities;
  created_at = now;
}

-- The row of a device that registers again.
unfoldable pub registered_again : DeviceRegister → ℕ → List TestJob → Device → Device
unfolding live_status
registered_again registration now jobs device = record device {
  device_type = registration.device_type;
  endpoint_url = rstrip_slash registration.endpoint_url;
  capabilities = registration.capabilities;
  last_heartbeat_at = some now;
  status = live_status jobs device.id;
}

unfoldable pub register_device : DeviceRegister → ℕ → ℕ → Db → Device × Db
unfolding new_device registered_again
register_device registration new_id now db =
    elim (find_device_by_name registration.name db.devices) [
      | none ↦
          let device = new_device registration new_id now in
          (device, record db { devices = db.devices ++ device ∷ [] })
      | some device ↦
          let device' = registered_again registration now db.jobs device in
          (device', put_device device' db)
    ]

-- What a heartbeat writes into the row of its device.
unfoldable pub beat : DeviceHeartbeat → ℕ → List TestJob → Device → Device
unfolding live_status
beat heartbeat now jobs device = record device {
  last_heartbeat_at = some now;
  capabilities = elim heartbeat.capabilities [ none ↦ device.capabilities | some c ↦ c ];
  status = live_status jobs device.id;
}

unfoldable pub record_heartbeat : ℕ → DeviceHeartbeat → ℕ → Db → Result (Device × Db)
unfolding beat
record_heartbeat device_id heartbeat now db = elim (find_device device_id db.devices) [
  | none ↦ err device_not_found
  | some device ↦
      let device' = beat heartbeat now db.jobs device in ok (device', put_device device' db)
]

-- The `WHERE` of `mark_stale_devices_offline`: not offline, and no heartbeat since `now - timeout`.
unfoldable pub is_stale : ℕ → ℕ → Device → Bool
is_stale timeout_seconds now device =
    (device_status_eq device.status online || device_status_eq device.status busy)
    && elim device.last_heartbeat_at [ none ↦ true | some at ↦ leb (at + timeout_seconds) now ]

unfoldable pub set_offline : ℕ → ℕ → Device → Device
set_offline timeout_seconds now device =
    if is_stale timeout_seconds now device then record device { status = offline } else device

-- The number of rows that changed, and the database after.
unfoldable pub mark_stale_devices_offline : ℕ → ℕ → Db → ℕ × Db
unfolding set_offline
mark_stale_devices_offline timeout_seconds now db = (
  count_where (is_stale timeout_seconds now) db.devices,
  record db { devices = map (set_offline timeout_seconds now) db.devices },
)

-- The `WHERE` of `available_devices_query`.
unfoldable pub is_available : ℕ → ℕ → Device → Bool
is_available heartbeat_timeout_seconds now device =
    device_status_eq device.status online && elim device.last_heartbeat_at [
      | none ↦ false
      | some at ↦ ltb now (at + heartbeat_timeout_seconds)
    ]

unfoldable pub release_device : Device → ℕ → ℕ → Device
release_device device heartbeat_timeout_seconds now = record device {
  status =
      if heartbeat_is_fresh device.last_heartbeat_at now heartbeat_timeout_seconds
      then online
      else offline;
}
