-- ===== src/Devices/Valid.antt =====
-- Registration, heartbeats and the liveness scan keep a database valid.
use hilforge.Base.{
  ℕ, ◌≡◌, ◌≢◌, ◌⊎◌, inl, inr, refl, false, none, some, List, [], ◌∷◌, ◌++◌, map, arith,
  if◌then◌else◌, ok, err, device_not_found, is_some, ltb, All, All-append, All-imp, Distinct-append,
  find_by, find_by-key, Option-cases, if_intro,
}
use hilforge.Domain.Status.{online, busy}
use hilforge.Domain.Rows.{Device, TestRun, TestJob, Db, find_device, put_device, device_id_of}
use hilforge.Devices.{
  DeviceRegister, DeviceHeartbeat, live_status, beat, find_device_by_name, register_device,
  new_device, registered_again, record_heartbeat, is_stale, set_offline, mark_stale_devices_offline,
}
use hilforge.Invariant.Reserved.{
  IsFree, active_count, has_active_job-active_count, Reserved-put_device,
}
use hilforge.Invariant.Linked.{
  HasRows, is_some-find_by-put_by, is_some-find_by-append, not_found, found-ne,
}
use hilforge.Invariant.Valid.{IsValid}

-- A device that no job refers to has no active job.
pub unreferenced :
    (d : ℕ) (devices : List Device) (runs : List TestRun) (jobs : List TestJob)
    → All (HasRows devices runs) jobs
    → is_some (find_device d devices) ≡ false
    → active_count d jobs ≡ 0
unfolding active_count
unreferenced d devices runs [] h n = refl
unreferenced d devices runs (j ∷ jobs) h n =
    let apart : j.device_id ≢ d = found-ne device_id_of j.device_id d devices h.0.0 n in
    ground (arith, unreferenced d devices runs jobs h.1 n)

-- The status of a device that was heard of fits its jobs.
live_status-IsFree :
    (jobs : List TestJob) (device : Device)
    → device.status ≡ live_status jobs device.id
    → IsFree jobs device
unfolding live_status
live_status-IsFree jobs device s on = ground (arith, has_active_job-active_count jobs device.id)

module _ {max_attempts : ℕ} {db : Db} (v : IsValid max_attempts db) where
  pub IsValid-put_device :
      (device' : Device) → IsFree db.jobs device' → IsValid max_attempts (put_device device' db)
  IsValid-put_device device' f = record {
    reserved = Reserved-put_device v.reserved device' f;
    agrees = v.agrees;
    linked = record {
      jobs =
          All-imp _ _ db.jobs
            (λ j g.
              (rw (is_some-find_by-put_by device_id_of j.device_id device' db.devices) g.0, g.1))
            v.linked.jobs;
      runs = v.linked.runs;
    };
    attempts = v.attempts;
  }

  IsValid-new_device :
      (device : Device)
      → is_some (find_device device.id db.devices) ≡ false
      → IsValid max_attempts (record db { devices = db.devices ++ device ∷ [] })
  IsValid-new_device device fresh = record {
    reserved = record {
      distinct =
          Distinct-append device_id_of db.devices device
            (not_found device_id_of device.id db.devices fresh) v.reserved.distinct;
      once = v.reserved.once;
      free =
          All-append _ db.devices (device ∷ []) v.reserved.free
            (λ on. unreferenced device.id db.devices db.runs db.jobs v.linked.jobs fresh, tt);
    };
    agrees = v.agrees;
    linked = record {
      jobs =
          All-imp _ _ db.jobs
            (λ j g. (is_some-find_by-append device_id_of j.device_id db.devices device g.0, g.1))
            v.linked.jobs;
      runs = v.linked.runs;
    };
    attempts = v.attempts;
  }

  -- A registration, with an unused identifier at hand, leaves a valid database valid.
  pub register_device-IsValid :
      (registration : DeviceRegister) (new_id now : ℕ)
      → is_some (find_device new_id db.devices) ≡ false
      → IsValid max_attempts (register_device registration new_id now db).1
  unfolding register_device
  register_device-IsValid registration new_id now fresh =
      elim (Option-cases (find_device_by_name registration.name db.devices)) [
        | inl absent ↦
            rw (absent, register_device)
              (IsValid-new_device (new_device registration new_id now) fresh)
        | inr (device, f) ↦
            let device' = registered_again registration now db.jobs device in
            rw (f, register_device)
              (IsValid-put_device device' (live_status-IsFree db.jobs device' refl))
      ]

  -- On a valid database, the heartbeat of an unknown device is refused. That of a known one writes
  -- the row of this device, with the time of the heartbeat and with the status busy exactly if the
  -- device has an active job and online otherwise, and leaves the database valid.
  pub record_heartbeat_lem :
      (device_id : ℕ) (heartbeat : DeviceHeartbeat) (now : ℕ)
      → ((find_device device_id db.devices ≡ none)
          × (record_heartbeat device_id heartbeat now db ≡ err device_not_found))
        ⊎ ((device' : Device) × (record_heartbeat device_id heartbeat now db
              ≡ ok (device', put_device device' db))
            × IsValid max_attempts (put_device device' db)
            × (device'.id ≡ device_id)
            × (device'.last_heartbeat_at ≡ some now)
            × (device'.status ≡ (if ltb 0 (active_count device_id db.jobs) then busy else online)))
  unfolding record_heartbeat beat live_status
  record_heartbeat_lem device_id heartbeat now =
      elim (Option-cases (find_device device_id db.devices)) [
        | inl absent ↦ inl (absent, rw (absent, record_heartbeat))
        | inr (device, f) ↦
            let device' = beat heartbeat now db.jobs device in
            inr (
              device',
              rw (f, record_heartbeat),
              IsValid-put_device device' (live_status-IsFree db.jobs device' refl),
              find_by-key device_id_of device_id db.devices f,
              refl,
              ground (
                arith,
                has_active_job-active_count db.jobs device.id,
                find_by-key device_id_of device_id db.devices f,
              ),
            )
      ]

  keys-set_offline :
      (timeout now : ℕ) (devices : List Device)
      → map device_id_of (map (set_offline timeout now) devices) ≡ map device_id_of devices
  unfolding set_offline
  keys-set_offline timeout now [] = refl
  keys-set_offline timeout now (d ∷ ds) = ground (arith, keys-set_offline timeout now ds)

  found-set_offline :
      (timeout now k : ℕ) (devices : List Device)
      → is_some (find_device k (map (set_offline timeout now) devices))
        ≡ is_some (find_device k devices)
  unfolding set_offline find_by
  found-set_offline timeout now k [] = refl
  found-set_offline timeout now k (d ∷ ds) = ground (arith, found-set_offline timeout now k ds)

  IsFree-set_offline :
      (timeout now : ℕ) (devices : List Device)
      → All (IsFree db.jobs) devices
      → All (IsFree db.jobs) (map (set_offline timeout now) devices)
  unfolding set_offline
  IsFree-set_offline timeout now [] h = tt
  IsFree-set_offline timeout now (d ∷ ds) h = (
    if_intro (IsFree db.jobs) (is_stale timeout now d) (λ on. cc) h.0,
    IsFree-set_offline timeout now ds h.1,
  )

  -- The scan for stale devices leaves a valid database valid.
  pub mark_stale_devices_offline-IsValid :
      (timeout now : ℕ) → IsValid max_attempts (mark_stale_devices_offline timeout now db).1
  unfolding mark_stale_devices_offline
  mark_stale_devices_offline-IsValid timeout now = record {
    reserved = record {
      distinct = rw (keys-set_offline timeout now db.devices) v.reserved.distinct;
      once = v.reserved.once;
      free = IsFree-set_offline timeout now db.devices v.reserved.free;
    };
    agrees = v.agrees;
    linked = record {
      jobs =
          All-imp _ _ db.jobs
            (λ j g. (rw (found-set_offline timeout now j.device_id db.devices) g.0, g.1))
            v.linked.jobs;
      runs = v.linked.runs;
    };
    attempts = v.attempts;
  }
