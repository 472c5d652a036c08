-- ===== src/Devices/Registered.antt =====
-- What a registration leaves behind.
use hilforge.Base.{
  ℕ, ◌≡◌, refl, subst, false, some, List, [], ◌∷◌, ◌++◌, arith, inl, inr, if◌then◌else◌, ltb,
  String, str_eq, eq_iff, All, All-find_by_self, find_by, find_by-put_by_self, is_some,
  Option-cases, Bool-cases,
}
use hilforge.Domain.Status.{online, busy}
use hilforge.Domain.Rows.{Device, Db, find_device, device_id_of}
use hilforge.Devices.{
  DeviceRegister, register_device, new_device, registered_again, find_device_by_name,
}
use hilforge.Devices.Valid.{unreferenced}
use hilforge.Invariant.Reserved.{active_count, has_active_job-active_count}
use hilforge.Invariant.Valid.{IsValid}

All-find_device_by_name {ℓ} :
    (P : Device → Type ℓ) (name : String) (ds : List Device) {d : Device}
    → All P ds
    → find_device_by_name name ds ≡ some d
    → P d
unfolding find_device_by_name
All-find_device_by_name P name [] h e = cc
All-find_device_by_name P name (x ∷ ds) {d} h e = elim (Bool-cases (str_eq x.name name)) [
  | inl same ↦ let here : x ≡ d = ground (arith, same) in subst P here h.0
  | inr other ↦ All-find_device_by_name P name ds {d = d} h.1 (ground (arith, other))
]

find_device_by_name-name :
    (name : String) (ds : List Device) {d : Device}
    → find_device_by_name name ds ≡ some d
    → d.name ≡ name
unfolding find_device_by_name
find_device_by_name-name name [] e = cc
find_device_by_name-name name (x ∷ ds) {d} e =
    ground (arith, eq_iff x.name name, find_device_by_name-name name ds {d = d})

find_by-append_last :
    (d : Device) (ds : List Device)
    → is_some (find_device d.id ds) ≡ false
    → find_device d.id (ds ++ d ∷ []) ≡ some d
unfolding find_by
find_by-append_last d [] n = ground arith
find_by-append_last d (x ∷ ds) n = ground (arith, find_by-append_last d ds)

module _ {max_attempts : ℕ} {db : Db} (v : IsValid max_attempts db) where
  -- On a valid database, with an unused identifier at hand, a registration returns a device that is
  -- in the database afterwards, under the registered name and with the time of the registration as
  -- its heartbeat. It is busy exactly if it has an active job, and online otherwise. No job changes.
  pub register_device_lem :
      (registration : DeviceRegister) (new_id now : ℕ)
      → is_some (find_device new_id db.devices) ≡ false
      → let (device, db') = register_device registration new_id now db in
        (find_device device.id db'.devices ≡ some device)
        × (device.name ≡ registration.name)
        × (device.last_heartbeat_at ≡ some now)
        × (device.status ≡ (if ltb 0 (active_count device.id db.jobs) then busy else online))
        × (db'.jobs ≡ db.jobs)
  unfolding register_device
  register_device_lem registration new_id now fresh =
      elim (Option-cases (find_device_by_name registration.name db.devices)) [
        | inl absent ↦
            let device = new_device registration new_id now in
            rw (absent, register_device)
              (
                find_by-append_last device db.devices fresh,
                refl,
                refl,
                rw (unreferenced new_id db.devices db.runs db.jobs v.linked.jobs fresh) refl,
                refl,
              )
        | inr (device, f) ↦
            let device' = registered_again registration now db.jobs device in
            let self =
              All-find_device_by_name _ registration.name db.devices
                (All-find_by_self device_id_of db.devices v.reserved.distinct) f in
            rw (f, register_device)
              (
                find_by-put_by_self device_id_of device device' db.devices self,
                find_device_by_name-name registration.name db.devices f,
                refl,
                rw (has_active_job-active_count db.jobs device.id) refl,
                refl,
              )
      ]
