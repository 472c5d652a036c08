-- ===== src/Agent/Control/Recovers.antt =====
-- The loop recovers: two rounds that get through make the process a live device again, whatever came
-- before.
use hilforge.Base.{
  ℕ, ◌≡◌, ◌⊎◌, inl, inr, refl, subst, true, false, Option, none, some, arith, is_some,
  if◌then◌else◌, ltb, Option-cases, find_by-put_by_self, ok, err, device_not_found, put_by,
}
use hilforge.Domain.Status.{online, busy}
use hilforge.Domain.Rows.{Device, Db, find_device, device_id_of, put_device}
use hilforge.Devices.{DeviceRegister, register_device, record_heartbeat}
use hilforge.Devices.Valid.{record_heartbeat_lem, register_device-IsValid}
use hilforge.Devices.Registered.{register_device_lem}
use hilforge.Invariant.Reserved.{active_count}
use hilforge.Invariant.Valid.{IsValid}
use hilforge.Web.Handlers.{heartbeat_endpoint}
use hilforge.Agent.Control.{Round, delivers, loop_round, http_exception, body}

-- The device is known under the identifier, and was heard of at a time.
abbrev pub IsLive : ℕ → ℕ → Db → Type 0
IsLive device_id now db =
    (device : Device) × (find_device device_id db.devices ≡ some device)
    × (device.last_heartbeat_at ≡ some now)
    × (device.status ≡ (if ltb 0 (active_count device_id db.jobs) then busy else online))

-- A round whose request and answer get through.
abbrev pub through : ℕ → ℕ → Round
through now new_id = record { now = now; new_id = new_id; network = delivers }

-- A heartbeat that is recorded is one of a known device, whose row is written.
known :
    {max_attempts : ℕ} {db : Db} (v : IsValid max_attempts db) (device_id now : ℕ)
    (device' : Device)
    → device'.id ≡ device_id
    → record_heartbeat device_id (record { capabilities = none }) now db
      ≡ ok (device', put_device device' db)
    → find_device device_id (put_device device' db).devices ≡ some device'
unfolding record_heartbeat
known {db = db} v device_id now device' i e =
    elim (Option-cases (find_device device_id db.devices)) [
      | inl absent ↦
          let refused : record_heartbeat device_id (record { capabilities = none }) now db
              ≡ err device_not_found =
            rw (absent, record_heartbeat) in
          cc
      | inr (device, f) ↦
          subst
            (λ k.
              find_device k db.devices ≡ some device
              → find_device k (put_by device_id_of device' db.devices) ≡ some device')
            i (find_by-put_by_self device_id_of device device' db.devices) f
    ]

heartbeat_endpoint_lem :
    {max_attempts : ℕ} {db : Db} (v : IsValid max_attempts db) (device_id now : ℕ)
    → ((heartbeat_endpoint device_id none now db ≡ (http_exception 404, db))
        × (find_device device_id db.devices ≡ none))
      ⊎ ((device' : Device) × (heartbeat_endpoint device_id none now db
            ≡ (body device', put_device device' db))
          × IsLive device_id now (put_device device' db))
unfolding heartbeat_endpoint
heartbeat_endpoint_lem v device_id now =
    elim (record_heartbeat_lem v device_id (record { capabilities = none }) now) [
      | inl (absent, e) ↦ inl (rw (e, heartbeat_endpoint), absent)
      | inr (device', e, v', i, h, s) ↦
          inr (
            device',
            rw (e, heartbeat_endpoint),
            (device', known v device_id now device' i e, h, s),
          )
    ]

module _ {max_attempts : ℕ} {db : Db} (v : IsValid max_attempts db) (registration : DeviceRegister)
    (now new_id : ℕ) where
  -- A round that gets through, by what the process knew before.
  register_round :
      is_some (find_device new_id db.devices) ≡ false
      → let (id, db') = loop_round registration (through now new_id) none db in
        IsValid max_attempts db' × ((k : ℕ) × (id ≡ some k) × IsLive k now db')
  unfolding loop_round
  register_round fresh =
      let (f, n, h, s, j) = register_device_lem v registration new_id now fresh in
      let (device, db') = register_device registration new_id now db in
      (
        register_device-IsValid v registration new_id now fresh,
        (device.id, refl, (device, f, h, rw j s)),
      )

  heartbeat_round :
      (device_id : ℕ)
      → let (id, db') = loop_round registration (through now new_id) (some device_id) db in
        ((id ≡ none) × (db' ≡ db)) ⊎ ((id ≡ some device_id) × IsLive device_id now db')
  unfolding loop_round
  heartbeat_round device_id = elim (heartbeat_endpoint_lem v device_id now) [
    | inl (e, absent) ↦ rw e (inl (refl, refl))
    | inr (device', e, live) ↦ rw e (inr (refl, live))
  ]

abbrev Keeps : Db → Db → Type 0
Keeps db db' =
    (k : ℕ) → is_some (find_device k db.devices) ≡ true → is_some (find_device k db'.devices) ≡ true

module _ {max_attempts : ℕ} {db : Db} (v : IsValid max_attempts db) (registration : DeviceRegister)
    (now new_id now' new_id' : ℕ) (fresh : is_some (find_device new_id db.devices) ≡ false) where
  live-is_some :
      (k at : ℕ) (db' : Db) → IsLive k at db' → is_some (find_device k db'.devices) ≡ true
  live-is_some k at db' (device, f, h, s) = rw f refl

  -- The second round of a process that knows its device.
  again :
      {db₂ : Db}
      → IsValid max_attempts db₂
      → (k : ℕ) → is_some (find_device k db₂.devices) ≡ true
      → let (id, db₃) = loop_round registration (through now' new_id') (some k) db₂ in
        (k : ℕ) × (id ≡ some k) × IsLive k now' db₃
  unfolding loop_round
  again {db₂} v₂ k there = elim (heartbeat_endpoint_lem v₂ k now') [
    | inl (e, absent) ↦ absurd (ground (arith, absent))
    | inr (device', e, live) ↦ rw e (k, refl, live)
  ]

  -- On a valid database, with unused identifiers at hand, whatever the process knew before: if two of
  -- its rounds get through, the database is valid before the second, and no device that was known
  -- after the first has gone, then the process holds the identifier of a known device that was
  -- heard of in the second round, busy exactly if it has an active job and online otherwise.
  pub two_rounds-IsLive :
      (before : Option ℕ) {db₂ : Db}
      → IsValid max_attempts db₂
      → Keeps (loop_round registration (through now new_id) before db).1 db₂
      → is_some (find_device new_id' db₂.devices) ≡ false
      → let known = (loop_round registration (through now new_id) before db).0 in
        let (id, db₃) = loop_round registration (through now' new_id') known db₂ in
        (k : ℕ) × (id ≡ some k) × IsLive k now' db₃
  two_rounds-IsLive none {db₂} v₂ stay fresh₂ =
      let (v', (k, id, live)) = register_round v registration now new_id fresh in
      rw id (
        again v₂ k (
          stay k
            (live-is_some k now (loop_round registration (through now new_id) none db).1 live)))
  two_rounds-IsLive (some d) {db₂} v₂ stay fresh₂ =
      elim (heartbeat_round v registration now new_id d) [
        | inl (id, same) ↦ rw id (register_round v₂ registration now' new_id' fresh₂).1
        | inr (id, live) ↦ rw id (
            again v₂ d (
              stay d (
                live-is_some d now (loop_round registration (through now new_id) (some d) db).1
                  live)))
      ]
