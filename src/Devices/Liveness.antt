-- ===== src/Devices/Liveness.antt =====
-- Which devices are live: the scan, the availability query and the release agree on the timeout.
use hilforge.Base.{ℕ, ◌≡◌, ◌≢◌, refl, not, List, [], ◌∷◌, map, arith, count_where}
use hilforge.Domain.Status.{offline, busy}
use hilforge.Domain.Rows.{Device, Db}
use hilforge.Clock.{heartbeat_is_fresh}
use hilforge.Devices.{
  is_stale, set_offline, mark_stale_devices_offline, is_available, release_device,
}

-- A device that is not offline is stale exactly if its heartbeat is not fresh.
pub is_stale-fresh :
    (timeout now : ℕ) (device : Device)
    → device.status ≢ offline
    → is_stale timeout now device ≡ not (heartbeat_is_fresh device.last_heartbeat_at now timeout)
unfolding is_stale heartbeat_is_fresh
is_stale-fresh timeout now device n = ground arith

-- A device that is released at some moment is available then exactly if its heartbeat is fresh, the
-- scan of that moment leaves it as it is, and it is not busy.
pub release_device_lem :
    (device : Device) (timeout now : ℕ)
    → let device' = release_device device timeout now in
      (is_available timeout now device' ≡ heartbeat_is_fresh device.last_heartbeat_at now timeout)
      × (set_offline timeout now device' ≡ device')
      × (device'.status ≢ busy)
unfolding release_device is_available set_offline is_stale heartbeat_is_fresh
release_device_lem device timeout now = (ground arith, ground arith, ground arith)

settled :
    (timeout now : ℕ) (devices : List Device)
    → count_where (is_stale timeout now) (map (set_offline timeout now) devices) ≡ 0
unfolding is_stale set_offline
settled timeout now [] = refl
settled timeout now (d ∷ ds) = ground (arith, settled timeout now ds)

unchanged :
    (timeout now : ℕ) (devices : List Device)
    → count_where (is_stale timeout now) devices ≡ 0
    → map (set_offline timeout now) devices ≡ devices
unfolding set_offline
unchanged timeout now [] h = refl
unchanged timeout now (d ∷ ds) h = ground (arith, unchanged timeout now ds)

-- A second scan for stale devices at the same time changes no row.
pub mark_stale_devices_offline_twice :
    (timeout now : ℕ) (db : Db)
    → let db' = (mark_stale_devices_offline timeout now db).1 in
      mark_stale_devices_offline timeout now db' ≡ (0, db')
unfolding mark_stale_devices_offline
mark_stale_devices_offline_twice timeout now db = ground (
  arith,
  settled timeout now db.devices,
  unchanged timeout now (map (set_offline timeout now) db.devices),
)
