-- ===== src/HostAgent/Checks.antt =====
-- host_agent/checks.py: the checks of the machine, as functions of what the operating system and the
-- libraries answer. A call that raises one of the exceptions that `_run` names ends the checks.
pub mod Probes
pub mod Sound
pub mod Passes
use hilforge.Base.{
  ℕ, zero, suc, ◌+◌, ◌-◌, ◌*◌, ◌/◌, Bool, true, false, not, String, Option, none, some, List, [],
  ◌∷◌, ◌++◌, map, where_true, order_by, ltb, ◌==◌, ◌||◌,
}
use hilforge.Domain.Json.{Json, Items, Fields, num, str, arr, obj, nil, cons, field, end}
use hilforge.Text.{codes_eq}
use hilforge.HostAgent.Endpoint.{HostChecks, collected, broken}
use Probes.{
  Check, returned, raised, ◌>>=◌, ◌>>◌, raise_if, inet, inet6, other, Address, Interface, Battery,
  Sensors, sensed, no_sensors, Disk, Platform, Machine,
}

abbrev pub memory_test_bytes : ℕ
memory_test_bytes = 4 * 1024 * 1024

abbrev pub storage_test_bytes : ℕ
storage_test_bytes = 1024 * 1024

-- `range(n)`, from its end.
bytes_below : ℕ → List ℕ
bytes_below zero = []
bytes_below (suc n) = bytes_below n ++ n ∷ []

pattern_bytes : List ℕ
unfolding bytes_below
pattern_bytes = bytes_below 256

times : List ℕ → ℕ → List ℕ
times bytes zero = []
times bytes (suc n) = bytes ++ times bytes n

-- `PATTERN * (size // len(PATTERN))`.
unfoldable pub test_payload : ℕ → List ℕ
unfolding pattern_bytes times
test_payload size = times pattern_bytes (size / 256)

validation : ℕ → Json → Json
validation bytes duration = obj (
    field "bytes_tested" (num bytes)
      (field "sha256_match" (Json.bool true) (field "duration_ms" duration end)))

unfoldable pub validate_memory : Machine → Check Json
unfolding validation
validate_memory m = do
  let expected = test_payload memory_test_bytes
  candidate ← m.copied expected
  raise_if (not (m.sha256 candidate == m.sha256 expected)) "Bounded memory integrity check failed"
  returned (validation memory_test_bytes (m.rounded_ms m.memory_elapsed))

-- The disk, and the validation of its storage.
unfoldable pub validate_storage : Machine → Check (Disk × Json)
unfolding validation
validate_storage m = do
  let payload = test_payload storage_test_bytes
  usage ← m.disk_usage
  actual ← m.read_back payload
  raise_if (not (codes_eq actual payload) || not (m.sha256 actual == m.sha256 payload))
      "Temporary-file storage integrity check failed"
  returned (usage, validation storage_test_bytes (m.rounded_ms m.storage_elapsed))

-- `item.family in {AF_INET, AF_INET6}`.
abbrev pub is_ip : Address → Bool
is_ip a = elim a.family [ inet ↦ true | inet6 ↦ true | other ↦ false ]

pub is_nonempty {ℓ} : {A : Type ℓ} → List A → Bool
is_nonempty [] = false
is_nonempty (x ∷ xs) = true

unfoldable pub network_addresses : Machine → Check (List Interface)
unfolding is_nonempty
network_addresses m = do
  interfaces ← m.net_if_addrs
  let named = order_by (λ i j. m.name_le i.0 j.0) interfaces
  let with_ip : List Interface = map (λ i. (i.0, where_true is_ip i.1)) named
  returned (where_true (λ i. is_nonempty i.1) with_ip)

address_items : List Address → Items
address_items [] = nil
address_items (a ∷ addresses) = cons (str a.address) (address_items addresses)

interface_fields : List Interface → Fields
unfolding address_items
interface_fields [] = end
interface_fields ((name, addresses) ∷ interfaces) =
    field name (arr (address_items addresses)) (interface_fields interfaces)

-- `cpu_count` gave a number, and at least 1.
abbrev pub counted : Option ℕ → Bool
counted none = false
counted (some n) = ltb 0 n

abbrev count_json : Option ℕ → Json
count_json none = Json.null
count_json (some n) = num n

-- What the handler around `sensors_battery` leaves.
abbrev pub battery_of : Sensors → Option Battery
battery_of (sensed battery) = battery
battery_of no_sensors = none

abbrev pub checks_total : Option Battery → ℕ
checks_total none = 8
checks_total (some battery) = 9

battery_json : Option Battery → Json
battery_json none = obj (
    field "available" (Json.bool false)
      (field "percent" Json.null (field "charging" Json.null end)))
battery_json (some battery) = obj (
    field "available" (Json.bool true) (
      field "percent" battery.percent (
        field "charging" (elim battery.power_plugged [ none ↦ Json.null | some b ↦ Json.bool b ])
          end)))

system_json : Platform → String → Json
system_json p hostname = obj (
    field "os" (str p.os) (
      field "release" (str p.release) (
        field "version" (str p.version)
          (field "hostname" (str hostname) (field "architecture" (str p.architecture) end)))))

-- The document of the checks, from what they found.
unfoldable pub host_report :
    Machine → Option ℕ → Option ℕ → ℕ × ℕ → ℕ → Disk × Json → Json → List Interface → String → Json
unfolding battery_json interface_fields system_json
host_report m physical logical (total, available) uptime (disk, storage) memory interfaces
      hostname =
    let battery = battery_of m.battery in
    obj (
      field "checks_total" (num (checks_total battery)) (
        field "checks_passed" (num (checks_total battery)) (
          field "system" (system_json m.platform hostname) (
            field "cpu"
              (obj (
                field "physical_cores" (count_json physical)
                  (field "logical_cores" (count_json logical) end)))
              (field "memory"
                (obj (
                  field "total_bytes" (num total)
                    (field "available_bytes" (num available) (field "integrity" memory end))))
                (field "disk"
                  (obj (
                    field "volume" (str disk.volume) (
                      field "total_bytes" (num disk.total_bytes) (
                        field "free_bytes" (num disk.free_bytes) (field "integrity" storage end)))))
                  (field "uptime_seconds" (m.rounded_seconds uptime) (
                    field "network"
                      (obj (field "interfaces" (obj (interface_fields interfaces)) end))
                      (field "battery" (battery_json battery) end)))))))))

-- `max(0.0, now - boot_time)` is the subtraction that stops at 0; `memory.available < 0` holds of no
-- number of bytes.
unfoldable pub collect_host_checks : Machine → Check Json
unfolding host_report is_nonempty
collect_host_checks m = do
  (physical, logical) ← m.cpu_count
  raise_if (not (counted physical) || not (counted logical)) "CPU core counts are unavailable"
  (total, available) ← m.virtual_memory
  raise_if (not (ltb 0 total)) "System memory information is unavailable"
  boot ← m.boot_time
  let uptime = m.now - boot
  (disk, storage) ← validate_storage m
  memory ← validate_memory m
  interfaces ← network_addresses m
  raise_if (not (is_nonempty interfaces)) "No IP network addresses are available"
  hostname ← m.hostname
  returned (
      host_report m physical logical (total, available) uptime (disk, storage) memory interfaces
        hostname)

-- How the thread that `_run` awaits ends.
unfoldable pub host_checks : Machine → HostChecks
host_checks m = elim (collect_host_checks m) [
  | returned result ↦ collected result
  | raised reason ↦ broken reason
]
