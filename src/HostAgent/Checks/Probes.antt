-- ===== src/HostAgent/Checks/Probes.antt =====
-- What the checks of host_agent/checks.py are given: the answers of the operating system and of the
-- libraries, and the monad of calls that may raise.
use hilforge.Base.{ℕ, Bool, true, false, String, Option, List}
use hilforge.Domain.Json.{Json}

-- A value, or an exception with the reason that `_run` gives for it: the text of a `HostCheckError`,
-- and the name of the class of any other.
pub data Check {ℓ} (A : Type ℓ) : Type ℓ where
  returned : A → Check A
  raised : String → Check A

infixl 5 ◌>>=◌ ◌>>◌
abbrev pub ◌>>=◌ {ℓ κ} : {A : Type ℓ} {B : Type κ} → Check A → (A → Check B) → Check B
returned a >>= f = f a
raised reason >>= f = raised reason

abbrev pub ◌>>◌ {ℓ} : {B : Type ℓ} → Check (Unit {0}) → Check B → Check B
m >> k = m >>= λ _. k

-- `if …: raise HostCheckError(…)`.
abbrev pub raise_if : Bool → String → Check (Unit {0})
raise_if true reason = raised reason
raise_if false reason = returned tt

pub data Family : Type 0 where
  inet inet6 other : Family

pub record Address : Type 0 where
  pub family : Family
  pub address : String

abbrev pub Interface : Type 0
Interface = String × List Address

pub record Battery : Type 0 where
  pub percent : Json
  pub power_plugged : Option Bool

-- What `sensors_battery` does: `no_sensors` is one of the exceptions that are caught around it.
pub data Sensors : Type 0 where
  sensed : Option Battery → Sensors
  no_sensors : Sensors

pub record Disk : Type 0 where
  pub volume : String
  pub total_bytes : ℕ
  pub free_bytes : ℕ

-- What `platform` says.
pub record Platform : Type 0 where
  pub os : String
  pub release : String
  pub version : String
  pub architecture : String

-- The machine with its libraries: `psutil`, `hashlib`, `tempfile`, `platform`, `socket`, the clock and
-- `round`. Sizes are numbers of bytes, and none is negative; times are microseconds.
pub record Machine : Type 0 where
  pub cpu_count : Check (Option ℕ × Option ℕ)
  pub virtual_memory : Check (ℕ × ℕ)
  pub boot_time : Check ℕ
  pub now : ℕ
  pub battery : Sensors
  pub disk_usage : Check Disk
  pub read_back : List ℕ → Check (List ℕ)
  pub copied : List ℕ → Check (List ℕ)
  pub sha256 : List ℕ → ℕ
  pub storage_elapsed : ℕ
  pub memory_elapsed : ℕ
  pub net_if_addrs : Check (List Interface)
  pub name_le : String → String → Bool
  pub platform : Platform
  pub hostname : Check String
  pub rounded_ms : ℕ → Json
  pub rounded_seconds : ℕ → Json
