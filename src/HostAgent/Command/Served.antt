-- ===== src/HostAgent/Command/Served.antt =====
-- What the command serves is an agent that the control plane takes.
use hilforge.Base.{
  ℕ, ◌≡◌, ◌⊎◌, inl, inr, refl, ◌∙◌, is_some, String, true, false, Option, none, some, Option-cases,
  Bool-cases, str_eq, eq_iff, arith,
}
use hilforge.Domain.Rows.{Device, Db}
use hilforge.Config.{Settings}
use hilforge.Schemas.{accepts_device, measures}
use hilforge.Devices.{DeviceRegister, register_device, find_device_by_name}
use hilforge.Devices.Text.{rstrip_slash}
use hilforge.Execution.Claim.{timeout_for}
use hilforge.Agent.Registration.{HttpUrl, registration_of}
use hilforge.HostAgent.Command.{
  HostArgs, HostAgentSettings, host_settings, host_registration, host_main, validate_public_url,
  is_port, is_bind_address,
}

registered_type :
    (registration : DeviceRegister) (new_id now : ℕ) (db : Db)
    → (register_device registration new_id now db).0.device_type ≡ registration.device_type
unfolding register_device
registered_type registration new_id now db =
    elim (Option-cases (find_device_by_name registration.name db.devices)) [
      | inl absent ↦ rw (absent, register_device) refl
      | inr (device, f) ↦ rw (f, register_device) refl
    ]

-- A device of the type of laptops is given their time.
timeout_for_host :
    (server : Settings) (device : Device)
    → device.device_type ≡ "windows-host"
    → timeout_for server device ≡ server.host_job_timeout_seconds
unfolding timeout_for
timeout_for_host server device t = rw t refl

-- The address that an agent may advertise.
pub record IsReachable (url : HttpUrl) : Type 0 where
  pub scheme : url.scheme ≡ "http"
  pub port : url.port ≡ some 9000
  pub not_bound : is_bind_address url.host ≡ false

validate-IsReachable : (url : HttpUrl) → validate_public_url url ≡ true → IsReachable url
unfolding validate_public_url is_port
validate-IsReachable url h = record {
  scheme = ground (arith, eq_iff url.scheme "http");
  port = ground arith;
  not_bound = ground arith;
}

-- The type of the served agent is fixed, and its name is in the bounds.
served :
    (read_url : String → Option HttpUrl) (args : HostArgs) (settings : HostAgentSettings)
    → host_settings read_url args ≡ some settings
    → (settings.device_type ≡ "windows-host")
      × (measures 1 100 settings.name ≡ true)
      × (validate_public_url settings.public_url ≡ true)
      × (read_url args.public_url ≡ some settings.public_url)
unfolding host_settings
served read_url args settings e = ground arith

-- Suppose that the API reads the text of a URL without the slashes at its end, if a URL was read. Then
-- the command either ends with 2 and serves nothing, or ends with 0, on Windows, after it has served
-- an agent whose address is http on port 9000 and no bind address. The registration of that agent
-- passes the validators of the API, and whatever the database is, the device that it registers as is
-- given the time limit of hosts.
pub host_main-IsReachable :
    (platform : String) (read_url : String → Option HttpUrl) (args : HostArgs)
    → ((text : String) (url : HttpUrl)
        → read_url text ≡ some url
        → is_some (read_url (rstrip_slash url.text)) ≡ true)
    → (host_main platform read_url args ≡ (2, none))
      ⊎ ((settings : HostAgentSettings) × (host_main platform read_url args ≡ (0, some settings))
          × (platform ≡ "win32")
          × IsReachable settings.public_url
          × let registration = registration_of (host_registration settings) in
            (accepts_device (λ text. is_some (read_url text)) registration ≡ true)
            × ((server : Settings) (new_id now : ℕ) (db : Db)
                → timeout_for server (register_device registration new_id now db).0
                  ≡ server.host_job_timeout_seconds))
unfolding accepts_device registration_of host_registration host_main
host_main-IsReachable platform read_url args printed = elim (Bool-cases (str_eq platform "win32")) [
  | inr other ↦ inl (rw (other, host_main) refl)
  | inl windows ↦ elim (Option-cases (host_settings read_url args)) [
    | inl invalid ↦ inl (rw (windows, host_main) (rw invalid refl))
    | inr (settings, e) ↦
        let (type, name, url, read) = served read_url args settings e in
        inr (
          settings,
          rw (windows, host_main) (rw e refl),
          (eq_iff platform "win32").0 windows,
          validate-IsReachable settings.public_url url,
          (
            rw (name, type) (printed args.public_url settings.public_url read),
            λ server new_id now db.
                timeout_for_host server _ (registered_type _ new_id now db ∙ type),
          ),
        )
  ]
]
