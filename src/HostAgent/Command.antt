-- ===== src/HostAgent/Command.antt =====
-- host_agent/config.py and `main` of host_agent/cli.py: the command that starts the agent of a laptop.
-- The parser of the command line and the reading of URLs are those of libraries.
pub mod Served
use hilforge.Base.{
  ℕ, String, Bool, true, false, Option, none, some, if◌then◌else◌, ◌&&◌, ◌||◌, not, ◌==◌, str_eq,
}
use hilforge.Domain.Json.{Json, str, bool, arr, obj, cons, nil, field, end}
use hilforge.Schemas.{measures}
use hilforge.HostAgent.{host_suite_slug, host_suite_checks}
use hilforge.Agent.Registration.{HttpUrl, RegistrationSettings}

-- The parsed command line.
pub record HostArgs : Type 0 where
  pub server : String
  pub public_url : String
  pub name : String

-- The interval is in microseconds.
pub record HostAgentSettings : Type 0 where
  pub name : String
  pub public_url : HttpUrl
  pub server_url : HttpUrl
  pub device_type : String
  pub heartbeat_interval_seconds : ℕ

-- `self.public_url.path not in {"", "/"}`, negated.
unfoldable pub is_root : Option String → Bool
is_root none = false
is_root (some path) = str_eq path "" || str_eq path "/"

-- `self.public_url.host in {"0.0.0.0", "127.0.0.1", "localhost"}`.
unfoldable pub is_bind_address : Option String → Bool
is_bind_address none = false
is_bind_address (some host) =
    str_eq host "0.0.0.0" || str_eq host "127.0.0.1" || str_eq host "localhost"

unfoldable pub is_port : ℕ → Option ℕ → Bool
is_port expected none = false
is_port expected (some port) = port == expected

-- `validate_public_url`: whether it returns.
unfoldable pub validate_public_url : HttpUrl → Bool
unfolding is_root is_bind_address is_port
validate_public_url url =
    if not (str_eq url.scheme "http") || not (is_port 9000 url.port) || not (is_root url.path)
    then false
    else not (is_bind_address url.host)

-- The settings for the three arguments, or `none` for `ValidationError`; `read_url` reads an `HttpUrl`.
unfoldable pub host_settings : (String → Option HttpUrl) → HostArgs → Option HostAgentSettings
unfolding validate_public_url
host_settings read_url args = elim (read_url args.public_url) [
  | none ↦ none
  | some public_url ↦ elim (read_url args.server) [
    | none ↦ none
    | some server_url ↦
        if measures 1 100 args.name && validate_public_url public_url
        then some (record {
          name = args.name;
          public_url = public_url;
          server_url = server_url;
          device_type = "windows-host";
          heartbeat_interval_seconds = 2000000;
        })
        else none
  ]
]

unfoldable pub host_capabilities : Json
host_capabilities = obj (
    field "simulated" (bool false) (
      field "platform" (str "windows") (
        field "supported_suites" (arr (cons (str host_suite_slug) nil))
          (field "checks" (arr host_suite_checks) end))))

-- What the protocol sees of the settings.
unfoldable pub host_registration : HostAgentSettings → RegistrationSettings
unfolding host_capabilities
host_registration settings = record {
  name = settings.name;
  device_type = settings.device_type;
  public_url = settings.public_url;
  registration_capabilities = host_capabilities;
}

-- `main`: its exit code, and the settings of the agent that it has served, if any.
unfoldable pub host_main :
    String → (String → Option HttpUrl) → HostArgs → ℕ × Option HostAgentSettings
host_main platform read_url args =
    if not (str_eq platform "win32") then (2, none) else elim (host_settings read_url args) [
      | none ↦ (2, none)
      | some settings ↦ (0, some settings)
    ]
