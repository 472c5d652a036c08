-- ===== src/Agent/Registration.antt =====
-- `RegistrationSettings` and the request of `_register` in agent/runtime.py, and the settings of
-- agent/config.py that it is made of.
use hilforge.Base.{String, true, Option, none, some, if◌then◌else◌, ◌&&◌, ltb, ℕ}
use hilforge.Domain.Json.{Json, str, bool, arr, obj, cons, nil, field, end}
use hilforge.Devices.{DeviceRegister}
use hilforge.Devices.Text.{rstrip_slash}
use hilforge.Text.{Codes}
use hilforge.Schemas.{measures}
use hilforge.Agent.Engine.{AgentMode, healthy, slow, unreliable}
use hilforge.Agent.Script.{validate_outcome_script}

-- A URL that the schema library has read: its text, and the parts that the program asks for.
pub record HttpUrl : Type 0 where
  pub text : String
  pub scheme : String
  pub host : Option String
  pub port : Option ℕ
  pub path : Option String

-- The fields of the protocol that the request is made of.
pub record RegistrationSettings : Type 0 where
  pub name : String
  pub device_type : String
  pub public_url : HttpUrl
  pub registration_capabilities : Json

-- The document that `_register` posts.
unfoldable pub registration_of : RegistrationSettings → DeviceRegister
registration_of settings = record {
  name = settings.name;
  device_type = settings.device_type;
  endpoint_url = rstrip_slash settings.public_url.text;
  capabilities = settings.registration_capabilities;
}

-- The settings as the library has read them; times are in microseconds.
pub record AgentFields : Type 0 where
  pub name : String
  pub device_type : String
  pub public_url : HttpUrl
  pub server_url : HttpUrl
  pub mode : AgentMode
  pub heartbeat_interval_seconds : ℕ
  pub execution_seconds : ℕ
  pub outcome_script : Codes

-- The bounds of the fields, and the validator: the settings, with the script as it is kept.
unfoldable pub agent_settings : AgentFields → Option AgentFields
agent_settings fields =
    if measures 1 100 fields.name
      && measures 1 100 fields.device_type
      && ltb 0 fields.heartbeat_interval_seconds
    then elim (validate_outcome_script fields.outcome_script) [
      | none ↦ none
      | some script ↦ some (record fields { outcome_script = script })
    ]
    else none

-- `mode.value`.
abbrev mode_value : AgentMode → String
mode_value healthy = "healthy"
mode_value slow = "slow"
mode_value unreliable = "unreliable"

unfoldable pub agent_capabilities : AgentFields → Json
agent_capabilities settings = obj (
    field "simulated" (bool true) (
      field "mode" (str (mode_value settings.mode))
        (field "supported_suites" (arr (cons (str "smoke") nil)) end)))

-- What the protocol sees of the settings.
unfoldable pub agent_registration : AgentFields → RegistrationSettings
unfolding agent_capabilities
agent_registration settings = record {
  name = settings.name;
  device_type = settings.device_type;
  public_url = settings.public_url;
  registration_capabilities = agent_capabilities settings;
}
