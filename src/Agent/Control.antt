-- ===== src/Agent/Control.antt =====
-- `AgentControlLoop` of agent/runtime.py: the process registers as a device and keeps its heartbeat.
-- The API is the one of web.py, behind a network that may lose a request or its answer.
pub mod Recovers
use hilforge.Base.{ℕ, Bool, true, false, Option, none, some, if◌then◌else◌, leb, ◌==◌, ◌&&◌}
use hilforge.Domain.Rows.{Device, Db}
use hilforge.Devices.{DeviceRegister, DeviceHeartbeat}
use hilforge.Web.Handlers.{
  Response, body, http_exception, unhandled, register_device_endpoint, heartbeat_endpoint,
}

-- What a `post` gives: an `httpx.HTTPError`, or a status with the identifier in the body, `none` if the
-- body is no `DeviceRead` (`ValueError`).
pub data PostResult : Type 0 where
  http_error : PostResult
  answered : ℕ → Option ℕ → PostResult

-- `raise_for_status` returns exactly on a status of success.
abbrev is_success : ℕ → Bool
is_success code = leb 200 code && leb code 299

-- `_register`, with the handler of exceptions in `run`: the `device_id` after it.
unfoldable pub registered_id : PostResult → Option ℕ
registered_id http_error = none
registered_id (answered code id) = if is_success code then id else none

-- `_heartbeat`, with the same handler.
unfoldable pub heartbeat_id : ℕ → PostResult → Option ℕ
heartbeat_id device_id http_error = none
heartbeat_id device_id (answered code id) =
    if code == 404 then none else if is_success code then some device_id else none

-- What the network does with one request.
pub data Network : Type 0 where
  delivers loses_request loses_answer : Network

abbrev wire_device : Response Device → PostResult
wire_device (body device) = answered 200 (some device.id)
wire_device (http_exception code) = answered code none
wire_device (unhandled e) = answered 500 none

abbrev post : Network → Db → Response Device × Db → PostResult × Db
post delivers db (response, db') = (wire_device response, db')
post loses_request db (response, db') = (http_error, db)
post loses_answer db (response, db') = (http_error, db')

-- The time of a round, the UUID that the API would draw, and the fate of the request.
pub record Round : Type 0 where
  pub now : ℕ
  pub new_id : ℕ
  pub network : Network

-- The body of the loop. `json=None` is a heartbeat without a document.
unfoldable pub loop_round : DeviceRegister → Round → Option ℕ → Db → Option ℕ × Db
unfolding registered_id heartbeat_id register_device_endpoint
loop_round registration r none db =
    let (result, db') =
      post r.network db (register_device_endpoint registration r.new_id r.now db) in
    (registered_id result, db')
loop_round registration r (some device_id) db =
    let (result, db') = post r.network db (heartbeat_endpoint device_id none r.now db) in
    (heartbeat_id device_id result, db')
