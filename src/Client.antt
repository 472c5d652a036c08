-- ===== src/Client.antt =====
-- services/device_client.py: `HttpDeviceClient.execute` turns what the transport gives into the
-- classes of exception that the worker tells apart.
pub mod Contract
use hilforge.Base.{
  ℕ, String, Bool, true, false, Option, none, some, if◌then◌else◌, ◌==◌, leb, ◌&&◌, ◌||◌, not,
}
use hilforge.Protocol.{AgentExecutionRequest, AgentExecutionResponse}
use hilforge.Execution.Report.{Failure}
use hilforge.Execution.Execute.{Reply, response, timeout, transient, permanent}

-- What `httpx` gives: a timeout, another request error, or a status with a body. The body is what
-- the JSON parser and the schema make of it, `none` if either refuses it.
pub data Transport : Type 0 where
  timed_out : Transport
  request_error : String → Transport
  answered : ℕ → Option AgentExecutionResponse → Transport

-- `status_code in {408, 425, 429, 502, 503, 504}`.
abbrev pub is_retryable_status : ℕ → Bool
is_retryable_status code =
    code == 408 || code == 425 || code == 429 || code == 502 || code == 503 || code == 504

-- `response.is_error`: a client or server error.
abbrev pub is_error : ℕ → Bool
is_error code = leb 400 code && leb code 599

abbrev failure : String → String → Failure
failure kind message = record { kind = kind; message = message }

check_body : AgentExecutionRequest → Option AgentExecutionResponse → Reply
check_body request none =
    permanent (failure "InvalidDeviceResponseError" "Device returned an invalid result document")
check_body request (some result) =
    if not (result.job_id == request.job_id)
    then permanent
        (failure "InvalidDeviceResponseError" "Device result job_id does not match the request")
    else response result

-- `message` writes the texts of the exceptions that name a status or a cause.
unfoldable pub execute : (Transport → String) → AgentExecutionRequest → Transport → Reply
unfolding check_body
execute message request timed_out = timeout (failure "DeviceTimeoutError" (message timed_out))
execute message request (request_error cause) =
    transient (failure "TransientDeviceError" (message (request_error cause)))
execute message request (answered code body) =
    if is_retryable_status code
    then transient (failure "TransientDeviceError" (message (answered code body)))
    else if is_error code
    then permanent (failure "PermanentDeviceError" (message (answered code body)))
    else check_body request body
