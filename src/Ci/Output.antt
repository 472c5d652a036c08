-- ===== src/Ci/Output.antt =====
-- `_request_json`, `_duration` and `_print_summary` of ci.py: what the command says. Texts that a
-- message is put together from stand side by side.
pub mod Lines
use hilforge.Base.{
  ℕ, ◌-◌, String, Bool, true, false, Option, none, some, List, [], ◌∷◌, map, take, if◌then◌else◌,
  leb, ◌==◌, ◌&&◌, not, str_eq, order_by,
}
use Prim.Native.Nat.{Ordering}
use hilforge.Text.{Codes, codes, compare_codes, words, join, replace}
use hilforge.Domain.Json.{
  Json, Items, Fields, null, bool, num, str, arr, obj, nil, cons, end, field,
}
use hilforge.Domain.Status.{JobStatus}
use hilforge.Runs.Read.{TestJobRead}

-- A response: `document` is what `response.json()` returns, or `none` for `ValueError`.
pub record Answer : Type 0 where
  pub status_code : ℕ
  pub reason_phrase : Codes
  pub document : Option Json

-- What `client.request` comes to: `httpx.TimeoutException`, another `httpx.RequestError` with the name
-- of its class, or a response.
pub data Exchange : Type 0 where
  timed_out : Exchange
  request_error : Codes → Exchange
  response : Answer → Exchange

-- The four messages of `CiClientError`, with what is put into them.
pub data ClientError : Type 0 where
  request_timed_out invalid_json : ClientError
  server_unavailable : Codes → ClientError
  api_error : ℕ → Codes → ClientError

pub data Requested : Type 0 where
  returns_json : Json → Requested
  raises : ClientError → Requested

-- `response.is_error`.
abbrev pub is_error : Answer → Bool
is_error answer = leb 400 answer.status_code && leb answer.status_code 599

unfoldable pub get_field : String → Fields → Option Json
get_field key end = none
get_field key (field name value rest) = if str_eq name key then some value else get_field key rest

-- `body.get("detail") if isinstance(body, dict) else None`.
unfoldable pub detail_of : Option Json → Option Json
unfolding get_field
detail_of (some (obj fields)) = get_field "detail" fields
detail_of _ = none

-- The truth of a value.
unfoldable pub is_truthy : Json → Bool
is_truthy null = false
is_truthy (bool b) = b
is_truthy (num n) = not (n == 0)
is_truthy (str text) = not (str_eq text "")
is_truthy (arr nil) = false
is_truthy (arr (cons item items)) = true
is_truthy (obj end) = false
is_truthy (obj (field name value rest)) = true

-- `str(detail or response.reason_phrase).replace("\n", " ")[:240]`; `to_str` is `str` of a document.
unfoldable pub reason_of : (Json → Codes) → Answer → Codes
unfolding detail_of is_truthy
reason_of to_str answer = take 240 (
    replace b'\n' b' ' (elim (detail_of answer.document) [
      | none ↦ answer.reason_phrase
      | some detail ↦ if is_truthy detail then to_str detail else answer.reason_phrase
    ]))

unfoldable pub request_json : (Json → Codes) → Exchange → Requested
unfolding reason_of
request_json to_str timed_out = raises request_timed_out
request_json to_str (request_error kind) = raises (server_unavailable kind)
request_json to_str (response answer) =
    if is_error answer
    then raises (api_error answer.status_code (reason_of to_str answer))
    else elim answer.document [ none ↦ raises invalid_json | some body ↦ returns_json body ]

-- The line of a job.
pub record JobLine : Type 0 where
  pub device_name : String
  pub device_id : ℕ
  pub status : JobStatus
  pub attempts : ℕ
  pub duration : Option (ℕ × ℕ)
  pub reason : Option Codes

-- `_duration`: `none` is printed as "n/a", and any other as the time from the first to the second.
unfoldable pub duration_of : Option ℕ → Option ℕ → Option (ℕ × ℕ)
duration_of (some started_at) (some completed_at) = some (started_at, completed_at)
duration_of _ _ = none

-- `" ".join(error_message.split())[:160]`, if there is a message.
unfoldable pub concise : Option String → Option Codes
concise none = none
concise (some message) =
    if str_eq message "" then none else some (take 160 (join b' ' (words (codes message))))

unfoldable pub job_line : TestJobRead → JobLine
unfolding duration_of concise
job_line job = record {
  device_name = job.device_name;
  device_id = job.device_id;
  status = job.status;
  attempts = job.attempts;
  duration = duration_of job.started_at job.completed_at;
  reason = concise job.error_message;
}

-- `sorted(jobs, key=lambda item: item.device_name)`.
unfoldable pub by_device_name : TestJobRead → TestJobRead → Bool
by_device_name j k = elim (compare_codes (codes j.device_name) (codes k.device_name)) [
  | Ordering.gt ↦ false
  | _ ↦ true
]

-- The lines of `_print_summary` below "Devices:".
unfoldable pub summary_lines : List TestJobRead → List JobLine
unfolding job_line by_device_name
summary_lines jobs = map job_line (order_by by_device_name jobs)
