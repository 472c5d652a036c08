-- ===== src/Web/Pages.antt =====
-- The handlers that read: the lists of main.py and web.py, and the two pages of web.py. What a template
-- makes of its context is a parameter, `render`: a text, or an exception, which no handler catches.
use hilforge.Base.{
  ℕ, ◌+◌, ◌-◌, String, Bool, List, [], ◌∷◌, if◌then◌else◌, ◌||◌, leb, length, count_where,
  where_true, order_by, Result, ok, err, ◌>>=◌, for_each,
}
use hilforge.Domain.Status.{DeviceStatus, JobStatus, device_status_eq, job_status_eq}
use hilforge.Domain.Rows.{Device, TestSuite, TestRun, TestJob, Db}
use hilforge.Config.{Settings}
use hilforge.Devices.{mark_stale_devices_offline}
use hilforge.Runs.Read.{
  TestRunRead, TestJobRead, jobs_of, load_run, list_runs, run_read_model, job_read_model,
}
use hilforge.Web.Handlers.{Response, body, http_exception, respond}

-- `ORDER BY name`, under the collation of the database.
abbrev pub by_name : (String → String → Bool) → Device → Device → Bool
by_name name_le d e = name_le d.name e.name

-- `health`: whether the database answers, and whether Redis does.
unfoldable pub health : Bool → Bool → Response (Unit {0})
health database redis =
    if database then (if redis then body tt else http_exception 503) else http_exception 503

-- `list_devices`, which commits its scan.
unfoldable pub list_devices :
    Settings → (String → String → Bool) → ℕ → Db → Response (List Device) × Db
list_devices settings name_le now db =
    let db' = (mark_stale_devices_offline settings.heartbeat_timeout_seconds now db).1 in
    (body (order_by (by_name name_le) db'.devices), db')

-- `list_test_suites`.
unfoldable pub list_test_suites : (String → String → Bool) → Db → Response (List TestSuite)
list_test_suites name_le db = body (order_by (λ s t. name_le s.name t.name) db.suites)

-- `get_runs`, with the default limit of `list_runs`.
unfoldable pub get_runs : Db → Response (List TestRunRead)
get_runs db = respond (for_each (run_read_model db) (list_runs 50 db))

-- `sorted(test_run.jobs, key=lambda item: item.created_at)`.
unfoldable pub jobs_by_age : TestRun → Db → List TestJob
jobs_by_age run db = order_by (λ j k. leb j.created_at k.created_at) (jobs_of run.id db.jobs)

-- `get_run_jobs`.
unfoldable pub get_run_jobs : ℕ → Db → Response (List TestJobRead)
unfolding jobs_by_age
get_run_jobs run_id db = elim (load_run run_id db) [
  | err e ↦ http_exception 404
  | ok run ↦ respond (for_each (job_read_model db) (jobs_by_age run db))
]

pub record DeviceCounts : Type 0 where
  pub total : ℕ
  pub online : ℕ
  pub offline : ℕ
  pub busy : ℕ

abbrev pub count_device : DeviceStatus → List Device → ℕ
count_device s = count_where (λ d. device_status_eq d.status s)

unfoldable pub device_counts : List Device → DeviceCounts
device_counts devices = record {
  total = length devices;
  online = count_device DeviceStatus.online devices;
  offline = count_device DeviceStatus.offline devices;
  busy = count_device DeviceStatus.busy devices;
}

-- The context of dashboard.html.
pub record Dashboard : Type 0 where
  pub devices : List Device
  pub runs : List TestRunRead
  pub suites : List TestSuite
  pub device_counts : DeviceCounts
  pub available_devices : List Device

unfoldable pub dashboard_context : List Device → List TestSuite → List TestRunRead → Dashboard
unfolding device_counts
dashboard_context devices suites runs = record {
  devices = devices;
  runs = runs;
  suites = suites;
  device_counts = device_counts devices;
  available_devices = where_true (λ d. device_status_eq d.status DeviceStatus.online) devices;
}

-- `dashboard`, which commits its scan first.
unfoldable pub dashboard :
    {Html : Type 0}
    → (Dashboard → Result Html)
    → Settings
    → (String → String → Bool)
    → ℕ
    → Db
    → Response Html × Db
unfolding dashboard_context
dashboard render settings name_le now db =
    let db' = (mark_stale_devices_offline settings.heartbeat_timeout_seconds now db).1 in
    let devices = order_by (by_name name_le) db'.devices in
    let suites = order_by (λ s t. name_le s.name t.name) db'.suites in
    (
      respond (do
        runs ← for_each (run_read_model db') (list_runs 20 db')
        render (dashboard_context devices suites runs)),
      db',
    )

-- The context of run_detail.html.
pub record RunDetail : Type 0 where
  pub run : TestRunRead
  pub jobs : List TestJobRead
  pub retry_count : ℕ
  pub active_count : ℕ

-- `sum(max(job.attempts - 1, 0) for job in jobs)`.
unfoldable pub retry_count : List TestJobRead → ℕ
retry_count [] = 0
retry_count (j ∷ jobs) = (j.attempts - 1) + retry_count jobs

-- The jobs at work: running, or waiting for a retry.
unfoldable pub at_work : List TestJobRead → ℕ
at_work =
    count_where
      (λ j. job_status_eq j.status JobStatus.running || job_status_eq j.status JobStatus.retrying)

unfoldable pub run_detail_context : List TestJobRead → TestRunRead → RunDetail
unfolding retry_count at_work
run_detail_context jobs run = record {
  run = run;
  jobs = jobs;
  retry_count = retry_count jobs;
  active_count = at_work jobs;
}

-- `run_detail`.
unfoldable pub run_detail : {Html : Type 0} → (RunDetail → Result Html) → ℕ → Db → Response Html
unfolding jobs_by_age run_detail_context
run_detail render run_id db = elim (load_run run_id db) [
  | err e ↦ http_exception 404
  | ok run ↦ respond (do
    jobs ← for_each (job_read_model db) (jobs_by_age run db)
    read ← run_read_model db run
    render (run_detail_context jobs read))
]
