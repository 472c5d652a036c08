-- ===== src/Tests/Outcomes.antt =====
-- How the claimed attempt of Tests/Scenario ends: with an answer of the device, or without one.
use hilforge.Base.{◌≡◌, refl, true, none, some, [], ◌∷◌, ok, find_by, put_by}
use hilforge.Domain.Json.{Json}
use hilforge.Domain.Status.{RunStatus, JobStatus}
use hilforge.Domain.Rows.{TestRun, TestJob, Db}
use hilforge.Devices.{DeviceRegister, register_device}
use hilforge.Protocol.{AgentOutcome, AgentExecutionResponse}
use hilforge.Execution.Report.{Failure}
use hilforge.Execution.Execute.{Reply, Report, report}
use hilforge.System.{Reach, start, reports, next}
use hilforge.Tests.Scenario.{
  settings, suite, bench, claimed_job, running_job, running_run, running_db, flight, reached,
}

abbrev pub answer : AgentExecutionResponse
answer = record {
  job_id = 30;
  outcome = AgentOutcome.passed;
  duration = 1000;
  result = Json.null;
  logs = [];
  error_message = none;
}

abbrev pub passed_job : TestJob
passed_job = record running_job {
  status = JobStatus.passed;
  result = some Json.null;
  logs = some [];
  completed_at = some 1300;
  execution_duration = some 1000;
  lease_expires_at = none;
}

abbrev pub passed_run : TestRun
passed_run = record running_run { status = RunStatus.passed; completed_at = some 1300 }

abbrev pub passed_db : Db
passed_db = record {
  devices = bench ∷ [];
  suites = suite ∷ [];
  runs = passed_run ∷ [];
  jobs = passed_job ∷ [];
}

abbrev pub passed_report : Report
passed_report = record { answer = "passed"; publish = none; db = passed_db }

pub reports_job :
    report settings claimed_job 5 1300 1000 (Reply.response answer) running_db ≡ ok passed_report
unfolding report find_by put_by hilforge.Execution.Report.finish
    hilforge.Execution.Report.owns_running_attempt hilforge.Jobs.transition_job
    hilforge.Runs.Status.recompute_run_status hilforge.Devices.release_device
    hilforge.Runs.Status.statuses_of hilforge.Execution.Report.with_outcome
    hilforge.Clock.heartbeat_is_fresh
reports_job = refl

pub reached_passed : Reach settings (start (suite ∷ [])) (record { db = passed_db; flights = [] })
reached_passed =
    next reached
      (reports flight [] [] 1300 1000 (Reply.response answer) passed_report refl reports_job)

-- The device does not answer in time instead: the attempt is postponed by a second.
abbrev pub silence : Failure
silence = record { kind = "DeviceTimeoutError"; message = "Device did not respond within 4s" }

abbrev pub retrying_job : TestJob
retrying_job = record running_job {
  status = JobStatus.retrying;
  next_attempt_at = some 1001300;
  lease_expires_at = none;
  error_message = some "Device did not respond within 4s";
  error_details =
      some
        (record { kind = "DeviceTimeoutError"; retryable = true; retry_in_seconds = some 1000000 });
  execution_duration = some 1000;
}

abbrev pub retrying_db : Db
retrying_db = record running_db { jobs = retrying_job ∷ [] }

abbrev pub retrying_report : Report
retrying_report = record { answer = "retrying"; publish = some (30, 1000000); db = retrying_db }

pub postpones_job :
    report settings claimed_job 5 1300 1000 (Reply.timeout silence) running_db ≡ ok retrying_report
unfolding report find_by put_by hilforge.Execution.Report.retry
    hilforge.Execution.Report.owns_running_attempt hilforge.Jobs.transition_job
    hilforge.Runs.Status.recompute_run_status hilforge.Execution.Report.retry_delay
    hilforge.Runs.Status.statuses_of hilforge.Execution.Report.postponed
postpones_job = refl

pub reached_retrying :
    Reach settings (start (suite ∷ [])) (record { db = retrying_db; flights = [] })
reached_retrying =
    next reached
      (reports flight [] [] 1300 1000 (Reply.timeout silence) retrying_report refl postpones_job)
