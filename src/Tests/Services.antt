-- ===== src/Tests/Services.antt =====
-- The theorems on the services, at the run of Tests/Scenario.
use hilforge.Base.{
  ◌<◌, ◌≡◌, ◌⊎◌, refl, if◌then◌else◌, ltb, none, some, [], ◌∷◌, ok, err, find_by, device_not_found,
}
use hilforge.Domain.Status.{RunStatus, JobStatus, online, busy}
use hilforge.Domain.Rows.{Device, TestJob, find_device, put_device}
use hilforge.Jobs.{transition_job, enter}
use hilforge.Jobs.Lifecycle.{Edge, transition_job_lem}
use hilforge.Devices.{DeviceHeartbeat, record_heartbeat}
use hilforge.Devices.Text.{rstrip_slash}
use hilforge.Devices.Valid.{record_heartbeat_lem}
use hilforge.Runs.Status.{recomputed}
use hilforge.Runs.Status.Laws.{shown_passed}
use hilforge.Runs.Read.{TestRunRead, run_counts, run_read_model}
use hilforge.Invariant.Reserved.{active_count}
use hilforge.Invariant.Agrees.{run_status_of, recomputed-run_status_of}
use hilforge.Invariant.Valid.{IsValid}
use hilforge.System.Safety.{Reach-IsSafe}
use hilforge.System.Promises.{start-IsSafe}
use hilforge.Tests.Scenario.{
  settings, suite, accepted, created, queued_job, running_job, running_db,
}
use hilforge.Tests.Outcomes.{passed_run, passed_db, reached_passed}
use hilforge.Tests.Control.{running-IsValid}

strips : rstrip_slash "http://agent:9000//" ≡ "http://agent:9000"
unfolding rstrip_slash
strips = refl

abbrev silent : DeviceHeartbeat
silent = record { capabilities = none }

record_heartbeat_lem_example :
    ((find_device 1 running_db.devices ≡ none)
      × (record_heartbeat 1 silent 400 running_db ≡ err device_not_found))
    ⊎ ((device' : Device) × (record_heartbeat 1 silent 400 running_db
          ≡ ok (device', put_device device' running_db))
        × IsValid 3 (put_device device' running_db)
        × (device'.id ≡ 1)
        × (device'.last_heartbeat_at ≡ some 400)
        × (device'.status ≡ (if ltb 0 (active_count 1 running_db.jobs) then busy else online)))
record_heartbeat_lem_example = record_heartbeat_lem running-IsValid 1 silent 400

moves :
    transition_job queued_job JobStatus.running 300 ≡ ok (enter queued_job JobStatus.running 300)
unfolding transition_job
moves = refl

transition_job_lem_example :
    ((moved : TestJob)
      → transition_job running_job JobStatus.passed 1300 ≡ ok moved
      → (moved.status ≡ JobStatus.passed)
        × ((moved ≡ running_job) ⊎ Edge JobStatus.running JobStatus.passed))
    × (Edge JobStatus.running JobStatus.passed
        → (moved : TestJob) × (transition_job running_job JobStatus.passed 1300 ≡ ok moved)
          × (moved.status ≡ JobStatus.passed)
          × (moved.completed_at ≡ some 1300)
          × (moved.lease_expires_at ≡ none)
          × (moved.started_at ≡ some 300)
          × (moved.attempts ≡ 1))
transition_job_lem_example = transition_job_lem running_job JobStatus.passed 1300

recomputed-run_status_of_example :
    (recomputed (JobStatus.passed ∷ JobStatus.retrying ∷ []) 1300 created).status
    ≡ run_status_of (JobStatus.passed ∷ JobStatus.retrying ∷ [])
recomputed-run_status_of_example =
    recomputed-run_status_of (JobStatus.passed ∷ JobStatus.retrying ∷ []) 1300 created refl

abbrev shown : TestRunRead
shown = record {
  id = 20;
  test_suite_id = 7;
  test_suite_name = "Smoke";
  status = RunStatus.passed;
  created_at = 200;
  started_at = some 300;
  completed_at = some 1300;
  counts = run_counts passed_db.jobs;
  source = none;
}

shows : run_read_model passed_db passed_run ≡ ok shown
unfolding run_read_model find_by
shows = refl

shown_passed_example : (shown.counts.passed ≡ shown.counts.total) × (0 < shown.counts.total)
unfolding find_by
shown_passed_example =
    shown_passed passed_db 20 {run = passed_run} {shown = shown}
      (Reach-IsSafe settings accepted (start-IsSafe settings (suite ∷ []))
        reached_passed).valid.agrees
      refl shows refl
