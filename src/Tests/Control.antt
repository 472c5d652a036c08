-- ===== src/Tests/Control.antt =====
-- The theorems on the control plane, at the run of Tests/Scenario.
use hilforge.Base.{
  is_some, ℕ, suc, ◌+◌, ◌*◌, ◌≤◌, ◌<◌, ◌≡◌, ◌≢◌, ◌⊎◌, refl, Bool, true, false, Option, none, some,
  List, [], ◌∷◌, map, Result, ok, err, All, Distinct, length, arith, find_by, sum_by,
}
use hilforge.Domain.Status.{RunStatus}
use hilforge.Domain.Rows.{TestJob, Db, find_job}
use hilforge.Config.{second}
use hilforge.Devices.{mark_stale_devices_offline}
use hilforge.Runs.Status.{statuses_of}
use hilforge.Runs.Requested.{create_run-added, create_run-requested, Adds, AddsFor}
use hilforge.Execution.Claim.{ClaimedJob, claim}
use hilforge.Execution.Claimed.{claim-Takes, Takes, NotDue}
use hilforge.Execution.Execute.{Reply, Report, report}
use hilforge.Execution.Ends.{report-Ends, Ends, verdict}
use hilforge.Maintenance.{has_expired, reconcile_dispatchable_jobs, dispatchable_ids}
use hilforge.Maintenance.Valid.{reconcile-Recovered, Recovered, expired_jobs}
use hilforge.Invariant.Reserved.{active_count}
use hilforge.Invariant.Agrees.{run_status_of}
use hilforge.Invariant.Valid.{IsValid}
use hilforge.System.{System, Step, start, here, next, scans, on_db}
use hilforge.System.Safety.{IsSafe, Reach-IsSafe}
use hilforge.System.Promises.{
  start-IsSafe, never_double_booked, online_is_free, attempts_bounded, run_status_derived,
  never_raises,
}
use hilforge.System.Final.{ended_stays}
use hilforge.Tests.Scenario.{
  settings, suite, request, env, created, queued_db, registered, claimed_job, running_job,
  running_db, bench, accepted, in_flight, creates_run, reached_registered, reached_queued, reached,
}
use hilforge.Tests.Outcomes.{passed_job, passed_run, passed_db, reached_passed, silence}

suite-IsSafe : IsSafe settings (start (suite ∷ []))
suite-IsSafe = start-IsSafe settings (suite ∷ [])

pub registered-IsValid : IsValid 3 registered
registered-IsValid = (Reach-IsSafe settings accepted suite-IsSafe reached_registered).valid

pub queued-IsValid : IsValid 3 queued_db
queued-IsValid = (Reach-IsSafe settings accepted suite-IsSafe reached_queued).valid

pub running-IsValid : IsValid 3 running_db
running-IsValid = (Reach-IsSafe settings accepted suite-IsSafe reached).valid

never_double_booked_example : active_count 1 running_db.jobs ≤ 1
never_double_booked_example = never_double_booked settings accepted (suite ∷ []) reached 1

online_is_free_example : active_count 1 passed_db.jobs ≡ 0
unfolding find_by
online_is_free_example =
    online_is_free settings accepted (suite ∷ []) reached_passed 1 {device = bench} refl refl

attempts_bounded_example : 1 ≤ 3
unfolding find_by
attempts_bounded_example =
    attempts_bounded settings accepted (suite ∷ []) reached 30 {job = running_job} refl

run_status_derived_example : RunStatus.passed ≡ run_status_of (statuses_of 20 passed_db.jobs)
unfolding find_by
run_status_derived_example =
    run_status_derived settings accepted (suite ∷ []) reached_passed 20 {run = passed_run} refl

never_raises_example :
    ((c : Option ClaimedJob) × (db' : Db) × (claim settings 30 6 400 running_db ≡ ok (c, db')))
    × ((ids : List ℕ) × (db' : Db) × (reconcile_dispatchable_jobs settings 400
            (λ k. false)
            running_db
          ≡ ok (ids, db')))
    × All
        (λ f.
          (r : Report) × (report settings f.claim f.task 400 100 (Reply.timeout silence) running_db
            ≡ ok r))
        in_flight.flights
never_raises_example =
    never_raises settings accepted (suite ∷ []) reached 30 6 400 100 (λ k. false)
      (Reply.timeout silence)

Reach-IsSafe_example : IsSafe settings in_flight
Reach-IsSafe_example = Reach-IsSafe settings accepted suite-IsSafe reached

abbrev passed : System
passed = record { db = passed_db; flights = [] }

scanned :
    Step settings passed
      (on_db passed (mark_stale_devices_offline (10 * second) 99000000 passed_db).1)
scanned = scans 99000000

ended_stays_example :
    find_job 30 (mark_stale_devices_offline (10 * second) 99000000 passed_db).1.jobs
    ≡ some passed_job
unfolding find_by
ended_stays_example =
    ended_stays settings accepted 30 passed_job {s = passed}
      (Reach-IsSafe settings accepted suite-IsSafe reached_passed) (refl, refl) (next here scanned)

create_run-added_example : Adds registered (created, 30 ∷ [], queued_db)
create_run-added_example = create_run-added env (10 * second) request registered-IsValid creates_run

create_run-requested_example : AddsFor (1 ∷ []) registered (created, 30 ∷ [], queued_db)
create_run-requested_example =
    create_run-requested env (10 * second) request registered-IsValid creates_run (1 ∷ []) refl

claim-Takes_example :
    ((claim settings 30 5 300 queued_db ≡ ok (none, queued_db)) × NotDue 30 300 queued_db)
    ⊎ ((c : ClaimedJob) × (db' : Db) × (claim settings 30 5 300 queued_db ≡ ok (some c, db'))
        × IsValid 3 db'
        × Takes settings 30 5 300 queued_db c db')
claim-Takes_example = claim-Takes settings 30 5 300 queued-IsValid (omega arith)

current : (job : TestJob) → find_job 30 running_db.jobs ≡ some job → job.attempts ≡ 1
unfolding find_by
current job f = cc

report-Ends_example :
    Ends settings 5 claimed_job
      (verdict settings claimed_job (Reply.timeout silence))
      running_db
      (report settings claimed_job 5 1300 1000 (Reply.timeout silence) running_db)
report-Ends_example =
    report-Ends settings 5 1300 running-IsValid claimed_job 1000 (Reply.timeout silence)
      (λ job f o. current job f)

reconcile-Recovered_example :
    (db' : Db) × (reconcile_dispatchable_jobs settings 99000000 (λ k. false) running_db
      ≡ ok (dispatchable_ids 99000000 db'.jobs, db'))
    × IsValid 3 db'
    × All
        (Recovered settings 99000000 db')
        (expired_jobs settings 99000000 (λ k. false) running_db.jobs)
    × ((k : ℕ)
        → All (λ j. j.id ≢ k) (expired_jobs settings 99000000 (λ k. false) running_db.jobs)
        → find_job k db'.jobs ≡ find_job k running_db.jobs)
reconcile-Recovered_example = reconcile-Recovered settings 99000000 (λ k. false) running-IsValid

-- Too early for the lease to have run out.
reconciles_nothing :
    reconcile_dispatchable_jobs settings 400 (λ k. false) running_db ≡ ok ([], running_db)
unfolding reconcile_dispatchable_jobs has_expired hilforge.Base.order_by
    hilforge.Maintenance.is_dispatchable
reconciles_nothing = refl
