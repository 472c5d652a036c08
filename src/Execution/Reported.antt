-- ===== src/Execution/Reported.antt =====
-- What recording an outcome does to a valid database.
use hilforge.Base.{ℕ, ◌<◌, ◌≡◌, ◌≢◌, refl, sym, true, some, arith, subst, ok, find_by-key}
use hilforge.Domain.Status.{JobStatus, terminal_job_statuses}
use hilforge.Domain.Rows.{
  Device, TestRun, TestJob, Db, find_device, find_run, find_job, put_device, device_id_of,
}
use hilforge.Config.{Settings}
use hilforge.Jobs.{transition_job, enter}
use hilforge.Devices.{release_device}
use hilforge.Runs.Status.{recompute_run_status}
use hilforge.Invariant.Attempts.{JobIsValid, Attempts-find}
use hilforge.Invariant.Valid.{IsValid, IsValid-move, IsValid-finish, moved_db}
use hilforge.Execution.Report.{
  Outcome, Failure, owns_running_attempt, with_outcome, finish_owned, postponed, retry_owned,
}

pub owns_iff :
    (job : TestJob) (task : ℕ)
    → owns_running_attempt job task ≡ true
    → (job.status ≡ JobStatus.running) × (job.worker_task_id ≡ some task)
unfolding owns_running_attempt
owns_iff job task h = ground arith

pub running-transition_job :
    (job : TestJob) (target : JobStatus) (now : ℕ)
    → job.status ≡ JobStatus.running
    → target ≢ JobStatus.queued
    → target ≢ JobStatus.running
    → transition_job job target now ≡ ok (enter job target now)
unfolding transition_job
running-transition_job job target now r q s = ground arith

-- The job as `_finish` leaves it.
unfoldable pub finished_job : Outcome → JobStatus → ℕ → TestJob → TestJob
unfolding with_outcome enter
finished_job outcome target now job = with_outcome outcome (enter job target now)

-- The job as a postponement leaves it.
unfoldable pub retrying_job : ℕ → ℕ → Failure → ℕ → TestJob → TestJob
unfolding postponed enter
retrying_job now delay error elapsed job =
    postponed now delay error elapsed (enter job JobStatus.retrying now)

finished_job-JobIsValid :
    (max : ℕ) (outcome : Outcome) (target : JobStatus) (now : ℕ) (job : TestJob)
    → terminal_job_statuses target ≡ true
    → job.status ≡ JobStatus.running
    → JobIsValid max job
    → JobIsValid max (finished_job outcome target now job)
unfolding finished_job
finished_job-JobIsValid max outcome JobStatus.passed now job t r v = ground arith
finished_job-JobIsValid max outcome JobStatus.failed now job t r v = ground arith
finished_job-JobIsValid max outcome JobStatus.timed_out now job t r v = ground arith
finished_job-JobIsValid max outcome _ now job t r v = cc

retrying_job-JobIsValid :
    (max now delay : ℕ) (error : Failure) (elapsed : ℕ) (job : TestJob)
    → job.attempts < max
    → job.status ≡ JobStatus.running
    → JobIsValid max job
    → JobIsValid max (retrying_job now delay error elapsed job)
unfolding retrying_job
retrying_job-JobIsValid max now delay error elapsed job l r v = ground arith

-- `_finish` and the postponement keep what identifies a job.
pub record Keeps (job job' : TestJob) : Type 0 where
  pub same_id : job'.id ≡ job.id
  pub same_device : job'.device_id ≡ job.device_id
  pub same_run : job'.test_run_id ≡ job.test_run_id
  pub same_attempts : job'.attempts ≡ job.attempts

pub finished_job-Keeps :
    (outcome : Outcome) (target : JobStatus) (now : ℕ) (job : TestJob)
    → terminal_job_statuses target ≡ true
    → Keeps job (finished_job outcome target now job)
      × ((finished_job outcome target now job).status ≡ target)
unfolding finished_job
finished_job-Keeps outcome target now job t = ground arith

module _ (settings : Settings) (now : ℕ) {db : Db} (v : IsValid settings.job_max_attempts db)
    (job : TestJob) (device : Device) (run : TestRun) (found : find_job job.id db.jobs ≡ some job)
    (is_running : job.status ≡ JobStatus.running)
    (its_device : find_device job.device_id db.devices ≡ some device)
    (its_run : find_run job.test_run_id db.runs ≡ some run) where
  unfoldable pub released : Device
  released = release_device device settings.heartbeat_timeout_seconds now

  pub released-id : released.id ≡ job.device_id
  unfolding released release_device
  released-id = find_by-key device_id_of job.device_id db.devices its_device

  pub finish_owned_ok :
      (target : JobStatus) (outcome : Outcome)
      → terminal_job_statuses target ≡ true
      → finish_owned settings now target outcome job db
        ≡ ok (moved_db (finished_job outcome target now job) run now (put_device released db))
  unfolding finish_owned moved_db recompute_run_status released finished_job
  finish_owned_ok JobStatus.passed outcome t =
      rw
        (running-transition_job job JobStatus.passed now is_running (λ e. cc) (λ e. cc), its_device)
        (rw its_run)
  finish_owned_ok JobStatus.failed outcome t =
      rw
        (running-transition_job job JobStatus.failed now is_running (λ e. cc) (λ e. cc), its_device)
        (rw its_run)
  finish_owned_ok JobStatus.timed_out outcome t =
      rw
        (
          running-transition_job job JobStatus.timed_out now is_running (λ e. cc) (λ e. cc),
          its_device,
        )
        (rw its_run)
  finish_owned_ok _ outcome t = cc

  pub finished-IsValid :
      (target : JobStatus) (outcome : Outcome)
      → terminal_job_statuses target ≡ true
      → IsValid settings.job_max_attempts
          (moved_db (finished_job outcome target now job) run now (put_device released db))
  finished-IsValid target outcome t =
      let job' = finished_job outcome target now job in
      let (k, s) = finished_job-Keeps outcome target now job t in
      IsValid-finish v job job' run now
        (subst (λ i. find_job i db.jobs ≡ some job) (sym k.same_id) found) (rw is_running refl)
        k.same_device k.same_run
        (subst (λ i. find_run i db.runs ≡ some run) (sym k.same_run) its_run)
        (finished_job-JobIsValid _ outcome target now job t is_running
          (Attempts-find v.attempts job.id found))
        released (rw s (ground arith)) released-id

  pub retry_owned_ok :
      (delay : ℕ) (error : Failure) (elapsed : ℕ)
      → retry_owned settings now delay error elapsed job db
        ≡ ok (moved_db (retrying_job now delay error elapsed job) run now db)
  unfolding retry_owned moved_db recompute_run_status retrying_job
  retry_owned_ok delay error elapsed =
      rw (running-transition_job job JobStatus.retrying now is_running (λ e. cc) (λ e. cc))
        (rw its_run)

  pub retrying-IsValid :
      (delay : ℕ) (error : Failure) (elapsed : ℕ)
      → job.attempts < settings.job_max_attempts
      → IsValid settings.job_max_attempts
          (moved_db (retrying_job now delay error elapsed job) run now db)
  unfolding retrying_job
  retrying-IsValid delay error elapsed l =
      IsValid-move v job (retrying_job now delay error elapsed job) run now found
        (rw is_running refl) refl refl its_run
        (retrying_job-JobIsValid _ now delay error elapsed job l is_running
          (Attempts-find v.attempts job.id found))
        refl
