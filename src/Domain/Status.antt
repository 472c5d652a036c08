-- ===== src/Domain/Status.antt =====
-- The enums of models/domain.py and their subsets.
use hilforge.Base.{Bool, true, false, ◌≡◌, ◌↔◌, arith, String}

pub data DeviceStatus : Type 0 where
  online offline busy : DeviceStatus

pub data RunStatus : Type 0 where
  queued running passed failed cancelled : RunStatus

pub data JobStatus : Type 0 where
  queued running retrying passed failed timed_out : JobStatus

-- `job_status == other`.
abbrev pub job_status_eq : JobStatus → JobStatus → Bool
job_status_eq JobStatus.queued JobStatus.queued = true
job_status_eq JobStatus.running JobStatus.running = true
job_status_eq JobStatus.retrying JobStatus.retrying = true
job_status_eq JobStatus.passed JobStatus.passed = true
job_status_eq JobStatus.failed JobStatus.failed = true
job_status_eq JobStatus.timed_out JobStatus.timed_out = true
job_status_eq _ _ = false

abbrev pub device_status_eq : DeviceStatus → DeviceStatus → Bool
device_status_eq DeviceStatus.online DeviceStatus.online = true
device_status_eq DeviceStatus.offline DeviceStatus.offline = true
device_status_eq DeviceStatus.busy DeviceStatus.busy = true
device_status_eq _ _ = false

-- `status in TERMINAL_JOB_STATUSES`.
abbrev pub terminal_job_statuses : JobStatus → Bool
terminal_job_statuses JobStatus.passed = true
terminal_job_statuses JobStatus.failed = true
terminal_job_statuses JobStatus.timed_out = true
terminal_job_statuses _ = false

-- `status in ACTIVE_JOB_STATUSES`.
abbrev pub active_job_statuses : JobStatus → Bool
active_job_statuses JobStatus.queued = true
active_job_statuses JobStatus.running = true
active_job_statuses JobStatus.retrying = true
active_job_statuses _ = false

-- `status in TERMINAL_RUN_STATUSES`.
abbrev pub terminal_run_statuses : RunStatus → Bool
terminal_run_statuses RunStatus.passed = true
terminal_run_statuses RunStatus.failed = true
terminal_run_statuses RunStatus.cancelled = true
terminal_run_statuses _ = false

-- The stored values, `status.value`.
abbrev pub job_status_value : JobStatus → String
job_status_value JobStatus.queued = "queued"
job_status_value JobStatus.running = "running"
job_status_value JobStatus.retrying = "retrying"
job_status_value JobStatus.passed = "passed"
job_status_value JobStatus.failed = "failed"
job_status_value JobStatus.timed_out = "timed_out"

pub job_status_eq_iff : (s t : JobStatus) → (job_status_eq s t ≡ true) ↔ (s ≡ t)
job_status_eq_iff s t = ground arith
