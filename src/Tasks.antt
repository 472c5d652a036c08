-- ===== src/Tasks.antt =====
-- tasks/: the entry points of the workers and of the periodic tasks, and `enqueue_job` of queueing.py.
-- A task opens one session for its transaction; what it publishes goes to the broker afterwards.
pub mod Recovery
use hilforge.Base.{
  ℕ, ◌+◌, ◌*◌, Bool, true, false, String, List, [], ◌∷◌, if◌then◌else◌, max, Result, ok, ◌>>=◌,
  Option, none, some,
}
use hilforge.Domain.Rows.{Db}
use hilforge.Config.{
  Settings, worker_hard_time_limit_seconds, broker_visibility_timeout_seconds, second,
}
use hilforge.Maintenance.{maintain_device_liveness, reconcile_dispatchable_jobs}
use hilforge.Execution.Execute.{Report, Delivery, execute}

-- A message of the broker: the task by its name, its only argument, and the delay of its delivery in
-- microseconds.
pub record Message : Type 0 where
  pub task : String
  pub job_id : ℕ
  pub countdown : ℕ

abbrev pub execute_job_task : String
execute_job_task = "pulsehunter.execute_job"

-- What `send_task` is given. A delay is no less than 0 already.
unfoldable pub enqueue_job : ℕ → ℕ → Message
enqueue_job job_id countdown = record {
  task = execute_job_task;
  job_id = job_id;
  countdown = max 0 countdown;
}

-- The loop of `reconcile_jobs`: a job that the broker refuses is logged, and the loop goes on. The
-- result is the counter, and what the broker took.
unfoldable pub publish_each : (Message → Bool) → List ℕ → ℕ → ℕ × List Message
unfolding enqueue_job
publish_each accepts [] published = (published, [])
publish_each accepts (job_id ∷ job_ids) published =
    let message = enqueue_job job_id 0 in
    let (n, sent) =
      publish_each accepts job_ids (if accepts message then published + 1 else published) in
    (n, if accepts message then message ∷ sent else sent)

-- `reconcile_jobs`: its value, the messages that were taken, and the database.
unfoldable pub reconcile_jobs :
    Settings → ℕ → (ℕ → Bool) → (Message → Bool) → Db → Result (ℕ × List Message × Db)
unfolding publish_each
reconcile_jobs settings now locked accepts db = do
  (job_ids, db') ← reconcile_dispatchable_jobs settings now locked db
  let (n, sent) = publish_each accepts job_ids 0
  ok (n, sent, db')

-- `mark_stale_devices`.
unfoldable pub mark_stale_devices : Settings → ℕ → Db → ℕ × Db
mark_stale_devices settings now db = maintain_device_liveness settings now db

-- `_publish_retry`, for what a report asks to be published.
publish_retry : Option (ℕ × ℕ) → List Message
unfolding enqueue_job
publish_retry none = []
publish_retry (some (job_id, delay)) = enqueue_job job_id delay ∷ []

-- `execute_job`: the answer of the task with the database, and the messages of its retry.
unfoldable pub execute_job : Settings → Delivery → ℕ → ℕ → Db → Result (Report × List Message)
unfolding publish_retry
execute_job settings delivery job_id task_id db = do
  done ← execute settings delivery job_id task_id db
  ok (done, publish_retry done.publish)

-- The part of `celery_app.conf` that decides when a task runs, runs out and is delivered again.
pub record BeatEntry : Type 0 where
  pub task : String
  pub schedule : ℕ

pub record CeleryConf : Type 0 where
  pub task_acks_late : Bool
  pub task_reject_on_worker_lost : Bool
  pub worker_prefetch_multiplier : ℕ
  pub task_time_limit : ℕ
  pub visibility_timeout : ℕ
  pub reconcile_jobs : BeatEntry
  pub mark_stale_devices : BeatEntry

-- The limits are whole seconds, and the schedules microseconds.
unfoldable pub celery_conf : Settings → CeleryConf
celery_conf settings = record {
  task_acks_late = true;
  task_reject_on_worker_lost = true;
  worker_prefetch_multiplier = 1;
  task_time_limit = worker_hard_time_limit_seconds settings;
  visibility_timeout = broker_visibility_timeout_seconds settings;
  reconcile_jobs = record {
    task = "pulsehunter.reconcile_jobs";
    schedule = settings.reconcile_interval_seconds;
  };
  mark_stale_devices = record {
    task = "pulsehunter.mark_stale_devices";
    schedule = settings.heartbeat_scan_interval_seconds;
  };
}
