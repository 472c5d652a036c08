-- ===== src/Jobs/Lifecycle.antt =====
-- The life of a job: what `transition_job` accepts, and what it leaves behind.
use hilforge.Base.{◌≡◌, ◌⊎◌, refl, ℕ, some, none, arith, ok, if◌then◌else◌, is_none, ◌&&◌}
use hilforge.Domain.Status.{JobStatus, terminal_job_statuses, job_status_eq}
use hilforge.Domain.Rows.{TestJob}
use hilforge.Jobs.{transition_job, enter}

-- The documented diagram.
pub data Edge : JobStatus → JobStatus → Type 0 where
  claim : Edge JobStatus.queued JobStatus.running
  retry : Edge JobStatus.running JobStatus.retrying
  reclaim : Edge JobStatus.retrying JobStatus.running
  pass : Edge JobStatus.running JobStatus.passed
  fail : Edge JobStatus.running JobStatus.failed
  time_out : Edge JobStatus.running JobStatus.timed_out

ruleset edges = (claim, retry, reclaim, pass, fail, time_out)

transition_job-Edge :
    (job : TestJob) (target : JobStatus) (now : ℕ) {moved : TestJob}
    → transition_job job target now ≡ ok moved
    → (moved.status ≡ target) × ((moved ≡ job) ⊎ Edge job.status target)
unfolding transition_job
transition_job-Edge job target now h = grind (arith, edges)

take_edge :
    (job : TestJob) (target : JobStatus) (now : ℕ) (s : JobStatus)
    → job.status ≡ s
    → Edge s target
    → transition_job job target now ≡ ok (enter job target now)
unfolding transition_job
take_edge job target now s e claim = ground arith
take_edge job target now s e retry = ground arith
take_edge job target now s e reclaim = ground arith
take_edge job target now s e pass = ground arith
take_edge job target now s e fail = ground arith
take_edge job target now s e time_out = ground arith

entered :
    (job : TestJob) (target : JobStatus) (now : ℕ) (s : JobStatus)
    → Edge s target
    → let moved = enter job target now in
      (moved.status ≡ target)
      × (moved.completed_at ≡ (if terminal_job_statuses target then some now else none))
      × (moved.lease_expires_at
          ≡ (if terminal_job_statuses target then none else job.lease_expires_at))
      × (moved.started_at ≡ (
          if job_status_eq target JobStatus.running && is_none job.started_at
          then some now
          else job.started_at))
      × (moved.attempts ≡ job.attempts)
unfolding enter
entered job target now s claim = ground arith
entered job target now s retry = ground arith
entered job target now s reclaim = ground arith
entered job target now s pass = ground arith
entered job target now s fail = ground arith
entered job target now s time_out = ground arith

-- If a transition returns a job, it is either the job as it was, with the target status, or the target
-- follows the job's status by an edge of the lifecycle. A transition along an edge returns the job
-- with the target status, with an end time exactly if the target is terminal, which takes the lease
-- away as well, with its first start time, and with its attempts as before.
pub transition_job_lem :
    (job : TestJob) (target : JobStatus) (now : ℕ)
    → ((moved : TestJob)
        → transition_job job target now ≡ ok moved
        → (moved.status ≡ target) × ((moved ≡ job) ⊎ Edge job.status target))
      × (Edge job.status target
          → (moved : TestJob) × (transition_job job target now ≡ ok moved)
            × (moved.status ≡ target)
            × (moved.completed_at ≡ (if terminal_job_statuses target then some now else none))
            × (moved.lease_expires_at
                ≡ (if terminal_job_statuses target then none else job.lease_expires_at))
            × (moved.started_at ≡ (
                if job_status_eq target JobStatus.running && is_none job.started_at
                then some now
                else job.started_at))
            × (moved.attempts ≡ job.attempts))
transition_job_lem job target now = (
  λ moved. transition_job-Edge job target now,
  λ edge.
      let (s, c, l, b, a) = entered job target now job.status edge in
      (enter job target now, take_edge job target now job.status refl edge, s, c, l, b, a),
)
