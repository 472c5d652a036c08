-- ===== src/Invariant/Valid.antt =====
-- The four parts together, and the two ways in which the services move a job.
use hilforge.Base.{
  ℕ, ◌≡◌, refl, sym, true, false, some, List, [], ◌∷◌, put_by, ◌∙◌, All-find_by, arith,
}
use hilforge.Domain.Status.{JobStatus, active_job_statuses}
use hilforge.Domain.Rows.{
  Device, TestJob, TestRun, Db, find_run, find_job, put_job, put_device, put_run, device_id_of,
  run_id_of, job_id_of,
}
use hilforge.Runs.Status.{statuses_of, recomputed}
use hilforge.Invariant.Reserved.{Reserved, Reserved-put_job, Reserved-finish}
use hilforge.Invariant.Agrees.{Agrees, Agrees-recomputed}
use hilforge.Invariant.Linked.{Linked, Linked-put, HasSuite, is_some-find_by-put_by}
use hilforge.Invariant.Attempts.{Attempts, Attempts-put_job, JobIsValid}

pub record IsValid (max_attempts : ℕ) (db : Db) : Type 0 where
  pub reserved : Reserved db.devices db.jobs
  pub agrees : Agrees db.runs db.jobs
  pub linked : Linked db
  pub attempts : Attempts max_attempts db.jobs

-- The suite of a run is not changed by `recompute_run_status`.
pub recomputed-suite :
    (ss : List JobStatus) (now : ℕ) (run : TestRun)
    → (recomputed ss now run).test_suite_id ≡ run.test_suite_id
unfolding recomputed
recomputed-suite [] now run = ground arith
recomputed-suite (s ∷ ss) now run = ground arith

-- The database after a job has been written and its run recomputed.
unfoldable pub moved_db : TestJob → TestRun → ℕ → Db → Db
moved_db job' run now db =
    let db' = put_job job' db in
    put_run (recomputed (statuses_of job'.test_run_id db'.jobs) now run) db'

module _ {max_attempts : ℕ} {db : Db} (v : IsValid max_attempts db) (job job' : TestJob)
    (run : TestRun) (now : ℕ) (found : find_job job'.id db.jobs ≡ some job)
    (active : active_job_statuses job.status ≡ true) (same_device : job'.device_id ≡ job.device_id)
    (same_run : job'.test_run_id ≡ job.test_run_id)
    (its_run : find_run job'.test_run_id db.runs ≡ some run)
    (ok' : JobIsValid max_attempts job') where
  run_keeps_suite :
      HasSuite db.suites
        (recomputed (statuses_of job'.test_run_id (put_by job_id_of job' db.jobs)) now run)
  run_keeps_suite =
      rw (recomputed-suite (statuses_of job'.test_run_id (put_by job_id_of job' db.jobs)) now run)
        (All-find_by run_id_of (HasSuite db.suites) job'.test_run_id db.runs v.linked.runs its_run)

  -- A job that stays active is moved.
  pub IsValid-move :
      active_job_statuses job'.status ≡ true → IsValid max_attempts (moved_db job' run now db)
  unfolding moved_db
  IsValid-move a = record {
    reserved = Reserved-put_job v.reserved job job' found same_device (a ∙ sym active);
    agrees = Agrees-recomputed v.agrees job job' run now found active same_run its_run;
    linked =
        Linked-put v.linked job job' _ db.devices (λ k. refl) found same_device same_run
          run_keeps_suite;
    attempts = Attempts-put_job v.attempts job' ok';
  }

  -- A job that ends is moved, and its device released to any status.
  pub IsValid-finish :
      (device' : Device)
      → active_job_statuses job'.status ≡ false
      → device'.id ≡ job.device_id
      → IsValid max_attempts (moved_db job' run now (put_device device' db))
  unfolding moved_db
  IsValid-finish device' a i = record {
    reserved = Reserved-finish v.reserved job job' device' found same_device active a i;
    agrees = Agrees-recomputed v.agrees job job' run now found active same_run its_run;
    linked =
        Linked-put v.linked job job' _ (put_by device_id_of device' db.devices)
          (λ k. is_some-find_by-put_by device_id_of k device' db.devices) found same_device same_run
          run_keeps_suite;
    attempts = Attempts-put_job v.attempts job' ok';
  }
