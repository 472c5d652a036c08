-- ===== src/Runs/Loop.antt =====
-- The loop of `create_run` that reserves devices, on a valid database.
use hilforge.Base.{
  ℕ, suc, ◌≤◌, ◌≡◌, ◌≢◌, refl, ◌∙◌, true, false, List, [], ◌∷◌, ◌++◌, map, arith, is_some, All,
  All-append, All-imp, All-intro, All-put_by_ne, Distinct, All-of_map,
}
use hilforge.Domain.Status.{DeviceStatus, RunStatus}
use hilforge.Domain.Rows.{
  Device, TestJob, Db, find_device, find_run, find_job, device_id_of, job_id_of,
}
use hilforge.Devices.Valid.{IsValid-put_device}
use hilforge.Runs.Create.{Surroundings, new_job, reserve, reserve_all}
use hilforge.Invariant.Reserved.{
  Reserved-append, active_count, active_weight_elsewhere, active_count-append,
}
use hilforge.Invariant.Agrees.{Agrees-append}
use hilforge.Invariant.Linked.{not_found, is_some-find_by-put_by, is_none-find_by-append}
use hilforge.Invariant.Attempts.{Attempts-append, JobIsValid}
use hilforge.Invariant.Valid.{IsValid}

new_job-JobIsValid :
    (max k run_id device_id now : ℕ) → JobIsValid max (new_job k run_id device_id now)
unfolding new_job
new_job-JobIsValid max k run_id device_id now = ground arith

-- The state of the loop before round `i`, with `ds` left to reserve.
pub record Loop (max_attempts : ℕ) (env : Surroundings) (i : ℕ) (ds : List Device) (db : Db)
    : Type 0 where
  pub valid : IsValid max_attempts db
  pub idle : All (λ s. active_count s.id db.jobs ≡ 0) ds
  pub apart : Distinct (map device_id_of ds)
  pub known : All (λ s. is_some (find_device s.id db.devices) ≡ true) ds
  pub run_known : is_some (find_run env.run_id db.runs) ≡ true
  pub run_queued : All (λ r. r.id ≡ env.run_id → r.status ≡ RunStatus.queued) db.runs
  pub fresh : (n : ℕ) → i ≤ n → is_some (find_job (env.job_ids n) db.jobs) ≡ false

module _ (max_attempts : ℕ) (env : Surroundings)
    (ids_apart : (i j : ℕ) → i ≢ j → env.job_ids i ≢ env.job_ids j) where
  reserve-IsValid :
      (i : ℕ) (s : Device) (ds : List Device) (db : Db)
      → Loop max_attempts env i (s ∷ ds) db
      → IsValid max_attempts (reserve env i s db)
  unfolding reserve new_job
  reserve-IsValid i s ds db l =
      let s' : Device = record s { status = DeviceStatus.busy } in
      let v' = IsValid-put_device l.valid s' (λ on. cc) in
      let job = new_job (env.job_ids i) env.run_id s.id env.now in
      record {
        reserved = Reserved-append v'.reserved job l.idle.0 (
            All-put_by_ne device_id_of _ s' db.devices l.valid.reserved.distinct
              (All-intro _ db.devices (λ x ne e on. ne e)) (λ e on. cc));
        agrees = Agrees-append v'.agrees job refl l.run_queued;
        linked = record {
          jobs = All-append _ db.jobs (job ∷ []) v'.linked.jobs (
            (rw (is_some-find_by-put_by device_id_of s.id s' db.devices) l.known.0, l.run_known),
            tt,
          );
          runs = v'.linked.runs;
        };
        attempts =
            Attempts-append v'.attempts job
              (not_found job_id_of (env.job_ids i) db.jobs (l.fresh i (omega arith)))
              (new_job-JobIsValid max_attempts (env.job_ids i) env.run_id s.id env.now);
      }

  others_idle :
      (s : Device) (job : TestJob) (jobs : List TestJob) (ds : List Device)
      → job.device_id ≡ s.id
      → All (λ x. x.id ≢ s.id) ds
      → All (λ x. active_count x.id jobs ≡ 0) ds
      → All (λ x. active_count x.id (jobs ++ job ∷ []) ≡ 0) ds
  others_idle s job jobs [] e n z = tt
  others_idle s job jobs (x ∷ ds) e n z = (
    omega (
      arith,
      z.0,
      active_count-append x.id jobs job,
      active_weight_elsewhere x.id job (λ q. n.0 (q ∙ e)),
    ),
    others_idle s job jobs ds e n.1 z.1,
  )

  reserve-Loop :
      (i : ℕ) (s : Device) (ds : List Device) (db : Db)
      → Loop max_attempts env i (s ∷ ds) db
      → Loop max_attempts env (suc i) ds (reserve env i s db)
  unfolding reserve new_job
  reserve-Loop i s ds db l =
      let s' : Device = record s { status = DeviceStatus.busy } in
      let job = new_job (env.job_ids i) env.run_id s.id env.now in
      record {
        valid = reserve-IsValid i s ds db l;
        idle =
            others_idle s job db.jobs ds refl (All-of_map (λ m. m ≢ s.id) device_id_of ds l.apart.0)
              l.idle.1;
        apart = l.apart.1;
        known =
            All-imp _ _ ds (λ x k. rw (is_some-find_by-put_by device_id_of x.id s' db.devices) k)
              l.known.1;
        run_known = l.run_known;
        run_queued = l.run_queued;
        fresh = λ n h.
            is_none-find_by-append job_id_of (env.job_ids n) db.jobs job (l.fresh n (omega arith))
              (ids_apart i n (λ e. omega arith));
      }

  pub reserve_all-IsValid :
      (i : ℕ) (ds : List Device) (db : Db)
      → Loop max_attempts env i ds db
      → IsValid max_attempts (reserve_all env i ds db)
  unfolding reserve_all
  reserve_all-IsValid i [] db l = l.valid
  reserve_all-IsValid i (s ∷ ds) db l =
      reserve_all-IsValid (suc i) ds (reserve env i s db) (reserve-Loop i s ds db l)
