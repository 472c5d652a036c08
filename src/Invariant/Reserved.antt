-- ===== src/Invariant/Reserved.antt =====
-- Exclusive reservation: a device has at most one active job, and none while it is online.
use hilforge.Base.{
  ℕ, ◌+◌, ◌≤◌, ◌≡◌, ◌≢◌, refl, true, false, some, List, [], ◌∷◌, ◌++◌, map, if◌then◌else◌, ◌==◌,
  ◌&&◌, ltb, arith, All, All-imp, All-put_by_ne, Distinct, Distinct-put_by, sum_by, sum_by-put_by,
  sum_by-append, find_by, put_by, ℕ_discrete,
}
use hilforge.Domain.Status.{online, active_job_statuses}
use hilforge.Domain.Rows.{Device, TestJob, device_id_of, job_id_of, find_job}
use hilforge.Devices.{has_active_job}

-- 1 for an active job of the device, 0 for any other job.
abbrev pub active_weight : ℕ → TestJob → ℕ
active_weight device_id job =
    if job.device_id == device_id && active_job_statuses job.status then 1 else 0

-- How many active jobs a device has.
unfoldable pub active_count : ℕ → List TestJob → ℕ
active_count device_id jobs = sum_by job_id_of (active_weight device_id) jobs

abbrev pub IsFree : List TestJob → Device → Type 0
IsFree jobs device = device.status ≡ online → active_count device.id jobs ≡ 0

pub record Reserved (devices : List Device) (jobs : List TestJob) : Type 0 where
  pub distinct : Distinct (map device_id_of devices)
  pub once : (device_id : ℕ) → active_count device_id jobs ≤ 1
  pub free : All (IsFree jobs) devices

-- The query for an active job succeeds exactly if the number of active jobs of the device is above
-- 0.
pub has_active_job-active_count :
    (jobs : List TestJob) (device_id : ℕ)
    → has_active_job jobs device_id ≡ ltb 0 (active_count device_id jobs)
unfolding has_active_job active_count
has_active_job-active_count [] device_id = refl
has_active_job-active_count (j ∷ jobs) device_id =
    ground (arith, has_active_job-active_count jobs device_id)

pub active_count-put_job :
    (d : ℕ) (job job' : TestJob) (jobs : List TestJob)
    → find_job job'.id jobs ≡ some job
    → active_count d (put_by job_id_of job' jobs) + active_weight d job
      ≡ active_count d jobs + active_weight d job'
unfolding active_count
active_count-put_job d job job' jobs h = sum_by-put_by job_id_of (active_weight d) job job' jobs h

pub active_count-append :
    (d : ℕ) (jobs : List TestJob) (job : TestJob)
    → active_count d (jobs ++ job ∷ []) ≡ active_count d jobs + active_weight d job
unfolding active_count
active_count-append d jobs job =
    omega (arith, sum_by-append job_id_of (active_weight d) jobs (job ∷ []))

-- What a job weighs depends on its device and on whether it is active.
active_weight_ext :
    (d : ℕ) (job job' : TestJob)
    → job'.device_id ≡ job.device_id
    → active_job_statuses job'.status ≡ active_job_statuses job.status
    → active_weight d job' ≡ active_weight d job
active_weight_ext d job job' e a = rw (e, a)

active_weight_inactive :
    (d : ℕ) (job : TestJob) → active_job_statuses job.status ≡ false → active_weight d job ≡ 0
active_weight_inactive d job a = rw a (ground arith)

pub active_weight_active :
    (d : ℕ) (job : TestJob)
    → d ≡ job.device_id
    → active_job_statuses job.status ≡ true
    → active_weight d job ≡ 1
active_weight_active d job e a = rw (e, a) (ground arith)

pub active_weight_elsewhere : (d : ℕ) (job : TestJob) → d ≢ job.device_id → active_weight d job ≡ 0
active_weight_elsewhere d job e = ground arith

active_weight_le : (d : ℕ) (job : TestJob) → active_weight d job ≤ 1
active_weight_le d job = ground arith

-- A job that is found is counted.
pub active_weight-le-active_count :
    (d k : ℕ) (jobs : List TestJob) {job : TestJob}
    → find_job k jobs ≡ some job
    → active_weight d job ≤ active_count d jobs
unfolding active_count find_by
active_weight-le-active_count d k [] h = cc
active_weight-le-active_count d k (j ∷ jobs) {job} h =
    ground (arith, active_weight-le-active_count d k jobs {job = job})

module _ {devices : List Device} {jobs : List TestJob} (v : Reserved devices jobs) where
  -- A job that changes and stays active, or stays inactive, changes no reservation.
  pub Reserved-put_job :
      (job job' : TestJob)
      → find_job job'.id jobs ≡ some job
      → job'.device_id ≡ job.device_id
      → active_job_statuses job'.status ≡ active_job_statuses job.status
      → Reserved devices (put_by job_id_of job' jobs)
  Reserved-put_job job job' h d a = record {
    distinct = v.distinct;
    once = λ k. rw (same k) (v.once k);
    free = All-imp _ _ devices (λ x f on. rw (same x.id) (f on)) v.free;
  }
    where
      same : (k : ℕ) → active_count k (put_by job_id_of job' jobs) ≡ active_count k jobs
      same k =
          omega (arith, active_count-put_job k job job' jobs h, active_weight_ext k job job' d a)

  -- A job that ends releases its device, whatever status the device is given.
  pub Reserved-finish :
      (job job' : TestJob) (device' : Device)
      → find_job job'.id jobs ≡ some job
      → job'.device_id ≡ job.device_id
      → active_job_statuses job.status ≡ true
      → active_job_statuses job'.status ≡ false
      → device'.id ≡ job.device_id
      → Reserved (put_by device_id_of device' devices) (put_by job_id_of job' jobs)
  Reserved-finish job job' device' h d a a' i = record {
    distinct = Distinct-put_by device_id_of device' devices v.distinct;
    once = λ k.
        omega (
          arith,
          active_count-put_job k job job' jobs h,
          active_weight_inactive k job' a',
          v.once k,
        );
    free =
        All-put_by_ne device_id_of _ device' devices v.distinct
          (All-imp _ _ devices
            (λ x f ne on. omega (
              arith,
              f on,
              active_count-put_job x.id job job' jobs h,
              active_weight_inactive x.id job' a',
            ))
            v.free)
          (λ on. omega (
            arith,
            v.once device'.id,
            active_count-put_job device'.id job job' jobs h,
            active_weight_inactive device'.id job' a',
            active_weight_active device'.id job i a,
          ));
  }

  -- A device may take any status but online, and online when it has no active job.
  pub Reserved-put_device :
      (device' : Device) → IsFree jobs device' → Reserved (put_by device_id_of device' devices) jobs
  Reserved-put_device device' f = record {
    distinct = Distinct-put_by device_id_of device' devices v.distinct;
    once = v.once;
    free =
        All-put_by_ne device_id_of _ device' devices v.distinct
          (All-imp _ _ devices (λ x f ne. f) v.free) f;
  }

  -- A job queued for a device that has none, on a device that is not online.
  pub Reserved-append :
      (job : TestJob)
      → active_count job.device_id jobs ≡ 0
      → All (λ x. x.id ≡ job.device_id → x.status ≢ online) devices
      → Reserved devices (jobs ++ job ∷ [])
  Reserved-append job z off = record {
    distinct = v.distinct;
    once = λ k. bound k;
    free = free_after devices v.free off;
  }
    where
      bound : (k : ℕ) → active_count k (jobs ++ job ∷ []) ≤ 1
      bound k = elim (ℕ_discrete k job.device_id) [
        | yes e ↦ rw e (
            omega (
              arith,
              z,
              active_count-append job.device_id jobs job,
              active_weight_le job.device_id job,
            ))
        | no n ↦
            omega (arith, v.once k, active_count-append k jobs job, active_weight_elsewhere k job n)
      ]

      free_after :
          (ds : List Device)
          → All (IsFree jobs) ds
          → All (λ x. x.id ≡ job.device_id → x.status ≢ online) ds
          → All (IsFree (jobs ++ job ∷ [])) ds
      free_after [] f o = tt
      free_after (x ∷ ds) f o = (
        λ on. omega (
          arith,
          f.0 on,
          active_count-append x.id jobs job,
          active_weight_elsewhere x.id job (λ e. o.0 e on),
        ),
        free_after ds f.1 o.1,
      )
