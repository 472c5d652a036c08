-- ===== src/Invariant/Linked.antt =====
-- The foreign keys: every job has its device and its run, and every run its suite.
use hilforge.Base.{
  ℕ, ◌≡◌, ◌≢◌, refl, ap, true, false, Option, none, some, List, [], ◌∷◌, ◌++◌, arith, All, All-imp,
  All-find_by, All-put_by, find_by, put_by, is_some,
}
use hilforge.Domain.Rows.{
  Device, TestRun, TestJob, TestSuite, Db, run_id_of, job_id_of, find_device, find_run, find_job,
  find_suite,
}

abbrev pub HasRows : List Device → List TestRun → TestJob → Type 0
HasRows devices runs job =
    (is_some (find_device job.device_id devices) ≡ true)
    × (is_some (find_run job.test_run_id runs) ≡ true)

abbrev pub HasSuite : List TestSuite → TestRun → Type 0
HasSuite suites run = is_some (find_suite run.test_suite_id suites) ≡ true

pub record Linked (db : Db) : Type 0 where
  pub jobs : All (HasRows db.devices db.runs) db.jobs
  pub runs : All (HasSuite db.suites) db.runs

pub the_row {ℓ} : {A : Type ℓ} (o : Option A) → is_some o ≡ true → (a : A) × (o ≡ some a)
the_row none h = cc
the_row (some a) h = (a, refl)

module _ {ℓ} {A : Type ℓ} (key : A → ℕ) where
  pub is_some-find_by-put_by :
      (k : ℕ) (x' : A) (xs : List A)
      → is_some (find_by key k (put_by key x' xs)) ≡ is_some (find_by key k xs)
  unfolding find_by put_by
  is_some-find_by-put_by k x' [] = refl
  is_some-find_by-put_by k x' (x ∷ xs) = ground (arith, is_some-find_by-put_by k x' xs)

  pub is_some-find_by-append :
      (k : ℕ) (xs : List A) (x : A)
      → is_some (find_by key k xs) ≡ true
      → is_some (find_by key k (xs ++ x ∷ [])) ≡ true
  unfolding find_by
  is_some-find_by-append k [] x h = cc
  is_some-find_by-append k (y ∷ xs) x h = ground (arith, is_some-find_by-append k xs x)

  pub is_none-find_by-append :
      (k : ℕ) (xs : List A) (x : A)
      → is_some (find_by key k xs) ≡ false
      → key x ≢ k
      → is_some (find_by key k (xs ++ x ∷ [])) ≡ false
  unfolding find_by
  is_none-find_by-append k [] x h n = ground arith
  is_none-find_by-append k (y ∷ xs) x h n = ground (arith, is_none-find_by-append k xs x)

  pub find_by_last : (xs : List A) (x : A) → is_some (find_by key (key x) (xs ++ x ∷ [])) ≡ true
  unfolding find_by
  find_by_last [] x = ground arith
  find_by_last (y ∷ xs) x = ground (arith, find_by_last xs x)

  -- A key that no row has is not found, and a key that is found is some row's.
  pub not_found :
      (k : ℕ) (xs : List A) → is_some (find_by key k xs) ≡ false → All (λ x. key x ≢ k) xs
  unfolding find_by
  not_found k [] h = tt
  not_found k (x ∷ xs) h = (ground arith, not_found k xs (ground arith))

  pub found-ne :
      (k m : ℕ) (xs : List A)
      → is_some (find_by key k xs) ≡ true
      → is_some (find_by key m xs) ≡ false
      → k ≢ m
  found-ne k m xs h n e = ground (arith, ap (λ (i : ℕ). is_some (find_by key i xs)) e)

module _ {db : Db} (v : Linked db) where
  pub linked_device :
      (k : ℕ) {job : TestJob}
      → find_job k db.jobs ≡ some job
      → (d : Device) × (find_device job.device_id db.devices ≡ some d)
  linked_device k h =
      the_row _ (All-find_by job_id_of (HasRows db.devices db.runs) k db.jobs v.jobs h).0

  pub linked_run :
      (k : ℕ) {job : TestJob}
      → find_job k db.jobs ≡ some job
      → (r : TestRun) × (find_run job.test_run_id db.runs ≡ some r)
  linked_run k h =
      the_row _ (All-find_by job_id_of (HasRows db.devices db.runs) k db.jobs v.jobs h).1

  pub linked_suite :
      (k : ℕ) {run : TestRun}
      → find_run k db.runs ≡ some run
      → (s : TestSuite) × (find_suite run.test_suite_id db.suites ≡ some s)
  linked_suite k h = the_row _ (All-find_by run_id_of (HasSuite db.suites) k db.runs v.runs h)

  -- Rows are rewritten under their keys, and the references of the job and the run stay.
  pub Linked-put :
      (job job' : TestJob) (run' : TestRun) (devices : List Device)
      → ((k : ℕ) → is_some (find_device k devices) ≡ is_some (find_device k db.devices))
      → find_job job'.id db.jobs ≡ some job
      → job'.device_id ≡ job.device_id
      → job'.test_run_id ≡ job.test_run_id
      → HasSuite db.suites run'
      → Linked (record db {
        devices = devices;
        jobs = put_by job_id_of job' db.jobs;
        runs = put_by run_id_of run' db.runs;
      })
  Linked-put job job' run' devices same h d r s = record {
    jobs = All-put_by job_id_of _ job' db.jobs (All-imp _ _ db.jobs (λ j g. keep j g) v.jobs) (
        keep job' (
          rw (d, r) (All-find_by job_id_of (HasRows db.devices db.runs) job'.id db.jobs v.jobs h)));
    runs = All-put_by run_id_of _ run' db.runs v.runs s;
  }
    where
      keep :
          (j : TestJob)
          → HasRows db.devices db.runs j
          → HasRows devices (put_by run_id_of run' db.runs) j
      keep j g = (
        rw (same j.device_id) g.0,
        rw (is_some-find_by-put_by run_id_of j.test_run_id run' db.runs) g.1,
      )
