-- ===== src/Runs/Reserve.antt =====
-- Creating a run on a valid database: the reservation loop keeps it valid.
use hilforge.Base.{
  ℕ, ◌≡◌, ◌≢◌, refl, Bool, true, false, not, Option, some, List, [], ◌∷◌, ◌++◌, arith, subst, ok,
  >>=-eq-ok, or_fail, or_fail-eq-ok, ok-injective, is_some, All, All-append, All-imp, All-where_imp,
  All-order_by, Distinct-where, Distinct-order_by, ◌&&◌, All-find_by_self,
}
use hilforge.Domain.Status.{DeviceStatus}
use hilforge.Domain.Rows.{
  Device, TestSuite, TestRun, TestJob, Db, find_run, find_job, find_suite, device_id_of, run_id_of,
}
use hilforge.Devices.{is_available}
use hilforge.Runs.Status.{statuses_of}
use hilforge.Runs.Create.{
  RunCreate, Surroundings, is_requested, select_devices, new_run, reserve_all, check_selection,
  create_run, ids_from,
}
use hilforge.Runs.Loop.{Loop, reserve_all-IsValid}
use hilforge.Invariant.Agrees.{Agrees-new_run}
use hilforge.Invariant.Linked.{HasRows, not_found, is_some-find_by-append, find_by_last, found-ne}
use hilforge.Invariant.Valid.{IsValid}

-- What UUIDs promise: those drawn for a transaction are new, and differ from one another.
pub record Fresh (env : Surroundings) (db : Db) : Type 0 where
  pub run_id : is_some (find_run env.run_id db.runs) ≡ false
  pub job_ids : (i : ℕ) → is_some (find_job (env.job_ids i) db.jobs) ≡ false
  pub apart : (i j : ℕ) → i ≢ j → env.job_ids i ≢ env.job_ids j

no_jobs_yet :
    (k : ℕ) (devices : List Device) (runs : List TestRun) (jobs : List TestJob)
    → All (HasRows devices runs) jobs
    → is_some (find_run k runs) ≡ false
    → statuses_of k jobs ≡ []
unfolding statuses_of
no_jobs_yet k devices runs [] h n = refl
no_jobs_yet k devices runs (j ∷ jobs) h n =
    let apart : j.test_run_id ≢ k = found-ne run_id_of j.test_run_id k runs h.0.1 n in
    ground (arith, no_jobs_yet k devices runs jobs h.1 n)

-- What is selected passed every test of the query.
pub All-select_devices {ℓ} :
    (Q : Device → Type ℓ) (env : Surroundings) (timeout : ℕ) (ids : Option (List ℕ))
    (devices : List Device)
    → All
        (λ x.
          is_available timeout env.now x ≡ true
          → is_requested ids x ≡ true
          → env.locked x ≡ false
          → Q x)
        devices
    → All Q (select_devices env timeout ids devices)
unfolding select_devices
All-select_devices Q env timeout ids devices h = All-order_by Q env.name_le _ (
    All-where_imp Q _ devices (
      All-imp _ _ devices
        (λ x f t. pass (is_available timeout env.now x) (is_requested ids x) (env.locked x) f t) h))
  where
    pass :
        {R : Type ℓ} (a b c : Bool)
        → (a ≡ true → b ≡ true → c ≡ false → R)
        → (a && b && not c) ≡ true
        → R
    pass true true false f t = f refl refl refl
    pass true true true f t = cc
    pass true false c f t = cc
    pass false b c f t = cc

available-online :
    (timeout now : ℕ) (x : Device)
    → is_available timeout now x ≡ true
    → x.status ≡ DeviceStatus.online
unfolding is_available
available-online timeout now x h = ground arith

-- What a run that was created comes from.
pub create_run-made :
    (env : Surroundings) (timeout : ℕ) (request : RunCreate) (db : Db) {t : TestRun × List ℕ × Db}
    → create_run env timeout request db ≡ ok t
    → let devices = select_devices env timeout request.device_ids db.devices in
      (suite : TestSuite) × (find_suite request.test_suite_id db.suites ≡ some suite)
      × (check_selection request.device_ids devices ≡ ok tt)
      × (◌≡◌ {A = TestRun × List ℕ × Db}
          (
            new_run env request,
            ids_from env.job_ids 0 devices,
            reserve_all env 0 devices (record db { runs = db.runs ++ new_run env request ∷ [] }),
          )
          t)
unfolding create_run
create_run-made env timeout request db e =
    let (suite, f, rest) = >>=-eq-ok (or_fail (find_suite request.test_suite_id db.suites) _) _ e in
    let (u, r, made) = >>=-eq-ok (check_selection request.device_ids _) _ rest in
    (suite, or_fail-eq-ok _ _ f, r, ok-injective made)

module _ {max_attempts : ℕ} (env : Surroundings) {db : Db} (v : IsValid max_attempts db)
    (fresh : Fresh env db) where
  with_run-IsValid :
      (request : RunCreate)
      → is_some (find_suite request.test_suite_id db.suites) ≡ true
      → IsValid max_attempts (record db { runs = db.runs ++ new_run env request ∷ [] })
  unfolding new_run
  with_run-IsValid request suite =
      let run = new_run env request in
      let unused = not_found run_id_of env.run_id db.runs fresh.run_id in
      record {
        reserved = v.reserved;
        agrees =
            Agrees-new_run v.agrees run refl unused
              (no_jobs_yet env.run_id db.devices db.runs db.jobs v.linked.jobs fresh.run_id);
        linked = record {
          jobs =
              All-imp _ _ db.jobs
                (λ j g. (g.0, is_some-find_by-append run_id_of j.test_run_id db.runs run g.1))
                v.linked.jobs;
          runs = All-append _ db.runs (run ∷ []) v.linked.runs (suite, tt);
        };
        attempts = v.attempts;
      }

  select-Loop :
      (request : RunCreate) (timeout : ℕ)
      → is_some (find_suite request.test_suite_id db.suites) ≡ true
      → Loop max_attempts env 0
          (select_devices env timeout request.device_ids db.devices)
          (record db { runs = db.runs ++ new_run env request ∷ [] })
  unfolding new_run select_devices
  select-Loop request timeout suite =
      let run = new_run env request in
      let unused = not_found run_id_of env.run_id db.runs fresh.run_id in
      record {
        valid = with_run-IsValid request suite;
        idle = All-select_devices _ env timeout request.device_ids db.devices (
            All-imp _ _ db.devices (λ x f a r l. f (available-online timeout env.now x a))
              v.reserved.free);
        apart =
            Distinct-order_by device_id_of env.name_le _
              (Distinct-where device_id_of _ db.devices v.reserved.distinct);
        known = All-select_devices _ env timeout request.device_ids db.devices (
            All-imp _ _ db.devices (λ x e a r l. rw e refl)
              (All-find_by_self device_id_of db.devices v.reserved.distinct));
        run_known = find_by_last run_id_of db.runs run;
        run_queued =
            All-append _ db.runs (run ∷ []) (All-imp _ _ db.runs (λ r n e. absurd (n e)) unused)
              ((λ e. refl), tt);
        fresh = λ n h. fresh.job_ids n;
      }

  -- If a run is created on a valid database, with unused and different identifiers, the database is
  -- valid afterwards.
  pub create_run-IsValid :
      (timeout : ℕ) (request : RunCreate) {run : TestRun} {ids : List ℕ} {db' : Db}
      → create_run env timeout request db ≡ ok (run, ids, db')
      → IsValid max_attempts db'
  create_run-IsValid timeout request e =
      let (suite, f, c, made) = create_run-made env timeout request db e in
      subst (λ t. IsValid max_attempts t.2) made
        (reserve_all-IsValid max_attempts env fresh.apart 0
          (select_devices env timeout request.device_ids db.devices) _
          (select-Loop request timeout (rw f refl)))
