-- ===== src/Runs/Requested.antt =====
-- What a created run holds: one queued job for each selected device, and, where the request names
-- devices, for exactly those.
use hilforge.Base.{
  ℕ, suc, ◌<◌, ◌≡◌, ◌≢◌, refl, sym, ap, ◌∙◌, Bool, true, false, Option, none, some, List, [], ◌∷◌,
  ◌++◌, map, arith, subst, if◌then◌else◌, ok, All, All-map, All-intro, Distinct, Distinct-order_by,
  Distinct-where, length, ◌==◌, ℕ_discrete,
}
use mathlib.Core.List.{append-nil, append_assoc}
use hilforge.Domain.Rows.{Device, TestRun, TestJob, Db, device_id_of, job_id_of}
use hilforge.Domain.Status.{JobStatus}
use hilforge.Invariant.Valid.{IsValid}
use hilforge.Runs.Create.{
  RunCreate, Surroundings, contains, is_requested, select_devices, new_run, new_job, reserve,
  reserve_all, check_selection, create_run, ids_from,
}
use hilforge.Runs.Reserve.{create_run-made, All-select_devices}

-- The jobs that the loop adds.
unfoldable pub jobs_for : Surroundings → ℕ → List Device → List TestJob
jobs_for env i [] = []
jobs_for env i (d ∷ ds) = new_job (env.job_ids i) env.run_id d.id env.now ∷ jobs_for env (suc i) ds

reserve_all-jobs :
    (env : Surroundings) (i : ℕ) (ds : List Device) (db : Db)
    → (reserve_all env i ds db).jobs ≡ db.jobs ++ jobs_for env i ds
unfolding reserve_all reserve jobs_for
reserve_all-jobs env i [] db = sym (append-nil db.jobs)
reserve_all-jobs env i (d ∷ ds) db =
    reserve_all-jobs env (suc i) ds (reserve env i d db)
    ∙ append_assoc db.jobs (new_job (env.job_ids i) env.run_id d.id env.now ∷ [])
        (jobs_for env (suc i) ds)

-- Pigeonhole: keys that all stand in a list without repetition, as many as the list is long, are
-- all the keys of the list.
remove_key : ℕ → List ℕ → List ℕ
remove_key k [] = []
remove_key k (m ∷ ms) = if m == k then ms else m ∷ remove_key k ms

length-remove_key :
    (k : ℕ) (ms : List ℕ) → contains k ms ≡ true → suc (length (remove_key k ms)) ≡ length ms
unfolding remove_key
length-remove_key k [] h = cc
length-remove_key k (m ∷ ms) h = ground (arith, length-remove_key k ms)

contains-remove_key : (k j : ℕ) (ms : List ℕ) → j ≢ k → contains j (remove_key k ms) ≡ contains j ms
unfolding remove_key
contains-remove_key k j [] n = refl
contains-remove_key k j (m ∷ ms) n = ground (arith, contains-remove_key k j ms)

still_in :
    (k : ℕ) (ks ms : List ℕ)
    → All (λ m. m ≢ k) ks
    → All (λ j. contains j ms ≡ true) ks
    → All (λ j. contains j (remove_key k ms) ≡ true) ks
still_in k [] ms n h = tt
still_in k (j ∷ ks) ms n h = (rw (contains-remove_key k j ms n.0) h.0, still_in k ks ms n.1 h.1)

-- Distinct keys of a list that is no longer than they are: every key of the list is among them.
pigeonhole :
    (ks ms : List ℕ) (k : ℕ)
    → Distinct ks
    → All (λ j. contains j ms ≡ true) ks
    → length ms ≡ length ks
    → contains k ms ≡ true
    → contains k ks ≡ true
pigeonhole [] [] k d h l c = cc
pigeonhole [] (m ∷ ms) k d h l c = absurd (omega arith)
pigeonhole (j ∷ ks) ms k d h l c = elim (ℕ_discrete j k) [
  | yes e ↦ ground arith
  | no n ↦
      let rest =
        pigeonhole ks (remove_key j ms) k d.1 (still_in j ks ms d.0 h.1)
          (omega (arith, length-remove_key j ms h.0))
          (rw (contains-remove_key j k ms (λ e. n (sym e))) c) in
      ground arith
]

devices-jobs_for :
    (env : Surroundings) (i : ℕ) (ds : List Device)
    → map (λ j. j.device_id) (jobs_for env i ds) ≡ map device_id_of ds
unfolding jobs_for new_job
devices-jobs_for env i [] = refl
devices-jobs_for env i (d ∷ ds) = ap (λ (ks : List ℕ). d.id ∷ ks) (devices-jobs_for env (suc i) ds)

ids-jobs_for :
    (env : Surroundings) (i : ℕ) (ds : List Device)
    → map job_id_of (jobs_for env i ds) ≡ ids_from env.job_ids i ds
unfolding jobs_for new_job
ids-jobs_for env i [] = refl
ids-jobs_for env i (d ∷ ds) = ap (λ (ks : List ℕ). env.job_ids i ∷ ks) (ids-jobs_for env (suc i) ds)

-- A new job of a run: queued, with no attempt.
abbrev pub IsNew : TestRun → TestJob → Type 0
IsNew run j = (j.status ≡ JobStatus.queued) × (j.test_run_id ≡ run.id) × (j.attempts ≡ 0)

jobs_for-IsNew :
    (env : Surroundings) (i : ℕ) (ds : List Device) (request : RunCreate)
    → All (IsNew (new_run env request)) (jobs_for env i ds)
unfolding jobs_for new_job new_run
jobs_for-IsNew env i [] request = tt
jobs_for-IsNew env i (d ∷ ds) request = ((refl, refl, refl), jobs_for-IsNew env (suc i) ds request)

in-All :
    (ks ms : List ℕ) (k : ℕ)
    → All (λ j. contains j ms ≡ true) ks
    → contains k ks ≡ true
    → contains k ms ≡ true
in-All [] ms k h c = cc
in-All (j ∷ ks) ms k h c = elim (ℕ_discrete j k) [
  | yes e ↦ subst (λ i. contains i ms ≡ true) e h.0
  | no n ↦ in-All ks ms k h.1 (ground arith)
]

same_tests : (a b : Bool) → (a ≡ true → b ≡ true) → (b ≡ true → a ≡ true) → a ≡ b
same_tests true true f g = refl
same_tests true false f g = sym (f refl)
same_tests false true f g = g refl
same_tests false false f g = refl

length-ids_from :
    (job_ids : ℕ → ℕ) (i : ℕ) (ds : List Device) → length (ids_from job_ids i ds) ≡ length ds
length-ids_from job_ids i [] = refl
length-ids_from job_ids i (d ∷ ds) = ap suc (length-ids_from job_ids (suc i) ds)

length-map_ids : (ds : List Device) → length (map device_id_of ds) ≡ length ds
length-map_ids [] = refl
length-map_ids (d ∷ ds) = ap suc (length-map_ids ds)

checked_length :
    (wanted : List ℕ) (ds : List Device)
    → check_selection (some wanted) ds ≡ ok tt
    → length wanted ≡ length ds
unfolding check_selection
checked_length wanted ds h = ground arith

checked_some :
    (ids : Option (List ℕ)) (ds : List Device) → check_selection ids ds ≡ ok tt → 0 < length ds
unfolding check_selection
checked_some none [] h = cc
checked_some none (d ∷ ds) h = omega arith
checked_some (some wanted) ds h = ground arith

reserve_all-runs :
    (env : Surroundings) (i : ℕ) (ds : List Device) (db : Db)
    → (reserve_all env i ds db).runs ≡ db.runs
unfolding reserve_all reserve
reserve_all-runs env i [] db = refl
reserve_all-runs env i (d ∷ ds) db = reserve_all-runs env (suc i) ds (reserve env i d db)

-- The devices of some jobs.
abbrev pub devices_of : List TestJob → List ℕ
devices_of = map (λ j. j.device_id)

-- What creating a run adds to the database.
abbrev pub Adds : Db → TestRun × List ℕ × Db → Type 0
Adds db t =
    (jobs : List TestJob) × (t.2.jobs ≡ db.jobs ++ jobs)
    × All (IsNew t.0) jobs
    × (map job_id_of jobs ≡ t.1)
    × Distinct (devices_of jobs)
    × (0 < length (devices_of jobs))
    × (t.2.runs ≡ db.runs ++ t.0 ∷ [])

-- The jobs that were added are for the devices that were asked for.
abbrev pub AddsFor : List ℕ → Db → TestRun × List ℕ × Db → Type 0
AddsFor wanted db t =
    (jobs : List TestJob) × (t.2.jobs ≡ db.jobs ++ jobs)
    × ((k : ℕ) → contains k (devices_of jobs) ≡ contains k wanted)

module _ {max_attempts : ℕ} (env : Surroundings) (timeout : ℕ) (request : RunCreate) {db : Db}
    (v : IsValid max_attempts db) {run : TestRun} {ids : List ℕ} {db' : Db}
    (created : create_run env timeout request db ≡ ok (run, ids, db')) where
  selected-apart :
      Distinct (map device_id_of (select_devices env timeout request.device_ids db.devices))
  unfolding select_devices
  selected-apart =
      Distinct-order_by device_id_of env.name_le _
        (Distinct-where device_id_of _ db.devices v.reserved.distinct)

  -- If a run is created on a valid database, its jobs are appended to the others: at least one,
  -- each queued, of this run and with no attempt, under the identifiers that are returned and for
  -- different devices. The run is appended to the others.
  pub create_run-added : Adds db (run, ids, db')
  create_run-added =
      let ds = select_devices env timeout request.device_ids db.devices in
      let (suite, f, c, made) = create_run-made env timeout request db created in
      subst (Adds db) made (
        jobs_for env 0 ds,
        reserve_all-jobs env 0 ds _,
        jobs_for-IsNew env 0 ds request,
        ids-jobs_for env 0 ds,
        subst Distinct (sym (devices-jobs_for env 0 ds)) selected-apart,
        rw (devices-jobs_for env 0 ds)
            (omega (arith, checked_some request.device_ids ds c, length-map_ids ds)),
        reserve_all-runs env 0 ds _,
      )

  -- If a run is created for named devices on a valid database, the jobs that are added are for
  -- exactly these devices.
  pub create_run-requested :
      (wanted : List ℕ) → request.device_ids ≡ some wanted → AddsFor wanted db (run, ids, db')
  create_run-requested wanted e =
      let ds = select_devices env timeout request.device_ids db.devices in
      let (suite, f, c, made) = create_run-made env timeout request db created in
      let inside : All (λ k. contains k wanted ≡ true) (map device_id_of ds) =
        All-map (λ k. contains k wanted ≡ true) device_id_of ds
          (All-select_devices _ env timeout request.device_ids db.devices
            (All-intro _ db.devices (λ x a r l. subst (λ o. is_requested o x ≡ true) e r))) in
      let many : length wanted ≡ length (map device_id_of ds) =
        checked_length wanted ds (subst (λ o. check_selection o ds ≡ ok tt) e c)
        ∙ sym (length-map_ids ds) in
      subst (AddsFor wanted db) made (
        jobs_for env 0 ds,
        reserve_all-jobs env 0 ds _,
        λ k. rw (devices-jobs_for env 0 ds) (
            same_tests _ _ (in-All (map device_id_of ds) wanted k inside)
              (pigeonhole (map device_id_of ds) wanted k selected-apart inside many)),
      )

  -- As many jobs as devices were named.
  pub create_run-counted :
      (wanted : List ℕ) → request.device_ids ≡ some wanted → length ids ≡ length wanted
  create_run-counted wanted e =
      let ds = select_devices env timeout request.device_ids db.devices in
      let (suite, f, c, made) = create_run-made env timeout request db created in
      let many = checked_length wanted ds (subst (λ o. check_selection o ds ≡ ok tt) e c) in
      subst (λ (t : TestRun × List ℕ × Db). length t.1 ≡ length wanted) made
        (length-ids_from env.job_ids 0 ds ∙ sym many)
