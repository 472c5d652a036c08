-- ===== src/Web/Reads.antt =====
-- What the reading handlers answer: they find the rows that they refer to, and count what they show.
use hilforge.Base.{
  ℕ, zero, suc, ◌≡◌, inl, inr, refl, String, Bool, true, Option, none, some, List, [], ◌∷◌,
  if◌then◌else◌, leb, take, order_by, is_some, Option-cases, Result, ok, ◌>>=◌, for_each, All,
  All-imp, All-where, All-order_by, or_fail, Error, All-find_by,
}
use hilforge.Domain.Rows.{
  TestSuite, TestRun, TestJob, Db, find_suite, find_device, find_run, run_id_of,
}
use hilforge.Config.{Settings, accepts}
use hilforge.Devices.{mark_stale_devices_offline}
use hilforge.Devices.Valid.{mark_stale_devices_offline-IsValid}
use hilforge.Runs.Read.{
  TestRunRead, TestJobRead, jobs_of, load_run, list_runs, run_read_model, job_read_model,
}
use hilforge.Invariant.Linked.{HasRows, HasSuite}
use hilforge.Invariant.Valid.{IsValid}
use hilforge.System.{System, Reach, start}
use hilforge.System.Safety.{Reach-IsSafe}
use hilforge.System.Promises.{start-IsSafe}
use hilforge.Web.Handlers.{Response, body, http_exception, unhandled, respond, get_run}
use hilforge.Web.Pages.{
  get_runs, get_run_jobs, jobs_by_age, Dashboard, dashboard, dashboard_context, by_name, RunDetail,
  run_detail, run_detail_context,
}

-- The status of a response; an exception that no handler catches is a server error.
abbrev pub status_code : {A : Type 0} → Response A → ℕ
status_code (body a) = 200
status_code (http_exception code) = code
status_code (unhandled e) = 500

-- The response is what the template makes of some context.
abbrev pub Renders : {Context Html : Type 0} → (Context → Result Html) → Response Html → Type 0
Renders {Context} render response = (context : Context) × (response ≡ respond (render context))

for_each-ok {ℓ κ} :
    {A : Type ℓ} {B : Type κ} (f : A → Result B) (xs : List A)
    → All (λ x. (b : B) × (f x ≡ ok b)) xs
    → (ys : List B) × (for_each f xs ≡ ok ys)
unfolding for_each
for_each-ok f [] h = ([], refl)
for_each-ok f (x ∷ xs) ((b, e), h) =
    let (ys, g) = for_each-ok f xs h in (b ∷ ys, rw (e, for_each) (rw g refl))

All-take {ℓ κ} : {A : Type ℓ} (P : A → Type κ) (n : ℕ) (xs : List A) → All P xs → All P (take n xs)
All-take P zero xs h = tt
All-take P (suc n) [] h = tt
All-take P (suc n) (x ∷ xs) h = (h.0, All-take P n xs h.1)

-- A row that is there is dereferenced.
dereferenced {ℓ κ} :
    {A : Type ℓ} {B : Type κ} (o : Option A) (x : Error) (read : A → B)
    → is_some o ≡ true
    → (b : B) × ((or_fail o x >>= λ a. ok (read a)) ≡ ok b)
dereferenced none x read h = cc
dereferenced (some a) x read h = (read a, refl)

module _ (db : Db) where
  run_read_model-ok :
      (run : TestRun)
      → HasSuite db.suites run
      → (read : TestRunRead) × (run_read_model db run ≡ ok read)
  unfolding run_read_model
  run_read_model-ok run h = dereferenced (find_suite run.test_suite_id db.suites) _ _ h

  job_read_model-ok :
      (job : TestJob)
      → HasRows db.devices db.runs job
      → (read : TestJobRead) × (job_read_model db job ≡ ok read)
  unfolding job_read_model
  job_read_model-ok job h = dereferenced (find_device job.device_id db.devices) _ _ h.0

  runs-ok :
      (limit : ℕ)
      → All (HasSuite db.suites) db.runs
      → (reads : List TestRunRead) × (for_each (run_read_model db) (list_runs limit db) ≡ ok reads)
  unfolding list_runs
  runs-ok limit h = for_each-ok (run_read_model db) _ (
      All-imp _ _ (take limit (order_by (λ r s. leb s.created_at r.created_at) db.runs))
        run_read_model-ok (All-take _ limit _ (All-order_by _ _ db.runs h)))

  jobs-ok :
      (run : TestRun)
      → All (HasRows db.devices db.runs) db.jobs
      → (reads : List TestJobRead) × (for_each (job_read_model db) (jobs_by_age run db) ≡ ok reads)
  unfolding jobs_by_age
  jobs-ok run h = for_each-ok (job_read_model db) _ (
      All-imp _ _ (order_by (λ j k. leb j.created_at k.created_at) (jobs_of run.id db.jobs))
        job_read_model-ok (All-order_by _ _ (jobs_of run.id db.jobs) (All-where _ _ db.jobs h)))

module _ {max_attempts : ℕ} {db : Db} (v : IsValid max_attempts db) where
  get_runs-ok : status_code (get_runs db) ≡ 200
  unfolding get_runs respond
  get_runs-ok = let (reads, e) = runs-ok db 50 v.linked.runs in rw e refl

  dashboard-Renders :
      {Html : Type 0} (render : Dashboard → Result Html) (settings : Settings)
      (name_le : String → String → Bool) (now : ℕ)
      → Renders render (dashboard render settings name_le now db).0
  unfolding dashboard respond
  dashboard-Renders render settings name_le now =
      let v' = mark_stale_devices_offline-IsValid v settings.heartbeat_timeout_seconds now in
      let db' = (mark_stale_devices_offline settings.heartbeat_timeout_seconds now db).1 in
      let (reads, e) = runs-ok db' 20 v'.linked.runs in
      (
        dashboard_context (order_by (by_name name_le) db'.devices)
            (order_by (λ s t. name_le s.name t.name) db'.suites) reads,
        rw e refl,
      )

  module _ (run_id : ℕ) where
    known_suite : {run : TestRun} → find_run run_id db.runs ≡ some run → HasSuite db.suites run
    known_suite f = All-find_by run_id_of (HasSuite db.suites) run_id db.runs v.linked.runs f

    get_run-ok :
        status_code (get_run run_id db) ≡ (if is_some (find_run run_id db.runs) then 200 else 404)
    unfolding get_run load_run respond
    get_run-ok = elim (Option-cases (find_run run_id db.runs)) [
      | inl absent ↦ rw (absent, get_run) refl
      | inr (run, f) ↦
          let (read, e) = run_read_model-ok db run (known_suite f) in rw (f, get_run) (rw e refl)
    ]

    get_run_jobs-ok :
        status_code (get_run_jobs run_id db)
        ≡ (if is_some (find_run run_id db.runs) then 200 else 404)
    unfolding get_run_jobs load_run respond
    get_run_jobs-ok = elim (Option-cases (find_run run_id db.runs)) [
      | inl absent ↦ rw (absent, get_run_jobs) refl
      | inr (run, f) ↦
          let (reads, e) = jobs-ok db run v.linked.jobs in rw (f, get_run_jobs) (rw e refl)
    ]

    run_detail-Renders :
        {Html : Type 0} (render : RunDetail → Result Html)
        → if is_some (find_run run_id db.runs)
          then Renders render (run_detail render run_id db)
          else (run_detail render run_id db ≡ http_exception 404)
    unfolding run_detail load_run respond
    run_detail-Renders render = elim (Option-cases (find_run run_id db.runs)) [
      | inl absent ↦ rw (absent, run_detail) refl
      | inr (run, f) ↦
          let (read, e) = run_read_model-ok db run (known_suite f) in
          let (reads, g) = jobs-ok db run v.linked.jobs in
          rw (f, run_detail) (run_detail_context reads read, rw g (rw e refl))
    ]

module _ (settings : Settings) (accepted : accepts settings ≡ true) (suites : List TestSuite)
    {s : System} (reached : Reach settings (start suites) s) where
  -- With settings that pass their validation, in every state that the control plane can reach from
  -- an empty database with some suites, the list of runs is answered with 200, a run and its jobs
  -- are answered with 200 if the run is known, and else with 404, and the dashboard, and the page of
  -- a known run, are answered with what the template makes of some context: no exception comes from
  -- anything but the template. The page of an unknown run is answered with 404.
  pub reads_never_fail :
      {Html : Type 0} (render : Dashboard → Result Html) (render_run : RunDetail → Result Html)
      (run_id now : ℕ) (name_le : String → String → Bool)
      → (status_code (get_runs s.db) ≡ 200)
        × (status_code (get_run run_id s.db)
            ≡ (if is_some (find_run run_id s.db.runs) then 200 else 404))
        × (status_code (get_run_jobs run_id s.db)
            ≡ (if is_some (find_run run_id s.db.runs) then 200 else 404))
        × Renders render (dashboard render settings name_le now s.db).0
        × (if is_some (find_run run_id s.db.runs)
            then Renders render_run (run_detail render_run run_id s.db)
            else (run_detail render_run run_id s.db ≡ http_exception 404))
  reads_never_fail render render_run run_id now name_le =
      let v = (Reach-IsSafe settings accepted (start-IsSafe settings suites) reached).valid in
      (
        get_runs-ok v,
        get_run-ok v run_id,
        get_run_jobs-ok v run_id,
        dashboard-Renders v render settings name_le now,
        run_detail-Renders v run_id render_run,
      )
