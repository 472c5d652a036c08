-- ===== src/Web/Counts.antt =====
-- What the two pages count and offer.
use hilforge.Base.{
  ℕ, suc, ◌+◌, ◌≡◌, refl, sym, ◌∙◌, subst, ap, String, Bool, true, List, [], ◌∷◌, if◌then◌else◌,
  ◌||◌, length, count_where, where_true, insert_by, order_by, length-order_by, arith, Result, ok,
  err, ok-injective, >>=-eq-ok, ◌>>=◌, for_each, All, All-map, All-intro, All-order_by,
  All-where_imp, map, Option-cases, leb, or_fail, attribute_error, find_by-key, inl, inr,
}
use hilforge.Domain.Status.{DeviceStatus, device_status_eq, job_status_eq, JobStatus}
use hilforge.Domain.Rows.{Device, TestJob, Db, find_run, find_suite, find_device, run_id_of}
use hilforge.Config.{Settings}
use hilforge.Devices.{mark_stale_devices_offline, is_available, is_stale, set_offline}
use hilforge.Runs.Read.{
  TestRunRead, TestJobRead, jobs_of, load_run, run_counts, run_read_model, job_read_model,
  list_runs,
}
use hilforge.Runs.Status.Laws.{run_counts_total}
use hilforge.Web.Handlers.{body, respond}
use hilforge.Web.Pages.{
  by_name, device_counts, count_device, Dashboard, dashboard, dashboard_context, run_detail_context,
  jobs_by_age, RunDetail, run_detail, at_work,
}

respond-body : {A : Type 0} (r : Result A) (a : A) → respond r ≡ body a → r ≡ ok a
unfolding respond
respond-body (ok x) a h = ap ok (ap (λ r. elim r [ body b ↦ b | _ ↦ x ]) h)
respond-body (err e) a h = cc

-- So has one whose call a rendering follows.
respond-shown {ℓ} :
    {A : Type ℓ} {Html : Type 0} (call : Result A) (render : A → Result Html) (html : Html)
    → respond (call >>= render) ≡ body html
    → (a : A) × (call ≡ ok a) × (render a ≡ ok html)
unfolding respond
respond-shown (ok a) render html h = (a, refl, respond-body (render a) html h)
respond-shown (err e) render html h = cc

-- Each device is counted once, under its status.
device_counts_total :
    (ds : List Device)
    → count_device DeviceStatus.online ds
        + count_device DeviceStatus.offline ds
        + count_device DeviceStatus.busy ds
      ≡ length ds
device_counts_total [] = refl
device_counts_total (d ∷ ds) = ground (arith, device_counts_total ds)

length-map {ℓ κ} :
    {A : Type ℓ} {B : Type κ} (f : A → B) (xs : List A) → length (map f xs) ≡ length xs
length-map f [] = refl
length-map f (x ∷ xs) = ap suc (length-map f xs)

-- What a comprehension keeps is as many as pass its test.
length-where {ℓ} :
    {A : Type ℓ} (p : A → Bool) (xs : List A) → length (where_true p xs) ≡ count_where p xs
length-where p [] = refl
length-where p (x ∷ xs) = ground (arith, length-where p xs)

-- A device that is online after a scan is one that the query for available devices selects.
scanned-is_available :
    (timeout now : ℕ) (d : Device)
    → device_status_eq (set_offline timeout now d).status DeviceStatus.online ≡ true
    → is_available timeout now (set_offline timeout now d) ≡ true
unfolding set_offline is_stale is_available
scanned-is_available timeout now d h = ground arith

-- The counts of the page fit its devices, and it offers those that are available at a time.
abbrev pub OffersAvailable : ℕ → ℕ → Db → Dashboard → Type 0
OffersAvailable timeout now db page =
    let c = page.device_counts in
    (c.online + c.offline + c.busy ≡ c.total)
    × (c.total ≡ length db.devices)
    × (length page.available_devices ≡ c.online)
    × All (λ d. is_available timeout now d ≡ true) page.available_devices

module _ {Html : Type 0} (render : Dashboard → Result Html) (settings : Settings)
    (name_le : String → String → Bool) (now : ℕ) (db : Db) where
  -- If the dashboard is shown, it is what its template makes of a context. Its three counts add up to its total, which is the number of devices;
  -- it offers as many devices as it counts online, and the query for available devices selects each
  -- of them at that time.
  pub dashboard_offers :
      (html : Html)
      → (dashboard render settings name_le now db).0 ≡ body html
      → (page : Dashboard) × (render page ≡ ok html)
        × OffersAvailable settings.heartbeat_timeout_seconds now db page
  unfolding dashboard mark_stale_devices_offline dashboard_context device_counts
  dashboard_offers html h =
      let timeout = settings.heartbeat_timeout_seconds in
      let scanned = map (set_offline timeout now) db.devices in
      let shown = order_by (by_name name_le) scanned in
      let db' = record db { devices = scanned } in
      let context = dashboard_context shown (order_by (λ s t. name_le s.name t.name) db.suites) in
      let (reads, e, rendered) =
        respond-shown (for_each (run_read_model db') (list_runs 20 db')) (λ rs. render (context rs))
          html h in
      (
        context reads,
        rendered,
        (
          device_counts_total shown,
          length-order_by (by_name name_le) scanned
              ∙ length-map (set_offline timeout now) db.devices,
          length-where _ shown,
          All-where_imp _ _ shown (
              All-order_by _ (by_name name_le) scanned (
                All-map _ (set_offline timeout now) db.devices
                  (All-intro _ db.devices (scanned-is_available timeout now)))),
        ),
      )

-- Sorting keeps the counts.
count_where-insert_by {ℓ} :
    {A : Type ℓ} (le : A → A → Bool) (p : A → Bool) (x : A) (xs : List A)
    → count_where p (insert_by le x xs) ≡ (if p x then 1 else 0) + count_where p xs
unfolding insert_by
count_where-insert_by le p x [] = refl
count_where-insert_by le p x (y ∷ xs) = ground (arith, count_where-insert_by le p x xs)

count_where-order_by {ℓ} :
    {A : Type ℓ} (le : A → A → Bool) (p : A → Bool) (xs : List A)
    → count_where p (order_by le xs) ≡ count_where p xs
unfolding order_by
count_where-order_by le p [] = refl
count_where-order_by le p (x ∷ xs) =
    omega (arith, count_where-insert_by le p x (order_by le xs), count_where-order_by le p xs)

-- A job is shown with its status.
job_read_model-status :
    (db : Db) (job : TestJob) {read : TestJobRead}
    → job_read_model db job ≡ ok read
    → read.status ≡ job.status
unfolding job_read_model
job_read_model-status db job h =
    let (device, f, e) =
      >>=-eq-ok (or_fail (find_device job.device_id db.devices) attribute_error) _ h in
    ap (λ (r : TestJobRead). r.status) (sym (ok-injective e))

at_work_weight :
    (s t : JobStatus)
    → s ≡ t
    → (if job_status_eq s JobStatus.running || job_status_eq s JobStatus.retrying then 1 else 0)
      ≡ (if job_status_eq t JobStatus.running then 1 else 0)
        + (if job_status_eq t JobStatus.retrying then 1 else 0)
at_work_weight s t e = ground arith

-- The jobs of a page are as many, and as many at work, as the rows.
for_each-counts :
    (db : Db) (jobs : List TestJob) (reads : List TestJobRead)
    → for_each (job_read_model db) jobs ≡ ok reads
    → (length reads ≡ length jobs)
      × (at_work reads
          ≡ count_where (λ j. job_status_eq j.status JobStatus.running) jobs
            + count_where (λ j. job_status_eq j.status JobStatus.retrying) jobs)
unfolding for_each at_work
for_each-counts db [] reads h =
    subst (λ r. (length r ≡ 0) × (at_work r ≡ 0)) (ok-injective h) (refl, refl)
for_each-counts db (j ∷ jobs) reads h =
    let (r, e, rest) = >>=-eq-ok (job_read_model db j) _ h in
    let (rs, e', same) = >>=-eq-ok (for_each (job_read_model db) jobs) _ rest in
    let s = job_read_model-status db j e in
    let (l, w) = for_each-counts db jobs rs e' in
    let one = at_work_weight r.status j.status s in
    subst
      (λ (r' : List TestJobRead).
        (length r' ≡ length (j ∷ jobs))
        × (at_work r'
            ≡ count_where (λ j. job_status_eq j.status JobStatus.running) (j ∷ jobs)
              + count_where (λ j. job_status_eq j.status JobStatus.retrying) (j ∷ jobs)))
      (ok-injective same) (omega arith, omega (arith, one, w))

-- The page of a run counts the jobs that it lists.
abbrev pub CountsJobs : ℕ → RunDetail → Type 0
CountsJobs run_id page =
    let c = page.run.counts in
    (page.run.id ≡ run_id)
    × (c.queued + c.running + c.retrying + c.passed + c.failed + c.timed_out ≡ length page.jobs)
    × (c.total ≡ length page.jobs)
    × (page.active_count ≡ c.running + c.retrying)

module _ {Html : Type 0} (render : RunDetail → Result Html) (run_id : ℕ) (db : Db) where
  -- If the page of a run is shown, it is what its template makes of a context of that run; the six counts of its run add up to
  -- the number of the jobs that it lists, which is the run's total, and the jobs that it counts as
  -- active are those that the run counts as running and as retrying.
  pub run_detail_counts :
      (html : Html)
      → run_detail render run_id db ≡ body html
      → (page : RunDetail) × (render page ≡ ok html) × CountsJobs run_id page
  unfolding run_detail load_run run_detail_context run_read_model jobs_by_age run_counts
  run_detail_counts html h = elim (Option-cases (find_run run_id db.runs)) [
    | inl absent ↦ absurd (ground (arith, absent))
    | inr (run, f) ↦
        let shown : run_detail render run_id db
            ≡ respond (
                for_each (job_read_model db) (jobs_by_age run db) >>= λ jobs.
                run_read_model db run >>= λ read. render (run_detail_context jobs read)) =
          rw (f, run_detail) refl in
        let (jobs, e, h₁) =
          >>=-eq-ok (for_each (job_read_model db) (jobs_by_age run db)) _
            (respond-body _ html (sym shown ∙ h)) in
        let (read, e', rendered) = >>=-eq-ok (run_read_model db run) _ h₁ in
        let (suite, s, made) =
          >>=-eq-ok (or_fail (find_suite run.test_suite_id db.suites) attribute_error) _ e' in
        let (l, w) = for_each-counts db (jobs_by_age run db) jobs e in
        let its = jobs_of run.id db.jobs in
        let older = λ (j k : TestJob). leb j.created_at k.created_at in
        let total = run_counts_total its in
        let listed = length-order_by older its in
        let running =
          count_where-order_by older (λ j. job_status_eq j.status JobStatus.running) its in
        let retrying =
          count_where-order_by older (λ j. job_status_eq j.status JobStatus.retrying) its in
        let key = find_by-key run_id_of run_id db.runs f in
        (
          run_detail_context jobs read,
          rendered,
          subst (λ (r : TestRunRead). CountsJobs run_id (run_detail_context jobs r))
              (ok-injective made)
              (
                key,
                omega (arith, total, listed, l),
                omega (arith, listed, l),
                omega (arith, w, running, retrying),
              ),
        )
  ]
