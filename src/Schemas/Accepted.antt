-- ===== src/Schemas/Accepted.antt =====
-- What the validators promise to the services behind them.
use hilforge.Base.{
  ◌++◌, map, sym, ap, ◌∙◌, subst, ℕ, ◌≤◌, ◌≡◌, ◌≢◌, true, false, some, List, [], ◌∷◌, length, arith,
  All, Distinct, Bool-cases, inl, inr, ok,
}
use hilforge.Domain.Rows.{TestRun, TestJob, Db, job_id_of}
use hilforge.Invariant.Valid.{IsValid}
use hilforge.Runs.Requested.{create_run-counted, create_run-added, create_run-requested, devices_of}
use hilforge.Runs.Create.{RunCreate, Surroundings, contains, create_run}
use hilforge.Schemas.{distinct_values, accepts_run}

-- A set has no more values than the list that it is made of.
length-distinct_values : (ks : List ℕ) → length (distinct_values ks) ≤ length ks
unfolding distinct_values
length-distinct_values [] = omega arith
length-distinct_values (k ∷ ks) = ground (arith, length-distinct_values ks)

not_contained : (k : ℕ) (ks : List ℕ) → contains k ks ≡ false → All (λ m. m ≢ k) ks
not_contained k [] h = tt
not_contained k (m ∷ ks) h = (ground arith, not_contained k ks (ground arith))

-- With as many values as entries, no entry stands twice.
full-Distinct : (ks : List ℕ) → length (distinct_values ks) ≡ length ks → Distinct ks
unfolding distinct_values
full-Distinct [] h = tt
full-Distinct (k ∷ ks) h = elim (Bool-cases (contains k ks)) [
  | inl again ↦ absurd (ground (arith, again, length-distinct_values ks))
  | inr new ↦ (not_contained k ks new, full-Distinct ks (ground (arith, new)))
]

-- What the validators say of the named devices.
named_devices :
    (request : RunCreate) (wanted : List ℕ)
    → accepts_run request ≡ true
    → request.device_ids ≡ some wanted
    → (1 ≤ length wanted)
      × (length wanted ≤ 100)
      × (length (distinct_values wanted) ≡ length wanted)
unfolding accepts_run
named_devices request wanted h e = ground arith

append_cancel : (xs ys zs : List TestJob) → xs ++ ys ≡ xs ++ zs → ys ≡ zs
append_cancel [] ys zs e = e
append_cancel (x ∷ xs) ys zs e =
    append_cancel xs ys zs (ap (λ (l : List TestJob). elim l [ [] ↦ xs ++ ys | y ∷ rest ↦ rest ]) e)

-- If a request that passes the validators of the schema names devices, and a run is created for it on
-- a valid database, then no device was named twice, and the jobs that are appended are for different
-- devices, which are exactly those that were named, and as many as those: at least 1, and at most 100.
pub accepts_run-create_run :
    {max_attempts : ℕ} (env : Surroundings) (timeout : ℕ) (request : RunCreate) (wanted : List ℕ)
    {db : Db} {run : TestRun} {ids : List ℕ} {db' : Db}
    → IsValid max_attempts db
    → accepts_run request ≡ true
    → request.device_ids ≡ some wanted
    → create_run env timeout request db ≡ ok (run, ids, db')
    → Distinct wanted
      × ((jobs : List TestJob) × (db'.jobs ≡ db.jobs ++ jobs)
          × (map job_id_of jobs ≡ ids)
          × ((k : ℕ) → contains k (devices_of jobs) ≡ contains k wanted)
          × Distinct (devices_of jobs))
      × (length ids ≡ length wanted)
      × (1 ≤ length ids)
      × (length ids ≤ 100)
accepts_run-create_run env timeout request wanted {db} v a e created =
    let (least, most, full) = named_devices request wanted a e in
    let counted = create_run-counted env timeout request v created wanted e in
    let (jobs, added, new, keys, apart, some_job, runs) =
      create_run-added env timeout request v created in
    let (jobs', added', exact) = create_run-requested env timeout request v created wanted e in
    let same : jobs' ≡ jobs = append_cancel db.jobs jobs' jobs (sym added' ∙ added) in
    (
      full-Distinct wanted full,
      (
        jobs,
        added,
        keys,
        subst (λ l. (k : ℕ) → contains k (devices_of l) ≡ contains k wanted) same exact,
        apart,
      ),
      counted,
      omega arith,
      omega arith,
    )
