-- ===== src/Web/Total.antt =====
-- What the handlers answer on a valid database.
use hilforge.Base.{
  ℕ, ◌+◌, ◌*◌, ◌≤◌, ◌<◌, ◌≡◌, inl, inr, refl, Bool, List, [], ◌∷◌, ◌++◌, arith, Bool-cases,
}
use hilforge.Web.Handlers.{enqueue_jobs, uptime_parts}

-- An uptime is shown with fewer than 24 hours and fewer than 60 minutes, which together with the
-- days are the whole minutes of the value.
pub uptime_parts_lem :
    (value : ℕ)
    → let (days, hours, minutes) = uptime_parts value in
      (hours < 24)
      × (minutes < 60)
      × (((days * 24 + hours) * 60 + minutes) * 60 ≤ value)
      × (value < ((days * 24 + hours) * 60 + minutes) * 60 + 60)
unfolding uptime_parts
uptime_parts_lem value = (omega arith, omega arith, omega arith, omega arith)

-- What is published is a beginning of the job list.
pub enqueue_jobs-prefix :
    (accepts : ℕ → Bool) (ids : List ℕ)
    → (rest : List ℕ) × ((enqueue_jobs accepts ids).0 ++ rest ≡ ids)
unfolding enqueue_jobs
enqueue_jobs-prefix accepts [] = ([], refl)
enqueue_jobs-prefix accepts (k ∷ ks) =
    let (rest, e) = enqueue_jobs-prefix accepts ks in
    elim (Bool-cases (accepts k)) [
      | inl accepted ↦ (rest, rw (accepted, e))
      | inr refused ↦ (k ∷ ks, rw refused)
    ]
