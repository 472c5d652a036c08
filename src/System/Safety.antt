-- ===== src/System/Safety.antt =====
-- What holds of the control plane after any interleaving of its transactions.
use hilforge.Base.{
  ℕ, ◌≤◌, ◌≡◌, inl, inr, sym, ◌∙◌, true, Option, none, some, List, [], ◌∷◌, ◌++◌, arith, subst, All,
  All-imp, ok-injective,
}
use hilforge.Domain.Rows.{Db}
use hilforge.Config.{Settings, accepts}
use hilforge.Devices.{DeviceRegister, register_device, mark_stale_devices_offline}
use hilforge.Execution.Claim.{ClaimedJob}
use hilforge.Devices.Valid.{
  register_device-IsValid, record_heartbeat_lem, mark_stale_devices_offline-IsValid,
}
use hilforge.Runs.Reserve.{create_run-IsValid}
use hilforge.Runs.Requested.{create_run-added}
use hilforge.Execution.Claimed.{claim-Takes}
use hilforge.Execution.Ends.{IsCurrent, report-Ends}
use hilforge.Maintenance.Valid.{reconcile-Recovered, expired_jobs}
use hilforge.Invariant.Valid.{IsValid}
use hilforge.System.{
  Flight, System, Step, Reach, registers, beats, scans, creates, claims, reports, dies, reconciles,
  here, next,
}
use hilforge.System.Flights.{
  IsCurrent-jobs, IsCurrent-create, IsCurrent-claim, IsCurrent-new, IsCurrent-report,
  IsCurrent-reconcile,
}

abbrev pub IsKnown : Db → Flight → Type 0
IsKnown db f = IsCurrent f.claim f.task db

pub record IsSafe (settings : Settings) (s : System) : Type 0 where
  pub valid : IsValid settings.job_max_attempts s.db
  pub known : All (IsKnown s.db) s.flights

pub All-middle {ℓ κ} :
    {A : Type ℓ} (P : A → Type κ) (xs : List A) (x : A) (ys : List A)
    → All P (xs ++ x ∷ ys)
    → P x × All P (xs ++ ys)
All-middle P [] x ys h = h
All-middle P (z ∷ xs) x ys h = let (p, rest) = All-middle P xs x ys h.1 in (p, (h.0, rest))

All-both {ℓ κ μ} :
    {A : Type ℓ} (P : A → Type κ) (Q : A → Type μ) (xs : List A)
    → All P xs
    → All Q xs
    → All (λ x. P x × Q x) xs
All-both P Q [] h k = tt
All-both P Q (x ∷ xs) h k = ((h.0, k.0), All-both P Q xs h.1 k.1)

pub accepted_attempts :
    (settings : Settings) → accepts settings ≡ true → 1 ≤ settings.job_max_attempts
unfolding accepts
accepted_attempts settings h = ground arith

pub register_device-jobs :
    (registration : DeviceRegister) (new_id now : ℕ) (db : Db)
    → (register_device registration new_id now db).1.jobs ≡ db.jobs
unfolding register_device
register_device-jobs registration new_id now db = ground arith

-- The system after a claim, if there is one.
abbrev AfterClaim : Settings → ℕ → List Flight → Option ClaimedJob × Db → Type 0
AfterClaim settings task fs t = elim t.0 [
  | none ↦ Unit {0}
  | some c ↦ IsSafe settings (record { db = t.1; flights = record { task = task; claim = c } ∷ fs })
]

module _ (settings : Settings) (accepted : accepts settings ≡ true) where
  -- Every transaction keeps the system safe.
  pub Step-IsSafe : {s t : System} → Step settings s t → IsSafe settings s → IsSafe settings t
  unfolding mark_stale_devices_offline
  Step-IsSafe {s} (registers registration new_id now fresh) i = record {
    valid = register_device-IsValid i.valid registration new_id now fresh;
    known =
        All-imp _ _ s.flights
          (λ f h.
            IsCurrent-jobs s.db (register_device registration new_id now s.db).1
              (register_device-jobs registration new_id now s.db) f.claim f.task h)
          i.known;
  }
  Step-IsSafe {s} (beats device_id heartbeat now device db' e) i =
      elim (record_heartbeat_lem i.valid device_id heartbeat now) [
        | inl (f, e') ↦ cc
        | inr (device', e', v, a, b, c) ↦
            subst (λ t. IsSafe settings (record s { db = t.1 })) (ok-injective (sym e' ∙ e))
              (record { valid = v; known = i.known })
      ]
  Step-IsSafe {s} (scans now) i = record {
    valid = mark_stale_devices_offline-IsValid i.valid settings.heartbeat_timeout_seconds now;
    known = i.known;
  }
  Step-IsSafe {s} (creates env request run ids db' fresh e) i =
      let (jobs, added, new, a, b, c, d) =
        create_run-added env settings.heartbeat_timeout_seconds request i.valid e in
      record {
        valid = create_run-IsValid env i.valid fresh settings.heartbeat_timeout_seconds request e;
        known =
            All-imp _ _ s.flights
              (λ f.
                IsCurrent-create f.claim f.task s.db db' jobs added
                  (All-imp _ _ jobs (λ j q. q.0) new))
              i.known;
      }
  Step-IsSafe {s} (claims job_id task now c db' apart e) i =
      elim (claim-Takes settings job_id task now i.valid (accepted_attempts settings accepted)) [
        | inl (e', n) ↦ cc
        | inr (c', db'', e', v, t) ↦
            subst (AfterClaim settings task s.flights) (ok-injective (sym e' ∙ e)) (record {
              valid = v;
              known = (
                IsCurrent-new settings job_id task now s.db db'' c' t,
                All-imp _ _ s.flights
                    (λ f h.
                      IsCurrent-claim settings job_id task now s.db db'' c' t f.claim f.task h.0
                        h.1)
                    (All-both _ _ s.flights apart i.known),
              );
            })
      ]
  Step-IsSafe {s} (reports f before after now elapsed reply r split e) i =
      let (mine, others) =
        All-middle (IsKnown s.db) before f after (subst (All (IsKnown s.db)) split i.known) in
      let (r', e', v, how) = report-Ends settings f.task now i.valid f.claim elapsed reply mine in
      subst (λ q. IsSafe settings (record { db = q.db; flights = before ++ after }))
        (ok-injective (sym e' ∙ e))
        (record {
          valid = v;
          known = elim how [
            | inl (same, a, b) ↦ subst (λ d. All (IsKnown d) (before ++ after)) (sym same) others
            | inr (settled, a, b) ↦
                All-imp _ _ (before ++ after)
                  (λ g h.
                    IsCurrent-report settings f.claim f.task reply s.db r'.db settled g.claim g.task
                      h)
                  others
          ];
        })
  Step-IsSafe {s} (dies f before after split) i = record {
    valid = i.valid;
    known = (All-middle (IsKnown s.db) before f after (subst (All (IsKnown s.db)) split i.known)).1;
  }
  Step-IsSafe {s} (reconciles now locked ids db' e) i =
      let (db'', e', v, all, same) = reconcile-Recovered settings now locked i.valid in
      subst (λ t. IsSafe settings (record s { db = t.1 })) (ok-injective (sym e' ∙ e))
        (record {
          valid = v;
          known =
              All-imp _ _ s.flights
                (λ f.
                  IsCurrent-reconcile settings now s.db db''
                    (expired_jobs settings now locked s.db.jobs) all same f.claim f.task)
                i.known;
        })

  -- With settings that pass their validation, every state that can be reached from a safe one is
  -- safe: its database is valid, and each worker knows the attempt count of the job that it holds.
  pub Reach-IsSafe : {s t : System} → IsSafe settings s → Reach settings s t → IsSafe settings t
  Reach-IsSafe i here = i
  Reach-IsSafe i (next r st) = Step-IsSafe st (Reach-IsSafe i r)
