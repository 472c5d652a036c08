-- ===== src/Ci/Wait.antt =====
-- The polling loop ends.
use hilforge.Base.{
  ℕ, zero, suc, ◌+◌, ◌-◌, ◌≤◌, ◌<◌, ◌≡◌, inl, inr, refl, ap, subst, true, Option, none, some, arith,
  leb, Bool-cases,
}
use hilforge.Domain.Status.{terminal_run_statuses}
use hilforge.Runs.Read.{TestRunRead}
use hilforge.Ci.{
  Ci, done, client_error, Server, Waited, returns, no_fuel, inspect, wait_from, sleep_time,
}

-- The monotonic clock does not run backwards, and a sleep takes as long as it was asked to.
pub record Ticks (server : Server) (poll_interval deadline : ℕ) : Type 0 where
  pub forward : (n : ℕ) → server.tested_at n ≤ server.rested_at n
  pub sleeps :
      (n : ℕ)
      → server.rested_at n + sleep_time server poll_interval deadline n ≤ server.tested_at (suc n)

-- How a wait may end: on an error of some poll, with a terminal run that some poll returned, or after
-- the deadline.
pub data Ends (server : Server) (run_id deadline : ℕ) : Ci (Option TestRunRead) → Type 0 where
  fails : (n : ℕ) → server.poll run_id n ≡ client_error → Ends server run_id deadline client_error
  ends :
      (n : ℕ) (run : TestRunRead)
      → server.poll run_id n ≡ done run
      → terminal_run_statuses run.status ≡ true
      → Ends server run_id deadline (done (some run))
  late : (n : ℕ) → deadline ≤ server.tested_at n → Ends server run_id deadline (done none)

returns-injective : {v w : Ci (Option TestRunRead)} → returns v ≡ returns w → v ≡ w
returns-injective {v} e = ap (λ (x : Waited). elim x [ returns u ↦ u | no_fuel ↦ v ]) e

-- If the poll interval is positive, the clock does not run backwards and a sleep lasts as long as
-- asked, then the polling loop returns with more fuel than there are microseconds to the deadline:
-- with the error of a poll, with a terminal run that a poll returned, or with nothing once the
-- deadline has passed.
pub wait_from-Ends :
    (server : Server) (run_id poll_interval deadline : ℕ)
    → 0 < poll_interval
    → Ticks server poll_interval deadline
    → (fuel n : ℕ) → deadline - server.tested_at n < fuel
    → (w : Ci (Option TestRunRead)) × (wait_from fuel server run_id deadline n ≡ returns w)
      × Ends server run_id deadline w
unfolding wait_from sleep_time
wait_from-Ends server run_id poll_interval deadline p t zero n h = absurd (omega arith)
wait_from-Ends server run_id poll_interval deadline p t (suc fuel) n h =
    elim (Bool-cases (leb deadline (server.tested_at n))) [
      | inl over ↦ (done none, rw over, late n (ground arith))
      | inr early ↦ rw early (
          polled (server.poll run_id n) refl (
            wait_from-Ends server run_id poll_interval deadline p t fuel (suc n)
              (ground (arith, t.forward n, t.sleeps n))))
    ]
  where
    polled :
        (answer : Ci TestRunRead)
        → server.poll run_id n ≡ answer
        → (w : Ci (Option TestRunRead)) × (wait_from fuel server run_id deadline (suc n)
            ≡ returns w)
          × Ends server run_id deadline w
        → (w : Ci (Option TestRunRead)) × (inspect answer
              (wait_from fuel server run_id deadline (suc n))
            ≡ returns w)
          × Ends server run_id deadline w
    polled client_error e again = (client_error, refl, fails n e)
    polled (done run) e (w, q, x) = elim (Bool-cases (terminal_run_statuses run.status)) [
      | inl t ↦ (done (some run), rw t, ends n run e t)
      | inr u ↦ (w, rw u q, x)
    ]

-- What the loop returns it returns for one of the three reasons, whatever the clock does.
pub wait_from-returns :
    (server : Server) (run_id deadline fuel n : ℕ) {w : Ci (Option TestRunRead)}
    → wait_from fuel server run_id deadline n ≡ returns w
    → Ends server run_id deadline w
unfolding wait_from
wait_from-returns server run_id deadline zero n e = cc
wait_from-returns server run_id deadline (suc fuel) n {w} e =
    elim (Bool-cases (leb deadline (server.tested_at n))) [
      | inl over ↦
          subst (Ends server run_id deadline) (returns-injective (rw over at e))
            (late n (ground arith))
      | inr early ↦
          polled (server.poll run_id n) refl
            (wait_from-returns server run_id deadline fuel (suc n) {w = w}) (rw early at e)
    ]
  where
    polled :
        (answer : Ci TestRunRead)
        → server.poll run_id n ≡ answer
        → (wait_from fuel server run_id deadline (suc n) ≡ returns w
            → Ends server run_id deadline w)
        → inspect answer (wait_from fuel server run_id deadline (suc n)) ≡ returns w
        → Ends server run_id deadline w
    polled client_error p again q =
        subst (Ends server run_id deadline) (returns-injective q) (fails n p)
    polled (done run) p again q = elim (Bool-cases (terminal_run_statuses run.status)) [
      | inl t ↦
          subst (Ends server run_id deadline) (returns-injective (rw (t, inspect) at q))
            (ends n run p t)
      | inr u ↦ again (rw (u, inspect) at q)
    ]
