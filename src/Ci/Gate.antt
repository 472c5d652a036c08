-- ===== src/Ci/Gate.antt =====
-- The exit code as a build gate.
use hilforge.Base.{
  ℕ, suc, ◌+◌, ◌≤◌, ◌<◌, ◌≡◌, refl, Bool, true, false, Option, none, some, some-injective, List, ap,
  arith, Bool-cases, inl, inr,
}
use hilforge.Domain.Rows.{RunSource}
use hilforge.Domain.Status.{RunStatus}
use hilforge.Runs.Read.{TestRunRead, TestJobRead}
use hilforge.Ci.{
  Ci, done, client_error, ◌>>=◌, Args, Server, Waited, returns, no_fuel, wait_from, create, gate,
  finish_wait, exit_code, process_code, main, exit_passed, exit_validation_failed,
  exit_client_error, ServerUrl, is_usable,
}
use hilforge.Ci.Wait.{Ticks, Ends, fails, ends, late, wait_from-Ends, wait_from-returns}

-- Some poll of the run returned it as passed.
abbrev pub SawPassed : Server → ℕ → Type 0
SawPassed server run_id =
    (n : ℕ) × (run : TestRunRead) × (server.poll run_id n ≡ done run)
    × (run.status ≡ RunStatus.passed)

exit_code-passed :
    (server : Server) (run_id deadline : ℕ) (w : Ci (Option TestRunRead))
    → Ends server run_id deadline w
    → (w >>= exit_code server run_id) ≡ done exit_passed
    → SawPassed server run_id
unfolding exit_code
exit_code-passed server run_id deadline w (fails n p) e = cc
exit_code-passed server run_id deadline w (ends n run p t) e =
    (n, run, p, passed (server.jobs run_id) e)
  where
    passed :
        (jobs : Ci (List TestJobRead))
        → (jobs >>= λ _.
            done (elim run.status [ RunStatus.passed ↦ exit_passed | _ ↦ exit_validation_failed ]))
          ≡ done exit_passed
        → run.status ≡ RunStatus.passed
    passed client_error q = cc
    passed (done js) q = ground arith
exit_code-passed server run_id deadline w (late n l) e = absurd (ground arith)

process_code-passed :
    (o : Option (Ci ℕ)) → process_code o ≡ some exit_passed → o ≡ some (done exit_passed)
unfolding process_code
process_code-passed none e = cc
process_code-passed (some client_error) e = absurd (ground arith)
process_code-passed (some (done code)) e =
    ap (λ (k : ℕ). some (done k)) (some-injective code exit_passed e)

gate-passed :
    (fuel : ℕ) (server : Server) (args : Args) (created : TestRunRead)
    → args.wait ≡ true
    → gate fuel server args created ≡ some (done exit_passed)
    → SawPassed server created.id
unfolding gate finish_wait
gate-passed fuel server args created w e =
    go (wait_from fuel server created.id deadline 0) refl (rw (w, gate) at e)
  where
    deadline : ℕ
    deadline = server.started_at + args.timeout

    go :
        (x : Waited)
        → wait_from fuel server created.id deadline 0 ≡ x
        → finish_wait server created.id x ≡ some (done exit_passed)
        → SawPassed server created.id
    go no_fuel p q = cc
    go (returns v) p q =
        exit_code-passed server created.id deadline v
          (wait_from-returns server created.id deadline fuel 0 p) (some-injective _ _ q)

-- If the command waits and exits with 0, its server has a URL with one of the two schemes, the run was
-- created, and a poll of it returned it as passed.
pub main-passed :
    (valid : RunSource → Bool) (url : Option ServerUrl) (fuel : ℕ) (server : Server) (args : Args)
    → args.wait ≡ true
    → main valid url fuel server args ≡ some exit_passed
    → (is_usable url ≡ true)
      × ((created : TestRunRead) × (create valid server args ≡ done created)
          × SawPassed server created.id)
unfolding main
main-passed valid url fuel server args w e = elim (Bool-cases (is_usable url)) [
  | inr useless ↦
      let refused : main valid url fuel server args ≡ some exit_client_error = rw useless refl in
      absurd (ground (arith, refused, e))
  | inl usable ↦ (usable, go (create valid server args) refl (rw usable at e))
]
  where
    go :
        (c : Ci TestRunRead)
        → create valid server args ≡ c
        → (elim c [
          | client_error ↦ some exit_client_error
          | done created ↦ process_code (gate fuel server args created)
        ])
          ≡ some exit_passed
        → (created : TestRunRead) × (create valid server args ≡ done created)
          × SawPassed server created.id
    go client_error p q = absurd (ground arith)
    go (done created) p q =
        (created, p, gate-passed fuel server args created w (process_code-passed _ q))

exit_code_le :
    (server : Server) (run_id : ℕ) (o : Option TestRunRead) (code : ℕ)
    → exit_code server run_id o ≡ done code
    → code ≤ 3
unfolding exit_code
exit_code_le server run_id none code e = ground arith
exit_code_le server run_id (some run) code e = ended (server.jobs run_id) e
  where
    ended :
        (jobs : Ci (List TestJobRead))
        → (jobs >>= λ _.
            done (elim run.status [ RunStatus.passed ↦ exit_passed | _ ↦ exit_validation_failed ]))
          ≡ done code
        → code ≤ 3
    ended client_error q = cc
    ended (done js) q = ground arith

gate_ends :
    (server : Server) (args : Args) (created : TestRunRead)
    → 0 < args.poll_interval
    → server.started_at ≤ server.tested_at 0
    → Ticks server args.poll_interval (server.started_at + args.timeout)
    → (w : Bool) → args.wait ≡ w
    → (v : Ci ℕ) × (gate (suc args.timeout) server args created ≡ some v)
      × ((code : ℕ) → v ≡ done code → code ≤ 3)
unfolding gate finish_wait
gate_ends server args created p b t false e = (done 0, rw (e, gate), λ code q. ground arith)
gate_ends server args created p b t true e =
    let (w, q, how) =
      wait_from-Ends server created.id args.poll_interval (server.started_at + args.timeout) p t
        (suc args.timeout) 0 (omega arith) in
    (w >>= exit_code server created.id, rw (e, gate) (rw q), bounded w)
  where
    bounded :
        (w : Ci (Option TestRunRead)) (code : ℕ)
        → (w >>= exit_code server created.id) ≡ done code
        → code ≤ 3
    bounded client_error code q = cc
    bounded (done o) code q = exit_code_le server created.id o code q

-- If the poll interval is positive, the clock does not run backwards from the start of the wait on,
-- and a sleep lasts as long as asked, then with a fuel of one more than the microseconds of the
-- timeout the command exits, with a code of at most 3.
pub main_ends :
    (valid : RunSource → Bool) (url : Option ServerUrl) (server : Server) (args : Args)
    → 0 < args.poll_interval
    → server.started_at ≤ server.tested_at 0
    → Ticks server args.poll_interval (server.started_at + args.timeout)
    → (code : ℕ) × (main valid url (suc args.timeout) server args ≡ some code) × (code ≤ 3)
unfolding main process_code
main_ends valid url server args p b t = elim (Bool-cases (is_usable url)) [
  | inr useless ↦ (exit_client_error, rw useless refl, omega arith)
  | inl usable ↦ rw usable (go (create valid server args) refl)
]
  where
    coded :
        (o : Option (Ci ℕ))
        → (v : Ci ℕ) × (o ≡ some v) × ((code : ℕ) → v ≡ done code → code ≤ 3)
        → (code : ℕ) × (process_code o ≡ some code) × (code ≤ 3)
    coded o (client_error, e, h) = (2, rw e, omega arith)
    coded o (done code, e, h) = (code, rw e, h code refl)

    go :
        (c : Ci TestRunRead)
        → create valid server args ≡ c
        → (code : ℕ) × ((elim c [
          | client_error ↦ some exit_client_error
          | done created ↦ process_code (gate (suc args.timeout) server args created)
        ])
            ≡ some code)
          × (code ≤ 3)
    go client_error q = (2, refl, omega arith)
    go (done created) q = coded _ (gate_ends server args created p b t args.wait refl)
