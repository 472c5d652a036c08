-- ===== src/HostAgent/Once.antt =====
-- The host agent runs only the predefined checks, once for a job, and only before the deadline.
use hilforge.Base.{
  ℕ, ◌<◌, ◌≡◌, ◌≢◌, refl, sym, ap, subst, true, none, List, ◌∷◌, map, All, Distinct, arith, inl,
  inr, Bool-cases, Option-cases, All-map, leb, if_intro, str_eq,
}
use hilforge.Protocol.{AgentExecutionRequest}
use hilforge.Base.{find_by}
use hilforge.Invariant.Linked.{not_found}
use hilforge.HostAgent.{
  HostEngine, HostLibrary, HostAdmission, host_job_of, is_predefined, start_host, execute_host,
}

abbrev job_started : ℕ × AgentExecutionRequest → ℕ
job_started s = s.1.job_id

-- The started tasks are those that are cached, with no job twice, each for the predefined suite and
-- started before its deadline.
pub record RunsOnce (lib : HostLibrary) (engine : HostEngine) : Type 0 where
  pub cached : map job_started engine.started ≡ map host_job_of engine.executions
  pub once : Distinct (map job_started engine.started)
  pub predefined : All (λ s. is_predefined lib s.1 ≡ true) engine.started
  pub in_time : All (λ s. s.0 < s.1.deadline) engine.started

module _ (lib : HostLibrary) (now : ℕ) (request : AgentExecutionRequest) (engine : HostEngine)
    (v : RunsOnce lib engine) where
  start_host-RunsOnce :
      is_predefined lib request ≡ true
      → find_by host_job_of request.job_id engine.executions ≡ none
      → RunsOnce lib (start_host lib now request engine).1
  unfolding start_host
  start_host-RunsOnce p n = elim (Bool-cases (leb request.deadline now)) [
    | inl late ↦ rw (late, start_host) v
    | inr early ↦
        rw (early, start_host)
          (record {
            cached = ap (λ (ks : List ℕ). request.job_id ∷ ks) v.cached;
            once = (
              subst (All (λ m. m ≢ request.job_id)) (sym v.cached) (
                  All-map (λ m. m ≢ request.job_id) host_job_of engine.executions
                    (not_found host_job_of request.job_id engine.executions (rw n refl))),
              v.once,
            );
            predefined = (p, v.predefined);
            in_time = (ground arith, v.in_time);
          })
  ]

  -- If the started tasks of the host agent's engine are those that it has cached, with no job
  -- twice, each for the predefined suite and started before its deadline, this holds after any
  -- request.
  pub execute_host-RunsOnce : RunsOnce lib (execute_host lib now request engine).1
  unfolding execute_host
  execute_host-RunsOnce = elim (Bool-cases (is_predefined lib request)) [
    | inr other ↦ rw (other, execute_host) v
    | inl known ↦ elim (Option-cases (find_by host_job_of request.job_id engine.executions)) [
      | inl absent ↦ rw (known, execute_host) (rw absent (start_host-RunsOnce known absent))
      | inr (c, f) ↦
          rw (known, execute_host)
            (rw f (
              if_intro (λ (t : HostAdmission × HostEngine). RunsOnce lib t.1)
                (str_eq c.request_fingerprint (lib.fingerprint request)) v v))
    ]
  ]
