-- ===== src/Agent/Idempotence.antt =====
-- The agent runs each job once, and answers it again from its cache.
use hilforge.Base.{
  ℕ, ◌≡◌, ◌≢◌, refl, sym, ap, ◌∙◌, String, none, some, List, [], ◌∷◌, map, arith, subst,
  if◌then◌else◌, str_eq, eq_iff, All, Distinct, Option-cases, Bool-cases, inl, inr, if_intro,
}
use hilforge.Protocol.{AgentExecutionRequest}
use hilforge.Agent.Engine.{
  AgentSettings, ScriptedOutcome, Task, CachedExecution, Engine, Admission, awaits, value_error,
  get_execution, next_outcome, admit, execute, is_refusal,
}

abbrev pub job_of_task : Task → ℕ
job_of_task t = t.request.job_id

abbrev key_of : CachedExecution → ℕ
key_of e = e.job_id

-- The started tasks are the cached ones, each under the key of its own job, and no job has two.
pub record IsConsistent (engine : Engine) : Type 0 where
  pub cached : map job_of_task engine.started ≡ map key_of engine.executions
  pub once : Distinct (map job_of_task engine.started)
  pub own : All (λ e. e.task.request.job_id ≡ e.job_id) engine.executions

not_cached :
    (k : ℕ) (es : List CachedExecution)
    → get_execution k es ≡ none
    → All (λ m. m ≢ k) (map key_of es)
unfolding get_execution
not_cached k [] h = tt
not_cached k (e ∷ es) h = (ground arith, not_cached k es (ground arith))

module _ (fingerprint : AgentExecutionRequest → String) (settings : AgentSettings) where
  next_outcome-executions :
      (k : ℕ) (engine : Engine)
      → ((next_outcome settings k engine).1.executions ≡ engine.executions)
        × ((next_outcome settings k engine).1.started ≡ engine.started)
  unfolding next_outcome
  next_outcome-executions k engine = ground arith

  admit-IsConsistent :
      (request : AgentExecutionRequest) (f : String) (outcome : ScriptedOutcome) (engine : Engine)
      → IsConsistent engine
      → get_execution request.job_id engine.executions ≡ none
      → IsConsistent (admit request f (outcome, engine)).1
  unfolding admit
  admit-IsConsistent request f outcome engine v n = elim (Bool-cases (is_refusal outcome)) [
    | inl refused ↦ rw (refused, admit) v
    | inr admitted ↦
        rw (admitted, admit)
          (record {
            cached = ap (λ (ks : List ℕ). request.job_id ∷ ks) v.cached;
            once = (
              subst (All (λ m. m ≢ request.job_id)) (sym v.cached)
                  (not_cached request.job_id engine.executions n),
              v.once,
            );
            own = (refl, v.own);
          })
  ]

  IsConsistent-ext :
      (a b : Engine)
      → b.executions ≡ a.executions
      → b.started ≡ a.started
      → IsConsistent a
      → IsConsistent b
  IsConsistent-ext a b e s v = record {
    cached = rw (e, s) v.cached;
    once = rw s v.once;
    own = rw e v.own;
  }

  -- If the started tasks of an agent's engine are those that it has cached, with no job twice and
  -- each under its own job, this holds after any request.
  pub execute-IsConsistent :
      (request : AgentExecutionRequest) (engine : Engine)
      → IsConsistent engine
      → IsConsistent (execute fingerprint settings request engine).1
  unfolding execute
  execute-IsConsistent request engine v =
      elim (Option-cases (get_execution request.job_id engine.executions)) [
        | inl absent ↦
            let (e, s) = next_outcome-executions request.job_id engine in
            let engine' = (next_outcome settings request.job_id engine).1 in
            rw (absent, execute)
              (admit-IsConsistent request (fingerprint request)
                (next_outcome settings request.job_id engine).0 engine'
                (IsConsistent-ext engine engine' e s v)
                (subst (λ l. get_execution request.job_id l ≡ none) (sym e) absent))
        | inr (c, f) ↦
            rw (f, execute)
              (if_intro {A = Admission × Engine} (λ t. IsConsistent t.1)
                (str_eq c.request_fingerprint (fingerprint request)) v v)
      ]

  -- The cache holds what was accepted.
  Holds : AgentExecutionRequest → Task → Engine → Type 0
  Holds request task engine =
      (c : CachedExecution) × (get_execution request.job_id engine.executions ≡ some c)
      × (c.request_fingerprint ≡ fingerprint request)
      × (c.task ≡ task)

  admit-Holds :
      (request : AgentExecutionRequest) (t : ScriptedOutcome × Engine) {task : Task}
      {engine' : Engine}
      → admit request (fingerprint request) t ≡ (awaits task, engine')
      → Holds request task engine'
  unfolding admit get_execution Holds
  admit-Holds request (outcome, engine) {task} {engine'} e = (
    record { job_id = request.job_id; request_fingerprint = fingerprint request; task = task },
    ground arith,
    refl,
    refl,
  )

  hit-Holds :
      (request : AgentExecutionRequest) (c : CachedExecution) (engine : Engine) {task : Task}
      {engine' : Engine}
      → get_execution request.job_id engine.executions ≡ some c
      → ◌≡◌ {A = Admission × Engine}
          (if str_eq c.request_fingerprint (fingerprint request)
            then (awaits c.task, engine)
            else (value_error, engine))
          (awaits task, engine')
      → Holds request task engine'
  unfolding Holds
  hit-Holds request c engine {task} {engine'} f e = (
    c,
    ground (arith, eq_iff c.request_fingerprint (fingerprint request)),
    ground (arith, eq_iff c.request_fingerprint (fingerprint request)),
    ground (arith, eq_iff c.request_fingerprint (fingerprint request)),
  )

  execute-Holds :
      (request : AgentExecutionRequest) (engine : Engine) {task : Task} {engine' : Engine}
      → execute fingerprint settings request engine ≡ (awaits task, engine')
      → Holds request task engine'
  unfolding execute
  execute-Holds request engine e =
      elim (Option-cases (get_execution request.job_id engine.executions)) [
        | inl absent ↦
            admit-Holds request (next_outcome settings request.job_id engine)
              (rw (absent, execute) at e)
        | inr (c, f) ↦ hit-Holds request c engine f (rw (f, execute) at e)
      ]

  -- A request for another job leaves what is cached.
  admit-keeps :
      (request other : AgentExecutionRequest) (f : String) (outcome : ScriptedOutcome)
      (engine : Engine)
      → other.job_id ≢ request.job_id
      → get_execution request.job_id (admit other f (outcome, engine)).1.executions
        ≡ get_execution request.job_id engine.executions
  unfolding admit get_execution
  admit-keeps request other f outcome engine n = elim (Bool-cases (is_refusal outcome)) [
    | inl refused ↦ rw refused refl
    | inr admitted ↦ rw admitted (ground (arith, n))
  ]

  -- What was accepted stays in the cache, whatever is requested next.
  execute-Holds_still :
      (request other : AgentExecutionRequest) (task : Task) (engine : Engine)
      → Holds request task engine
      → Holds request task (execute fingerprint settings other engine).1
  unfolding Holds execute
  execute-Holds_still request other task engine (c, f, p, t) =
      elim (Option-cases (get_execution other.job_id engine.executions)) [
        | inr (d, g) ↦
            rw (g, execute)
              (if_intro {A = Admission × Engine} (λ u. Holds request task u.1)
                (str_eq d.request_fingerprint (fingerprint other)) (c, f, p, t) (c, f, p, t))
        | inl absent ↦
            let (e, s) = next_outcome-executions other.job_id engine in
            let apart : other.job_id ≢ request.job_id = λ q.
              let found : get_execution other.job_id engine.executions ≡ some c =
                subst (λ i. get_execution i engine.executions ≡ some c) (sym q) f in
              cc in
            rw (absent, execute)
              (
                c,
                admit-keeps request other (fingerprint other)
                      (next_outcome settings other.job_id engine).0
                      (next_outcome settings other.job_id engine).1 apart
                    ∙ ap (get_execution request.job_id) e
                    ∙ f,
                p,
                t,
              )
      ]

  -- The engine after some requests, one after the other.
  unfoldable pub after : List AgentExecutionRequest → Engine → Engine
  after [] engine = engine
  after (r ∷ rs) engine = after rs (execute fingerprint settings r engine).1

  after-Holds :
      (request : AgentExecutionRequest) (task : Task) (rs : List AgentExecutionRequest)
      (engine : Engine)
      → Holds request task engine
      → Holds request task (after rs engine)
  unfolding after
  after-Holds request task [] engine h = h
  after-Holds request task (r ∷ rs) engine h =
      after-Holds request task rs (execute fingerprint settings r engine).1
        (execute-Holds_still request r task engine h)

  -- If a request was admitted, then after any other requests a request for the same job gets the
  -- same task if it has the same fingerprint, and is refused otherwise, and leaves the engine as it
  -- is.
  pub execute_again :
      (request later : AgentExecutionRequest) (engine : Engine) {task : Task} {engine' : Engine}
      → execute fingerprint settings request engine ≡ (awaits task, engine')
      → later.job_id ≡ request.job_id
      → (between : List AgentExecutionRequest)
      → let now = after between engine' in
        execute fingerprint settings later now ≡ (
          if str_eq (fingerprint request) (fingerprint later) then awaits task else value_error,
          now,
        )
  unfolding Holds execute
  execute_again request later engine {task} {engine'} e k between =
      let now = after between engine' in
      let (c, f, p, t) =
        after-Holds request task between engine' (execute-Holds request engine e) in
      let f' : get_execution later.job_id now.executions ≡ some c =
        subst (λ i. get_execution i now.executions ≡ some c) (sym k) f in
      rw (f', execute) (rw (p, t) (ground arith))

  cached_own :
      (k : ℕ) (es : List CachedExecution) {c : CachedExecution}
      → All (λ e. e.task.request.job_id ≡ e.job_id) es
      → get_execution k es ≡ some c
      → c.task.request.job_id ≡ k
  unfolding get_execution
  cached_own k [] h f = cc
  cached_own k (e ∷ es) {c} h f = ground (arith, cached_own k es {c = c} h.1)

  -- The task that a request awaits is one for the job of the request.
  pub execute-own :
      (request : AgentExecutionRequest) (engine : Engine) {task : Task} {engine' : Engine}
      → IsConsistent engine
      → execute fingerprint settings request engine ≡ (awaits task, engine')
      → task.request.job_id ≡ request.job_id
  unfolding Holds
  execute-own request engine {task} {engine'} v e =
      let (c, f, p, t) = execute-Holds request engine e in
      let v' : IsConsistent engine' =
        subst (λ x. IsConsistent x.1) e (execute-IsConsistent request engine v) in
      subst (λ x. x.request.job_id ≡ request.job_id) t
        (cached_own request.job_id engine'.executions v'.own f)
