-- ===== src/Ci.antt =====
-- ci.py: the command that starts a run over the API and turns its end into an exit code. The server is
-- a parameter: it answers each request, and the clock moves between the requests.
pub mod Wait
pub mod Gate
pub mod Output
use hilforge.Base.{
  ℕ, zero, suc, ◌+◌, ◌-◌, ◌≤◌, ◌<◌, min, max, String, Bool, true, false, Option, none, some, List,
  [], ◌∷◌, if◌then◌else◌, ltb, leb, ◌==◌, str_eq, not, ◌||◌,
}
use hilforge.Domain.Status.{RunStatus, terminal_run_statuses}
use hilforge.Domain.Rows.{TestSuite, RunSource}
use hilforge.Runs.Read.{TestRunRead, TestJobRead}
use hilforge.Runs.Create.{RunCreate}

abbrev pub exit_passed : ℕ
exit_passed = 0

abbrev pub exit_validation_failed : ℕ
exit_validation_failed = 1

abbrev pub exit_client_error : ℕ
exit_client_error = 2

abbrev pub exit_wait_timeout : ℕ
exit_wait_timeout = 3

-- `CiClientError`, or a value.
pub data Ci {ℓ} (A : Type ℓ) : Type ℓ where
  done : A → Ci A
  client_error : Ci A

infixl 5 ◌>>=◌ ◌>>◌
abbrev pub ◌>>=◌ {ℓ κ} : {A : Type ℓ} {B : Type κ} → Ci A → (A → Ci B) → Ci B
done a >>= f = f a
client_error >>= f = client_error

abbrev pub ◌>>◌ {ℓ} : {B : Type ℓ} → Ci (Unit {0}) → Ci B → Ci B
m >> k = m >>= λ _. k

-- The parsed command line. The timeouts are positive: `_positive_float` refuses any other.
pub record Args : Type 0 where
  pub suite : String
  pub device_ids : List ℕ
  pub wait : Bool
  pub timeout : ℕ
  pub poll_interval : ℕ
  pub repository : Option String
  pub commit : Option String
  pub ref : Option String
  pub build_id : Option String

-- The truth of an optional text: given, and not empty.
is_given : Option String → Bool
is_given none = false
is_given (some s) = not (str_eq s "")

-- `valid` is the schema of `RunSource`.
unfoldable pub source_of : (RunSource → Bool) → Args → Ci (Option RunSource)
unfolding is_given
source_of valid args =
    if not (
      is_given args.repository
      || is_given args.commit
      || is_given args.ref
      || is_given args.build_id)
    then done none
    else elim args.commit [
      | none ↦ client_error
      | some sha ↦
          let source : RunSource = record {
            repository = args.repository;
            commit_sha = sha;
            ref = args.ref;
            build_id = args.build_id;
          } in
          if valid source then done (some source) else client_error
    ]

-- `next((item for item in suites if item.slug == slug), None)`.
unfoldable pub find_slug : String → List TestSuite → Option TestSuite
find_slug slug [] = none
find_slug slug (s ∷ ss) = if str_eq s.slug slug then some s else find_slug slug ss

-- What the surroundings answer: each request (sent, parsed and validated), and in round `n` of the
-- polling loop the clock at the deadline test and at the computation of the sleep.
pub record Server : Type 0 where
  pub suites : Ci (List TestSuite)
  pub create : RunCreate → Ci TestRunRead
  pub started_at : ℕ
  pub tested_at : ℕ → ℕ
  pub rested_at : ℕ → ℕ
  pub poll : ℕ → ℕ → Ci TestRunRead
  pub jobs : ℕ → Ci (List TestJobRead)

-- How the loop of `_wait_for_terminal` ends: with its value, or out of fuel.
pub data Waited : Type 0 where
  returns : Ci (Option TestRunRead) → Waited
  no_fuel : Waited

-- A round of the loop after its deadline test, `again` being the next rounds.
unfoldable pub inspect : Ci TestRunRead → Waited → Waited
inspect client_error again = returns client_error
inspect (done run) again =
    if terminal_run_statuses run.status then returns (done (some run)) else again

-- `while True`, from round `n`.
unfoldable pub wait_from : ℕ → Server → ℕ → ℕ → ℕ → Waited
unfolding inspect
wait_from zero server run_id deadline n = no_fuel
wait_from (suc fuel) server run_id deadline n =
    let again = wait_from fuel server run_id deadline (suc n) in
    if leb deadline (server.tested_at n)
    then returns (done none)
    else inspect (server.poll run_id n) again

-- `time.sleep(min(poll_interval, max(deadline - now, 0)))`, in round `n`.
unfoldable pub sleep_time : Server → ℕ → ℕ → ℕ → ℕ
sleep_time server poll_interval deadline n = min poll_interval (deadline - server.rested_at n)

-- The part of `run` after the wait.
unfoldable pub exit_code : Server → ℕ → Option TestRunRead → Ci ℕ
exit_code server run_id none = done exit_wait_timeout
exit_code server run_id (some final) = do
  jobs ← server.jobs run_id
  done (elim final.status [ RunStatus.passed ↦ exit_passed | _ ↦ exit_validation_failed ])

unfoldable pub finish_wait : Server → ℕ → Waited → Option (Ci ℕ)
unfolding exit_code
finish_wait server run_id no_fuel = none
finish_wait server run_id (returns w) = some (w >>= exit_code server run_id)

-- The part of `run` after the run was created.
unfoldable pub gate : ℕ → Server → Args → TestRunRead → Option (Ci ℕ)
unfolding finish_wait
gate fuel server args created =
    if args.wait
    then finish_wait server created.id
        (wait_from fuel server created.id (server.started_at + args.timeout) 0)
    else some (done exit_passed)

-- The request body: no `device_ids` if none was given.
unfoldable pub request_body : Args → TestSuite → Option RunSource → RunCreate
request_body args suite source = record {
  test_suite_id = suite.id;
  device_ids = elim args.device_ids [ [] ↦ none | k ∷ ks ↦ some args.device_ids ];
  source = source;
}

unfoldable pub or_error {ℓ} : {A : Type ℓ} → Option A → Ci A
or_error none = client_error
or_error (some a) = done a

unfoldable pub create : (RunSource → Bool) → Server → Args → Ci TestRunRead
unfolding request_body or_error
create valid server args = do
  source ← source_of valid args
  suites ← server.suites
  suite ← or_error (find_slug args.suite suites)
  server.create (request_body args suite source)

-- What `main` makes of an exception.
unfoldable pub process_code : Option (Ci ℕ) → Option ℕ
process_code none = none
process_code (some client_error) = some exit_client_error
process_code (some (done code)) = some code

-- The server's URL as the HTTP library reads it. Its host is always a text, perhaps an empty one, so
-- that `url.host is None` does not hold of any.
pub record ServerUrl : Type 0 where
  pub scheme : String

-- The condition on the URL; `none` is `httpx.InvalidURL`.
unfoldable pub is_usable : Option ServerUrl → Bool
is_usable none = false
is_usable (some url) = str_eq url.scheme "http" || str_eq url.scheme "https"

-- `main` after the parser: the exit code of the process. `none` is a loop that has run out of fuel.
unfoldable pub main : (RunSource → Bool) → Option ServerUrl → ℕ → Server → Args → Option ℕ
unfolding is_usable create gate process_code
main valid url fuel server args =
    if not (is_usable url) then some exit_client_error else elim (create valid server args) [
      | client_error ↦ some exit_client_error
      | done created ↦ process_code (gate fuel server args created)
    ]
