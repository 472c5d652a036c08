-- ===== src/Tests/Recovery.antt =====
-- The theorems on what is recovered: jobs by the reconciler, devices by their agents, schemas by the
-- scripts that undo each other.
use hilforge.Base.{
  ℕ, ◌≤◌, ◌≡◌, ◌⊎◌, refl, Bool, true, false, String, Option, none, some, List, [], ◌∷◌, ok, length,
  find_by, put_by, str_eq, ◌&&◌, if◌then◌else◌, ltb, arith, sym, some-injective, map,
}
use text.Mathlib.TextPositions.{eq_refl}
use hilforge.Domain.Status.{JobStatus, online, busy}
use hilforge.Domain.Rows.{TestJob, Db, find_job, find_device}
use hilforge.Devices.{register_device}
use hilforge.Devices.Valid.{register_device-IsValid}
use hilforge.Devices.Registered.{register_device_lem}
use hilforge.Invariant.Reserved.{active_count}
use hilforge.System.Attempts.{claims_of, claims_bounded}
use hilforge.System.Unattended.{Fails, can_fail}
use hilforge.Tasks.{Message, reconcile_jobs}
use hilforge.Tasks.Recovery.{is_sent, reconcile_jobs_loses_nothing}
use hilforge.Text.{codes, split_on, strip, lower, join}
use hilforge.Agent.Engine.{ScriptedOutcome}
use hilforge.Agent.Script.{
  outcome_name, is_supported, script_items, validate_outcome_script, scripted_outcomes,
}
use hilforge.Agent.Script.RoundTrip.{scripted_outcomes-validate_outcome_script}
use hilforge.Agent.Control.{loop_round}
use hilforge.Agent.Control.Recovers.{IsLive, through, two_rounds-IsLive}
use hilforge.Migrations.{
  Operation, create_table, drop_table, create_index, drop_index, add_column, drop_column, Server,
  Drops, issue, Table, Index, Column,
}
use hilforge.Migrations.Initial
use hilforge.Migrations.Source
use hilforge.Migrations.Undo.{downgrade-upgrade}
use hilforge.Tests.Scenario.{
  settings, suite, registration, accepted, registered, queued_job, queued_db, reached_queued,
  reached,
}
use hilforge.Tests.Control.{registered-IsValid, queued-IsValid}

reconcile_jobs_loses_nothing_example :
    (sent : List Message) × (db' : Db) × (job' : TestJob) × (reconcile_jobs settings 400
        (λ k. false)
        (λ m. true)
        queued_db
      ≡ ok (length sent, sent, db'))
    × (find_job 30 db'.jobs ≡ some job')
    × ((job'.status ≡ JobStatus.failed) ⊎ (is_sent 30 sent ≡ true))
unfolding find_by
reconcile_jobs_loses_nothing_example =
    reconcile_jobs_loses_nothing settings accepted (suite ∷ []) reached_queued 400 (λ k. false)
      (λ m. true) 30 {job = queued_job} refl refl (omega arith) refl refl

claims_bounded_example : claims_of 30 reached ≤ 3
claims_bounded_example = claims_bounded settings accepted 30 (suite ∷ []) reached

-- A queued job, with no worker to report it.
can_fail_example : Fails settings (record { db = queued_db; flights = [] }) 400 30 7
unfolding find_by
can_fail_example =
    can_fail settings accepted (suite ∷ []) reached_queued 400 30 {job = queued_job} refl refl

register_device_lem_example :
    let (device, db') = register_device registration 2 500 queued_db in
    (find_device device.id db'.devices ≡ some device)
    × (device.name ≡ registration.name)
    × (device.last_heartbeat_at ≡ some 500)
    × (device.status ≡ (if ltb 0 (active_count device.id queued_db.jobs) then busy else online))
    × (db'.jobs ≡ queued_db.jobs)
unfolding find_by
register_device_lem_example = register_device_lem queued-IsValid registration 2 500 refl

-- The process starts, and its two rounds come through with nothing in between.
two_rounds-IsLive_example :
    let (id, db) = loop_round registration (through 500 2) none registered in
    let (id', db') = loop_round registration (through 600 3) id db in
    (k : ℕ) × (id' ≡ some k) × IsLive k 600 db'
unfolding find_by put_by loop_round register_device hilforge.Devices.find_device_by_name
two_rounds-IsLive_example =
    two_rounds-IsLive registered-IsValid registration 500 2 600 3 refl none
      (register_device-IsValid registered-IsValid registration 2 500 refl) (λ k h. h) refl

script : validate_outcome_script (codes " Transient,,pass ") ≡ some (codes "transient,pass")
unfolding validate_outcome_script script_items split_on strip is_supported lower join
script = refl

scripted_outcomes-validate_outcome_script_example :
    (o : ScriptedOutcome) × (os : List ScriptedOutcome) × (script_items (codes " Transient,,pass ")
      ≡ map outcome_name (o ∷ os))
    × (scripted_outcomes (codes "transient,pass") ≡ map outcome_name (o ∷ os))
scripted_outcomes-validate_outcome_script_example =
    scripted_outcomes-validate_outcome_script (codes " Transient,,pass ") script

-- A server whose schema is the pile of the creates that have not been dropped; only the last of them
-- can be dropped.
drop_last : (Operation → Bool) → List Operation → Option (List Operation)
drop_last matches [] = none
drop_last matches (made ∷ pile) = if matches made then some pile else none

is_table : String → Operation → Bool
is_table name (create_table table) = str_eq table.name name
is_table name _ = false

is_index : String → String → Operation → Bool
is_index name table (create_index index) = str_eq index.name name && str_eq index.table_name table
is_index name table _ = false

is_column : String → String → Operation → Bool
is_column table name (add_column owner column) = str_eq owner table && str_eq column.name name
is_column table name _ = false

pile_up : Operation → List Operation → Option (List Operation)
pile_up (drop_table name) pile = drop_last (is_table name) pile
pile_up (drop_index name table) pile = drop_last (is_index name table) pile
pile_up (drop_column table name) pile = drop_last (is_column table name) pile
pile_up create pile = some (create ∷ pile)

abbrev piles : Server
piles = record { Schema = List Operation; applied = pile_up }

drops_table_again :
    (table : Table) (s s' : List Operation)
    → pile_up (create_table table) s ≡ some s'
    → pile_up (drop_table table.name) s' ≡ some s
unfolding pile_up drop_last is_table
drops_table_again table s s' e =
    rw (some-injective s' (create_table table ∷ s) (sym e)) (rw (eq_refl table.name) refl)

drops_index_again :
    (index : Index) (s s' : List Operation)
    → pile_up (create_index index) s ≡ some s'
    → pile_up (drop_index index.name index.table_name) s' ≡ some s
unfolding pile_up drop_last is_index
drops_index_again index s s' e =
    rw (some-injective s' (create_index index ∷ s) (sym e))
      (rw (eq_refl index.name, eq_refl index.table_name) refl)

drops_column_again :
    (table : String) (column : Column) (s s' : List Operation)
    → pile_up (add_column table column) s ≡ some s'
    → pile_up (drop_column table column.name) s' ≡ some s
unfolding pile_up drop_last is_column
drops_column_again table column s s' e =
    rw (some-injective s' (add_column table column ∷ s) (sym e))
      (rw (eq_refl table, eq_refl column.name) refl)

piles-Drops : Drops piles
piles-Drops = record {
  drops_table = drops_table_again;
  drops_index = drops_index_again;
  drops_column = drops_column_again;
}

abbrev piled : List Operation → List Operation → List Operation
piled [] pile = pile
piled (create ∷ creates) pile = piled creates (create ∷ pile)

downgrade-upgrade_example :
    (issue piles Source.downgrade (piled Source.upgrade (piled Initial.upgrade []))
      ≡ some (piled Initial.upgrade []))
    × (issue piles Initial.downgrade (piled Initial.upgrade []) ≡ some [])
unfolding issue pile_up
downgrade-upgrade_example =
    downgrade-upgrade piles piles-Drops [] (piled Initial.upgrade [])
      (piled Source.upgrade (piled Initial.upgrade [])) refl refl
