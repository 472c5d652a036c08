-- ===== src/Lib.antt =====
-- PulseHunter: a control plane that runs validation suites on devices.
--
-- The program. Device agents register with the API and send heartbeats. A request creates a run of
-- a test suite: it reserves the devices that are available and queues one job for each, and
-- publishes the identifiers of the jobs to a broker. A worker that is given an identifier claims
-- the job in one transaction, calls the device over HTTP, and reports the outcome in a second
-- transaction: the job ends, or is postponed and published again. Two periodic tasks mark devices
-- without heartbeats as offline, and recover jobs whose worker was lost. The database is the only
-- state they share.
--
-- The files, by the source that they model (paths below src/pulsehunter):
--   Domain/Status, Domain/Rows, Domain/Json   models/domain.py: enums, tables, and the database as
--       a record of lists of rows; a row is found and written by its key
--   Clock, Config       core/time.py and core/config.py
--   Text                the methods of str, on texts as lists of code points
--   Schemas             schemas/api.py: the requests with their validators
--   Jobs                services/jobs.py: transition_job
--   Devices             services/devices.py: register_device, record_heartbeat,
--       mark_stale_devices_offline, available_devices_query (is_available), release_device
--   Runs/Create, Runs/Status, Runs/Read       services/runs.py: create_run, recompute_run_status, and
--       the read side
--   Execution/Claim, Execution/Report, Execution/Execute   services/execution.py: _claim, _finish and
--       _handle_retryable_failure, execute
--   Maintenance         services/maintenance.py
--   Tasks               tasks/jobs.py, tasks/maintenance.py, tasks/celery_app.py, and enqueue_job of
--       queueing.py
--   Seed                db/seed.py
--   Migrations/Initial, Migrations/Source     the two scripts in alembic/versions, which stands at the
--       repository's root
--   Protocol, Client    schemas/agent.py and services/device_client.py
--   Agent/Engine, Agent/Script, Agent/Registration, Agent/Control, Agent/Endpoint   agent/runtime.py
--       (the engine, and the control loop), agent/config.py, and execute_job of agent/app.py
--   HostAgent, HostAgent/Checks, HostAgent/Command, HostAgent/Endpoint   host_agent/runtime.py,
--       host_agent/constants.py, host_agent/checks.py, host_agent/config.py, host_agent/cli.py, and
--       execute_job of host_agent/app.py
--   Ci, Ci/Output       ci.py: the gate, and its requests and summary
--   Web/Handlers, Web/Pages, Web/Network   web.py, the handlers of main.py, and enqueue_jobs of
--       queueing.py
-- The other files hold proofs. Invariant says when a database is valid: device keys are unique, a
-- device has at most one active job and none while it is online; runs have unique keys and the
-- status that their jobs give; jobs and runs refer to rows that exist; job keys are unique, and
-- the attempts of a job are within the limit, with one left if it waits for a retry. System puts
-- the parts together: a state is the database and the workers between their claim and their
-- report, and a step is one transaction of any part, or the loss of a worker. Tests holds runs of
-- the program.
--
-- The model. A transaction is a function of the database that was committed last: the row locks of
-- the source make transactions on the same rows run one after another. An exception is an error
-- value, which leaves the database as it was. Times and durations are whole microseconds since
-- some start, the numbers natural; a comparison with now minus a timeout is written with the
-- timeout on the other side. UUIDs and task identifiers are numbers. What the surroundings decide
-- is an argument: the clock, new UUIDs, the rows that other transactions have locked, the
-- collation of names, the answers of the device, of the server, of the broker, of the operating
-- system and of the network, what a template makes of its context, and what the database server
-- makes of a schema operation. The steps of
-- System suppose that new UUIDs are unused, and that the broker does not deliver a task again
-- while a worker runs it, which is what its visibility timeout is for. JSON documents have no
-- fractions.
--
-- Loops. The loops over rows are recursion on lists. The polling loop of ci.py is recursion on
-- fuel: the fuel is one more than the microseconds of its timeout, since each round but the last
-- takes at least one of them.
--
-- Not modelled: the parsing of settings, of URLs and of command lines, the wording of messages, the
-- rendering of pages, the wiring of the web framework, logging, the sessions and engines of the
-- database, the environment of the migration tool, and the drivers in scripts. These are input and
-- output, or the business of a library.
pub mod Base
pub mod Domain
pub mod Text
pub mod Clock
pub mod Jobs
pub mod Devices
pub mod Runs
pub mod Schemas
pub mod Config
pub mod Protocol
pub mod Execution
pub mod Maintenance
pub mod Tasks
pub mod Migrations
pub mod Invariant
pub mod System
pub mod Agent
pub mod HostAgent
pub mod Seed
pub mod Client
pub mod Ci
pub mod Web
mod Tests
