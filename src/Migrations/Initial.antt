-- ===== src/Migrations/Initial.antt =====
-- alembic/versions/20260917_0001_initial_schema.py. `op.f` marks a name as final and leaves it; every
-- enumeration is stored as text of at most 16 characters with a check.
use hilforge.Base.{String, Bool, true, false, none, some, List, [], ◌∷◌}
use hilforge.Migrations.{
  ColumnType, uuid, string, text, integer, float, json, datetime_tz, enum, Column, primary_key,
  unique, foreign_key, Table, Index, Operation, create_table, drop_table, create_index, drop_index,
}

abbrev pub column : String → ColumnType → Bool → Column
column name column_type nullable = record {
  name = name;
  column_type = column_type;
  nullable = nullable;
  server_default = none;
}

abbrev created_at : Column
created_at = record {
  name = "created_at";
  column_type = datetime_tz;
  nullable = false;
  server_default = some "CURRENT_TIMESTAMP";
}

abbrev pub index : String → String → List String → Index
index name table_name columns = record { name = name; table_name = table_name; columns = columns }

abbrev pub devices : Table
devices = record {
  name = "devices";
  columns =
      column "id" uuid false
      ∷ column "name" (string 100) false
      ∷ column "device_type" (string 100) false
      ∷ column "status" (enum "device_status" ("online" ∷ "offline" ∷ "busy" ∷ [])) false
      ∷ column "last_heartbeat_at" datetime_tz true
      ∷ column "endpoint_url" (string 512) false
      ∷ column "capabilities" json false
      ∷ created_at
      ∷ [];
  constraints = primary_key ("id" ∷ []) "pk_devices" ∷ unique ("name" ∷ []) "uq_devices_name" ∷ [];
}

abbrev pub test_suites : Table
test_suites = record {
  name = "test_suites";
  columns =
      column "id" uuid false
      ∷ column "slug" (string 100) false
      ∷ column "name" (string 200) false
      ∷ column "description" text false
      ∷ column "definition" json false
      ∷ created_at
      ∷ [];
  constraints =
      primary_key ("id" ∷ []) "pk_test_suites" ∷ unique ("slug" ∷ []) "uq_test_suites_slug" ∷ [];
}

abbrev pub test_runs : Table
test_runs = record {
  name = "test_runs";
  columns =
      column "id" uuid false
      ∷ column "test_suite_id" uuid false
      ∷ column "status"
          (enum "run_status" ("queued" ∷ "running" ∷ "passed" ∷ "failed" ∷ "cancelled" ∷ [])) false
      ∷ column "started_at" datetime_tz true
      ∷ column "completed_at" datetime_tz true
      ∷ created_at
      ∷ [];
  constraints =
      foreign_key ("test_suite_id" ∷ []) ("test_suites.id" ∷ [])
        "fk_test_runs_test_suite_id_test_suites" "RESTRICT"
      ∷ primary_key ("id" ∷ []) "pk_test_runs"
      ∷ [];
}

abbrev pub test_jobs : Table
test_jobs = record {
  name = "test_jobs";
  columns =
      column "id" uuid false
      ∷ column "test_run_id" uuid false
      ∷ column "device_id" uuid false
      ∷ column "status"
          (enum "job_status"
            ("queued" ∷ "running" ∷ "retrying" ∷ "passed" ∷ "failed" ∷ "timed_out" ∷ []))
          false
      ∷ column "attempts" integer false
      ∷ column "result" json true
      ∷ column "logs" json true
      ∷ column "error_message" text true
      ∷ column "error_details" json true
      ∷ column "started_at" datetime_tz true
      ∷ column "completed_at" datetime_tz true
      ∷ column "execution_duration" float true
      ∷ column "next_attempt_at" datetime_tz true
      ∷ column "lease_expires_at" datetime_tz true
      ∷ column "worker_task_id" (string 64) true
      ∷ created_at
      ∷ [];
  constraints =
      foreign_key ("device_id" ∷ []) ("devices.id" ∷ []) "fk_test_jobs_device_id_devices" "RESTRICT"
      ∷ foreign_key ("test_run_id" ∷ []) ("test_runs.id" ∷ []) "fk_test_jobs_test_run_id_test_runs"
          "CASCADE"
      ∷ primary_key ("id" ∷ []) "pk_test_jobs"
      ∷ unique ("test_run_id" ∷ "device_id" ∷ []) "uq_test_jobs_run_device"
      ∷ [];
}

abbrev pub upgrade : List Operation
upgrade =
    create_table devices
    ∷ create_index (index "ix_devices_status" "devices" ("status" ∷ []))
    ∷ create_index (index "ix_devices_last_heartbeat_at" "devices" ("last_heartbeat_at" ∷ []))
    ∷ create_table test_suites
    ∷ create_table test_runs
    ∷ create_index (index "ix_test_runs_test_suite_id" "test_runs" ("test_suite_id" ∷ []))
    ∷ create_index (index "ix_test_runs_status" "test_runs" ("status" ∷ []))
    ∷ create_table test_jobs
    ∷ create_index (index "ix_test_jobs_device_id" "test_jobs" ("device_id" ∷ []))
    ∷ create_index (index "ix_test_jobs_status" "test_jobs" ("status" ∷ []))
    ∷ create_index (index "ix_test_jobs_test_run_id" "test_jobs" ("test_run_id" ∷ []))
    ∷ create_index (index "ix_test_jobs_next_attempt_at" "test_jobs" ("next_attempt_at" ∷ []))
    ∷ create_index (index "ix_test_jobs_lease_expires_at" "test_jobs" ("lease_expires_at" ∷ []))
    ∷ create_index
        (index "ix_test_jobs_dispatchable" "test_jobs" ("status" ∷ "next_attempt_at" ∷ []))
    ∷ []

abbrev pub downgrade : List Operation
downgrade =
    drop_index "ix_test_jobs_dispatchable" "test_jobs"
    ∷ drop_index "ix_test_jobs_lease_expires_at" "test_jobs"
    ∷ drop_index "ix_test_jobs_next_attempt_at" "test_jobs"
    ∷ drop_index "ix_test_jobs_test_run_id" "test_jobs"
    ∷ drop_index "ix_test_jobs_status" "test_jobs"
    ∷ drop_index "ix_test_jobs_device_id" "test_jobs"
    ∷ drop_table "test_jobs"
    ∷ drop_index "ix_test_runs_status" "test_runs"
    ∷ drop_index "ix_test_runs_test_suite_id" "test_runs"
    ∷ drop_table "test_runs"
    ∷ drop_table "test_suites"
    ∷ drop_index "ix_devices_last_heartbeat_at" "devices"
    ∷ drop_index "ix_devices_status" "devices"
    ∷ drop_table "devices"
    ∷ []
