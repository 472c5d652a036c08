-- ===== src/Migrations.antt =====
-- The schema and the operations on it that the scripts in alembic/versions issue. What an operation does
-- to a database is the migration tool's and the server's: `Server` is the parameter that stands for it.
pub mod Initial
pub mod Source
pub mod Undo
use hilforge.Base.{ℕ, String, Bool, Option, none, some, List, [], ◌∷◌, ◌≡◌}

pub data ColumnType : Type 0 where
  uuid : ColumnType
  string : ℕ → ColumnType
  text : ColumnType
  integer : ColumnType
  float : ColumnType
  json : ColumnType
  datetime_tz : ColumnType
  enum : String → List String → ColumnType

pub record Column : Type 0 where
  pub name : String
  pub column_type : ColumnType
  pub nullable : Bool
  pub server_default : Option String

pub data Constraint : Type 0 where
  primary_key : List String → String → Constraint
  unique : List String → String → Constraint
  foreign_key : List String → List String → String → String → Constraint

pub record Table : Type 0 where
  pub name : String
  pub columns : List Column
  pub constraints : List Constraint

pub record Index : Type 0 where
  pub name : String
  pub table_name : String
  pub columns : List String

-- The calls of `op`, with their arguments.
pub data Operation : Type 0 where
  create_table : Table → Operation
  drop_table : String → Operation
  create_index : Index → Operation
  drop_index : String → String → Operation
  add_column : String → Column → Operation
  drop_column : String → String → Operation

-- A database server: its schemas, and what a call does to one; `none` where the call raises.
pub record Server : Type 1 where
  pub Schema : Type 0
  pub applied : Operation → Schema → Option Schema

-- The documented effects: a drop removes what the create of the same name has made, and nothing else.
pub record Drops (server : Server) : Type 0 where
  pub drops_table :
      (table : Table) (s s' : server.Schema)
      → server.applied (create_table table) s ≡ some s'
      → server.applied (drop_table table.name) s' ≡ some s
  pub drops_index :
      (index : Index) (s s' : server.Schema)
      → server.applied (create_index index) s ≡ some s'
      → server.applied (drop_index index.name index.table_name) s' ≡ some s
  pub drops_column :
      (table : String) (column : Column) (s s' : server.Schema)
      → server.applied (add_column table column) s ≡ some s'
      → server.applied (drop_column table column.name) s' ≡ some s

-- A script issues its calls in order and stops at the first that raises.
unfoldable pub issue : (server : Server) → List Operation → server.Schema → Option server.Schema
issue server [] s = some s
issue server (call ∷ calls) s = elim (server.applied call s) [
  | none ↦ none
  | some s' ↦ issue server calls s'
]
