-- ===== src/Migrations/Source.antt =====
-- alembic/versions/20260924_0002_run_source.py.
use hilforge.Base.{true, List, [], ◌∷◌}
use hilforge.Migrations.{json, Operation, add_column, drop_column}
use hilforge.Migrations.Initial.{column}

abbrev pub upgrade : List Operation
upgrade = add_column "test_runs" (column "source" json true) ∷ []

abbrev pub downgrade : List Operation
downgrade = drop_column "test_runs" "source" ∷ []
