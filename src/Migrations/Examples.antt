-- ===== src/Migrations/Examples.antt =====
-- The theorems on migrations at concrete inputs: two modules with three migrations.
use hegira.Base.{
  ℕ, ◌≤◌, String, ◌≡◌, refl, Bool, true, false, str_eq, List, [], ◌∷◌, map, Result, ok,
}
use hegira.Migrations.{
  Migration, ModuleMigrationSource, OwnedMigration, MigrationPlan, MigrationState,
  MigrationHistoryState, MigrationStatusReport, HistoryRow, version_of, expected, new_plan,
  compare_history,
}
use hegira.Migrations.Complete.{Test, count, count_sources, IsAscending, new_plan-IsComplete}
use hegira.Migrations.History.{count_rows, AllAgree, status_by, compare_history-IsConsistent}

abbrev migration : ℕ → String → Migration
migration version checksum = record { version = version; checksum = checksum; is_down = false }

abbrev sources : List ModuleMigrationSource
sources =
    record { module_id = "identity"; migrations = migration 5 "c5" ∷ migration 2 "c2" ∷ [] }
    ∷ record { module_id = "audit-log"; migrations = migration 3 "c3" ∷ [] }
    ∷ []

abbrev owned : String → Migration → OwnedMigration
owned module_id m = record { module_id = module_id; migration = m }

abbrev plan : MigrationPlan
plan = record {
  module_ids = "audit-log" ∷ "identity" ∷ [];
  migrations =
      owned "identity" (migration 2 "c2")
      ∷ owned "audit-log" (migration 3 "c3")
      ∷ owned "identity" (migration 5 "c5")
      ∷ [];
}

abbrev of_identity : Test
of_identity id m = str_eq id "identity"

new_plan-IsComplete_example :
    (count of_identity plan.migrations ≡ count_sources of_identity sources)
    × IsAscending plan.migrations
unfolding new_plan hegira.Migrations.add_sources hegira.Migrations.sort_sources
    hegira.Migrations.is_valid_module_id hegira.Base.any hegira.Migrations.add_migrations
    hegira.Base.find hegira.Migrations.set_insert hegira.Migrations.map_insert
new_plan-IsComplete_example = new_plan-IsComplete of_identity sources {plan = plan} refl

abbrev rows : List HistoryRow
rows =
    record { version = 3; success = true; checksum = "c3" }
    ∷ record { version = 2; success = true; checksum = "c2" }
    ∷ []

abbrev report : MigrationStatusReport
report = record {
  output_schema = 1;
  history = MigrationHistoryState.present;
  migrations =
      record { module_id = "identity"; version = 2; state = MigrationState.applied }
      ∷ record { module_id = "audit-log"; version = 3; state = MigrationState.applied }
      ∷ record { module_id = "identity"; version = 5; state = MigrationState.pending }
      ∷ [];
}

compare_history-IsConsistent_example :
    (count_rows 3 rows ≤ 1)
    × AllAgree (expected plan.migrations) rows
    × (report.migrations ≡ map (status_by rows) (expected plan.migrations))
unfolding compare_history hegira.Migrations.collect_applied hegira.Migrations.sort_rows
    hegira.Base.find hegira.Migrations.map_insert hegira.Migrations.check_rows
    hegira.Migrations.check_row hegira.Base.retain
compare_history-IsConsistent_example =
    compare_history-IsConsistent 3 plan MigrationHistoryState.present rows {report = report} refl
