-- ===== src/Migrations.antt =====
-- crates/persistence/src/migrations.rs and migrations/status.rs beside it: the plan that is composed
-- of the migrations of the modules, and its comparison with the history of a database. Of a migration
-- of sqlx there are the version, the checksum and whether it is a down migration; versions are not
-- negative. The maps of the source are lists in the order of their keys.
pub mod Complete
pub mod History
mod Examples
use Prim.Native.Char.{code}
use Prim.Native.String
use Prim.Native.String.{compare}
use Prim.Native.Nat.{Ordering}
use hegira.Base.{
  ℕ, String, Bool, true, false, ◌&&◌, ◌||◌, not, Option, none, some, List, [], ◌∷◌, ◌==◌, leb, ltb,
  str_eq, is_some, if◌then◌else◌, find, any, retain, map, Result, ok, err, ◌>>=◌, ok_or,
}

pub record Migration : Type 0 where
  pub version : ℕ
  pub checksum : String
  pub is_down : Bool

pub record ModuleMigrationSource : Type 0 where
  pub module_id : String
  pub migrations : List Migration

pub data MigrationPlanError : Type 0 where
  invalid_module_identity duplicate_module_identity : String → MigrationPlanError
  duplicate_migration_identity checksum_conflict : ℕ → String → String → MigrationPlanError

-- A migration with the module that contributed it.
pub record OwnedMigration : Type 0 where
  pub module_id : String
  pub migration : Migration

-- `MigrationPlan`; the map of the owners and the migrator have the same migrations.
pub record MigrationPlan : Type 0 where
  pub module_ids : List String
  pub migrations : List OwnedMigration

abbrev pub version_of : OwnedMigration → ℕ
version_of owned = owned.migration.version

-- `BTreeMap::insert`
unfoldable pub map_insert : {A : Type 0} → (A → ℕ) → A → List A → List A
map_insert key a [] = a ∷ []
map_insert key a (b ∷ entries) =
    let rest = map_insert key a entries in
    if ltb (key a) (key b)
    then a ∷ b ∷ entries
    else if key a == key b
    then a ∷ entries
    else b ∷ rest

-- `BTreeMap::get`
abbrev pub map_get : {A : Type 0} → (A → ℕ) → ℕ → List A → Option A
map_get key k = find (λ a. key a == k)

-- `BTreeSet::insert` of a text that is not there.
unfoldable pub set_insert : String → List String → List String
set_insert a [] = a ∷ []
set_insert a (b ∷ texts) =
    let rest = set_insert a texts in
    elim (compare a b) [ Ordering.gt ↦ b ∷ rest | _ ↦ a ∷ b ∷ texts ]

insert_source : ModuleMigrationSource → List ModuleMigrationSource → List ModuleMigrationSource
insert_source a [] = a ∷ []
insert_source a (b ∷ sources) =
    let rest = insert_source a sources in
    elim (compare a.module_id b.module_id) [ Ordering.gt ↦ b ∷ rest | _ ↦ a ∷ b ∷ sources ]

-- `sort_unstable_by_key`; of two sources of one module the first stays first.
unfoldable pub sort_sources : List ModuleMigrationSource → List ModuleMigrationSource
unfolding insert_source
sort_sources [] = []
sort_sources (source ∷ sources) = insert_source source (sort_sources sources)

valid_boundary : ℕ → Bool
valid_boundary c = (leb b'a' c && leb c b'z') || (leb b'0' c && leb c b'9')

valid_character : ℕ → Bool
valid_character c = valid_boundary c || c == b'.' || c == b'-' || c == b'_'

-- `chars().all(valid_character)`, and `chars().next_back().is_some_and(valid_boundary)`
are_valid : String → Bool
are_valid String.[] = true
are_valid (String.◌∷◌ c s) = valid_character (code c) && are_valid s

ends_valid : String → Bool
ends_valid String.[] = false
ends_valid (String.◌∷◌ c String.[]) = valid_boundary (code c)
ends_valid (String.◌∷◌ c s) = ends_valid s

starts_valid : String → Bool
starts_valid String.[] = false
starts_valid (String.◌∷◌ c s) = valid_boundary (code c)

-- `validate_module_id`
unfoldable pub is_valid_module_id : String → Bool
unfolding valid_boundary valid_character are_valid ends_valid starts_valid
is_valid_module_id id = are_valid id && starts_valid id && ends_valid id

-- The error for a version that another migration has.
abbrev pub conflict : Migration → String → OwnedMigration → MigrationPlanError
conflict migration module_id existing =
    if not (str_eq existing.migration.checksum migration.checksum)
    then MigrationPlanError.checksum_conflict migration.version existing.module_id module_id
    else MigrationPlanError.duplicate_migration_identity migration.version existing.module_id
        module_id

abbrev pub unless_taken :
    {A : Type 0}
    → Option OwnedMigration
    → (OwnedMigration → MigrationPlanError)
    → Result MigrationPlanError A
    → Result MigrationPlanError A
unless_taken none e rest = rest
unless_taken (some existing) e rest = err (e existing)

-- The loop over the migrations of a module.
unfoldable pub add_migrations :
    String → List Migration → List OwnedMigration → Result MigrationPlanError (List OwnedMigration)
add_migrations module_id [] owned = ok owned
add_migrations module_id (migration ∷ migrations) owned =
    unless_taken (map_get version_of migration.version owned) (conflict migration module_id) (
      add_migrations module_id migrations
        (map_insert version_of (record { module_id = module_id; migration = migration }) owned))

-- The loop over the modules.
unfoldable pub add_sources :
    List ModuleMigrationSource → MigrationPlan → Result MigrationPlanError MigrationPlan
add_sources [] plan = ok plan
add_sources (source ∷ sources) plan =
    if not (is_valid_module_id source.module_id)
    then err (MigrationPlanError.invalid_module_identity source.module_id)
    else if any (λ id. str_eq id source.module_id) plan.module_ids
    then err (MigrationPlanError.duplicate_module_identity source.module_id)
    else add_migrations source.module_id source.migrations plan.migrations >>= λ owned.
        add_sources sources
          (record { module_ids = set_insert source.module_id plan.module_ids; migrations = owned })

-- `MigrationPlan::new`
unfoldable pub new_plan : List ModuleMigrationSource → Result MigrationPlanError MigrationPlan
new_plan sources = add_sources (sort_sources sources) (record { module_ids = []; migrations = [] })

pub data MigrationHistoryState : Type 0 where
  database_missing metadata_missing present : MigrationHistoryState

pub data MigrationState : Type 0 where
  applied pending : MigrationState

pub record MigrationStatus : Type 0 where
  pub module_id : String
  pub version : ℕ
  pub state : MigrationState

pub record MigrationStatusReport : Type 0 where
  pub output_schema : ℕ
  pub history : MigrationHistoryState
  pub migrations : List MigrationStatus

-- The errors of the comparison; those of reading the history are not modelled.
pub data MigrationStatusError : Type 0 where
  duplicate_history unexpected_history failed_migration checksum_conflict : ℕ → MigrationStatusError

pub record HistoryRow : Type 0 where
  pub version : ℕ
  pub success : Bool
  pub checksum : String

insert_row : HistoryRow → List HistoryRow → List HistoryRow
insert_row a [] = a ∷ []
insert_row a (b ∷ rows) =
    let rest = insert_row a rows in if ltb b.version a.version then b ∷ rest else a ∷ b ∷ rows

-- `rows.sort_by_key(…)`
unfoldable pub sort_rows : List HistoryRow → List HistoryRow
unfolding insert_row
sort_rows [] = []
sort_rows (row ∷ rows) = insert_row row (sort_rows rows)

abbrev pub row_version : HistoryRow → ℕ
row_version row = row.version

-- The loop that fills the map of what was applied.
unfoldable pub collect_applied :
    List HistoryRow → List HistoryRow → Result MigrationStatusError (List HistoryRow)
collect_applied [] done = ok done
collect_applied (row ∷ rows) done =
    if is_some (map_get row_version row.version done)
    then err (MigrationStatusError.duplicate_history row.version)
    else collect_applied rows (map_insert row_version row done)

-- The expected migrations: those that are not down.
abbrev pub expected : List OwnedMigration → List OwnedMigration
expected = retain (λ owned. not owned.migration.is_down)

-- The checks of one row.
unfoldable pub check_row :
    HistoryRow → Option OwnedMigration → Result MigrationStatusError (Unit {0})
check_row row none = err (MigrationStatusError.unexpected_history row.version)
check_row row (some owned) =
    if not row.success
    then err (MigrationStatusError.failed_migration row.version)
    else if not (str_eq row.checksum owned.migration.checksum)
    then err (MigrationStatusError.checksum_conflict row.version)
    else ok tt

-- The loop over what was applied.
unfoldable pub check_rows :
    List OwnedMigration → List HistoryRow → Result MigrationStatusError (Unit {0})
check_rows migrations [] = ok tt
check_rows migrations (row ∷ rows) =
    check_row row (map_get version_of row.version migrations) >>= λ _. check_rows migrations rows

abbrev pub status_of : List HistoryRow → OwnedMigration → MigrationStatus
status_of done owned = record {
  module_id = owned.module_id;
  version = owned.migration.version;
  state =
      if is_some (map_get row_version owned.migration.version done)
      then MigrationState.applied
      else MigrationState.pending;
}

-- `compare_history`
unfoldable pub compare_history :
    MigrationPlan
    → MigrationHistoryState
    → List HistoryRow
    → Result MigrationStatusError MigrationStatusReport
compare_history plan history rows = collect_applied (sort_rows rows) [] >>= λ done.
    check_rows (expected plan.migrations) done >>= λ _. ok (record {
      output_schema = 1;
      history = history;
      migrations = map (status_of done) (expected plan.migrations);
    })
