-- ===== src/Migrations/Complete.antt =====
-- A plan has every migration of the modules, each once, in the order of the versions.
use hegira.Base.{
  ℕ, ◌+◌, ◌<◌, String, ◌≡◌, refl, ap, ◌∙◌, subst, Bool, true, false, not, Option, none, some, List,
  [], ◌∷◌, find, any, if◌then◌else◌, arith, str_eq, Result, ok, err, bind-eq-ok, ok-injective,
}
use hegira.Migrations.{
  Migration, ModuleMigrationSource, MigrationPlanError, OwnedMigration, MigrationPlan, version_of,
  map_insert, map_get, set_insert, insert_source, sort_sources, is_valid_module_id, unless_taken,
  add_migrations, add_sources, new_plan,
}

-- A test on a migration of a module.
abbrev pub Test : Type 0
Test = String → Migration → Bool

abbrev pub one : Test → String → Migration → ℕ
one p id migration = if p id migration then 1 else 0

-- How many migrations of a plan pass a test.
abbrev pub count : Test → List OwnedMigration → ℕ
count p [] = 0
count p (owned ∷ rest) = one p owned.module_id owned.migration + count p rest

-- How many migrations of a module pass.
abbrev pub count_module : Test → String → List Migration → ℕ
count_module p id [] = 0
count_module p id (migration ∷ rest) = one p id migration + count_module p id rest

-- How many migrations of the modules pass.
abbrev pub count_sources : Test → List ModuleMigrationSource → ℕ
count_sources p [] = 0
count_sources p (source ∷ sources) =
    count_module p source.module_id source.migrations + count_sources p sources

unless-eq-ok :
    {A : Type 0} (o : Option OwnedMigration) (e : OwnedMigration → MigrationPlanError)
    (rest : Result MigrationPlanError A) {a : A}
    → unless_taken o e rest ≡ ok a
    → (o ≡ none) × (rest ≡ ok a)
unless-eq-ok none e rest h = (refl, h)
unless-eq-ok (some existing) e rest h = cc

pub if-eq-ok :
    {E A : Type 0} (c : Bool) (e : E) (m : Result E A) {a : A}
    → ◌≡◌ {A = Result E A} (if c then err e else m) (ok a)
    → (c ≡ false) × (m ≡ ok a)
if-eq-ok true e m h = cc
if-eq-ok false e m h = (refl, h)

map_insert-count :
    (p : Test) (a : OwnedMigration) (entries : List OwnedMigration)
    → map_get version_of (version_of a) entries ≡ none
    → count p (map_insert version_of a entries) ≡ count p entries + one p a.module_id a.migration
unfolding map_insert find
map_insert-count p a [] h = omega arith
map_insert-count p a (b ∷ entries) h = ground (arith, h, map_insert-count p a entries)

add_migrations-count :
    (p : Test) (id : String) (migrations : List Migration) (owned : List OwnedMigration)
    {done : List OwnedMigration}
    → add_migrations id migrations owned ≡ ok done
    → count p done ≡ count p owned + count_module p id migrations
unfolding add_migrations
add_migrations-count p id [] owned h = omega (arith, ap (count p) (ok-injective h))
add_migrations-count p id (migration ∷ migrations) owned h =
    let (free, h1) = unless-eq-ok _ _ _ h in
    let entry : OwnedMigration = record { module_id = id; migration = migration } in
    add_migrations-count p id migrations (map_insert version_of entry owned) h1
    ∙ omega (arith, map_insert-count p entry owned free)

-- The step for one module.
add_source-eq-ok :
    (source : ModuleMigrationSource) (sources : List ModuleMigrationSource) (plan : MigrationPlan)
    {done : MigrationPlan}
    → add_sources (source ∷ sources) plan ≡ ok done
    → (next : MigrationPlan) × (is_valid_module_id source.module_id ≡ true)
      × (any (λ id. str_eq id source.module_id) plan.module_ids ≡ false)
      × (add_migrations source.module_id source.migrations plan.migrations ≡ ok next.migrations)
      × (add_sources sources next ≡ ok done)
unfolding add_sources
add_source-eq-ok source sources plan h =
    let (valid, h1) = if-eq-ok (not (is_valid_module_id source.module_id)) _ _ h in
    let (fresh, h2) = if-eq-ok _ _ _ h1 in
    let (owned, added, h3) = bind-eq-ok _ _ h2 in
    (
      record { module_ids = set_insert source.module_id plan.module_ids; migrations = owned },
      ground (arith, valid),
      fresh,
      added,
      h3,
    )

add_sources-count :
    (p : Test) (sources : List ModuleMigrationSource) (plan : MigrationPlan) {done : MigrationPlan}
    → add_sources sources plan ≡ ok done
    → count p done.migrations ≡ count p plan.migrations + count_sources p sources
unfolding add_sources
add_sources-count p [] plan h =
    omega (arith, ap (λ (d : MigrationPlan). count p d.migrations) (ok-injective h))
add_sources-count p (source ∷ sources) plan h =
    let (next, _, _, added, h1) = add_source-eq-ok source sources plan h in
    omega (
      arith,
      add_migrations-count p source.module_id source.migrations plan.migrations added,
      add_sources-count p sources next h1,
    )

insert_source-count :
    (p : Test) (source : ModuleMigrationSource) (sources : List ModuleMigrationSource)
    → count_sources p (insert_source source sources)
      ≡ count_module p source.module_id source.migrations + count_sources p sources
unfolding insert_source
insert_source-count p source [] = refl
insert_source-count p source (b ∷ sources) = ground (arith, insert_source-count p source sources)

sort_sources-count :
    (p : Test) (sources : List ModuleMigrationSource)
    → count_sources p (sort_sources sources) ≡ count_sources p sources
unfolding sort_sources
sort_sources-count p [] = refl
sort_sources-count p (source ∷ sources) =
    omega (arith, insert_source-count p source (sort_sources sources), sort_sources-count p sources)

-- Every version of the list is above `n`.
abbrev pub AreAbove : ℕ → List OwnedMigration → Type 0
AreAbove n [] = Unit {0}
AreAbove n (owned ∷ rest) = (n < version_of owned) × AreAbove n rest

-- The versions go up.
abbrev pub IsAscending : List OwnedMigration → Type 0
IsAscending [] = Unit {0}
IsAscending (owned ∷ rest) = AreAbove (version_of owned) rest × IsAscending rest

AreAbove-below : (m n : ℕ) (l : List OwnedMigration) → m < n → AreAbove n l → AreAbove m l
AreAbove-below m n [] lt h = tt
AreAbove-below m n (owned ∷ rest) lt (first, others) =
    (omega arith, AreAbove-below m n rest lt others)

map_insert-AreAbove :
    (n : ℕ) (a : OwnedMigration) (l : List OwnedMigration)
    → n < version_of a
    → AreAbove n l
    → AreAbove n (map_insert version_of a l)
unfolding map_insert
map_insert-AreAbove n a [] lt h = (lt, tt)
map_insert-AreAbove n a (b ∷ l) lt h = ground (arith, lt, h, map_insert-AreAbove n a l)

map_insert-IsAscending :
    (a : OwnedMigration) (l : List OwnedMigration)
    → IsAscending l
    → map_get version_of (version_of a) l ≡ none
    → IsAscending (map_insert version_of a l)
unfolding map_insert find
map_insert-IsAscending a [] h free = (tt, tt)
map_insert-IsAscending a (b ∷ l) (above, h) free = ground (
  arith,
  AreAbove-below (version_of a) (version_of b) l,
  map_insert-AreAbove (version_of b) a l,
  map_insert-IsAscending a l,
)

add_migrations-IsAscending :
    (id : String) (migrations : List Migration) (owned : List OwnedMigration)
    {done : List OwnedMigration}
    → IsAscending owned
    → add_migrations id migrations owned ≡ ok done
    → IsAscending done
unfolding add_migrations
add_migrations-IsAscending id [] owned up h = subst IsAscending (ok-injective h) up
add_migrations-IsAscending id (migration ∷ migrations) owned up h =
    let (free, h1) = unless-eq-ok _ _ _ h in
    add_migrations-IsAscending id migrations _ (map_insert-IsAscending _ owned up free) h1

add_sources-IsAscending :
    (sources : List ModuleMigrationSource) (plan : MigrationPlan) {done : MigrationPlan}
    → IsAscending plan.migrations
    → add_sources sources plan ≡ ok done
    → IsAscending done.migrations
unfolding add_sources
add_sources-IsAscending [] plan up h =
    subst (λ (d : MigrationPlan). IsAscending d.migrations) (ok-injective h) up
add_sources-IsAscending (source ∷ sources) plan up h =
    let (next, _, _, added, h1) = add_source-eq-ok source sources plan h in
    add_sources-IsAscending sources next
      (add_migrations-IsAscending source.module_id source.migrations plan.migrations up added) h1

-- A plan that is composed has the migrations that the modules contribute and no others: whatever is
-- asked of a migration and its module, as many of the plan as of the modules answer to it. Its
-- versions go up, so that none is there twice.
pub new_plan-IsComplete :
    (p : Test) (sources : List ModuleMigrationSource) {plan : MigrationPlan}
    → new_plan sources ≡ ok plan
    → (count p plan.migrations ≡ count_sources p sources) × IsAscending plan.migrations
unfolding new_plan
new_plan-IsComplete p sources h = (
  add_sources-count p (sort_sources sources) _ h ∙ omega (arith, sort_sources-count p sources),
  add_sources-IsAscending (sort_sources sources) _ tt h,
)
