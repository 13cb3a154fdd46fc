-- ===== src/Migrations/History.antt =====
-- A database whose history passes the comparison agrees with the plan.
use hegira.Base.{
  ℕ, ◌+◌, ◌≤◌, ◌≡◌, refl, sym, ap, ◌∙◌, subst, Bool, true, false, not, Option, none, some, List, [],
  ◌∷◌, ◌==◌, ltb, find, is_some, map, if◌then◌else◌, arith, eq_iff, str_eq, ok, bind-eq-ok,
  ok-injective,
}
use hegira.Migrations.{
  OwnedMigration, MigrationPlan, MigrationHistoryState, MigrationState, MigrationStatus,
  MigrationStatusReport, HistoryRow, version_of, row_version, map_insert, map_get, insert_row,
  sort_rows, collect_applied, expected, check_row, check_rows, status_of, compare_history,
}
use hegira.Migrations.Complete.{if-eq-ok}

-- How many rows are of a version.
abbrev pub count_rows : ℕ → List HistoryRow → ℕ
count_rows v [] = 0
count_rows v (row ∷ rows) = (if row.version == v then 1 else 0) + count_rows v rows

-- The row agrees with the plan: a migration of its version is expected, with its checksum, and the row
-- says that it succeeded.
abbrev pub Agrees : List OwnedMigration → HistoryRow → Type 0
Agrees migrations row =
    (owned : OwnedMigration) × (map_get version_of row.version migrations ≡ some owned)
    × (row.success ≡ true)
    × (row.checksum ≡ owned.migration.checksum)

abbrev pub AllAgree : List OwnedMigration → List HistoryRow → Type 0
AllAgree migrations [] = Unit {0}
AllAgree migrations (row ∷ rows) = Agrees migrations row × AllAgree migrations rows

check_row-Agrees :
    (migrations : List OwnedMigration) (row : HistoryRow) (o : Option OwnedMigration) {u : Unit {0}}
    → check_row row o ≡ ok u
    → (owned : OwnedMigration) × (o ≡ some owned)
      × (row.success ≡ true)
      × (row.checksum ≡ owned.migration.checksum)
unfolding check_row
check_row-Agrees migrations row none h = cc
check_row-Agrees migrations row (some owned) h =
    let (succeeded, h1) = if-eq-ok (not row.success) _ _ h in
    let (same, _) = if-eq-ok (not (str_eq row.checksum owned.migration.checksum)) _ _ h1 in
    (
      owned,
      refl,
      ground (arith, succeeded),
      (eq_iff row.checksum owned.migration.checksum).0 (ground (arith, same)),
    )

check_rows-AllAgree :
    (migrations : List OwnedMigration) (rows : List HistoryRow) {u : Unit {0}}
    → check_rows migrations rows ≡ ok u
    → AllAgree migrations rows
unfolding check_rows
check_rows-AllAgree migrations [] h = tt
check_rows-AllAgree migrations (row ∷ rows) h =
    let (_, first, h1) = bind-eq-ok _ _ h in
    (check_row-Agrees migrations row _ first, check_rows-AllAgree migrations rows h1)

insert-AllAgree :
    (migrations : List OwnedMigration) (row : HistoryRow) (rows : List HistoryRow)
    → AllAgree migrations (insert_row row rows)
    → Agrees migrations row × AllAgree migrations rows
unfolding insert_row
insert-AllAgree migrations row [] h = h
insert-AllAgree migrations row (b ∷ rows) h = ground (arith, h, insert-AllAgree migrations row rows)

sort_rows-AllAgree :
    (migrations : List OwnedMigration) (rows : List HistoryRow)
    → AllAgree migrations (sort_rows rows)
    → AllAgree migrations rows
unfolding sort_rows
sort_rows-AllAgree migrations [] h = tt
sort_rows-AllAgree migrations (row ∷ rows) h =
    let (first, rest) = insert-AllAgree migrations row (sort_rows rows) h in
    (first, sort_rows-AllAgree migrations rows rest)

insert-count :
    (v : ℕ) (row : HistoryRow) (rows : List HistoryRow)
    → count_rows v (insert_row row rows) ≡ count_rows v (row ∷ rows)
unfolding insert_row
insert-count v row [] = refl
insert-count v row (b ∷ rows) = ground (arith, insert-count v row rows)

sort_rows-count :
    (v : ℕ) (rows : List HistoryRow) → count_rows v (sort_rows rows) ≡ count_rows v rows
unfolding sort_rows
sort_rows-count v [] = refl
sort_rows-count v (row ∷ rows) =
    insert-count v row (sort_rows rows) ∙ omega (arith, sort_rows-count v rows)

-- A row is found exactly if there is one.
is_some-count :
    (v : ℕ) (rows : List HistoryRow)
    → is_some (map_get row_version v rows) ≡ ltb 0 (count_rows v rows)
unfolding find
is_some-count v [] = refl
is_some-count v (row ∷ rows) = ground (arith, is_some-count v rows)

map_insert-count :
    (v : ℕ) (row : HistoryRow) (done : List HistoryRow)
    → is_some (map_get row_version row.version done) ≡ false
    → count_rows v (map_insert row_version row done) ≡ count_rows v (row ∷ done)
unfolding map_insert find
map_insert-count v row [] h = refl
map_insert-count v row (b ∷ done) h = ground (arith, h, map_insert-count v row done)

map_insert-AllAgree :
    (migrations : List OwnedMigration) (row : HistoryRow) (done : List HistoryRow)
    → is_some (map_get row_version row.version done) ≡ false
    → AllAgree migrations (map_insert row_version row done)
    → Agrees migrations row × AllAgree migrations done
unfolding map_insert find
map_insert-AllAgree migrations row [] free h = h
map_insert-AllAgree migrations row (b ∷ done) free h =
    ground (arith, free, h, map_insert-AllAgree migrations row done)

collect_applied-count :
    (v : ℕ) (rows before : List HistoryRow) {done : List HistoryRow}
    → collect_applied rows before ≡ ok done
    → count_rows v before ≤ 1
    → (count_rows v done ≡ count_rows v before + count_rows v rows) × (count_rows v done ≤ 1)
unfolding collect_applied
collect_applied-count v [] before h once =
    let same = ap (count_rows v) (ok-injective h) in
    (omega (arith, same), omega (arith, same, once))
collect_applied-count v (row ∷ rows) before h once =
    let (free, h1) = if-eq-ok (is_some (map_get row_version row.version before)) _ _ h in
    let added = map_insert-count v row before free in
    let still : count_rows v (map_insert row_version row before) ≤ 1 =
      ground (arith, once, added, free, is_some-count row.version before) in
    let (total, single) =
      collect_applied-count v rows (map_insert row_version row before) h1 still in
    (total ∙ omega (arith, added), single)

collect_applied-AllAgree :
    (migrations : List OwnedMigration) (rows before : List HistoryRow) {done : List HistoryRow}
    → collect_applied rows before ≡ ok done
    → AllAgree migrations done
    → AllAgree migrations before × AllAgree migrations rows
unfolding collect_applied
collect_applied-AllAgree migrations [] before h agree =
    (subst (AllAgree migrations) (sym (ok-injective h)) agree, tt)
collect_applied-AllAgree migrations (row ∷ rows) before h agree =
    let (free, h1) = if-eq-ok (is_some (map_get row_version row.version before)) _ _ h in
    let (inserted, others) =
      collect_applied-AllAgree migrations rows (map_insert row_version row before) h1 agree in
    let (first, earlier) = map_insert-AllAgree migrations row before free inserted in
    (earlier, (first, others))

map-ext : {A B : Type 0} (f g : A → B) (xs : List A) → ((x : A) → f x ≡ g x) → map f xs ≡ map g xs
map-ext f g [] h = refl
map-ext f g (x ∷ xs) h = cc (h x, map-ext f g xs h)

-- The status of a migration, by the history alone.
abbrev pub status_by : List HistoryRow → OwnedMigration → MigrationStatus
status_by rows owned = record {
  module_id = owned.module_id;
  version = version_of owned;
  state =
      if ltb 0 (count_rows (version_of owned) rows)
      then MigrationState.applied
      else MigrationState.pending;
}

status_of-eq :
    (owned : OwnedMigration) (rows : List HistoryRow) {done : List HistoryRow}
    → collect_applied (sort_rows rows) [] ≡ ok done
    → status_of done owned ≡ status_by rows owned
status_of-eq owned rows {done = done} collected =
    let v = version_of owned in
    ap
      (λ (b : Bool). record {
        module_id = owned.module_id;
        version = v;
        state = if b then MigrationState.applied else MigrationState.pending;
      })
      (is_some-count v done
        ∙ ap (ltb 0) (
            (collect_applied-count v (sort_rows rows) [] collected (omega arith)).0
            ∙ omega (arith, sort_rows-count v rows)))

-- A history that passes the comparison has no version twice, and each of its rows is of a migration
-- that the plan expects, with its checksum, and succeeded. The report has every migration that is
-- expected, applied exactly if the history has its version.
pub compare_history-IsConsistent :
    (v : ℕ) (plan : MigrationPlan) (history : MigrationHistoryState) (rows : List HistoryRow)
    {report : MigrationStatusReport}
    → compare_history plan history rows ≡ ok report
    → (count_rows v rows ≤ 1)
      × AllAgree (expected plan.migrations) rows
      × (report.migrations ≡ map (status_by rows) (expected plan.migrations))
unfolding compare_history
compare_history-IsConsistent v plan history rows h =
    let (done, collected, h1) = bind-eq-ok _ _ h in
    let (_, checked, h2) = bind-eq-ok _ _ h1 in
    let (total, once) = collect_applied-count v (sort_rows rows) [] collected (omega arith) in
    let agree = check_rows-AllAgree (expected plan.migrations) done checked in
    (
      omega (arith, total, once, sort_rows-count v rows),
      sort_rows-AllAgree (expected plan.migrations) rows
          (collect_applied-AllAgree _ (sort_rows rows) [] collected agree).1,
      sym (ap (λ (r : MigrationStatusReport). r.migrations) (ok-injective h2))
          ∙ map-ext (status_of done) (status_by rows) (expected plan.migrations)
              λ owned. status_of-eq owned rows collected,
    )
