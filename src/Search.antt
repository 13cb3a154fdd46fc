-- ===== src/Search.antt =====
-- `SqliteSearchIndexJobHandler` of crates/search/src/projection_sqlite.rs: the job that brings a change
-- of a document to the search index. The search engine is outside: what it does to its index, and
-- whether it fails, is a function of the number of the call. So are failures of the database.
pub mod Monotone
pub mod Newest
mod Examples
use hegira.Base.{
  ℕ, ◌+◌, String, Bool, true, false, ◌&&◌, not, Option, none, some, List, [], ◌∷◌, str_eq, leb,
  find, retain, if◌then◌else◌, Result, ok, err,
}
use hegira.Base.Actions.{Action, ◌>>=◌, ◌>>◌, pure, transaction}
use hegira.Identity.Store.{SearchDocument, SearchIndexCommand}

-- A row of `search_projection_versions`, of which nothing reads the instant.
pub record ProjectionVersion : Type 0 where
  pub index_name : String
  pub document_id : String
  pub revision : ℕ

module _ (Index : Type 0) where
  -- The index of the engine and the table.
  pub record SearchWorld : Type 0 where
    pub index : Index
    pub versions : List ProjectionVersion
    pub ticks : ℕ

  pub record SearchServices : Type 0 where
    pub db_error_at : ℕ → Option String
    pub upsert_at : ℕ → String → List SearchDocument → Index → Result String (Unit {0}) × Index
    pub delete_at : ℕ → String → String → Index → Result String (Unit {0}) × Index

abbrev pub Job : Type 0 → Type 0 → Type 0
Job Index A = Action (SearchServices Index) (SearchWorld Index) String A

module _ {Index : Type 0} where
  abbrev pub sql_answer :
      {A : Type 0}
      → Option String
      → A × SearchWorld Index
      → SearchWorld Index
      → Result String A × SearchWorld Index
  sql_answer none (a, t) s = (ok a, t)
  sql_answer (some e) after s = (err e, s)

  -- One SQL statement, which the database may fail to run, with no effect.
  unfoldable pub sql : {A : Type 0} → (SearchWorld Index → A × SearchWorld Index) → Job Index A
  sql f r s =
      let s' : SearchWorld Index = record s { ticks = s.ticks + 1 } in
      sql_answer (r.db_error_at s.ticks) (f s') s'

  -- A call of the engine.
  unfoldable pub call :
      (SearchServices Index → ℕ → Index → Result String (Unit {0}) × Index) → Job Index (Unit {0})
  call f r s =
      let (o, index) = f r s.ticks s.index in (o, record s { index = index; ticks = s.ticks + 1 })

  abbrev pub upsert : String → List SearchDocument → Job Index (Unit {0})
  upsert index documents = call (λ r t. r.upsert_at t index documents)

  abbrev pub delete : String → String → Job Index (Unit {0})
  delete index document_id = call (λ r t. r.delete_at t index document_id)

abbrev pub is_version : String → String → ProjectionVersion → Bool
is_version index document_id row = str_eq row.index_name index && str_eq row.document_id document_id

abbrev pub revision_of : Option ProjectionVersion → Option ℕ
revision_of none = none
revision_of (some row) = some row.revision

-- The revision that was applied last.
unfoldable pub applied : String → String → List ProjectionVersion → Option ℕ
applied index document_id versions = revision_of (find (is_version index document_id) versions)

-- `applied.is_some_and(|applied| applied >= revision)`
abbrev pub is_stale : Option ℕ → ℕ → Bool
is_stale none revision = false
is_stale (some last) revision = leb revision last

-- The upsert of the revision.
unfoldable pub put_version : String → String → ℕ → List ProjectionVersion → List ProjectionVersion
put_version index document_id revision versions =
    record { index_name = index; document_id = document_id; revision = revision }
    ∷ retain (λ row. not (is_version index document_id row)) versions

module _ {Index : Type 0} where
  -- A rollback restores the table, and not the index of the engine.
  abbrev pub roll_back : SearchWorld Index → SearchWorld Index → SearchWorld Index
  roll_back before after = record after { versions = before.versions }

  -- The `match` on the operation.
  unfoldable pub perform : String → SearchIndexCommand → Job Index (Unit {0})
  perform index (SearchIndexCommand.upsert _ documents _) = upsert index documents
  perform index (SearchIndexCommand.delete _ document_id _) = delete index document_id

  -- The end of the transaction, for a change that is stale or not.
  unfoldable pub apply_if : Bool → String → String → ℕ → SearchIndexCommand → Job Index Bool
  apply_if true index document_id revision operation = sql (λ s. (tt, s)) >> pure false
  apply_if false index document_id revision operation = do
    perform index operation
    sql λ s. (tt, record s { versions = put_version index document_id revision s.versions })
    sql (λ s. (tt, s))
    pure true

  -- `apply_revisioned`
  unfoldable pub apply_revisioned : String → String → ℕ → SearchIndexCommand → Job Index Bool
  apply_revisioned index document_id revision operation = transaction roll_back do
    sql (λ s. (tt, s))
    last ← sql (λ s. (applied index document_id s.versions, s))
    apply_if (is_stale last revision) index document_id revision operation

  -- `handle`, for a command that was read from the payload.
  unfoldable pub handle : SearchIndexCommand → Job Index (Unit {0})
  handle (SearchIndexCommand.upsert index (document ∷ []) (some revision)) =
      apply_revisioned index document.id revision
        (SearchIndexCommand.upsert index (document ∷ []) none)
      >> pure tt
  handle (SearchIndexCommand.delete index document_id (some revision)) =
      apply_revisioned index document_id revision (SearchIndexCommand.delete index document_id none)
      >> pure tt
  handle (SearchIndexCommand.upsert index documents revision) = upsert index documents
  handle (SearchIndexCommand.delete index document_id none) = delete index document_id

  -- The state after some commands, the first one first, whichever of them fail.
  unfoldable pub handle_all :
      List SearchIndexCommand → SearchServices Index → SearchWorld Index → SearchWorld Index
  handle_all [] r s = s
  handle_all (command ∷ commands) r s = handle_all commands r (handle command r s).1
