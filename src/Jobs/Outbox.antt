-- ===== src/Jobs/Outbox.antt =====
-- The tables `outbox_messages` and `inbox_messages`, and the SQL statements of
-- crates/background_jobs/src/sqlx/sqlite.rs on them. A payload is whatever the application sends.
-- Instants are numbers of nanoseconds.
use hegira.Base.{
  ℕ, zero, suc, ◌+◌, ◌-◌, ◌^◌, max, min, String, Bool, true, false, ◌&&◌, ◌||◌, Option, none, some,
  List, [], ◌∷◌, ◌++◌, ltb, leb, ◌==◌, str_eq, is_none, if◌then◌else◌, Result, ok, err, any, find,
  retain,
}

pub record OutboxMessage (P : Type 0) : Type 0 where
  pub id : String
  pub name : String
  pub payload : P
  pub idempotency_key : Option String
  pub attempts : ℕ
  pub max_attempts : ℕ
  pub available_at : ℕ
  pub locked_at : Option ℕ
  pub lock_owner : Option String
  pub processed_at : Option ℕ
  pub last_error : Option String
  pub created_at : ℕ

pub record InboxMessage : Type 0 where
  pub consumer : String
  pub message_id : String
  pub processed_at : ℕ

pub record ClaimedMessage (P : Type 0) : Type 0 where
  pub id : String
  pub name : String
  pub payload : P
  pub attempts : ℕ
  pub max_attempts : ℕ

pub record DurableJobOptions : Type 0 where
  pub idempotency_key : Option String
  pub max_attempts : ℕ

-- Whether two idempotency keys conflict: the unique index leaves out rows with no key.
abbrev pub same_key : Option String → Option String → Bool
same_key (some k) (some j) = str_eq k j
same_key _ _ = false

abbrev pub i32_max : ℕ
i32_max = 2 ^ 31 - 1

module _ {P : Type 0} where
  -- The row that an insertion under this name and key conflicts with.
  unfoldable pub conflicting :
      String → Option String → List (OutboxMessage P) → Option (OutboxMessage P)
  conflicting name key outbox =
      find (λ row. str_eq row.name name && same_key row.idempotency_key key) outbox

  -- The row of a message that was just enqueued.
  abbrev pub new_row : String → String → P → Option String → ℕ → ℕ → OutboxMessage P
  new_row id name payload key max_attempts now = record {
    id = id;
    name = name;
    payload = payload;
    idempotency_key = key;
    attempts = 0;
    max_attempts = max_attempts;
    available_at = now;
    locked_at = none;
    lock_owner = none;
    processed_at = none;
    last_error = none;
    created_at = now;
  }

  abbrev pub has_id : String → List (OutboxMessage P) → Bool
  has_id id outbox = any (λ row. str_eq id row.id) outbox

  -- The `INSERT … ON CONFLICT … RETURNING id` of `enqueue`: on a conflict the row that stands keeps
  -- all it has, and its id is returned. `id` is the primary key.
  unfoldable pub insert_outbox :
      OutboxMessage P → List (OutboxMessage P) → Result String String × List (OutboxMessage P)
  unfolding conflicting
  insert_outbox row outbox =
      if has_id row.id outbox
      then (err "UNIQUE constraint failed: outbox_messages.id", outbox)
      else elim (conflicting row.name row.idempotency_key outbox) [
        | some old ↦ (ok old.id, outbox)
        | none ↦ (ok row.id, outbox ++ row ∷ [])
      ]

  -- The `WHERE` of the claim.
  unfoldable pub claimable : ℕ → ℕ → OutboxMessage P → Bool
  claimable now stale_before row =
      is_none row.processed_at
      && leb row.available_at now
      && ltb row.attempts row.max_attempts
      && elim row.locked_at [ none ↦ true | some t ↦ ltb t stale_before ]

  -- `ORDER BY available_at, created_at`
  before : OutboxMessage P → OutboxMessage P → Bool
  before a b =
      ltb a.available_at b.available_at
      || (a.available_at == b.available_at && leb a.created_at b.created_at)

  unfoldable pub insert_sorted : OutboxMessage P → List (OutboxMessage P) → List (OutboxMessage P)
  unfolding before
  insert_sorted a [] = a ∷ []
  insert_sorted a (b ∷ rows) = if before a b then a ∷ b ∷ rows else b ∷ insert_sorted a rows

  unfoldable pub sort_rows : List (OutboxMessage P) → List (OutboxMessage P)
  unfolding insert_sorted
  sort_rows [] = []
  sort_rows (a ∷ rows) = insert_sorted a (sort_rows rows)

  -- `LIMIT n`, of which the ids are kept.
  unfoldable pub first_ids : ℕ → List (OutboxMessage P) → List String
  first_ids zero rows = []
  first_ids (suc n) [] = []
  first_ids (suc n) (a ∷ rows) = a.id ∷ first_ids n rows

  unfoldable pub claim_ids : ℕ → ℕ → ℕ → List (OutboxMessage P) → List String
  unfolding claimable sort_rows first_ids retain
  claim_ids now stale_before batch_size outbox =
      first_ids batch_size (sort_rows (retain (claimable now stale_before) outbox))

  abbrev pub is_among : List String → OutboxMessage P → Bool
  is_among ids row = any (λ id. str_eq row.id id) ids

  abbrev pub lock_row : ℕ → String → OutboxMessage P → OutboxMessage P
  lock_row now worker_id row = record row {
    locked_at = some now;
    lock_owner = some worker_id;
    attempts = row.attempts + 1;
  }

  -- The `UPDATE … SET locked_at, lock_owner, attempts … WHERE id IN (…)`.
  unfoldable pub lock_rows :
      ℕ → String → List String → List (OutboxMessage P) → List (OutboxMessage P)
  lock_rows now worker_id ids [] = []
  lock_rows now worker_id ids (row ∷ rows) =
      (if is_among ids row then lock_row now worker_id row else row)
      ∷ lock_rows now worker_id ids rows

  -- Its `RETURNING`, in the order of the table: the rows as they are after the update.
  unfoldable pub returned : List String → List (OutboxMessage P) → List (ClaimedMessage P)
  returned ids [] = []
  returned ids (row ∷ rows) =
      let rest = returned ids rows in
      if is_among ids row
      then record {
        id = row.id;
        name = row.name;
        payload = row.payload;
        attempts = row.attempts;
        max_attempts = row.max_attempts;
      }
        ∷ rest
      else rest

  -- Applies a change to the row with the given id.
  unfoldable pub update_row :
      String → (OutboxMessage P → OutboxMessage P) → List (OutboxMessage P) → List (OutboxMessage P)
  update_row id f [] = []
  update_row id f (row ∷ rows) = (if str_eq row.id id then f row else row) ∷ update_row id f rows

  abbrev pub complete_row : ℕ → OutboxMessage P → OutboxMessage P
  complete_row now row = record row {
    processed_at = some now;
    locked_at = none;
    lock_owner = none;
    last_error = none;
  }

  abbrev pub fail_row : String → ℕ → OutboxMessage P → OutboxMessage P
  fail_row error available_at row = record row {
    locked_at = none;
    lock_owner = none;
    last_error = some error;
    available_at = available_at;
  }

-- The test of `process` for a receipt of this consumer.
unfoldable pub is_received : String → String → List InboxMessage → Bool
is_received consumer id inbox =
    any (λ m. str_eq m.consumer consumer && str_eq m.message_id id) inbox

-- `INSERT INTO inbox_messages … ON CONFLICT … DO NOTHING`
unfoldable pub insert_inbox : String → String → ℕ → List InboxMessage → List InboxMessage
unfolding is_received
insert_inbox consumer id now inbox =
    if is_received consumer id inbox
    then inbox
    else inbox ++ record { consumer = consumer; message_id = id; processed_at = now } ∷ []

-- The seconds until the next try: `2_i64.pow(attempts.clamp(1, 8)).min(300)`.
unfoldable pub retry_delay : ℕ → ℕ
retry_delay attempts = min (2 ^ min (max attempts 1) 8) 300
