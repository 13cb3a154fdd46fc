-- ===== src/Jobs/Worker.antt =====
-- The queue and the worker of crates/background_jobs/src/sqlx/sqlite.rs and the registry of
-- crates/background_jobs/src/lib.rs. The clock, fresh ids, failures of the database and what a
-- handler answers come from outside: each is a function of the number of the call (`ticks`).
pub mod Rows
pub mod Sound
pub mod Attempts
pub mod Claims
pub mod Receipts
pub mod Handled
pub mod Registry
mod Examples
use Prim.Native.String.{◌++◌}
use mathlib.Core.List.{◌++◌ as append}
use hegira.Base.{
  ℕ, ◌+◌, ◌-◌, ◌*◌, max, String, Option, none, some, List, [], ◌∷◌, ltb, str_eq, if◌then◌else◌,
  find, is_some, length, Result, ok, err, ltb,
}
use hegira.Base.Actions.{Action, pure, raise, gets, lift, ◌>>=◌, ◌>>◌, transaction}
use hegira.Jobs.Outbox.{
  OutboxMessage, InboxMessage, ClaimedMessage, DurableJobOptions, i32_max, new_row, insert_outbox,
  claim_ids, lock_rows, returned, update_row, complete_row, fail_row, is_received, insert_inbox,
  retry_delay,
}

-- A handler by its name and its answers.
pub record DurableJobHandler (P : Type 0) : Type 0 where
  pub name : String
  pub handle : ℕ → P → Result String (Unit {0})

abbrev pub DurableJobRegistry : Type 0 → Type 0
DurableJobRegistry P = List (DurableJobHandler P)

module _ {P : Type 0} where
  -- `DurableJobRegistry::get`
  abbrev pub get : String → DurableJobRegistry P → Option (DurableJobHandler P)
  get name handlers = find (λ h. str_eq h.name name) handlers

  replace : DurableJobHandler P → DurableJobRegistry P → DurableJobRegistry P
  replace handler [] = handler ∷ []
  replace handler (h ∷ handlers) =
      if str_eq h.name handler.name then handler ∷ handlers else h ∷ replace handler handlers

  -- `DurableJobRegistry::register`: `HashMap::insert` comes before the test.
  pub register :
      DurableJobHandler P → DurableJobRegistry P → Result String (Unit {0}) × DurableJobRegistry P
  unfolding replace
  register handler handlers = (
    if is_some (get handler.name handlers)
        then err ("durable job handler `" ++ handler.name ++ "` is already registered")
        else ok tt,
    replace handler handlers,
  )

-- The worker with its surroundings.
pub record Worker (P : Type 0) : Type 0 where
  pub registry : DurableJobRegistry P
  pub worker_id : String
  pub batch_size : ℕ
  pub lock_timeout_seconds : ℕ
  pub now_at : ℕ → ℕ
  pub uuid_at : ℕ → String
  pub db_error_at : ℕ → Option String

-- The database, the handler calls made so far, and the number of calls to the outside.
pub record Tables (P : Type 0) : Type 0 where
  pub outbox : List (OutboxMessage P)
  pub inbox : List InboxMessage
  pub handled : List (String × String)
  pub ticks : ℕ

abbrev pub Step : Type 0 → Type 0 → Type 0
Step P A = Action (Worker P) (Tables P) String A

module _ {P : Type 0} where
  -- `Utc::now()`
  pub utc_now : Step P ℕ
  utc_now w s = (ok (w.now_at s.ticks), record s { ticks = s.ticks + 1 })

  pub new_uuid : Step P String
  new_uuid w s = (ok (w.uuid_at s.ticks), record s { ticks = s.ticks + 1 })

  answer : {A : Type 0} → Option String → A × Tables P → Tables P → Result String A × Tables P
  answer none (a, s') s = (ok a, s')
  answer (some e) (a, s') s = (err e, s)

  -- One SQL statement, which the database may fail to run, with no effect.
  pub statement : {A : Type 0} → (Tables P → A × Tables P) → Step P A
  unfolding answer
  statement f w s =
      let s' : Tables P = record s { ticks = s.ticks + 1 } in
      answer (w.db_error_at s.ticks) (f s') s'

  -- A rollback restores the tables.
  abbrev pub restore : Tables P → Tables P → Tables P
  restore before after = record after { outbox = before.outbox; inbox = before.inbox }

  checked_max_attempts : ℕ → Step P ℕ
  checked_max_attempts n =
      if ltb i32_max n then raise "durable job max_attempts is too large" else pure n

  -- `SqliteDurableJobQueue::enqueue`
  pub enqueue : String → P → DurableJobOptions → Step P String
  enqueue name payload options = do
    id ← new_uuid
    now ← utc_now
    max_attempts ← checked_max_attempts (max options.max_attempts 1)
    inserted ← statement λ s.
        let row = new_row id name payload options.idempotency_key max_attempts now in
        let (inserted, outbox) = insert_outbox row s.outbox in
        (inserted, record s { outbox = outbox })
    lift inserted

  -- `claim`
  pub claim : Step P (List (ClaimedMessage P))
  claim = do
    now ← utc_now
    timeout ← gets (λ w s. w.lock_timeout_seconds * 1_000_000_000)
    batch_size ← gets (λ w s. w.batch_size)
    worker_id ← gets (λ w s. w.worker_id)
    statement λ s.
        let ids = claim_ids now (now - timeout) batch_size s.outbox in
        let locked = lock_rows now worker_id ids s.outbox in
        (returned ids locked, record s { outbox = locked })

  -- `mark_completed`
  pub mark_completed : String → String → Step P (Unit {0})
  mark_completed id consumer = transaction restore do
    statement (λ s. (tt, s))
    received_at ← utc_now
    statement (λ s. (tt, record s { inbox = insert_inbox consumer id received_at s.inbox }))
    processed_at ← utc_now
    statement (λ s. (tt, record s { outbox = update_row id (complete_row processed_at) s.outbox }))
    statement (λ s. (tt, s))

  -- `mark_failed`
  pub mark_failed : ClaimedMessage P → String → Step P (Unit {0})
  mark_failed message error = do
    now ← utc_now
    statement λ s.
        let available_at = now + retry_delay message.attempts * 1_000_000_000 in
        (tt, record s { outbox = update_row message.id (fail_row error available_at) s.outbox })

  -- `handler.handle(…)`, which is written down as made.
  pub call_handler : DurableJobHandler P → ClaimedMessage P → Step P (Result String (Unit {0}))
  call_handler handler message w s = (
    ok (handler.handle s.ticks message.payload),
    record s { ticks = s.ticks + 1; handled = append s.handled ((handler.name, message.id) ∷ []) },
  )

  finish : String → ClaimedMessage P → Result String (Unit {0}) → Step P (Unit {0})
  finish consumer message (ok _) = mark_completed message.id consumer
  finish consumer message (err error) = mark_failed message error

  process_by : Option (DurableJobHandler P) → ClaimedMessage P → Step P (Unit {0})
  unfolding finish
  process_by none message =
      mark_failed message ("no handler registered for `" ++ message.name ++ "`")
  process_by (some handler) message = do
    duplicate ← statement (λ s. (is_received handler.name message.id s.inbox, s))
    if duplicate
        then mark_completed message.id handler.name
        else do outcome ← call_handler handler message; finish handler.name message outcome

  -- `process`
  pub process : ClaimedMessage P → Step P (Unit {0})
  unfolding process_by
  process message = do
    handler ← gets (λ w s. get message.name w.registry)
    process_by handler message

  process_all : List (ClaimedMessage P) → Step P (Unit {0})
  process_all [] = pure tt
  process_all (message ∷ messages) = process message >>= λ _. process_all messages

  -- `run_once`; the observer's calls are telemetry.
  pub run_once : Step P ℕ
  unfolding process_all
  run_once = do messages ← claim; process_all messages; pure (length messages)
