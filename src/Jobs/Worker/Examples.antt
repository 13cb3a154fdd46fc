-- ===== src/Jobs/Worker/Examples.antt =====
-- Runs of the queue and its theorems at concrete inputs.
use hegira.Base.{
  err, not, is_some, eq_iff, ℕ, ◌+◌, ◌^◌, ◌≤◌, max, min, ◌≡◌, refl, false, none, some, List, [],
  ◌∷◌, arith, str_eq, any, find, retain, ok,
}
use hegira.Base.Actions.{◌>>=◌, transaction}
use hegira.Jobs.Outbox.{
  OutboxMessage, ClaimedMessage, DurableJobOptions, new_row, insert_outbox, conflicting, claimable,
  sort_rows, insert_sorted, first_ids, claim_ids, lock_rows, returned, update_row, is_received,
  insert_inbox, retry_delay,
}
use hegira.Jobs.Worker.{
  get, register, DurableJobHandler, Worker, Tables, utc_now, answer, statement, enqueue, claim,
  mark_completed, mark_failed, call_handler, finish, process_by, process, process_all, run_once,
}
use hegira.Jobs.Worker.Attempts.{IsSound, enqueue-attempts, run_once-attempts}
use hegira.Jobs.Worker.Claims.{claim_ids-disjoint, insert_outbox-twice, retry_delay_bounds}
use hegira.Jobs.Worker.Handled.{calls, JobEvent, happen_all, process-twice}
use hegira.Jobs.Worker.Registry.{is_ok, get-register}

abbrev mail_row : OutboxMessage ℕ
mail_row = new_row "m1" "mail" 7 (some "k1") 5 100

abbrev other_row : OutboxMessage ℕ
other_row = new_row "m2" "mail" 8 (some "k1") 9 200

abbrev search_row : OutboxMessage ℕ
search_row = new_row "m3" "search" 9 none 2 50

abbrev rows : List (OutboxMessage ℕ)
rows = mail_row ∷ search_row ∷ []

abbrev handler : DurableJobHandler ℕ
handler = record { name = "mail"; handle = λ t payload. ok tt }

abbrev worker : Worker ℕ
worker = record {
  registry = handler ∷ [];
  worker_id = "w1";
  batch_size = 10;
  lock_timeout_seconds = 300;
  now_at = λ t. 1_000_000_000_000 + t;
  uuid_at = λ t. "fresh";
  db_error_at = λ t. none;
}

abbrev tables : Tables ℕ
tables = record { outbox = rows; inbox = []; handled = []; ticks = 0 }

abbrev message : ClaimedMessage ℕ
message = record { id = "m1"; name = "mail"; payload = 7; attempts = 1; max_attempts = 5 }

-- The older message comes first.
claim_ids-rows : claim_ids 1000 500 10 rows ≡ "m3" ∷ "m1" ∷ []
unfolding claim_ids claimable sort_rows insert_sorted first_ids retain
claim_ids-rows = refl

-- A turn of the worker handles the mail; nobody handles the search message.
run_once-handled : (run_once worker tables).1.handled ≡ ("mail", "m1") ∷ []
unfolding run_once process_all process process_by claim call_handler finish mark_completed
    mark_failed transaction ◌>>=◌ utc_now statement answer claim_ids claimable sort_rows
    insert_sorted first_ids retain lock_rows is_received insert_inbox update_row any find returned
run_once-handled = refl

-- The first claim takes the older message, the second one the other.
claim_ids-disjoint_example : any (λ i. str_eq "m1" i) (claim_ids 1000 500 1 rows) ≡ false
unfolding claim_ids claimable sort_rows insert_sorted first_ids retain any lock_rows
claim_ids-disjoint_example =
    claim_ids-disjoint {P = ℕ} 1000 500 1 1100 600 5 "w1" rows "m1" (omega arith) refl

insert_outbox-twice_example :
    insert_outbox other_row (insert_outbox mail_row []).1 ≡ insert_outbox mail_row []
unfolding insert_outbox conflicting find any
insert_outbox-twice_example =
    insert_outbox-twice {P = ℕ} mail_row other_row "k1" [] refl refl refl refl refl

retry_delay_bounds_example :
    (retry_delay 3 ≡ 2 ^ min (max 3 1) 8)
    × (2 ≤ retry_delay 3)
    × (retry_delay 3 ≤ retry_delay 20)
    × (retry_delay 20 ≤ 256)
retry_delay_bounds_example = retry_delay_bounds 3 20 (omega arith)

-- The message is claimed and processed again, by turns of two workers and directly.
abbrev later_events : List (JobEvent ℕ)
later_events =
    JobEvent.turn worker
    ∷ JobEvent.processed worker message
    ∷ JobEvent.enqueued worker "mail" 7 (record { max_attempts = 3; idempotency_key = none })
    ∷ []

process-twice_example :
    calls "mail" "m1" (happen_all later_events (process message worker tables).1).handled
    ≡ calls "mail" "m1" (process message worker tables).1.handled
unfolding process process_by call_handler finish mark_completed mark_failed transaction ◌>>=◌
    utc_now statement answer is_received insert_inbox update_row any find
process-twice_example =
    process-twice {P = ℕ} message handler worker tables (process message worker tables).1
      later_events refl refl refl

abbrev options : DurableJobOptions
options = record { idempotency_key = none; max_attempts = 3 }

enqueue-attempts_example : IsSound (enqueue "mail" 7 options worker tables).1
unfolding any
enqueue-attempts_example =
    enqueue-attempts {P = ℕ} "mail" 7 options worker tables
      ((refl, (refl, tt)), (omega arith, (omega arith, tt)))

run_once-attempts_example : IsSound (run_once worker tables).1
unfolding any
run_once-attempts_example =
    run_once-attempts {P = ℕ} worker tables ((refl, (refl, tt)), (omega arith, (omega arith, tt)))

abbrev newer : DurableJobHandler ℕ
newer = record { name = "mail"; handle = λ t payload. err "no" }

-- A second handler of the name is refused, and has taken the place of the first one.
get-register_example :
    (is_ok (register newer (handler ∷ [])).0 ≡ not (is_some (get "mail" (handler ∷ []))))
    × (get "mail" (register newer (handler ∷ [])).1 ≡ some newer)
    × (get "search" (register newer (handler ∷ [])).1 ≡ get "search" (handler ∷ []))
get-register_example =
    get-register {P = ℕ} newer (handler ∷ []) "search" (λ h. ground (arith, eq_iff "search" "mail"))
