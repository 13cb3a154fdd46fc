-- ===== src/Jobs/Worker/Attempts.antt =====
-- No message is tried more often than it may be, whatever fails and however often the worker runs.
use hegira.Base.{
  ℕ, ◌+◌, ◌-◌, ◌*◌, max, String, refl, Option, none, some, List, [], ◌∷◌, arith, Result, ok, err,
  length,
}
use hegira.Base.Keeps.{
  Keeps, keeps_rules, Keeps-bind, Keeps-transaction, Keeps-gets, Keeps-lift, Keeps-pure, Keeps-if,
}
use hegira.Jobs.Outbox.{
  ClaimedMessage, DurableJobOptions, new_row, claim_ids, complete_row, fail_row, retry_delay,
}
use hegira.Jobs.Worker.{
  DurableJobHandler, Worker, Tables, utc_now, new_uuid, answer, statement, restore,
  checked_max_attempts, enqueue, claim, mark_completed, mark_failed, call_handler, finish,
  process_by, process, process_all, run_once,
}
use hegira.Jobs.Worker.Rows.{claim_ids-claimable}
use hegira.Jobs.Worker.Sound.{
  AreSound, lock_rows-AreSound, update_row-AreSound, insert_outbox-AreSound,
}

module _ {P : Type 0} where
  abbrev pub IsSound : Tables P → Type 0
  IsSound s = AreSound s.outbox

  utc_now-IsSound : Keeps IsSound (utc_now {P = P})
  unfolding utc_now
  utc_now-IsSound = record { at = λ w s h. h }

  new_uuid-IsSound : Keeps IsSound (new_uuid {P = P})
  unfolding new_uuid
  new_uuid-IsSound = record { at = λ w s h. h }

  call_handler-IsSound :
      (handler : DurableJobHandler P) (message : ClaimedMessage P)
      → Keeps IsSound (call_handler handler message)
  unfolding call_handler
  call_handler-IsSound handler message = record { at = λ w s h. h }

  answer-IsSound :
      {A : Type 0} (o : Option String) (a : A) (s' s : Tables P)
      → IsSound s'
      → IsSound s
      → IsSound (answer o (a, s') s).1
  unfolding answer
  answer-IsSound none a s' s h k = h
  answer-IsSound (some e) a s' s h k = k

  statement-IsSound :
      {A : Type 0} (f : Tables P → A × Tables P)
      → ((s : Tables P) → IsSound s → IsSound (f s).1)
      → Keeps IsSound (statement f)
  unfolding statement
  statement-IsSound f keeps = record {
    at = λ w s h.
        let s' : Tables P = record s { ticks = s.ticks + 1 } in
        answer-IsSound (w.db_error_at s.ticks) (f s').0 (f s').1 s' (keeps s' h) h;
  }

  checked_max_attempts-IsSound : (n : ℕ) → Keeps IsSound (checked_max_attempts {P = P} n)
  unfolding checked_max_attempts
  checked_max_attempts-IsSound n = search keeps_rules

  enqueue-IsSound :
      (name : String) (payload : P) (options : DurableJobOptions)
      → Keeps IsSound (enqueue name payload options)
  unfolding enqueue
  enqueue-IsSound name payload options = Keeps-bind _ _ new_uuid-IsSound λ id.
      Keeps-bind _ _ utc_now-IsSound λ now.
        Keeps-bind _ _ (checked_max_attempts-IsSound (max options.max_attempts 1)) λ max_attempts.
          Keeps-bind _ _
            (statement-IsSound _ λ s h.
              insert_outbox-AreSound
                (new_row id name payload options.idempotency_key max_attempts now) s.outbox
                (omega arith) h)
            λ inserted. Keeps-lift inserted

  claim-IsSound : Keeps IsSound (claim {P = P})
  unfolding claim
  claim-IsSound = Keeps-bind _ _ utc_now-IsSound λ now. Keeps-bind _ _ (Keeps-gets _) λ timeout.
      Keeps-bind _ _ (Keeps-gets _) λ batch_size. Keeps-bind _ _ (Keeps-gets _) λ worker_id.
        statement-IsSound _ λ s h.
          lock_rows-AreSound now (now - timeout) worker_id
            (claim_ids now (now - timeout) batch_size s.outbox) s.outbox
            (claim_ids-claimable now (now - timeout) batch_size s.outbox h.0) h

  mark_completed-IsSound :
      (id consumer : String) → Keeps IsSound (mark_completed {P = P} id consumer)
  unfolding mark_completed
  mark_completed-IsSound id consumer =
      Keeps-transaction restore _ (λ before after h k. h)
        (Keeps-bind _ _ (statement-IsSound _ λ s h. h) λ _.
          Keeps-bind _ _ utc_now-IsSound λ received_at.
            Keeps-bind _ _ (statement-IsSound _ λ s h. h) λ _.
              Keeps-bind _ _ utc_now-IsSound λ processed_at.
                Keeps-bind _ _
                  (statement-IsSound _ λ s h.
                    update_row-AreSound (complete_row processed_at) (λ row. (refl, refl, refl)) id
                      s.outbox h)
                  λ _. statement-IsSound _ λ s h. h)

  mark_failed-IsSound :
      (message : ClaimedMessage P) (error : String) → Keeps IsSound (mark_failed message error)
  unfolding mark_failed
  mark_failed-IsSound message error = Keeps-bind _ _ utc_now-IsSound λ now.
      statement-IsSound _ λ s h.
        update_row-AreSound (fail_row error (now + retry_delay message.attempts * 1_000_000_000))
          (λ row. (refl, refl, refl)) message.id s.outbox h

  finish-IsSound :
      (consumer : String) (message : ClaimedMessage P) (outcome : Result String (Unit {0}))
      → Keeps IsSound (finish consumer message outcome)
  unfolding finish
  finish-IsSound consumer message (ok _) = mark_completed-IsSound message.id consumer
  finish-IsSound consumer message (err e) = mark_failed-IsSound message e

  process_by-IsSound :
      (handler : Option (DurableJobHandler P)) (message : ClaimedMessage P)
      → Keeps IsSound (process_by handler message)
  unfolding process_by
  process_by-IsSound none message = mark_failed-IsSound message _
  process_by-IsSound (some handler) message =
      Keeps-bind _ _ (statement-IsSound _ λ s h. h) λ duplicate.
        Keeps-if duplicate _ _ (mark_completed-IsSound message.id handler.name) (
          Keeps-bind _ _ (call_handler-IsSound handler message)
            λ outcome. finish-IsSound handler.name message outcome)

  process-IsSound : (message : ClaimedMessage P) → Keeps IsSound (process message)
  unfolding process
  process-IsSound message =
      Keeps-bind _ _ (Keeps-gets _) λ handler. process_by-IsSound handler message

  process_all-IsSound : (messages : List (ClaimedMessage P)) → Keeps IsSound (process_all messages)
  unfolding process_all
  process_all-IsSound [] = Keeps-pure tt
  process_all-IsSound (message ∷ messages) =
      Keeps-bind _ _ (process-IsSound message) λ _. process_all-IsSound messages

  run_once-IsSound : Keeps IsSound (run_once {P = P})
  unfolding run_once
  run_once-IsSound =
      Keeps-bind _ _ claim-IsSound
        λ messages. Keeps-bind _ _ (process_all-IsSound messages) λ _. Keeps-pure (length messages)

  -- From an outbox with unique ids and every message within its number of attempts, a turn of the
  -- worker leads to such an outbox, whether it ends well or fails at any statement.
  pub run_once-attempts : (w : Worker P) (s : Tables P) → IsSound s → IsSound (run_once w s).1
  run_once-attempts w s h = run_once-IsSound.at w s h

  -- From an outbox with unique ids and every message within its number of attempts, enqueueing a
  -- message leads to such an outbox, whether it succeeds or fails.
  pub enqueue-attempts :
      (name : String) (payload : P) (options : DurableJobOptions) (w : Worker P) (s : Tables P)
      → IsSound s
      → IsSound (enqueue name payload options w s).1
  enqueue-attempts name payload options w s h = (enqueue-IsSound name payload options).at w s h
