-- ===== src/Jobs/Worker/Handled.antt =====
-- A receipt in the inbox stays and stops a message from being handled again, whatever the workers do.
use hegira.Base.{
  ℕ, ◌+◌, max, String, ◌≡◌, refl, Bool, true, false, ◌&&◌, Option, none, some, List, [], ◌∷◌, ◌++◌,
  arith, eq_iff, str_eq, any, Result, ok, err, length, if◌then◌else◌,
}
use hegira.Base.Actions.{◌>>=◌, after}
use hegira.Base.Keeps.{
  Keeps, keeps_rules, Keeps-bind, Keeps-transaction, Keeps-gets, Keeps-lift, Keeps-pure,
}
use hegira.Jobs.Outbox.{InboxMessage, ClaimedMessage, DurableJobOptions, is_received, insert_inbox}
use hegira.Jobs.Worker.{
  DurableJobHandler, Worker, Tables, get, utc_now, new_uuid, answer, statement, restore,
  checked_max_attempts, enqueue, claim, mark_completed, mark_failed, call_handler, finish,
  process_by, process, process_all, run_once,
}
use hegira.Jobs.Worker.Receipts.{received-process}

-- How often a handler was called for a message.
abbrev pub calls : String → String → List (String × String) → ℕ
calls consumer id [] = 0
calls consumer id ((name, message) ∷ handled) =
    (if str_eq name consumer && str_eq message id then 1 else 0) + calls consumer id handled

calls-append :
    (consumer id name message : String) (handled : List (String × String))
    → calls consumer id (handled ++ (name, message) ∷ [])
      ≡ calls consumer id handled + (if str_eq name consumer && str_eq message id then 1 else 0)
calls-append consumer id name message [] = omega arith
calls-append consumer id name message (h ∷ handled) =
    omega (arith, calls-append consumer id name message handled)

received-append :
    (consumer id : String) (m : InboxMessage) (inbox : List InboxMessage)
    → is_received consumer id inbox ≡ true
    → is_received consumer id (inbox ++ m ∷ []) ≡ true
unfolding is_received any
received-append consumer id m [] h = cc
received-append consumer id m (x ∷ inbox) h = ground (arith, h, received-append consumer id m inbox)

received-insert_inbox :
    (consumer id name message : String) (now : ℕ) (inbox : List InboxMessage)
    → is_received consumer id inbox ≡ true
    → is_received consumer id (insert_inbox name message now inbox) ≡ true
unfolding insert_inbox
received-insert_inbox consumer id name message now inbox h = ground (
  arith,
  h,
  received-append consumer id (record { consumer = name; message_id = message; processed_at = now })
      inbox h,
)

-- What may happen to the tables of the jobs: the turn of a worker, the processing of a message that a
-- worker has claimed before, and the enqueueing of a message.
pub data JobEvent (P : Type 0) : Type 0 where
  turn : Worker P → JobEvent P
  processed : Worker P → ClaimedMessage P → JobEvent P
  enqueued : Worker P → String → P → DurableJobOptions → JobEvent P

module _ {P : Type 0} where
  unfoldable pub happen : JobEvent P → Tables P → Tables P
  happen (JobEvent.turn w) s = (run_once w s).1
  happen (JobEvent.processed w message) s = (process message w s).1
  happen (JobEvent.enqueued w name payload options) s = (enqueue name payload options w s).1

  -- The tables after some events, the first one first.
  unfoldable pub happen_all : List (JobEvent P) → Tables P → Tables P
  happen_all [] s = s
  happen_all (event ∷ events) s = happen_all events (happen event s)

module _ {P : Type 0} (consumer id : String) (n : ℕ) where
  -- The message has a receipt of the handler, which was called for it so often.
  abbrev IsReceived : Tables P → Type 0
  IsReceived s = (is_received consumer id s.inbox ≡ true) × (calls consumer id s.handled ≡ n)

  utc_now-IsReceived : Keeps IsReceived (utc_now {P = P})
  unfolding utc_now
  utc_now-IsReceived = record { at = λ w s h. h }

  new_uuid-IsReceived : Keeps IsReceived (new_uuid {P = P})
  unfolding new_uuid
  new_uuid-IsReceived = record { at = λ w s h. h }

  answer-IsReceived :
      {A : Type 0} (o : Option String) (a : A) (s' s : Tables P)
      → IsReceived s'
      → IsReceived s
      → IsReceived (answer o (a, s') s).1
  unfolding answer
  answer-IsReceived none a s' s h k = h
  answer-IsReceived (some e) a s' s h k = k

  statement-IsReceived :
      {A : Type 0} (f : Tables P → A × Tables P)
      → ((s : Tables P) → IsReceived s → IsReceived (f s).1)
      → Keeps IsReceived (statement f)
  unfolding statement
  statement-IsReceived f keeps = record {
    at = λ w s h.
        let s' : Tables P = record s { ticks = s.ticks + 1 } in
        answer-IsReceived (w.db_error_at s.ticks) (f s').0 (f s').1 s' (keeps s' h) h;
  }

  checked_max_attempts-IsReceived : (m : ℕ) → Keeps IsReceived (checked_max_attempts {P = P} m)
  unfolding checked_max_attempts
  checked_max_attempts-IsReceived m = search keeps_rules

  enqueue-IsReceived :
      (name : String) (payload : P) (options : DurableJobOptions)
      → Keeps IsReceived (enqueue name payload options)
  unfolding enqueue
  enqueue-IsReceived name payload options = Keeps-bind _ _ new_uuid-IsReceived λ i.
      Keeps-bind _ _ utc_now-IsReceived λ now.
        Keeps-bind _ _ (checked_max_attempts-IsReceived (max options.max_attempts 1))
          λ m. Keeps-bind _ _ (statement-IsReceived _ λ s h. h) λ inserted. Keeps-lift inserted

  claim-IsReceived : Keeps IsReceived (claim {P = P})
  unfolding claim
  claim-IsReceived = Keeps-bind _ _ utc_now-IsReceived λ now.
      Keeps-bind _ _ (Keeps-gets _) λ timeout.
        Keeps-bind _ _ (Keeps-gets _)
          λ batch_size. Keeps-bind _ _ (Keeps-gets _) λ worker_id. statement-IsReceived _ λ s h. h

  mark_completed-IsReceived : (i name : String) → Keeps IsReceived (mark_completed {P = P} i name)
  unfolding mark_completed
  mark_completed-IsReceived i name =
      Keeps-transaction restore _ (λ before after h k. (h.0, k.1))
        (Keeps-bind _ _ (statement-IsReceived _ λ s h. h) λ _.
          Keeps-bind _ _ utc_now-IsReceived λ received_at.
            Keeps-bind _ _
              (statement-IsReceived _
                λ s h. (received-insert_inbox consumer id name i received_at s.inbox h.0, h.1))
              λ _. Keeps-bind _ _ utc_now-IsReceived λ processed_at.
                Keeps-bind _ _ (statement-IsReceived _ λ s h. h)
                  λ _. statement-IsReceived _ λ s h. h)

  mark_failed-IsReceived :
      (message : ClaimedMessage P) (error : String) → Keeps IsReceived (mark_failed message error)
  unfolding mark_failed
  mark_failed-IsReceived message error =
      Keeps-bind _ _ utc_now-IsReceived λ now. statement-IsReceived _ λ s h. h

  finish-IsReceived :
      (name : String) (message : ClaimedMessage P) (outcome : Result String (Unit {0}))
      → Keeps IsReceived (finish name message outcome)
  unfolding finish
  finish-IsReceived name message (ok _) = mark_completed-IsReceived message.id name
  finish-IsReceived name message (err e) = mark_failed-IsReceived message e

  -- A handler that finds no receipt is another one, or the message is.
  fresh_call :
      (name message : String) (s : Tables P)
      → is_received name message s.inbox ≡ false
      → IsReceived s
      → calls consumer id (s.handled ++ (name, message) ∷ []) ≡ n
  fresh_call name message s fresh (received, count) = ground (
    arith,
    calls-append consumer id name message s.handled,
    eq_iff name consumer,
    eq_iff message id,
    fresh,
    received,
    count,
  )

  asked-IsReceived :
      (o : Option String) (duplicate : Bool) (handler : DurableJobHandler P)
      (message : ClaimedMessage P) (w : Worker P) (s : Tables P)
      → is_received handler.name message.id s.inbox ≡ duplicate
      → IsReceived s
      → IsReceived
          (after
            (answer o (duplicate, s) s).0
            (λ duplicate.
              if duplicate
              then mark_completed message.id handler.name
              else do outcome ← call_handler handler message; finish handler.name message outcome)
            w
            (answer o (duplicate, s) s).1).1
  unfolding answer ◌>>=◌ call_handler
  asked-IsReceived (some e) duplicate handler message w s asked h = h
  asked-IsReceived none true handler message w s asked h =
      (mark_completed-IsReceived message.id handler.name).at w s h
  asked-IsReceived none false handler message w s asked h =
      (finish-IsReceived handler.name message (handler.handle s.ticks message.payload)).at w _
        (h.0, fresh_call handler.name message.id s asked h)

  process_by-IsReceived :
      (handler : Option (DurableJobHandler P)) (message : ClaimedMessage P)
      → Keeps IsReceived (process_by handler message)
  unfolding process_by ◌>>=◌ statement
  process_by-IsReceived none message = mark_failed-IsReceived message _
  process_by-IsReceived (some handler) message = record {
    at = λ w s h.
        asked-IsReceived (w.db_error_at s.ticks) _ handler message w
          (record s { ticks = s.ticks + 1 }) refl h;
  }

  process-IsReceived : (message : ClaimedMessage P) → Keeps IsReceived (process message)
  unfolding process
  process-IsReceived message =
      Keeps-bind _ _ (Keeps-gets _) λ handler. process_by-IsReceived handler message

  process_all-IsReceived :
      (messages : List (ClaimedMessage P)) → Keeps IsReceived (process_all messages)
  unfolding process_all
  process_all-IsReceived [] = Keeps-pure tt
  process_all-IsReceived (message ∷ messages) =
      Keeps-bind _ _ (process-IsReceived message) λ _. process_all-IsReceived messages

  run_once-IsReceived : Keeps IsReceived (run_once {P = P})
  unfolding run_once
  run_once-IsReceived =
      Keeps-bind _ _ claim-IsReceived λ messages.
        Keeps-bind _ _ (process_all-IsReceived messages) λ _. Keeps-pure (length messages)

  happen-IsReceived :
      (event : JobEvent P) (s : Tables P) → IsReceived s → IsReceived (happen event s)
  unfolding happen
  happen-IsReceived (JobEvent.turn w) s h = run_once-IsReceived.at w s h
  happen-IsReceived (JobEvent.processed w message) s h = (process-IsReceived message).at w s h
  happen-IsReceived (JobEvent.enqueued w name payload options) s h =
      (enqueue-IsReceived name payload options).at w s h

  happen_all-IsReceived :
      (events : List (JobEvent P)) (s : Tables P) → IsReceived s → IsReceived (happen_all events s)
  unfolding happen_all
  happen_all-IsReceived [] s h = h
  happen_all-IsReceived (event ∷ events) s h =
      happen_all-IsReceived events (happen event s) (happen-IsReceived event s h)

module _ {P : Type 0} where
  -- Once a message was processed and its handler had succeeded, no handler of that name is called for
  -- a message of that id again, whatever happens then: turns of any workers, the processing of
  -- messages claimed before, this one too, and enqueueing, of which any may fail at any statement.
  pub process-twice :
      (message : ClaimedMessage P) (handler : DurableJobHandler P) (w : Worker P) (s t : Tables P)
      (events : List (JobEvent P))
      → get message.name w.registry ≡ some handler
      → handler.handle (s.ticks + 1) message.payload ≡ ok tt
      → process message w s ≡ (ok tt, t)
      → calls handler.name message.id (happen_all events t).handled
        ≡ calls handler.name message.id t.handled
  process-twice message handler w s t events g h e =
      (happen_all-IsReceived handler.name message.id (calls handler.name message.id t.handled)
        events t (received-process message handler w s t g h e, refl)).1
