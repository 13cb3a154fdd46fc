-- ===== src/Jobs/Worker/Receipts.antt =====
-- A message that was processed while its handler succeeds leaves a receipt in the inbox.
use hegira.Base.{ℕ, ◌+◌, String, ◌≡◌, refl, true, some, List, [], ◌∷◌, ◌++◌, arith, eq_iff, any, ok}
use hegira.Base.Actions.{◌>>=◌, transaction}
use hegira.Jobs.Outbox.{InboxMessage, ClaimedMessage, is_received, insert_inbox}
use hegira.Jobs.Worker.{
  DurableJobHandler, Worker, Tables, get, utc_now, answer, statement, mark_completed, call_handler,
  finish, process_by, process,
}

is_received-append :
    (consumer id : String) (inbox : List InboxMessage) (m : InboxMessage)
    → m.consumer ≡ consumer
    → m.message_id ≡ id
    → is_received consumer id (inbox ++ m ∷ []) ≡ true
unfolding is_received any
is_received-append consumer id [] m c i =
    ground (arith, eq_iff m.consumer consumer, eq_iff m.message_id id)
is_received-append consumer id (x ∷ inbox) m c i =
    ground (arith, is_received-append consumer id inbox m c i)

is_received-insert_inbox :
    (consumer id : String) (now : ℕ) (inbox : List InboxMessage)
    → is_received consumer id (insert_inbox consumer id now inbox) ≡ true
unfolding insert_inbox
is_received-insert_inbox consumer id now inbox = ground (
  arith,
  is_received-append consumer id inbox
      (record { consumer = consumer; message_id = id; processed_at = now }) refl refl,
)

module _ {P : Type 0} where
  received-mark_completed :
      (id consumer : String) (w : Worker P) (s t : Tables P)
      → mark_completed id consumer w s ≡ (ok tt, t)
      → is_received consumer id t.inbox ≡ true
  unfolding mark_completed transaction ◌>>=◌ utc_now statement answer
  received-mark_completed id consumer w s t e =
      ground (arith, is_received-insert_inbox consumer id (w.now_at (s.ticks + 1)) s.inbox)

  -- A message that was processed while its handler succeeds has a receipt.
  pub received-process :
      (message : ClaimedMessage P) (handler : DurableJobHandler P) (w : Worker P) (s t : Tables P)
      → get message.name w.registry ≡ some handler
      → handler.handle (s.ticks + 1) message.payload ≡ ok tt
      → process message w s ≡ (ok tt, t)
      → is_received handler.name message.id t.inbox ≡ true
  unfolding process process_by ◌>>=◌ statement answer call_handler finish
  received-process message handler w s t g h e =
      let asked : Tables P = record s { ticks = s.ticks + 1 } in
      let called : Tables P = (call_handler handler message w asked).1 in
      ground (
        arith,
        received-mark_completed message.id handler.name w asked t,
        received-mark_completed message.id handler.name w called t,
      )
