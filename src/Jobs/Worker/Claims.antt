-- ===== src/Jobs/Worker/Claims.antt =====
-- What enqueueing, claiming and failing do to the rows.
use native.Mathlib.Nat.{pow-le-pow_right}
use hegira.Base.{
  ℕ, ◌^◌, ◌≤◌, max, min, String, ◌≡◌, Bool, true, false, none, some, List, [], ◌∷◌, ◌++◌, arith,
  eq_iff, str_eq, ◌&&◌, any, find, retain,
}
use hegira.Jobs.Outbox.{
  OutboxMessage, has_id, same_key, conflicting, insert_outbox, claimable, sort_rows, claim_ids,
  lock_rows, retry_delay,
}
use hegira.Jobs.Worker.Rows.{has_id-sort_rows, has_id-first_ids}

module _ {P : Type 0} where
  -- A row that was locked at `now` is not claimable while `now` is not stale.
  retain-lock_rows :
      (now later stale : ℕ) (worker : String) (ids : List String) (id : String)
      (rows : List (OutboxMessage P))
      → stale ≤ now
      → has_id id (retain (claimable later stale) (lock_rows now worker ids rows)) ≡ true
      → any (λ i. str_eq id i) ids ≡ false
  unfolding retain lock_rows claimable any
  retain-lock_rows now later stale worker ids id [] h e = cc
  retain-lock_rows now later stale worker ids id (row ∷ rows) h e =
      ground (arith, eq_iff id row.id, retain-lock_rows now later stale worker ids id rows)

  -- Two claims, the second while the locks of the first are not stale, take no message in common,
  -- whichever workers make them and whatever their batch sizes are.
  pub claim_ids-disjoint :
      (now stale n later later_stale m : ℕ) (worker : String) (outbox : List (OutboxMessage P))
      (id : String)
      → later_stale ≤ now
      → let first = claim_ids now stale n outbox in
        let second = claim_ids later later_stale m (lock_rows now worker first outbox) in
        any (λ i. str_eq id i) second ≡ true → any (λ i. str_eq id i) first ≡ false
  unfolding claim_ids
  claim_ids-disjoint now stale n later later_stale m worker outbox id h e =
      let first = claim_ids now stale n outbox in
      let free = retain (claimable later later_stale) (lock_rows now worker first outbox) in
      retain-lock_rows now later later_stale worker first id outbox h
        (rw (has_id-sort_rows id free) at (has_id-first_ids m id (sort_rows free) e))

  find-append :
      (p : OutboxMessage P → Bool) (rows : List (OutboxMessage P)) (row : OutboxMessage P)
      → find p rows ≡ none
      → p row ≡ true
      → find p (rows ++ row ∷ []) ≡ some row
  unfolding find
  find-append p [] row h e = ground arith
  find-append p (r ∷ rows) row h e = ground (arith, find-append p rows row)

  -- Enqueueing again under the name and the idempotency key of a message that was enqueued gives the
  -- same id and changes nothing, whatever the payload and the options are.
  pub insert_outbox-twice :
      (row again : OutboxMessage P) (key : String) (outbox : List (OutboxMessage P))
      → row.idempotency_key ≡ some key
      → again.idempotency_key ≡ some key
      → again.name ≡ row.name
      → has_id row.id outbox ≡ false
      → has_id again.id (insert_outbox row outbox).1 ≡ false
      → insert_outbox again (insert_outbox row outbox).1 ≡ insert_outbox row outbox
  unfolding insert_outbox conflicting
  insert_outbox-twice row again key outbox k k' n fresh fresh' = ground (
    arith,
    eq_iff row.name row.name,
    eq_iff key key,
    find-append (λ r. str_eq r.name row.name && same_key r.idempotency_key (some key)) outbox row,
  )

-- The exponent of the delay.
abbrev exponent : ℕ → ℕ
exponent attempts = min (max attempts 1) 8

power_bounds : (a : ℕ) → (2 ^ 1 ≤ 2 ^ exponent a) × (2 ^ exponent a ≤ 2 ^ 8)
power_bounds a = (
  pow-le-pow_right {n = 2} (omega arith) {i = 1} {j = exponent a} (omega arith),
  pow-le-pow_right {n = 2} (omega arith) {i = exponent a} {j = 8} (omega arith),
)

-- The delay before the next try is a power of two from 2 to 256 seconds, so that the cap of 300 is
-- never met, and it does not fall as the attempts grow.
pub retry_delay_bounds :
    (attempts more : ℕ)
    → attempts ≤ more
    → (retry_delay attempts ≡ 2 ^ min (max attempts 1) 8)
      × (2 ≤ retry_delay attempts)
      × (retry_delay attempts ≤ retry_delay more)
      × (retry_delay more ≤ 256)
unfolding retry_delay
retry_delay_bounds attempts more h =
    let grows =
      pow-le-pow_right {n = 2} (omega arith) {i = exponent attempts} {j = exponent more}
        (omega arith) in
    omega (arith, power_bounds attempts, power_bounds more, grows)
