-- ===== src/Jobs/Worker/Rows.antt =====
-- Which rows of the outbox a claim locks.
use hegira.Base.{
  ℕ, zero, suc, String, ◌≡◌, refl, Bool, true, false, ◌||◌, List, [], ◌∷◌, arith, eq_iff, str_eq,
  any, retain,
}
use hegira.Jobs.Outbox.{
  OutboxMessage, has_id, claimable, insert_sorted, sort_rows, first_ids, claim_ids, is_among,
}

module _ {P : Type 0} where
  -- No two rows have one id.
  abbrev pub HasUniqueIds : List (OutboxMessage P) → Type 0
  HasUniqueIds [] = Unit
  HasUniqueIds (row ∷ rows) = (has_id row.id rows ≡ false) × HasUniqueIds rows

  abbrev pub AllRows : (OutboxMessage P → Type 0) → List (OutboxMessage P) → Type 0
  AllRows Q [] = Unit
  AllRows Q (row ∷ rows) = Q row × AllRows Q rows

  has_id-insert_sorted :
      (id : String) (a : OutboxMessage P) (rows : List (OutboxMessage P))
      → has_id id (insert_sorted a rows) ≡ (str_eq id a.id || has_id id rows)
  unfolding insert_sorted any
  has_id-insert_sorted id a [] = refl
  has_id-insert_sorted id a (b ∷ rows) = ground (arith, has_id-insert_sorted id a rows)

  pub has_id-sort_rows :
      (id : String) (rows : List (OutboxMessage P)) → has_id id (sort_rows rows) ≡ has_id id rows
  unfolding sort_rows any
  has_id-sort_rows id [] = refl
  has_id-sort_rows id (a ∷ rows) =
      ground (arith, has_id-insert_sorted id a (sort_rows rows), has_id-sort_rows id rows)

  pub has_id-first_ids :
      (n : ℕ) (id : String) (rows : List (OutboxMessage P))
      → any (λ i. str_eq id i) (first_ids n rows) ≡ true
      → has_id id rows ≡ true
  unfolding first_ids any
  has_id-first_ids zero id rows h = cc
  has_id-first_ids (suc n) id [] h = cc
  has_id-first_ids (suc n) id (a ∷ rows) h = ground (arith, has_id-first_ids n id rows)

  has_id-retain :
      (p : OutboxMessage P → Bool) (id : String) (rows : List (OutboxMessage P))
      → has_id id (retain p rows) ≡ true
      → has_id id rows ≡ true
  unfolding retain any
  has_id-retain p id [] h = h
  has_id-retain p id (row ∷ rows) h = ground (arith, has_id-retain p id rows)

  -- Where the ids that pass a test are ids of rows that pass `p`, and ids are unique, every row whose
  -- id passes the test passes `p`.
  selected :
      (p : OutboxMessage P → Bool) (test : String → Bool) (rows : List (OutboxMessage P))
      → HasUniqueIds rows
      → ((id : String) → has_id id rows ≡ true → test id ≡ true → has_id id (retain p rows) ≡ true)
      → AllRows (λ row. test row.id ≡ true → p row ≡ true) rows
  unfolding retain any
  selected p test [] u cover = tt
  selected p test (row ∷ rows) u cover = (
    λ h. ground (arith, cover row.id, has_id-retain p row.id rows, eq_iff row.id row.id),
    selected p test rows u.1 (λ id known passes. ground (arith, cover id, eq_iff id row.id)),
  )

  -- Every row that a claim takes satisfies the claim's condition.
  pub claim_ids-claimable :
      (now stale_before batch_size : ℕ) (outbox : List (OutboxMessage P))
      → HasUniqueIds outbox
      → AllRows
          (λ row.
            is_among (claim_ids now stale_before batch_size outbox) row ≡ true
            → claimable now stale_before row ≡ true)
          outbox
  unfolding claim_ids
  claim_ids-claimable now stale_before batch_size outbox u =
      selected (claimable now stale_before)
        (λ id.
          any (λ i. str_eq id i)
            (first_ids batch_size (sort_rows (retain (claimable now stale_before) outbox))))
        outbox u
        (λ id known passes.
          rw (has_id-sort_rows id (retain (claimable now stale_before) outbox)) at (
            has_id-first_ids batch_size id (sort_rows (retain (claimable now stale_before) outbox))
              passes))
