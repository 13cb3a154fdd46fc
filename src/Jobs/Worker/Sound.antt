-- ===== src/Jobs/Worker/Sound.antt =====
-- The rows of the outbox under each statement: unique ids, and attempts within their bound.
use hegira.Base.{
  ℕ, ◌≤◌, String, ◌≡◌, refl, true, false, ◌||◌, List, [], ◌∷◌, ◌++◌, arith, eq_iff, str_eq, any,
}
use hegira.Jobs.Outbox.{
  OutboxMessage, has_id, insert_outbox, claimable, is_among, lock_rows, update_row,
}
use hegira.Jobs.Worker.Rows.{HasUniqueIds, AllRows}

module _ {P : Type 0} where
  abbrev pub IsBounded : OutboxMessage P → Type 0
  IsBounded row = row.attempts ≤ row.max_attempts

  -- The ids are unique and no row has more attempts than it may have.
  abbrev pub AreSound : List (OutboxMessage P) → Type 0
  AreSound rows = HasUniqueIds rows × AllRows IsBounded rows

  has_id-lock_rows :
      (id : String) (now : ℕ) (worker : String) (ids : List String) (rows : List (OutboxMessage P))
      → has_id id (lock_rows now worker ids rows) ≡ has_id id rows
  unfolding lock_rows any
  has_id-lock_rows id now worker ids [] = refl
  has_id-lock_rows id now worker ids (row ∷ rows) =
      ground (arith, has_id-lock_rows id now worker ids rows)

  pub lock_rows-AreSound :
      (now stale : ℕ) (worker : String) (ids : List String) (rows : List (OutboxMessage P))
      → AllRows (λ row. is_among ids row ≡ true → claimable now stale row ≡ true) rows
      → AreSound rows
      → AreSound (lock_rows now worker ids rows)
  unfolding lock_rows claimable
  lock_rows-AreSound now stale worker ids [] c h = h
  lock_rows-AreSound now stale worker ids (row ∷ rows) c h =
      let rest = lock_rows-AreSound now stale worker ids rows c.1 (h.0.1, h.1.1) in
      ground (arith, has_id-lock_rows row.id now worker ids rows, c.0, rest)

  -- A change of a row that leaves its id and its attempts alone.
  module _ (f : OutboxMessage P → OutboxMessage P)
      (same : (row : OutboxMessage P)
        → ((f row).id ≡ row.id)
          × ((f row).attempts ≡ row.attempts)
          × ((f row).max_attempts ≡ row.max_attempts)) where
    has_id-update_row :
        (id i : String) (rows : List (OutboxMessage P))
        → has_id id (update_row i f rows) ≡ has_id id rows
    unfolding update_row any
    has_id-update_row id i [] = refl
    has_id-update_row id i (row ∷ rows) = ground (arith, has_id-update_row id i rows, same row)

    pub update_row-AreSound :
        (i : String) (rows : List (OutboxMessage P))
        → AreSound rows
        → AreSound (update_row i f rows)
    unfolding update_row
    update_row-AreSound i [] h = h
    update_row-AreSound i (row ∷ rows) h =
        let rest = update_row-AreSound i rows (h.0.1, h.1.1) in
        ground (arith, has_id-update_row row.id i rows, same row, rest)

  has_id-append :
      (id : String) (rows : List (OutboxMessage P)) (row : OutboxMessage P)
      → has_id id (rows ++ row ∷ []) ≡ (has_id id rows || str_eq id row.id)
  unfolding any
  has_id-append id [] row = ground arith
  has_id-append id (r ∷ rows) row = ground (arith, has_id-append id rows row)

  append-AreSound :
      (rows : List (OutboxMessage P)) (row : OutboxMessage P)
      → has_id row.id rows ≡ false
      → IsBounded row
      → AreSound rows
      → AreSound (rows ++ row ∷ [])
  unfolding any
  append-AreSound [] row fresh b h = ((refl, tt), (b, tt))
  append-AreSound (r ∷ rows) row fresh b h = ground (
    arith,
    eq_iff r.id row.id,
    eq_iff row.id r.id,
    has_id-append r.id rows row,
    append-AreSound rows row,
  )

  pub insert_outbox-AreSound :
      (row : OutboxMessage P) (rows : List (OutboxMessage P))
      → IsBounded row
      → AreSound rows
      → AreSound (insert_outbox row rows).1
  unfolding insert_outbox
  insert_outbox-AreSound row rows b h = ground (arith, append-AreSound rows row)
