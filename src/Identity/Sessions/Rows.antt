-- ===== src/Identity/Sessions/Rows.antt =====
-- The rows of `sessions` under each statement of `SqliteSessionRepository`: every token has one row,
-- and no session outlives its maximum.
use hegira.Base.{
  ℕ, ◌≤◌, String, ◌≡◌, ◌⊎◌, inl, inr, refl, Bool, false, ◌||◌, Option, none, some, List, [], ◌∷◌,
  ◌++◌, arith, eq_iff, str_eq, any, retain, update_where,
}
use hegira.Identity.Store.{UserRow, SessionRow, World}
use hegira.Identity.Sessions.{
  is_live, clashes, is_taken, set_token, extend, add_session, insert_for, update_live,
}

abbrev pub has_token : String → List SessionRow → Bool
has_token token rows = any (λ row. str_eq row.token token) rows

-- No token has two rows.
abbrev pub HasUniqueTokens : List SessionRow → Type 0
HasUniqueTokens [] = Unit
HasUniqueTokens (row ∷ rows) = (has_token row.token rows ≡ false) × HasUniqueTokens rows

-- No session outlives its maximum.
abbrev pub AreBounded : List SessionRow → Type 0
AreBounded [] = Unit
AreBounded (row ∷ rows) = (row.expires_at ≤ row.max_expires_at) × AreBounded rows

abbrev pub AreSound : List SessionRow → Type 0
AreSound rows = HasUniqueTokens rows × AreBounded rows

has_token-retain :
    (p : SessionRow → Bool) (token : String) (rows : List SessionRow)
    → has_token token rows ≡ false
    → has_token token (retain p rows) ≡ false
unfolding any retain
has_token-retain p token [] h = h
has_token-retain p token (row ∷ rows) h = ground (arith, has_token-retain p token rows)

pub retain-AreSound :
    (p : SessionRow → Bool) (rows : List SessionRow) → AreSound rows → AreSound (retain p rows)
unfolding any retain
retain-AreSound p [] h = h
retain-AreSound p (row ∷ rows) h =
    let rest = retain-AreSound p rows (h.0.1, h.1.1) in
    ground (arith, has_token-retain p row.token rows, rest)

has_token-extend :
    (p : SessionRow → Bool) (expires_at : ℕ) (token : String) (rows : List SessionRow)
    → has_token token (update_where p (extend expires_at) rows) ≡ has_token token rows
unfolding any update_where
has_token-extend p expires_at token [] = refl
has_token-extend p expires_at token (row ∷ rows) =
    ground (arith, has_token-extend p expires_at token rows)

pub extend-AreSound :
    (p : SessionRow → Bool) (expires_at : ℕ) (rows : List SessionRow)
    → AreSound rows
    → AreSound (update_where p (extend expires_at) rows)
unfolding any update_where
extend-AreSound p expires_at [] h = h
extend-AreSound p expires_at (row ∷ rows) h =
    let rest = extend-AreSound p expires_at rows (h.0.1, h.1.1) in
    ground (arith, has_token-extend p expires_at row.token rows, rest)

has_token-append :
    (token : String) (rows : List SessionRow) (row : SessionRow)
    → has_token token (rows ++ row ∷ []) ≡ (has_token token rows || str_eq row.token token)
unfolding any
has_token-append token [] row = ground arith
has_token-append token (r ∷ rows) row = ground (arith, has_token-append token rows row)

append-AreSound :
    (rows : List SessionRow) (row : SessionRow)
    → any (clashes row) rows ≡ false
    → row.expires_at ≤ row.max_expires_at
    → AreSound rows
    → AreSound (rows ++ row ∷ [])
unfolding any
append-AreSound [] row fresh b h = ((refl, tt), (b, tt))
append-AreSound (r ∷ rows) row fresh b h = ground (
  arith,
  eq_iff r.token row.token,
  eq_iff row.token r.token,
  has_token-append r.token rows row,
  append-AreSound rows row,
)

pub add_session-AreSound :
    (row : SessionRow) (s : World)
    → row.expires_at ≤ row.max_expires_at
    → AreSound s.sessions
    → AreSound (add_session row s).1.sessions
unfolding add_session
add_session-AreSound row s b h = ground (arith, append-AreSound s.sessions row)

pub insert_for-AreSound :
    (user : Option UserRow) (pid token : String) (created_at expires_at max_expires_at : ℕ)
    (s : World)
    → expires_at ≤ max_expires_at
    → AreSound s.sessions
    → AreSound (insert_for user pid token created_at expires_at max_expires_at s).1.sessions
unfolding insert_for
insert_for-AreSound none pid token created_at expires_at max_expires_at s b h = h
insert_for-AreSound (some user) pid token created_at expires_at max_expires_at s b h =
    add_session-AreSound _ s b h

module _ (old new : String) (expires_at max_expires_at now : ℕ) where
  -- A row that the update does not reach keeps its token from the others.
  has_token-update :
      (token : String) (rows : List SessionRow)
      → has_token token rows ≡ false
      → (str_eq new token ≡ false) ⊎ (has_token old rows ≡ false)
      → has_token token
          (update_where (is_live old now) (set_token new expires_at max_expires_at) rows)
        ≡ false
  unfolding any update_where is_live
  has_token-update token [] h k = refl
  has_token-update token (row ∷ rows) h (inl k) = ground (arith, has_token-update token rows)
  has_token-update token (row ∷ rows) h (inr k) = ground (arith, has_token-update token rows)

  -- Without a row of the old token, whoever has the new one would be in its way.
  has_token-is_taken :
      (rows : List SessionRow)
      → is_taken old new rows ≡ false
      → has_token old rows ≡ false
      → has_token new rows ≡ false
  unfolding any
  has_token-is_taken [] h k = refl
  has_token-is_taken (row ∷ rows) h k = ground (arith, has_token-is_taken rows)

  update_where-AreSound :
      (rows : List SessionRow)
      → expires_at ≤ max_expires_at
      → is_taken old new rows ≡ false
      → AreSound rows
      → AreSound (update_where (is_live old now) (set_token new expires_at max_expires_at) rows)
  unfolding any update_where is_live
  update_where-AreSound [] b h k = k
  update_where-AreSound (row ∷ rows) b h k = ground (
    arith,
    eq_iff row.token old,
    eq_iff row.token new,
    eq_iff new row.token,
    has_token-is_taken rows,
    has_token-update row.token rows,
    has_token-update new rows,
    update_where-AreSound rows,
  )

  pub update_live-AreSound :
      (s : World)
      → expires_at ≤ max_expires_at
      → AreSound s.sessions
      → AreSound (update_live old new expires_at max_expires_at now s).1.sessions
  unfolding update_live
  update_live-AreSound s b h = ground (arith, update_where-AreSound s.sessions)
