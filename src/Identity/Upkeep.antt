-- ===== src/Identity/Upkeep.antt =====
-- `delete_expired_sqlite` of modules/identity/sqlx/src/identity/cleanup.rs: the removal of rows that are
-- over, which runs from time to time.
pub mod Unnoticed
use hegira.Base.{ℕ, ◌+◌, String, Bool, not, ◌||◌, ltb, retain, length, ok}
use hegira.Base.Actions.{Action, ◌>>=◌, ◌>>◌, pure, transaction}
use hegira.Identity.Store.{SessionRow, World, IdentityServices, utc_now, statement, restore}

-- The errors of the database are handed on as they are.
abbrev pub Task : Type 0 → Type 0
Task A = Action IdentityServices World String A

abbrev pub as_is : String → String
as_is e = e

abbrev pub session_is_over : ℕ → SessionRow → Bool
session_is_over now row = ltb row.expires_at now || ltb row.max_expires_at now

unfoldable pub delete_sessions : ℕ → Task ℕ
delete_sessions now = statement as_is λ s. (
  ok (length (retain (session_is_over now) s.sessions)),
  record s { sessions = retain (λ row. not (session_is_over now row)) s.sessions },
)

unfoldable pub delete_states : ℕ → Task ℕ
delete_states now = statement as_is λ s. (
  ok (length (retain (λ row. ltb row.expires_at now) s.oauth_states)),
  record s { oauth_states = retain (λ row. not (ltb row.expires_at now)) s.oauth_states },
)

unfoldable pub delete_signups : ℕ → Task ℕ
delete_signups now = statement as_is λ s. (
  ok (length (retain (λ row. ltb row.expires_at now) s.oauth_signups)),
  record s { oauth_signups = retain (λ row. not (ltb row.expires_at now)) s.oauth_signups },
)

-- The transaction, with the instant that it is for.
unfoldable pub delete_before : ℕ → Task ℕ
delete_before now = transaction restore do
  statement as_is (λ s. (ok tt, s))
  sessions ← delete_sessions now
  states ← delete_states now
  signups ← delete_signups now
  statement as_is (λ s. (ok tt, s))
  pure (sessions + states + signups)

unfoldable pub delete_expired : Task ℕ
delete_expired = do now ← utc_now; delete_before now
