-- ===== src/Identity/Sessions.antt =====
-- `Session` of modules/identity/domain/src/identity/sessions/entity.rs and
-- `SqliteSessionRepository` of modules/identity/sqlx/src/identity/sessions/repository.rs. The table
-- refuses two rows with one `token` (its primary key) or one `pid` (unique).
pub mod Rows
pub mod Sound
use hegira.Base.{
  ℕ, String, Bool, true, false, ◌&&◌, ◌||◌, not, Option, none, some, List, [], ◌∷◌, ◌++◌, ltb, leb,
  ◌==◌, str_eq, is_none, if◌then◌else◌, find, any, retain, update_where, Result, ok, err,
}
use hegira.Base.Actions.{pure, raise, ◌>>=◌}
use hegira.Identity.Errors.{DomainError}
use hegira.Identity.Store.{
  UserRow, SessionRow, World, Repository, utc_now, new_token, statement, query, db_error,
}

pub record Session : Type 0 where
  pub pid : String
  pub token : String
  pub username : String
  pub created_at : ℕ
  pub expires_at : ℕ
  pub max_expires_at : ℕ

-- `WHERE username = ? AND deleted_at IS NULL`
unfoldable pub is_user : String → UserRow → Bool
is_user username row = str_eq row.username username && is_none row.deleted_at

-- `token = ? AND expires_at > ? AND max_expires_at > ?`
unfoldable pub is_live : String → ℕ → SessionRow → Bool
is_live token now row =
    str_eq row.token token && ltb now row.expires_at && ltb now row.max_expires_at

-- `map_sqlite_session`
abbrev pub map_session : SessionRow → UserRow → Session
map_session row user = record {
  pid = row.pid;
  token = row.token;
  username = user.username;
  created_at = row.created_at;
  expires_at = row.expires_at;
  max_expires_at = row.max_expires_at;
}

-- The join with `users`.
abbrev pub owner : List UserRow → SessionRow → Option UserRow
owner users row = find (λ user. user.id == row.user_id) users

unfoldable pub join_live : List UserRow → Option SessionRow → Option Session
join_live users none = none
join_live users (some row) = elim (owner users row) [
  | none ↦ none
  | some user ↦ if is_none user.deleted_at then some (map_session row user) else none
]

-- `find_by_token`
unfoldable pub find_by_token : String → Repository (Option Session)
find_by_token token = do
  now ← utc_now
  query (λ s. join_live s.users (find (is_live token now) s.sessions))

-- `exists`
unfoldable pub exists : String → Repository Bool
exists token = do now ← utc_now; query (λ s. any (is_live token now) s.sessions)

abbrev pub clashes : SessionRow → SessionRow → Bool
clashes new row = str_eq row.token new.token || str_eq row.pid new.pid

abbrev pub not_unique : String
not_unique = "UNIQUE constraint failed: sessions"

unfoldable pub add_session : SessionRow → World → Result String Bool × World
add_session row s =
    if any (clashes row) s.sessions
    then (err not_unique, s)
    else (ok true, record s { sessions = s.sessions ++ row ∷ [] })

-- The `INSERT … SELECT … FROM users` and whether it inserted a row.
unfoldable pub insert_for :
    Option UserRow → String → String → ℕ → ℕ → ℕ → World → Result String Bool × World
unfolding add_session
insert_for none pid token created_at expires_at max_expires_at s = (ok false, s)
insert_for (some user) pid token created_at expires_at max_expires_at s =
    add_session
      (record {
        pid = pid;
        token = token;
        user_id = user.id;
        created_at = created_at;
        expires_at = expires_at;
        max_expires_at = max_expires_at;
      })
      s

-- `insert`
unfoldable pub insert : String → String → ℕ → ℕ → Repository (Unit {0})
insert token username expires_at max_expires_at = do
  pid ← new_token
  created_at ← utc_now
  inserted ← statement db_error λ s.
      insert_for (find (is_user username) s.users) pid token created_at expires_at max_expires_at s
  if inserted then pure tt else raise (DomainError.not_found "User not found")

-- Rows that are not changed but have the new token already.
abbrev pub is_taken : String → String → List SessionRow → Bool
is_taken old_token new_token sessions =
    any (λ row. str_eq row.token new_token && not (str_eq row.token old_token)) sessions

abbrev pub set_token : String → ℕ → ℕ → SessionRow → SessionRow
set_token new_token expires_at max_expires_at row = record row {
  token = new_token;
  expires_at = expires_at;
  max_expires_at = max_expires_at;
}

unfoldable pub update_live : String → String → ℕ → ℕ → ℕ → World → Result String Bool × World
update_live old_token new_token expires_at max_expires_at now s =
    if any (is_live old_token now) s.sessions
    then if is_taken old_token new_token s.sessions then (err not_unique, s) else (
      ok true,
      record s {
        sessions =
            update_where (is_live old_token now) (set_token new_token expires_at max_expires_at)
              s.sessions;
      },
    )
    else (ok false, s)

-- `update_token`
unfoldable pub update_token : String → String → ℕ → ℕ → Repository Bool
update_token old_token new_token expires_at max_expires_at = do
  now ← utc_now
  statement db_error (update_live old_token new_token expires_at max_expires_at now)

-- `CASE WHEN ?1 < max_expires_at THEN ?1 ELSE max_expires_at END`
abbrev pub extend : ℕ → SessionRow → SessionRow
extend expires_at row = record row {
  expires_at = if ltb expires_at row.max_expires_at then expires_at else row.max_expires_at;
}

-- `refresh`
unfoldable pub refresh : String → ℕ → Repository Bool
refresh token expires_at = do
  now ← utc_now
  statement db_error λ s. (
    ok (any (is_live token now) s.sessions),
    record s { sessions = update_where (is_live token now) (extend expires_at) s.sessions },
  )

-- `delete`
unfoldable pub delete : String → Repository Bool
delete token = statement db_error λ s. (
  ok (any (λ row. str_eq row.token token) s.sessions),
  record s { sessions = retain (λ row. not (str_eq row.token token)) s.sessions },
)

insert_sorted : Session → List Session → List Session
insert_sorted a [] = a ∷ []
insert_sorted a (b ∷ rows) =
    if leb b.created_at a.created_at then a ∷ b ∷ rows else b ∷ insert_sorted a rows

owned_by : String → ℕ → SessionRow → Option UserRow → List Session
owned_by username now row none = []
owned_by username now row (some user) =
    if str_eq user.username username && ltb now row.expires_at && ltb now row.max_expires_at
    then map_session row user ∷ []
    else []

unfoldable pub sessions_of : String → ℕ → List UserRow → List SessionRow → List Session
unfolding insert_sorted owned_by
sessions_of username now users [] = []
sessions_of username now users (row ∷ rows) = elim (owned_by username now row (owner users row)) [
  | [] ↦ sessions_of username now users rows
  | session ∷ _ ↦ insert_sorted session (sessions_of username now users rows)
]

-- `list_for_user`; accounts that are deleted are not left out.
unfoldable pub list_for_user : String → Repository (List Session)
list_for_user username = do now ← utc_now; query (λ s. sessions_of username now s.users s.sessions)

unfoldable pub is_session_of : String → String → List UserRow → SessionRow → Bool
is_session_of username pid users row =
    str_eq row.pid pid && elim (find (λ user. str_eq user.username username) users) [
      | none ↦ false
      | some user ↦ row.user_id == user.id
    ]

-- `delete_for_user`
unfoldable pub delete_for_user : String → String → Repository Bool
delete_for_user username pid = statement db_error λ s. (
  ok (any (is_session_of username pid s.users) s.sessions),
  record s { sessions = retain (λ row. not (is_session_of username pid s.users row)) s.sessions },
)
