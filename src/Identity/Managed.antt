-- ===== src/Identity/Managed.antt =====
-- The methods of `ManagedUserWriter` that the administration of users calls, `create_managed_user` and
-- `update_managed_user` of modules/identity/sqlx/src/identity/users/sqlite_managed_writer.rs, and
-- `user_roles` of sqlite_repository.rs beside it.
use hegira.Base.{
  ℕ, ◌+◌, String, Bool, false, not, Option, none, some, List, [], ◌∷◌, ◌++◌, ◌==◌, str_eq, is_none,
  if◌then◌else◌, find, any, retain, update_where, Result, ok, err,
}
use hegira.Base.Actions.{◌>>=◌, ◌>>◌, pure, some_or, transaction}
use hegira.Identity.Errors.{ApplicationError}
use hegira.Identity.Store.{
  UserRow, World, Repository, Service, utc_now, new_token, statement, query, restore,
}
use hegira.Identity.Sessions.{is_user}
use hegira.Identity.Users.{User}
use hegira.Identity.Outbox.{writer_error, run, begin, commit, enqueue_upsert, roles_of}
use hegira.Identity.Writer.{fetch_user, when, changed}
use hegira.Identity.Roles.{is_role, insert_member, user_id_of}

pub record CreateManagedUser : Type 0 where
  pub username : String
  pub password_hash : String
  pub email_verified_at : Option ℕ
  pub roles : List String
  pub publish_search : Bool

pub record UpdateManagedUser : Type 0 where
  pub username : String
  pub password_hash : Option String
  pub email_verified_at : Option ℕ
  pub roles : List String
  pub publish_search : Bool

-- The roles of a standing user that stand, in their order.
unfoldable pub standing_of : World → List String → List String
standing_of s [] = []
standing_of s (name ∷ names) =
    let rest = standing_of s names in if any (is_role name) s.roles then name ∷ rest else rest

abbrev pub roles_of_user : World → Option UserRow → List String
roles_of_user s none = []
roles_of_user s (some user) = standing_of s (roles_of user.id s.user_roles)

-- `user_roles`
unfoldable pub user_roles : String → Repository (List String)
user_roles username = query (λ s. roles_of_user s (find (is_user username) s.users))

unfoldable pub insert_roles : ℕ → List String → Service (Unit {0})
insert_roles id [] = pure tt
insert_roles id (role ∷ roles) = do
  statement writer_error (insert_member id role)
  insert_roles id roles

-- `fetch_one` of the id: no row is an error.
abbrev pub id_or_error : Option ℕ → Result String ℕ
id_or_error none = err "no rows returned by a query that expected to return at least one row"
id_or_error (some id) = ok id

-- `set_roles`
unfoldable pub set_roles : String → List String → Service (Unit {0})
set_roles username roles = do
  id ←
      statement writer_error
        λ s. (id_or_error (user_id_of (find (λ user. str_eq user.username username) s.users)), s)
  run (λ s. (tt, record s { user_roles = retain (λ row. not (row.user_id == id)) s.user_roles }))
  insert_roles id roles

abbrev pub fresh_user : ℕ → String → ℕ → CreateManagedUser → UserRow
fresh_user id pid created_at command = record {
  id = id;
  pid = pid;
  username = command.username;
  password_hash = command.password_hash;
  created_at = created_at;
  reset_token = none;
  reset_sent_at = none;
  email_verification_token = none;
  email_verification_sent_at = none;
  email_verified_at = command.email_verified_at;
  magic_link_token = none;
  magic_link_expires_at = none;
  deleted_at = none;
  totp_secret = none;
  totp_enabled_at = none;
  totp_backup_code_hashes = [];
  totp_login_token = none;
  totp_login_expires_at = none;
  search_revision = 0;
  pending_email = none;
  email_change_token = none;
  email_change_sent_at = none;
  external_only = false;
}

-- What the conflict clause makes of a deleted row of the name.
abbrev pub revive : CreateManagedUser → UserRow → UserRow
revive command row = record row {
  password_hash = command.password_hash;
  email_verified_at = command.email_verified_at;
  reset_token = none;
  reset_sent_at = none;
  email_verification_token = none;
  email_verification_sent_at = none;
  magic_link_token = none;
  magic_link_expires_at = none;
  totp_secret = none;
  totp_enabled_at = none;
  totp_backup_code_hashes = [];
  totp_login_token = none;
  totp_login_expires_at = none;
  deleted_at = none;
  search_revision = row.search_revision + 1;
}

abbrev pub has_name : String → UserRow → Bool
has_name username row = str_eq row.username username

abbrev pub revived : CreateManagedUser → UserRow → World → Option ℕ × World
revived command old s = if is_none old.deleted_at then (none, s) else (
  some (old.search_revision + 1),
  record s { users = update_where (has_name command.username) (revive command) s.users },
)

-- `INSERT INTO users … ON CONFLICT (username) DO UPDATE … WHERE users.deleted_at IS NOT NULL`
unfoldable pub insert_or_revive :
    CreateManagedUser → String → ℕ → World → Result String (Option ℕ) × World
insert_or_revive command pid created_at s = elim (find (has_name command.username) s.users) [
  | some old ↦ let (revision, t) = revived command old s in (ok revision, t)
  | none ↦
      if any (λ old. str_eq old.pid pid) s.users
      then (err "UNIQUE constraint failed: users.pid", s)
      else (
        ok (some 0),
        record s {
          users = s.users ++ fresh_user s.next_id pid created_at command ∷ [];
          next_id = s.next_id + 1;
        },
      )
]

unfoldable pub create_managed_user : CreateManagedUser → Service User
create_managed_user command = transaction restore do
  begin
  pid ← new_token
  created_at ← utc_now
  inserted ← statement writer_error (insert_or_revive command pid created_at)
  revision ← some_or inserted (ApplicationError.conflict "user already exists")
  set_roles command.username command.roles
  found ← fetch_user command.username
  user ← some_or found (ApplicationError.unexpected "created user was not found")
  when command.publish_search (enqueue_upsert user command.roles revision)
  commit
  pure user

abbrev pub new_hash : Option String → String → String
new_hash none old = old
new_hash (some hash) old = hash

abbrev pub manage_row : UpdateManagedUser → UserRow → UserRow
manage_row command row = record row {
  password_hash = new_hash command.password_hash row.password_hash;
  email_verified_at = command.email_verified_at;
  search_revision = row.search_revision + 1;
}

-- The rest of the transaction for a user that was updated.
unfoldable pub finish_update : UpdateManagedUser → Option UserRow → Service (Option User)
finish_update command none = pure none
finish_update command (some row) = do
  set_roles command.username command.roles
  found ← fetch_user command.username
  user ← some_or found (ApplicationError.unexpected "updated user was not found")
  when command.publish_search (enqueue_upsert user command.roles row.search_revision)
  commit
  pure (some user)

unfoldable pub update_managed_user : UpdateManagedUser → Service (Option User)
update_managed_user command = transaction restore do
  begin
  row ← run λ s. (
    changed (manage_row command) (find (is_user command.username) s.users),
    record s { users = update_where (is_user command.username) (manage_row command) s.users },
  )
  finish_update command row
