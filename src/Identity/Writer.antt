-- ===== src/Identity/Writer.antt =====
-- The methods of `ManagedUserWriter` that the authentication service calls, in
-- modules/identity/sqlx/src/identity/users/sqlite_managed_writer.rs. Each is one transaction.
use hegira.Base.{
  ℕ, ◌+◌, ◌-◌, ◌*◌, String, Bool, true, false, ◌&&◌, Option, none, some, [], ◌∷◌, ◌++◌, ◌==◌,
  str_eq, is_none, if◌then◌else◌, find, any, retain, length, update_where, Result, ok, err,
}
use hegira.Base.Actions.{◌>>=◌, ◌>>◌, pure, some_or, transaction}
use hegira.Identity.Errors.{ApplicationError}
use hegira.Identity.Mail.{TransactionalMail}
use hegira.Identity.Store.{UserRow, World, Service, utc_now, new_token, statement, restore}
use hegira.Identity.Sessions.{is_user}
use hegira.Identity.TwoFactor.{is_equal, is_after}
use hegira.Identity.Users.{User, map_user, put_verification, put_reset, put_magic_link}
use hegira.Identity.Outbox.{
  writer_error, run, begin, commit, enqueue_mail, enqueue_upsert, roles_of,
}

pub record RegisterManagedUser : Type 0 where
  pub username : String
  pub password_hash : String
  pub verification_token : String
  pub verification_sent_at : ℕ
  pub publish_search : Bool
  pub mail : Option TransactionalMail

unfoldable pub fetch_user : String → Service (Option User)
fetch_user username = run (λ s. (map_user (find (is_user username) s.users), s))

abbrev pub new_user : ℕ → String → ℕ → RegisterManagedUser → UserRow
new_user id pid created_at command = record {
  id = id;
  pid = pid;
  username = command.username;
  password_hash = command.password_hash;
  created_at = created_at;
  reset_token = none;
  reset_sent_at = none;
  email_verification_token = some command.verification_token;
  email_verification_sent_at = some command.verification_sent_at;
  email_verified_at = none;
  magic_link_token = none;
  magic_link_expires_at = none;
  deleted_at = none;
  totp_secret = none;
  totp_enabled_at = none;
  totp_backup_code_hashes = [];
  totp_login_token = none;
  totp_login_expires_at = none;
  search_revision = 0;
  pending_email = none;
  email_change_token = none;
  email_change_sent_at = none;
  external_only = false;
}

-- `INSERT INTO users … ON CONFLICT (username) DO NOTHING RETURNING search_revision`
unfoldable pub insert_user : UserRow → World → Result String (Option ℕ) × World
insert_user row s =
    if any (λ old. str_eq old.username row.username) s.users
    then (ok none, s)
    else if any (λ old. str_eq old.pid row.pid) s.users
    then (err "UNIQUE constraint failed: users.pid", s)
    else (
      ok (some row.search_revision),
      record s { users = s.users ++ row ∷ []; next_id = s.next_id + 1 },
    )

-- `if publish_search { enqueue_upsert … }` and `if let Some(mail) = mail { enqueue_mail … }`
abbrev pub when : Bool → Service (Unit {0}) → Service (Unit {0})
when b m = if b then m else pure tt

unfoldable pub mail_if_some : Option TransactionalMail → String → String → ℕ → Service (Unit {0})
mail_if_some none purpose username timestamp = pure tt
mail_if_some (some mail) purpose username timestamp = enqueue_mail mail purpose username timestamp

unfoldable pub register_managed_user : RegisterManagedUser → Service User
register_managed_user command = transaction restore do
  begin
  pid ← new_token
  created_at ← utc_now
  inserted ← statement writer_error λ s. insert_user (new_user s.next_id pid created_at command) s
  revision ← some_or inserted (ApplicationError.conflict "user already exists")
  found ← fetch_user command.username
  user ← some_or found (ApplicationError.unexpected "registered user was not found")
  when command.publish_search (enqueue_upsert user [] revision)
  mail_if_some command.mail "verify_email" command.username command.verification_sent_at
  commit
  pure user

-- The user of a change that is published, and its new document.
unfoldable pub publish : Bool → String → String → ℕ → Service (Unit {0})
publish false missing username revision = pure tt
publish true missing username revision = do
  found ← fetch_user username
  user ← some_or found (ApplicationError.unexpected missing)
  roles ← run (λ s. (roles_of user.id s.user_roles, s))
  enqueue_upsert user roles revision

abbrev pub hour : ℕ
hour = 3_600_000_000_000

unfoldable pub is_verifying : String → ℕ → UserRow → Bool
is_verifying token verified_at row =
    is_equal row.email_verification_token token
    && is_after row.email_verification_sent_at (verified_at - 24 * hour)
    && is_none row.deleted_at

abbrev pub verify_row : ℕ → UserRow → UserRow
verify_row verified_at row = record row {
  email_verified_at = some verified_at;
  email_verification_token = none;
  email_verification_sent_at = none;
  search_revision = row.search_revision + 1;
}

-- The row that `RETURNING` gives.
abbrev pub changed : (UserRow → UserRow) → Option UserRow → Option UserRow
changed f none = none
changed f (some row) = some (f row)

-- Commits what was done to a row, if there is one.
unfoldable pub publish_changed : Option UserRow → Bool → String → Service Bool
publish_changed none publish_search missing = pure false
publish_changed (some row) publish_search missing = do
  publish publish_search missing row.username row.search_revision
  commit
  pure true

unfoldable pub verify_managed_email : String → ℕ → Bool → Service Bool
verify_managed_email token verified_at publish_search = transaction restore do
  begin
  row ← run λ s. (
    changed (verify_row verified_at) (find (is_verifying token verified_at) s.users),
    record s {
      users = update_where (is_verifying token verified_at) (verify_row verified_at) s.users;
    },
  )
  publish_changed row publish_search "verified user was not found"

-- `update_token_with_mail`: the columns are given by how they are set, `extra` is the predicate.
unfoldable pub update_token_with_mail :
    (UserRow → UserRow) → (UserRow → Bool) → String → ℕ → TransactionalMail → String → Service Bool
update_token_with_mail put extra username time mail purpose = transaction restore do
  begin
  updated ← run λ s. (
    length (retain (λ row. is_user username row && extra row) s.users) == 1,
    record s { users = update_where (λ row. is_user username row && extra row) put s.users },
  )
  when updated (enqueue_mail mail purpose username time)
  commit
  pure updated

unfoldable pub set_reset_token_with_mail : String → String → ℕ → TransactionalMail → Service Bool
set_reset_token_with_mail username token sent_at mail =
    update_token_with_mail (put_reset token sent_at) (λ row. true) username sent_at mail
      "reset_password"

unfoldable pub set_verification_with_mail : String → String → ℕ → TransactionalMail → Service Bool
set_verification_with_mail username token sent_at mail =
    update_token_with_mail (put_verification token sent_at) (λ row. is_none row.email_verified_at)
      username sent_at mail "verify_email"

unfoldable pub set_magic_link_with_mail : String → String → ℕ → TransactionalMail → Service Bool
set_magic_link_with_mail username token expires_at mail =
    update_token_with_mail (put_magic_link token expires_at) (λ row. true) username expires_at mail
      "magic_link"
