-- ===== src/Identity/Users.antt =====
-- `User` of modules/identity/domain/src/identity/users/entity.rs and the methods of
-- `SqliteUserRepository` (modules/identity/sqlx/src/identity/users/sqlite_repository.rs) that the
-- authentication service calls.
use hegira.Base.{ℕ, String, ◌&&◌, Option, none, some, is_none, find}
use hegira.Base.Actions.{◌>>◌, pure}
use hegira.Identity.Store.{UserRow, Repository, query}
use hegira.Identity.Sessions.{is_user}
use hegira.Identity.TwoFactor.{is_equal, update_users}

pub record User : Type 0 where
  pub id : ℕ
  pub pid : String
  pub username : String
  pub password_hash : String
  pub created_at : ℕ
  pub reset_token : Option String
  pub reset_sent_at : Option ℕ
  pub email_verification_token : Option String
  pub email_verification_sent_at : Option ℕ
  pub email_verified_at : Option ℕ
  pub magic_link_token : Option String
  pub magic_link_expires_at : Option ℕ

-- `map_user`
unfoldable pub map_user : Option UserRow → Option User
map_user none = none
map_user (some row) = some (record {
  id = row.id;
  pid = row.pid;
  username = row.username;
  password_hash = row.password_hash;
  created_at = row.created_at;
  reset_token = row.reset_token;
  reset_sent_at = row.reset_sent_at;
  email_verification_token = row.email_verification_token;
  email_verification_sent_at = row.email_verification_sent_at;
  email_verified_at = row.email_verified_at;
  magic_link_token = row.magic_link_token;
  magic_link_expires_at = row.magic_link_expires_at;
})

-- `find_by_username`
unfoldable pub find_by_username : String → Repository (Option User)
find_by_username username = query (λ s. map_user (find (is_user username) s.users))

-- `find_by_token_column`: the column is given by what it holds.
unfoldable pub find_by_token_column : (UserRow → Option String) → String → Repository (Option User)
find_by_token_column column token =
    query
      λ s. map_user (find (λ row. is_equal (column row) token && is_none row.deleted_at) s.users)

unfoldable pub find_by_reset_token : String → Repository (Option User)
find_by_reset_token token = find_by_token_column (λ row. row.reset_token) token

unfoldable pub find_by_magic_link_token : String → Repository (Option User)
find_by_magic_link_token token = find_by_token_column (λ row. row.magic_link_token) token

abbrev pub put_verification : String → ℕ → UserRow → UserRow
put_verification token sent_at row = record row {
  email_verification_token = some token;
  email_verification_sent_at = some sent_at;
}

abbrev pub put_reset : String → ℕ → UserRow → UserRow
put_reset token sent_at row = record row { reset_token = some token; reset_sent_at = some sent_at }

abbrev pub put_magic_link : String → ℕ → UserRow → UserRow
put_magic_link token expires_at row = record row {
  magic_link_token = some token;
  magic_link_expires_at = some expires_at;
}

-- `update_token_fields`: the two columns are given by how they are set.
unfoldable pub update_token_fields : (UserRow → UserRow) → String → Repository (Unit {0})
update_token_fields put username = update_users (is_user username) put >> pure tt

unfoldable pub set_email_verification : String → String → ℕ → Repository (Unit {0})
set_email_verification username token sent_at =
    update_token_fields (put_verification token sent_at) username

unfoldable pub set_reset_token : String → String → ℕ → Repository (Unit {0})
set_reset_token username token sent_at = update_token_fields (put_reset token sent_at) username

unfoldable pub set_magic_link : String → String → ℕ → Repository (Unit {0})
set_magic_link username token expires_at =
    update_token_fields (put_magic_link token expires_at) username

-- `reset_password`
unfoldable pub reset_password_row : String → UserRow → UserRow
reset_password_row password_hash row = record row {
  password_hash = password_hash;
  reset_token = none;
  reset_sent_at = none;
}

unfoldable pub reset_password : String → String → Repository (Unit {0})
reset_password username password_hash =
    update_users (is_user username) (reset_password_row password_hash) >> pure tt

-- `clear_magic_link`
unfoldable pub clear_magic_link : String → Repository (Unit {0})
clear_magic_link username =
    update_users (is_user username)
      (λ row. record row { magic_link_token = none; magic_link_expires_at = none })
    >> pure tt
