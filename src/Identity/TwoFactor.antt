-- ===== src/Identity/TwoFactor.antt =====
-- `TwoFactorCredential` of modules/identity/domain/src/identity/two_factor/entity.rs and
-- `SqliteTwoFactorRepository` of modules/identity/sqlx/src/identity/two_factor/sqlite_repository.rs.
-- The JSON text of `totp_backup_code_hashes` is the list that it stands for.
use hegira.Base.{
  ℕ, String, Bool, true, false, ◌&&◌, Option, none, some, List, [], ◌∷◌, ltb, str_eq, is_none,
  is_some, find, any, update_where, ok,
}
use hegira.Base.Actions.{◌>>=◌, ◌>>◌, pure}
use hegira.Identity.Store.{UserRow, Repository, utc_now, statement, query, db_error}
use hegira.Identity.Sessions.{is_user}

pub record TwoFactorCredential : Type 0 where
  pub username : String
  pub secret : String
  pub enabled_at : Option ℕ
  pub backup_code_hashes : List String

-- `map_credential`, of a row whose `totp_secret` is not null.
unfoldable pub map_credential : Option UserRow → Option TwoFactorCredential
map_credential none = none
map_credential (some row) = elim row.totp_secret [
  | none ↦ none
  | some secret ↦ some (record {
    username = row.username;
    secret = secret;
    enabled_at = row.totp_enabled_at;
    backup_code_hashes = row.totp_backup_code_hashes;
  })
]

abbrev pub is_equal : Option String → String → Bool
is_equal none s = false
is_equal (some t) s = str_eq t s

-- `column > now`, which NULL is not.
abbrev pub is_after : Option ℕ → ℕ → Bool
is_after none now = false
is_after (some t) now = ltb now t

abbrev pub same_texts : List String → List String → Bool
same_texts [] [] = true
same_texts (s ∷ ss) (t ∷ ts) = str_eq s t && same_texts ss ts
same_texts _ _ = false

-- An `UPDATE users SET f WHERE p` and whether it changed a row.
unfoldable pub update_users : (UserRow → Bool) → (UserRow → UserRow) → Repository Bool
update_users p f =
    statement db_error λ s. (ok (any p s.users), record s { users = update_where p f s.users })

-- `credential_by_username`
unfoldable pub credential_by_username : String → Repository (Option TwoFactorCredential)
credential_by_username username =
    query
      λ s. map_credential (find (λ row. is_user username row && is_some row.totp_secret) s.users)

unfoldable pub is_awaiting : String → ℕ → UserRow → Bool
is_awaiting token now row =
    is_equal row.totp_login_token token
    && is_after row.totp_login_expires_at now
    && is_none row.deleted_at

-- `credential_by_login_token`
unfoldable pub credential_by_login_token : String → Repository (Option TwoFactorCredential)
credential_by_login_token token = do
  now ← utc_now
  query λ s. map_credential (
      find
        (λ row. is_awaiting token now row && is_some row.totp_secret && is_some row.totp_enabled_at)
        s.users)

-- `set_setup_secret`
unfoldable pub set_setup_secret : String → String → Repository Bool
set_setup_secret username secret = update_users (is_user username) λ row. record row {
  totp_secret = some secret;
  totp_enabled_at = none;
  totp_backup_code_hashes = [];
  totp_login_token = none;
  totp_login_expires_at = none;
}

-- `enable`
unfoldable pub enable : String → ℕ → List String → Repository Bool
enable username enabled_at hashes =
    update_users (λ row. is_user username row && is_some row.totp_secret)
      λ row. record row {
        totp_enabled_at = some enabled_at;
        totp_backup_code_hashes = hashes;
        totp_login_token = none;
        totp_login_expires_at = none;
      }

-- `disable`
unfoldable pub disable : String → Repository Bool
disable username = update_users (is_user username) λ row. record row {
  totp_secret = none;
  totp_enabled_at = none;
  totp_backup_code_hashes = [];
  totp_login_token = none;
  totp_login_expires_at = none;
}

-- `set_login_token`
unfoldable pub set_login_token : String → String → ℕ → Repository Bool
set_login_token username token expires_at =
    update_users
      (λ row. is_user username row && is_some row.totp_secret && is_some row.totp_enabled_at)
      λ row. record row { totp_login_token = some token; totp_login_expires_at = some expires_at }

-- `consume_login_token`
unfoldable pub consume_login_token : String → String → Repository Bool
consume_login_token username token = do
  now ← utc_now
  update_users (λ row. str_eq row.username username && is_awaiting token now row)
      λ row. record row { totp_login_token = none; totp_login_expires_at = none }

-- `replace_backup_code_hashes`
unfoldable pub replace_backup_code_hashes : String → List String → Repository (Unit {0})
replace_backup_code_hashes username hashes =
    update_users (is_user username) (λ row. record row { totp_backup_code_hashes = hashes })
    >> pure tt

-- `consume_backup_code_hashes`
unfoldable pub consume_backup_code_hashes : String → List String → List String → Repository Bool
consume_backup_code_hashes username expected remaining =
    update_users (λ row. is_user username row && same_texts row.totp_backup_code_hashes expected)
      λ row. record row { totp_backup_code_hashes = remaining }
