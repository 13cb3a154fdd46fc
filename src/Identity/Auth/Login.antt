-- ===== src/Identity/Auth/Login.antt =====
-- The logins of modules/identity/application/src/identity/auth/service.rs: by password, by magic
-- link, and the second step with a one-time password or a backup code.
use hegira.Base.{
  ℕ, ◌+◌, ◌*◌, String, Bool, true, false, not, Option, none, some, List, [], ◌∷◌, ◌++◌, ltb, str_eq,
  ◌||◌, is_some, if◌then◌else◌,
}
use hegira.Base.Actions.{◌>>=◌, ◌>>◌, pure, gets, lift, some_or, raise_if}
use hegira.Identity.Errors.{ApplicationError, ApplicationErrorKind, coded}
use hegira.Identity.Validation.{optional_username}
use hegira.Identity.Mail.{render, magic_link_mail}
use hegira.Identity.Store.{Service, utc_now, new_token}
use hegira.Identity.Users.{
  User, find_by_username, find_by_magic_link_token, set_magic_link, clear_magic_link,
}
use hegira.Identity.TwoFactor.{
  TwoFactorCredential, credential_by_username, credential_by_login_token, set_login_token,
  consume_login_token, consume_backup_code_hashes,
}
use hegira.Identity.Writer.{set_magic_link_with_mail}
use hegira.Identity.Auth.{via, send, try_outside, verify_hash, create_session}

abbrev pub five_minutes : ℕ
five_minutes = 5 * 60_000_000_000

pub record LoginResultDto : Type 0 where
  pub token : Option String
  pub totp_required : Bool
  pub totp_token : Option String

abbrev pub authenticated : String → LoginResultDto
authenticated token = record { token = some token; totp_required = false; totp_token = none }

abbrev pub totp_required : String → LoginResultDto
totp_required totp_token = record {
  token = none;
  totp_required = true;
  totp_token = some totp_token;
}

abbrev pub invalid_totp_code : ApplicationError
invalid_totp_code = coded ApplicationErrorKind.validation "totp:invalid_code" "Invalid TOTP code"

abbrev pub invalid_totp_token : ApplicationError
invalid_totp_token =
    coded ApplicationErrorKind.unauthorized "totp:temp_token_invalid" "Invalid TOTP token"

unfoldable pub send_magic_link : Option User → Service (Unit {0})
send_magic_link none = pure tt
send_magic_link (some user) = do
  token ← new_token
  now ← utc_now
  mail ← gets (λ r s. magic_link_mail user.username r.app_name r.public_url token)
  durable_mail ← gets (λ r s. r.durable_mail)
  if durable_mail
      then set_magic_link_with_mail user.username token (now + five_minutes) mail >> pure tt
      else do via (set_magic_link user.username token (now + five_minutes)); send (render mail)

unfoldable pub request_magic_link : String → Service (Unit {0})
request_magic_link username = do
  given ← lift (optional_username username)
  if given then (do found ← via (find_by_username username); send_magic_link found) else pure tt

-- `is_none_or(|expires_at| expires_at < now)`
abbrev pub is_expired : Option ℕ → ℕ → Bool
is_expired none now = true
is_expired (some expires_at) now = ltb expires_at now

unfoldable pub verify_magic_link : String → Service String
verify_magic_link token = do
  found ← via (find_by_magic_link_token token)
  user ← some_or found ApplicationError.unauthorized
  now ← utc_now
  raise_if (is_expired user.magic_link_expires_at now) ApplicationError.unauthorized
  via (clear_magic_link user.username)
  create_session user.username

-- `.and_then(|credential| credential.enabled_at).is_some()`
abbrev pub is_enabled : Option TwoFactorCredential → Bool
is_enabled none = false
is_enabled (some credential) = is_some credential.enabled_at

-- The end of `login`, for a user whose password is right.
unfoldable pub start_session : String → Bool → Service LoginResultDto
start_session username true = do
  totp_token ← new_token
  now ← utc_now
  set ← via (set_login_token username totp_token (now + five_minutes))
  raise_if (not set) ApplicationError.unauthorized
  pure (totp_required totp_token)
start_session username false = do token ← create_session username; pure (authenticated token)

unfoldable pub login : String → String → Service LoginResultDto
login username password = do
  raise_if (str_eq username "" || str_eq password "") ApplicationError.unauthorized
  found ← via (find_by_username username)
  user ← some_or found ApplicationError.unauthorized
  verified ← verify_hash password user.password_hash
  raise_if (not verified) ApplicationError.unauthorized
  credential ← via (credential_by_username user.username)
  start_session user.username (is_enabled credential)

-- `verify_totp_code`
unfoldable pub verify_totp_code : String → String → String → Service Bool
verify_totp_code secret username code =
    try_outside (λ r t. r.check_totp_at t secret username r.app_name code)

-- The loop over the hashes: those before the current one, and those from it on.
unfoldable pub try_backup_codes :
    TwoFactorCredential → String → List String → List String → Service Bool
try_backup_codes credential code passed [] = pure false
try_backup_codes credential code passed (hash ∷ hashes) = do
  verified ← verify_hash code hash
  if verified
      then via (
          consume_backup_code_hashes credential.username credential.backup_code_hashes
            (passed ++ hashes))
      else try_backup_codes credential code (passed ++ hash ∷ []) hashes

unfoldable pub verify_totp_or_backup_code : TwoFactorCredential → String → Service Bool
verify_totp_or_backup_code credential code = do
  verified ← verify_totp_code credential.secret credential.username code
  if verified then pure true else try_backup_codes credential code [] credential.backup_code_hashes

unfoldable pub verify_totp_login : String → String → Service String
verify_totp_login totp_token code = do
  found ← via (credential_by_login_token totp_token)
  credential ← some_or found invalid_totp_token
  verified ← verify_totp_or_backup_code credential code
  raise_if (not verified) invalid_totp_code
  consumed ← via (consume_login_token credential.username totp_token)
  raise_if (not consumed) invalid_totp_token
  create_session credential.username
