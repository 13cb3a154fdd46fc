-- ===== src/Identity/Auth/Totp.antt =====
-- The two-factor settings of modules/identity/application/src/identity/auth/service.rs.
use Prim.Native.Char.{code}
use Prim.Native.String.{◌++◌, slice}
use hegira.Base.{ℕ, zero, suc, String, Bool, not, none, List, [], ◌∷◌, ◌==◌, if◌then◌else◌}
use hegira.Base.Actions.{◌>>=◌, ◌>>◌, pure, some_or, raise_if}
use hegira.Identity.Errors.{ApplicationErrorKind, coded, user_not_found, localized_not_found}
use hegira.Identity.Store.{Service, outside, utc_now}
use hegira.Identity.TwoFactor.{
  credential_by_username, set_setup_secret, enable, disable, replace_backup_code_hashes,
}
use hegira.Identity.Auth.{via, try_outside, hash, current_user}
use hegira.Identity.Auth.Login.{
  invalid_totp_code, is_enabled, verify_totp_code, verify_totp_or_backup_code,
}

pub record TotpSetupDto : Type 0 where
  pub secret : String
  pub otpauth_url : String

pub record TotpEnableDto : Type 0 where
  pub backup_codes : List String

pub record TotpStatusDto : Type 0 where
  pub enabled : Bool

unfoldable pub setup_totp : String → Service TotpSetupDto
setup_totp actor_token = do
  current ← current_user actor_token
  secret ← outside (λ r t. r.totp_secret_at t)
  set ← via (set_setup_secret current.username secret)
  raise_if (not set) (localized_not_found user_not_found)
  url ← try_outside (λ r t. r.totp_url secret current.username r.app_name)
  pure (record { secret = secret; otpauth_url = url })

upper_char : ℕ → String → String
upper_char c s =
    if c == b'a'
    then "A"
    else if c == b'b'
    then "B"
    else if c == b'c'
    then "C"
    else if c == b'd'
    then "D"
    else if c == b'e'
    then "E"
    else if c == b'f'
    then "F"
    else s

-- `to_uppercase` of hexadecimal digits.
unfoldable pub to_uppercase : String → String
unfolding upper_char
to_uppercase String.[] = ""
to_uppercase (String.◌∷◌ c s) = upper_char (code c) (String.◌∷◌ c "") ++ to_uppercase s

abbrev pub format_code : String → String
format_code raw = slice raw 0 4 ++ "-" ++ slice raw 4 8 ++ "-" ++ slice raw 8 12

unfoldable pub generate_codes : ℕ → Service (List String)
generate_codes zero = pure []
generate_codes (suc n) = do
  raw ← outside (λ r t. to_uppercase (r.simple_uuid_at t))
  codes ← generate_codes n
  pure (format_code raw ∷ codes)

unfoldable pub generate_backup_codes : Service (List String)
generate_backup_codes = generate_codes 10

unfoldable pub hash_all : List String → Service (List String)
hash_all [] = pure []
hash_all (code ∷ codes) = do first ← hash code; hashes ← hash_all codes; pure (first ∷ hashes)

unfoldable pub enable_totp : String → String → Service TotpEnableDto
enable_totp actor_token code = do
  current ← current_user actor_token
  found ← via (credential_by_username current.username)
  credential ←
      some_or found
        (coded ApplicationErrorKind.validation "totp:not_configured" "TOTP is not configured")
  verified ← verify_totp_code credential.secret current.username code
  raise_if (not verified) invalid_totp_code
  backup_codes ← generate_backup_codes
  hashes ← hash_all backup_codes
  now ← utc_now
  enabled ← via (enable current.username now hashes)
  raise_if (not enabled) (localized_not_found user_not_found)
  pure (record { backup_codes = backup_codes })

unfoldable pub disable_totp : String → String → Service (Unit {0})
disable_totp actor_token code = do
  current ← current_user actor_token
  found ← via (credential_by_username current.username)
  credential ← some_or found invalid_totp_code
  verified ← verify_totp_or_backup_code credential code
  raise_if (not verified) invalid_totp_code
  disabled ← via (disable current.username)
  raise_if (not disabled) (localized_not_found user_not_found)

unfoldable pub regenerate_totp_backup_codes : String → String → Service TotpEnableDto
regenerate_totp_backup_codes actor_token code = do
  current ← current_user actor_token
  found ← via (credential_by_username current.username)
  credential ← some_or (if is_enabled found then found else none) invalid_totp_code
  verified ← verify_totp_or_backup_code credential code
  raise_if (not verified) invalid_totp_code
  backup_codes ← generate_backup_codes
  hashes ← hash_all backup_codes
  via (replace_backup_code_hashes current.username hashes)
  pure (record { backup_codes = backup_codes })

unfoldable pub totp_status : String → Service TotpStatusDto
totp_status actor_token = do
  current ← current_user actor_token
  found ← via (credential_by_username current.username)
  pure (record { enabled = is_enabled found })
