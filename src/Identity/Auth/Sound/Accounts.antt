-- ===== src/Identity/Auth/Sound/Accounts.antt =====
-- The sessions stay sound: the operations on accounts and two-factor settings.
use hegira.Base.{ℕ, zero, suc, String, Option, none, some, List, [], ◌∷◌, Result, ok, err}
use hegira.Base.Keeps.{Keeps, Keeps-bind, Keeps-pure}
use hegira.Identity.Errors.{ApplicationError}
use hegira.Identity.Store.{World, Service}
use hegira.Identity.Sessions.{Session}
use hegira.Identity.Sessions.Sound.{HasSoundSessions, outside-Sound, delete_for_user-Sound}
use hegira.Identity.Users.{
  User, find_by_username, find_by_reset_token, find_by_token_column, set_email_verification,
  set_reset_token, set_magic_link, update_token_fields,
}
use hegira.Identity.Users
use hegira.Identity.TwoFactor.{
  credential_by_username, set_setup_secret, enable, disable, replace_backup_code_hashes,
}
use hegira.Identity.Writer.{
  set_reset_token_with_mail, set_verification_with_mail, set_magic_link_with_mail,
}
use hegira.Identity.Auth.{CurrentUserDto, hash, verify_hash}
use hegira.Identity.Auth.Accounts.{
  already_exists, conflict_as_existing, register, verify_email, user_of, resend_verification,
  delete_sessions, delete_account, send_reset, forgot_password, reset_password, change_password,
  request_email_change, confirm_email_change,
}
use hegira.Identity.Auth.Login.{send_magic_link, request_magic_link, verify_totp_code}
use hegira.Identity.Auth.Totp.{
  setup_totp, generate_codes, generate_backup_codes, hash_all, enable_totp, disable_totp,
  regenerate_totp_backup_codes, totp_status,
}
use hegira.Identity.Auth.Sound.{
  service_rules, via-Sound, try_outside-Sound, current_user-Sound, verify_totp_or_backup_code-Sound,
}
use hegira.Identity.Auth.Sound.Writes.{
  register_managed_user-Sound, verify_managed_email-Sound, update_token_with_mail-Sound,
  request_email_change-Sound, confirm_email_change-Sound, delete_managed_user-Sound,
}

already_exists-Sound :
    {A : Type 0} (m : Result ApplicationError A × World)
    → HasSoundSessions m.1
    → HasSoundSessions (already_exists m).1
already_exists-Sound (ok a, s) h = h
already_exists-Sound (err (ApplicationError.validation _), s) h = h
already_exists-Sound (err (ApplicationError.conflict _), s) h = h
already_exists-Sound (err (ApplicationError.not_found _), s) h = h
already_exists-Sound (err (ApplicationError.forbidden _), s) h = h
already_exists-Sound (err (ApplicationError.infrastructure _), s) h = h
already_exists-Sound (err (ApplicationError.unexpected _), s) h = h
already_exists-Sound (err ApplicationError.unauthorized, s) h = h
already_exists-Sound (err (ApplicationError.coded _ _ _), s) h = h

pub conflict_as_existing-Sound :
    {A : Type 0} (m : Service A)
    → Keeps HasSoundSessions m
    → Keeps HasSoundSessions (conflict_as_existing m)
unfolding conflict_as_existing
conflict_as_existing-Sound m km = record {
  at = λ r s h. already_exists-Sound (m r s) (km.at r s h);
}

ruleset request_rules = (
  service_rules, current_user-Sound, conflict_as_existing-Sound, register_managed_user-Sound,
  verify_managed_email-Sound, update_token_with_mail-Sound, request_email_change-Sound,
  confirm_email_change-Sound, delete_managed_user-Sound, verify_totp_or_backup_code-Sound,
)

pub register-Sound :
    (username password : String) → Keeps HasSoundSessions (register username password)
unfolding register hash
register-Sound username password = search request_rules depth 30

pub verify_email-Sound : (token : String) → Keeps HasSoundSessions (verify_email token)
unfolding verify_email
verify_email-Sound token = search request_rules depth 20

pub user_of-Sound : (current : CurrentUserDto) → Keeps HasSoundSessions (user_of current)
unfolding user_of find_by_username
user_of-Sound current = search request_rules depth 20

pub resend_verification-Sound :
    (token : String) → Keeps HasSoundSessions (resend_verification token)
unfolding resend_verification set_verification_with_mail set_email_verification update_token_fields
resend_verification-Sound token = search (request_rules, user_of-Sound) depth 30

pub delete_sessions-Sound :
    (username : String) (sessions : List Session)
    → Keeps HasSoundSessions (delete_sessions username sessions)
unfolding delete_sessions
delete_sessions-Sound username [] = Keeps-pure tt
delete_sessions-Sound username (session ∷ sessions) =
    Keeps-bind _ _ (via-Sound _ (delete_for_user-Sound username session.pid))
      λ _. delete_sessions-Sound username sessions

pub delete_account-Sound :
    (token password : String) → Keeps HasSoundSessions (delete_account token password)
unfolding delete_account verify_hash
delete_account-Sound token password =
    search (request_rules, user_of-Sound, delete_sessions-Sound) depth 30

pub send_reset-Sound : (user : Option User) → Keeps HasSoundSessions (send_reset user)
unfolding send_reset set_reset_token_with_mail set_reset_token update_token_fields
send_reset-Sound none = Keeps-pure tt
send_reset-Sound (some user) = search request_rules depth 30

pub forgot_password-Sound : (username : String) → Keeps HasSoundSessions (forgot_password username)
unfolding forgot_password find_by_username
forgot_password-Sound username = search (request_rules, send_reset-Sound) depth 20

pub reset_password-Sound :
    (token password : String) → Keeps HasSoundSessions (reset_password token password)
unfolding reset_password find_by_reset_token find_by_token_column hash Users.reset_password
reset_password-Sound token password = search request_rules depth 20

pub change_password-Sound :
    (token old new : String) → Keeps HasSoundSessions (change_password token old new)
unfolding change_password verify_hash hash Users.reset_password
change_password-Sound token old new = search (request_rules, user_of-Sound) depth 30

pub request_email-Sound :
    (token email password : String)
    → Keeps HasSoundSessions (request_email_change token email password)
unfolding request_email_change verify_hash
request_email-Sound token email password = search (request_rules, user_of-Sound) depth 40

pub confirm_email-Sound : (token : String) → Keeps HasSoundSessions (confirm_email_change token)
unfolding confirm_email_change
confirm_email-Sound token = search request_rules depth 20

pub send_magic_link-Sound : (user : Option User) → Keeps HasSoundSessions (send_magic_link user)
unfolding send_magic_link set_magic_link_with_mail set_magic_link update_token_fields
send_magic_link-Sound none = Keeps-pure tt
send_magic_link-Sound (some user) = search request_rules depth 30

pub request_magic_link-Sound :
    (username : String) → Keeps HasSoundSessions (request_magic_link username)
unfolding request_magic_link find_by_username
request_magic_link-Sound username = search (request_rules, send_magic_link-Sound) depth 20

pub setup_totp-Sound : (token : String) → Keeps HasSoundSessions (setup_totp token)
unfolding setup_totp set_setup_secret
setup_totp-Sound token = search request_rules depth 20

pub generate_codes-Sound : (n : ℕ) → Keeps HasSoundSessions (generate_codes n)
unfolding generate_codes
generate_codes-Sound zero = Keeps-pure []
generate_codes-Sound (suc n) =
    Keeps-bind _ _ (outside-Sound _)
      λ raw. Keeps-bind _ _ (generate_codes-Sound n) λ codes. Keeps-pure _

pub hash_all-Sound : (codes : List String) → Keeps HasSoundSessions (hash_all codes)
unfolding hash_all hash
hash_all-Sound [] = Keeps-pure []
hash_all-Sound (code ∷ codes) =
    Keeps-bind _ _ (try_outside-Sound _)
      λ first. Keeps-bind _ _ (hash_all-Sound codes) λ hashes. Keeps-pure _

ruleset totp_rules = (request_rules, generate_codes-Sound, hash_all-Sound)

pub enable_totp-Sound : (token code : String) → Keeps HasSoundSessions (enable_totp token code)
unfolding enable_totp credential_by_username verify_totp_code generate_backup_codes enable
enable_totp-Sound token code = search totp_rules depth 40

pub disable_totp-Sound : (token code : String) → Keeps HasSoundSessions (disable_totp token code)
unfolding disable_totp credential_by_username disable
disable_totp-Sound token code = search totp_rules depth 30

pub regenerate_codes-Sound :
    (token code : String) → Keeps HasSoundSessions (regenerate_totp_backup_codes token code)
unfolding regenerate_totp_backup_codes credential_by_username generate_backup_codes
    replace_backup_code_hashes
regenerate_codes-Sound token code = search totp_rules depth 40

pub totp_status-Sound : (token : String) → Keeps HasSoundSessions (totp_status token)
unfolding totp_status credential_by_username
totp_status-Sound token = search totp_rules depth 20
