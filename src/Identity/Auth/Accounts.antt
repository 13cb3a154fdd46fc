-- ===== src/Identity/Auth/Accounts.antt =====
-- The operations on accounts of modules/identity/application/src/identity/auth/service.rs.
use Prim.Native.String.{◌++◌}
use hegira.Base.{
  String, Bool, not, Option, none, some, List, [], ◌∷◌, is_some, if◌then◌else◌, Result, ok, err,
}
use hegira.Base.Actions.{◌>>=◌, ◌>>◌, pure, gets, lift, some_or, raise_if}
use hegira.Identity.Errors.{
  ApplicationError, user_not_found, user_already_exists, protected_admin_cannot_be_deleted,
  localized_conflict, localized_not_found, localized_forbidden,
}
use hegira.Identity.Validation.{
  required_username, required_username_password, required_password, optional_username,
  is_protected_admin_username,
}
use hegira.Identity.Mail.{
  confirm_email_change as confirm_email_change_mail, render, welcome_mail, reset_password_mail,
}
use hegira.Identity.Store.{World, Service, utc_now, new_token}
use hegira.Identity.Users.{
  User, find_by_username, find_by_reset_token, set_email_verification, set_reset_token,
}
use hegira.Identity.Users
use hegira.Identity.Sessions
use hegira.Identity.Sessions.{Session}
use hegira.Identity.Writer.{
  register_managed_user, verify_managed_email, set_reset_token_with_mail,
  set_verification_with_mail,
}
use hegira.Identity.Emails
use hegira.Identity.Auth.{CurrentUserDto, via, send, hash, verify_hash, current_user}

abbrev pub already_exists :
    {A : Type 0} → Result ApplicationError A × World → Result ApplicationError A × World
already_exists (ok a, s) = (ok a, s)
already_exists (err (ApplicationError.conflict _), s) =
    (err (localized_conflict user_already_exists), s)
already_exists (err e, s) = (err e, s)

-- The `map_err` of `register`.
unfoldable pub conflict_as_existing : {A : Type 0} → Service A → Service A
conflict_as_existing m r s = already_exists (m r s)

abbrev pub unless : Bool → Service (Unit {0}) → Service (Unit {0})
unless b m = if b then pure tt else m

unfoldable pub register : String → String → Service (Unit {0})
register username password = do
  lift (required_username_password username password)
  password_hash ← hash password
  token ← new_token
  mail ← gets (λ r s. welcome_mail username r.app_name r.public_url token)
  sent_at ← utc_now
  publish_search ← gets (λ r s. r.publish_search)
  durable_mail ← gets (λ r s. r.durable_mail)
  conflict_as_existing (
      register_managed_user (record {
        username = username;
        password_hash = password_hash;
        verification_token = token;
        verification_sent_at = sent_at;
        publish_search = publish_search;
        mail = if durable_mail then some mail else none;
      }))
  unless durable_mail (send (render mail))

unfoldable pub verify_email : String → Service (Unit {0})
verify_email token = do
  now ← utc_now
  publish_search ← gets (λ r s. r.publish_search)
  verified ← verify_managed_email token now publish_search
  raise_if (not verified) (ApplicationError.not_found "Verification token not found")

-- The user of the session, as the table has it.
unfoldable pub user_of : CurrentUserDto → Service User
user_of current = do
  found ← via (find_by_username current.username)
  some_or found ApplicationError.unauthorized

unfoldable pub resend_verification : String → Service (Unit {0})
resend_verification actor_token = do
  current ← current_user actor_token
  user ← user_of current
  unless (is_some user.email_verified_at) do
    token ← new_token
    sent_at ← utc_now
    mail ← gets (λ r s. welcome_mail current.username r.app_name r.public_url token)
    durable_mail ← gets (λ r s. r.durable_mail)
    if durable_mail
        then set_verification_with_mail current.username token sent_at mail >> pure tt
        else do via (set_email_verification current.username token sent_at); send (render mail)

unfoldable pub delete_sessions : String → List Session → Service (Unit {0})
delete_sessions username [] = pure tt
delete_sessions username (session ∷ sessions) =
    via (Sessions.delete_for_user username session.pid) >> delete_sessions username sessions

unfoldable pub delete_account : String → String → Service (Unit {0})
delete_account actor_token password = do
  current ← current_user actor_token
  raise_if (is_protected_admin_username current.username)
      (localized_forbidden protected_admin_cannot_be_deleted)
  user ← user_of current
  verified ← verify_hash password user.password_hash
  raise_if (not verified) ApplicationError.unauthorized
  sessions ← via (Sessions.list_for_user current.username)
  publish_search ← gets (λ r s. r.publish_search)
  deleted ← Emails.delete_managed_user current.username publish_search
  raise_if (not deleted) (localized_not_found user_not_found)
  delete_sessions current.username sessions

unfoldable pub send_reset : Option User → Service (Unit {0})
send_reset none = pure tt
send_reset (some user) = do
  token ← new_token
  sent_at ← utc_now
  mail ← gets (λ r s. reset_password_mail user.username r.app_name r.public_url token)
  durable_mail ← gets (λ r s. r.durable_mail)
  if durable_mail
      then set_reset_token_with_mail user.username token sent_at mail >> pure tt
      else do via (set_reset_token user.username token sent_at); send (render mail)

unfoldable pub forgot_password : String → Service (Unit {0})
forgot_password username = do
  given ← lift (optional_username username)
  if given then (do found ← via (find_by_username username); send_reset found) else pure tt

unfoldable pub reset_password : String → String → Service (Unit {0})
reset_password token password = do
  lift (required_password password)
  found ← via (find_by_reset_token token)
  user ← some_or found ApplicationError.unauthorized
  password_hash ← hash password
  via (Users.reset_password user.username password_hash)

unfoldable pub change_password : String → String → String → Service (Unit {0})
change_password actor_token current_password new_password = do
  lift (required_password new_password)
  current ← current_user actor_token
  user ← user_of current
  verified ← verify_hash current_password user.password_hash
  raise_if (not verified) ApplicationError.unauthorized
  password_hash ← hash new_password
  via (Users.reset_password current.username password_hash)

unfoldable pub request_email_change : String → String → String → Service (Unit {0})
request_email_change actor_token new_email password = do
  lift (required_username new_email)
  current ← current_user actor_token
  user ← user_of current
  verified ← verify_hash password user.password_hash
  raise_if (not verified) ApplicationError.unauthorized
  token ← new_token
  sent_at ← utc_now
  mail ← gets λ r s.
      confirm_email_change_mail new_email r.app_name
        (r.public_url ++ "/auth/confirm-email-change/" ++ token)
  durable_mail ← gets (λ r s. r.durable_mail)
  requested ←
      Emails.request_email_change current.username new_email token sent_at
        (if durable_mail then some mail else none)
  raise_if (not requested) (ApplicationError.conflict "Email already exists")
  unless durable_mail (send (render mail))

unfoldable pub confirm_email_change : String → Service (Unit {0})
confirm_email_change token = do
  now ← utc_now
  publish_search ← gets (λ r s. r.publish_search)
  confirmed ← Emails.confirm_email_change token now publish_search
  raise_if (not confirmed) (ApplicationError.not_found "Email change token not found")
