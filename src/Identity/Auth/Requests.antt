-- ===== src/Identity/Auth/Requests.antt =====
-- `AuthServiceContract` of modules/identity/application/src/identity/auth/service.rs: every request
-- that the service answers, and any sequence of them.
use hegira.Base.{String, List, [], ◌∷◌}
use hegira.Base.Actions.{◌>>◌, pure}
use hegira.Identity.Store.{World, IdentityServices, Service}
use hegira.Identity.Auth
use hegira.Identity.Auth.Accounts
use hegira.Identity.Auth.Login
use hegira.Identity.Auth.Totp

pub data Request : Type 0 where
  register login reset_password verify_totp_login : String → String → Request
  current_user logout renew_session verify_email resend_verification : String → Request
  delete_account : String → String → Request
  forgot_password confirm_email_change list_sessions request_magic_link : String → Request
  change_password request_email_change : String → String → String → Request
  revoke_session enable_totp disable_totp regenerate_totp_backup_codes : String → String → Request
  verify_magic_link setup_totp totp_status : String → Request

-- What the service does, without the answer.
unfoldable pub serve : Request → Service (Unit {0})
serve (Request.register username password) = Accounts.register username password
serve (Request.login username password) = Login.login username password >> pure tt
serve (Request.reset_password token password) = Accounts.reset_password token password
serve (Request.verify_totp_login token code) = Login.verify_totp_login token code >> pure tt
serve (Request.current_user token) = Auth.current_user token >> pure tt
serve (Request.logout token) = Auth.logout token
serve (Request.renew_session token) = Auth.renew_session token >> pure tt
serve (Request.verify_email token) = Accounts.verify_email token
serve (Request.resend_verification token) = Accounts.resend_verification token
serve (Request.delete_account token password) = Accounts.delete_account token password
serve (Request.forgot_password username) = Accounts.forgot_password username
serve (Request.confirm_email_change token) = Accounts.confirm_email_change token
serve (Request.list_sessions token) = Auth.list_sessions token >> pure tt
serve (Request.request_magic_link username) = Login.request_magic_link username
serve (Request.change_password token old new) = Accounts.change_password token old new
serve (Request.request_email_change token email password) =
    Accounts.request_email_change token email password
serve (Request.revoke_session token id) = Auth.revoke_session token id
serve (Request.enable_totp token code) = Totp.enable_totp token code >> pure tt
serve (Request.disable_totp token code) = Totp.disable_totp token code
serve (Request.regenerate_totp_backup_codes token code) =
    Totp.regenerate_totp_backup_codes token code >> pure tt
serve (Request.verify_magic_link token) = Login.verify_magic_link token >> pure tt
serve (Request.setup_totp token) = Totp.setup_totp token >> pure tt
serve (Request.totp_status token) = Totp.totp_status token >> pure tt

-- The state after some requests, the first one first, whichever of them fail.
unfoldable pub serve_all : List Request → IdentityServices → World → World
serve_all [] r s = s
serve_all (request ∷ requests) r s = serve_all requests r (serve request r s).1
