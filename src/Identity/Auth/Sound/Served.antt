-- ===== src/Identity/Auth/Sound/Served.antt =====
-- The sessions over any sequence of requests.
use hegira.Base.{List, [], ◌∷◌}
use hegira.Base.Actions.{◌>>◌, pure}
use hegira.Base.Keeps.{Keeps, Keeps-bind, Keeps-pure}
use hegira.Identity.Store.{World, IdentityServices, Service}
use hegira.Identity.Sessions.Sound.{HasSoundSessions}
use hegira.Identity.Auth.Requests.{Request, serve, serve_all}
use hegira.Identity.Auth.Sound.{
  current_user-Sound, renew_session-Sound, logout-Sound, list_sessions-Sound, revoke_session-Sound,
  login-Sound, verify_magic_link-Sound, verify_totp_login-Sound,
}
use hegira.Identity.Auth.Sound.Accounts.{
  register-Sound, verify_email-Sound, resend_verification-Sound, delete_account-Sound,
  forgot_password-Sound, reset_password-Sound, change_password-Sound, request_email-Sound,
  confirm_email-Sound, request_magic_link-Sound, setup_totp-Sound, enable_totp-Sound,
  disable_totp-Sound, regenerate_codes-Sound, totp_status-Sound,
}

discard-Sound :
    {A : Type 0} (m : Service A) → Keeps HasSoundSessions m → Keeps HasSoundSessions (m >> pure tt)
discard-Sound m km = Keeps-bind _ _ km λ _. Keeps-pure tt

-- One request, whatever it is and wherever it fails, keeps one row for every token and every session
-- within its maximum.
pub serve-Sound : (request : Request) → Keeps HasSoundSessions (serve request)
unfolding serve
serve-Sound (Request.register username password) = register-Sound username password
serve-Sound (Request.login username password) = discard-Sound _ (login-Sound username password)
serve-Sound (Request.reset_password token password) = reset_password-Sound token password
serve-Sound (Request.verify_totp_login token code) =
    discard-Sound _ (verify_totp_login-Sound token code)
serve-Sound (Request.current_user token) = discard-Sound _ (current_user-Sound token)
serve-Sound (Request.logout token) = logout-Sound token
serve-Sound (Request.renew_session token) = discard-Sound _ (renew_session-Sound token)
serve-Sound (Request.verify_email token) = verify_email-Sound token
serve-Sound (Request.resend_verification token) = resend_verification-Sound token
serve-Sound (Request.delete_account token password) = delete_account-Sound token password
serve-Sound (Request.forgot_password username) = forgot_password-Sound username
serve-Sound (Request.confirm_email_change token) = confirm_email-Sound token
serve-Sound (Request.list_sessions token) = discard-Sound _ (list_sessions-Sound token)
serve-Sound (Request.request_magic_link username) = request_magic_link-Sound username
serve-Sound (Request.change_password token old new) = change_password-Sound token old new
serve-Sound (Request.request_email_change token email password) =
    request_email-Sound token email password
serve-Sound (Request.revoke_session token id) = revoke_session-Sound token id
serve-Sound (Request.enable_totp token code) = discard-Sound _ (enable_totp-Sound token code)
serve-Sound (Request.disable_totp token code) = disable_totp-Sound token code
serve-Sound (Request.regenerate_totp_backup_codes token code) =
    discard-Sound _ (regenerate_codes-Sound token code)
serve-Sound (Request.verify_magic_link token) = discard-Sound _ (verify_magic_link-Sound token)
serve-Sound (Request.setup_totp token) = discard-Sound _ (setup_totp-Sound token)
serve-Sound (Request.totp_status token) = discard-Sound _ (totp_status-Sound token)

-- After any sequence of requests, of which any may fail, every session token has one row and no
-- session outlives its maximum, if this held before.
serve_all-Sound :
    (requests : List Request) (r : IdentityServices) (s : World)
    → HasSoundSessions s
    → HasSoundSessions (serve_all requests r s)
unfolding serve_all
serve_all-Sound [] r s h = h
serve_all-Sound (request ∷ requests) r s h =
    serve_all-Sound requests r (serve request r s).1 ((serve-Sound request).at r s h)
