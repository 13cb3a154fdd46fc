-- ===== src/Identity/Auth/Sound.antt =====
-- Whatever the authentication service is asked for, and wherever it fails, the sessions stay sound:
-- the operations on sessions and two-factor logins.
pub mod Writes
pub mod Accounts
pub mod Served
use hegira.Base.{
  ℕ, ◌+◌, ◌≤◌, String, Bool, true, false, not, Option, none, some, List, [], ◌∷◌, ◌++◌, arith,
  Result, ok, err, min,
}
use hegira.Base.Actions.{Action, ◌>>=◌, pure, raise, gets, lift, some_or, raise_if}
use hegira.Base.Keeps.{
  Keeps, keeps_rules, Keeps-bind, Keeps-gets, Keeps-lift, Keeps-pure, Keeps-if, Keeps-some_or,
  Keeps-raise_if,
}
use hegira.Identity.Errors.{DomainError, ApplicationError, ApplicationResult}
use hegira.Identity.Mail.{MailMessage}
use hegira.Identity.Store.{UserRow, World, IdentityServices, Repository, Service, outside}
use hegira.Identity.Sessions.{Session}
use hegira.Identity.Sessions.Sound.{
  HasSoundSessions, sound_rules, statement-Sound, outside-Sound, find_by_token-Sound, exists-Sound,
  insert-Sound, update_token-Sound, refresh-Sound, delete-Sound, list_for_user-Sound,
  delete_for_user-Sound,
}
use hegira.Identity.Roles.{user_permissions}
use hegira.Identity.Users.{
  find_by_username, find_by_magic_link_token, find_by_token_column, clear_magic_link,
  set_magic_link, update_token_fields, put_magic_link,
}
use hegira.Identity.TwoFactor.{
  TwoFactorCredential, update_users, credential_by_username, credential_by_login_token,
  set_login_token, consume_login_token, consume_backup_code_hashes,
}
use hegira.Identity.Auth.{
  via, from_repository, noted, send, try_outside, verify_token, create_token, token_expiry, hash,
  verify_hash, next_session_expires_at, refresh_session_if_needed, create_session, current_user,
  renew_session, logout, list_sessions, revoke_session, is_fresh,
}
use hegira.Identity.Auth.Login.{
  start_session, login, verify_magic_link, verify_totp_code, try_backup_codes,
  verify_totp_or_backup_code, verify_totp_login,
}

via-at :
    {A : Type 0} (m : Result DomainError A × World)
    → HasSoundSessions m.1
    → HasSoundSessions (from_repository m).1
via-at (ok a, s) h = h
via-at (err e, s) h = h

pub via-Sound :
    {A : Type 0} (m : Repository A) → Keeps HasSoundSessions m → Keeps HasSoundSessions (via m)
unfolding via
via-Sound m km = record { at = λ r s h. via-at (m r s) (km.at r s h) }

noted-Sound :
    (mail : MailMessage) (o : Result String (Unit {0})) (s : World)
    → HasSoundSessions s
    → HasSoundSessions (noted mail o s)
noted-Sound mail (ok _) s h = h
noted-Sound mail (err e) s h = h

pub send-Sound : (mail : MailMessage) → Keeps HasSoundSessions (send mail)
unfolding send
send-Sound mail = record {
  at = λ r s h. noted-Sound mail (r.send_at s.ticks mail) (record s { ticks = s.ticks + 1 }) h;
}

pub try_outside-Sound :
    {A : Type 0} (f : IdentityServices → ℕ → ApplicationResult A)
    → Keeps HasSoundSessions (try_outside f)
unfolding try_outside
try_outside-Sound f = search sound_rules

pub update_users-Sound :
    (p : UserRow → Bool) (f : UserRow → UserRow) → Keeps HasSoundSessions (update_users p f)
unfolding update_users
update_users-Sound p f = statement-Sound _ _ λ s h. h

pub ruleset service_rules = (
  sound_rules, via-Sound, send-Sound, try_outside-Sound, update_users-Sound, find_by_token-Sound,
  exists-Sound, delete-Sound, refresh-Sound, list_for_user-Sound, delete_for_user-Sound,
)

-- The expiry of a session is within its maximum.
expires_at-Sound :
    {A : Type 0} (max_expires_at : ℕ) (f : ℕ → Service A)
    → ((expires_at : ℕ) → expires_at ≤ max_expires_at → Keeps HasSoundSessions (f expires_at))
    → Keeps HasSoundSessions (next_session_expires_at max_expires_at >>= f)
unfolding next_session_expires_at ◌>>=◌ outside
expires_at-Sound max_expires_at f kf = record {
  at = λ r s h.
      (kf (min (r.now_at s.ticks + r.session_policy.sliding_ttl) max_expires_at) (omega arith)).at r
        (record s { ticks = s.ticks + 1 }) h;
}

refresh_session_if_needed-Sound :
    (session : Session) → Keeps HasSoundSessions (refresh_session_if_needed session)
unfolding refresh_session_if_needed next_session_expires_at
refresh_session_if_needed-Sound session = search service_rules depth 16

pub create_session-Sound : (username : String) → Keeps HasSoundSessions (create_session username)
unfolding create_session create_token token_expiry
create_session-Sound username = Keeps-bind _ _ (try_outside-Sound _) λ token.
    Keeps-bind _ _ (outside-Sound _) λ max_expires_at.
      expires_at-Sound max_expires_at _ λ expires_at b.
        Keeps-bind _ _ (via-Sound _ (insert-Sound token username expires_at max_expires_at b))
          λ _. Keeps-pure token

pub current_user-Sound : (token : String) → Keeps HasSoundSessions (current_user token)
unfolding current_user verify_token find_by_username user_permissions
current_user-Sound token = search (service_rules, refresh_session_if_needed-Sound) depth 24

-- A session that is renewed stays sound.
pub renew_session-Sound : (token : String) → Keeps HasSoundSessions (renew_session token)
unfolding renew_session verify_token create_token token_expiry
renew_session-Sound token = Keeps-bind _ _ (try_outside-Sound _) λ username.
    Keeps-bind _ _ (via-Sound _ (exists-Sound token)) λ exists.
      Keeps-bind _ _ (Keeps-raise_if _ _) λ _. Keeps-bind _ _ (try_outside-Sound _) λ new_token.
        Keeps-bind _ _ (outside-Sound _) λ max_expires_at.
          expires_at-Sound max_expires_at _ λ expires_at b.
            Keeps-bind _ _
              (via-Sound _ (update_token-Sound token new_token expires_at max_expires_at b))
              λ updated. search service_rules

pub logout-Sound : (token : String) → Keeps HasSoundSessions (logout token)
unfolding logout verify_token
logout-Sound token = search service_rules

pub revoke_session-Sound :
    (token session_id : String) → Keeps HasSoundSessions (revoke_session token session_id)
unfolding revoke_session
revoke_session-Sound token session_id = search (service_rules, current_user-Sound)

pub list_sessions-Sound : (token : String) → Keeps HasSoundSessions (list_sessions token)
unfolding list_sessions
list_sessions-Sound token = search (service_rules, current_user-Sound)

start_session-Sound :
    (username : String) (enabled : Bool) → Keeps HasSoundSessions (start_session username enabled)
unfolding start_session set_login_token
start_session-Sound username true = search service_rules
start_session-Sound username false = search (service_rules, create_session-Sound)

pub login-Sound : (username password : String) → Keeps HasSoundSessions (login username password)
unfolding login verify_hash find_by_username credential_by_username
login-Sound username password = search (service_rules, start_session-Sound) depth 20

pub verify_magic_link-Sound : (token : String) → Keeps HasSoundSessions (verify_magic_link token)
unfolding verify_magic_link find_by_magic_link_token find_by_token_column clear_magic_link
verify_magic_link-Sound token = search (service_rules, create_session-Sound) depth 20

try_backup_codes-Sound :
    (credential : TwoFactorCredential) (code : String) (passed hashes : List String)
    → Keeps HasSoundSessions (try_backup_codes credential code passed hashes)
unfolding try_backup_codes verify_hash consume_backup_code_hashes
try_backup_codes-Sound credential code passed [] = Keeps-pure false
try_backup_codes-Sound credential code passed (first ∷ hashes) =
    Keeps-bind _ _ (try_outside-Sound _) λ verified.
      Keeps-if verified _ _ (via-Sound _ (update_users-Sound _ _))
        (try_backup_codes-Sound credential code (passed ++ first ∷ []) hashes)

pub verify_totp_or_backup_code-Sound :
    (credential : TwoFactorCredential) (code : String)
    → Keeps HasSoundSessions (verify_totp_or_backup_code credential code)
unfolding verify_totp_or_backup_code verify_totp_code
verify_totp_or_backup_code-Sound credential code = search (service_rules, try_backup_codes-Sound)

pub verify_totp_login-Sound :
    (totp_token code : String) → Keeps HasSoundSessions (verify_totp_login totp_token code)
unfolding verify_totp_login credential_by_login_token consume_login_token
verify_totp_login-Sound totp_token code =
    search (service_rules, verify_totp_or_backup_code-Sound, create_session-Sound) depth 20
