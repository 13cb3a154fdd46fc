-- ===== src/Identity/Auth.antt =====
-- `IdentityServices` of modules/identity/application/src/identity/auth/service.rs: the sessions of
-- users who are authenticated. The children hold the operations on accounts, logins and two-factor
-- settings.
pub mod Accounts
pub mod Login
pub mod Totp
pub mod Requests
pub mod Success
pub mod Guards
pub mod Once
pub mod Taken
pub mod Live
pub mod Begun
pub mod Links
pub mod Deleted
pub mod Sound
use Prim.Native.String.{◌++◌}
use hegira.Base.{
  ℕ, ◌+◌, ◌-◌, ◌*◌, ◌/◌, min, String, Bool, not, Option, none, some, List, ◌∷◌, ltb, str_eq,
  is_none, ◌||◌, if◌then◌else◌, Result, ok, err, map,
}
use hegira.Base.Actions.{◌>>=◌, ◌>>◌, pure, raise, gets, lift, some_or, raise_if}
use hegira.Identity.Errors.{
  DomainError, ApplicationError, ApplicationErrorKind, ApplicationResult, IdentityMessage,
  session_expired, coded, from_domain,
}
use hegira.Identity.Mail.{MailMessage}
use hegira.Identity.Store.{World, IdentityServices, Repository, Service, outside, utc_now}
use hegira.Identity.Users.{find_by_username}
use hegira.Identity.Roles.{user_permissions}
use hegira.Identity.Sessions
use hegira.Identity.Sessions.{Session}

pub record CurrentUserDto : Type 0 where
  pub username : String
  pub permissions : List String

pub record SessionDto : Type 0 where
  pub id : String
  pub created_at : ℕ
  pub expires_at : ℕ
  pub current : Bool

abbrev pub from_repository :
    {A : Type 0} → Result DomainError A × World → Result ApplicationError A × World
from_repository (ok a, s) = (ok a, s)
from_repository (err e, s) = (err (from_domain e), s)

-- `?` on the result of a repository.
unfoldable pub via : {A : Type 0} → Repository A → Service A
via m r s = from_repository (m r s)

abbrev pub provider_error : {A : Type 0} → Result String A → ApplicationResult A
provider_error (ok a) = ok a
provider_error (err e) = err (ApplicationError.infrastructure e)

abbrev pub noted : MailMessage → Result String (Unit {0}) → World → World
noted mail (ok _) s = record s { sent = mail ∷ s.sent }
noted mail (err e) s = s

-- `mailer.send(…).await.map_err(provider_error)`: a mail that went out is noted.
unfoldable pub send : MailMessage → Service (Unit {0})
send mail r s =
    let o = r.send_at s.ticks mail in
    (provider_error o, noted mail o (record s { ticks = s.ticks + 1 }))

-- `?` on a call to the outside.
unfoldable pub try_outside : {A : Type 0} → (IdentityServices → ℕ → ApplicationResult A) → Service A
try_outside f = do a ← outside f; lift a

unfoldable pub verify_token : String → Service String
verify_token token = try_outside (λ r t. r.verify_token_at t token)

unfoldable pub create_token : String → Service String
create_token username = try_outside (λ r t. r.create_token_at t username)

unfoldable pub token_expiry : Service ℕ
token_expiry = outside (λ r t. r.token_expiry_at t)

unfoldable pub hash : String → Service String
hash password = try_outside (λ r t. r.hash_at t password)

unfoldable pub verify_hash : String → String → Service Bool
verify_hash password password_hash = try_outside (λ r t. r.verify_hash password password_hash)

abbrev pub session_not_found : ApplicationError
session_not_found = ApplicationError.not_found "Session not found"

-- `next_session_expires_at`
unfoldable pub next_session_expires_at : ℕ → Service ℕ
next_session_expires_at max_expires_at = do
  now ← utc_now
  sliding_ttl ← gets (λ r s. r.session_policy.sliding_ttl)
  pure (min (now + sliding_ttl) max_expires_at)

-- Whole seconds; an instant in the past leaves none.
abbrev pub seconds : ℕ → ℕ
seconds duration = duration / 1_000_000_000

unfoldable pub is_fresh : ℕ → ℕ → ℕ → ℕ → Bool
is_fresh expires_at now sliding_ttl threshold_percent =
    ltb (seconds sliding_ttl * threshold_percent / 100) (seconds (expires_at - now))

-- `refresh_session_if_needed`
unfoldable pub refresh_session_if_needed : Session → Service (Unit {0})
refresh_session_if_needed session = do
  now ← utc_now
  fresh ← gets λ r s.
      is_fresh session.expires_at now r.session_policy.sliding_ttl
        r.session_policy.refresh_threshold_percent
  if fresh then pure tt else do
    next_expires_at ← next_session_expires_at session.max_expires_at
    via (Sessions.refresh session.token next_expires_at)
    pure tt

-- `create_session`
unfoldable pub create_session : String → Service String
create_session username = do
  token ← create_token username
  max_expires_at ← token_expiry
  expires_at ← next_session_expires_at max_expires_at
  via (Sessions.insert token username expires_at max_expires_at)
  pure token

-- `current_user`
unfoldable pub current_user : String → Service CurrentUserDto
current_user token = do
  username ← verify_token token
  found ← via (Sessions.find_by_token token)
  session ← some_or found session_not_found
  user ← via (find_by_username username)
  raise_if (is_none user || not (str_eq session.username username)) ApplicationError.unauthorized
  refresh_session_if_needed session
  permissions ← via (user_permissions username)
  pure (record { username = username; permissions = permissions })

-- `renew_session`
unfoldable pub renew_session : String → Service String
renew_session token = do
  username ← verify_token token
  exists ← via (Sessions.exists token)
  raise_if (not exists) session_not_found
  new_token ← create_token username
  max_expires_at ← token_expiry
  expires_at ← next_session_expires_at max_expires_at
  updated ← via (Sessions.update_token token new_token expires_at max_expires_at)
  raise_if (not updated) session_not_found
  pure new_token

-- `logout`
unfoldable pub logout : String → Service (Unit {0})
logout token = do
  verify_token token
  deleted ← via (Sessions.delete token)
  raise_if (not deleted) session_not_found

abbrev pub session_dto : String → Session → SessionDto
session_dto actor_token session = record {
  id = session.pid;
  created_at = session.created_at;
  expires_at = min session.expires_at session.max_expires_at;
  current = str_eq session.token actor_token;
}

-- `list_sessions`
unfoldable pub list_sessions : String → Service (List SessionDto)
list_sessions actor_token = do
  current ← current_user actor_token
  sessions ← via (Sessions.list_for_user current.username)
  pure (map (session_dto actor_token) sessions)

-- `revoke_session`
unfoldable pub revoke_session : String → String → Service (Unit {0})
revoke_session actor_token session_id = do
  current ← current_user actor_token
  deleted ← via (Sessions.delete_for_user current.username session_id)
  raise_if (not deleted) session_not_found
