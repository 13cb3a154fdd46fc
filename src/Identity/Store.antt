-- ===== src/Identity/Store.antt =====
-- The state that modules/identity keeps (the SQLite tables of sqlx/migrations/sqlite/ and the mails
-- sent), the settings of its services, and how an action runs an SQL statement. Instants and
-- durations are numbers of nanoseconds. The clock, fresh ids, hashes, tokens, one-time passwords,
-- OAuth providers, what the cache has of a user's permissions, failures of the database and of the
-- mail server come from outside: each is a function of the number of the call.
use hegira.Base.{ℕ, ◌+◌, String, Bool, Option, none, some, List, Result, ok, err}
use hegira.Base.Actions.{Action}
use hegira.Jobs.Outbox.{OutboxMessage}
use hegira.Identity.Errors.{DomainError, ApplicationError, ApplicationResult}
use hegira.Identity.Mail.{TransactionalMail, MailMessage}

-- A row of `users`.
pub record UserRow : Type 0 where
  pub id : ℕ
  pub pid : String
  pub username : String
  pub password_hash : String
  pub created_at : ℕ
  pub reset_token : Option String
  pub reset_sent_at : Option ℕ
  pub email_verification_token : Option String
  pub email_verification_sent_at : Option ℕ
  pub email_verified_at : Option ℕ
  pub magic_link_token : Option String
  pub magic_link_expires_at : Option ℕ
  pub deleted_at : Option ℕ
  pub totp_secret : Option String
  pub totp_enabled_at : Option ℕ
  pub totp_backup_code_hashes : List String
  pub totp_login_token : Option String
  pub totp_login_expires_at : Option ℕ
  pub search_revision : ℕ
  pub pending_email : Option String
  pub email_change_token : Option String
  pub email_change_sent_at : Option ℕ
  pub external_only : Bool

-- A row of `sessions`.
pub record SessionRow : Type 0 where
  pub pid : String
  pub token : String
  pub user_id : ℕ
  pub created_at : ℕ
  pub expires_at : ℕ
  pub max_expires_at : ℕ

-- A row of `user_roles`, of which nothing reads the instant.
pub record UserRole : Type 0 where
  pub user_id : ℕ
  pub role_name : String

-- A row of `roles`.
pub record RoleRow : Type 0 where
  pub name : String
  pub created_at : ℕ
  pub deleted_at : Option ℕ

-- A row of `role_permissions`, of which nothing reads the instant.
pub record RolePermission : Type 0 where
  pub role_name : String
  pub permission_name : String

pub data OAuthFlow : Type 0 where
  login link : OAuthFlow

-- A row of `oauth_states`.
pub record OAuthState : Type 0 where
  pub state : String
  pub provider : String
  pub csrf_token : String
  pub flow : OAuthFlow
  pub username : Option String
  pub created_at : ℕ
  pub expires_at : ℕ

-- A row of `user_oauth_connections`.
pub record OAuthConnection : Type 0 where
  pub user_id : ℕ
  pub provider : String
  pub provider_user_id : String
  pub email : String
  pub created_at : ℕ

-- A row of `oauth_pending_signups`.
pub record PendingOAuthSignup : Type 0 where
  pub token : String
  pub provider : String
  pub provider_user_id : String
  pub email : String
  pub created_at : ℕ
  pub expires_at : ℕ

-- A row of `audit_logs`, without the details.
pub record AuditLogEntry : Type 0 where
  pub actor : String
  pub action : String
  pub entity_type : String
  pub entity_id : Option String

pub record SearchDocument : Type 0 where
  pub id : String
  pub username : String
  pub created_at : ℕ
  pub is_verified : Bool
  pub roles : List String

pub data SearchIndexCommand : Type 0 where
  upsert : String → List SearchDocument → Option ℕ → SearchIndexCommand
  delete : String → String → Option ℕ → SearchIndexCommand

-- What the module puts in the outbox.
pub data Payload : Type 0 where
  send_mail : TransactionalMail → Payload
  search_index : SearchIndexCommand → Payload

pub record World : Type 0 where
  pub users : List UserRow
  pub sessions : List SessionRow
  pub user_roles : List UserRole
  pub roles : List RoleRow
  pub role_permissions : List RolePermission
  pub oauth_states : List OAuthState
  pub oauth_connections : List OAuthConnection
  pub oauth_signups : List PendingOAuthSignup
  pub audit_logs : List AuditLogEntry
  pub outbox : List (OutboxMessage Payload)
  pub next_id : ℕ
  pub sent : List MailMessage
  pub ticks : ℕ

pub record SessionPolicy : Type 0 where
  pub sliding_ttl : ℕ
  pub max_lifetime : ℕ
  pub refresh_threshold_percent : ℕ

pub record ExternalOAuthUser : Type 0 where
  pub provider_user_id : String
  pub email : String

pub record OAuthProviderSettings : Type 0 where
  pub enabled : Bool
  pub client_id : String
  pub client_secret : String
  pub redirect_uri : String
  pub authorization_url : String
  pub token_url : String
  pub userinfo_url : String
  pub scopes : List String

pub record OAuthSettings : Type 0 where
  pub enabled : Bool
  pub state_ttl : ℕ
  pub google : OAuthProviderSettings
  pub github : OAuthProviderSettings

-- The settings of the services with their surroundings.
pub record IdentityServices : Type 0 where
  pub app_name : String
  pub public_url : String
  pub session_policy : SessionPolicy
  pub publish_search : Bool
  pub durable_mail : Bool
  pub now_at : ℕ → ℕ
  pub uuid_at : ℕ → String
  pub simple_uuid_at : ℕ → String
  pub db_error_at : ℕ → Option String
  pub hash_at : ℕ → String → ApplicationResult String
  pub verify_hash : String → String → ApplicationResult Bool
  pub create_token_at : ℕ → String → ApplicationResult String
  pub token_expiry_at : ℕ → ℕ
  pub verify_token_at : ℕ → String → ApplicationResult String
  pub totp_secret_at : ℕ → String
  pub totp_url : String → String → String → ApplicationResult String
  pub check_totp_at : ℕ → String → String → String → String → ApplicationResult Bool
  pub oauth : OAuthSettings
  pub session_ttl : ℕ
  pub cached_permissions_at : ℕ → String → Option (List String)
  pub fetch_user_at :
      ℕ → String → OAuthProviderSettings → String → ApplicationResult ExternalOAuthUser
  pub urlencode : String → String
  pub send_at : ℕ → MailMessage → Result String (Unit {0})

-- The methods of a repository, and those of the service.
abbrev pub Repository : Type 0 → Type 0
Repository A = Action IdentityServices World DomainError A

abbrev pub Service : Type 0 → Type 0
Service A = Action IdentityServices World ApplicationError A

module _ {E : Type 0} where
  -- A call to the outside world.
  unfoldable pub outside :
      {A : Type 0} → (IdentityServices → ℕ → A) → Action IdentityServices World E A
  outside f r s = (ok (f r s.ticks), record s { ticks = s.ticks + 1 })

  -- `Utc::now()`
  abbrev pub utc_now : Action IdentityServices World E ℕ
  utc_now = outside (λ r t. r.now_at t)

  -- `Uuid::new_v4().to_string()`
  abbrev pub new_token : Action IdentityServices World E String
  new_token = outside (λ r t. r.uuid_at t)

  unfoldable pub answer :
      {A : Type 0}
      → (String → E)
      → Option String
      → Result String A × World
      → World
      → Result E A × World
  answer db_error none (ok a, t) s = (ok a, t)
  answer db_error none (err e, t) s = (err (db_error e), s)
  answer db_error (some e) after s = (err (db_error e), s)

  -- One SQL statement. A constraint of the tables may refuse it, and the database may fail to run
  -- it, with no effect.
  unfoldable pub statement :
      {A : Type 0}
      → (String → E)
      → (World → Result String A × World)
      → Action IdentityServices World E A
  unfolding answer
  statement db_error f r s =
      let s' : World = record s { ticks = s.ticks + 1 } in
      answer db_error (r.db_error_at s.ticks) (f s') s'

-- `db_error` of the repositories.
abbrev pub db_error : String → DomainError
db_error e = DomainError.validation e

-- A statement that only reads.
abbrev pub query : {A : Type 0} → (World → A) → Repository A
query f = statement db_error (λ s. (ok (f s), s))

-- A rollback restores the tables. An id that `AUTOINCREMENT` gave out is free again.
abbrev pub restore : World → World → World
restore before after = record after {
  users = before.users;
  sessions = before.sessions;
  user_roles = before.user_roles;
  roles = before.roles;
  role_permissions = before.role_permissions;
  oauth_states = before.oauth_states;
  oauth_connections = before.oauth_connections;
  oauth_signups = before.oauth_signups;
  audit_logs = before.audit_logs;
  outbox = before.outbox;
  next_id = before.next_id;
}
