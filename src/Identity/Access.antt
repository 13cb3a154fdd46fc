-- ===== src/Identity/Access.antt =====
-- Who asks and what they may: `TokenCurrentUserProvider` and `require_permission` of
-- modules/identity/application/src/identity/authorization.rs, `CachedAuthorization` of
-- templates/applications/layered/crates/infrastructure/src/identity/authorization/service.rs, and the
-- audit log.
use Prim.Native.String.{◌++◌}
use hegira.Base.{
  String, Bool, true, not, Option, none, some, List, ◌∷◌, str_eq, any, Result, ok, err,
}
use hegira.Base.Actions.{◌>>=◌, ◌>>◌, pure, raise_if}
use hegira.Identity.Errors.{ApplicationError}
use hegira.Identity.Store.{AuditLogEntry, World, Repository, Service, outside, query}
use hegira.Identity.Sessions.{is_user}
use hegira.Identity.Sessions
use hegira.Identity.Roles.{user_permissions}
use hegira.Identity.Outbox.{run}
use hegira.Identity.Auth.{via, verify_token}

pub record CurrentUser : Type 0 where
  pub username : String
  pub is_authenticated : Bool

-- `SqliteUserRepository::exists`
unfoldable pub user_exists : String → Repository Bool
user_exists username = query (λ s. any (is_user username) s.users)

-- `TokenCurrentUserProvider::current_user`
unfoldable pub current_user : String → Service CurrentUser
current_user token = do
  username ← verify_token token
  live ← via (Sessions.exists token)
  raise_if (not live) ApplicationError.unauthorized
  stands ← via (user_exists username)
  raise_if (not stands) ApplicationError.unauthorized
  pure (record { username = username; is_authenticated = true })

-- `cached_permissions`: what the cache has for a user at the current version, if it can be read.
unfoldable pub cached_permissions : String → Service (Option (List String))
cached_permissions username = outside (λ r t. r.cached_permissions_at t username)

-- `store_permissions`: a write to the cache, whose failure is ignored.
unfoldable pub store_permissions : String → List String → Service (Unit {0})
store_permissions username permissions = outside (λ r t. tt)

unfoldable pub allow_if : Bool → String → Service (Unit {0})
allow_if allowed permission =
    raise_if (not allowed) (ApplicationError.forbidden ("Missing permission " ++ permission))

-- The end of `require`: with the permissions of the cache, or without.
unfoldable pub require_listed : Option (List String) → String → String → Service (Unit {0})
require_listed (some permissions) username permission =
    allow_if (any (λ name. str_eq name permission) permissions) permission
require_listed none username permission = do
  permissions ← via (user_permissions username)
  store_permissions username permissions
  allow_if (any (λ name. str_eq name permission) permissions) permission

-- `CachedAuthorization::require`
unfoldable pub require : CurrentUser → String → Service (Unit {0})
require user permission = do
  raise_if (not user.is_authenticated) ApplicationError.unauthorized
  cached ← cached_permissions user.username
  require_listed cached user.username permission

-- `require_permission`, with the user that it finds.
unfoldable pub require_permission : String → String → Service CurrentUser
require_permission actor_token permission = do
  user ← current_user actor_token
  require user permission
  pure user

abbrev pub to_option :
    {A : Type 0} → Result ApplicationError A × World → Result ApplicationError (Option A) × World
to_option (ok a, s) = (ok (some a), s)
to_option (err e, s) = (ok none, s)

-- An action whose failure is ignored.
unfoldable pub attempt : {A : Type 0} → Service A → Service (Option A)
attempt m r s = to_option (m r s)

abbrev pub actor_name : Option CurrentUser → String
actor_name none = "unknown"
actor_name (some user) = user.username

-- The insertion into `audit_logs`.
unfoldable pub insert_audit : AuditLogEntry → Service (Unit {0})
insert_audit entry = run (λ s. (tt, record s { audit_logs = entry ∷ s.audit_logs }))

-- `record_audit`: a log that cannot be written is skipped.
unfoldable pub record_audit : String → String → String → String → Service (Unit {0})
record_audit actor_token action entity_type entity_id = do
  actor ← attempt (current_user actor_token)
  attempt (
      insert_audit (record {
        actor = actor_name actor;
        action = action;
        entity_type = entity_type;
        entity_id = some entity_id;
      }))
  pure tt

-- `permission_cache::invalidate`: a write to the cache, whose failure is ignored.
unfoldable pub invalidate : Service (Unit {0})
invalidate = do outside (λ r t. r.uuid_at t); pure tt
