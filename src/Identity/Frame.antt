-- ===== src/Identity/Frame.antt =====
-- What the ends of requests leave alone: an entry of the audit log, a message of the outbox and the
-- invalidation of the cache change no account.
use hegira.Base.{
  ℕ, ◌+◌, String, ◌≡◌, ap, subst, Bool, true, false, Option, none, some, List, Result, ok, err,
}
use hegira.Base.Actions.{◌>>◌, pure}
use hegira.Base.Keeps.{Keeps, keeps_rules, Keeps-pure}
use hegira.Identity.Errors.{DomainError, ApplicationError}
use hegira.Identity.Store.{
  UserRow, UserRole, RoleRow, RolePermission, OAuthConnection, PendingOAuthSignup, Payload, World,
  IdentityServices, Repository, Service, outside, answer, statement,
}
use hegira.Identity.Sessions
use hegira.Identity.Roles
use hegira.Identity.Outbox.{commit, enqueue_outbox, enqueue_search, enqueue_user_upsert}
use hegira.Identity.Writer.{when}
use hegira.Identity.Emails.{publish_deletion, finish_deletion}
use hegira.Identity.Auth.{via, from_repository, try_outside, verify_token}
use hegira.Identity.Access.{
  user_exists, current_user, require, require_permission, cached_permissions, store_permissions,
  allow_if, require_listed, to_option, attempt, insert_audit, record_audit, invalidate,
}

-- What an action that ended well kept.
pub kept :
    {A : Type 0} {P : World → Type 0} (m : Service A) (km : Keeps P m) (r : IdentityServices)
    (s : World) {a : A} {t : World}
    → P s
    → m r s ≡ (ok a, t)
    → P t
kept {A = A} {P = P} m km r s h e =
    subst P (ap (λ (p : Result ApplicationError A × World). p.1) e) (km.at r s h)

-- The tables of accounts, roles and connections.
abbrev pub HasAccounts :
    List UserRow
    → List UserRole
    → List RoleRow
    → List RolePermission
    → List OAuthConnection
    → List PendingOAuthSignup
    → World
    → Type 0
HasAccounts users members roles grants connections signups s =
    (s.users ≡ users)
    × (s.user_roles ≡ members)
    × (s.roles ≡ roles)
    × (s.role_permissions ≡ grants)
    × (s.oauth_connections ≡ connections)
    × (s.oauth_signups ≡ signups)

-- Those of another state.
abbrev pub HasAccountsOf : World → World → Type 0
HasAccountsOf s =
    HasAccounts s.users s.user_roles s.roles s.role_permissions s.oauth_connections s.oauth_signups

module _ {us : List UserRow} {ms : List UserRole} {rs : List RoleRow} {gs : List RolePermission}
    {cs : List OAuthConnection} {ss : List PendingOAuthSignup} where
  module _ {E A : Type 0} where
    answer-Frame :
        (g : String → E) (o : Option String) (m : Result String A × World) (s : World)
        → HasAccounts us ms rs gs cs ss m.1
        → HasAccounts us ms rs gs cs ss s
        → HasAccounts us ms rs gs cs ss (answer g o m s).1
    unfolding answer
    answer-Frame g none (ok a, t) s h k = h
    answer-Frame g none (err e, t) s h k = k
    answer-Frame g (some e) m s h k = k

    pub statement-Frame :
        (g : String → E) (f : World → Result String A × World)
        → ((s : World) → HasAccounts us ms rs gs cs ss s → HasAccounts us ms rs gs cs ss (f s).1)
        → Keeps (HasAccounts us ms rs gs cs ss) (statement g f)
    unfolding statement
    statement-Frame g f keeps = record {
      at = λ r s h.
          let s' : World = record s { ticks = s.ticks + 1 } in
          answer-Frame g (r.db_error_at s.ticks) (f s') s' (keeps s' h) h;
    }

    pub outside-Frame :
        (f : IdentityServices → ℕ → A) → Keeps {E = E} (HasAccounts us ms rs gs cs ss) (outside f)
    unfolding outside
    outside-Frame f = record { at = λ r s h. h }

  via-Frame_at :
      {A : Type 0} (m : Result DomainError A × World)
      → HasAccounts us ms rs gs cs ss m.1
      → HasAccounts us ms rs gs cs ss (from_repository m).1
  via-Frame_at (ok a, s) h = h
  via-Frame_at (err e, s) h = h

  pub via-Frame :
      {A : Type 0} (m : Repository A)
      → Keeps (HasAccounts us ms rs gs cs ss) m
      → Keeps (HasAccounts us ms rs gs cs ss) (via m)
  unfolding via
  via-Frame m km = record { at = λ r s h. via-Frame_at (m r s) (km.at r s h) }

  attempt-Frame_at :
      {A : Type 0} (m : Result ApplicationError A × World)
      → HasAccounts us ms rs gs cs ss m.1
      → HasAccounts us ms rs gs cs ss (to_option m).1
  attempt-Frame_at (ok a, s) h = h
  attempt-Frame_at (err e, s) h = h

  pub attempt-Frame :
      {A : Type 0} (m : Service A)
      → Keeps (HasAccounts us ms rs gs cs ss) m
      → Keeps (HasAccounts us ms rs gs cs ss) (attempt m)
  unfolding attempt
  attempt-Frame m km = record { at = λ r s h. attempt-Frame_at (m r s) (km.at r s h) }

  pub ruleset frame_rules = (keeps_rules, statement-Frame, outside-Frame, via-Frame, attempt-Frame)

  current_user-Frame : (token : String) → Keeps (HasAccounts us ms rs gs cs ss) (current_user token)
  unfolding current_user verify_token try_outside Sessions.exists user_exists
  current_user-Frame token = search frame_rules depth 24

  pub record_audit-Frame :
      (token action entity_type entity_id : String)
      → Keeps (HasAccounts us ms rs gs cs ss) (record_audit token action entity_type entity_id)
  unfolding record_audit insert_audit
  record_audit-Frame token action entity_type entity_id =
      search (frame_rules, current_user-Frame) depth 24

  pub invalidate-Frame : Keeps (HasAccounts us ms rs gs cs ss) invalidate
  unfolding invalidate
  invalidate-Frame = search frame_rules

  enqueue_outbox-Frame :
      (name : String) (payload : Payload) (key : Option String)
      → Keeps (HasAccounts us ms rs gs cs ss) (enqueue_outbox name payload key)
  unfolding enqueue_outbox
  enqueue_outbox-Frame name payload key = search frame_rules depth 16

  pub when-Frame :
      (b : Bool) (m : Service (Unit {0}))
      → Keeps (HasAccounts us ms rs gs cs ss) m
      → Keeps (HasAccounts us ms rs gs cs ss) (when b m)
  when-Frame true m km = km
  when-Frame false m km = Keeps-pure tt

  pub enqueue_user_upsert-Frame :
      (pid username : String) (created_at : ℕ) (is_verified : Bool) (roles : List String)
      (revision : ℕ)
      → Keeps
          (HasAccounts us ms rs gs cs ss)
          (enqueue_user_upsert pid username created_at is_verified roles revision)
  unfolding enqueue_user_upsert enqueue_search
  enqueue_user_upsert-Frame pid username created_at is_verified roles revision =
      enqueue_outbox-Frame _ _ _

  pub publish_deletion-Frame :
      (published : Bool) (row : UserRow)
      → Keeps (HasAccounts us ms rs gs cs ss) (publish_deletion published row)
  unfolding publish_deletion enqueue_search
  publish_deletion-Frame false row = Keeps-pure tt
  publish_deletion-Frame true row = enqueue_outbox-Frame _ _ _

  require_listed-Frame :
      (cached : Option (List String)) (username permission : String)
      → Keeps (HasAccounts us ms rs gs cs ss) (require_listed cached username permission)
  unfolding require_listed Roles.user_permissions store_permissions allow_if
  require_listed-Frame none username permission = search frame_rules depth 16
  require_listed-Frame (some permissions) username permission = search frame_rules

  pub require_permission-Frame :
      (token permission : String)
      → Keeps (HasAccounts us ms rs gs cs ss) (require_permission token permission)
  unfolding require_permission require cached_permissions
  require_permission-Frame token permission =
      search (frame_rules, current_user-Frame, require_listed-Frame) depth 24

  pub finish_deletion-Frame :
      (row : Option UserRow) (published : Bool)
      → Keeps (HasAccounts us ms rs gs cs ss) (finish_deletion row published)
  unfolding finish_deletion
  finish_deletion-Frame none published = Keeps-pure false
  finish_deletion-Frame (some row) published = search (frame_rules, publish_deletion-Frame) depth 16

  -- The end of a transaction that publishes an account.
  pub finish_publish-Frame :
      (published : Bool) (pid username : String) (created_at : ℕ) (is_verified : Bool)
      (roles : List String) (revision : ℕ)
      → Keeps (HasAccounts us ms rs gs cs ss) (
          when published (enqueue_user_upsert pid username created_at is_verified roles revision)
          >> (commit >> pure true))
  finish_publish-Frame published pid username created_at is_verified roles revision =
      search (frame_rules, when-Frame, enqueue_user_upsert-Frame) depth 16
