-- ===== src/Identity/Admin/Sound.antt =====
-- The administration of users and roles keeps the sessions sound.
pub mod Served
use hegira.Base.{
  ℕ, String, Bool, true, false, Option, none, some, List, [], ◌∷◌, any, find, arith, Result, ok,
  err,
}
use hegira.Base.Actions.{◌>>◌, pure}
use hegira.Base.Keeps.{Keeps, Keeps-bind, Keeps-pure}
use hegira.Identity.Errors.{ApplicationError}
use hegira.Identity.Store.{UserRow, RoleRow, World, Service}
use hegira.Identity.Sessions
use hegira.Identity.Sessions.Sound.{
  HasSoundSessions, statement-Sound, transaction-Sound, query-Sound,
}
use hegira.Identity.Roles
use hegira.Identity.Roles.{insert_member}
use hegira.Identity.Outbox.{run, writer_error}
use hegira.Identity.Auth.{via, verify_token, hash}
use hegira.Identity.Auth.Sound.{service_rules}
use hegira.Identity.Auth.Sound.Writes.{
  write_rules, run-Sound, begin-Sound, delete_managed_user-Sound,
}
use hegira.Identity.Managed.{
  CreateManagedUser, UpdateManagedUser, insert_roles, set_roles, revived, insert_or_revive,
  create_managed_user, finish_update, update_managed_user,
}
use hegira.Identity.Access.{
  CurrentUser, user_exists, current_user, require, require_permission, cached_permissions,
  store_permissions, allow_if, require_listed, to_option, attempt, insert_audit, record_audit,
  invalidate,
}

to_option-Sound :
    {A : Type 0} (m : Result ApplicationError A × World)
    → HasSoundSessions m.1
    → HasSoundSessions (to_option m).1
to_option-Sound (ok a, s) h = h
to_option-Sound (err e, s) h = h

pub attempt-Sound :
    {A : Type 0} (m : Service A) → Keeps HasSoundSessions m → Keeps HasSoundSessions (attempt m)
unfolding attempt
attempt-Sound m km = record { at = λ r s h. to_option-Sound (m r s) (km.at r s h) }

pub insert_member-Sound :
    (id : ℕ) (role : String) (s : World)
    → HasSoundSessions s
    → HasSoundSessions (insert_member id role s).1
unfolding insert_member
insert_member-Sound id role s h = ground arith

pub current_user-Sound : (token : String) → Keeps HasSoundSessions (current_user token)
unfolding current_user verify_token user_exists
current_user-Sound token = search service_rules depth 16

require_listed-Sound :
    (cached : Option (List String)) (username permission : String)
    → Keeps HasSoundSessions (require_listed cached username permission)
unfolding require_listed Roles.user_permissions store_permissions allow_if
require_listed-Sound none username permission = search service_rules depth 16
require_listed-Sound (some permissions) username permission = search service_rules depth 16

pub require_permission-Sound :
    (token permission : String) → Keeps HasSoundSessions (require_permission token permission)
unfolding require_permission require cached_permissions
require_permission-Sound token permission =
    search (service_rules, current_user-Sound, require_listed-Sound) depth 16

pub move_role-Sound :
    (role : Option RoleRow) (old new : String)
    → Keeps HasSoundSessions (Roles.move_role role old new)
unfolding Roles.move_role
move_role-Sound none old new = Keeps-pure false
move_role-Sound (some role) old new = search (service_rules, statement-Sound) depth 16

pub grant_all-Sound :
    (role : String) (names : List String) → Keeps HasSoundSessions (Roles.grant_all role names)
unfolding Roles.grant_all
grant_all-Sound role [] = Keeps-pure tt
grant_all-Sound role (name ∷ names) =
    Keeps-bind _ _ (query-Sound _)
      λ _. Keeps-bind _ _ (statement-Sound _ _ λ s h. h) λ _. grant_all-Sound role names

insert_roles-Sound : (id : ℕ) (roles : List String) → Keeps HasSoundSessions (insert_roles id roles)
unfolding insert_roles
insert_roles-Sound id [] = Keeps-pure tt
insert_roles-Sound id (role ∷ roles) =
    Keeps-bind _ _ (statement-Sound _ _ (insert_member-Sound id role))
      λ _. insert_roles-Sound id roles

revived-Sound :
    (command : CreateManagedUser) (old : UserRow) (s : World)
    → HasSoundSessions s
    → HasSoundSessions (revived command old s).1
revived-Sound command old s h = ground arith

pub insert_or_revive-Sound :
    (command : CreateManagedUser) (pid : String) (now : ℕ) (s : World)
    → HasSoundSessions s
    → HasSoundSessions (insert_or_revive command pid now s).1
unfolding insert_or_revive
insert_or_revive-Sound command pid now s h = ground (arith, revived-Sound command _ s h)

pub set_roles-Sound :
    (username : String) (roles : List String) → Keeps HasSoundSessions (set_roles username roles)
unfolding set_roles
set_roles-Sound username roles =
    Keeps-bind _ _ (statement-Sound _ _ λ s h. h)
      λ id. Keeps-bind _ _ (run-Sound _ λ s h. h) λ _. insert_roles-Sound id roles

pub record_audit-Sound :
    (token action entity_type entity_id : String)
    → Keeps HasSoundSessions (record_audit token action entity_type entity_id)
unfolding record_audit insert_audit
record_audit-Sound token action entity_type entity_id =
    Keeps-bind _ _ (attempt-Sound _ (current_user-Sound token))
      λ _. Keeps-bind _ _ (attempt-Sound _ (run-Sound _ λ s h. h)) λ _. Keeps-pure tt
