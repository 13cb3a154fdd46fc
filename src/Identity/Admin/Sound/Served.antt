-- ===== src/Identity/Admin/Sound/Served.antt =====
-- Every administration request keeps the sessions sound.
use hegira.Base.{String, Bool, true, false, Option, none, some, List, [], ◌∷◌}
use hegira.Base.Keeps.{Keeps, Keeps-bind, Keeps-pure}
use hegira.Identity.Store.{UserRow, Service}
use hegira.Identity.Sessions.Sound.{HasSoundSessions, statement-Sound, transaction-Sound}
use hegira.Identity.Users.{find_by_username}
use hegira.Identity.Roles
use hegira.Identity.Roles.{Role}
use hegira.Identity.Writer.{when}
use hegira.Identity.Managed.{
  CreateManagedUser, UpdateManagedUser, user_roles, create_managed_user, finish_update,
  update_managed_user,
}
use hegira.Identity.Auth.{hash}
use hegira.Identity.Auth.Sound.{service_rules}
use hegira.Identity.Auth.Sound.Writes.{
  write_rules, run-Sound, begin-Sound, delete_managed_user-Sound,
}
use hegira.Identity.Auth.Sound.Accounts.{conflict_as_existing-Sound}
use hegira.Identity.Access.{user_exists, insert_audit, invalidate}
use hegira.Identity.UserAdmin
use hegira.Identity.RoleAdmin
use hegira.Identity.RoleAdmin.{require_authorization, role_dto, roles_dto, create_role_with_audit}
use hegira.Identity.Admin.{AdminRequest, serve_admin}
use hegira.Identity.Admin.Sound.{
  require_permission-Sound, move_role-Sound, grant_all-Sound, insert_member-Sound, set_roles-Sound,
  insert_or_revive-Sound, record_audit-Sound,
}

pub when-Sound :
    (b : Bool) (m : Service (Unit {0}))
    → Keeps HasSoundSessions m
    → Keeps HasSoundSessions (when b m)
when-Sound true m km = km
when-Sound false m km = Keeps-pure tt

create_managed_user-Sound :
    (command : CreateManagedUser) → Keeps HasSoundSessions (create_managed_user command)
unfolding create_managed_user
create_managed_user-Sound command = transaction-Sound _ (
    search (write_rules, statement-Sound, insert_or_revive-Sound, set_roles-Sound, when-Sound) depth
      30)

finish_update-Sound :
    (command : UpdateManagedUser) (row : Option UserRow)
    → Keeps HasSoundSessions (finish_update command row)
unfolding finish_update
finish_update-Sound command none = Keeps-pure none
finish_update-Sound command (some row) = search (write_rules, set_roles-Sound, when-Sound) depth 24

update_managed_user-Sound :
    (command : UpdateManagedUser) → Keeps HasSoundSessions (update_managed_user command)
unfolding update_managed_user
update_managed_user-Sound command = transaction-Sound _ (
    Keeps-bind _ _ (begin-Sound _)
      λ _. Keeps-bind _ _ (run-Sound _ λ s h. h) λ row. finish_update-Sound command row)

invalidate-Sound : Keeps HasSoundSessions invalidate
unfolding invalidate
invalidate-Sound = search service_rules

ruleset admin_rules =
    (service_rules, require_permission-Sound, invalidate-Sound, record_audit-Sound)

get-Sound : (token name : String) → Keeps HasSoundSessions (UserAdmin.get token name)
unfolding UserAdmin.get find_by_username user_roles
get-Sound token name = search admin_rules depth 16

verified_now-Sound : (b : Bool) → Keeps HasSoundSessions (UserAdmin.verified_now b)
unfolding UserAdmin.verified_now
verified_now-Sound true = search service_rules
verified_now-Sound false = Keeps-pure none

hash_option-Sound : (o : Option String) → Keeps HasSoundSessions (UserAdmin.hash_option o)
unfolding UserAdmin.hash_option hash
hash_option-Sound none = Keeps-pure none
hash_option-Sound (some password) = search service_rules

create-Sound :
    (token name password : String) (is_verified : Bool) (roles : List String)
    → Keeps HasSoundSessions (UserAdmin.create token name password is_verified roles)
unfolding UserAdmin.create user_exists hash
create-Sound token name password is_verified roles =
    search
      (
        admin_rules, get-Sound, verified_now-Sound, create_managed_user-Sound,
        conflict_as_existing-Sound,
      )
      depth 40

update-Sound :
    (token name : String) (password : Option String) (is_verified : Bool) (roles : List String)
    → Keeps HasSoundSessions (UserAdmin.update token name password is_verified roles)
unfolding UserAdmin.update user_exists
update-Sound token name password is_verified roles =
    search
      (admin_rules, get-Sound, verified_now-Sound, hash_option-Sound, update_managed_user-Sound)
      depth 40

delete-Sound : (token name : String) → Keeps HasSoundSessions (UserAdmin.delete token name)
unfolding UserAdmin.delete
delete-Sound token name = search (admin_rules, delete_managed_user-Sound) depth 24

role_dto-Sound : (role : Role) → Keeps HasSoundSessions (role_dto role)
unfolding role_dto Roles.role_permissions
role_dto-Sound role = search service_rules

roles_dto-Sound : (roles : List Role) → Keeps HasSoundSessions (roles_dto roles)
unfolding roles_dto
roles_dto-Sound [] = Keeps-pure []
roles_dto-Sound (role ∷ roles) =
    Keeps-bind _ _ (role_dto-Sound role)
      λ first. Keeps-bind _ _ (roles_dto-Sound roles) λ rest. Keeps-pure (first ∷ rest)

create_role_with_audit-Sound :
    (role actor : String) → Keeps HasSoundSessions (create_role_with_audit role actor)
unfolding create_role_with_audit insert_audit
create_role_with_audit-Sound role actor =
    transaction-Sound _ (search (write_rules, statement-Sound) depth 24)

set_role_permissions-Sound :
    (role : String) (names : List String)
    → Keeps HasSoundSessions (Roles.set_role_permissions role names)
unfolding Roles.set_role_permissions
set_role_permissions-Sound role names =
    transaction-Sound _ (search (service_rules, statement-Sound, grant_all-Sound) depth 24)

update_role-Sound : (old new : String) → Keeps HasSoundSessions (Roles.update_role old new)
unfolding Roles.update_role
update_role-Sound old new = transaction-Sound _ (search (service_rules, move_role-Sound) depth 16)

assign_role-Sound : (name role : String) → Keeps HasSoundSessions (Roles.assign_role name role)
unfolding Roles.assign_role
assign_role-Sound name role = search (service_rules, statement-Sound, insert_member-Sound) depth 16

ruleset role_rules = (
  admin_rules, role_dto-Sound, roles_dto-Sound, create_role_with_audit-Sound,
  set_role_permissions-Sound, update_role-Sound, assign_role-Sound,
)

-- An administration request, whatever it is and wherever it fails, keeps one row for every token and
-- every session within its maximum.
pub serve_admin-Sound :
    (token : String) (request : AdminRequest) → Keeps HasSoundSessions (serve_admin token request)
unfolding serve_admin RoleAdmin.list_permissions RoleAdmin.list_roles RoleAdmin.get_role
    RoleAdmin.create_role RoleAdmin.delete_role RoleAdmin.role_permissions RoleAdmin.update_role
    RoleAdmin.assign_user_role RoleAdmin.set_role_permissions require_authorization Roles.list_roles
    Roles.find_role Roles.delete_role Roles.role_permissions
serve_admin-Sound token (AdminRequest.get_user name) = search (role_rules, get-Sound)
serve_admin-Sound token (AdminRequest.create_user name password is_verified roles) =
    search (role_rules, create-Sound)
serve_admin-Sound token (AdminRequest.update_user name password is_verified roles) =
    search (role_rules, update-Sound)
serve_admin-Sound token (AdminRequest.delete_user name) = delete-Sound token name
serve_admin-Sound token AdminRequest.list_permissions = search role_rules depth 24
serve_admin-Sound token AdminRequest.list_roles = search role_rules depth 24
serve_admin-Sound token (AdminRequest.get_role role) = search role_rules depth 24
serve_admin-Sound token (AdminRequest.create_role role) = search role_rules depth 24
serve_admin-Sound token (AdminRequest.delete_role role) =
    search (role_rules, statement-Sound) depth 24
serve_admin-Sound token (AdminRequest.role_permissions role) = search role_rules depth 24
serve_admin-Sound token (AdminRequest.update_role old new) = search role_rules depth 24
serve_admin-Sound token (AdminRequest.assign_user_role name role) = search role_rules depth 24
serve_admin-Sound token (AdminRequest.set_role_permissions role names) = search role_rules depth 24
