-- ===== src/Identity/Admin.antt =====
-- The requests that `UserAppService` and `PermissionAppService` of
-- modules/identity/application/src/identity answer, but for the paged lists, and the permission that
-- each is to ask for.
pub mod Granted
pub mod Allowed
pub mod Sound
pub mod Deleted
pub mod Renamed
pub mod Normal
use hegira.Base.{String, Bool, Option, List, [], ◌∷◌}
use hegira.Base.Actions.{◌>>◌, pure}
use hegira.Identity.Store.{World, IdentityServices, Service}
use hegira.Identity.Roles.{
  users_permission, create_permission, update_permission, delete_permission,
  authorization_permission,
}
use hegira.Identity.UserAdmin
use hegira.Identity.RoleAdmin

-- What is asked; the token of who asks comes apart.
pub data AdminRequest : Type 0 where
  get_user delete_user : String → AdminRequest
  create_user : String → String → Bool → List String → AdminRequest
  update_user : String → Option String → Bool → List String → AdminRequest
  list_permissions list_roles : AdminRequest
  get_role create_role delete_role role_permissions : String → AdminRequest
  update_role assign_user_role : String → String → AdminRequest
  set_role_permissions : String → List String → AdminRequest

-- What the services do, without the answer.
unfoldable pub serve_admin : String → AdminRequest → Service (Unit {0})
serve_admin token (AdminRequest.get_user name) = UserAdmin.get token name >> pure tt
serve_admin token (AdminRequest.create_user name password is_verified roles) =
    UserAdmin.create token name password is_verified roles >> pure tt
serve_admin token (AdminRequest.update_user name password is_verified roles) =
    UserAdmin.update token name password is_verified roles >> pure tt
serve_admin token (AdminRequest.delete_user name) = UserAdmin.delete token name
serve_admin token AdminRequest.list_permissions = RoleAdmin.list_permissions token >> pure tt
serve_admin token AdminRequest.list_roles = RoleAdmin.list_roles token >> pure tt
serve_admin token (AdminRequest.get_role role) = RoleAdmin.get_role token role >> pure tt
serve_admin token (AdminRequest.create_role role) = RoleAdmin.create_role token role
serve_admin token (AdminRequest.delete_role role) = RoleAdmin.delete_role token role
serve_admin token (AdminRequest.role_permissions role) =
    RoleAdmin.role_permissions token role >> pure tt
serve_admin token (AdminRequest.update_role old new) = RoleAdmin.update_role token old new
serve_admin token (AdminRequest.assign_user_role name role) =
    RoleAdmin.assign_user_role token name role
serve_admin token (AdminRequest.set_role_permissions role names) =
    RoleAdmin.set_role_permissions token role names

-- The permission that a request takes.
unfoldable pub permission_needed : AdminRequest → String
permission_needed (AdminRequest.get_user _) = users_permission
permission_needed (AdminRequest.create_user _ _ _ _) = create_permission
permission_needed (AdminRequest.update_user _ _ _ _) = update_permission
permission_needed (AdminRequest.delete_user _) = delete_permission
permission_needed _ = authorization_permission
