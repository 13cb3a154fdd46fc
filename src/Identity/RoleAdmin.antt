-- ===== src/Identity/RoleAdmin.antt =====
-- `PermissionAppService` of modules/identity/application/src/identity/permissions/service.rs, without
-- its paged list. Details of audit entries are left out.
use Prim.Native.String.{◌++◌}
use hegira.Base.{
  String, not, some, List, [], ◌∷◌, str_eq, if◌then◌else◌, ok, err, ok_or, ◌>>=◌ as and_then,
}
use hegira.Base.Actions.{◌>>=◌, ◌>>◌, pure, lift, some_or, raise_if, transaction}
use hegira.Base.Text.{trim}
use hegira.Identity.Errors.{
  ApplicationError, ApplicationResult, IdentityMessage, role_name_required, role_not_found,
  protected_admin_role_cannot_be_deleted, permission_users, permission_users_create,
  permission_users_update, permission_users_delete, permission_authorization, default_text,
  localized_validation, localized_not_found, localized_forbidden,
}
use hegira.Identity.Validation.{required_username, is_protected_admin_role}
use hegira.Identity.Store.{Service, utc_now, restore}
use hegira.Identity.Roles
use hegira.Identity.Roles.{
  Role, users_permission, create_permission, update_permission, delete_permission,
  authorization_permission, from_name, upsert_role,
}
use hegira.Identity.Outbox.{run, begin, commit}
use hegira.Identity.Auth.{via}
use hegira.Identity.Access.{CurrentUser, require_permission, insert_audit, record_audit, invalidate}

pub record PermissionDto : Type 0 where
  pub name : String
  pub display_name : String

pub record RoleDto : Type 0 where
  pub name : String
  pub permissions : List String

-- `validate_role_name`
unfoldable pub validate_role_name : String → ApplicationResult (Unit {0})
validate_role_name role_name =
    if str_eq (trim role_name) "" then err (localized_validation role_name_required) else ok tt

-- `parse_permission`
unfoldable pub parse_permission : String → ApplicationResult String
parse_permission permission =
    ok_or (from_name permission)
      (ApplicationError.validation ("Unknown permission: " ++ permission))

unfoldable pub parse_permissions : List String → ApplicationResult (List String)
parse_permissions [] = ok []
parse_permissions (permission ∷ permissions) =
    and_then (parse_permission permission)
      λ p. and_then (parse_permissions permissions) λ rest. ok (p ∷ rest)

-- `require`
unfoldable pub require_authorization : String → Service CurrentUser
require_authorization actor_token = require_permission actor_token authorization_permission

abbrev pub definition : String → IdentityMessage → PermissionDto
definition name key = record { name = name; display_name = default_text key }

unfoldable pub list_permissions : String → Service (List PermissionDto)
list_permissions actor_token = do
  require_authorization actor_token
  pure (
      definition users_permission permission_users
      ∷ definition create_permission permission_users_create
      ∷ definition update_permission permission_users_update
      ∷ definition delete_permission permission_users_delete
      ∷ definition authorization_permission permission_authorization
      ∷ [])

unfoldable pub role_dto : Role → Service RoleDto
role_dto role = do
  permissions ← via (Roles.role_permissions role.name)
  pure (record { name = role.name; permissions = permissions })

unfoldable pub roles_dto : List Role → Service (List RoleDto)
roles_dto [] = pure []
roles_dto (role ∷ roles) = do first ← role_dto role; rest ← roles_dto roles; pure (first ∷ rest)

unfoldable pub list_roles : String → Service (List RoleDto)
list_roles actor_token = do
  require_authorization actor_token
  roles ← via Roles.list_roles
  roles_dto roles

unfoldable pub get_role : String → String → Service RoleDto
get_role actor_token role_name = do
  require_authorization actor_token
  lift (validate_role_name role_name)
  found ← via (Roles.find_role role_name)
  role ← some_or found (localized_not_found role_not_found)
  role_dto role

-- `create_role_with_audit`: the role and the entry of the log, or neither.
unfoldable pub create_role_with_audit : String → String → Service (Unit {0})
create_role_with_audit role_name actor = transaction restore do
  begin
  now ← utc_now
  run (λ s. (tt, record s { roles = upsert_role role_name now s.roles }))
  insert_audit (record {
    actor = actor;
    action = "identity.roles.create";
    entity_type = "identity.role";
    entity_id = some role_name;
  })
  commit

unfoldable pub create_role : String → String → Service (Unit {0})
create_role actor_token name = do
  actor ← require_authorization actor_token
  lift (validate_role_name name)
  create_role_with_audit name actor.username
  invalidate

unfoldable pub update_role : String → String → String → Service (Unit {0})
update_role actor_token name new_name = do
  require_authorization actor_token
  lift (validate_role_name name)
  lift (validate_role_name new_name)
  raise_if (is_protected_admin_role name)
      (localized_forbidden protected_admin_role_cannot_be_deleted)
  updated ← via (Roles.update_role name new_name)
  raise_if (not updated) (localized_not_found role_not_found)
  invalidate
  record_audit actor_token "identity.roles.update" "identity.role" new_name

unfoldable pub delete_role : String → String → Service (Unit {0})
delete_role actor_token role_name = do
  require_authorization actor_token
  lift (validate_role_name role_name)
  raise_if (is_protected_admin_role role_name)
      (localized_forbidden protected_admin_role_cannot_be_deleted)
  deleted ← via (Roles.delete_role role_name)
  raise_if (not deleted) (localized_not_found role_not_found)
  invalidate
  record_audit actor_token "identity.roles.delete" "identity.role" role_name

unfoldable pub role_permissions : String → String → Service (List String)
role_permissions actor_token role_name = do
  require_authorization actor_token
  lift (validate_role_name role_name)
  via (Roles.role_permissions role_name)

unfoldable pub set_role_permissions : String → String → List String → Service (Unit {0})
set_role_permissions actor_token role_name names = do
  require_authorization actor_token
  lift (validate_role_name role_name)
  permissions ← lift (parse_permissions names)
  via (Roles.set_role_permissions role_name permissions)
  invalidate
  record_audit actor_token "identity.roles.set_permissions" "identity.role" role_name

unfoldable pub assign_user_role : String → String → String → Service (Unit {0})
assign_user_role actor_token username role_name = do
  require_authorization actor_token
  lift (required_username username)
  lift (validate_role_name role_name)
  via (Roles.assign_role username role_name)
  invalidate
  record_audit actor_token "identity.users.assign_role" "identity.user" username
