-- ===== src/Identity/UserAdmin.antt =====
-- `UserAppService` of modules/identity/application/src/identity/users/service.rs, without its paged
-- list. Details of audit entries are left out.
use hegira.Base.{
  ℕ, String, Bool, true, false, ◌&&◌, not, Option, none, some, List, [], ◌∷◌, ◌++◌, str_eq, is_none,
  is_some, if◌then◌else◌, any,
}
use hegira.Base.Actions.{◌>>=◌, ◌>>◌, pure, gets, lift, some_or, raise_if}
use hegira.Base.Text.{trim, eq_ignore_ascii_case}
use hegira.Identity.Errors.{
  user_not_found, user_already_exists, protected_admin_cannot_be_deleted, localized_conflict,
  localized_not_found, localized_forbidden,
}
use hegira.Identity.Validation.{
  required_username, required_username_password, optional_password, is_protected_admin_username,
  default_admin_role_name,
}
use hegira.Identity.Store.{Service, utc_now}
use hegira.Identity.Users.{User, find_by_username}
use hegira.Identity.Emails.{delete_managed_user}
use hegira.Identity.Roles.{
  users_permission, create_permission, update_permission, delete_permission,
}
use hegira.Identity.Auth.{via, hash}
use hegira.Identity.Auth.Accounts.{conflict_as_existing}
use hegira.Identity.Access.{user_exists, require_permission, record_audit, invalidate}
use hegira.Identity.Managed.{user_roles, create_managed_user, update_managed_user}

pub record UserDto : Type 0 where
  pub id : ℕ
  pub pid : String
  pub username : String
  pub created_at : ℕ
  pub is_verified : Bool
  pub roles : List String

-- `user_dto`
abbrev pub user_dto : User → List String → UserDto
user_dto user roles = record {
  id = user.id;
  pid = user.pid;
  username = user.username;
  created_at = user.created_at;
  is_verified = is_some user.email_verified_at;
  roles = roles;
}

-- The fold of `normalized_roles`, with what was taken so far.
unfoldable pub distinct_roles : List String → List String → List String
distinct_roles taken [] = taken
distinct_roles taken (text ∷ texts) =
    let role = trim text in
    let skipped = distinct_roles taken texts in
    let added = distinct_roles (taken ++ role ∷ []) texts in
    if str_eq role "" then skipped else if any (λ r. str_eq r role) taken then skipped else added

-- `normalized_roles`
unfoldable pub normalized_roles : String → List String → List String
normalized_roles username texts =
    let roles = distinct_roles [] texts in
    if is_protected_admin_username username
      && not (any (λ role. eq_ignore_ascii_case role default_admin_role_name) roles)
    then roles ++ default_admin_role_name ∷ []
    else roles

unfoldable pub get : String → String → Service UserDto
get actor_token username = do
  require_permission actor_token users_permission
  found ← via (find_by_username username)
  user ← some_or found (localized_not_found user_not_found)
  roles ← via (user_roles user.username)
  pure (user_dto user roles)

-- `is_verified.then(Utc::now)`
unfoldable pub verified_now : Bool → Service (Option ℕ)
verified_now false = pure none
verified_now true = do now ← utc_now; pure (some now)

unfoldable pub create : String → String → String → Bool → List String → Service UserDto
create actor_token username password is_verified texts = do
  require_permission actor_token create_permission
  lift (required_username_password username password)
  exists ← via (user_exists username)
  raise_if exists (localized_conflict user_already_exists)
  password_hash ← hash password
  verified_at ← verified_now is_verified
  publish_search ← gets (λ r s. r.publish_search)
  conflict_as_existing (
      create_managed_user (record {
        username = username;
        password_hash = password_hash;
        email_verified_at = verified_at;
        roles = normalized_roles username texts;
        publish_search = publish_search;
      }))
  invalidate
  record_audit actor_token "identity.users.create" "identity.user" username
  get actor_token username

unfoldable pub hash_option : Option String → Service (Option String)
hash_option none = pure none
hash_option (some password) = do password_hash ← hash password; pure (some password_hash)

unfoldable pub update : String → String → Option String → Bool → List String → Service UserDto
update actor_token username password is_verified texts = do
  require_permission actor_token update_permission
  lift (required_username username)
  exists ← via (user_exists username)
  raise_if (not exists) (localized_not_found user_not_found)
  given ← lift (optional_password password)
  password_hash ← hash_option given
  verified_at ← verified_now is_verified
  publish_search ← gets (λ r s. r.publish_search)
  updated ← update_managed_user (record {
    username = username;
    password_hash = password_hash;
    email_verified_at = verified_at;
    roles = normalized_roles username texts;
    publish_search = publish_search;
  })
  raise_if (is_none updated) (localized_not_found user_not_found)
  invalidate
  record_audit actor_token "identity.users.update" "identity.user" username
  get actor_token username

unfoldable pub delete : String → String → Service (Unit {0})
delete actor_token username = do
  require_permission actor_token delete_permission
  raise_if (is_protected_admin_username username)
      (localized_forbidden protected_admin_cannot_be_deleted)
  publish_search ← gets (λ r s. r.publish_search)
  deleted ← delete_managed_user username publish_search
  raise_if (not deleted) (localized_not_found user_not_found)
  invalidate
  record_audit actor_token "identity.users.delete" "identity.user" username
