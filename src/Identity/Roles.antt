-- ===== src/Identity/Roles.antt =====
-- The registry of permissions (modules/identity/application_contracts/src/permissions.rs and
-- identity/permissions.rs beside it) and `SqliteAuthorizationRepository` of
-- modules/identity/sqlx/src/identity/authorization/sqlite_repository.rs, without its paged list. A
-- role that is deleted keeps its row, its permissions and its members.
use Prim.Native.String.{compare}
use Prim.Native.Nat.{Ordering}
use hegira.Base.{
  ℕ, String, Bool, true, false, ◌&&◌, ◌||◌, not, Option, none, some, List, [], ◌∷◌, ◌++◌, ◌==◌,
  str_eq, is_none, is_some, if◌then◌else◌, find, any, retain, update_where, Result, ok, err,
}
use hegira.Base.Actions.{◌>>=◌, ◌>>◌, pure, some_or, transaction}
use hegira.Identity.Errors.{DomainError}
use hegira.Identity.Store.{
  UserRow, UserRole, RoleRow, RolePermission, World, Repository, utc_now, statement, query,
  db_error, restore,
}
use hegira.Identity.Sessions.{is_user}

-- The names of `identity::permissions`.
abbrev pub users_permission : String
users_permission = "Identity.Users"

abbrev pub create_permission : String
create_permission = "Identity.Users.Create"

abbrev pub update_permission : String
update_permission = "Identity.Users.Update"

abbrev pub delete_permission : String
delete_permission = "Identity.Users.Delete"

abbrev pub authorization_permission : String
authorization_permission = "Identity.Authorization"

-- `all_names`
abbrev pub all_names : List String
all_names =
    users_permission ∷ create_permission ∷ update_permission ∷ delete_permission
    ∷ authorization_permission ∷ []

-- `from_name`
unfoldable pub from_name : String → Option String
from_name name = find (λ known. str_eq known name) all_names

-- `filter_map(|name| permissions::from_name(&name))`
unfoldable pub known_names : List String → List String
known_names [] = []
known_names (name ∷ names) =
    let rest = known_names names in elim (from_name name) [ none ↦ rest | some p ↦ p ∷ rest ]

pub record Role : Type 0 where
  pub name : String
  pub created_at : ℕ

abbrev pub is_role : String → RoleRow → Bool
is_role name role = str_eq role.name name && is_none role.deleted_at

-- Whether a row of `user_roles` is of a user that stands, with a role that stands.
unfoldable pub is_member : String → World → UserRole → Bool
is_member username s row =
    any (λ user. user.id == row.user_id && is_user username user) s.users
    && any (is_role row.role_name) s.roles

-- The `EXISTS` of `user_has_permission`.
unfoldable pub holds : String → String → World → Bool
holds username permission s =
    any
      (λ row.
        is_member username s row
        && any
            (λ grant.
              str_eq grant.role_name row.role_name && str_eq grant.permission_name permission)
            s.role_permissions)
      s.user_roles

-- `user_has_permission`
unfoldable pub user_has_permission : String → String → Repository Bool
user_has_permission username permission = query (holds username permission)

-- `DISTINCT … ORDER BY`
unfoldable pub insert_distinct : String → List String → List String
insert_distinct a [] = a ∷ []
insert_distinct a (b ∷ names) =
    let rest = insert_distinct a names in
    elim (compare a b) [
      | Ordering.lt ↦ a ∷ b ∷ names
      | Ordering.eq ↦ b ∷ names
      | Ordering.gt ↦ b ∷ rest
    ]

-- The names of the grants that pass.
unfoldable pub granted_names : (RolePermission → Bool) → List RolePermission → List String
unfolding insert_distinct
granted_names p [] = []
granted_names p (grant ∷ grants) =
    let rest = granted_names p grants in
    if p grant then insert_distinct grant.permission_name rest else rest

-- The rows of the query of `user_permissions`.
unfoldable pub permissions_granted : String → World → List String
permissions_granted username s = known_names (
    granted_names
      (λ grant.
        any (λ row. is_member username s row && str_eq row.role_name grant.role_name) s.user_roles)
      s.role_permissions)

-- `user_permissions`
unfoldable pub user_permissions : String → Repository (List String)
unfolding permissions_granted
user_permissions username = query (permissions_granted username)

-- `INSERT INTO user_roles … ON CONFLICT (user_id, role_name) DO NOTHING`
unfoldable pub add_member : ℕ → String → List UserRole → List UserRole
add_member user_id role_name rows =
    if any (λ row. row.user_id == user_id && str_eq row.role_name role_name) rows
    then rows
    else rows ++ record { user_id = user_id; role_name = role_name } ∷ []

-- The insertion, which the foreign key to `roles` refuses for a role that has no row.
unfoldable pub insert_member : ℕ → String → World → Result String (Unit {0}) × World
insert_member user_id role_name s =
    if any (λ role. str_eq role.name role_name) s.roles
    then (ok tt, record s { user_roles = add_member user_id role_name s.user_roles })
    else (err "FOREIGN KEY constraint failed", s)

abbrev pub user_id_of : Option UserRow → Option ℕ
user_id_of none = none
user_id_of (some user) = some user.id

-- `assign_role`
unfoldable pub assign_role : String → String → Repository (Unit {0})
assign_role username role_name = do
  found ← query (λ s. user_id_of (find (is_user username) s.users))
  user_id ← some_or found (DomainError.not_found "User not found")
  statement db_error (insert_member user_id role_name)

insert_role_sorted : Role → List Role → List Role
insert_role_sorted a [] = a ∷ []
insert_role_sorted a (b ∷ roles) =
    let rest = insert_role_sorted a roles in
    elim (compare a.name b.name) [ Ordering.gt ↦ b ∷ rest | _ ↦ a ∷ b ∷ roles ]

unfoldable pub standing_roles : List RoleRow → List Role
unfolding insert_role_sorted
standing_roles [] = []
standing_roles (row ∷ rows) =
    let rest = standing_roles rows in
    if is_none row.deleted_at
    then insert_role_sorted (record { name = row.name; created_at = row.created_at }) rest
    else rest

-- `list_roles`
unfoldable pub list_roles : Repository (List Role)
list_roles = query (λ s. standing_roles s.roles)

abbrev pub map_role : Option RoleRow → Option Role
map_role none = none
map_role (some row) = some (record { name = row.name; created_at = row.created_at })

-- `find_role`
unfoldable pub find_role : String → Repository (Option Role)
find_role role_name = query (λ s. map_role (find (is_role role_name) s.roles))

-- `INSERT INTO roles … ON CONFLICT (name) DO UPDATE SET deleted_at = NULL`
unfoldable pub upsert_role : String → ℕ → List RoleRow → List RoleRow
upsert_role name created_at roles =
    if any (λ role. str_eq role.name name) roles
    then update_where (λ role. str_eq role.name name) (λ role. record role { deleted_at = none })
        roles
    else roles ++ record { name = name; created_at = created_at; deleted_at = none } ∷ []

abbrev pub upsert : String → ℕ → Repository (Unit {0})
upsert name created_at =
    statement db_error λ s. (ok tt, record s { roles = upsert_role name created_at s.roles })

-- `create_role`
unfoldable pub create_role : String → Repository (Unit {0})
create_role role_name = do now ← utc_now; upsert role_name now

-- `INSERT INTO role_permissions … ON CONFLICT (role_name, permission_name) DO NOTHING`
unfoldable pub add_grant : String → String → List RolePermission → List RolePermission
add_grant role_name permission grants =
    if any (λ grant. str_eq grant.role_name role_name && str_eq grant.permission_name permission)
      grants
    then grants
    else grants ++ record { role_name = role_name; permission_name = permission } ∷ []

-- `INSERT … SELECT … FROM role_permissions WHERE role_name = ?`
unfoldable pub copy_grants :
    String → String → List RolePermission → List RolePermission → List RolePermission
copy_grants old new [] grants = grants
copy_grants old new (grant ∷ rows) grants =
    let copied = copy_grants old new rows (add_grant new grant.permission_name grants) in
    let rest = copy_grants old new rows grants in
    if str_eq grant.role_name old then copied else rest

unfoldable pub copy_members : String → String → List UserRole → List UserRole → List UserRole
copy_members old new [] members = members
copy_members old new (row ∷ rows) members =
    let copied = copy_members old new rows (add_member row.user_id new members) in
    let rest = copy_members old new rows members in
    if str_eq row.role_name old then copied else rest

-- `UPDATE roles SET deleted_at = ?1 WHERE name = ?2 AND deleted_at IS NULL`
unfoldable pub remove_role : String → ℕ → List RoleRow → List RoleRow
remove_role role_name now roles =
    update_where (is_role role_name) (λ role. record role { deleted_at = some now }) roles

-- `delete_role`
unfoldable pub delete_role : String → Repository Bool
delete_role role_name = do
  now ← utc_now
  statement db_error λ s.
      (ok (any (is_role role_name) s.roles), record s { roles = remove_role role_name now s.roles })

-- The statements of `update_role` for a role that was found.
unfoldable pub move_role : Option RoleRow → String → String → Repository Bool
move_role none role_name new_role_name = pure false
move_role (some role) role_name new_role_name = do
  upsert new_role_name role.created_at
  statement db_error λ s. (
    ok tt,
    record s {
      role_permissions = copy_grants role_name new_role_name s.role_permissions s.role_permissions;
    },
  )
  statement db_error λ s. (
    ok tt,
    record s { user_roles = copy_members role_name new_role_name s.user_roles s.user_roles },
  )
  now ← utc_now
  statement db_error λ s. (ok tt, record s { roles = remove_role role_name now s.roles })
  query (λ s. tt)
  pure true

-- `update_role`
unfoldable pub update_role : String → String → Repository Bool
update_role role_name new_role_name = transaction restore do
  query (λ s. tt)
  found ← query (λ s. find (is_role role_name) s.roles)
  move_role found role_name new_role_name

-- `role_permissions`
unfoldable pub role_permissions : String → Repository (List String)
role_permissions role_name = query λ s. known_names (
    granted_names (λ grant. str_eq grant.role_name role_name && any (is_role role_name) s.roles)
      s.role_permissions)

abbrev pub grant_row : String → String → Repository (Unit {0})
grant_row role_name permission =
    statement db_error λ s.
      (ok tt, record s { role_permissions = add_grant role_name permission s.role_permissions })

-- The loop over the new permissions; the registry of the database gets each name first.
unfoldable pub grant_all : String → List String → Repository (Unit {0})
grant_all role_name [] = pure tt
grant_all role_name (permission ∷ permissions) = do
  query (λ s. tt)
  grant_row role_name permission
  grant_all role_name permissions

-- `set_role_permissions`
unfoldable pub set_role_permissions : String → List String → Repository (Unit {0})
set_role_permissions role_name permissions = transaction restore do
  query (λ s. tt)
  now ← utc_now
  upsert role_name now
  statement db_error λ s. (
    ok tt,
    record s {
      role_permissions =
          retain (λ grant. not (str_eq grant.role_name role_name)) s.role_permissions;
    },
  )
  grant_all role_name permissions
  query (λ s. tt)

-- `ensure_identity_seed_data`
unfoldable pub ensure_identity_seed_data : Repository (Unit {0})
ensure_identity_seed_data = transaction restore do
  query (λ s. tt)
  now ← utc_now
  upsert "admin" now
  grant_all "admin" all_names
  statement db_error λ s. (
    ok tt,
    record s {
      role_permissions =
          retain
            (λ grant.
              not (str_eq grant.role_name "admin") || is_some (from_name grant.permission_name))
            s.role_permissions;
    },
  )
  query (λ s. tt)
