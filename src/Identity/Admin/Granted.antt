-- ===== src/Identity/Admin/Granted.antt =====
-- What is in the list of a user's permissions is granted by a role of the user that stands.
use Prim.Native.String.{compare}
use Prim.Native.Nat.{Ordering}
use hegira.Base.{
  String, ◌≡◌, refl, ap, Bool, true, false, ◌&&◌, Option, none, some, List, [], ◌∷◌, str_eq, find,
  any, Bool-cases, inl, inr, if◌then◌else◌, arith, eq_iff,
}
use hegira.Identity.Store.{UserRole, RolePermission, World}
use hegira.Identity.Roles.{
  is_member, holds, all_names, from_name, known_names, insert_distinct, granted_names,
  permissions_granted,
}

find-test :
    (q : String → Bool) (names : List String) (name : String)
    → find q names ≡ some name
    → q name ≡ true
unfolding find
find-test q [] name h = cc
find-test q (first ∷ names) name h = elim (Bool-cases (q first)) [
  | inl p ↦ ground (arith, h, p)
  | inr n ↦ find-test q names name (ground (arith, h, n))
]

module _ (permission : String) where
  abbrev has : List String → Bool
  has names = any (λ name. str_eq name permission) names

  known_step :
      (o : Option String) (name : String) (names rest : List String)
      → ((known : String) → o ≡ some known → str_eq known name ≡ true)
      → (has rest ≡ true → has names ≡ true)
      → has (elim o [ none ↦ rest | some known ↦ known ∷ rest ]) ≡ true
      → has (name ∷ names) ≡ true
  unfolding any
  known_step none name names rest same more h = ground (arith, more, h)
  known_step (some known) name names rest same more h =
      let equal = (eq_iff known name).0 (same known refl) in
      ground (arith, more, h, ap (λ (n : String). str_eq n permission) equal)

  from_name-same : (name known : String) → from_name name ≡ some known → str_eq known name ≡ true
  unfolding from_name
  from_name-same name known h = find-test (λ n. str_eq n name) all_names known h

  has-known_names : (names : List String) → has (known_names names) ≡ true → has names ≡ true
  unfolding known_names
  has-known_names [] h = h
  has-known_names (name ∷ names) h =
      known_step (from_name name) name names (known_names names) (from_name-same name)
        (has-known_names names) h

  insert_step :
      (o : Ordering) (a b : String) (names rest : List String)
      → (has rest ≡ true → has (a ∷ names) ≡ true)
      → has (elim o [
        | Ordering.lt ↦ a ∷ b ∷ names
        | Ordering.eq ↦ b ∷ names
        | Ordering.gt ↦ b ∷ rest
      ])
        ≡ true
      → has (a ∷ b ∷ names) ≡ true
  unfolding any
  insert_step Ordering.lt a b names rest more h = h
  insert_step Ordering.eq a b names rest more h = ground (arith, h)
  insert_step Ordering.gt a b names rest more h = ground (arith, h, more)

  has-insert_distinct :
      (a : String) (names : List String)
      → has (insert_distinct a names) ≡ true
      → has (a ∷ names) ≡ true
  unfolding insert_distinct
  has-insert_distinct a [] h = h
  has-insert_distinct a (b ∷ names) h =
      insert_step (compare a b) a b names (insert_distinct a names) (has-insert_distinct a names) h

module _ (member : UserRole → Bool) (permission : String) where
  abbrev grants : RolePermission → UserRole → Bool
  grants grant row = str_eq grant.role_name row.role_name && str_eq grant.permission_name permission

  abbrev is_held : List RolePermission → List UserRole → Bool
  is_held all rows = any (λ row. member row && any (λ grant. grants grant row) all) rows

  held_more :
      (grant : RolePermission) (all : List RolePermission) (rows : List UserRole)
      → is_held all rows ≡ true
      → is_held (grant ∷ all) rows ≡ true
  unfolding any
  held_more grant all [] h = h
  held_more grant all (row ∷ rows) h = ground (arith, h, held_more grant all rows)

  held_by :
      (grant : RolePermission) (all : List RolePermission) (rows : List UserRole)
      → str_eq grant.permission_name permission ≡ true
      → any (λ row. member row && str_eq row.role_name grant.role_name) rows ≡ true
      → is_held (grant ∷ all) rows ≡ true
  unfolding any
  held_by grant all [] e h = h
  held_by grant all (row ∷ rows) e h = ground (
    arith,
    e,
    h,
    eq_iff row.role_name grant.role_name,
    eq_iff grant.role_name row.role_name,
    held_by grant all rows e,
  )

  granted_more :
      (grant : RolePermission) (rows : List UserRole) (all : List RolePermission)
      (names : List String)
      → any (λ row. member row && str_eq row.role_name grant.role_name) rows ≡ true
      → (has permission names ≡ true → is_held all rows ≡ true)
      → has permission (grant.permission_name ∷ names) ≡ true
      → is_held (grant ∷ all) rows ≡ true
  unfolding any
  granted_more grant rows all names e more h =
      elim (Bool-cases (str_eq grant.permission_name permission)) [
        | inl same ↦ held_by grant all rows same e
        | inr other ↦ held_more grant all rows (more (ground (arith, h, other)))
      ]

  granted_step :
      (passes : Bool) (grant : RolePermission) (rows : List UserRole) (all : List RolePermission)
      (names : List String)
      → any (λ row. member row && str_eq row.role_name grant.role_name) rows ≡ passes
      → (has permission names ≡ true → is_held all rows ≡ true)
      → has permission (if passes then insert_distinct grant.permission_name names else names)
        ≡ true
      → is_held (grant ∷ all) rows ≡ true
  granted_step false grant rows all names e more h = held_more grant all rows (more h)
  granted_step true grant rows all names e more h =
      granted_more grant rows all names e more
        (has-insert_distinct permission grant.permission_name names h)

  has-granted_names :
      (rows : List UserRole) (all : List RolePermission)
      → has permission (
          granted_names
            (λ grant. any (λ row. member row && str_eq row.role_name grant.role_name) rows)
            all)
        ≡ true
      → is_held all rows ≡ true
  unfolding granted_names any
  has-granted_names rows [] h = cc h
  has-granted_names rows (grant ∷ all) h =
      granted_step _ grant rows all _ refl (has-granted_names rows all) h

-- A permission in the list of a user is one that a role of the user grants.
pub permissions_granted-hold :
    (username permission : String) (s : World)
    → any (λ name. str_eq name permission) (permissions_granted username s) ≡ true
    → holds username permission s ≡ true
unfolding permissions_granted holds
permissions_granted-hold username permission s h =
    has-granted_names (is_member username s) permission s.user_roles s.role_permissions
      (has-known_names permission _ h)
