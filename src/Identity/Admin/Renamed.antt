-- ===== src/Identity/Admin/Renamed.antt =====
-- What the renaming of a role does.
use native.Mathlib.Decide.{ℕ_discrete}
use hegira.Base.{
  ℕ, String, ◌≡◌, refl, sym, ap, ◌∙◌, subst, Bool, true, false, ◌&&◌, ◌||◌, not, Option, none, some,
  List, [], ◌∷◌, ◌==◌, str_eq, any, any-append, update_where, arith, Result, ok, eq_iff,
}
use hegira.Base.Actions.{◌>>=◌, pure, bind-eq-ok, transaction}
use hegira.Identity.Errors.{DomainError}
use hegira.Identity.Store.{
  UserRole, RoleRow, RolePermission, World, IdentityServices, Repository, statement, db_error,
  outside,
}
use hegira.Identity.Roles.{
  is_role, upsert_role, add_member, copy_members, remove_role, move_role, update_role,
}
use hegira.Identity.Auth.Success.{tick}
use hegira.Identity.Auth.Once.{statement_last}
use hegira.Identity.Auth.Taken.{settle-eq-ok}

-- A user has a role in the table.
abbrev pub is_membership : ℕ → String → UserRole → Bool
is_membership id role row = row.user_id == id && str_eq row.role_name role

-- A role has a permission in the table.
abbrev pub is_grant : String → String → RolePermission → Bool
is_grant role permission row = str_eq row.role_name role && str_eq row.permission_name permission

add_member-any :
    (id other : ℕ) (role : String) (rows : List UserRole)
    → any (is_membership id role) (add_member other role rows)
      ≡ any (is_membership id role) rows || other == id
unfolding add_member any
add_member-any id other role rows = elim (ℕ_discrete other id) [
  | yes p ↦
      subst
        (λ (x : ℕ).
          any (is_membership x role) (add_member other role rows)
          ≡ any (is_membership x role) rows || other == x)
        p
        (ground (
          arith,
          any-append (is_membership other role) rows
              (record { user_id = other; role_name = role } ∷ []),
          eq_iff role role,
        ))
  | no p ↦ ground (
    arith,
    p,
    any-append (is_membership id role) rows (record { user_id = other; role_name = role } ∷ []),
  )
]

copy_members-any :
    (id : ℕ) (old new : String) (rows members : List UserRole)
    → any (is_membership id new) (copy_members old new rows members)
      ≡ any (is_membership id new) members || any (is_membership id old) rows
unfolding copy_members any
copy_members-any id old new [] members = ground arith
copy_members-any id old new (row ∷ rows) members = ground (
  arith,
  copy_members-any id old new rows (add_member row.user_id new members),
  copy_members-any id old new rows members,
  add_member-any id row.user_id new members,
)

upsert_role-stands :
    (name : String) (now : ℕ) (roles : List RoleRow)
    → any (is_role name) (upsert_role name now roles) ≡ true
unfolding upsert_role any update_where
upsert_role-stands name now [] = ground (arith, eq_iff name name)
upsert_role-stands name now (role ∷ roles) =
    ground (arith, eq_iff name name, upsert_role-stands name now roles)

remove_role-any :
    (old new : String) (now : ℕ) (roles : List RoleRow)
    → any (is_role new) (remove_role old now roles)
      ≡ any (is_role new) roles && not (str_eq new old)
unfolding remove_role any update_where
remove_role-any old new now [] = refl
remove_role-any old new now (role ∷ roles) = ground (
  arith,
  eq_iff new old,
  eq_iff role.name old,
  eq_iff role.name new,
  remove_role-any old new now roles,
)

step-eq-ok :
    {A B : Type 0} (f : World → Result String A × World) (k : A → Repository B)
    (r : IdentityServices) (s : World) {b : B} {t : World}
    → (statement db_error f >>= k) r s ≡ (ok b, t)
    → (a : A) × (s' : World) × (f (tick s) ≡ (ok a, s')) × (k a r s' ≡ (ok b, t))
step-eq-ok f k r s h =
    let (a, s', ran, h1) = bind-eq-ok _ k r s h in (a, s', statement_last _ f r s ran, h1)

now-eq-ok :
    {A B : Type 0} (f : IdentityServices → ℕ → A) (k : A → Repository B) (r : IdentityServices)
    (s : World) {b : B} {t : World}
    → (outside f >>= k) r s ≡ (ok b, t)
    → k (f r s.ticks) r (tick s) ≡ (ok b, t)
unfolding ◌>>=◌ outside
now-eq-ok f k r s h = h

pure_last :
    {A : Type 0} (a : A) (r : IdentityServices) (s : World) {b : A} {t : World}
    → pure {E = DomainError} a r s ≡ (ok b, t)
    → s ≡ t
unfolding ◌>>=◌
pure_last {A = A} a r s h = ap (λ (p : Result DomainError A × World). p.1) h

pure-not-other :
    (r : IdentityServices) (s t : World) → ¬ (pure {E = DomainError} false r s ≡ (ok true, t))
unfolding ◌>>=◌
pure-not-other r s t h = cc (ap (λ (p : Result DomainError Bool × World). p.0) h)

module _ {A : Type 0} {m : Result String A × World} {a : A} {s : World} where
  roles_after : m ≡ (ok a, s) → m.1.roles ≡ s.roles
  roles_after h = ap (λ (p : Result String A × World). p.1.roles) h

  members_after : m ≡ (ok a, s) → m.1.user_roles ≡ s.user_roles
  members_after h = ap (λ (p : Result String A × World). p.1.user_roles) h

-- What the tables say after a role was renamed.
abbrev pub HasMoved : String → String → ℕ → World → World → Type 0
HasMoved old new id s t =
    (any (is_role old) t.roles ≡ false)
    × (any (is_role new) t.roles ≡ not (str_eq new old))
    × (any (is_membership id new) t.user_roles
        ≡ any (is_membership id new) s.user_roles || any (is_membership id old) s.user_roles)

move_role-HasMoved :
    (old new : String) (id : ℕ) (found : Option RoleRow) (r : IdentityServices) (s : World)
    {t : World}
    → move_role found old new r s ≡ (ok true, t)
    → HasMoved old new id s t
unfolding move_role
move_role-HasMoved old new id none r s h = absurd (pure-not-other r s _ h)
move_role-HasMoved old new id (some role) r s {t = t} h =
    let (_, s1, ran1, h1) = step-eq-ok _ _ r s h in
    let (_, s2, ran2, h2) = step-eq-ok _ _ r s1 h1 in
    let (_, s3, ran3, h3) = step-eq-ok _ _ r s2 h2 in
    let now = r.now_at s3.ticks in
    let (_, s4, ran4, h4) = step-eq-ok _ _ r _ (now-eq-ok _ _ r s3 h3) in
    let (_, s5, ran5, h5) = step-eq-ok _ _ r s4 h4 in
    let last = pure_last true r s5 h5 in
    let roles : ◌≡◌ {A = List RoleRow}
        (remove_role old now (upsert_role new role.created_at s.roles)) t.roles =
      ap (remove_role old now) (roles_after ran1 ∙ roles_after ran2 ∙ roles_after ran3)
      ∙ roles_after ran4
      ∙ roles_after ran5
      ∙ ap (λ (w : World). w.roles) last in
    let members : ◌≡◌ {A = List UserRole} (copy_members old new s.user_roles s.user_roles)
        t.user_roles =
      ap (λ (rows : List UserRole). copy_members old new rows rows)
        (members_after ran1 ∙ members_after ran2)
      ∙ members_after ran3
      ∙ members_after ran4
      ∙ members_after ran5
      ∙ ap (λ (w : World). w.user_roles) last in
    (
      ap (any (is_role old)) (sym roles)
          ∙ remove_role-any old old now _
          ∙ ground (arith, eq_iff old old),
      ap (any (is_role new)) (sym roles)
          ∙ remove_role-any old new now _
          ∙ ap (λ (b : Bool). b && not (str_eq new old))
              (upsert_role-stands new role.created_at s.roles),
      ap (any (is_membership id new)) (sym members)
          ∙ copy_members-any id old new s.user_roles s.user_roles,
    )

-- A role that was renamed does not stand under its old name; it stands under the new one, unless that
-- is the old one: a role that is renamed to its own name is deleted. Whoever had the role has the new
-- one, and nobody else gets it.
pub update_role-HasMoved :
    (old new : String) (id : ℕ) (r : IdentityServices) (s : World) {t : World}
    → update_role old new r s ≡ (ok true, t)
    → HasMoved old new id s t
unfolding update_role transaction
update_role-HasMoved old new id r s h =
    let (_, s1, ran1, h1) = step-eq-ok _ _ r s (settle-eq-ok s _ h) in
    let (_, s2, ran2, h2) = step-eq-ok _ _ r s1 h1 in
    let (gone, moved, members) = move_role-HasMoved old new id _ r s2 h2 in
    (
      gone,
      moved,
      members
          ∙ ap
              (λ (rows : List UserRole).
                any (is_membership id new) rows || any (is_membership id old) rows)
              (sym (members_after ran1 ∙ members_after ran2)),
    )
