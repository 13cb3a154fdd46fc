-- ===== src/Identity/Admin/Normal.antt =====
-- The roles that an administrator gives a user.
use hegira.Base.{
  ℕ, ◌+◌, ◌≤◌, String, ◌≡◌, refl, sym, ap, ◌∙◌, ◌||◌, Bool-cases, inl, inr, Bool, true, false, not,
  ◌&&◌, List, [], ◌∷◌, ◌++◌, str_eq, any, any-append, subst, if◌then◌else◌, arith, eq_iff,
}
use hegira.Base.Text.{trim, eq_ignore_ascii_case}
use hegira.Identity.Validation.{is_protected_admin_username, default_admin_role_name}
use hegira.Identity.UserAdmin.{distinct_roles, normalized_roles}

-- How often a role is in a list.
abbrev pub count : String → List String → ℕ
count role [] = 0
count role (r ∷ rs) = (if str_eq r role then 1 else 0) + count role rs

count-append :
    (role : String) (xs ys : List String) → count role (xs ++ ys) ≡ count role xs + count role ys
count-append role [] ys = omega arith
count-append role (x ∷ xs) ys = omega (arith, count-append role xs ys)

count-absent :
    (role : String) (xs : List String) → any (λ r. str_eq r role) xs ≡ false → count role xs ≡ 0
unfolding any
count-absent role [] h = refl
count-absent role (x ∷ xs) h = ground (arith, h, count-absent role xs)

-- Whether a list has no role twice and no blank one.
abbrev pub IsClean : List String → Type 0
IsClean roles = ((role : String) → count role roles ≤ 1) × (any (λ r. str_eq r "") roles ≡ false)

IsClean-add :
    (roles : List String) (role : String)
    → IsClean roles
    → str_eq role "" ≡ false
    → any (λ r. str_eq r role) roles ≡ false
    → IsClean (roles ++ role ∷ [])
unfolding any
IsClean-add roles role (once, full) visible fresh = (
  λ other. ground (
    arith,
    once other,
    count-append other roles (role ∷ []),
    count-absent role roles fresh,
    eq_iff role other,
  ),
  ground (arith, full, visible, any-append (λ r. str_eq r "") roles (role ∷ [])),
)

IsClean-if :
    (b : Bool) (xs ys : List String)
    → (b ≡ true → IsClean xs)
    → (b ≡ false → IsClean ys)
    → IsClean (if b then xs else ys)
IsClean-if true xs ys hx hy = hx refl
IsClean-if false xs ys hx hy = hy refl

distinct_roles-IsClean :
    (taken texts : List String) → IsClean taken → IsClean (distinct_roles taken texts)
unfolding distinct_roles
distinct_roles-IsClean taken [] h = h
distinct_roles-IsClean taken (text ∷ texts) h =
    IsClean-if _ _ _ (λ blank. distinct_roles-IsClean taken texts h)
      λ visible.
        IsClean-if _ _ _ (λ known. distinct_roles-IsClean taken texts h)
          λ fresh.
            distinct_roles-IsClean (taken ++ trim text ∷ []) texts
              (IsClean-add taken (trim text) h visible fresh)

abbrev pub is_admin_role : String → Bool
is_admin_role role = eq_ignore_ascii_case role default_admin_role_name

admin-IsAdmin :
    (role : String) → str_eq role default_admin_role_name ≡ true → is_admin_role role ≡ true
unfolding eq_ignore_ascii_case
admin-IsAdmin role h =
    subst (λ (r : String). is_admin_role r ≡ true) (sym ((eq_iff role default_admin_role_name).0 h))
      refl

absent_admin :
    (roles : List String)
    → any is_admin_role roles ≡ false
    → any (λ r. str_eq r default_admin_role_name) roles ≡ false
unfolding any
absent_admin [] h = refl
absent_admin (role ∷ roles) h = ground (arith, h, admin-IsAdmin role, absent_admin roles)

with_admin :
    (is_protected c : Bool) (roles : List String)
    → any is_admin_role roles ≡ c
    → IsClean roles
    → IsClean (if is_protected && not c then roles ++ default_admin_role_name ∷ [] else roles)
      × (is_protected
            && not (
                any is_admin_role
                  (if is_protected && not c then roles ++ default_admin_role_name ∷ [] else roles))
          ≡ false)
unfolding any
with_admin false c roles e h = (h, refl)
with_admin true true roles e h = (h, ap not e)
with_admin true false roles e h = (
  IsClean-add roles default_admin_role_name h refl (absent_admin roles e),
  ground (
    arith,
    any-append is_admin_role roles (default_admin_role_name ∷ []),
    admin-IsAdmin default_admin_role_name refl,
  ),
)

any-known :
    (p : String → Bool) (role : String) (taken : List String)
    → p role ≡ true
    → any (λ r. str_eq r role) taken ≡ true
    → any p taken ≡ true
unfolding any
any-known p role [] h k = k
any-known p role (x ∷ taken) h k = elim (Bool-cases (str_eq x role)) [
  | inl same ↦ ground (arith, ap p ((eq_iff x role).0 same), h)
  | inr other ↦ ground (arith, k, other, any-known p role taken h)
]

-- What a test finds among the distinct roles is what it finds among the trimmed texts.
any-distinct_roles :
    (p : String → Bool) (taken texts : List String)
    → p "" ≡ false
    → any p (distinct_roles taken texts) ≡ (any p taken || any (λ text. p (trim text)) texts)
unfolding any distinct_roles
any-distinct_roles p taken [] h = ground arith
any-distinct_roles p taken (text ∷ texts) h = ground (
  arith,
  h,
  eq_iff (trim text) "",
  any-known p (trim text) taken,
  any-append p taken (trim text ∷ []),
  any-distinct_roles p taken texts h,
  any-distinct_roles p (taken ++ trim text ∷ []) texts h,
)

-- Whether a role is to be given: it is a text, trimmed and not blank, or the administrator's role for
-- a protected administrator whose texts do not have it.
abbrev pub is_given : String → List String → String → Bool
is_given username texts role =
    not (str_eq role "") && any (λ text. str_eq (trim text) role) texts
    || (is_protected_admin_username username
        && not (any (λ text. is_admin_role (trim text)) texts)
        && str_eq default_admin_role_name role)

any-blank :
    (role : String) (roles : List String)
    → any (λ r. str_eq r "") roles ≡ false
    → str_eq role "" ≡ true
    → any (λ r. str_eq r role) roles ≡ false
any-blank role roles h blank =
    ap (λ (e : String). any (λ r. str_eq r e) roles) ((eq_iff role "").0 blank) ∙ h

any-distinct :
    (role : String) (texts : List String)
    → any (λ r. str_eq r "") (distinct_roles [] texts) ≡ false
    → any (λ r. str_eq r role) (distinct_roles [] texts)
      ≡ (not (str_eq role "") && any (λ text. str_eq (trim text) role) texts)
unfolding any
any-distinct role texts full = elim (Bool-cases (str_eq role "")) [
  | inl blank ↦ ground (arith, blank, any-blank role (distinct_roles [] texts) full blank)
  | inr visible ↦ ground (
    arith,
    visible,
    eq_iff "" role,
    eq_iff role "",
    any-distinct_roles (λ r. str_eq r role) [] texts,
  )
]

any-normalized :
    (role username : String) (texts : List String)
    → any (λ r. str_eq r "") (distinct_roles [] texts) ≡ false
    → any (λ r. str_eq r role) (normalized_roles username texts) ≡ is_given username texts role
unfolding normalized_roles any eq_ignore_ascii_case
any-normalized role username texts full = ground (
  arith,
  any-distinct role texts full,
  any-distinct_roles is_admin_role [] texts refl,
  any-append (λ r. str_eq r role) (distinct_roles [] texts) (default_admin_role_name ∷ []),
)

-- The roles that an administrator gives a user are exactly the texts, trimmed, without the blank ones
-- and none twice, and for a protected administrator also the administrator's role, which is among them
-- in any case.
pub normalized_roles-IsClean :
    (username : String) (texts : List String) (role : String)
    → IsClean (normalized_roles username texts)
      × (is_protected_admin_username username
            && not (any is_admin_role (normalized_roles username texts))
          ≡ false)
      × (any (λ r. str_eq r role) (normalized_roles username texts) ≡ is_given username texts role)
unfolding normalized_roles any
normalized_roles-IsClean username texts role =
    let clean = distinct_roles-IsClean [] texts (λ role. omega arith, refl) in
    let (once, kept) =
      with_admin (is_protected_admin_username username) _ (distinct_roles [] texts) refl clean in
    (once, kept, any-normalized role username texts clean.1)
