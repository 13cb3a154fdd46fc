-- ===== src/Identity/Validation.antt =====
-- modules/identity/application/src/identity/validation.rs and the protected names of
-- modules/identity/domain_shared/src/identity/users.rs.
use Prim.Native.String.{len}
use hegira.Base.{
  ℕ, String, Bool, true, false, ◌||◌, Option, none, some, ltb, str_eq, if◌then◌else◌, ok, err,
  ◌>>=◌,
}
use hegira.Base.Text.{trim, eq_ignore_ascii_case}
use hegira.Identity.Errors.{
  ApplicationError, ApplicationResult, username_required, password_required, localized_validation,
}

abbrev pub max_username_len : ℕ
max_username_len = 64

abbrev pub max_password_len : ℕ
max_password_len = 128

-- The length is that of the UTF-8 bytes.
unfoldable pub required_username : String → ApplicationResult (Unit {0})
required_username text =
    let username = trim text in
    if str_eq username ""
    then err (localized_validation username_required)
    else if ltb max_username_len (len username)
    then err (ApplicationError.validation "Username must be at most 64 characters")
    else ok tt

unfoldable pub optional_username : String → ApplicationResult Bool
optional_username username =
    if str_eq (trim username) "" then ok false else do _ ← required_username username; ok true

unfoldable pub required_password : String → ApplicationResult (Unit {0})
required_password password =
    if str_eq password ""
    then err (localized_validation password_required)
    else if ltb max_password_len (len password)
    then err (ApplicationError.validation "Password must be at most 128 characters")
    else ok tt

unfoldable pub optional_password : Option String → ApplicationResult (Option String)
optional_password none = ok none
optional_password (some value) =
    if str_eq value "" then ok none else do _ ← required_password value; ok (some value)

unfoldable pub required_username_password : String → String → ApplicationResult (Unit {0})
required_username_password username password = do
  _ ← required_username username
  required_password password

abbrev pub default_admin_username : String
default_admin_username = "admin@example.com"

abbrev pub default_admin_role_name : String
default_admin_role_name = "admin"

unfoldable pub is_protected_admin_username : String → Bool
is_protected_admin_username text =
    let username = trim text in
    eq_ignore_ascii_case username default_admin_username || eq_ignore_ascii_case username "admin"

unfoldable pub is_protected_admin_role : String → Bool
is_protected_admin_role role_name = eq_ignore_ascii_case (trim role_name) default_admin_role_name
