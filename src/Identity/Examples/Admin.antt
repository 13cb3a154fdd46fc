-- ===== src/Identity/Examples/Admin.antt =====
-- The theorems on the administration of users and roles at concrete inputs: Alice is an
-- administrator, Bob an editor.
use hegira.Base.{
  ℕ, String, ◌≡◌, refl, Bool, true, false, not, ◌&&◌, ◌||◌, Option, none, some, List, [], ◌∷◌, any,
  arith, Result, ok, str_eq, ◌⊎◌,
}
use hegira.Base.Actions.{◌>>=◌}
use hegira.Identity.Validation.{is_protected_admin_username}
use hegira.Identity.Store.{UserRow, World, IdentityServices}
use hegira.Identity.Sessions.Sound.{HasSoundSessions}
use hegira.Identity.Roles
use hegira.Identity.Roles.{update_role}
use hegira.Identity.Emails.{delete_row}
use hegira.Identity.Auth.Requests
use hegira.Identity.UserAdmin
use hegira.Identity.UserAdmin.{normalized_roles}
use hegira.Identity.Admin.{AdminRequest}
use hegira.Identity.Admin.Deleted.{delete-IsGuarded}
use hegira.Identity.Admin.Renamed.{HasMoved, update_role-HasMoved}
use hegira.Identity.Admin.Normal.{IsClean, is_admin_role, is_given, normalized_roles-IsClean}
use hegira.Identity.Deletion.{is_ok, IsDone}
use hegira.Identity.Frame.{HasAccountsOf}
use hegira.Identity.OAuth.Requests.{OAuthRequest}
use hegira.Identity.Requests.{IdentityRequest, serve_identity_all, serve_identity_all-Sound}
use hegira.Identity.Examples.{service, account, alice, world}

abbrev office : World
office = record world {
  users = alice ∷ account 3 "bob@x" "" ∷ [];
  user_roles =
      record { user_id = 1; role_name = "admin" }
      ∷ record { user_id = 3; role_name = "editor" }
      ∷ [];
  roles =
      record { name = "admin"; created_at = 0; deleted_at = none }
      ∷ record { name = "editor"; created_at = 0; deleted_at = none }
      ∷ [];
  role_permissions = record { role_name = "admin"; permission_name = "Identity.Users.Delete" } ∷ [];
}

abbrev delete_bob : AdminRequest
delete_bob = AdminRequest.delete_user "bob@x"

delete-IsGuarded_example :
    ((is_ok (UserAdmin.delete "t1" "bob@x" service office).0 ≡ false)
      × HasAccountsOf office (UserAdmin.delete "t1" "bob@x" service office).1)
    ⊎ ((is_protected_admin_username "bob@x" ≡ false)
        × IsDone "bob@x" office (UserAdmin.delete "t1" "bob@x" service office).1)
delete-IsGuarded_example =
    delete-IsGuarded "t1" "bob@x" service office
      {o = (UserAdmin.delete "t1" "bob@x" service office).0}
      {t = (UserAdmin.delete "t1" "bob@x" service office).1} refl

-- The role of the editors is deleted by being renamed to its own name.
update_role-HasMoved_example :
    HasMoved "editor" "editor" 3 office (update_role "editor" "editor" service office).1
unfolding update_role hegira.Base.Actions.transaction ◌>>=◌ hegira.Identity.Store.statement
    Roles.move_role hegira.Base.find hegira.Identity.Store.outside
update_role-HasMoved_example =
    update_role-HasMoved "editor" "editor" 3 service office
      {t = (update_role "editor" "editor" service office).1} refl

abbrev texts : List String
texts = "editor" ∷ " " ∷ " editor " ∷ []

normalized_roles-IsClean_example :
    IsClean (normalized_roles "alice@x" texts)
    × (is_protected_admin_username "alice@x"
          && not (any is_admin_role (normalized_roles "alice@x" texts))
        ≡ false)
    × (any (λ r. str_eq r "editor") (normalized_roles "alice@x" texts)
        ≡ is_given "alice@x" texts "editor")
normalized_roles-IsClean_example = normalized_roles-IsClean "alice@x" texts "editor"

abbrev requests : List IdentityRequest
requests =
    IdentityRequest.admin "t1" delete_bob
    ∷ IdentityRequest.oauth (OAuthRequest.callback "google" "code" "state")
    ∷ IdentityRequest.auth (Requests.Request.logout "t1")
    ∷ []

serve_identity_all-Sound_example : HasSoundSessions (serve_identity_all requests service office)
unfolding any
serve_identity_all-Sound_example =
    serve_identity_all-Sound requests service office ((refl, tt), (omega arith, tt))
