-- ===== src/Identity/Admin/Allowed.antt =====
-- Whoever gets an administration request answered may ask for it.
use hegira.Base.{◌⊎◌, List, Option, none, some, str_eq, ◌+◌, String, ◌≡◌, true, any, ok}
use hegira.Identity.Store.{World, IdentityServices}
use hegira.Identity.Sessions
use hegira.Identity.Sessions.{is_user, is_live}
use hegira.Identity.Roles.{holds, permissions_granted}
use hegira.Identity.UserAdmin
use hegira.Identity.RoleAdmin

-- The permissions that the cache has for a user, or else those of the roles of the user in the tables.
abbrev permissions_of : Option (List String) → String → World → List String
permissions_of (some permissions) username s = permissions
permissions_of none username s = permissions_granted username s

-- The permission is in the list that the cache has for the user or, where the cache has none, granted
-- by a role of the user, which stands.
abbrev pub IsGranted : Option (List String) → String → String → World → Type 0
IsGranted cached username permission s =
    ((permissions : List String) × (cached ≡ some permissions)
      × (any (λ name. str_eq name permission) permissions ≡ true))
    ⊎ ((cached ≡ none) × (holds username permission s ≡ true))

-- The token names a user; it has a session that is not over, the account stands, and the permission is
-- granted to the user, by the cache or by a role.
abbrev pub IsAllowed : String → String → IdentityServices → World → Type 0
IsAllowed token permission r s =
    (username : String) × (r.verify_token_at s.ticks token ≡ ok username)
    × (any (is_live token (r.now_at (s.ticks + 1))) s.sessions ≡ true)
    × (any (is_user username) s.users ≡ true)
    × IsGranted (r.cached_permissions_at (s.ticks + 1 + 1 + 1 + 1) username) username permission s
