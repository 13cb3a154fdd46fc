-- ===== src/Identity/OAuth/Kept.antt =====
-- What the OAuth tables keep: an account without a password keeps a connection.
use hegira.Base.{◌≤◌, String, ◌≡◌, some, find, retain, length}
use hegira.Base.Keeps.{Keeps}
use hegira.Identity.Store.{UserRow, World}
use hegira.Identity.Sessions.{is_user}
use hegira.Identity.OAuth.{is_of, is_link}

-- The account of a name has no password, at most one connection with the provider, as the table
-- demands, and at least one connection.
abbrev pub HasConnection : String → String → UserRow → World → Type 0
HasConnection username provider user s =
    (find (is_user username) s.users ≡ some user)
    × (length (retain (is_link user.id provider) s.oauth_connections) ≤ 1)
    × (1 ≤ length (retain (is_of user.id) s.oauth_connections))
