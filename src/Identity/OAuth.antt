-- ===== src/Identity/OAuth.antt =====
-- `SqliteOAuthRepository` of modules/identity/sqlx/src/identity/oauth/sqlite_repository.rs. The tables
-- refuse two states or signups of one token, two connections of one identity of a provider, and two
-- connections of one user with a provider.
pub mod Service
pub mod Requests
pub mod Sound
pub mod Guards
pub mod Entered
pub mod Kept
pub mod Signup
use Prim.Native.String.{compare}
use Prim.Native.Nat.{Ordering}
use hegira.Base.{
  ℕ, ◌+◌, String, Bool, true, false, ◌&&◌, ◌||◌, not, Option, none, some, List, [], ◌∷◌, ◌++◌, ◌==◌,
  leb, ltb, str_eq, is_none, is_some, if◌then◌else◌, find, any, retain, update_where, length,
  Result, ok, err,
}
use hegira.Base.Actions.{◌>>=◌, ◌>>◌, pure, raise, transaction}
use hegira.Identity.Errors.{DomainError, ApplicationError}
use hegira.Identity.Store.{
  UserRow, OAuthState, OAuthConnection, PendingOAuthSignup, World, Repository, Service as Action,
  utc_now, new_token, statement, query, db_error, restore,
}
use hegira.Identity.Sessions.{is_user}
use hegira.Identity.Roles.{user_id_of}
use hegira.Identity.Outbox.{run, begin, commit, writer_error, enqueue_user_upsert}
use hegira.Identity.Writer.{when}
use hegira.Identity.Managed.{fresh_user}

-- `insert_state`
unfoldable pub insert_state : OAuthState → Repository (Unit {0})
insert_state row = statement db_error λ s.
    if any (λ old. str_eq old.state row.state) s.oauth_states
    then (err "UNIQUE constraint failed: oauth_states.state", s)
    else (ok tt, record s { oauth_states = row ∷ s.oauth_states })

unfoldable pub is_current : String → ℕ → OAuthState → Bool
is_current state now row = str_eq row.state state && ltb now row.expires_at

-- `take_state`
unfoldable pub take_state : String → ℕ → Repository (Option OAuthState)
take_state state now = statement db_error λ s. (
  ok (find (is_current state now) s.oauth_states),
  record s { oauth_states = retain (λ row. not (is_current state now row)) s.oauth_states },
)

abbrev pub is_of : ℕ → OAuthConnection → Bool
is_of user_id row = row.user_id == user_id

abbrev pub is_link : ℕ → String → OAuthConnection → Bool
is_link user_id provider row = row.user_id == user_id && str_eq row.provider provider

insert_connection_sorted : OAuthConnection → List OAuthConnection → List OAuthConnection
insert_connection_sorted a [] = a ∷ []
insert_connection_sorted a (b ∷ rows) =
    let rest = insert_connection_sorted a rows in
    elim (compare a.provider b.provider) [ Ordering.gt ↦ b ∷ rest | _ ↦ a ∷ b ∷ rows ]

unfoldable pub connections_of : ℕ → List OAuthConnection → List OAuthConnection
unfolding insert_connection_sorted
connections_of user_id [] = []
connections_of user_id (row ∷ rows) =
    let rest = connections_of user_id rows in
    if is_of user_id row then insert_connection_sorted row rest else rest

abbrev pub connections_of_user : World → Option UserRow → List OAuthConnection
connections_of_user s none = []
connections_of_user s (some user) = connections_of user.id s.oauth_connections

-- `list_connections`
unfoldable pub list_connections : String → Repository (List OAuthConnection)
list_connections username = query (λ s. connections_of_user s (find (is_user username) s.users))

pub data OAuthUnlinkResult : Type 0 where
  unlinked not_found last_connection : OAuthUnlinkResult

-- Whether the account may lose a connection: it has a password, or more than one connection.
abbrev pub may_unlink : UserRow → List OAuthConnection → Bool
may_unlink user connections =
    not user.external_only || ltb 1 (length (retain (is_of user.id) connections))

-- The `DELETE … RETURNING 1`: whether it found a row, and the rows that it leaves.
unfoldable pub unlink_rows : Option UserRow → String → World → Bool × World
unlink_rows none provider s = (false, s)
unlink_rows (some user) provider s =
    if may_unlink user s.oauth_connections
    then (
      any (is_link user.id provider) s.oauth_connections,
      record s {
        oauth_connections = retain (λ row. not (is_link user.id provider row)) s.oauth_connections;
      },
    )
    else (false, s)

-- The second query: the account has the connection, and no other, and no password.
abbrev pub is_blocked : Option UserRow → String → World → Bool
is_blocked none provider s = false
is_blocked (some user) provider s =
    user.external_only
    && any (is_link user.id provider) s.oauth_connections
    && leb (length (retain (is_of user.id) s.oauth_connections)) 1

-- The end of `unlink_connection`: whether the `DELETE` found a row.
unfoldable pub finish_unlink : String → String → Bool → Repository OAuthUnlinkResult
finish_unlink username provider true = pure OAuthUnlinkResult.unlinked
finish_unlink username provider false = do
  blocked ← query (λ s. is_blocked (find (is_user username) s.users) provider s)
  pure (if blocked then OAuthUnlinkResult.last_connection else OAuthUnlinkResult.not_found)

-- `unlink_connection`
unfoldable pub unlink_connection : String → String → Repository OAuthUnlinkResult
unlink_connection username provider = do
  deleted ← statement db_error λ s.
      let (found, t) = unlink_rows (find (is_user username) s.users) provider s in (ok found, t)
  finish_unlink username provider deleted

abbrev pub is_identity : String → String → OAuthConnection → Bool
is_identity provider provider_user_id row =
    str_eq row.provider provider && str_eq row.provider_user_id provider_user_id

abbrev pub name_of : Option UserRow → Option String
name_of none = none
name_of (some user) = some user.username

abbrev pub standing_owner : List UserRow → Option OAuthConnection → Option UserRow
standing_owner users none = none
standing_owner users (some row) =
    find (λ user. user.id == row.user_id && is_none user.deleted_at) users

-- `username_for_connection`
unfoldable pub username_for_connection : String → String → Repository (Option String)
username_for_connection provider provider_user_id = query λ s.
    name_of
      (standing_owner s.users (find (is_identity provider provider_user_id) s.oauth_connections))

-- The insertion of a link for a user: a link of the user with the provider is moved to the identity.
-- An identity that belongs to another link is refused.
unfoldable pub link_rows : OAuthConnection → World → Result String (Unit {0}) × World
link_rows row s =
    if any
      (λ old.
        is_identity row.provider row.provider_user_id old
        && not (is_link row.user_id row.provider old))
      s.oauth_connections
    then (err "UNIQUE constraint failed: user_oauth_connections", s)
    else if any (is_link row.user_id row.provider) s.oauth_connections
    then (
      ok tt,
      record s {
        oauth_connections =
            update_where (is_link row.user_id row.provider)
              (λ old. record old { provider_user_id = row.provider_user_id; email = row.email })
              s.oauth_connections;
      },
    )
    else (ok tt, record s { oauth_connections = s.oauth_connections ++ row ∷ [] })

abbrev pub true_if_ok : Result String (Unit {0}) × World → Result String Bool × World
true_if_ok (ok _, s) = (ok true, s)
true_if_ok (err e, s) = (err e, s)

abbrev pub link_user :
    Option UserRow → String → String → String → ℕ → World → Result String Bool × World
link_user none provider provider_user_id email now s = (ok false, s)
link_user (some user) provider provider_user_id email now s = true_if_ok (
    link_rows
      (record {
        user_id = user.id;
        provider = provider;
        provider_user_id = provider_user_id;
        email = email;
        created_at = now;
      })
      s)

-- `link_connection`
unfoldable pub link_connection : String → String → String → String → Repository (Unit {0})
link_connection username provider provider_user_id email = do
  now ← utc_now
  linked ←
      statement DomainError.conflict
        λ s. link_user (find (is_user username) s.users) provider provider_user_id email now s
  if linked then pure tt else raise (DomainError.not_found "User not found")

abbrev pub is_signup_of : PendingOAuthSignup → PendingOAuthSignup → Bool
is_signup_of new old =
    str_eq old.provider new.provider && str_eq old.provider_user_id new.provider_user_id

-- The upsert: the newest token of an identity counts. `token` is the primary key.
unfoldable pub signup_rows : PendingOAuthSignup → World → Result String (Unit {0}) × World
signup_rows new s =
    if any (λ old. str_eq old.token new.token && not (is_signup_of new old)) s.oauth_signups
    then (err "UNIQUE constraint failed: oauth_pending_signups.token", s)
    else (
      ok tt,
      record s { oauth_signups = new ∷ retain (λ old. not (is_signup_of new old)) s.oauth_signups },
    )

-- `insert_pending_signup`
unfoldable pub insert_pending_signup : PendingOAuthSignup → Repository (Unit {0})
insert_pending_signup signup = statement db_error (signup_rows signup)

pub record CompleteOAuthSignup : Type 0 where
  pub token : String
  pub now : ℕ
  pub username : String
  pub password_hash : String
  pub publish_search : Bool

unfoldable pub is_pending : String → ℕ → PendingOAuthSignup → Bool
is_pending token now row = str_eq row.token token && ltb now row.expires_at

-- A user that came from a provider.
abbrev pub external_user : ℕ → String → ℕ → CompleteOAuthSignup → UserRow
external_user id pid created_at command =
    record (fresh_user id pid created_at (record {
      username = command.username;
      password_hash = command.password_hash;
      email_verified_at = none;
      roles = [];
      publish_search = command.publish_search;
    })) { external_only = true }

-- The insertion of a user, without a conflict clause.
unfoldable pub insert_external : UserRow → World → Result String UserRow × World
insert_external row s =
    if any (λ old. str_eq old.username row.username || str_eq old.pid row.pid) s.users
    then (err "UNIQUE constraint failed: users", s)
    else (ok row, record s { users = s.users ++ row ∷ []; next_id = s.next_id + 1 })

-- The insertion of a connection, without a conflict clause.
unfoldable pub insert_connection : OAuthConnection → World → Result String (Unit {0}) × World
insert_connection row s =
    if any
      (λ old.
        is_identity row.provider row.provider_user_id old || is_link row.user_id row.provider old)
      s.oauth_connections
    then (err "UNIQUE constraint failed: user_oauth_connections", s)
    else (ok tt, record s { oauth_connections = s.oauth_connections ++ row ∷ [] })

-- The rest of the transaction for a signup that was pending.
unfoldable pub finish_signup : CompleteOAuthSignup → Option PendingOAuthSignup → Action Bool
finish_signup command none = pure false
finish_signup command (some pending) = do
  pid ← new_token
  created_at ← utc_now
  user ←
      statement ApplicationError.conflict
        λ s. insert_external (external_user s.next_id pid created_at command) s
  now ← utc_now
  statement ApplicationError.conflict (
      insert_connection (record {
        user_id = user.id;
        provider = pending.provider;
        provider_user_id = pending.provider_user_id;
        email = pending.email;
        created_at = now;
      }))
  when command.publish_search
      (enqueue_user_upsert user.pid command.username user.created_at false [] user.search_revision)
  commit
  pure true

-- `complete_signup`
unfoldable pub complete_signup : CompleteOAuthSignup → Action Bool
complete_signup command = transaction restore do
  begin
  pending ← run λ s. (
    find (is_pending command.token command.now) s.oauth_signups,
    record s {
      oauth_signups =
          retain (λ row. not (is_pending command.token command.now row)) s.oauth_signups;
    },
  )
  finish_signup command pending
