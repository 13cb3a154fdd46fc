-- ===== src/Identity/Examples.antt =====
-- The theorems on the authentication service at concrete inputs: a service whose hash of a password
-- is the password after "#", and the accounts of Alice and of Carol, who deleted hers.
mod Admin
mod OAuth
use Prim.Native.String.{◌++◌}
use mathlib.Core.List.{◌++◌ as append}
use hegira.Base.{
  ◌⊎◌, ℕ, ◌+◌, ◌*◌, ◌≤◌, String, ◌≡◌, refl, Bool, true, false, not, ◌&&◌, Option, none, some, List,
  [], ◌∷◌, arith, str_eq, is_some, is_none, any, find, retain, update_where, Result, ok, err,
}
use hegira.Base.Actions.{◌>>=◌, transaction}
use hegira.Identity.Errors.{ApplicationError}
use hegira.Identity.Validation.{is_protected_admin_username}
use hegira.Identity.Store.{
  OAuthProviderSettings, UserRow, SessionRow, World, IdentityServices, outside, answer, statement,
}
use hegira.Identity.Sessions
use hegira.Identity.Sessions.{Session, is_user, is_live, join_live}
use hegira.Identity.Sessions.Rows.{has_token}
use hegira.Identity.Sessions.Sound.{HasSoundSessions}
use hegira.Identity.Users
use hegira.Identity.TwoFactor
use hegira.Identity.TwoFactor.{
  is_equal, is_awaiting, consume_login_token, consume_backup_code_hashes,
}
use hegira.Identity.Writer.{RegisterManagedUser, register_managed_user}
use hegira.Identity.Emails.{is_confirming, confirm_email_change}
use hegira.Identity.Auth.{CurrentUserDto, via, try_outside, current_user, logout}
use hegira.Identity.Auth
use hegira.Identity.Auth.Accounts
use hegira.Identity.Auth.Accounts.{delete_account, forgot_password}
use hegira.Identity.Auth.Login
use hegira.Identity.Auth.Login.{is_expired, login, verify_magic_link}
use hegira.Identity.Auth.Requests.{Request, serve_all}
use hegira.Identity.Auth.Guards.{
  has_second_factor, login-IsGuarded, logout-ends, current_user-HasSession,
}
use hegira.Identity.Auth.Live.{login-HasBegun}
use hegira.Identity.Auth.Success.{tick}
use hegira.Identity.Auth.Links.{verify_magic_link-IsTimely}
use hegira.Identity.Auth.Deleted.{delete_account-IsGuarded}
use hegira.Identity.Deletion.{is_ok, IsDone}
use hegira.Identity.Frame.{HasAccountsOf}
use hegira.Identity.Auth.Once.{consume_login_token-once}
use hegira.Identity.Auth.Taken.{
  HasSameTables, register_managed_user-once, confirm_email_change-taken, forgot_password-stranger,
}

abbrev seconds : ℕ → ℕ
seconds n = n * 1_000_000_000

abbrev provider_settings : OAuthProviderSettings
provider_settings = record {
  enabled = true;
  client_id = "id";
  client_secret = "secret";
  redirect_uri = "https://app.test/callback";
  authorization_url = "https://provider.test/auth";
  token_url = "https://provider.test/token";
  userinfo_url = "https://provider.test/user";
  scopes = "email" ∷ [];
}

abbrev service : IdentityServices
service = record {
  app_name = "App";
  public_url = "https://app.test";
  session_policy = record {
    sliding_ttl = seconds 3_600;
    max_lifetime = seconds 86_400;
    refresh_threshold_percent = 50;
  };
  publish_search = false;
  durable_mail = true;
  now_at = λ t. seconds 1_000_000 + t;
  uuid_at = λ t. "fresh";
  simple_uuid_at = λ t. "0123456789abcdef";
  db_error_at = λ t. none;
  hash_at = λ t password. ok ("#" ++ password);
  verify_hash = λ password hash. ok (str_eq hash ("#" ++ password));
  create_token_at = λ t name. ok ("session of " ++ name);
  token_expiry_at = λ t. seconds 1_086_400;
  verify_token_at = λ t token. ok "alice@x";
  totp_secret_at = λ t. "secret";
  totp_url = λ secret name issuer. ok "otpauth://totp";
  check_totp_at = λ t secret name issuer code. ok (str_eq code "123456");
  oauth = record {
    enabled = true;
    state_ttl = seconds 600;
    google = provider_settings;
    github = provider_settings;
  };
  cached_permissions_at = λ t name. none;
  session_ttl = seconds 3_600;
  urlencode = λ s. s;
  fetch_user_at =
      λ t provider settings code. ok (record { provider_user_id = "g1"; email = "dora@x" });
  send_at = λ t mail. ok tt;
}

abbrev account : ℕ → String → String → UserRow
account id name password = record {
  id = id;
  pid = name;
  username = name;
  password_hash = "#" ++ password;
  created_at = 0;
  reset_token = none;
  reset_sent_at = none;
  email_verification_token = none;
  email_verification_sent_at = none;
  email_verified_at = none;
  magic_link_token = some "magic";
  magic_link_expires_at = some (seconds 2_000_000);
  deleted_at = none;
  totp_secret = none;
  totp_enabled_at = none;
  totp_backup_code_hashes = "#1" ∷ "#2" ∷ [];
  totp_login_token = some "login";
  totp_login_expires_at = some (seconds 1_000_100);
  search_revision = 0;
  pending_email = some "carol@x";
  email_change_token = some "change";
  email_change_sent_at = some (seconds 999_900);
  external_only = false;
}

abbrev alice : UserRow
alice = account 1 "alice@x" "sesame"

abbrev carol : UserRow
carol = record (account 2 "carol@x" "") { deleted_at = some 5; email_change_token = none }

abbrev session : SessionRow
session = record {
  pid = "p1";
  token = "t1";
  user_id = 1;
  created_at = 0;
  expires_at = seconds 1_003_000;
  max_expires_at = seconds 1_050_000;
}

abbrev world : World
world = record {
  users = alice ∷ carol ∷ [];
  sessions = session ∷ [];
  user_roles = [];
  roles = record { name = "admin"; created_at = 0; deleted_at = none } ∷ [];
  role_permissions = [];
  oauth_states = [];
  oauth_connections = [];
  oauth_signups = [];
  audit_logs = [];
  outbox = [];
  next_id = 3;
  sent = [];
  ticks = 0;
}

abbrev some_session : String → Option String
some_session name = some ("session of " ++ name)

login-IsGuarded_example :
    (row : UserRow) × (find (is_user "alice@x") world.users ≡ some row)
    × (service.verify_hash "sesame" row.password_hash ≡ ok true)
    × (is_some (some_session "alice@x") ≡ not (has_second_factor row.username world.users))
unfolding login ◌>>=◌ Users.find_by_username Auth.verify_hash TwoFactor.credential_by_username
    try_outside outside via statement Users.map_user find is_user Login.start_session
    TwoFactor.map_credential Auth.create_session Auth.create_token Auth.token_expiry
    Auth.next_session_expires_at Sessions.insert Sessions.insert_for any
login-IsGuarded_example =
    login-IsGuarded "alice@x" "sesame" service world
      {dto = Login.authenticated "session of alice@x"}
      {t = (login "alice@x" "sesame" service world).1} refl

logout-ends_example :
    (has_token "t1" world.sessions ≡ true)
    × (has_token "t1" (logout "t1" service world).1.sessions ≡ false)
    × ((logout "t1" service world).1
        ≡ tick (
            tick (record world {
              sessions = retain (λ row. not (str_eq row.token "t1")) world.sessions;
            })))
unfolding logout ◌>>=◌ Auth.verify_token try_outside outside via Sessions.delete statement any
logout-ends_example =
    logout-ends "t1" service world {u = tt} {t = (logout "t1" service world).1} refl

current_user-HasSession_example :
    (session : Session) × (join_live world.users
        (find (is_live "t1" (service.now_at 1)) world.sessions)
      ≡ some session)
    × (session.username ≡ "alice@x")
    × (service.verify_token_at 0 "t1" ≡ ok "alice@x")
    × (is_some (find (is_user "alice@x") world.users) ≡ true)
unfolding current_user ◌>>=◌ Auth.verify_token try_outside outside via Sessions.find_by_token
    statement join_live find is_live Users.find_by_username Users.map_user is_user
    Auth.refresh_session_if_needed Auth.is_fresh hegira.Identity.Roles.user_permissions
    hegira.Identity.Roles.known_names hegira.Identity.Roles.granted_names
current_user-HasSession_example =
    current_user-HasSession "t1" service world
      {dto = record { username = "alice@x"; permissions = [] }}
      {t = (current_user "t1" service world).1} refl

verify_magic_link-IsTimely_example :
    (row owner : UserRow) × (expires_at : ℕ) × (begun : SessionRow) × (find
        (λ row. is_equal row.magic_link_token "magic" && is_none row.deleted_at)
        world.users
      ≡ some row)
    × (row.magic_link_expires_at ≡ some expires_at)
    × (service.now_at 1 ≤ expires_at)
    × (any
          (λ other. is_user row.username other && is_equal other.magic_link_token "magic")
          (verify_magic_link "magic" service world).1.users
        ≡ false)
    × (find (is_user row.username) (verify_magic_link "magic" service world).1.users ≡ some owner)
    × ((verify_magic_link "magic" service world).1.sessions ≡ append world.sessions (begun ∷ []))
    × (begun.token ≡ "session of alice@x")
    × (begun.user_id ≡ owner.id)
unfolding verify_magic_link ◌>>=◌ via Users.find_by_magic_link_token Users.find_by_token_column
    statement Users.map_user find outside Users.clear_magic_link TwoFactor.update_users
    Auth.create_session Auth.create_token try_outside Auth.token_expiry Auth.next_session_expires_at
    Sessions.insert Sessions.insert_for any update_where hegira.Identity.Errors.from_domain
    Sessions.add_session is_user answer
verify_magic_link-IsTimely_example =
    verify_magic_link-IsTimely "magic" service world {session = "session of alice@x"}
      {t = (verify_magic_link "magic" service world).1} refl

delete_account-IsGuarded_example :
    ((is_ok (delete_account "t1" "sesame" service world).0 ≡ false)
      × HasAccountsOf world (delete_account "t1" "sesame" service world).1)
    ⊎ ((current : CurrentUserDto) × (s' : World) × (row : UserRow) × (current_user "t1" service
            world
          ≡ (ok current, s'))
        × (is_protected_admin_username current.username ≡ false)
        × (find (is_user current.username) world.users ≡ some row)
        × (service.verify_hash "sesame" row.password_hash ≡ ok true)
        × IsDone current.username world (delete_account "t1" "sesame" service world).1)
delete_account-IsGuarded_example =
    delete_account-IsGuarded "t1" "sesame" service world
      {o = (delete_account "t1" "sesame" service world).0}
      {t = (delete_account "t1" "sesame" service world).1} refl

abbrev consumed : World
consumed = (consume_login_token "alice@x" "login" service world).1

consume_login_token-once_example :
    (true
      ≡ any
          (λ row. str_eq row.username "alice@x" && is_awaiting "login" (service.now_at 0) row)
          world.users)
    × (false ≡ false)
unfolding consume_login_token ◌>>=◌ outside TwoFactor.update_users statement any is_awaiting
    update_where
consume_login_token-once_example =
    consume_login_token-once "alice@x" "login" service service world consumed {first = true}
      {second = false} {t = consumed}
      {t' = (consume_login_token "alice@x" "login" service consumed).1} refl refl (omega arith) refl

abbrev codes : List String
codes = "#1" ∷ "#2" ∷ []

abbrev used : World
used = (consume_backup_code_hashes "alice@x" codes ("#2" ∷ []) service world).1

abbrev as_carol : RegisterManagedUser
as_carol = record {
  username = "carol@x";
  password_hash = "#new";
  verification_token = "v";
  verification_sent_at = seconds 1_000_000;
  publish_search = true;
  mail = none;
}

register_managed_user-once_example : ¬ (
    register_managed_user as_carol service world ≡ (
      ok (record {
        id = 3;
        pid = "fresh";
        username = "carol@x";
        password_hash = "#new";
        created_at = seconds 1_000_000;
        reset_token = none;
        reset_sent_at = none;
        email_verification_token = some "v";
        email_verification_sent_at = some (seconds 1_000_000);
        email_verified_at = none;
        magic_link_token = none;
        magic_link_expires_at = none;
      }),
      world,
    ))
unfolding any
register_managed_user-once_example = register_managed_user-once as_carol service world refl

-- Alice asked for the address of Carol's account, which is deleted.
confirm_email_change-taken_example :
    ¬ (confirm_email_change "change" (seconds 1_000_000) true service world ≡ (ok true, world))
unfolding find any is_confirming
confirm_email_change-taken_example =
    confirm_email_change-taken "change" (seconds 1_000_000) true service world alice refl refl

forgot_password-stranger_example : HasSameTables (forgot_password "mallory@x" service world).1 world
unfolding find is_user
forgot_password-stranger_example = forgot_password-stranger "mallory@x" service world refl

login-HasBegun_example :
    ((login "alice@x" "sesame" service world).0 ≡ ok (Login.authenticated "session of alice@x"))
    × (has_token "session of alice@x" (login "alice@x" "sesame" service world).1.sessions ≡ true)
unfolding find is_user any TwoFactor.map_credential
login-HasBegun_example =
    login-HasBegun "alice@x" "sesame" "session of alice@x" alice service world refl refl refl refl
      (λ t. refl) (λ t. refl) (λ t. refl)
