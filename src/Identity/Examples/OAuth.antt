-- ===== src/Identity/Examples/OAuth.antt =====
-- The theorems on the OAuth service at concrete inputs: Alice has a connection with two providers,
-- and Dora waits for her signup.
use hegira.Base.{
  ℕ, ◌+◌, String, ◌≡◌, refl, Bool, true, false, Option, none, some, List, [], ◌∷◌, ◌++◌, any, find,
  retain, arith, Result, ok, ltb,
}
use hegira.Base.Actions.{◌>>=◌}
use hegira.Identity.Store.{
  UserRow, login, OAuthState, OAuthConnection, PendingOAuthSignup, ExternalOAuthUser,
  OAuthProviderSettings, World, IdentityServices,
}
use hegira.Identity.Auth.Login.{authenticated}
use hegira.Identity.Auth.Success.{tick}
use hegira.Identity.OAuth
use hegira.Identity.OAuth.{
  is_current, OAuthUnlinkResult, is_pending, CompleteOAuthSignup, complete_signup,
}
use hegira.Identity.OAuth.Service
use hegira.Identity.OAuth.Service.{
  OAuthCallbackDto, callback_login, normalize_provider, provider_settings, answer_flow, callback,
}
use hegira.Identity.OAuth.Guards.{callback-IsGuarded}
use hegira.Identity.OAuth.Entered.{owner_of, HasEntered, callback-session}
use hegira.Identity.OAuth.Signup.{complete_signup-once}
use hegira.Identity.Sessions.{is_live}
use hegira.Identity.Upkeep.{session_is_over, delete_expired}
use hegira.Identity.Upkeep.Unnoticed.{swept, delete_expired-unnoticed}
use hegira.Identity.Examples.{service, seconds, alice, world}

abbrev connection : String → String → OAuthConnection
connection provider id = record {
  user_id = 1;
  provider = provider;
  provider_user_id = id;
  email = "alice@x";
  created_at = 0;
}

abbrev without_password : UserRow
without_password = record alice { external_only = true }

abbrev linked : World
linked = record world {
  users = without_password ∷ [];
  oauth_states =
      record {
        state = "state";
        provider = "google";
        csrf_token = "csrf";
        flow = login;
        username = none;
        created_at = 0;
        expires_at = seconds 2_000_000;
      }
      ∷ [];
  oauth_connections = connection "google" "g1" ∷ connection "github" "h1" ∷ [];
  oauth_signups =
      record {
        token = "signup";
        provider = "google";
        provider_user_id = "g2";
        email = "dora@x";
        created_at = 0;
        expires_at = seconds 2_000_000;
      }
      ∷ [];
}

abbrev answer : OAuthCallbackDto
answer = callback_login (authenticated "session of alice@x")

callback-IsGuarded_example :
    (provider : String) × (settings : OAuthProviderSettings) × (stored : OAuthState)
    × (external : ExternalOAuthUser) × (s' : World) × (normalize_provider " Google" ≡ ok provider)
    × (provider_settings provider service.oauth ≡ ok settings)
    × (find (is_current "state" (service.now_at linked.ticks)) linked.oauth_states ≡ some stored)
    × (stored.provider ≡ provider)
    × (service.fetch_user_at s'.ticks provider settings "code" ≡ ok external)
    × (any (is_current "state" (seconds 1_000_009)) s'.oauth_states ≡ false)
    × (s'.users ≡ linked.users)
    × (s'.oauth_connections ≡ linked.oauth_connections)
    × (s'.sessions ≡ linked.sessions)
    × (answer_flow provider stored external stored.flow service (tick s')
        ≡ (ok answer, (callback " Google" "code" "state" service linked).1))
unfolding callback ◌>>=◌ normalize_provider hegira.Base.Text.to_ascii_lowercase
    hegira.Base.Text.trim provider_settings hegira.Identity.Store.outside hegira.Identity.Auth.via
    OAuth.take_state hegira.Identity.Store.statement find is_current Service.exchanged answer_flow
    OAuth.username_for_connection Service.sign_in hegira.Identity.TwoFactor.credential_by_username
    Service.enter any retain hegira.Base.update_where hegira.Base.Text.before_first
    hegira.Base.Text.take_chars hegira.Identity.Access.attempt hegira.Identity.Access.insert_audit
    hegira.Identity.Auth.create_token hegira.Identity.Auth.token_expiry
    hegira.Identity.Auth.try_outside hegira.Identity.Errors.from_domain Service.await_signup
    Service.create_login_result Service.link_account Service.record_oauth Service.suggested_username
    OAuth.insert_pending_signup OAuth.link_connection OAuth.link_rows OAuth.signup_rows
    hegira.Identity.Sessions.add_session hegira.Identity.Sessions.insert
    hegira.Identity.Sessions.insert_for hegira.Identity.Sessions.is_user
    hegira.Identity.Store.answer hegira.Identity.TwoFactor.map_credential
    hegira.Identity.TwoFactor.set_login_token hegira.Identity.TwoFactor.update_users
callback-IsGuarded_example =
    callback-IsGuarded " Google" "code" "state" (seconds 1_000_009) service linked {dto = answer}
      {t = (callback " Google" "code" "state" service linked).1} refl (omega arith)

callback-session_example :
    (provider : String) × (settings : OAuthProviderSettings) × (external : ExternalOAuthUser)
    × (name : String) × (tick : ℕ) × (normalize_provider "google" ≡ ok provider)
    × (service.fetch_user_at tick provider settings "code" ≡ ok external)
    × (owner_of provider external.provider_user_id linked ≡ some name)
    × HasEntered name answer linked (callback "google" "code" "state" service linked).1
unfolding callback ◌>>=◌ normalize_provider hegira.Base.Text.to_ascii_lowercase
    hegira.Base.Text.trim provider_settings hegira.Identity.Store.outside hegira.Identity.Auth.via
    OAuth.take_state hegira.Identity.Store.statement find is_current Service.exchanged answer_flow
    OAuth.username_for_connection Service.sign_in hegira.Identity.TwoFactor.credential_by_username
    Service.enter any retain hegira.Base.update_where hegira.Base.Text.before_first
    hegira.Base.Text.take_chars hegira.Identity.Access.attempt hegira.Identity.Access.insert_audit
    hegira.Identity.Auth.create_token hegira.Identity.Auth.token_expiry
    hegira.Identity.Auth.try_outside hegira.Identity.Errors.from_domain Service.await_signup
    Service.create_login_result Service.link_account Service.record_oauth Service.suggested_username
    OAuth.insert_pending_signup OAuth.link_connection OAuth.link_rows OAuth.signup_rows
    hegira.Identity.Sessions.add_session hegira.Identity.Sessions.insert
    hegira.Identity.Sessions.insert_for hegira.Identity.Sessions.is_user
    hegira.Identity.Store.answer hegira.Identity.TwoFactor.map_credential
    hegira.Identity.TwoFactor.set_login_token hegira.Identity.TwoFactor.update_users
callback-session_example =
    callback-session "google" "code" "state" service linked {dto = answer}
      {t = (callback "google" "code" "state" service linked).1} refl refl

abbrev dora : CompleteOAuthSignup
dora = record {
  token = "signup";
  now = seconds 1_000_000;
  username = "dora@x";
  password_hash = "#";
  publish_search = true;
}

complete_signup-once_example :
    (pending : PendingOAuthSignup) × (user : UserRow) × (find
        (is_pending "signup" (seconds 1_000_000))
        linked.oauth_signups
      ≡ some pending)
    × (any
          (is_pending "signup" (seconds 1_000_009))
          (complete_signup dora service linked).1.oauth_signups
        ≡ false)
    × ((complete_signup dora service linked).1.users ≡ linked.users ++ user ∷ [])
    × (user.external_only ≡ true)
    × (owner_of pending.provider pending.provider_user_id (complete_signup dora service linked).1
        ≡ some "dora@x")
unfolding complete_signup hegira.Base.Actions.transaction ◌>>=◌ hegira.Identity.Store.statement
    OAuth.finish_signup find is_pending hegira.Identity.Store.outside OAuth.insert_external any
    OAuth.insert_connection hegira.Identity.Outbox.enqueue_user_upsert
    hegira.Identity.Outbox.enqueue_search hegira.Identity.Outbox.enqueue_outbox
    hegira.Jobs.Outbox.insert_outbox
complete_signup-once_example =
    complete_signup-once dora (seconds 1_000_009) service linked
      {t = (complete_signup dora service linked).1} refl (omega arith) refl

-- The tables when the time has come for the pending signup, and not for the session.
abbrev overdue : World
overdue = record linked {
  oauth_signups =
      record {
        token = "late";
        provider = "google";
        provider_user_id = "g3";
        email = "eve@x";
        created_at = 0;
        expires_at = seconds 1;
      }
      ∷ linked.oauth_signups;
}

abbrev after_removal : World
after_removal = (delete_expired service overdue).1

delete_expired-unnoticed_example :
    (after_removal ≡ swept (service.now_at 0) after_removal.ticks overdue)
    × (any (session_is_over (service.now_at 0)) after_removal.sessions ≡ false)
    × (any (λ row. ltb row.expires_at (service.now_at 0)) after_removal.oauth_states ≡ false)
    × (any (λ row. ltb row.expires_at (service.now_at 0)) after_removal.oauth_signups ≡ false)
    × (find (is_live "t1" (seconds 1_000_009)) after_removal.sessions
        ≡ find (is_live "t1" (seconds 1_000_009)) overdue.sessions)
    × (find (is_current "state" (seconds 1_000_009)) after_removal.oauth_states
        ≡ find (is_current "state" (seconds 1_000_009)) overdue.oauth_states)
    × (find (is_pending "signup" (seconds 1_000_009)) after_removal.oauth_signups
        ≡ find (is_pending "signup" (seconds 1_000_009)) overdue.oauth_signups)
unfolding delete_expired retain ◌>>=◌ hegira.Identity.Store.outside
    hegira.Identity.Upkeep.delete_before hegira.Base.Actions.transaction
    hegira.Identity.Store.statement hegira.Identity.Upkeep.delete_sessions
    hegira.Identity.Upkeep.delete_states hegira.Identity.Upkeep.delete_signups
delete_expired-unnoticed_example =
    delete_expired-unnoticed "t1" "state" "signup" (seconds 1_000_009) service overdue {n = 1}
      {t = after_removal} refl (omega arith)
