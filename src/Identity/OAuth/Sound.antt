-- ===== src/Identity/OAuth/Sound.antt =====
-- The OAuth service keeps the sessions sound.
use hegira.Base.{ℕ, ◌+◌, String, Bool, true, false, Option, none, some, arith, Result, ok, err, min}
use hegira.Base.Keeps.{Keeps, Keeps-bind, Keeps-pure, Keeps-gets}
use hegira.Identity.Errors.{ApplicationResult}
use hegira.Identity.Store.{
  UserRow, OAuthFlow, login, link, OAuthState, OAuthConnection, PendingOAuthSignup,
  ExternalOAuthUser, World,
}
use hegira.Identity.Sessions.Sound.{
  HasSoundSessions, insert-Sound, statement-Sound, outside-Sound, transaction-Sound,
}
use hegira.Identity.TwoFactor.{credential_by_username, set_login_token}
use hegira.Identity.Outbox.{enqueue_user_upsert, enqueue_search}
use hegira.Identity.Auth.{create_token, token_expiry, hash}
use hegira.Identity.Auth.Sound.{service_rules, via-Sound, try_outside-Sound}
use hegira.Identity.Auth.Sound.Writes.{write_rules, run-Sound, begin-Sound}
use hegira.Identity.Access.{insert_audit}
use hegira.Identity.Admin.Sound.{current_user-Sound, attempt-Sound}
use hegira.Identity.Admin.Sound.Served.{when-Sound}
use hegira.Identity.OAuth
use hegira.Identity.OAuth.{
  insert_state, take_state, unlink_rows, finish_unlink, unlink_connection, username_for_connection,
  link_rows, true_if_ok, link_user, link_connection, signup_rows, insert_pending_signup,
  insert_external, insert_connection, CompleteOAuthSignup, finish_signup,
}
use hegira.Identity.OAuth.Service
use hegira.Identity.OAuth.Service.{
  record_oauth, create_authorize_url, create_login_result, link_account, await_signup, enter,
  sign_in, answer_flow, exchanged,
}
use hegira.Identity.OAuth.Requests.{OAuthRequest, serve_oauth}

insert_state-Sound : (row : OAuthState) → Keeps HasSoundSessions (insert_state row)
unfolding insert_state
insert_state-Sound row = statement-Sound _ _ λ s h. ground arith

take_state-Sound : (state : String) (now : ℕ) → Keeps HasSoundSessions (take_state state now)
unfolding take_state
take_state-Sound state now = statement-Sound _ _ λ s h. h

unlink_rows-Sound :
    (user : Option UserRow) (provider : String) (s : World)
    → HasSoundSessions s
    → HasSoundSessions (unlink_rows user provider s).1
unfolding unlink_rows
unlink_rows-Sound none provider s h = h
unlink_rows-Sound (some user) provider s h = ground arith

finish_unlink-Sound :
    (name provider : String) (deleted : Bool)
    → Keeps HasSoundSessions (finish_unlink name provider deleted)
unfolding finish_unlink
finish_unlink-Sound name provider true = Keeps-pure _
finish_unlink-Sound name provider false = search service_rules

unlink_connection-Sound :
    (name provider : String) → Keeps HasSoundSessions (unlink_connection name provider)
unfolding unlink_connection
unlink_connection-Sound name provider =
    Keeps-bind _ _ (statement-Sound _ _ λ s h. unlink_rows-Sound _ provider s h)
      λ deleted. finish_unlink-Sound name provider deleted

true_if_ok-Sound :
    (m : Result String (Unit {0}) × World)
    → HasSoundSessions m.1
    → HasSoundSessions (true_if_ok m).1
true_if_ok-Sound (ok _, s) h = h
true_if_ok-Sound (err e, s) h = h

link_rows-Sound :
    (row : OAuthConnection) (s : World) → HasSoundSessions s → HasSoundSessions (link_rows row s).1
unfolding link_rows
link_rows-Sound row s h = ground arith

link_user-Sound :
    (user : Option UserRow) (provider id email : String) (now : ℕ) (s : World)
    → HasSoundSessions s
    → HasSoundSessions (link_user user provider id email now s).1
link_user-Sound none provider id email now s h = h
link_user-Sound (some user) provider id email now s h = true_if_ok-Sound _ (link_rows-Sound _ s h)

link_connection-Sound :
    (name provider id email : String)
    → Keeps HasSoundSessions (link_connection name provider id email)
unfolding link_connection
link_connection-Sound name provider id email = Keeps-bind _ _ (outside-Sound _) λ now.
    Keeps-bind _ _ (statement-Sound _ _ λ s h. link_user-Sound _ provider id email now s h)
      λ linked. search service_rules

signup_rows-Sound :
    (row : PendingOAuthSignup) (s : World)
    → HasSoundSessions s
    → HasSoundSessions (signup_rows row s).1
unfolding signup_rows
signup_rows-Sound row s h = ground arith

insert_external-Sound :
    (row : UserRow) (s : World) → HasSoundSessions s → HasSoundSessions (insert_external row s).1
unfolding insert_external
insert_external-Sound row s h = ground arith

insert_connection-Sound :
    (row : OAuthConnection) (s : World)
    → HasSoundSessions s
    → HasSoundSessions (insert_connection row s).1
unfolding insert_connection
insert_connection-Sound row s h = ground arith

insert_pending_signup-Sound :
    (row : PendingOAuthSignup) → Keeps HasSoundSessions (insert_pending_signup row)
unfolding insert_pending_signup
insert_pending_signup-Sound row = statement-Sound _ _ (signup_rows-Sound row)

finish_signup-Sound :
    (command : CompleteOAuthSignup) (pending : Option PendingOAuthSignup)
    → Keeps HasSoundSessions (finish_signup command pending)
unfolding finish_signup enqueue_user_upsert enqueue_search
finish_signup-Sound command none = Keeps-pure false
finish_signup-Sound command (some pending) = Keeps-bind _ _ (outside-Sound _) λ pid.
    Keeps-bind _ _ (outside-Sound _) λ created_at.
      Keeps-bind _ _ (statement-Sound _ _ λ s h. insert_external-Sound _ s h)
        λ user. search (write_rules, statement-Sound, insert_connection-Sound, when-Sound) depth 24

complete_signup-Sound :
    (command : CompleteOAuthSignup) → Keeps HasSoundSessions (OAuth.complete_signup command)
unfolding OAuth.complete_signup
complete_signup-Sound command = transaction-Sound _ (
    Keeps-bind _ _ (begin-Sound _)
      λ _. Keeps-bind _ _ (run-Sound _ λ s h. h) λ pending. finish_signup-Sound command pending)

record_oauth-Sound :
    (actor action : String) (provider : Option String)
    → Keeps HasSoundSessions (record_oauth actor action provider)
unfolding record_oauth insert_audit
record_oauth-Sound actor action provider =
    Keeps-bind _ _ (attempt-Sound _ (run-Sound _ λ s h. h)) λ _. Keeps-pure tt

-- The session of an OAuth login is within its maximum.
create_login_result-Sound : (name : String) → Keeps HasSoundSessions (create_login_result name)
unfolding create_login_result create_token token_expiry
create_login_result-Sound name = Keeps-bind _ _ (try_outside-Sound _) λ token.
    Keeps-bind _ _ (outside-Sound _) λ max_expires_at. Keeps-bind _ _ (outside-Sound _) λ now.
      Keeps-bind _ _ (Keeps-gets _) λ session_ttl.
        Keeps-bind _ _
          (via-Sound _ (
            insert-Sound token name (min (now + session_ttl) max_expires_at) max_expires_at
              (omega arith)))
          λ _. Keeps-pure _

ruleset oauth_rules = (
  service_rules, record_oauth-Sound, create_login_result-Sound, insert_state-Sound,
  take_state-Sound, link_connection-Sound, insert_pending_signup-Sound, unlink_connection-Sound,
  current_user-Sound,
)

create_authorize_url-Sound :
    (provider : String) (flow : OAuthFlow) (name : Option String)
    → Keeps HasSoundSessions (create_authorize_url provider flow name)
unfolding create_authorize_url
create_authorize_url-Sound provider flow name = search oauth_rules depth 40

enter-Sound :
    (provider name : String) (enabled : Bool) → Keeps HasSoundSessions (enter provider name enabled)
unfolding enter set_login_token
enter-Sound provider name true = search oauth_rules depth 24
enter-Sound provider name false = search oauth_rules depth 24

sign_in-Sound :
    (provider : String) (external : ExternalOAuthUser) (name : Option String)
    → Keeps HasSoundSessions (sign_in provider external name)
unfolding sign_in credential_by_username await_signup
sign_in-Sound provider external none = search oauth_rules depth 24
sign_in-Sound provider external (some name) = search (oauth_rules, enter-Sound) depth 16

answer_flow-Sound :
    (provider : String) (stored : OAuthState) (external : ExternalOAuthUser) (flow : OAuthFlow)
    → Keeps HasSoundSessions (answer_flow provider stored external flow)
unfolding answer_flow link_account username_for_connection
answer_flow-Sound provider stored external link = search oauth_rules depth 24
answer_flow-Sound provider stored external login = search (oauth_rules, sign_in-Sound) depth 16

exchanged-Sound :
    (provider : String) (stored : OAuthState) (answer : ApplicationResult ExternalOAuthUser)
    → Keeps HasSoundSessions (exchanged provider stored answer)
unfolding exchanged
exchanged-Sound provider stored (ok external) = answer_flow-Sound _ _ _ _
exchanged-Sound provider stored (err error) = search oauth_rules depth 16

-- An OAuth request, whatever it is and wherever it fails, keeps one row for every token and every
-- session within its maximum.
pub serve_oauth-Sound : (request : OAuthRequest) → Keeps HasSoundSessions (serve_oauth request)
unfolding serve_oauth Service.authorize_url Service.link_authorize_url Service.callback
    Service.complete_signup Service.list_connections OAuth.list_connections
    Service.unlink_connection hash
serve_oauth-Sound (OAuthRequest.authorize_url provider) =
    search (oauth_rules, create_authorize_url-Sound) depth 16
serve_oauth-Sound (OAuthRequest.link_authorize_url token provider) =
    search (oauth_rules, create_authorize_url-Sound) depth 16
serve_oauth-Sound (OAuthRequest.callback provider code state) =
    search (oauth_rules, exchanged-Sound) depth 40
serve_oauth-Sound (OAuthRequest.complete_signup name token) =
    search (oauth_rules, complete_signup-Sound) depth 40
serve_oauth-Sound (OAuthRequest.list_connections token) = search oauth_rules depth 24
serve_oauth-Sound (OAuthRequest.unlink_connection token provider) = search oauth_rules depth 24
