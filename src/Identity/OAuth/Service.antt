-- ===== src/Identity/OAuth/Service.antt =====
-- `OAuthAppService` of modules/identity/application/src/identity/oauth/service.rs. Details of audit
-- entries are left out.
use Prim.Native.Char.{code}
use Prim.Native.String.{◌++◌}
use hegira.Base.{
  ℕ, ◌+◌, ◌*◌, min, String, Bool, true, false, ◌||◌, not, Option, none, some, List, [], ◌∷◌, str_eq,
  if◌then◌else◌, map, ok, err,
}
use hegira.Base.Actions.{◌>>=◌, ◌>>◌, pure, raise, gets, lift, some_or, raise_if}
use hegira.Base.Text.{trim, to_ascii_lowercase, join, take_chars, before_first}
use hegira.Identity.Errors.{ApplicationError, ApplicationErrorKind, ApplicationResult, coded}
use hegira.Identity.Validation.{required_username, max_username_len}
use hegira.Identity.Store.{
  OAuthFlow, login, link, OAuthState, OAuthConnection, ExternalOAuthUser, OAuthProviderSettings,
  OAuthSettings, utc_now, new_token, outside,
}
use hegira.Identity.Store.{Service as Action}
use hegira.Identity.Sessions
use hegira.Identity.TwoFactor.{credential_by_username, set_login_token}
use hegira.Identity.Auth.{via, create_token, token_expiry, hash}
use hegira.Identity.Auth.Login.{
  LoginResultDto, authenticated, totp_required, five_minutes, is_enabled,
}
use hegira.Identity.Access.{current_user, attempt, insert_audit}
use hegira.Identity.OAuth
use hegira.Identity.OAuth.{
  OAuthUnlinkResult, insert_state, take_state, link_connection, username_for_connection,
  insert_pending_signup,
}

pub record OAuthAuthorizeDto : Type 0 where
  pub authorization_url : String
  pub state : String

pub record OAuthCallbackDto : Type 0 where
  pub linked : Bool
  pub login : Option LoginResultDto
  pub signup_token : Option String
  pub suggested_username : Option String

pub record OAuthConnectionDto : Type 0 where
  pub provider : String
  pub email : String
  pub created_at : ℕ

abbrev pub unsupported_provider : ApplicationError
unsupported_provider =
    coded ApplicationErrorKind.validation "oauth:unsupported_provider" "Unsupported OAuth provider"

-- `normalize_provider`
unfoldable pub normalize_provider : String → ApplicationResult String
normalize_provider text =
    let provider = to_ascii_lowercase (trim text) in
    if str_eq provider "google" || str_eq provider "github"
    then ok provider
    else err unsupported_provider

abbrev pub is_configured : OAuthProviderSettings → Bool
is_configured settings = not (
    str_eq settings.client_id ""
    || str_eq settings.client_secret ""
    || str_eq settings.redirect_uri ""
    || str_eq settings.authorization_url ""
    || str_eq settings.token_url ""
    || str_eq settings.userinfo_url "")

abbrev pub settings_of : String → OAuthSettings → Option OAuthProviderSettings
settings_of provider settings =
    if str_eq provider "google"
    then some settings.google
    else if str_eq provider "github"
    then some settings.github
    else none

abbrev pub checked_settings : Option OAuthProviderSettings → ApplicationResult OAuthProviderSettings
checked_settings none = err unsupported_provider
checked_settings (some settings) =
    if not settings.enabled
    then err (
        coded ApplicationErrorKind.forbidden "oauth:provider_disabled" "OAuth provider is disabled")
    else if not (is_configured settings)
    then err (
        coded ApplicationErrorKind.infrastructure "oauth:provider_misconfigured"
          "OAuth provider is misconfigured")
    else ok settings

-- `provider_settings`
unfoldable pub provider_settings : String → OAuthSettings → ApplicationResult OAuthProviderSettings
provider_settings provider settings =
    if not settings.enabled
    then err (coded ApplicationErrorKind.forbidden "oauth:disabled" "OAuth is disabled")
    else checked_settings (settings_of provider settings)

-- `enabled_providers`
unfoldable pub enabled_providers : OAuthSettings → List String
enabled_providers settings =
    if not settings.enabled
    then []
    else let github = if settings.github.enabled then "github" ∷ [] else [] in
      if settings.google.enabled then "google" ∷ github else github

-- `record_audit`
unfoldable pub record_oauth : String → String → Option String → Action (Unit {0})
record_oauth actor action provider = do
  attempt (
      insert_audit (record {
        actor = actor;
        action = action;
        entity_type = "identity.oauth_connection";
        entity_id = provider;
      }))
  pure tt

abbrev pub or_anonymous : Option String → String
or_anonymous none = "anonymous"
or_anonymous (some name) = name

-- The last parameter of the address, where the settings name scopes.
abbrev pub scope : (String → String) → List String → String
scope encode [] = ""
scope encode (first ∷ rest) = "&scope=" ++ encode (join " " (first ∷ rest))

-- `build_authorization_url`, with the encoding of a query parameter.
unfoldable pub build_authorization_url : (String → String) → OAuthProviderSettings → String → String
build_authorization_url encode settings state =
    settings.authorization_url
    ++ "?response_type="
    ++ encode "code"
    ++ "&client_id="
    ++ encode settings.client_id
    ++ "&redirect_uri="
    ++ encode settings.redirect_uri
    ++ "&state="
    ++ encode state
    ++ scope encode settings.scopes

-- `create_authorize_url`
unfoldable pub create_authorize_url : String → OAuthFlow → Option String → Action OAuthAuthorizeDto
create_authorize_url text flow username = do
  provider ← lift (normalize_provider text)
  found ← gets (λ r s. provider_settings provider r.oauth)
  settings ← lift found
  now ← utc_now
  state ← new_token
  csrf_token ← new_token
  state_ttl ← gets (λ r s. r.oauth.state_ttl)
  via (
      insert_state (record {
        state = state;
        provider = provider;
        csrf_token = csrf_token;
        flow = flow;
        username = username;
        created_at = now;
        expires_at = now + state_ttl;
      }))
  record_oauth (or_anonymous username) "oauth.authorization.started" (some provider)
  encode ← gets (λ r s. r.urlencode)
  pure (record { authorization_url = build_authorization_url encode settings state; state = state })

-- `authorize_url`
unfoldable pub authorize_url : String → Action OAuthAuthorizeDto
authorize_url provider = create_authorize_url provider login none

-- `link_authorize_url`
unfoldable pub link_authorize_url : String → String → Action OAuthAuthorizeDto
link_authorize_url actor_token provider = do
  user ← current_user actor_token
  create_authorize_url provider link (some user.username)

-- `.map(|name| name.trim()).filter(…).map(…take(MAX_USERNAME_LEN)…)`
abbrev pub shortened : Option String → Option String
shortened none = none
shortened (some name) =
    if str_eq (trim name) "" then none else some (take_chars max_username_len (trim name))

-- `suggested_username`
unfoldable pub suggested_username : String → Option String
suggested_username email = shortened (before_first b'@' email)

abbrev pub ten_minutes : ℕ
ten_minutes = 10 * 60_000_000_000

abbrev pub callback_login : LoginResultDto → OAuthCallbackDto
callback_login result = record {
  linked = false;
  login = some result;
  signup_token = none;
  suggested_username = none;
}

-- `create_login_result`
unfoldable pub create_login_result : String → Action LoginResultDto
create_login_result username = do
  token ← create_token username
  max_expires_at ← token_expiry
  now ← utc_now
  session_ttl ← gets (λ r s. r.session_ttl)
  via (Sessions.insert token username (min (now + session_ttl) max_expires_at) max_expires_at)
  pure (authenticated token)

-- The end of `callback` for a linking that was begun.
unfoldable pub link_account : String → Option String → ExternalOAuthUser → Action OAuthCallbackDto
link_account provider begun external = do
  username ← some_or begun ApplicationError.unauthorized
  via (link_connection username provider external.provider_user_id external.email)
  record_oauth username "oauth.connection.linked" (some provider)
  pure (record { linked = true; login = none; signup_token = none; suggested_username = none })

-- The end of `callback` for an identity that no user is linked to.
unfoldable pub await_signup : String → ExternalOAuthUser → Action OAuthCallbackDto
await_signup provider external = do
  now ← utc_now
  signup_token ← new_token
  via (
      insert_pending_signup (record {
        token = signup_token;
        provider = provider;
        provider_user_id = external.provider_user_id;
        email = external.email;
        created_at = now;
        expires_at = now + ten_minutes;
      }))
  record_oauth "anonymous" "oauth.signup.pending" (some provider)
  pure (record {
    linked = false;
    login = none;
    signup_token = some signup_token;
    suggested_username = suggested_username external.email;
  })

-- The end of `callback` for the user of an identity, who has or has not a second factor.
unfoldable pub enter : String → String → Bool → Action OAuthCallbackDto
enter provider username true = do
  totp_token ← new_token
  now ← utc_now
  set ← via (set_login_token username totp_token (now + five_minutes))
  raise_if (not set) ApplicationError.unauthorized
  record_oauth username "oauth.login.totp_required" (some provider)
  pure (callback_login (totp_required totp_token))
enter provider username false = do
  result ← create_login_result username
  record_oauth username "oauth.login.succeeded" (some provider)
  pure (callback_login result)

unfoldable pub sign_in : String → ExternalOAuthUser → Option String → Action OAuthCallbackDto
sign_in provider external none = await_signup provider external
sign_in provider external (some username) = do
  credential ← via (credential_by_username username)
  enter provider username (is_enabled credential)

-- The end of `callback` for the flow that the state was made for.
unfoldable pub answer_flow :
    String → OAuthState → ExternalOAuthUser → OAuthFlow → Action OAuthCallbackDto
answer_flow provider stored external link = link_account provider stored.username external
answer_flow provider stored external login = do
  username ← via (username_for_connection provider external.provider_user_id)
  sign_in provider external username

-- The `match` on the answer of the provider.
unfoldable pub exchanged :
    String → OAuthState → ApplicationResult ExternalOAuthUser → Action OAuthCallbackDto
exchanged provider stored (ok external) = answer_flow provider stored external stored.flow
exchanged provider stored (err error) = do
  record_oauth (or_anonymous stored.username) "oauth.provider_exchange.failed" (some provider)
  raise error

abbrev pub invalid_callback : ApplicationError
invalid_callback =
    coded ApplicationErrorKind.validation "oauth:invalid_callback" "Invalid OAuth callback"

abbrev pub invalid_state : ApplicationError
invalid_state =
    coded ApplicationErrorKind.unauthorized "oauth:invalid_state"
      "OAuth state is invalid or expired"

abbrev pub provider_mismatch : ApplicationError
provider_mismatch =
    coded ApplicationErrorKind.unauthorized "oauth:provider_mismatch"
      "OAuth provider does not match state"

-- `callback`
unfoldable pub callback : String → String → String → Action OAuthCallbackDto
callback text code state = do
  provider ← lift (normalize_provider text)
  found ← gets (λ r s. provider_settings provider r.oauth)
  settings ← lift found
  raise_if (str_eq (trim code) "" || str_eq (trim state) "") invalid_callback
  now ← utc_now
  taken ← via (take_state state now)
  stored ← some_or taken invalid_state
  raise_if (not (str_eq stored.provider provider)) provider_mismatch
  answer ← outside (λ r t. r.fetch_user_at t provider settings code)
  exchanged provider stored answer

abbrev pub signup_expired : ApplicationError
signup_expired =
    coded ApplicationErrorKind.unauthorized "oauth:signup_expired"
      "OAuth signup is invalid or expired"

-- `complete_signup`
unfoldable pub complete_signup : String → String → Action LoginResultDto
complete_signup text signup_token = do
  lift (required_username text)
  raise_if (str_eq (trim signup_token) "") ApplicationError.unauthorized
  password ← new_token
  password_hash ← hash password
  now ← utc_now
  publish_search ← gets (λ r s. r.publish_search)
  completed ← OAuth.complete_signup (record {
    token = signup_token;
    now = now;
    username = trim text;
    password_hash = password_hash;
    publish_search = publish_search;
  })
  raise_if (not completed) signup_expired
  result ← create_login_result (trim text)
  record_oauth (trim text) "oauth.signup.completed" none
  pure result

abbrev pub connection_dto : OAuthConnection → OAuthConnectionDto
connection_dto row = record {
  provider = row.provider;
  email = row.email;
  created_at = row.created_at;
}

-- `list_connections`
unfoldable pub list_connections : String → Action (List OAuthConnectionDto)
list_connections actor_token = do
  user ← current_user actor_token
  connections ← via (OAuth.list_connections user.username)
  pure (map connection_dto connections)

abbrev pub last_connection_required : ApplicationError
last_connection_required =
    coded ApplicationErrorKind.conflict "oauth:last_connection_required"
      "The last sign-in connection cannot be removed"

abbrev pub connection_not_found : ApplicationError
connection_not_found =
    coded ApplicationErrorKind.not_found "oauth:connection_not_found" "OAuth connection not found"

abbrev pub unlink_result : OAuthUnlinkResult → ApplicationResult (Unit {0})
unlink_result OAuthUnlinkResult.unlinked = ok tt
unlink_result OAuthUnlinkResult.last_connection = err last_connection_required
unlink_result OAuthUnlinkResult.not_found = err connection_not_found

abbrev pub unlink_event : ApplicationResult (Unit {0}) → String
unlink_event (ok _) = "oauth.connection.unlinked"
unlink_event (err _) = "oauth.connection.unlink_rejected"

-- `unlink_connection`
unfoldable pub unlink_connection : String → String → Action (Unit {0})
unlink_connection actor_token text = do
  provider ← lift (normalize_provider text)
  user ← current_user actor_token
  outcome ← via (OAuth.unlink_connection user.username provider)
  record_oauth user.username (unlink_event (unlink_result outcome)) (some provider)
  lift (unlink_result outcome)
