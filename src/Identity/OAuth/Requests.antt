-- ===== src/Identity/OAuth/Requests.antt =====
-- `OAuthServiceContract` of modules/identity/application/src/identity/oauth/service.rs: the requests
-- that the OAuth service answers.
use hegira.Base.{String}
use hegira.Base.Actions.{◌>>◌, pure}
use hegira.Identity.Store.{Service as Action}
use hegira.Identity.OAuth.Service

pub data OAuthRequest : Type 0 where
  authorize_url list_connections : String → OAuthRequest
  link_authorize_url complete_signup unlink_connection : String → String → OAuthRequest
  callback : String → String → String → OAuthRequest

-- What the service does, without the answer.
unfoldable pub serve_oauth : OAuthRequest → Action (Unit {0})
serve_oauth (OAuthRequest.authorize_url provider) = Service.authorize_url provider >> pure tt
serve_oauth (OAuthRequest.link_authorize_url token provider) =
    Service.link_authorize_url token provider >> pure tt
serve_oauth (OAuthRequest.callback provider code state) =
    Service.callback provider code state >> pure tt
serve_oauth (OAuthRequest.complete_signup name token) =
    Service.complete_signup name token >> pure tt
serve_oauth (OAuthRequest.list_connections token) = Service.list_connections token >> pure tt
serve_oauth (OAuthRequest.unlink_connection token provider) =
    Service.unlink_connection token provider
