-- ===== src/Identity/Requests.antt =====
-- The services of modules/identity together: authentication, administration and OAuth, over the same
-- tables.
use hegira.Base.{String, List, [], ◌∷◌}
use hegira.Base.Keeps.{Keeps}
use hegira.Identity.Store.{World, IdentityServices, Service}
use hegira.Identity.Sessions.Sound.{HasSoundSessions}
use hegira.Identity.Auth.Requests
use hegira.Identity.Auth.Sound.Served.{serve-Sound}
use hegira.Identity.Admin.{AdminRequest, serve_admin}
use hegira.Identity.Admin.Sound.Served.{serve_admin-Sound}
use hegira.Identity.OAuth.Requests.{OAuthRequest, serve_oauth}
use hegira.Identity.OAuth.Sound.{serve_oauth-Sound}

pub data IdentityRequest : Type 0 where
  auth : Requests.Request → IdentityRequest
  admin : String → AdminRequest → IdentityRequest
  oauth : OAuthRequest → IdentityRequest

unfoldable pub serve_identity : IdentityRequest → Service (Unit {0})
serve_identity (IdentityRequest.auth request) = Requests.serve request
serve_identity (IdentityRequest.admin token request) = serve_admin token request
serve_identity (IdentityRequest.oauth request) = serve_oauth request

-- The state after some requests, the first one first, whichever of them fail.
unfoldable pub serve_identity_all : List IdentityRequest → IdentityServices → World → World
serve_identity_all [] r s = s
serve_identity_all (request ∷ requests) r s =
    serve_identity_all requests r (serve_identity request r s).1

serve_identity-Sound : (request : IdentityRequest) → Keeps HasSoundSessions (serve_identity request)
unfolding serve_identity
serve_identity-Sound (IdentityRequest.auth request) = serve-Sound request
serve_identity-Sound (IdentityRequest.admin token request) = serve_admin-Sound token request
serve_identity-Sound (IdentityRequest.oauth request) = serve_oauth-Sound request

-- After any sequence of requests to the three services, of which any may fail, every session token
-- has one row and no session outlives its maximum, if this held before.
pub serve_identity_all-Sound :
    (requests : List IdentityRequest) (r : IdentityServices) (s : World)
    → HasSoundSessions s
    → HasSoundSessions (serve_identity_all requests r s)
unfolding serve_identity_all
serve_identity_all-Sound [] r s h = h
serve_identity_all-Sound (request ∷ requests) r s h =
    serve_identity_all-Sound requests r (serve_identity request r s).1
      ((serve_identity-Sound request).at r s h)
