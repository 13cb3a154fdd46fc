-- ===== src/RateLimit/Middleware.antt =====
-- `RateLimiter`, `check_configured` and the headers of crates/http_support/src/rate_limit.rs. The
-- rest of the server (`next`) and the Redis server are parameters.
pub mod Limits
use Prim.Native.String.{◌++◌}
use hegira.Base.{
  ℕ, max, String, Bool, true, false, not, ◌||◌, Option, none, some, List, [], ◌∷◌, str_eq,
  if◌then◌else◌, Result, ok, err, ◌>>=◌, map_err,
}
use hegira.RateLimit.Memory.{ClientMap, RateLimitDecision, check}
use hegira.RateLimit.Resolver.{
  IpAddr, IpLibrary, Request, ProxyError, ClientIpError, missing_peer_address,
  invalid_forwarded_for, from_trusted_proxies, resolve,
}

pub data RateLimitBackend : Type 0 where
  memory : RateLimitBackend
  redis : String → RateLimitBackend

pub record RateLimitOptions : Type 0 where
  pub enabled : Bool
  pub max_requests : ℕ
  pub window : ℕ
  pub backend : RateLimitBackend

pub record RateLimiter (IpNet : Type 0) : Type 0 where
  pub enabled : Bool
  pub max_requests : ℕ
  pub window : ℕ
  pub backend : RateLimitBackend
  pub client_ip_resolver : List IpNet

pub data OptionsError : Type 0 where
  proxy : ProxyError → OptionsError
  no_redis : String → OptionsError

-- A response, with the headers that carry a number.
pub record Response : Type 0 where
  pub status : ℕ
  pub code : String
  pub message : String
  pub headers : List (String × ℕ)

-- What lies outside: the handlers behind the limiter, and the client of the Redis server.
pub record Server : Type 0 where
  pub next : Request → Response
  pub open_redis : String → Result String (Unit {0})
  pub redis_check : String → String → ℕ → ℕ → Result String RateLimitDecision

-- `HeaderMap::insert` replaces the values of a name.
abbrev pub insert_header : String → ℕ → List (String × ℕ) → List (String × ℕ)
insert_header name value [] = (name, value) ∷ []
insert_header name value ((n, v) ∷ headers) =
    if str_eq n name then (name, value) ∷ headers else (n, v) ∷ insert_header name value headers

insert_retry_after : Option ℕ → List (String × ℕ) → List (String × ℕ)
insert_retry_after none headers = headers
insert_retry_after (some seconds) headers = insert_header "retry-after" seconds headers

pub write_rate_limit_headers : RateLimitDecision → Response → Response
unfolding insert_retry_after
write_rate_limit_headers decision response =
    let limit = insert_header "x-ratelimit-limit" decision.limit response.headers in
    let remaining = insert_header "x-ratelimit-remaining" decision.remaining limit in
    let reset = insert_header "x-ratelimit-reset" decision.reset_seconds remaining in
    record response { headers = insert_retry_after decision.retry_after_seconds reset }

abbrev refusal : ℕ → String → String → Response
refusal status code message = record {
  status = status;
  code = code;
  message = message;
  headers = [];
}

pub resolver_refusal : ClientIpError → Response
resolver_refusal missing_peer_address =
    refusal 500 "system:rate_limiter_error" "internal server error"
resolver_refusal invalid_forwarded_for =
    refusal 400 "request:invalid_forwarded_for" "invalid forwarded client address"

module _ {IpNet : Type 0} (library : IpLibrary IpNet) (server : Server) where
  build_redis : String → Result OptionsError RateLimitBackend
  build_redis url = do _ ← map_err no_redis (server.open_redis url); ok (redis url)

  build_backend : RateLimitOptions → RateLimitBackend → Result OptionsError RateLimitBackend
  build_backend options memory = ok memory
  build_backend options (redis url) = if options.enabled then build_redis url else ok memory

  -- `RateLimiter::from_options`
  unfoldable pub from_options :
      RateLimitOptions → List String → Result OptionsError (RateLimiter IpNet)
  unfolding build_backend build_redis
  from_options options trusted_proxies = do
    client_ip_resolver ← map_err proxy (from_trusted_proxies library trusted_proxies)
    backend ← build_backend options options.backend
    ok (record {
      enabled = options.enabled;
      max_requests = max options.max_requests 1;
      window = max options.window 1_000_000_000;
      backend = backend;
      client_ip_resolver = client_ip_resolver;
    })

  pub rate_limit_key : Request → IpAddr → String
  rate_limit_key req client_ip =
      "rate_limit:" ++ req.method ++ ":" ++ req.path ++ ":" ++ library.display client_ip

  -- `RateLimiter::check`
  check_backend :
      RateLimitBackend
      → String
      → ℕ
      → ℕ
      → ℕ
      → ClientMap
      → Result String RateLimitDecision × ClientMap
  check_backend memory key max_requests window now clients =
      let (decision, clients') = check key max_requests window now clients in
      (ok decision, clients')
  check_backend (redis url) key max_requests window now clients =
      (server.redis_check url key max_requests window, clients)

  respond : Request → Result String RateLimitDecision → Response
  respond req (err e) = refusal 500 "system:rate_limiter_error" "internal server error"
  respond req (ok decision) =
      if decision.allowed
      then write_rate_limit_headers decision (server.next req)
      else write_rate_limit_headers decision (refusal 429 "rate_limit:exceeded" "too many requests")

  -- `check_with_limiter`, at an instant `now`.
  pub check_with_limiter : RateLimiter IpNet → Request → ℕ → ClientMap → Response × ClientMap
  unfolding respond check_backend resolver_refusal
  check_with_limiter limiter req now clients =
      if not limiter.enabled || not (str_eq req.method "POST")
      then (server.next req, clients)
      else elim (resolve library limiter.client_ip_resolver req) [
        | err e ↦ (resolver_refusal e, clients)
        | ok client_ip ↦
            let (decision, clients') =
              check_backend limiter.backend (rate_limit_key req client_ip) limiter.max_requests
                limiter.window now clients in
            (respond req decision, clients')
      ]
