-- ===== src/RateLimit/Examples.antt =====
-- Runs of the rate limiter, and its theorems at concrete inputs.
use hegira.Base.{
  any, ◌*◌, ℕ, ◌≤◌, true, false, none, some, List, [], ◌∷◌, ◌++◌, ◌≡◌, ◌⊎◌, refl, arith, str_eq,
  ◌==◌, ltb, if◌then◌else◌, ok, err, length,
}
use mathlib.Core.List.{reverse}
use hegira.Base.Text.{trim, split}
use hegira.RateLimit.Memory.{check}
use hegira.RateLimit.Memory.Ledger.{Arrival, admissions, serve}
use hegira.RateLimit.Memory.Quota.{IsWithinQuota, serve-IsWithinQuota, check-serve}
use hegira.RateLimit.Resolver.{
  IpAddr, v4, IpLibrary, Request, trusted_proxy, is_trusted, parse_x_forwarded_for, normalize_ip,
  walk, resolve, from_trusted_proxies,
}
use hegira.RateLimit.Resolver.Chain.{
  IsClientOf, resolve-IsClientOf, resolve-forged, length-parse_x_forwarded_for,
}
use hegira.RateLimit.Middleware.{
  memory, RateLimitOptions, RateLimiter, Server, from_options, rate_limit_key, check_with_limiter,
}
use hegira.RateLimit.Middleware.Limits.{
  IsConfigured, from_options-IsConfigured, check_with_limiter-status,
}

abbrev seconds : ℕ → ℕ
seconds n = n * 1_000_000_000

abbrev arrivals : List Arrival
arrivals =
    record { client = "alice"; instant = seconds 1 }
    ∷ record { client = "alice"; instant = seconds 2 }
    ∷ record { client = "bob"; instant = seconds 3 }
    ∷ record { client = "alice"; instant = seconds 4 }
    ∷ []

-- With two requests a minute alice's third is denied, and bob's is not.
serve-arrivals : length (serve 2 (seconds 60) arrivals ([], [])).1 ≡ 3
unfolding serve check
serve-arrivals = refl

serve-IsWithinQuota_example :
    IsWithinQuota (seconds 60) 2 (serve 2 (seconds 60) arrivals ([], [])).1
serve-IsWithinQuota_example = serve-IsWithinQuota (seconds 60) 2 arrivals (omega arith)

check-serve_example :
    let (clients, ledger) = serve 2 (seconds 60) arrivals ([], []) in
    (check "alice" 2 (seconds 60) (seconds 5) clients).0.allowed
    ≡ ltb (admissions "alice" (seconds 60) (seconds 5) ledger) 2
check-serve_example =
    check-serve (seconds 60) 2 arrivals "alice" (seconds 5) (omega arith) (omega arith)

-- A network is one address here, and addresses are short names.
abbrev library : IpLibrary IpAddr
library = record {
  display = λ _. "10.0.0.1";
  parse_address = λ s.
      if str_eq s "proxy"
      then some (v4 1)
      else if str_eq s "client"
      then some (v4 2)
      else if str_eq s "forged"
      then some (v4 3)
      else none;
  parse_network = λ s. if str_eq s "proxy" then some (v4 1) else none;
  prefix_len = λ _. 32;
  contains = λ net ip. elim net [ v4 a ↦ elim ip [ v4 b ↦ a == b | _ ↦ false ] | _ ↦ false ];
}

abbrev proxies : List IpAddr
proxies = v4 1 ∷ []

abbrev through_proxy : Request
through_proxy = record {
  method = "POST";
  path = "/auth/login";
  peer = some (v4 1);
  forwarded_for = some "client, proxy" ∷ [];
}

abbrev forging : Request
forging = record through_proxy { forwarded_for = some "forged" ∷ some "client, proxy" ∷ [] }

resolve-through_proxy : resolve library proxies through_proxy ≡ ok (v4 2)
unfolding resolve normalize_ip is_trusted parse_x_forwarded_for walk split trim any
resolve-through_proxy = refl

parse-through_proxy : parse_x_forwarded_for library through_proxy ≡ ok (v4 2 ∷ v4 1 ∷ [])
unfolding normalize_ip parse_x_forwarded_for split trim
parse-through_proxy = refl

parse-forging : parse_x_forwarded_for library forging ≡ ok ((v4 3 ∷ []) ++ v4 2 ∷ v4 1 ∷ [])
unfolding normalize_ip parse_x_forwarded_for split trim
parse-forging = refl

v4_untrusted : is_trusted library proxies (v4 2) ≡ false
unfolding is_trusted any
v4_untrusted = refl

resolve-IsClientOf_example :
    (socket : IpAddr) × (forwarded : List IpAddr) × (some (v4 1) ≡ some socket)
    × ((is_trusted library proxies (normalize_ip socket) ≡ false)
        ⊎ (parse_x_forwarded_for library through_proxy ≡ ok forwarded))
    × IsClientOf library proxies (v4 2) (normalize_ip socket ∷ reverse forwarded)
resolve-IsClientOf_example =
    resolve-IsClientOf library proxies through_proxy (v4 2) resolve-through_proxy

resolve-forged_example : resolve library proxies forging ≡ ok (v4 2)
resolve-forged_example =
    resolve-forged library proxies through_proxy forging (v4 2) (v4 3 ∷ []) (v4 2 ∷ v4 1 ∷ []) refl
      parse-through_proxy parse-forging resolve-through_proxy v4_untrusted

length-parse_x_forwarded_for_example : length (v4 2 ∷ v4 1 ∷ []) ≤ 32
length-parse_x_forwarded_for_example =
    length-parse_x_forwarded_for library proxies through_proxy (v4 2 ∷ v4 1 ∷ [])
      parse-through_proxy

abbrev server : Server
server = record {
  next = λ _. record { status = 200; code = "ok"; message = ""; headers = [] };
  open_redis = λ _. err "no redis";
  redis_check = λ _ _ _ _. err "no redis";
}

abbrev options : RateLimitOptions
options = record { enabled = true; max_requests = 0; window = 0; backend = memory }

abbrev limiter : RateLimiter IpAddr
limiter = record {
  enabled = true;
  max_requests = 1;
  window = 1_000_000_000;
  backend = memory;
  client_ip_resolver = proxies;
}

from_options-options : from_options library server options ("proxy" ∷ []) ≡ ok limiter
unfolding from_options from_trusted_proxies trusted_proxy
from_options-options = refl

from_options-IsConfigured_example : IsConfigured library server limiter
from_options-IsConfigured_example =
    from_options-IsConfigured library server options ("proxy" ∷ []) limiter from_options-options

check_with_limiter-status_example :
    let (clients, ledger) = serve 1 1_000_000_000 arrivals ([], []) in
    (check_with_limiter library server limiter through_proxy (seconds 5) clients).0.status ≡ (
      if ltb
        (admissions
          (rate_limit_key library server through_proxy (v4 2))
          1_000_000_000
          (seconds 5)
          ledger)
        1
      then 200
      else 429)
check_with_limiter-status_example =
    check_with_limiter-status library server limiter through_proxy (v4 2) (seconds 5) arrivals refl
      refl refl resolve-through_proxy (omega arith) (omega arith)
