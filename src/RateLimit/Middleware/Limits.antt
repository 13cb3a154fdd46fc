-- ===== src/RateLimit/Middleware/Limits.antt =====
-- What a configured limiter guarantees, and how it answers a request.
use hegira.Base.{
  ℕ, ◌≤◌, String, true, List, [], ◌≡◌, arith, str_eq, ltb, if◌then◌else◌, ok, map_err,
  map_err-eq-ok, bind-eq-ok, ok-injective, subst,
}
use hegira.RateLimit.Memory.Ledger.{Arrival, admissions, serve, IsOrdered, last_instant}
use hegira.RateLimit.Memory.Quota.{check-serve}
use hegira.RateLimit.Resolver.{IpAddr, IpLibrary, Request, from_trusted_proxies, resolve}
use hegira.RateLimit.Resolver.Chain.{from_trusted_proxies-AreNarrow, AreNarrow}
use hegira.RateLimit.Middleware.{
  memory, RateLimitOptions, RateLimiter, Server, OptionsError, write_rate_limit_headers,
  build_backend, from_options, rate_limit_key, check_with_limiter,
}

module _ {IpNet : Type 0} (library : IpLibrary IpNet) (server : Server) where
  -- A limiter that the program can be started with.
  pub record IsConfigured (limiter : RateLimiter IpNet) : Type 0 where
    pub admits_some : 1 ≤ limiter.max_requests
    pub has_window : 1_000_000_000 ≤ limiter.window
    pub narrow : AreNarrow library limiter.client_ip_resolver

  -- A limiter that was built from options admits at least one request, over a window of at least a
  -- second, and trusts no network that holds every address.
  pub from_options-IsConfigured :
      (options : RateLimitOptions) (trusted_proxies : List String) (limiter : RateLimiter IpNet)
      → from_options library server options trusted_proxies ≡ ok limiter
      → IsConfigured limiter
  unfolding from_options
  from_options-IsConfigured options trusted_proxies limiter h =
      let (networks, parsed, h') =
        bind-eq-ok (map_err OptionsError.proxy (from_trusted_proxies library trusted_proxies)) _
          h in
      let (backend, _, built) =
        bind-eq-ok (build_backend library server options options.backend) _ h' in
      subst IsConfigured (ok-injective built) (record {
        admits_some = omega arith;
        has_window = omega arith;
        narrow = from_trusted_proxies-AreNarrow library trusted_proxies networks (
            map_err-eq-ok OptionsError.proxy (from_trusted_proxies library trusted_proxies) parsed);
      })

  -- A POST from a client that resolves, to a limiter with the memory backend, after any run of
  -- checks: the handlers answer exactly if fewer than the maximum of the client's requests for this
  -- path were admitted in the window, and the answer has status 429 otherwise.
  pub check_with_limiter-status :
      (limiter : RateLimiter IpNet) (req : Request) (client_ip : IpAddr) (now : ℕ)
      (arrivals : List Arrival)
      → limiter.enabled ≡ true
      → limiter.backend ≡ memory
      → str_eq req.method "POST" ≡ true
      → resolve library limiter.client_ip_resolver req ≡ ok client_ip
      → IsOrdered 0 arrivals
      → last_instant 0 arrivals ≤ now
      → let (clients, ledger) = serve limiter.max_requests limiter.window arrivals ([], []) in
        let used =
          admissions (rate_limit_key library server req client_ip) limiter.window now ledger in
        (check_with_limiter library server limiter req now clients).0.status
        ≡ (if ltb used limiter.max_requests then (server.next req).status else 429)
  unfolding check_with_limiter write_rate_limit_headers
  check_with_limiter-status limiter req client_ip now arrivals on mem post found ordered later =
      let key = rate_limit_key library server req client_ip in
      ground (
        arith,
        on,
        mem,
        post,
        found,
        check-serve limiter.window limiter.max_requests arrivals key now ordered later,
      )
