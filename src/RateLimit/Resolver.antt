-- ===== src/RateLimit/Resolver.antt =====
-- `ClientIpResolver` of crates/http_support/src/rate_limit.rs: which address a request counts for.
-- Parsing of addresses and networks is done by the standard library and by the crate ipnet: it is
-- the parameter `IpLibrary`.
pub mod Chain
use mathlib.Core.List.{reverse}
use hegira.Base.{
  ℕ, ◌+◌, ◌/◌, ◌%◌, ◌^◌, String, Bool, Option, none, some, List, [], ◌∷◌, ◌++◌, leb, ◌==◌,
  if◌then◌else◌, length, any, Result, ok, err, ◌>>=◌, ok_or,
}
use hegira.Base.Text.{trim, split}

-- An address as the number that its bits spell.
pub data IpAddr : Type 0 where
  v4 : ℕ → IpAddr
  v6 : ℕ → IpAddr

-- What the program takes from `std::net` and `ipnet`.
pub record IpLibrary (IpNet : Type 0) : Type 0 where
  pub display : IpAddr → String
  pub parse_address : String → Option IpAddr
  pub parse_network : String → Option IpNet
  pub prefix_len : IpNet → ℕ
  pub contains : IpNet → IpAddr → Bool

pub data ClientIpError : Type 0 where
  missing_peer_address invalid_forwarded_for : ClientIpError

-- The messages of `from_trusted_proxies`, with the entry that they quote.
pub data ProxyError : Type 0 where
  not_a_network trusts_every_address : String → ProxyError

-- What the resolver reads of a request: the TCP peer, and the values of the header
-- `x-forwarded-for`, each the text that `to_str` gives or nothing.
pub record Request : Type 0 where
  pub method : String
  pub path : String
  pub peer : Option IpAddr
  pub forwarded_for : List (Option String)

abbrev pub max_forwarded_hops : ℕ
max_forwarded_hops = 32

-- An IPv4-mapped IPv6 address is the IPv4 address.
unfoldable pub normalize_ip : IpAddr → IpAddr
normalize_ip (v4 address) = v4 address
normalize_ip (v6 address) = if address / 2 ^ 32 == 0xffff then v4 (address % 2 ^ 32) else v6 address

module _ {IpNet : Type 0} (library : IpLibrary IpNet) where
  open library use {parse_address, parse_network, prefix_len, contains}

  unfoldable pub trusted_proxy : String → Result ProxyError IpNet
  trusted_proxy network = do
    parsed ← ok_or (parse_network network) (not_a_network network)
    if prefix_len parsed == 0 then err (trusts_every_address network) else ok parsed

  -- `ClientIpResolver::from_trusted_proxies`; the resolver is the list of networks.
  unfoldable pub from_trusted_proxies : List String → Result ProxyError (List IpNet)
  from_trusted_proxies [] = ok []
  from_trusted_proxies (network ∷ networks) = do
    parsed ← trusted_proxy network
    rest ← from_trusted_proxies networks
    ok (parsed ∷ rest)

  -- `ClientIpResolver::is_trusted`
  unfoldable pub is_trusted : List IpNet → IpAddr → Bool
  is_trusted trusted_proxies address = any (λ network. contains network address) trusted_proxies

  -- The items of one header value, after the addresses already read.
  pub parse_items : List String → List IpAddr → Result ClientIpError (List IpAddr)
  parse_items [] addresses = ok addresses
  parse_items (item ∷ items) addresses =
      if leb max_forwarded_hops (length addresses) then err invalid_forwarded_for else do
        address ← ok_or (parse_address (trim item)) invalid_forwarded_for
        parse_items items (addresses ++ normalize_ip address ∷ [])

  parse_values : List (Option String) → List IpAddr → Result ClientIpError (List IpAddr)
  parse_values [] addresses = ok addresses
  parse_values (value ∷ values) addresses = do
    text ← ok_or value invalid_forwarded_for
    read ← parse_items (split b',' text) addresses
    parse_values values read

  -- `parse_x_forwarded_for`
  unfoldable pub parse_x_forwarded_for : Request → Result ClientIpError (List IpAddr)
  unfolding parse_items parse_values
  parse_x_forwarded_for req = parse_values req.forwarded_for []

  -- The loop over the candidates, nearest first, that stops at an address that is not trusted.
  unfoldable pub walk : List IpNet → IpAddr → List IpAddr → IpAddr
  walk trusted_proxies resolved [] = resolved
  walk trusted_proxies resolved (candidate ∷ candidates) =
      let next = walk trusted_proxies candidate candidates in
      if is_trusted trusted_proxies resolved then next else resolved

  -- `ClientIpResolver::resolve`
  unfoldable pub resolve : List IpNet → Request → Result ClientIpError IpAddr
  resolve trusted_proxies req = do
    socket ← ok_or req.peer missing_peer_address
    let peer = normalize_ip socket
    if is_trusted trusted_proxies peer
        then (do
          forwarded ← parse_x_forwarded_for req
          ok (walk trusted_proxies peer (reverse forwarded)))
        else ok peer
