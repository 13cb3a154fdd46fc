-- ===== src/RateLimit/Resolver/Chain.antt =====
-- Which address `ClientIpResolver::resolve` settles on, and what a client cannot forge.
use mathlib.Core.List.{reverse, reverse-append}
use hegira.Base.{
  ◌≢◌, ◌≤◌, String, ◌≡◌, refl, true, false, Option, some, List, [], ◌∷◌, ◌++◌, ◌⊎◌, inl, inr, arith,
  ap, subst, ◌∙◌, bind-eq-ok, ok_or-eq-ok, ok-injective, leb, length, length-append, ok, ok_or,
  Bool-cases,
}
use hegira.Base.Text.{trim, split}
use hegira.RateLimit.Resolver.{
  trusted_proxy, from_trusted_proxies, IpAddr, IpLibrary, ClientIpError, Request, normalize_ip,
  is_trusted, parse_items, parse_values, parse_x_forwarded_for, walk, resolve,
}

module _ {IpNet : Type 0} (library : IpLibrary IpNet) (trusted_proxies : List IpNet) where
  abbrev AreTrusted : List IpAddr → Type 0
  AreTrusted [] = Unit
  AreTrusted (a ∷ chain) = (is_trusted library trusted_proxies a ≡ true) × AreTrusted chain

  -- `client` is the first address of a chain, read from the nearest hop, that is not a trusted
  -- proxy, or the farthest one if all are trusted.
  pub record IsClientOf (client : IpAddr) (chain : List IpAddr) : Type 0 where
    pub nearer : List IpAddr
    pub farther : List IpAddr
    pub splits : chain ≡ nearer ++ client ∷ farther
    pub behind_proxies : AreTrusted nearer
    pub outermost : (is_trusted library trusted_proxies client ≡ false) ⊎ (farther ≡ [])

  walk-IsClientOf :
      (peer : IpAddr) (chain : List IpAddr)
      → IsClientOf (walk library trusted_proxies peer chain) (peer ∷ chain)
  unfolding walk
  walk-IsClientOf peer [] = record {
    nearer = [];
    farther = [];
    splits = refl;
    behind_proxies = tt;
    outermost = inr refl;
  }
  walk-IsClientOf peer (c ∷ chain) =
      let inner = walk-IsClientOf c chain in
      elim (Bool-cases (is_trusted library trusted_proxies peer)) [
        | inl e ↦ rw e (record {
          nearer = peer ∷ inner.nearer;
          farther = inner.farther;
          splits = ap (λ l. peer ∷ l) inner.splits;
          behind_proxies = (e, inner.behind_proxies);
          outermost = inner.outermost;
        })
        | inr e ↦ rw e (record {
          nearer = [];
          farther = c ∷ chain;
          splits = refl;
          behind_proxies = tt;
          outermost = inl e;
        })
      ]

  -- What stands farther than an address that is not trusted changes nothing.
  walk-append :
      (peer : IpAddr) (chain forged : List IpAddr)
      → is_trusted library trusted_proxies (walk library trusted_proxies peer chain) ≡ false
      → walk library trusted_proxies peer (chain ++ forged)
        ≡ walk library trusted_proxies peer chain
  unfolding walk
  walk-append peer [] [] h = refl
  walk-append peer [] (f ∷ forged) h = rw h
  walk-append peer (c ∷ chain) forged h = ground (arith, walk-append c chain forged)

  -- A resolved address is the first one, from the TCP peer outwards through the forwarded hops, that
  -- is not a trusted proxy, or the farthest if all are; hops are only read behind a trusted peer.
  pub resolve-IsClientOf :
      (req : Request) (client : IpAddr)
      → resolve library trusted_proxies req ≡ ok client
      → (socket : IpAddr) × (forwarded : List IpAddr) × (req.peer ≡ some socket)
        × ((is_trusted library trusted_proxies (normalize_ip socket) ≡ false)
            ⊎ (parse_x_forwarded_for library req ≡ ok forwarded))
        × IsClientOf client (normalize_ip socket ∷ reverse forwarded)
  unfolding resolve walk
  resolve-IsClientOf req client h =
      let (socket, has_peer, settled) =
        bind-eq-ok (ok_or req.peer ClientIpError.missing_peer_address) _ h in
      let peer : IpAddr = normalize_ip socket in
      let found = ok_or-eq-ok req.peer ClientIpError.missing_peer_address has_peer in
      elim (Bool-cases (is_trusted library trusted_proxies peer)) [
        | inl e ↦
            let (forwarded, read, walked) =
              bind-eq-ok (parse_x_forwarded_for library req) _ (rw e at settled) in
            (
              socket,
              forwarded,
              found,
              inr read,
              subst (λ c. IsClientOf c (peer ∷ reverse forwarded)) (ok-injective walked)
                  (walk-IsClientOf peer (reverse forwarded)),
            )
        | inr e ↦ (
          socket,
          [],
          found,
          inl e,
          subst (λ c. IsClientOf c (peer ∷ [])) (ok-injective (rw e at settled))
              (walk-IsClientOf peer []),
        )
      ]

  -- A client cannot forge its address by header entries of its own: entries to the left of those
  -- that resolve to an address that is not a trusted proxy do not change the result.
  pub resolve-forged :
      (req forging : Request) (client : IpAddr) (forged genuine : List IpAddr)
      → forging.peer ≡ req.peer
      → parse_x_forwarded_for library req ≡ ok genuine
      → parse_x_forwarded_for library forging ≡ ok (forged ++ genuine)
      → resolve library trusted_proxies req ≡ ok client
      → is_trusted library trusted_proxies client ≡ false
      → resolve library trusted_proxies forging ≡ ok client
  unfolding resolve
  resolve-forged req forging client forged genuine same read read' h u =
      let (socket, has_peer, settled) =
        bind-eq-ok (ok_or req.peer ClientIpError.missing_peer_address) _ h in
      let peer : IpAddr = normalize_ip socket in
      let found = ok_or-eq-ok req.peer ClientIpError.missing_peer_address has_peer in
      simp (same, found)
        (elim (Bool-cases (is_trusted library trusted_proxies peer)) [
          | inl e ↦
              let settled' = rw (e, read) at settled in
              rw (e, read', reverse-append forged genuine)
                (ap ok (
                  walk-append peer (reverse genuine) (reverse forged) (rw (ok-injective settled') u)
                  ∙ ok-injective settled'))
          | inr e ↦ rw e (rw e at settled)
        ])

  parse_items-length :
      (items : List String) (addresses : List IpAddr) {read : List IpAddr}
      → length addresses ≤ 32
      → parse_items library items addresses ≡ ok read
      → length read ≤ 32
  unfolding parse_items
  parse_items-length [] addresses h e = ground arith
  parse_items-length (item ∷ items) addresses h e = elim (Bool-cases (leb 32 (length addresses))) [
    | inl full ↦ cc (rw full at e)
    | inr room ↦
        let (address, _, rest) =
          bind-eq-ok (ok_or (library.parse_address (trim item)) ClientIpError.invalid_forwarded_for)
            _ (rw room at e) in
        parse_items-length items (addresses ++ normalize_ip address ∷ [])
          (ground (arith, length-append addresses (normalize_ip address ∷ []))) rest
  ]

  parse_values-length :
      (values : List (Option String)) (addresses : List IpAddr) {read : List IpAddr}
      → length addresses ≤ 32
      → parse_values library values addresses ≡ ok read
      → length read ≤ 32
  unfolding parse_values
  parse_values-length [] addresses h e = ground arith
  parse_values-length (value ∷ values) addresses h e =
      let (text, _, read_items) =
        bind-eq-ok (ok_or value ClientIpError.invalid_forwarded_for) _ e in
      let (read, items, rest) =
        bind-eq-ok (parse_items library (split b',' text) addresses) _ read_items in
      parse_values-length values read (parse_items-length (split b',' text) addresses h items) rest

  -- However many entries and header lines a request has, at most 32 hops are read.
  pub length-parse_x_forwarded_for :
      (req : Request) (forwarded : List IpAddr)
      → parse_x_forwarded_for library req ≡ ok forwarded
      → length forwarded ≤ 32
  unfolding parse_x_forwarded_for
  length-parse_x_forwarded_for req forwarded e =
      parse_values-length req.forwarded_for [] (omega arith) e

module _ {IpNet : Type 0} (library : IpLibrary IpNet) where
  -- No network holds every address.
  abbrev pub AreNarrow : List IpNet → Type 0
  AreNarrow [] = Unit
  AreNarrow (network ∷ networks) = (library.prefix_len network ≢ 0) × AreNarrow networks

  trusted_proxy-IsNarrow :
      (text : String) (network : IpNet)
      → trusted_proxy library text ≡ ok network
      → library.prefix_len network ≢ 0
  unfolding trusted_proxy
  trusted_proxy-IsNarrow text network h = ground arith

  pub from_trusted_proxies-AreNarrow :
      (texts : List String) (networks : List IpNet)
      → from_trusted_proxies library texts ≡ ok networks
      → AreNarrow networks
  unfolding from_trusted_proxies
  from_trusted_proxies-AreNarrow [] networks h = ground arith
  from_trusted_proxies-AreNarrow (text ∷ texts) networks h =
      let (network, parsed, h') = bind-eq-ok (trusted_proxy library text) _ h in
      let (rest, more, h'') = bind-eq-ok (from_trusted_proxies library texts) _ h' in
      subst AreNarrow (ok-injective h'')
        (trusted_proxy-IsNarrow text network parsed, from_trusted_proxies-AreNarrow texts rest more)
