-- ===== src/Dns/Resolve/Perform.antt =====
-- `perform` of src/dns/resolve.rs: the forwarding and the recursive resolver.
use gis.Base.{
  ℕ, zero, suc, ◌%◌, Bool, true, false, not, ◌&&◌, ◌==◌, List, [], ◌∷◌, Option, none, some,
  if◌then◌else◌, length, get_elem?,
}
use gis.Bytes.{Text, is_empty}
use gis.Dns.Buffer.{M, panic, stuck, pure, ◌>>=◌, ◌>>◌, split_dots, join_dots}
use gis.Dns.Protocol.Types.{DnsPacket, Ipv4Addr, QueryType, ResultCode, rescode_num}
use gis.Dns.Protocol.Packet.{get_random_a, get_resolved_ns, get_ttl_from_soa, get_unresolved_ns}
use gis.Dns.Resolve.{
  Resolved, ResolverState, Server, ServerContext, cache_lookup, cache_nxdomain, cache_store, client,
  failed, found, next_random, no_server_found, resolve, send,
}

module _ (ctx : ServerContext) where
  -- `choose` gives no upstream only where there is none.
  unfoldable pub ask_upstream :
      Text → QueryType → Option Text → Option DnsPacket → M ResolverState Resolved
  ask_upstream qname qtype none cached = λ s. panic
  ask_upstream qname qtype (some server) (some packet) = do
    cache_store ctx packet.answers
    pure (found packet)
  ask_upstream qname qtype (some server) none = do
    response ← send ctx qname qtype (Server.upstream server) true
    elim response [
      | none ↦ pure (failed client)
      | some packet ↦ do cache_store ctx packet.answers; pure (found packet)
    ]

  abbrev pub choose_upstream : ℕ → List Text → Option Text
  choose_upstream random upstreams =
      if is_empty upstreams then none else get_elem? upstreams (random % length upstreams)

  -- `ForwardingDnsResolver::perform`.
  unfoldable pub perform_forward : List Text → Text → QueryType → M ResolverState Resolved
  perform_forward upstreams qname qtype = do
    random ← next_random ctx
    cached ← cache_lookup ctx qname qtype
    ask_upstream qname qtype (choose_upstream random upstreams) cached

  -- The name server that the cache knows for a domain.
  unfoldable pub ns_addr : Option DnsPacket → M ResolverState (Option Ipv4Addr)
  ns_addr none = pure none
  ns_addr (some packet) = do random ← next_random ctx; pure (get_random_a random packet)

  unfoldable pub ns_host : Text → Option DnsPacket → M ResolverState (Option Text)
  ns_host domain none = pure none
  ns_host domain (some packet) = do
    random ← next_random ctx
    pure (get_unresolved_ns random domain packet)

  unfoldable pub host_packet : Option Text → M ResolverState (Option DnsPacket)
  host_packet none = pure none
  host_packet (some host) = cache_lookup ctx host QueryType.a

  unfoldable pub cached_ns : Text → M ResolverState (Option Ipv4Addr)
  cached_ns domain = do
    packet ← cache_lookup ctx domain QueryType.ns
    host ← ns_host domain packet
    addr ← host_packet host
    ns_addr addr

  -- From the whole name to the root.
  unfoldable pub closest_ns : List Text → M ResolverState (Option Ipv4Addr)
  closest_ns [] = cached_ns []
  closest_ns (label ∷ labels) = do
    addr ← cached_ns (join_dots (label ∷ labels))
    elim addr [ none ↦ closest_ns labels | some a ↦ pure (some a) ]

  unfoldable pub store_all : DnsPacket → M ResolverState (Unit {0})
  store_all response = do
    cache_store ctx response.answers
    cache_store ctx response.authorities
    cache_store ctx response.resources

  abbrev pub is_code : ResultCode → DnsPacket → Bool
  is_code rescode packet = rescode_num rescode == rescode_num packet.header.rescode

  -- The address of a name server that was resolved, or else the response that named it.
  unfoldable pub retry :
      (Ipv4Addr → M ResolverState Resolved) → DnsPacket → Resolved → M ResolverState Resolved
  retry resume response (failed e) = pure (failed e)
  retry resume response (found packet) = do
    random ← next_random ctx
    elim (get_random_a random packet) [ none ↦ pure (found response) | some ns ↦ resume ns ]

  unfoldable pub ask_host :
      (Ipv4Addr → M ResolverState Resolved)
      → (Text → M ResolverState Resolved)
      → DnsPacket
      → Option Text
      → M ResolverState Resolved
  ask_host resume resolve_ns response none = pure (found response)
  ask_host resume resolve_ns response (some host) = do
    resolved ← resolve_ns host
    retry resume response resolved

  unfoldable pub refer :
      (Ipv4Addr → M ResolverState Resolved)
      → (Text → M ResolverState Resolved)
      → Text
      → DnsPacket
      → Option Ipv4Addr
      → M ResolverState Resolved
  refer resume resolve_ns qname response (some ns) = do store_all response; resume ns
  refer resume resolve_ns qname response none = do
    random ← next_random ctx
    ask_host resume resolve_ns response (get_unresolved_ns random qname response)

  -- The rest of a round of the loop, with a response.
  unfoldable pub on_response :
      (Ipv4Addr → M ResolverState Resolved)
      → (Text → M ResolverState Resolved)
      → Text
      → QueryType
      → Option DnsPacket
      → M ResolverState Resolved
  on_response resume resolve_ns qname qtype none = pure (failed client)
  on_response resume resolve_ns qname qtype (some response) =
      if not (is_empty response.answers) && is_code ResultCode.no_error response
      then (do store_all response; pure (found response))
      else if is_code ResultCode.nx_domain response
      then (do
        cache_nxdomain ctx qname qtype (get_ttl_from_soa response.authorities)
        pure (found response))
      else (do
        random ← next_random ctx
        refer resume resolve_ns qname response (get_resolved_ns random qname response))

  -- `RecursiveDnsResolver::perform`, from its start with no address, or from a round of its loop with
  -- the address of a name server. The fuel counts rounds and starts.
  unfoldable pub recurse : ℕ → Option Ipv4Addr → Text → QueryType → M ResolverState Resolved
  recurse zero ns qname qtype = λ s. stuck
  recurse (suc fuel) none qname qtype = do
    ns ← closest_ns (split_dots qname)
    elim ns [
      | none ↦ pure (failed no_server_found)
      | some addr ↦ recurse fuel (some addr) qname qtype
    ]
  recurse (suc fuel) (some ns) qname qtype = do
    response ← send ctx qname qtype (Server.name_server ns) false
    on_response (λ addr. recurse fuel (some addr) qname qtype)
        (λ host. resolve ctx (recurse fuel none) host QueryType.a true) qname qtype response
