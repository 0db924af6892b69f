-- ===== src/Dns/Resolve.antt =====
-- src/dns/resolve.rs: what answers a query, in which order.
pub mod Perform
pub mod Cnames
pub mod Total
pub mod Closed
pub mod Referral
use gis.Base.{
  ℕ, zero, suc, ◌+◌, ◌%◌, Bool, true, false, not, ◌&&◌, ◌||◌, ◌==◌, List, [], ◌∷◌, ◌++◌, Option,
  none, some, if◌then◌else◌, length, get_elem?,
}
use gis.Bytes.{Text, is_empty}
use gis.Dns.Buffer.{M, Result, ok, panic, stuck, pure, ◌>>=◌, ◌>>◌, split_dots, join_dots}
use gis.Dns.Protocol.Types.{
  DnsHeader, DnsQuestion, DnsRecord, DnsPacket, Ipv4Addr, QueryType, ResultCode, new_header,
  new_packet, same_type, rescode_num,
}
use gis.Dns.Protocol.Packet.{
  get_random_a, get_resolved_ns, get_ttl_from_soa, get_unresolved_cnames, get_unresolved_ns,
}
use gis.Dns.Cache.Lookup.{Cache, lookup, store, store_nxdomain}
use gis.Dns.Authority.{Zone, query}
use gis.Dns.Hosts
use gis.Dns.Hosts.{HostMap}
use gis.Dns.Filter
use gis.Blockchain.Env.{Env}
use gis.Blockchain.Chain.State.{Chain}

pub data DnsFilter : Type 0 where
  hosts : HostMap → DnsFilter
  blockchain : DnsFilter

pub data ResolveStrategy : Type 0 where
  recursive : ResolveStrategy
  forward : List Text → ResolveStrategy

-- Where a query is sent: to a name, or to port 53 of an address.
pub data Server : Type 0 where
  upstream : Text → Server
  name_server : Ipv4Addr → Server

-- `random` and `send_query` have the number of the call; `send_query` gives `none` for an error.
-- `shared` and `now` are for the cache.
pub record ServerContext : Type 0 where
  pub zones : List Zone
  pub filters : List DnsFilter
  pub resolve_strategy : ResolveStrategy
  pub allow_recursive : Bool
  pub env : Env
  pub shared : Text → Bool
  pub now : ℕ
  pub random : ℕ → ℕ
  pub send_query : ℕ → Text → QueryType → Server → Bool → Option DnsPacket

-- What a query may change, and how many calls to the outside it has made.
pub record ResolverState : Type 0 where
  pub cache : Cache
  pub chain : Chain
  pub calls : ℕ

pub data ResolveError : Type 0 where
  client no_server_found : ResolveError

pub data Resolved : Type 0 where
  found : DnsPacket → Resolved
  failed : ResolveError → Resolved

abbrev rescode_packet : ResultCode → DnsPacket
rescode_packet rescode = record new_packet { header = record new_header { rescode = rescode } }

abbrev is_unknown : QueryType → Bool
is_unknown (QueryType.unknown _) = true
is_unknown _ = false

-- A packet, or else another attempt.
unfoldable pub or_try : Option DnsPacket → M ResolverState Resolved → M ResolverState Resolved
or_try (some packet) next = pure (found packet)
or_try none next = next

module _ (ctx : ServerContext) where
  unfoldable pub next_random : M ResolverState ℕ
  next_random s = ok (ctx.random s.calls, record s { calls = s.calls + 1 })

  unfoldable pub send : Text → QueryType → Server → Bool → M ResolverState (Option DnsPacket)
  send qname qtype server desired s =
      ok (ctx.send_query s.calls qname qtype server desired, record s { calls = s.calls + 1 })

  unfoldable pub cache_lookup : Text → QueryType → M ResolverState (Option DnsPacket)
  cache_lookup qname qtype s =
      let (packet, cache) = lookup ctx.shared ctx.now qname qtype s.cache in
      ok (packet, record s { cache = cache })

  unfoldable pub cache_store : List DnsRecord → M ResolverState (Unit {0})
  cache_store recs s = ok (tt, record s { cache = store ctx.shared ctx.now recs s.cache })

  -- An NXDOMAIN is kept as long as the SOA record says.
  unfoldable pub cache_nxdomain : Text → QueryType → Option ℕ → M ResolverState (Unit {0})
  cache_nxdomain qname qtype none s = ok (tt, s)
  cache_nxdomain qname qtype (some ttl) s =
      ok (tt, record s { cache = store_nxdomain ctx.shared ctx.now qname qtype ttl s.cache })

  unfoldable pub filter_lookup : Text → QueryType → DnsFilter → M ResolverState (Option DnsPacket)
  filter_lookup qname qtype (DnsFilter.hosts map) s = ok (Hosts.lookup qname qtype map, s)
  filter_lookup qname qtype DnsFilter.blockchain s =
      let (packet, chain) = Filter.lookup ctx.env qname qtype s.chain in
      ok (packet, record s { chain = chain })

  unfoldable pub run_filters :
      Text → QueryType → M ResolverState Resolved → List DnsFilter → M ResolverState Resolved
  run_filters qname qtype next [] = next
  run_filters qname qtype next (filter ∷ filters) = do
    packet ← filter_lookup qname qtype filter
    or_try packet (run_filters qname qtype next filters)

  -- An address query takes a CNAME from the cache too.
  unfoldable pub cname_lookup : Text → QueryType → M ResolverState (Option DnsPacket)
  cname_lookup qname qtype =
      if same_type qtype QueryType.a || same_type qtype QueryType.aaaa
      then cache_lookup qname QueryType.cname
      else pure none

  -- `DnsResolver::resolve`, over the `perform` of the resolver.
  unfoldable pub resolve :
      (Text → QueryType → M ResolverState Resolved)
      → Text
      → QueryType
      → Bool
      → M ResolverState Resolved
  resolve perform qname qtype desired =
      if is_unknown qtype
      then pure (found (rescode_packet ResultCode.not_imp))
      else or_try (query qname qtype ctx.zones) (
          if not desired || not ctx.allow_recursive
          then pure (found (rescode_packet ResultCode.refused))
          else (do
            cached ← cache_lookup qname qtype
            or_try cached (do
              cname ← cname_lookup qname qtype
              or_try cname (run_filters qname qtype (perform qname qtype) ctx.filters))))
