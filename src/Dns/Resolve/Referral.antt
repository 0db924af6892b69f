-- ===== src/Dns/Resolve/Referral.antt =====
-- The loop of the recursive resolver on a name server that refers to itself.
use gis.Base.{ℕ, zero, suc, ◌+◌, true, false, some, ◌≡◌, refl}
use gis.Bytes.{Text, is_empty}
use gis.Dns.Buffer.{stuck}
use gis.Dns.Protocol.Types.{DnsPacket, Ipv4Addr, QueryType, ResultCode}
use gis.Dns.Protocol.Packet.{get_resolved_ns}
use gis.Dns.Resolve.{Server, ServerContext, ResolverState, cache_store, next_random, send}
use gis.Dns.Resolve.Perform.{is_code, on_response, recurse, refer, store_all}

-- The name server at `ns` always answers with a response that holds no answer and no NXDOMAIN, and
-- that gives `ns` as the address of a name server of the queried name.
pub record RefersBack (ctx : ServerContext) (qname : Text) (qtype : QueryType) (ns : Ipv4Addr)
    (response : DnsPacket) : Type 0 where
  pub sent :
      (calls : ℕ) → ctx.send_query calls qname qtype (Server.name_server ns) false ≡ some response
  pub no_answer : is_empty response.answers ≡ true
  pub no_nx : is_code ctx ResultCode.nx_domain response ≡ false
  pub refers : (random : ℕ) → get_resolved_ns random qname response ≡ some ns

-- A name server that refers to itself holds the recursive resolver for ever: whatever the cache and
-- the number of rounds, the loop has not come to a result.
pub recurse_refers :
    (ctx : ServerContext) (qname : Text) (qtype : QueryType) (ns : Ipv4Addr) (response : DnsPacket)
    → RefersBack ctx qname qtype ns response
    → (fuel : ℕ) (s : ResolverState) → recurse ctx fuel (some ns) qname qtype s ≡ stuck
unfolding recurse send on_response next_random refer store_all cache_store
recurse_refers ctx qname qtype ns response h zero s = refl
recurse_refers ctx qname qtype ns response h (suc fuel) s =
    rw (h.sent s.calls, h.no_answer, h.no_nx, h.refers (ctx.random (s.calls + 1)))
      (recurse_refers ctx qname qtype ns response h fuel _)
