-- ===== src/Dns/Resolve/Cnames.antt =====
-- `resolve_cnames` of src/dns/server.rs, over the resolver of the context.
use gis.Base.{ℕ, zero, suc, Bool, true, List, [], ◌∷◌, ◌++◌, Option, none, some}
use gis.Bytes.{Text}
use gis.Dns.Buffer.{M, pure, ◌>>=◌}
use gis.Dns.Protocol.Types.{DnsRecord, DnsPacket, QueryType}
use gis.Dns.Protocol.Packet.{get_unresolved_cnames}
use gis.Dns.Resolve.{
  Resolved, ResolveStrategy, ResolverState, ServerContext, failed, found, resolve,
}
use gis.Dns.Resolve.Perform.{perform_forward, recurse}

module _ (ctx : ServerContext) where
  abbrev pub perform : ℕ → ResolveStrategy → Text → QueryType → M ResolverState Resolved
  perform fuel ResolveStrategy.recursive = recurse ctx fuel none
  perform fuel (ResolveStrategy.forward upstreams) = perform_forward ctx upstreams

  -- `resolve` of the resolver of the context.
  unfoldable pub resolve_with : ℕ → Text → QueryType → Bool → M ResolverState Resolved
  resolve_with fuel = resolve ctx (perform fuel ctx.resolve_strategy)

  abbrev pub cname_host : DnsRecord → Option Text
  cname_host (DnsRecord.cname _ host _) = some host
  cname_host (DnsRecord.srv _ _ _ _ host _) = some host
  cname_host _ = none

  -- A result with those that its CNAMEs lead to.
  unfoldable pub chase :
      (List DnsRecord → M ResolverState (List DnsPacket))
      → Resolved
      → M ResolverState (List DnsPacket)
  chase deeper (failed e) = pure []
  chase deeper (found packet) = do
    more ← deeper (get_unresolved_cnames packet)
    pure (packet ∷ more)

  unfoldable pub follow_host :
      ℕ
      → (List DnsRecord → M ResolverState (List DnsPacket))
      → Option Text
      → M ResolverState (List DnsPacket)
  follow_host fuel deeper none = pure []
  follow_host fuel deeper (some host) = do
    first ← resolve_with fuel host QueryType.a true
    v4 ← chase deeper first
    second ← resolve_with fuel host QueryType.aaaa true
    v6 ← chase deeper second
    pure (v4 ++ v6)

  unfoldable pub follow_all :
      ℕ
      → (List DnsRecord → M ResolverState (List DnsPacket))
      → List DnsRecord
      → M ResolverState (List DnsPacket)
  follow_all fuel deeper [] = pure []
  follow_all fuel deeper (rec ∷ recs) = do
    here ← follow_host fuel deeper (cname_host rec)
    rest ← follow_all fuel deeper recs
    pure (here ++ rest)

  -- `resolve_cnames`, for the depths that are left: at depth 11 it returns at once.
  unfoldable pub resolve_cnames : ℕ → ℕ → List DnsRecord → M ResolverState (List DnsPacket)
  resolve_cnames fuel zero recs = pure []
  resolve_cnames fuel (suc left) recs = follow_all fuel (resolve_cnames fuel left) recs
