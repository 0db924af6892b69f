-- ===== src/Dns/Tests/Resolving.antt =====
-- The theorems on the filters, the authority and the resolver, at concrete queries.
use gis.Base.{ℕ, ◌%◌, true, false, List, [], ◌∷◌, ◌++◌, none, some, ◌≡◌, refl, arith}
use gis.Bytes.{Text, codes}
use gis.Commons.{rsplit_dot}
use gis.Dns.Buffer.{ok, stuck}
use gis.Dns.Protocol.Types.{
  DnsRecord, DnsPacket, DnsQuestion, Ipv4Addr, QueryType, ResultCode, get_domain, get_querytype,
  new_header, new_packet,
}
use gis.Dns.Protocol.Packet.{ends_with, get_resolved_ns}
use gis.Blockchain.Types.{DomainData}
use gis.Blockchain.Env.{Env}
use gis.Blockchain.Chain.State.{Chain}
use gis.Blockchain.Chain.Growth.{SameStore}
use gis.Blockchain.Tests
use gis.Dns.Filter.{domain_parts, lookup}
use gis.Dns.Filter.Replies.{IsReply, lookup-IsReply}
use gis.Dns.Filter.Apex.{Holds, lookup-apex}
use gis.Dns.Authority.{Zone, new_zone, query}
use gis.Dns.Authority.Longest.{IsRight, query-IsRight}
use gis.Dns.Resolve.{DnsFilter, ResolveStrategy, ServerContext, ResolverState}
use gis.Dns.Resolve.Perform.{recurse}
use gis.Dns.Resolve.Referral.{RefersBack, recurse_refers}
use gis.Dns.Server.{execute_query}
use gis.Dns.Server.Responses.{IsResponse, execute_query_closed, execute_query_returns}

abbrev addr : Ipv4Addr
addr = record { o0 = 10; o1 = 0; o2 = 0; o3 = 1 }

-- `ab.c` with an address of its own, and the owner's key.
abbrev domain : Text
domain = codes "ab.c"

abbrev pub subdomain : Text
subdomain = codes "www.ab.c"

abbrev apex : DnsRecord
apex = DnsRecord.a domain addr 60

abbrev domain_data : DomainData
domain_data = record {
  domain = domain;
  zone = codes "c";
  records = apex ∷ [];
  contacts = [];
  owners = [];
}

abbrev env : Env
env = record Tests.env { parse_domain = λ text. some domain_data }

abbrev chain : Chain
chain = record Tests.chain1 {
  db = record Tests.db1 {
    domains =
        record {
          id = 1;
          timestamp = 990;
          identity = domain;
          confirmation = domain ++ (7 ∷ []);
          content = [];
          pub_key = 7 ∷ [];
        }
        ∷ [];
  };
}

abbrev pub ctx : ServerContext
ctx = record {
  zones = [];
  filters = DnsFilter.hosts [] ∷ DnsFilter.blockchain ∷ [];
  resolve_strategy = ResolveStrategy.forward (codes "8.8.8.8:53" ∷ []);
  allow_recursive = true;
  env = env;
  shared = λ name. false;
  now = 5;
  random = λ call. call;
  send_query = λ call qname qtype server desired. none;
}

abbrev pub start : ResolverState
start = record { cache = []; chain = chain; calls = 0 }

abbrev pub request : DnsPacket
request = record new_packet {
  header = record new_header { id = 9; recursion_desired = true };
  questions = record { name = subdomain; qtype = QueryType.a } ∷ [];
}

execute_query_returns_example :
    (p : DnsPacket) × (s : ResolverState) × (execute_query ctx 0 request start ≡ ok (p, s))
    × IsResponse ctx request p
    × SameStore chain s.chain
execute_query_returns_example =
    execute_query_returns ctx (codes "8.8.8.8:53" ∷ []) refl (λ e. absurd (ground arith)) 0 request
      start

execute_query_closed_example :
    (p : DnsPacket) × (execute_query (record ctx { allow_recursive = false }) 0 request start
      ≡ ok (p, start))
    × IsResponse (record ctx { allow_recursive = false }) request p
execute_query_closed_example =
    execute_query_closed (record ctx { allow_recursive = false }) refl 0 request start

-- The line that lets a lookup run.
runs : ℕ
unfolding Tests.runs get_domain get_querytype rsplit_dot ends_with lookup domain_parts
    gis.Dns.Filter.zone_parts gis.Dns.Filter.set_domain gis.Dns.Filter.type_fits
    gis.Dns.Filter.find_exact gis.Dns.Filter.find_wildcard gis.Dns.Filter.find_answers
    gis.Dns.Filter.reply_with gis.Dns.Filter.get_domain_info gis.Dns.Filter.reply_without_data
    gis.Dns.Filter.reply_from_data gis.Dns.Filter.lookup_domain gis.Dns.Filter.lookup_parts
runs = 0

abbrev answered : DnsPacket
answered = record new_packet {
  header = record new_header { authoritative_answer = true };
  questions = record { name = subdomain; qtype = QueryType.a } ∷ [];
  answers = apex ∷ [];
  authorities = DnsRecord.ns (codes "c") (codes "ns.guasha.su") 600 ∷ [];
}

lookup-IsReply_example : IsReply env chain QueryType.a subdomain answered
unfolding runs
lookup-IsReply_example = lookup-IsReply env subdomain QueryType.a chain answered refl

lookup-apex_example :
    (p : DnsPacket) × (lookup env subdomain QueryType.a chain ≡ (some p, chain))
    × Holds apex p.answers
unfolding runs
lookup-apex_example =
    lookup-apex env subdomain QueryType.a chain (codes "c") (codes "www.ab") [] domain_data apex 0
      refl refl refl refl refl refl

-- The zone of `b.c` answers for `ab.c`: the test of the end of a name knows no labels.
abbrev zones : List Zone
zones =
    record (new_zone (codes "b.c") [] []) {
      records = DnsRecord.cname domain (codes "d") 60 ∷ DnsRecord.a (codes "b.c") addr 60 ∷ [];
    }
    ∷ new_zone (codes "c") [] []
    ∷ []

query-IsRight_example : IsRight domain QueryType.a zones (query domain QueryType.a zones)
query-IsRight_example = query-IsRight domain QueryType.a zones

abbrev lines : List Text
lines = codes "10.0.0.1 home www" ∷ codes "10.0.0.2 home" ∷ []

-- A response that names a server of `c` and the address of that server.
abbrev referral : DnsPacket
referral = record new_packet {
  authorities = DnsRecord.ns (codes "c") (codes "ns.c") 60 ∷ [];
  resources = DnsRecord.a (codes "ns.c") addr 60 ∷ [];
}

abbrev referring : ServerContext
referring = record ctx {
  resolve_strategy = ResolveStrategy.recursive;
  send_query = λ call qname qtype server desired. some referral;
}

referral-RefersBack : RefersBack referring domain QueryType.a addr referral
unfolding runs get_resolved_ns gis.Dns.Protocol.Packet.ns_hosts gis.Dns.Protocol.Packet.glue
    gis.Dns.Protocol.Types.rescode_num
referral-RefersBack = record {
  sent = λ calls. refl;
  no_answer = refl;
  no_nx = refl;
  refers = λ random. rw (one random) refl;
}
  where
    one : (n : ℕ) → n % 1 ≡ 0
    one n = omega arith

recurse_refers_example : recurse referring 50 (some addr) domain QueryType.a start ≡ stuck
recurse_refers_example =
    recurse_refers referring domain QueryType.a addr referral referral-RefersBack 50 start
