-- ===== src/Dns/Filter.antt =====
-- src/blockchain/filter.rs: the answers of `BlockchainFilter` to the resolver.
mod Records
pub mod Answers
pub mod Replies
pub mod Apex
pub mod Keeps
use gis.Base.{
  ℕ, ◌%◌, ◌^◌, Bool, true, false, not, ◌&&◌, ◌||◌, List, [], ◌∷◌, ◌++◌, Option, none, some,
  if◌then◌else◌, i64_max,
}
use gis.Bytes.{Text, codes, same_hash, is_empty}
use gis.Commons.{rsplit_dot}
use gis.Dns.Protocol.Types.{
  DnsRecord, DnsPacket, QueryType, ResultCode, get_domain, get_querytype, new_packet, same_type,
}
use gis.Blockchain.Types.{DomainData}
use gis.Blockchain.Env.{Env}
use gis.Blockchain.Chain.State.{Chain}
use gis.Blockchain.Chain.Queries.{get_domain_transaction, is_zone_in_blockchain}

abbrev name_server : Text
name_server = codes "ns.guasha.su"

abbrev server_admin : Text
server_admin = codes "admin.guasha.su"

-- `rsplitn(3, ".")`: the zone of a name and, where the name has a dot, the domain to look for and
-- what stands before it.
unfoldable pub domain_parts : Text → Text × Option Text → Text × Text
domain_parts zone (name, none) = (name ++ (b'.' ∷ zone), [])
domain_parts zone (name, some subdomain) = (name ++ (b'.' ∷ zone), subdomain)

unfoldable pub zone_parts : Text × Option Text → Text × Option (Text × Text)
zone_parts (zone, none) = (zone, none)
zone_parts (zone, some front) = (zone, some (domain_parts zone (rsplit_dot front)))

-- `*domain = ...` on a record that has a domain.
unfoldable pub set_domain : Text → DnsRecord → DnsRecord
set_domain name (DnsRecord.unknown _ qtype data_len ttl) = DnsRecord.unknown name qtype data_len ttl
set_domain name (DnsRecord.a _ addr ttl) = DnsRecord.a name addr ttl
set_domain name (DnsRecord.ns _ host ttl) = DnsRecord.ns name host ttl
set_domain name (DnsRecord.cname _ host ttl) = DnsRecord.cname name host ttl
set_domain name (DnsRecord.soa _ m_name r_name serial refresh retry expire minimum ttl) =
    DnsRecord.soa name m_name r_name serial refresh retry expire minimum ttl
set_domain name (DnsRecord.mx _ priority host ttl) = DnsRecord.mx name priority host ttl
set_domain name (DnsRecord.txt _ content ttl) = DnsRecord.txt name content ttl
set_domain name (DnsRecord.aaaa _ addr ttl) = DnsRecord.aaaa name addr ttl
set_domain name (DnsRecord.srv _ priority weight port host ttl) =
    DnsRecord.srv name priority weight port host ttl
set_domain name (DnsRecord.opt packet_len flags content) = DnsRecord.opt packet_len flags content

-- The types that answer a query: a CNAME answers one for an address too.
unfoldable pub type_fits : QueryType → DnsRecord → Bool
type_fits qtype rec =
    let a_record = same_type qtype QueryType.a || same_type qtype QueryType.aaaa in
    same_type (get_querytype rec) qtype || a_record && same_type (get_querytype rec) QueryType.cname

abbrev is_name : Text → Option Text → Bool
is_name name none = false
is_name name (some domain) = same_hash domain name

abbrev has_domain : Text → DnsRecord → Bool
has_domain name rec = is_name name (get_domain rec)

-- A record named `@` takes the name of the query.
abbrev name_apex : Text → DnsRecord → DnsRecord
name_apex qname rec = if has_domain (codes "@") rec then set_domain qname rec else rec

-- The first loop: the records as it leaves them, and the answers.
unfoldable pub find_exact :
    QueryType → Text → Text → Text → List DnsRecord → List DnsRecord × List DnsRecord
find_exact qtype qname search_name subdomain [] = ([], [])
find_exact qtype qname search_name subdomain (rec ∷ recs) =
    let (rest, answers) = find_exact qtype qname search_name subdomain recs in
    let named = name_apex qname rec in
    if not (type_fits qtype rec)
    then (rec ∷ rest, answers)
    else if has_domain search_name named
    then (named ∷ rest, named ∷ answers)
    else if has_domain subdomain named
    then (set_domain qname named ∷ rest, set_domain qname named ∷ answers)
    else (named ∷ rest, answers)

-- The second loop, which looks for `*`.
unfoldable pub find_wildcard : QueryType → Text → Text → List DnsRecord → List DnsRecord
find_wildcard qtype qname search_name [] = []
find_wildcard qtype qname search_name (rec ∷ recs) =
    let answers = find_wildcard qtype qname search_name recs in
    if not (same_type (get_querytype rec) qtype)
    then answers
    else if has_domain search_name rec
    then rec ∷ answers
    else if has_domain (codes "*") rec
    then set_domain qname rec ∷ answers
    else answers

unfoldable pub find_answers : QueryType → Text → Text → Text → List DnsRecord → List DnsRecord
find_answers qtype qname search_name subdomain records =
    let (left, answers) = find_exact qtype qname search_name subdomain records in
    if is_empty answers then find_wildcard qtype qname search_name left else answers

abbrev pub add_soa_record : ℕ → Text → DnsPacket → DnsPacket
add_soa_record now zone packet = record packet {
  authorities =
      packet.authorities
      ++ (DnsRecord.soa zone name_server server_admin (now % 2 ^ 32) 3600 300 604800 60 60 ∷ []);
}

-- An authoritative packet with the question.
abbrev pub authoritative : QueryType → Text → ResultCode → DnsPacket
authoritative qtype qname rescode = record new_packet {
  header = record new_packet.header { authoritative_answer = true; rescode = rescode };
  questions = record { name = qname; qtype = qtype } ∷ [];
}

unfoldable pub reply_with : ℕ → QueryType → Text → Text → List DnsRecord → DnsPacket
reply_with now qtype qname zone [] =
    add_soa_record now zone (authoritative qtype qname ResultCode.no_error)
reply_with now qtype qname zone (rec ∷ recs) =
    record (authoritative qtype qname ResultCode.no_error) {
      answers = rec ∷ recs;
      authorities = DnsRecord.ns zone name_server 600 ∷ [];
    }

module _ (env : Env) where
  unfoldable pub get_domain_info : Text → Chain → Option Text
  get_domain_info domain c = elim (get_domain_transaction env domain c) [
    | none ↦ none
    | some transaction ↦ some transaction.content
  ]

  unfoldable pub get_zone_response : Text → Chain → Option DnsPacket × Chain
  get_zone_response zone c =
      let (have_zone, c') = is_zone_in_blockchain env i64_max zone c in
      if have_zone then (some (add_soa_record env.now zone new_packet), c') else (none, c')

  -- A domain with no data, or whose data has expired.
  unfoldable pub reply_without_data : QueryType → Text → Text → Chain → Option DnsPacket × Chain
  reply_without_data qtype qname zone c =
      let (have_zone, c') = is_zone_in_blockchain env i64_max zone c in
      if have_zone
      then (some (add_soa_record env.now zone (authoritative qtype qname ResultCode.nx_domain)), c')
      else (none, c')

  unfoldable pub reply_from_data :
      QueryType → Text → Text → Text → Text → Option DomainData → Option DnsPacket
  reply_from_data qtype qname zone search_name subdomain none = none
  reply_from_data qtype qname zone search_name subdomain (some domain_data) = some (
      reply_with env.now qtype qname zone
        (find_answers qtype qname search_name subdomain domain_data.records))

  unfoldable pub lookup_domain :
      QueryType → Text → Text → Text → Text → Chain → Option Text → Option DnsPacket × Chain
  lookup_domain qtype qname zone search_name subdomain c none =
      reply_without_data qtype qname zone c
  lookup_domain qtype qname zone search_name subdomain c (some text) =
      (reply_from_data qtype qname zone search_name subdomain (env.parse_domain text), c)

  unfoldable pub lookup_parts :
      Text → QueryType → Text × Option (Text × Text) → Chain → Option DnsPacket × Chain
  lookup_parts qname qtype (zone, none) c = get_zone_response zone c
  lookup_parts qname qtype (zone, some (search_name, subdomain)) c =
      lookup_domain qtype qname zone search_name subdomain c (get_domain_info search_name c)

  -- `BlockchainFilter::lookup`. The chain comes back, whose cache of zone names may have grown.
  unfoldable pub lookup : Text → QueryType → Chain → Option DnsPacket × Chain
  lookup qname qtype c = lookup_parts qname qtype (zone_parts (rsplit_dot qname)) c
