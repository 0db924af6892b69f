-- ===== src/Dns/Authority.antt =====
-- src/dns/authority.rs: zones that the server answers for itself. Maps and sets are lists in the
-- order of their keys. Files are written and listed by the system; a poisoned lock is not modelled.
pub mod Answers
pub mod Longest
use Prim.Native.Nat.{compare, Ordering}
use gis.Base.{
  ℕ, zero, suc, Bool, true, false, not, ◌&&◌, ◌||◌, List, [], ◌∷◌, Option, none, some, ltb,
  if◌then◌else◌, length,
}
use gis.Bytes.{Text, is_empty, same_hash}
use gis.Dns.Buffer.{PacketBuffer, M, pure, ◌>>=◌, read_qname, read_u32}
use gis.Dns.Protocol.Types.{
  DnsRecord, DnsPacket, Ipv4Addr, Ipv6Addr, QueryType, ResultCode, get_domain, get_querytype,
  new_packet, same_type,
}
use gis.Dns.Protocol.Record
use gis.Dns.Protocol.Packet.{ends_with}

-- The order of texts and of tuples of them.
unfoldable pub cmp_text : Text → Text → Ordering
cmp_text [] [] = Ordering.eq
cmp_text [] (y ∷ ys) = Ordering.lt
cmp_text (x ∷ xs) [] = Ordering.gt
cmp_text (x ∷ xs) (y ∷ ys) = elim (compare x y) [
  | Ordering.eq ↦ cmp_text xs ys
  | Ordering.lt ↦ Ordering.lt
  | Ordering.gt ↦ Ordering.gt
]

unfoldable pub cmp_fields : List Text → List Text → Ordering
cmp_fields [] [] = Ordering.eq
cmp_fields [] (y ∷ ys) = Ordering.lt
cmp_fields (x ∷ xs) [] = Ordering.gt
cmp_fields (x ∷ xs) (y ∷ ys) = elim (cmp_text x y) [
  | Ordering.eq ↦ cmp_fields xs ys
  | Ordering.lt ↦ Ordering.lt
  | Ordering.gt ↦ Ordering.gt
]

abbrev num : ℕ → Text
num n = n ∷ []

abbrev octets : Ipv4Addr → Text
octets x = x.o0 ∷ x.o1 ∷ x.o2 ∷ x.o3 ∷ []

abbrev segments : Ipv6Addr → Text
segments x = x.s0 ∷ x.s1 ∷ x.s2 ∷ x.s3 ∷ x.s4 ∷ x.s5 ∷ x.s6 ∷ x.s7 ∷ []

-- What the derived `Ord` of a record compares: the variant, then the fields. The derived `Ord` of a
-- `TransientTtl` compares the number.
unfoldable pub fields : DnsRecord → List Text
fields (DnsRecord.unknown domain qtype data_len ttl) =
    num 0 ∷ domain ∷ num qtype ∷ num data_len ∷ num ttl ∷ []
fields (DnsRecord.a domain addr ttl) = num 1 ∷ domain ∷ octets addr ∷ num ttl ∷ []
fields (DnsRecord.ns domain host ttl) = num 2 ∷ domain ∷ host ∷ num ttl ∷ []
fields (DnsRecord.cname domain host ttl) = num 3 ∷ domain ∷ host ∷ num ttl ∷ []
fields (DnsRecord.soa domain m_name r_name serial refresh retry expire minimum ttl) =
    num 4
    ∷ domain
    ∷ m_name
    ∷ r_name
    ∷ num serial
    ∷ num refresh
    ∷ num retry
    ∷ num expire
    ∷ num minimum
    ∷ num ttl
    ∷ []
fields (DnsRecord.mx domain priority host ttl) = num 5 ∷ domain ∷ num priority ∷ host ∷ num ttl ∷ []
fields (DnsRecord.txt domain content ttl) = num 6 ∷ domain ∷ content ∷ num ttl ∷ []
fields (DnsRecord.aaaa domain addr ttl) = num 7 ∷ domain ∷ segments addr ∷ num ttl ∷ []
fields (DnsRecord.srv domain priority weight port host ttl) =
    num 8 ∷ domain ∷ num priority ∷ num weight ∷ num port ∷ host ∷ num ttl ∷ []
fields (DnsRecord.opt packet_len flags content) = num 9 ∷ num packet_len ∷ num flags ∷ content ∷ []

unfoldable pub cmp_records : DnsRecord → DnsRecord → Ordering
cmp_records x y = cmp_fields (fields x) (fields y)

-- `BTreeSet::insert` and `remove`, with their results.
unfoldable pub insert_record : DnsRecord → List DnsRecord → List DnsRecord × Bool
insert_record rec [] = (rec ∷ [], true)
insert_record rec (r ∷ rs) =
    let (rest, inserted) = insert_record rec rs in
    elim (cmp_records rec r) [
      | Ordering.lt ↦ (rec ∷ r ∷ rs, true)
      | Ordering.eq ↦ (r ∷ rs, false)
      | Ordering.gt ↦ (r ∷ rest, inserted)
    ]

unfoldable pub remove_record : DnsRecord → List DnsRecord → List DnsRecord × Bool
remove_record rec [] = ([], false)
remove_record rec (r ∷ rs) =
    let (rest, removed) = remove_record rec rs in
    elim (cmp_records rec r) [
      | Ordering.lt ↦ (r ∷ rs, false)
      | Ordering.eq ↦ (rs, true)
      | Ordering.gt ↦ (r ∷ rest, removed)
    ]

pub record Zone : Type 0 where
  pub domain : Text
  pub m_name : Text
  pub r_name : Text
  pub serial : ℕ
  pub refresh : ℕ
  pub retry : ℕ
  pub expire : ℕ
  pub minimum : ℕ
  pub records : List DnsRecord

abbrev pub new_zone : Text → Text → Text → Zone
new_zone domain m_name r_name = record {
  domain = domain;
  m_name = m_name;
  r_name = r_name;
  serial = 0;
  refresh = 0;
  retry = 0;
  expire = 0;
  minimum = 0;
  records = [];
}

unfoldable pub add_record : DnsRecord → Zone → Zone × Bool
add_record rec zone =
    let (records, inserted) = insert_record rec zone.records in
    (record zone { records = records }, inserted)

unfoldable pub delete_record : DnsRecord → Zone → Zone × Bool
delete_record rec zone =
    let (records, removed) = remove_record rec zone.records in
    (record zone { records = records }, removed)

-- `Zones`: the zones in the order of their domains.
unfoldable pub add_zone : Zone → List Zone → List Zone
add_zone zone [] = zone ∷ []
add_zone zone (z ∷ zs) =
    let rest = add_zone zone zs in
    elim (cmp_text zone.domain z.domain) [
      | Ordering.lt ↦ zone ∷ z ∷ zs
      | Ordering.eq ↦ zone ∷ zs
      | Ordering.gt ↦ z ∷ rest
    ]

unfoldable pub get_zone : Text → List Zone → Option Zone
get_zone domain [] = none
get_zone domain (z ∷ zs) = if same_hash domain z.domain then some z else get_zone domain zs

-- One file of `load`.
module _ {B : Type 0} ⦃p : PacketBuffer B⦄ where
  unfoldable pub load_records : ℕ → ℕ → Zone → M B Zone
  load_records fuel zero zone = pure zone
  load_records fuel (suc count) zone = do
    rr ← Record.read fuel
    load_records fuel count (add_record rr zone).0

  unfoldable pub load_zone : ℕ → M B Zone
  load_zone fuel = do
    domain ← read_qname fuel []
    m_name ← read_qname fuel []
    r_name ← read_qname fuel []
    serial ← read_u32
    refresh ← read_u32
    retry ← read_u32
    expire ← read_u32
    minimum ← read_u32
    record_count ← read_u32
    load_records fuel record_count (record (new_zone domain m_name r_name) {
      serial = serial;
      refresh = refresh;
      retry = retry;
      expire = expire;
      minimum = minimum;
    })

-- The first of the longest domains that the name ends in.
abbrev longer_zone : Option Zone → Zone → Option Zone
longer_zone none zone = some zone
longer_zone (some best) zone =
    if ltb (length best.domain) (length zone.domain) then some zone else some best

unfoldable pub best_match : Text → Option Zone → List Zone → Option Zone
best_match qname best [] = best
best_match qname best (z ∷ zs) =
    best_match qname (if not (ends_with qname z.domain) then best else longer_zone best z) zs

unfoldable pub rtype_fits : QueryType → QueryType → Bool
rtype_fits qtype rtype =
    same_type qtype rtype || same_type qtype QueryType.a && same_type rtype QueryType.cname

abbrev is_at : Text → Option Text → Bool
is_at qname none = false
is_at qname (some domain) = same_hash domain qname

unfoldable pub zone_answers : QueryType → Text → List DnsRecord → List DnsRecord
zone_answers qtype qname [] = []
zone_answers qtype qname (rec ∷ recs) =
    let answers = zone_answers qtype qname recs in
    if not (is_at qname (get_domain rec))
    then answers
    else if rtype_fits qtype (get_querytype rec)
    then rec ∷ answers
    else answers

unfoldable pub zone_packet : Zone → List DnsRecord → DnsPacket
zone_packet zone [] = record new_packet {
  header = record new_packet.header { authoritative_answer = true; rescode = ResultCode.nx_domain };
  authorities =
      DnsRecord.soa zone.domain zone.m_name zone.r_name zone.serial zone.refresh zone.retry
        zone.expire zone.minimum zone.minimum
      ∷ [];
}
zone_packet zone (rec ∷ recs) = record new_packet {
  header = record new_packet.header { authoritative_answer = true };
  answers = rec ∷ recs;
}

abbrev reply_of : QueryType → Text → Option Zone → Option DnsPacket
reply_of qtype qname none = none
reply_of qtype qname (some zone) = some (zone_packet zone (zone_answers qtype qname zone.records))

unfoldable pub query : Text → QueryType → List Zone → Option DnsPacket
query qname qtype zones = reply_of qtype qname (best_match qname none zones)
