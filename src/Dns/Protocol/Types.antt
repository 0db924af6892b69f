-- ===== src/Dns/Protocol/Types.antt =====
-- The data of src/dns/protocol.rs, and the functions that read one field of it.
use gis.Base.{ℕ, Bool, true, false, List, [], Option, none, some, ◌==◌, if◌then◌else◌}
use gis.Bytes.{Text}

pub data QueryType : Type 0 where
  unknown : ℕ → QueryType
  a ns cname soa mx txt aaaa srv opt : QueryType

unfoldable pub to_num : QueryType → ℕ
to_num (QueryType.unknown x) = x
to_num QueryType.a = 1
to_num QueryType.ns = 2
to_num QueryType.cname = 5
to_num QueryType.soa = 6
to_num QueryType.mx = 15
to_num QueryType.txt = 16
to_num QueryType.aaaa = 28
to_num QueryType.srv = 33
to_num QueryType.opt = 41

unfoldable pub from_num : ℕ → QueryType
from_num num =
    if num == 1
    then QueryType.a
    else if num == 2
    then QueryType.ns
    else if num == 5
    then QueryType.cname
    else if num == 6
    then QueryType.soa
    else if num == 15
    then QueryType.mx
    else if num == 16
    then QueryType.txt
    else if num == 28
    then QueryType.aaaa
    else if num == 33
    then QueryType.srv
    else if num == 41
    then QueryType.opt
    else QueryType.unknown num

-- The derived `==`.
abbrev pub same_type : QueryType → QueryType → Bool
same_type (QueryType.unknown x) (QueryType.unknown y) = x == y
same_type QueryType.a QueryType.a = true
same_type QueryType.ns QueryType.ns = true
same_type QueryType.cname QueryType.cname = true
same_type QueryType.soa QueryType.soa = true
same_type QueryType.mx QueryType.mx = true
same_type QueryType.txt QueryType.txt = true
same_type QueryType.aaaa QueryType.aaaa = true
same_type QueryType.srv QueryType.srv = true
same_type QueryType.opt QueryType.opt = true
same_type _ _ = false

-- Octets, and 16-bit segments.
pub record Ipv4Addr : Type 0 where
  pub o0 : ℕ
  pub o1 : ℕ
  pub o2 : ℕ
  pub o3 : ℕ

pub record Ipv6Addr : Type 0 where
  pub s0 : ℕ
  pub s1 : ℕ
  pub s2 : ℕ
  pub s3 : ℕ
  pub s4 : ℕ
  pub s5 : ℕ
  pub s6 : ℕ
  pub s7 : ℕ

-- The fields of each record stand in the order of the source; the last is the ttl, but in `opt`.
pub data DnsRecord : Type 0 where
  unknown : (domain : Text) (qtype data_len ttl : ℕ) → DnsRecord
  a : (domain : Text) (addr : Ipv4Addr) (ttl : ℕ) → DnsRecord
  ns : (domain host : Text) (ttl : ℕ) → DnsRecord
  cname : (domain host : Text) (ttl : ℕ) → DnsRecord
  soa : (domain m_name r_name : Text) (serial refresh retry expire minimum ttl : ℕ) → DnsRecord
  mx : (domain : Text) (priority : ℕ) (host : Text) (ttl : ℕ) → DnsRecord
  txt : (domain content : Text) (ttl : ℕ) → DnsRecord
  aaaa : (domain : Text) (addr : Ipv6Addr) (ttl : ℕ) → DnsRecord
  srv : (domain : Text) (priority weight port : ℕ) (host : Text) (ttl : ℕ) → DnsRecord
  opt : (packet_len flags : ℕ) (content : Text) → DnsRecord

unfoldable pub get_querytype : DnsRecord → QueryType
get_querytype (DnsRecord.unknown _ qtype _ _) = QueryType.unknown qtype
get_querytype (DnsRecord.a _ _ _) = QueryType.a
get_querytype (DnsRecord.ns _ _ _) = QueryType.ns
get_querytype (DnsRecord.cname _ _ _) = QueryType.cname
get_querytype (DnsRecord.soa _ _ _ _ _ _ _ _ _) = QueryType.soa
get_querytype (DnsRecord.mx _ _ _ _) = QueryType.mx
get_querytype (DnsRecord.txt _ _ _) = QueryType.txt
get_querytype (DnsRecord.aaaa _ _ _) = QueryType.aaaa
get_querytype (DnsRecord.srv _ _ _ _ _ _) = QueryType.srv
get_querytype (DnsRecord.opt _ _ _) = QueryType.opt

unfoldable pub get_domain : DnsRecord → Option Text
get_domain (DnsRecord.unknown domain _ _ _) = some domain
get_domain (DnsRecord.a domain _ _) = some domain
get_domain (DnsRecord.ns domain _ _) = some domain
get_domain (DnsRecord.cname domain _ _) = some domain
get_domain (DnsRecord.soa domain _ _ _ _ _ _ _ _) = some domain
get_domain (DnsRecord.mx domain _ _ _) = some domain
get_domain (DnsRecord.txt domain _ _) = some domain
get_domain (DnsRecord.aaaa domain _ _) = some domain
get_domain (DnsRecord.srv domain _ _ _ _ _) = some domain
get_domain (DnsRecord.opt _ _ _) = none

unfoldable pub get_ttl : DnsRecord → ℕ
get_ttl (DnsRecord.unknown _ _ _ ttl) = ttl
get_ttl (DnsRecord.a _ _ ttl) = ttl
get_ttl (DnsRecord.ns _ _ ttl) = ttl
get_ttl (DnsRecord.cname _ _ ttl) = ttl
get_ttl (DnsRecord.soa _ _ _ _ _ _ _ _ ttl) = ttl
get_ttl (DnsRecord.mx _ _ _ ttl) = ttl
get_ttl (DnsRecord.txt _ _ ttl) = ttl
get_ttl (DnsRecord.aaaa _ _ ttl) = ttl
get_ttl (DnsRecord.srv _ _ _ _ _ ttl) = ttl
get_ttl (DnsRecord.opt _ _ _) = 0

pub data ResultCode : Type 0 where
  no_error form_err serv_fail nx_domain not_imp refused : ResultCode

unfoldable pub rescode_num : ResultCode → ℕ
rescode_num ResultCode.no_error = 0
rescode_num ResultCode.form_err = 1
rescode_num ResultCode.serv_fail = 2
rescode_num ResultCode.nx_domain = 3
rescode_num ResultCode.not_imp = 4
rescode_num ResultCode.refused = 5

unfoldable pub rescode_from_num : ℕ → ResultCode
rescode_from_num num =
    if num == 1
    then ResultCode.form_err
    else if num == 2
    then ResultCode.serv_fail
    else if num == 3
    then ResultCode.nx_domain
    else if num == 4
    then ResultCode.not_imp
    else if num == 5
    then ResultCode.refused
    else ResultCode.no_error

pub record DnsHeader : Type 0 where
  pub id : ℕ
  pub recursion_desired : Bool
  pub truncated_message : Bool
  pub authoritative_answer : Bool
  pub opcode : ℕ
  pub response : Bool
  pub rescode : ResultCode
  pub checking_disabled : Bool
  pub authed_data : Bool
  pub z : Bool
  pub recursion_available : Bool
  pub questions : ℕ
  pub answers : ℕ
  pub authoritative_entries : ℕ
  pub resource_entries : ℕ

abbrev pub new_header : DnsHeader
new_header = record {
  id = 0;
  recursion_desired = false;
  truncated_message = false;
  authoritative_answer = false;
  opcode = 0;
  response = false;
  rescode = ResultCode.no_error;
  checking_disabled = false;
  authed_data = false;
  z = false;
  recursion_available = false;
  questions = 0;
  answers = 0;
  authoritative_entries = 0;
  resource_entries = 0;
}

pub record DnsQuestion : Type 0 where
  pub name : Text
  pub qtype : QueryType

pub record DnsPacket : Type 0 where
  pub header : DnsHeader
  pub questions : List DnsQuestion
  pub answers : List DnsRecord
  pub authorities : List DnsRecord
  pub resources : List DnsRecord

abbrev pub new_packet : DnsPacket
new_packet = record {
  header = new_header;
  questions = [];
  answers = [];
  authorities = [];
  resources = [];
}
