-- ===== src/Dns/Filter/Replies.antt =====
-- What `BlockchainFilter` answers.
use gis.Base.{
  if_case, ◌%◌, ◌^◌, List, [], ◌∷◌, ◌++◌, Option, none, some, All, i64_max, ◌≡◌, refl, sym, ap, ◌∙◌,
  subst, arith,
}
use mathlib.Core.List.{Mem, mem-cons_self, mem-cons_of_mem}
use gis.Bytes.{Text}
use gis.Commons.{rsplit_dot, get_domain_zone}
use gis.Commons.Domain.{rejoin, rejoin-rsplit_dot}
use gis.Dns.Protocol.Types.{DnsRecord, DnsPacket, QueryType, ResultCode, new_packet}
use gis.Blockchain.Types.{DomainData}
use gis.Blockchain.Env.{Env}
use gis.Blockchain.Chain.State.{Chain}
use gis.Blockchain.Chain.Queries.{is_zone_in_blockchain}
use gis.Dns.Filter.{
  add_soa_record, authoritative, domain_parts, find_answers, get_domain_info, get_zone_response,
  lookup, lookup_domain, lookup_parts, name_server, server_admin, reply_from_data, reply_with,
  reply_without_data, zone_parts,
}
use gis.Dns.Filter.Answers.{
  IsAnswer, IsPrefix, IsSuffix, domain_parts-IsPrefix, domain_parts-IsSuffix, find_answers-All,
}

-- The record is one of the data that the chain has for a domain that the name of the query ends in.
pub record IsStored (env : Env) (c : Chain) (qname : Text) (rec : DnsRecord) : Type 0 where
  pub domain : Text
  pub text : Text
  pub domain_data : DomainData
  pub suffix : IsSuffix domain qname
  pub stored : get_domain_info env domain c ≡ some text
  pub parsed : env.parse_domain text ≡ some domain_data
  pub member : Mem rec domain_data.records

pub record IsReply (env : Env) (c : Chain) (qtype : QueryType) (qname : Text) (p : DnsPacket)
    : Type 0 where
  pub answered : All (IsAnswer (IsStored env c qname) qtype qname) p.answers
  pub soa :
      p.answers ≡ []
      → p.authorities
        ≡ DnsRecord.soa
            (get_domain_zone qname)
            name_server
            server_admin
            (env.now % 2 ^ 32)
            3600
            300
            604800
            60
            60
          ∷ []
  pub no_domain : p.header.rescode ≡ ResultCode.nx_domain → p.answers ≡ []

get_domain_zone_lem : (qname : Text) → get_domain_zone qname ≡ (rsplit_dot qname).0
unfolding get_domain_zone
get_domain_zone_lem qname = refl

-- Every element is one of the list.
All-Mem : {A : Type 0} (P : A → Type 0) (xs : List A) → ((x : A) → Mem x xs → P x) → All P xs
All-Mem P [] h = tt
All-Mem P (x ∷ xs) h = (h x mem-cons_self, All-Mem P xs (λ y m. h y (mem-cons_of_mem x m)))

module _ (env : Env) (c0 : Chain) (qtype : QueryType) (qname : Text) where
  abbrev Held : DnsRecord → Type 0
  Held = IsStored env c0 qname

  FromReply : Option DnsPacket → Type 0
  FromReply none = Unit {0}
  FromReply (some p) = IsReply env c0 qtype qname p

  soa-IsReply :
      (zone : Text) (q : DnsPacket)
      → get_domain_zone qname ≡ zone
      → q.authorities ≡ []
      → q.answers ≡ []
      → IsReply env c0 qtype qname (add_soa_record env.now zone q)
  soa-IsReply zone q e a n = record {
    answered = subst (All (IsAnswer Held qtype qname)) (sym n) tt;
    soa = λ _. rw (e, a) refl;
    no_domain = λ _. n;
  }

  reply_with-IsReply :
      (zone : Text) (answers : List DnsRecord)
      → get_domain_zone qname ≡ zone
      → All (IsAnswer Held qtype qname) answers
      → IsReply env c0 qtype qname (reply_with env.now qtype qname zone answers)
  unfolding reply_with
  reply_with-IsReply zone [] e h =
      soa-IsReply zone (authoritative qtype qname ResultCode.no_error) e refl refl
  reply_with-IsReply zone (rec ∷ recs) e h = record {
    answered = h;
    soa = λ n. absurd (ground arith);
    no_domain = λ n. absurd (ground arith);
  }

  reply_from_data-FromReply :
      (zone search_name subdomain : Text) (d : Option DomainData)
      → get_domain_zone qname ≡ zone
      → IsSuffix search_name qname
      → IsPrefix subdomain qname
      → ((x : DomainData) → d ≡ some x → All Held x.records)
      → FromReply (reply_from_data env qtype qname zone search_name subdomain d)
  unfolding FromReply reply_from_data
  reply_from_data-FromReply zone search_name subdomain none e at_end at_front held = tt
  reply_from_data-FromReply zone search_name subdomain (some d) e at_end at_front held =
      reply_with-IsReply zone (find_answers qtype qname search_name subdomain d.records) e (
        find_answers-All Held qtype qname search_name subdomain at_end at_front d.records
          (held d refl))

  lookup_domain-FromReply :
      (zone search_name subdomain : Text) (d : Option Text)
      → get_domain_info env search_name c0 ≡ d
      → get_domain_zone qname ≡ zone
      → IsSuffix search_name qname
      → IsPrefix subdomain qname
      → FromReply (lookup_domain env qtype qname zone search_name subdomain c0 d).0
  unfolding FromReply lookup_domain reply_without_data
  lookup_domain-FromReply zone search_name subdomain none at e at_end at_front =
      if_case (λ (r : Option DnsPacket × Chain). FromReply r.0)
        (is_zone_in_blockchain env i64_max zone c0).0
        (λ h. soa-IsReply zone (authoritative qtype qname ResultCode.nx_domain) e refl refl)
        (λ h. tt)
  lookup_domain-FromReply zone search_name subdomain (some text) at e at_end at_front =
      reply_from_data-FromReply zone search_name subdomain (env.parse_domain text) e at_end at_front
        (λ x parsed. All-Mem Held x.records (λ rec m. record {
          domain = search_name;
          text = text;
          domain_data = x;
          suffix = at_end;
          stored = at;
          parsed = parsed;
          member = m;
        }))

  lookup_parts-FromReply :
      (p : Text × Option Text)
      → get_domain_zone qname ≡ p.0
      → rejoin p ≡ qname
      → FromReply (lookup_parts env qname qtype (zone_parts p) c0).0
  unfolding FromReply lookup_parts zone_parts get_zone_response
  lookup_parts-FromReply (zone, none) e j =
      if_case (λ (r : Option DnsPacket × Chain). FromReply r.0)
        (is_zone_in_blockchain env i64_max zone c0).0 (λ h. soa-IsReply zone new_packet e refl refl)
        (λ h. tt)
  lookup_parts-FromReply (zone, some before) e j =
      let parts = domain_parts zone (rsplit_dot before) in
      let whole = ap (λ f. f ++ (b'.' ∷ zone)) (rejoin-rsplit_dot before).0 ∙ j in
      let at_end =
        subst (IsSuffix parts.0) whole (domain_parts-IsSuffix zone (rsplit_dot before)) in
      let at_front =
        subst (IsPrefix parts.1) whole (domain_parts-IsPrefix zone (rsplit_dot before)) in
      lookup_domain-FromReply zone parts.0 parts.1 (get_domain_info env parts.0 c0) refl e at_end
        at_front

-- What the filter answers a query with: every answer has the type asked for, or is a CNAME where an
-- address was asked for, and is named by a text that the name of the query ends in; it is a record of
-- the data that the chain has for a domain that the name of the query ends in, or such a record put
-- under the name of the query, and the record's own name is `@`, `*`, or an end or a beginning of that
-- name. A packet with no answer carries the SOA record of the zone, stamped with the clock, and
-- NXDOMAIN goes with no answer.
pub lookup-IsReply :
    (env : Env) (qname : Text) (qtype : QueryType) (c : Chain) (p : DnsPacket)
    → (lookup env qname qtype c).0 ≡ some p
    → IsReply env c qtype qname p
unfolding lookup FromReply
lookup-IsReply env qname qtype c p h = subst (FromReply env c qtype qname) h (
    lookup_parts-FromReply env c qtype qname (rsplit_dot qname) (get_domain_zone_lem qname)
      (rejoin-rsplit_dot qname).0)
