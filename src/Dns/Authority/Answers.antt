-- ===== src/Dns/Authority/Answers.antt =====
-- The records of a zone that answer a query, and the packet that carries them.
use gis.Base.{
  if_case, true, not, List, [], ◌∷◌, Option, none, some, ◌≡◌, ◌≢◌, ◌⊎◌, ◌↔◌, inl, inr, Bool-cases,
  refl, sym, ap, arith,
}
use gis.Bytes.{Text}
use gis.Bytes.Equality.{same_hash_sound, same_hash_refl}
use gis.Dns.Protocol.Types.{
  DnsPacket, DnsRecord, QueryType, ResultCode, get_domain, get_querytype, same_type,
}
use gis.Dns.Protocol.Codes.{same_type_sound, same_type_refl}
use gis.Dns.Authority.{Zone, is_at, rtype_fits, zone_answers, zone_packet}

-- The second list has the elements of the first that are so, all of them and in the same order.
pub data Selects {A : Type 0} (P : A → Type 0) : List A → List A → Type 0 where
  nothing : Selects P [] []
  taken : {x : A} {xs ys : List A} → P x → Selects P xs ys → Selects P (x ∷ xs) (x ∷ ys)
  left_out : {x : A} {xs ys : List A} → ¬ (P x) → Selects P xs ys → Selects P (x ∷ xs) ys

-- A record of this name and type, or a CNAME where an address is asked for.
abbrev pub IsZoneAnswer : Text → QueryType → DnsRecord → Type 0
IsZoneAnswer qname qtype rec =
    (get_domain rec ≡ some qname)
    × ((get_querytype rec ≡ qtype)
        ⊎ ((qtype ≡ QueryType.a) × (get_querytype rec ≡ QueryType.cname)))

is_at_iff : (qname : Text) (d : Option Text) → (is_at qname d ≡ true) ↔ (d ≡ some qname)
is_at_iff qname none = ((λ h. absurd (ground arith)), (λ h. absurd (ground arith)))
is_at_iff qname (some domain) =
    ((λ h. ap some (same_hash_sound domain qname h)), (λ h. ground (arith, same_hash_refl qname)))

rtype_fits_iff :
    (qtype rtype : QueryType)
    → (rtype_fits qtype rtype ≡ true)
      ↔ ((rtype ≡ qtype) ⊎ ((qtype ≡ QueryType.a) × (rtype ≡ QueryType.cname)))
unfolding rtype_fits
rtype_fits_iff qtype rtype = (
  (λ h. elim (Bool-cases (same_type qtype rtype)) [
    | inl y ↦ inl (sym (same_type_sound qtype rtype y))
    | inr n ↦ inr (
      same_type_sound qtype QueryType.a (ground arith),
      same_type_sound rtype QueryType.cname (ground arith),
    )
  ]),
  (λ h. elim h [
    | inl e ↦ rw e (ground (arith, same_type_refl qtype))
    | inr (a, c) ↦ rw (a, c) refl
  ]),
)

zone_answers-Selects :
    (qname : Text) (qtype : QueryType) (recs : List DnsRecord)
    → Selects (IsZoneAnswer qname qtype) recs (zone_answers qtype qname recs)
unfolding zone_answers
zone_answers-Selects qname qtype [] = nothing
zone_answers-Selects qname qtype (rec ∷ recs) =
    let ih = zone_answers-Selects qname qtype recs in
    let P = Selects (IsZoneAnswer qname qtype) (rec ∷ recs) in
    let (named, at) = is_at_iff qname (get_domain rec) in
    let (typed, fit) = rtype_fits_iff qtype (get_querytype rec) in
    if_case P (not (is_at qname (get_domain rec)))
      (λ n. left_out (λ a. absurd (ground (arith, at a.0))) ih)
      (λ n.
        if_case P (rtype_fits qtype (get_querytype rec))
          (λ f. taken (named (ground arith), typed f) ih)
          (λ f. left_out (λ a. absurd (ground (arith, fit a.1))) ih))

-- What a packet says of a zone: the records that answer, and without any NXDOMAIN and the SOA record
-- of the zone.
pub record IsZoneReply (qname : Text) (qtype : QueryType) (zone : Zone) (p : DnsPacket)
    : Type 0 where
  pub answers : Selects (IsZoneAnswer qname qtype) zone.records p.answers
  pub authority : p.header.authoritative_answer ≡ true
  pub found : p.answers ≢ [] → (p.header.rescode ≡ ResultCode.no_error) × (p.authorities ≡ [])
  pub no_domain :
      p.answers ≡ []
      → (p.header.rescode ≡ ResultCode.nx_domain)
        × (p.authorities
            ≡ DnsRecord.soa zone.domain zone.m_name zone.r_name zone.serial zone.refresh zone.retry
                zone.expire zone.minimum zone.minimum
              ∷ [])
  pub no_more : (p.questions ≡ []) × (p.resources ≡ [])

zone_packet-IsZoneReply :
    (qname : Text) (qtype : QueryType) (zone : Zone) (recs : List DnsRecord)
    → Selects (IsZoneAnswer qname qtype) zone.records recs
    → IsZoneReply qname qtype zone (zone_packet zone recs)
unfolding zone_packet
zone_packet-IsZoneReply qname qtype zone [] h = record {
  answers = h;
  authority = refl;
  found = λ n. absurd (n refl);
  no_domain = λ _. (refl, refl);
  no_more = (refl, refl);
}
zone_packet-IsZoneReply qname qtype zone (rec ∷ recs) h = record {
  answers = h;
  authority = refl;
  found = λ _. (refl, refl);
  no_domain = λ e. absurd (ground arith);
  no_more = (refl, refl);
}

pub zone_packet-zone_answers :
    (qname : Text) (qtype : QueryType) (zone : Zone)
    → IsZoneReply qname qtype zone (zone_packet zone (zone_answers qtype qname zone.records))
zone_packet-zone_answers qname qtype zone =
    zone_packet-IsZoneReply qname qtype zone (zone_answers qtype qname zone.records)
      (zone_answers-Selects qname qtype zone.records)
