-- ===== src/Dns/Filter/Records.antt =====
-- Records under another name, and the tests on them.
use gis.Base.{if_case, true, Option, none, some, ◌≡◌, refl, ap, ◌∙◌, arith}
use gis.Bytes.{Text, codes}
use gis.Bytes.Equality.{same_hash_sound}
use gis.Dns.Protocol.Types.{DnsRecord, QueryType, get_domain, get_querytype, same_type}
use gis.Dns.Filter.{has_domain, is_name, name_apex, set_domain, type_fits}

pub get_querytype-set_domain :
    (name : Text) (rec : DnsRecord) → get_querytype (set_domain name rec) ≡ get_querytype rec
unfolding get_querytype set_domain
get_querytype-set_domain name (DnsRecord.unknown _ _ _ _) = refl
get_querytype-set_domain name (DnsRecord.a _ _ _) = refl
get_querytype-set_domain name (DnsRecord.ns _ _ _) = refl
get_querytype-set_domain name (DnsRecord.cname _ _ _) = refl
get_querytype-set_domain name (DnsRecord.soa _ _ _ _ _ _ _ _ _) = refl
get_querytype-set_domain name (DnsRecord.mx _ _ _ _) = refl
get_querytype-set_domain name (DnsRecord.txt _ _ _) = refl
get_querytype-set_domain name (DnsRecord.aaaa _ _ _) = refl
get_querytype-set_domain name (DnsRecord.srv _ _ _ _ _ _) = refl
get_querytype-set_domain name (DnsRecord.opt _ _ _) = refl

pub has_domain_sound :
    (name : Text) (rec : DnsRecord) → has_domain name rec ≡ true → get_domain rec ≡ some name
has_domain_sound name rec h = cases (get_domain rec) h
  where
    cases : (d : Option Text) → is_name name d ≡ true → d ≡ some name
    cases none h = absurd (ground arith)
    cases (some domain) h = ap some (same_hash_sound domain name h)

pub get_domain-set_domain :
    (name old : Text) (rec : DnsRecord)
    → get_domain rec ≡ some old
    → get_domain (set_domain name rec) ≡ some name
unfolding get_domain set_domain
get_domain-set_domain name old (DnsRecord.unknown _ _ _ _) h = refl
get_domain-set_domain name old (DnsRecord.a _ _ _) h = refl
get_domain-set_domain name old (DnsRecord.ns _ _ _) h = refl
get_domain-set_domain name old (DnsRecord.cname _ _ _) h = refl
get_domain-set_domain name old (DnsRecord.soa _ _ _ _ _ _ _ _ _) h = refl
get_domain-set_domain name old (DnsRecord.mx _ _ _ _) h = refl
get_domain-set_domain name old (DnsRecord.txt _ _ _) h = refl
get_domain-set_domain name old (DnsRecord.aaaa _ _ _) h = refl
get_domain-set_domain name old (DnsRecord.srv _ _ _ _ _ _) h = refl
get_domain-set_domain name old (DnsRecord.opt _ _ _) h = absurd (ground arith)

pub type_fits-set_domain :
    (qtype : QueryType) (name : Text) (rec : DnsRecord)
    → type_fits qtype (set_domain name rec) ≡ type_fits qtype rec
unfolding type_fits
type_fits-set_domain qtype name rec = rw (get_querytype-set_domain name rec) refl

pub type_fits-name_apex :
    (qtype : QueryType) (qname : Text) (rec : DnsRecord)
    → type_fits qtype rec ≡ true
    → type_fits qtype (name_apex qname rec) ≡ true
type_fits-name_apex qtype qname rec h =
    if_case (λ r. type_fits qtype r ≡ true) (has_domain (codes "@") rec)
      (λ e. type_fits-set_domain qtype qname rec ∙ h) (λ e. h)

pub same_type-fits :
    (qtype : QueryType) (rec : DnsRecord)
    → same_type (get_querytype rec) qtype ≡ true
    → type_fits qtype rec ≡ true
unfolding type_fits
same_type-fits qtype rec h = rw h refl

pub set_domain-set_domain :
    (name other : Text) (rec : DnsRecord)
    → set_domain name (set_domain other rec) ≡ set_domain name rec
unfolding set_domain
set_domain-set_domain name other (DnsRecord.unknown _ _ _ _) = refl
set_domain-set_domain name other (DnsRecord.a _ _ _) = refl
set_domain-set_domain name other (DnsRecord.ns _ _ _) = refl
set_domain-set_domain name other (DnsRecord.cname _ _ _) = refl
set_domain-set_domain name other (DnsRecord.soa _ _ _ _ _ _ _ _ _) = refl
set_domain-set_domain name other (DnsRecord.mx _ _ _ _) = refl
set_domain-set_domain name other (DnsRecord.txt _ _ _) = refl
set_domain-set_domain name other (DnsRecord.aaaa _ _ _) = refl
set_domain-set_domain name other (DnsRecord.srv _ _ _ _ _ _) = refl
set_domain-set_domain name other (DnsRecord.opt _ _ _) = refl
