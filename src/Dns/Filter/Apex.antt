-- ===== src/Dns/Filter/Apex.antt =====
-- Records of a domain that carry the domain's full name.
use gis.Base.{
  if_case, ℕ, zero, suc, true, false, not, List, [], ◌∷◌, ◌++◌, Option, none, some, if◌then◌else◌,
  get_elem?, ◌≡◌, refl, sym, ap, ◌∙◌, subst, arith, length-append,
}
use gis.Bytes.{Text, codes, is_empty, same_hash}
use gis.Bytes.Equality.{same_hash_refl, same_hash_sound}
use gis.Commons.{rsplit_dot}
use gis.Dns.Protocol.Types.{DnsRecord, DnsPacket, QueryType, get_domain}
use gis.Blockchain.Types.{DomainData}
use gis.Blockchain.Env.{Env}
use gis.Blockchain.Chain.State.{Chain}
use gis.Dns.Filter.{
  domain_parts, find_answers, find_exact, get_domain_info, has_domain, is_name, lookup,
  lookup_domain, lookup_parts, name_apex, reply_from_data, reply_with, set_domain, type_fits,
  zone_parts,
}

starts_longer : (name zone : Text) → same_hash (name ++ (b'.' ∷ zone)) (codes "@") ≡ false
starts_longer [] zone = ground (arith, same_hash_sound (b'.' ∷ zone) (codes "@"))
starts_longer (c ∷ name) zone = ground (
  arith,
  same_hash_sound (c ∷ (name ++ (b'.' ∷ zone))) (codes "@"),
  length-append name (b'.' ∷ zone),
)

domain_parts-not_at :
    (zone : Text) (p : Text × Option Text) → same_hash (domain_parts zone p).0 (codes "@") ≡ false
unfolding domain_parts
domain_parts-not_at zone (name, none) = starts_longer name zone
domain_parts-not_at zone (name, some subdomain) = starts_longer name zone

-- The list holds the record.
abbrev pub Holds : DnsRecord → List DnsRecord → Type 0
Holds rec recs = (i : ℕ) × (get_elem? recs i ≡ some rec)

module _ (qtype : QueryType) (qname search_name subdomain : Text) (rec : DnsRecord)
    (f : type_fits qtype rec ≡ true) (h : get_domain rec ≡ some search_name)
    (n : same_hash search_name (codes "@") ≡ false) where
  named_itself : has_domain search_name rec ≡ true
  named_itself = ap (is_name search_name) h ∙ same_hash_refl search_name

  not_apex : name_apex qname rec ≡ rec
  not_apex = ap (λ b. if b then set_domain qname rec else rec) (ap (is_name (codes "@")) h ∙ n)

  find_exact-front :
      (recs : List DnsRecord)
      → (find_exact qtype qname search_name subdomain (rec ∷ recs)).1
        ≡ rec ∷ (find_exact qtype qname search_name subdomain recs).1
  unfolding find_exact
  find_exact-front recs = rw (f, not_apex, named_itself) refl

  find_exact-Holds :
      (recs : List DnsRecord) (i : ℕ)
      → get_elem? recs i ≡ some rec
      → Holds rec (find_exact qtype qname search_name subdomain recs).1
  unfolding find_exact
  find_exact-Holds [] i e = absurd (ground arith)
  find_exact-Holds (r ∷ recs) zero e =
      subst (λ x. Holds rec (find_exact qtype qname search_name subdomain (x ∷ recs)).1)
        (sym (some_injective e)) (0, ap (λ l. get_elem? l 0) (find_exact-front recs))
    where
      some_injective : some r ≡ some rec → r ≡ rec
      some_injective e = ground arith
  find_exact-Holds (r ∷ recs) (suc i) e =
      let (j, found) = find_exact-Holds recs i e in
      let P : List DnsRecord × List DnsRecord → Type 0 = λ l. Holds rec l.1 in
      let named = name_apex qname r in
      if_case P (not (type_fits qtype r)) (λ _. (j, found))
        (λ _.
          if_case P (has_domain search_name named) (λ _. (suc j, found))
            (λ _. if_case P (has_domain subdomain named) (λ _. (suc j, found)) (λ _. (j, found))))

  find_answers-Holds :
      (recs : List DnsRecord) (i : ℕ)
      → get_elem? recs i ≡ some rec
      → Holds rec (find_answers qtype qname search_name subdomain recs)
  unfolding find_answers
  find_answers-Holds recs i e =
      let (j, found) = find_exact-Holds recs i e in
      (j, rw (nonempty (find_exact qtype qname search_name subdomain recs).1 j found) found)
    where
      nonempty : (l : List DnsRecord) (j : ℕ) → get_elem? l j ≡ some rec → is_empty l ≡ false
      nonempty [] j e = absurd (ground arith)
      nonempty (x ∷ l) j e = refl

reply_with-answers :
    (now : ℕ) (qtype : QueryType) (qname zone : Text) (answers : List DnsRecord)
    → (reply_with now qtype qname zone answers).answers ≡ answers
unfolding reply_with
reply_with-answers now qtype qname zone [] = refl
reply_with-answers now qtype qname zone (rec ∷ recs) = refl

-- A record of a registered domain that is named by the whole domain answers, under that name, every
-- query of its type below the domain, whatever stands before the domain in the query's name.
pub lookup-apex :
    (env : Env) (qname : Text) (qtype : QueryType) (c : Chain) (zone front text : Text)
    → (d : DomainData) (rec : DnsRecord) (i : ℕ) → rsplit_dot qname ≡ (zone, some front)
    → get_domain_info env (domain_parts zone (rsplit_dot front)).0 c ≡ some text
    → env.parse_domain text ≡ some d
    → get_elem? d.records i ≡ some rec
    → get_domain rec ≡ some (domain_parts zone (rsplit_dot front)).0
    → type_fits qtype rec ≡ true
    → (p : DnsPacket) × (lookup env qname qtype c ≡ (some p, c)) × Holds rec p.answers
unfolding lookup lookup_parts zone_parts lookup_domain reply_from_data
lookup-apex env qname qtype c zone front text d rec i parts info parsed at named fits =
    let (search_name, subdomain) = domain_parts zone (rsplit_dot front) in
    let answers = find_answers qtype qname search_name subdomain d.records in
    let not_at = domain_parts-not_at zone (rsplit_dot front) in
    (
      reply_with env.now qtype qname zone answers,
      rw (parts, info, parsed) refl,
      rw (reply_with-answers env.now qtype qname zone answers) (
          find_answers-Holds qtype qname search_name subdomain rec fits named not_at d.records i
            at),
    )
