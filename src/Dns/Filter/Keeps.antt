-- ===== src/Dns/Filter/Keeps.antt =====
-- What a lookup of `BlockchainFilter` leaves alone.
use gis.Base.{if_case, Bool, true, Option, none, some, i64_max, refl}
use gis.Bytes.{Text}
use gis.Commons.{rsplit_dot}
use gis.Dns.Protocol.Types.{DnsPacket, QueryType}
use gis.Blockchain.Env.{Env, hash_identity}
use gis.Blockchain.Chain.State.{Chain, contains}
use gis.Blockchain.Chain.Growth.{SameStore}
use gis.Blockchain.Chain.Queries.{is_id_in_blockchain, is_zone_in_blockchain}
use gis.Dns.Filter.{
  domain_parts, get_domain_info, get_zone_response, lookup, lookup_domain, lookup_parts,
  reply_without_data, zone_parts,
}

module _ (env : Env) where
  is_zone_in_blockchain-SameStore :
      (zone : Text) (c : Chain) → SameStore c (is_zone_in_blockchain env i64_max zone c).1
  unfolding is_zone_in_blockchain
  is_zone_in_blockchain-SameStore zone c =
      let P : Bool × Chain → Type 0 = λ r. SameStore c r.1 in
      if_case P (contains zone c.zone_names) (λ _. (refl, refl, refl))
        (λ _.
          if_case P (is_id_in_blockchain env i64_max (hash_identity env zone none) true c)
            (λ _. (refl, refl, refl)) (λ _. (refl, refl, refl)))

  lookup_domain-SameStore :
      (qtype : QueryType) (qname zone search_name subdomain : Text) (c : Chain) (d : Option Text)
      → SameStore c (lookup_domain env qtype qname zone search_name subdomain c d).1
  unfolding lookup_domain reply_without_data
  lookup_domain-SameStore qtype qname zone search_name subdomain c none =
      if_case (λ (r : Option DnsPacket × Chain). SameStore c r.1)
        (is_zone_in_blockchain env i64_max zone c).0 (λ _. is_zone_in_blockchain-SameStore zone c)
        (λ _. is_zone_in_blockchain-SameStore zone c)
  lookup_domain-SameStore qtype qname zone search_name subdomain c (some text) = (refl, refl, refl)

  lookup_parts-SameStore :
      (qtype : QueryType) (qname : Text) (p : Text × Option Text) (c : Chain)
      → SameStore c (lookup_parts env qname qtype (zone_parts p) c).1
  unfolding lookup_parts zone_parts get_zone_response
  lookup_parts-SameStore qtype qname (zone, none) c =
      if_case (λ (r : Option DnsPacket × Chain). SameStore c r.1)
        (is_zone_in_blockchain env i64_max zone c).0 (λ _. is_zone_in_blockchain-SameStore zone c)
        (λ _. is_zone_in_blockchain-SameStore zone c)
  lookup_parts-SameStore qtype qname (zone, some front) c =
      let parts = domain_parts zone (rsplit_dot front) in
      lookup_domain-SameStore qtype qname zone parts.0 parts.1 c (get_domain_info env parts.0 c)

  pub lookup-SameStore :
      (qname : Text) (qtype : QueryType) (c : Chain) → SameStore c (lookup env qname qtype c).1
  unfolding lookup
  lookup-SameStore qname qtype c = lookup_parts-SameStore qtype qname (rsplit_dot qname) c
