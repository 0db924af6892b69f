-- ===== src/Dns/Cache.antt =====
-- src/dns/cache.rs: what the resolver remembers of a name, by query type, with ages and negative
-- answers. A time is a number of nanoseconds, and `now` is what `Local::now()` gives.
pub mod Entry
pub mod Lookup
pub mod Answers
pub mod Distinct
use gis.Base.{
  ℕ, zero, suc, ◌+◌, ◌*◌, Bool, true, false, not, ◌&&◌, List, [], ◌∷◌, ◌++◌, Option, none, some,
  ltb, ◌==◌, if◌then◌else◌,
}
use gis.Bytes.{Text, same_hash}
use gis.Dns.Protocol.Types.{
  DnsRecord, Ipv4Addr, Ipv6Addr, QueryType, same_type, get_querytype, get_ttl,
}

pub data CacheState : Type 0 where
  positive_cache negative_cache not_cached : CacheState

abbrev pub same_v4 : Ipv4Addr → Ipv4Addr → Bool
same_v4 x y = x.o0 == y.o0 && (x.o1 == y.o1 && (x.o2 == y.o2 && x.o3 == y.o3))

abbrev pub same_v6 : Ipv6Addr → Ipv6Addr → Bool
same_v6 x y =
    x.s0 == y.s0
    && (x.s1 == y.s1
        && (x.s2 == y.s2
            && (x.s3 == y.s3
                && (x.s4 == y.s4 && (x.s5 == y.s5 && (x.s6 == y.s6 && x.s7 == y.s7))))))

-- The derived `==` of records. A ttl is a `TransientTtl`, which equals every other.
unfoldable pub same_record : DnsRecord → DnsRecord → Bool
same_record (DnsRecord.unknown d q n _) (DnsRecord.unknown d' q' n' _) =
    same_hash d d' && (q == q' && n == n')
same_record (DnsRecord.a d x _) (DnsRecord.a d' x' _) = same_hash d d' && same_v4 x x'
same_record (DnsRecord.ns d h _) (DnsRecord.ns d' h' _) = same_hash d d' && same_hash h h'
same_record (DnsRecord.cname d h _) (DnsRecord.cname d' h' _) = same_hash d d' && same_hash h h'
same_record (DnsRecord.soa d m r s f t e n _) (DnsRecord.soa d' m' r' s' f' t' e' n' _) =
    same_hash d d'
    && (same_hash m m'
        && (same_hash r r' && (s == s' && (f == f' && (t == t' && (e == e' && n == n'))))))
same_record (DnsRecord.mx d p h _) (DnsRecord.mx d' p' h' _) =
    same_hash d d' && (p == p' && same_hash h h')
same_record (DnsRecord.txt d c _) (DnsRecord.txt d' c' _) = same_hash d d' && same_hash c c'
same_record (DnsRecord.aaaa d x _) (DnsRecord.aaaa d' x' _) = same_hash d d' && same_v6 x x'
same_record (DnsRecord.srv d p w o h _) (DnsRecord.srv d' p' w' o' h' _) =
    same_hash d d' && (p == p' && (w == w' && (o == o' && same_hash h h')))
same_record (DnsRecord.opt l f c) (DnsRecord.opt l' f' c') = l == l' && (f == f' && same_hash c c')
same_record _ _ = false

-- `==` of entries is `==` of their records.
pub record RecordEntry : Type 0 where
  pub dns_record : DnsRecord
  pub timestamp : ℕ

-- A hash set of entries is a list without equal ones, in an order that says nothing.
pub data RecordSet : Type 0 where
  no_records : (qtype : QueryType) (ttl timestamp : ℕ) → RecordSet
  records : (qtype : QueryType) (entries : List RecordEntry) → RecordSet

-- A hash map is a list of pairs, of which the first for a key counts.
pub record DomainEntry : Type 0 where
  pub domain : Text
  pub record_types : List (QueryType × RecordSet)
  pub hits : ℕ
  pub updates : ℕ

abbrev pub new_entry : Text → DomainEntry
new_entry domain = record { domain = domain; record_types = []; hits = 0; updates = 0 }

unfoldable pub get_set : QueryType → List (QueryType × RecordSet) → Option RecordSet
get_set qtype [] = none
get_set qtype ((t, s) ∷ rest) = if same_type t qtype then some s else get_set qtype rest

-- `Duration::seconds(ttl)` behind the time of the entry, and whether `now` has passed it.
unfoldable pub is_expired : ℕ → ℕ → ℕ → Bool
is_expired now ttl timestamp = ltb (timestamp + ttl * 1000000000) now

-- `remove` of an equal entry.
unfoldable pub remove_equal : DnsRecord → List RecordEntry → List RecordEntry
remove_equal rec [] = []
remove_equal rec (e ∷ es) =
    let rest = remove_equal rec es in if same_record e.dns_record rec then rest else e ∷ rest

-- The entries that `fill_queryresult` and `get_cache_state` count: not expired, and of this type.
unfoldable pub valid : ℕ → QueryType → List RecordEntry → List DnsRecord
valid now qtype [] = []
valid now qtype (e ∷ es) =
    let rest = valid now qtype es in
    if not (is_expired now (get_ttl e.dns_record) e.timestamp)
      && same_type (get_querytype e.dns_record) qtype
    then e.dns_record ∷ rest
    else rest
