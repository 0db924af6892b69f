-- ===== src/Dns/Cache/Lookup.antt =====
-- `Cache`: entries by name. `shared` says whose `Arc` has another owner, so that `get_mut` fails:
-- `SynchronizedCache::list` hands such owners out.
use gis.Base.{ℕ, ◌+◌, ◌%◌, ◌^◌, Bool, List, [], ◌∷◌, Option, none, some, if◌then◌else◌}
use gis.Bytes.{Text, same_hash}
use gis.Dns.Protocol.Types.{DnsRecord, QueryType, ResultCode, DnsPacket, get_domain, new_packet}
use gis.Dns.Cache.{CacheState, DomainEntry, new_entry}
use gis.Dns.Cache.CacheState.{positive_cache, negative_cache, not_cached}
use gis.Dns.Cache.Entry

-- The map, of which the first pair for a key counts.
abbrev pub Cache : Type 0
Cache = List (Text × DomainEntry)

unfoldable pub find_entry : Text → Cache → Option DomainEntry
find_entry name [] = none
find_entry name ((n, e) ∷ rest) = if same_hash n name then some e else find_entry name rest

-- The entry that a store may change, or a new one in its place.
unfoldable pub own_entry : (Text → Bool) → Text → Cache → DomainEntry
own_entry shared name cache = elim (find_entry name cache) [
  | none ↦ new_entry name
  | some e ↦ if shared name then new_entry name else e
]

unfoldable pub store : (Text → Bool) → ℕ → List DnsRecord → Cache → Cache
store shared now [] cache = cache
store shared now (rec ∷ recs) cache = elim (get_domain rec) [
  | none ↦ store shared now recs cache
  | some domain ↦
      store shared now recs
        ((domain, Entry.store_record now rec (own_entry shared domain cache)) ∷ cache)
]

unfoldable pub store_nxdomain : (Text → Bool) → ℕ → Text → QueryType → ℕ → Cache → Cache
store_nxdomain shared now qname qtype ttl cache =
    (qname, Entry.store_nxdomain now qtype ttl (own_entry shared qname cache)) ∷ cache

unfoldable pub get_cache_state : ℕ → Text → QueryType → Cache → CacheState
get_cache_state now qname qtype cache = elim (find_entry qname cache) [
  | none ↦ not_cached
  | some e ↦ Entry.get_cache_state now qtype e
]

-- What is appended to the result. A shared entry gives nothing.
unfoldable pub fill_queryresult : (Text → Bool) → ℕ → Text → QueryType → Cache → List DnsRecord
fill_queryresult shared now qname qtype cache = elim (find_entry qname cache) [
  | none ↦ []
  | some e ↦ if shared qname then [] else Entry.fill_queryresult now qtype e
]

-- The hit is counted where the answers are filled in.
unfoldable pub count_hit : (Text → Bool) → Text → Cache → Cache
count_hit shared qname cache = elim (find_entry qname cache) [
  | none ↦ cache
  | some e ↦
      if shared qname then cache else (qname, record e { hits = (e.hits + 1) % 2 ^ 32 }) ∷ cache
]

-- What `lookup` does in each state.
unfoldable pub answer :
    (Text → Bool) → ℕ → Text → QueryType → Cache → CacheState → Option DnsPacket × Cache
answer shared now qname qtype cache positive_cache = (
  some (record new_packet {
    answers = fill_queryresult shared now qname qtype cache;
    authorities = fill_queryresult shared now qname QueryType.ns cache;
  }),
  count_hit shared qname cache,
)
answer shared now qname qtype cache negative_cache = (
  some (record new_packet { header = record new_packet.header { rescode = ResultCode.nx_domain } }),
  cache,
)
answer shared now qname qtype cache not_cached = (none, cache)

-- The clock is read once here, and more often in the source.
unfoldable pub lookup : (Text → Bool) → ℕ → Text → QueryType → Cache → Option DnsPacket × Cache
lookup shared now qname qtype cache =
    answer shared now qname qtype cache (get_cache_state now qname qtype cache)
