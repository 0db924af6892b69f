-- ===== src/Dns/Cache/Entry.antt =====
-- The methods of `DomainEntry`.
use gis.Base.{ℕ, ◌+◌, ◌%◌, ◌^◌, List, [], ◌∷◌, Option, none, some, if◌then◌else◌}
use gis.Bytes.{is_empty}
use gis.Dns.Protocol.Types.{DnsRecord, QueryType, get_querytype}
use gis.Dns.Cache.{
  CacheState, RecordEntry, RecordSet, DomainEntry, get_set, is_expired, remove_equal, valid,
}
use gis.Dns.Cache.CacheState.{positive_cache, negative_cache, not_cached}

-- `insert` into the map hides the old set of the type. The counter is a `u32`.
abbrev pub put_set : QueryType → RecordSet → DomainEntry → DomainEntry
put_set qtype s entry = record entry {
  record_types = (qtype, s) ∷ entry.record_types;
  updates = (entry.updates + 1) % 2 ^ 32;
}

unfoldable pub store_nxdomain : ℕ → QueryType → ℕ → DomainEntry → DomainEntry
store_nxdomain now qtype ttl = put_set qtype (RecordSet.no_records qtype ttl now)

-- The entries of a set of records, and none of another one.
abbrev pub entries_of : Option RecordSet → List RecordEntry
entries_of (some (RecordSet.records qtype entries)) = entries
entries_of (some (RecordSet.no_records qtype ttl timestamp)) = []
entries_of none = []

unfoldable pub store_record : ℕ → DnsRecord → DomainEntry → DomainEntry
store_record now rec entry =
    let qtype = get_querytype rec in
    put_set qtype
      (RecordSet.records qtype (
        record { dns_record = rec; timestamp = now }
        ∷ remove_equal rec (entries_of (get_set qtype entry.record_types))))
      entry

unfoldable pub get_cache_state : ℕ → QueryType → DomainEntry → CacheState
get_cache_state now qtype entry = elim (get_set qtype entry.record_types) [
  | none ↦ not_cached
  | some s ↦ elim s [
    | RecordSet.records t entries ↦
        if is_empty (valid now qtype entries) then not_cached else positive_cache
    | RecordSet.no_records t ttl timestamp ↦
        if is_expired now ttl timestamp then not_cached else negative_cache
  ]
]

-- What `fill_queryresult` appends.
unfoldable pub fill_queryresult : ℕ → QueryType → DomainEntry → List DnsRecord
fill_queryresult now qtype entry = valid now qtype (entries_of (get_set qtype entry.record_types))
