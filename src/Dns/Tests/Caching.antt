-- ===== src/Dns/Tests/Caching.antt =====
-- The theorems on the cache, at a concrete one.
use gis.Base.{ℕ, Bool, false, [], ◌∷◌, some, ◌≡◌, refl}
use gis.Bytes.{Text, same_hash}
use gis.Dns.Protocol.Types.{
  DnsRecord, DnsPacket, Ipv4Addr, QueryType, get_domain, get_querytype, get_ttl, new_packet,
}
use gis.Dns.Cache.{is_expired, valid, remove_equal, get_set, same_record}
use gis.Dns.Cache.Entry
use gis.Dns.Cache.Lookup.{
  Cache, lookup, store, store_nxdomain, find_entry, own_entry, answer, count_hit,
}
use gis.Dns.Cache.Lookup
use gis.Dns.Cache.Answers.{AreFrom, cached, own_cached, lookup-AreFrom, lookup-store}
use gis.Dns.Cache.Distinct.{IsCache, store-IsCache}

abbrev home : Text
home = 104 ∷ []

abbrev addr : Ipv4Addr
addr = record { o0 = 127; o1 = 0; o2 = 0; o3 = 1 }

abbrev rec : DnsRecord
rec = DnsRecord.a home addr 60

abbrev none_shared : Text → Bool
none_shared name = false

abbrev kept : Cache
kept = store none_shared 5 (rec ∷ []) []

-- The line that lets a lookup run.
runs : ℕ
unfolding same_hash get_domain get_querytype get_ttl is_expired valid remove_equal get_set
    same_record Entry.store_record Entry.store_nxdomain Entry.get_cache_state Entry.fill_queryresult
    find_entry own_entry store store_nxdomain Lookup.get_cache_state Lookup.fill_queryresult
    count_hit answer lookup
runs = 0

lookup-store_example :
    (packet : DnsPacket) × (cache' : Cache) × (lookup none_shared 7 home (get_querytype rec) kept
      ≡ (some packet, cache'))
    × (packet.answers
        ≡ rec
          ∷ valid 7
              (get_querytype rec)
              (remove_equal rec (own_cached none_shared home (get_querytype rec) [])))
unfolding get_domain is_expired get_ttl
lookup-store_example = lookup-store none_shared none_shared 5 7 home rec [] refl refl refl

abbrev found : DnsPacket
found = record new_packet { answers = rec ∷ [] }

finds : lookup none_shared 7 home QueryType.a kept ≡ (some found, count_hit none_shared home kept)
unfolding runs
finds = refl

lookup-AreFrom_example :
    AreFrom 7 QueryType.a (cached home QueryType.a kept) (rec ∷ [])
    × AreFrom 7 QueryType.ns (cached home QueryType.ns kept) []
lookup-AreFrom_example =
    lookup-AreFrom none_shared 7 home QueryType.a kept (count_hit none_shared home kept) found finds

store-IsCache_example : IsCache kept
store-IsCache_example = store-IsCache none_shared 5 (rec ∷ []) [] tt
