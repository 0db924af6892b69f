-- ===== src/Dns/Cache/Answers.antt =====
-- What a lookup answers, after the stores and by the clock.
use gis.Base.{
  ℕ, Bool, true, false, not, ◌&&◌, List, [], ◌∷◌, Option, none, some, ◌≡◌, ◌⊎◌, inl, inr, refl, ap,
  ◌∙◌, arith, All, if◌then◌else◌,
}
use gis.Bytes.{Text}
use gis.Bytes.Equality.{same_hash_refl}
use gis.Dns.Protocol.Types.{
  DnsRecord, QueryType, ResultCode, DnsPacket, get_domain, get_querytype, get_ttl, same_type,
  new_packet,
}
use gis.Dns.Protocol.Codes.{same_type_refl}
use gis.Dns.Cache.{CacheState, RecordEntry, DomainEntry, get_set, is_expired, remove_equal, valid}
use gis.Dns.Cache.CacheState.{positive_cache, negative_cache, not_cached}
use gis.Dns.Cache.Entry.{entries_of, put_set}
use gis.Dns.Cache.Entry
use gis.Dns.Cache.Lookup.{
  Cache, answer, find_entry, own_entry, store, store_nxdomain, lookup, count_hit,
}
use gis.Dns.Cache.Lookup

-- The entries that the cache has of a name and a type.
abbrev entries_in : QueryType → Option DomainEntry → List RecordEntry
entries_in qtype none = []
entries_in qtype (some e) = entries_of (get_set qtype e.record_types)

abbrev pub cached : Text → QueryType → Cache → List RecordEntry
cached qname qtype cache = entries_in qtype (find_entry qname cache)

-- The list has an element of this kind.
abbrev pub Has : {A : Type 0} → (A → Type 0) → List A → Type 0
Has P [] = ⊥
Has P (x ∷ xs) = P x ⊎ Has P xs

-- The record of an entry whose time has not run out, and of the type asked for.
abbrev pub IsFrom : ℕ → QueryType → DnsRecord → RecordEntry → Type 0
IsFrom now qtype rec e =
    (e.dns_record ≡ rec)
    × (is_expired now (get_ttl rec) e.timestamp ≡ false)
    × (same_type (get_querytype rec) qtype ≡ true)

-- Every answer is such a record.
abbrev pub AreFrom : ℕ → QueryType → List RecordEntry → List DnsRecord → Type 0
AreFrom now qtype es recs = All (λ rec. Has (IsFrom now qtype rec) es) recs

AreFrom-tail :
    (now : ℕ) (qtype : QueryType) (e : RecordEntry) (es : List RecordEntry) (recs : List DnsRecord)
    → AreFrom now qtype es recs
    → AreFrom now qtype (e ∷ es) recs
AreFrom-tail now qtype e es [] h = tt
AreFrom-tail now qtype e es (r ∷ rs) (h, hs) = (inr h, AreFrom-tail now qtype e es rs hs)

valid-AreFrom :
    (now : ℕ) (qtype : QueryType) (es : List RecordEntry)
    → AreFrom now qtype es (valid now qtype es)
unfolding valid
valid-AreFrom now qtype [] = tt
valid-AreFrom now qtype (e ∷ es) =
    one (AreFrom-tail now qtype e es (valid now qtype es) (valid-AreFrom now qtype es)) _ _ refl
      refl
  where
    one :
        AreFrom now qtype (e ∷ es) (valid now qtype es)
        → (old fits : Bool) → is_expired now (get_ttl e.dns_record) e.timestamp ≡ old
        → same_type (get_querytype e.dns_record) qtype ≡ fits
        → AreFrom now qtype
            (e ∷ es)
            (if not old && fits then e.dns_record ∷ valid now qtype es else valid now qtype es)
    one rest true fits o f = rest
    one rest false false o f = rest
    one rest false true o f = (inl (refl, o, f), rest)

fill_queryresult-AreFrom :
    (shared : Text → Bool) (now : ℕ) (qname : Text) (qtype : QueryType) (cache : Cache)
    → AreFrom now qtype
        (cached qname qtype cache)
        (Lookup.fill_queryresult shared now qname qtype cache)
unfolding Lookup.fill_queryresult Entry.fill_queryresult
fill_queryresult-AreFrom shared now qname qtype cache = go (find_entry qname cache) (shared qname)
  where
    go :
        (found : Option DomainEntry) (is_shared : Bool)
        → AreFrom now qtype (entries_in qtype found) (elim found [
          | none ↦ []
          | some e ↦
              if is_shared then [] else valid now qtype (entries_of (get_set qtype e.record_types))
        ])
    go none b = tt
    go (some e) true = tt
    go (some e) false = valid-AreFrom now qtype (entries_of (get_set qtype e.record_types))

answer-AreFrom :
    (shared : Text → Bool) (now : ℕ) (qname : Text) (qtype : QueryType) (cache cache' : Cache)
    (state : CacheState) (packet : DnsPacket)
    → answer shared now qname qtype cache state ≡ (some packet, cache')
    → AreFrom now qtype (cached qname qtype cache) packet.answers
      × AreFrom now QueryType.ns (cached qname QueryType.ns cache) packet.authorities
unfolding answer
answer-AreFrom shared now qname qtype cache cache' positive_cache packet h = (
  rw (← answers) (fill_queryresult-AreFrom shared now qname qtype cache),
  rw (← authorities) (fill_queryresult-AreFrom shared now qname QueryType.ns cache),
)
  where
    answers : Lookup.fill_queryresult shared now qname qtype cache ≡ packet.answers
    answers = ground (arith, h)

    authorities : Lookup.fill_queryresult shared now qname QueryType.ns cache ≡ packet.authorities
    authorities = ground (arith, h)
answer-AreFrom shared now qname qtype cache cache' negative_cache packet h =
    (rw (← answers) tt, rw (← authorities) tt)
  where
    answers : ◌≡◌ {A = List DnsRecord} [] packet.answers
    answers = ground (arith, h)

    authorities : ◌≡◌ {A = List DnsRecord} [] packet.authorities
    authorities = ground (arith, h)
answer-AreFrom shared now qname qtype cache cache' not_cached packet h = absurd (ground (arith, h))

-- Whatever a lookup answers, its answers are records that the cache has of this name, of the type
-- asked for, whose time has not run out, and its authorities are such name servers.
pub lookup-AreFrom :
    (shared : Text → Bool) (now : ℕ) (qname : Text) (qtype : QueryType) (cache cache' : Cache)
    (packet : DnsPacket)
    → lookup shared now qname qtype cache ≡ (some packet, cache')
    → AreFrom now qtype (cached qname qtype cache) packet.answers
      × AreFrom now QueryType.ns (cached qname QueryType.ns cache) packet.authorities
unfolding lookup
lookup-AreFrom shared now qname qtype cache cache' packet h =
    answer-AreFrom shared now qname qtype cache cache'
      (Lookup.get_cache_state now qname qtype cache) packet h

find_entry-first :
    (name : Text) (e : DomainEntry) (cache : Cache) → find_entry name ((name, e) ∷ cache) ≡ some e
unfolding find_entry
find_entry-first name e cache = ground (arith, same_hash_refl name)

-- A negative answer that was stored last is given until its time has run out, and then there is no
-- answer, whatever the cache had of the name and the type.
pub lookup-store_nxdomain :
    (shared shared' : Text → Bool) (now now' : ℕ) (qname : Text) (qtype : QueryType) (ttl : ℕ)
    (cache : Cache)
    → (lookup shared' now' qname qtype (store_nxdomain shared now qname qtype ttl cache)).0 ≡ (
        if is_expired now' ttl now
        then none
        else some (record new_packet {
          header = record new_packet.header { rescode = ResultCode.nx_domain };
        }))
unfolding lookup answer store_nxdomain Lookup.get_cache_state Entry.get_cache_state
    Entry.store_nxdomain get_set
lookup-store_nxdomain shared shared' now now' qname qtype ttl cache = ground (
  arith,
  same_type_refl qtype,
  find_entry-first qname (Entry.store_nxdomain now qtype ttl (own_entry shared qname cache)) cache,
)

-- What was there of a record's name and type, if its entry is not shared.
abbrev pub own_cached : (Text → Bool) → Text → QueryType → Cache → List RecordEntry
own_cached shared domain qtype cache =
    entries_of (get_set qtype (own_entry shared domain cache).record_types)

module _ (now now' : ℕ) (rec : DnsRecord) (entry : DomainEntry)
    (fresh : is_expired now' (get_ttl rec) now ≡ false) where
  filled :
      Entry.fill_queryresult now' (get_querytype rec) (Entry.store_record now rec entry)
      ≡ rec
        ∷ valid now'
            (get_querytype rec)
            (remove_equal rec (entries_of (get_set (get_querytype rec) entry.record_types)))
  unfolding Entry.fill_queryresult Entry.store_record get_set valid
  filled = ground (arith, same_type_refl (get_querytype rec))

  is_positive :
      Entry.get_cache_state now' (get_querytype rec) (Entry.store_record now rec entry)
      ≡ positive_cache
  unfolding Entry.get_cache_state Entry.store_record get_set valid
  is_positive = ground (arith, same_type_refl (get_querytype rec))

module _ (now : ℕ) (qname : Text) (qtype : QueryType) (cache : Cache) (e : DomainEntry)
    (found : find_entry qname cache ≡ some e) where
  state-found : Lookup.get_cache_state now qname qtype cache ≡ Entry.get_cache_state now qtype e
  unfolding Lookup.get_cache_state
  state-found = ground (arith, found)

  fill-found :
      (shared : Text → Bool)
      → shared qname ≡ false
      → Lookup.fill_queryresult shared now qname qtype cache ≡ Entry.fill_queryresult now qtype e
  unfolding Lookup.fill_queryresult
  fill-found shared free = ground (arith, found, free)

store-one :
    (shared : Text → Bool) (now : ℕ) (domain : Text) (rec : DnsRecord) (cache : Cache)
    → get_domain rec ≡ some domain
    → store shared now (rec ∷ []) cache
      ≡ (domain, Entry.store_record now rec (own_entry shared domain cache)) ∷ cache
unfolding store
store-one shared now domain rec cache d = ground (arith, d)

-- A record that was stored last, under a name whose entry has no other owner, is answered until its
-- time has run out, together with what is valid of the older entries of its name and type that are
-- not equal to it.
pub lookup-store :
    (shared shared' : Text → Bool) (now now' : ℕ) (domain : Text) (rec : DnsRecord) (cache : Cache)
    → get_domain rec ≡ some domain
    → shared' domain ≡ false
    → is_expired now' (get_ttl rec) now ≡ false
    → (packet : DnsPacket) × (cache' : Cache) × (lookup shared' now' domain
          (get_querytype rec)
          (store shared now (rec ∷ []) cache)
        ≡ (some packet, cache'))
      × (packet.answers
          ≡ rec
            ∷ valid now'
                (get_querytype rec)
                (remove_equal rec (own_cached shared domain (get_querytype rec) cache)))
unfolding answer
lookup-store shared shared' now now' domain rec cache d free fresh = (
  record new_packet {
    answers = Lookup.fill_queryresult shared' now' domain t stored;
    authorities = Lookup.fill_queryresult shared' now' domain QueryType.ns stored;
  },
  count_hit shared' domain stored,
  found,
  answers,
)
  where
    t : QueryType
    t = get_querytype rec

    entry : DomainEntry
    entry = own_entry shared domain cache

    stored : Cache
    stored = (domain, Entry.store_record now rec entry) ∷ cache

    first : find_entry domain stored ≡ some (Entry.store_record now rec entry)
    first = find_entry-first domain (Entry.store_record now rec entry) cache

    is_stored : store shared now (rec ∷ []) cache ≡ stored
    is_stored = store-one shared now domain rec cache d

    positive : Lookup.get_cache_state now' domain t stored ≡ positive_cache
    positive =
        state-found now' domain t stored (Entry.store_record now rec entry) first
        ∙ is_positive now now' rec entry fresh

    found :
        lookup shared' now' domain t (store shared now (rec ∷ []) cache)
        ≡ answer shared' now' domain t stored positive_cache
    found = unfold lookup in (rw is_stored (ap (answer shared' now' domain t stored) positive))

    answers :
        Lookup.fill_queryresult shared' now' domain t stored
        ≡ rec ∷ valid now' t (remove_equal rec (entries_of (get_set t entry.record_types)))
    answers =
        fill-found now' domain t stored (Entry.store_record now rec entry) first shared' free
        ∙ filled now now' rec entry fresh
