-- ===== src/Dns/Cache/Distinct.antt =====
-- The entries of a set differ, and are of its type.
use gis.Base.{
  ℕ, Bool, true, false, List, [], ◌∷◌, Option, none, some, ◌≡◌, refl, arith, All, if◌then◌else◌,
}
use gis.Bytes.{Text, same_hash}
use gis.Bytes.Equality.{same_hash_sound}
use gis.Dns.Protocol.Types.{DnsRecord, QueryType, get_querytype, get_domain, same_type}
use gis.Dns.Protocol.Codes.{same_type_sound}
use gis.Dns.Cache.{
  RecordEntry, RecordSet, DomainEntry, new_entry, get_set, same_record, remove_equal,
}
use gis.Dns.Cache.Entry.{entries_of, put_set}
use gis.Dns.Cache.Entry
use gis.Dns.Cache.Lookup.{Cache, find_entry, own_entry, store, store_nxdomain}

-- No entry equals one that stands before it.
abbrev pub AreDistinct : List RecordEntry → Type 0
AreDistinct [] = Unit
AreDistinct (e ∷ es) = All (λ x. same_record x.dns_record e.dns_record ≡ false) es × AreDistinct es

abbrev pub IsOfType : QueryType → RecordEntry → Type 0
IsOfType qtype e = get_querytype e.dns_record ≡ qtype

abbrev pub IsRecordSet : QueryType × RecordSet → Type 0
IsRecordSet (qtype, RecordSet.no_records t ttl timestamp) = t ≡ qtype
IsRecordSet (qtype, RecordSet.records t es) = (t ≡ qtype) × All (IsOfType qtype) es × AreDistinct es

abbrev pub IsDomainEntry : DomainEntry → Type 0
IsDomainEntry e = All IsRecordSet e.record_types

-- Every entry of the cache stands under its name, and its sets are right.
abbrev pub IsCache : Cache → Type 0
IsCache cache = All (λ kept. (kept.1.domain ≡ kept.0) × IsDomainEntry (kept.1)) cache

remove_equal-All :
    (P : RecordEntry → Type 0) (rec : DnsRecord) (es : List RecordEntry)
    → All P es
    → All P (remove_equal rec es)
unfolding remove_equal
remove_equal-All P rec [] h = tt
remove_equal-All P rec (e ∷ es) (h, hs) =
    one (same_record e.dns_record rec) (remove_equal-All P rec es hs)
  where
    one :
        (equal : Bool)
        → All P (remove_equal rec es)
        → All P (if equal then remove_equal rec es else e ∷ remove_equal rec es)
    one true rest = rest
    one false rest = (h, rest)

remove_equal-differ :
    (rec : DnsRecord) (es : List RecordEntry)
    → All (λ x. same_record x.dns_record rec ≡ false) (remove_equal rec es)
unfolding remove_equal
remove_equal-differ rec [] = tt
remove_equal-differ rec (e ∷ es) = one _ refl (remove_equal-differ rec es)
  where
    one :
        (equal : Bool)
        → same_record e.dns_record rec ≡ equal
        → All (λ x. same_record x.dns_record rec ≡ false) (remove_equal rec es)
        → All
            (λ x. same_record x.dns_record rec ≡ false)
            (if equal then remove_equal rec es else e ∷ remove_equal rec es)
    one true e rest = rest
    one false e rest = (e, rest)

remove_equal-AreDistinct :
    (rec : DnsRecord) (es : List RecordEntry) → AreDistinct es → AreDistinct (remove_equal rec es)
unfolding remove_equal
remove_equal-AreDistinct rec [] h = tt
remove_equal-AreDistinct rec (e ∷ es) (h, hs) =
    one (same_record e.dns_record rec)
      (remove_equal-All (λ x. same_record x.dns_record e.dns_record ≡ false) rec es h)
      (remove_equal-AreDistinct rec es hs)
  where
    one :
        (equal : Bool)
        → All (λ x. same_record x.dns_record e.dns_record ≡ false) (remove_equal rec es)
        → AreDistinct (remove_equal rec es)
        → AreDistinct (if equal then remove_equal rec es else e ∷ remove_equal rec es)
    one true differ rest = rest
    one false differ rest = (differ, rest)

-- What a found set holds.
entries-IsOfType :
    (qtype : QueryType) (sets : List (QueryType × RecordSet))
    → All IsRecordSet sets
    → All (IsOfType qtype) (entries_of (get_set qtype sets))
      × AreDistinct (entries_of (get_set qtype sets))
unfolding get_set
entries-IsOfType qtype [] h = (tt, tt)
entries-IsOfType qtype ((t, s) ∷ rest) (h, hs) = one s h _ refl (entries-IsOfType qtype rest hs)
  where
    one :
        (s : RecordSet)
        → IsRecordSet (t, s)
        → (fits : Bool) → same_type t qtype ≡ fits
        → All (IsOfType qtype) (entries_of (get_set qtype rest))
          × AreDistinct (entries_of (get_set qtype rest))
        → All (IsOfType qtype) (entries_of (if fits then some s else get_set qtype rest))
          × AreDistinct (entries_of (if fits then some s else get_set qtype rest))
    one (RecordSet.no_records t' ttl timestamp) h false f below = below
    one (RecordSet.records t' es) h false f below = below
    one (RecordSet.no_records t' ttl timestamp) h true f below = (tt, tt)
    one (RecordSet.records t' es) (_, typed, distinct) true f below =
        (rw (← same_type_sound t qtype f) typed, distinct)

store_record-IsDomainEntry :
    (now : ℕ) (rec : DnsRecord) (entry : DomainEntry)
    → IsDomainEntry entry
    → IsDomainEntry (Entry.store_record now rec entry)
unfolding Entry.store_record
store_record-IsDomainEntry now rec entry h =
    let t = get_querytype rec in
    let old = entries_of (get_set t entry.record_types) in
    let (typed, distinct) = entries-IsOfType t entry.record_types h in
    (
      (
        refl,
        (refl, remove_equal-All (IsOfType t) rec old typed),
        (remove_equal-differ rec old, remove_equal-AreDistinct rec old distinct),
      ),
      h,
    )

abbrev IsFound : Option DomainEntry → Type 0
IsFound none = Unit
IsFound (some e) = IsDomainEntry e

find_entry-IsFound : (name : Text) (cache : Cache) → IsCache cache → IsFound (find_entry name cache)
unfolding find_entry
find_entry-IsFound name [] h = tt
find_entry-IsFound name ((n, e) ∷ rest) ((_, h), hs) =
    one (same_hash n name) (find_entry-IsFound name rest hs)
  where
    one :
        (same : Bool)
        → IsFound (find_entry name rest)
        → IsFound (if same then some e else find_entry name rest)
    one true below = h
    one false below = below

own_entry-IsDomainEntry :
    (shared : Text → Bool) (name : Text) (cache : Cache)
    → IsCache cache
    → IsDomainEntry (own_entry shared name cache)
unfolding own_entry
own_entry-IsDomainEntry shared name cache h =
    one (find_entry name cache) (shared name) (find_entry-IsFound name cache h)
  where
    one :
        (found : Option DomainEntry) (is_shared : Bool)
        → IsFound found
        → IsDomainEntry (elim found [
          | none ↦ new_entry name
          | some e ↦ if is_shared then new_entry name else e
        ])
    one none is_shared h = tt
    one (some e) true h = tt
    one (some e) false h = h

own_entry-domain :
    (shared : Text → Bool) (name : Text) (cache : Cache)
    → IsCache cache
    → (own_entry shared name cache).domain ≡ name
unfolding own_entry find_entry
own_entry-domain shared name [] h = refl
own_entry-domain shared name ((n, e) ∷ rest) ((named, h), hs) =
    ground (arith, named, same_hash_sound n name, own_entry-domain shared name rest hs)

-- Whatever is stored, shared or not, the cache stays right: an entry stands under its name, a set
-- under its type, with records of this type of which no two are equal but for their times.
pub store-IsCache :
    (shared : Text → Bool) (now : ℕ) (recs : List DnsRecord) (cache : Cache)
    → IsCache cache
    → IsCache (store shared now recs cache)
unfolding store Entry.store_record
store-IsCache shared now [] cache h = h
store-IsCache shared now (rec ∷ recs) cache h = one (get_domain rec) (store-IsCache shared now recs)
  where
    kept : Text → Cache
    kept d = (d, Entry.store_record now rec (own_entry shared d cache)) ∷ cache

    good : (d : Text) → IsCache (kept d)
    good d = (
      (
        own_entry-domain shared d cache h,
        store_record-IsDomainEntry now rec (own_entry shared d cache)
            (own_entry-IsDomainEntry shared d cache h),
      ),
      h,
    )

    one :
        (domain : Option Text)
        → ((c : Cache) → IsCache c → IsCache (store shared now recs c))
        → IsCache (elim domain [
          | none ↦ store shared now recs cache
          | some d ↦ store shared now recs (kept d)
        ])
    one none keeps = keeps cache h
    one (some d) keeps = keeps (kept d) (good d)

-- The same for a negative answer.
pub store_nxdomain-IsCache :
    (shared : Text → Bool) (now : ℕ) (qname : Text) (qtype : QueryType) (ttl : ℕ) (cache : Cache)
    → IsCache cache
    → IsCache (store_nxdomain shared now qname qtype ttl cache)
unfolding store_nxdomain Entry.store_nxdomain
store_nxdomain-IsCache shared now qname qtype ttl cache h = (
  (own_entry-domain shared qname cache h, (refl, own_entry-IsDomainEntry shared qname cache h)),
  h,
)
