-- ===== src/Dns/Filter/Answers.antt =====
-- The records that `BlockchainFilter` answers with.
use gis.Base.{
  if_case, ◌⊎◌, inl, inr, true, not, List, [], ◌∷◌, ◌++◌, Option, none, some, All, ◌≡◌, refl, sym,
  subst, ◌∙◌, append_assoc, arith,
}
use gis.Bytes.{Text, codes, is_empty}
use gis.Commons.Domain.{rejoin}
use gis.Dns.Protocol.Types.{DnsRecord, QueryType, get_domain, get_querytype, same_type}
use gis.Dns.Filter.Records.{
  get_domain-set_domain, has_domain_sound, same_type-fits, set_domain-set_domain,
  type_fits-name_apex, type_fits-set_domain,
}
use gis.Dns.Filter.{
  domain_parts, find_answers, find_exact, find_wildcard, has_domain, name_apex, set_domain,
  type_fits,
}

-- The second text ends in the first.
abbrev pub IsSuffix : Text → Text → Type 0
IsSuffix last text = (before : Text) × (text ≡ before ++ last)

-- The first text begins the second.
abbrev pub IsPrefix : Text → Text → Type 0
IsPrefix first text = (rest : Text) × (text ≡ first ++ rest)

-- The names in a domain's data that a query may be answered by.
pub data IsAsked (qname name : Text) : Type 0 where
  apex : name ≡ codes "@" → IsAsked qname name
  wildcard : name ≡ codes "*" → IsAsked qname name
  end : IsSuffix name qname → IsAsked qname name
  front : IsPrefix name qname → IsAsked qname name

-- The record is that one, or that one under the name of the query.
pub record ComesFrom (qname : Text) (rec source : DnsRecord) : Type 0 where
  pub name : Text
  pub named : get_domain source ≡ some name
  pub asked : IsAsked qname name
  pub same : (rec ≡ source) ⊎ (rec ≡ set_domain qname source)

-- An answer comes from one of the records that are `Held`.
pub record IsAnswer (Held : DnsRecord → Type 0) (qtype : QueryType) (qname : Text) (rec : DnsRecord)
    : Type 0 where
  pub name : Text
  pub named : get_domain rec ≡ some name
  pub suffix : IsSuffix name qname
  pub fits : type_fits qtype rec ≡ true
  pub source : DnsRecord
  pub held : Held source
  pub comes : ComesFrom qname rec source

-- The domain that is looked for ends the name of the query.
pub domain_parts-IsSuffix :
    (zone : Text) (p : Text × Option Text)
    → IsSuffix (domain_parts zone p).0 (rejoin p ++ (b'.' ∷ zone))
unfolding domain_parts
domain_parts-IsSuffix zone (name, none) = ([], refl)
domain_parts-IsSuffix zone (name, some subdomain) = (
  subdomain ++ (b'.' ∷ []),
  append_assoc subdomain (b'.' ∷ name) (b'.' ∷ zone)
      ∙ sym (append_assoc subdomain (b'.' ∷ []) (name ++ (b'.' ∷ zone))),
)

-- What stands before it begins that name.
pub domain_parts-IsPrefix :
    (zone : Text) (p : Text × Option Text)
    → IsPrefix (domain_parts zone p).1 (rejoin p ++ (b'.' ∷ zone))
unfolding domain_parts
domain_parts-IsPrefix zone (name, none) = (name ++ (b'.' ∷ zone), refl)
domain_parts-IsPrefix zone (name, some subdomain) =
    ((b'.' ∷ name) ++ (b'.' ∷ zone), append_assoc subdomain (b'.' ∷ name) (b'.' ∷ zone))

-- Where the record that `name_apex` leaves has a name, it comes from the one before.
name_apex-ComesFrom :
    (qname name : Text) (rec : DnsRecord)
    → IsAsked qname name
    → has_domain name (name_apex qname rec) ≡ true
    → ComesFrom qname (name_apex qname rec) rec
      × ComesFrom qname (set_domain qname (name_apex qname rec)) rec
name_apex-ComesFrom qname name rec asked =
    if_case
      (λ r.
        has_domain name r ≡ true → ComesFrom qname r rec × ComesFrom qname (set_domain qname r) rec)
      (has_domain (codes "@") rec)
      (λ at _. (from_at at refl, from_at at (set_domain-set_domain qname qname rec)))
      (λ _ h. (from_name h (inl refl), from_name h (inr refl)))
  where
    from_at :
        {r : DnsRecord}
        → has_domain (codes "@") rec ≡ true
        → r ≡ set_domain qname rec
        → ComesFrom qname r rec
    from_at at e = record {
      name = codes "@";
      named = has_domain_sound (codes "@") rec at;
      asked = apex refl;
      same = inr e;
    }

    from_name :
        {r : DnsRecord}
        → has_domain name rec ≡ true
        → (r ≡ rec) ⊎ (r ≡ set_domain qname rec)
        → ComesFrom qname r rec
    from_name h e = record {
      name = name;
      named = has_domain_sound name rec h;
      asked = asked;
      same = e;
    }

module _ (Held : DnsRecord → Type 0) (qtype : QueryType) (qname search_name subdomain : Text)
    (at_end : IsSuffix search_name qname) (at_front : IsPrefix subdomain qname) where
  kept_answer :
      (rec source : DnsRecord)
      → Held source
      → type_fits qtype rec ≡ true
      → has_domain search_name rec ≡ true
      → ComesFrom qname rec source
      → IsAnswer Held qtype qname rec
  kept_answer rec source held f h from = record {
    name = search_name;
    named = has_domain_sound search_name rec h;
    suffix = at_end;
    fits = f;
    source = source;
    held = held;
    comes = from;
  }

  renamed_answer :
      (name : Text) (rec source : DnsRecord)
      → Held source
      → type_fits qtype rec ≡ true
      → has_domain name rec ≡ true
      → ComesFrom qname (set_domain qname rec) source
      → IsAnswer Held qtype qname (set_domain qname rec)
  renamed_answer name rec source held f h from = record {
    name = qname;
    named = get_domain-set_domain qname name rec (has_domain_sound name rec h);
    suffix = ([], refl);
    fits = type_fits-set_domain qtype qname rec ∙ f;
    source = source;
    held = held;
    comes = from;
  }

  -- A record that the first loop leaves: where it has a name that may answer, it comes from one that
  -- is held, and so it does under the name of the query.
  IsLeft : DnsRecord → Type 0
  IsLeft rec =
      (source : DnsRecord) × Held source
      × ((name : Text)
          → IsAsked qname name
          → has_domain name rec ≡ true
          → ComesFrom qname rec source × ComesFrom qname (set_domain qname rec) source)

  itself :
      (rec r : DnsRecord) (name : Text)
      → IsAsked qname name
      → has_domain name rec ≡ true
      → (r ≡ rec) ⊎ (r ≡ set_domain qname rec)
      → ComesFrom qname r rec
  itself rec r name asked h e = record {
    name = name;
    named = has_domain_sound name rec h;
    asked = asked;
    same = e;
  }

  untouched : (rec : DnsRecord) → Held rec → IsLeft rec
  unfolding IsLeft
  untouched rec held = (
    rec,
    held,
    λ name asked h. (
      itself rec rec name asked h (inl refl),
      itself rec (set_domain qname rec) name asked h (inr refl),
    ),
  )

  at_apex : (rec : DnsRecord) → Held rec → IsLeft (name_apex qname rec)
  unfolding IsLeft
  at_apex rec held = (rec, held, λ name asked h. name_apex-ComesFrom qname name rec asked h)

  renamed :
      (rec : DnsRecord)
      → Held rec
      → has_domain subdomain (name_apex qname rec) ≡ true
      → IsLeft (set_domain qname (name_apex qname rec))
  unfolding IsLeft
  renamed rec held h =
      let from = (name_apex-ComesFrom qname subdomain rec (front at_front) h).1 in
      let same = set_domain-set_domain qname qname (name_apex qname rec) in
      (rec, held, λ name asked _. (from, subst (λ r. ComesFrom qname r rec) (sym same) from))

  find_exact-All :
      (recs : List DnsRecord)
      → All Held recs
      → All IsLeft (find_exact qtype qname search_name subdomain recs).0
        × All (IsAnswer Held qtype qname) (find_exact qtype qname search_name subdomain recs).1
  unfolding find_exact
  find_exact-All [] held = (tt, tt)
  find_exact-All (rec ∷ recs) (held, hs) =
      let (left, found) = find_exact-All recs hs in
      let named = name_apex qname rec in
      let P : List DnsRecord × List DnsRecord → Type 0 =
        λ r. All IsLeft r.0 × All (IsAnswer Held qtype qname) r.1 in
      if_case P (not (type_fits qtype rec)) (λ e. ((untouched rec held, left), found))
        (λ e.
          let f = type_fits-name_apex qtype qname rec (ground arith) in
          if_case P (has_domain search_name named)
            (λ h. (
              (at_apex rec held, left),
              (
                kept_answer named rec held f h
                    (name_apex-ComesFrom qname search_name rec (end at_end) h).0,
                found,
              ),
            ))
            (λ h.
              if_case P (has_domain subdomain named)
                (λ h. (
                  (renamed rec held h, left),
                  (
                    renamed_answer subdomain named rec held f h
                        (name_apex-ComesFrom qname subdomain rec (front at_front) h).1,
                    found,
                  ),
                ))
                (λ h. ((at_apex rec held, left), found))))

  find_wildcard-All :
      (recs : List DnsRecord)
      → All IsLeft recs
      → All (IsAnswer Held qtype qname) (find_wildcard qtype qname search_name recs)
  unfolding find_wildcard IsLeft
  find_wildcard-All [] left = tt
  find_wildcard-All (rec ∷ recs) ((source, held, from), left) =
      let ih = find_wildcard-All recs left in
      let P : List DnsRecord → Type 0 = λ r. All (IsAnswer Held qtype qname) r in
      if_case P (not (same_type (get_querytype rec) qtype)) (λ e. ih)
        (λ e.
          let f = same_type-fits qtype rec (ground arith) in
          if_case P (has_domain search_name rec)
            (λ h. (kept_answer rec source held f h (from search_name (end at_end) h).0, ih))
            (λ h.
              if_case P (has_domain (codes "*") rec)
                (λ h. (
                  renamed_answer (codes "*") rec source held f h
                      (from (codes "*") (wildcard refl) h).1,
                  ih,
                ))
                (λ h. ih)))

  pub find_answers-All :
      (recs : List DnsRecord)
      → All Held recs
      → All (IsAnswer Held qtype qname) (find_answers qtype qname search_name subdomain recs)
  unfolding find_answers
  find_answers-All recs held =
      let exact = find_exact qtype qname search_name subdomain recs in
      let (left, found) = find_exact-All recs held in
      if_case (All (IsAnswer Held qtype qname)) (is_empty exact.1)
        (λ e. find_wildcard-All exact.0 left) (λ e. found)
