-- ===== src/Dns/Authority/Longest.antt =====
-- What `Authority::query` answers.
use gis.Base.{
  if_case, Bool, true, false, not, List, [], ◌∷◌, Option, none, some, ltb, if◌then◌else◌, length,
  All, ◌≤◌, ◌≡◌, ◌⊎◌, inl, inr, refl, sym, subst, ◌∙◌, arith,
}
use mathlib.Core.List.{Mem, mem-cons_self, mem-cons_of_mem}
use mathlib.Core.Option.{some_inj}
use gis.Bytes.{Text}
use gis.Dns.Protocol.Types.{DnsPacket, QueryType}
use gis.Dns.Protocol.Packet.{ends_with}
use gis.Dns.Authority.{Zone, best_match, longer_zone, query, reply_of}
use gis.Dns.Authority.Answers.{IsZoneReply, zone_packet-zone_answers}

-- No zone but shorter ones is a suffix too.
abbrev pub IsLongest : Text → Zone → List Zone → Type 0
IsLongest qname zone zones =
    (ends_with qname zone.domain ≡ true)
    × All (λ z. ends_with qname z.domain ≡ true → length z.domain ≤ length zone.domain) zones

-- The best match of the zones gone through.
abbrev Matches : Text → Option Zone → Type 0
Matches qname none = Unit {0}
Matches qname (some zone) = ends_with qname zone.domain ≡ true

abbrev AtLeast : Option Zone → Option Zone → Type 0
AtLeast none r = Unit {0}
AtLeast (some b) none = ⊥
AtLeast (some b) (some zone) = length b.domain ≤ length zone.domain

abbrev Covers : Text → Option Zone → Zone → Type 0
Covers qname none z = ends_with qname z.domain ≡ false
Covers qname (some zone) z = ends_with qname z.domain ≡ true → length z.domain ≤ length zone.domain

longer_zone-Matches :
    (qname : Text) (best : Option Zone) (z : Zone)
    → Matches qname best
    → ends_with qname z.domain ≡ true
    → Matches qname (longer_zone best z)
longer_zone-Matches qname none z m e = e
longer_zone-Matches qname (some b) z m e =
    if_case (Matches qname) (ltb (length b.domain) (length z.domain)) (λ _. e) (λ _. m)

AtLeast-longer_zone :
    (best : Option Zone) (z : Zone) (r : Option Zone)
    → AtLeast (longer_zone best z) r
    → AtLeast best r
AtLeast-longer_zone none z r h = tt
AtLeast-longer_zone (some b) z none h =
    if_case (λ x. AtLeast x none → ⊥) (ltb (length b.domain) (length z.domain)) (λ _ h. h)
      (λ _ h. h) h
AtLeast-longer_zone (some b) z (some zone) h =
    if_case (λ x. AtLeast x (some zone) → length b.domain ≤ length zone.domain)
      (ltb (length b.domain) (length z.domain)) (λ l h. ground arith) (λ _ h. h) h

Covers-longer_zone :
    (qname : Text) (best : Option Zone) (z : Zone) (r : Option Zone)
    → AtLeast (longer_zone best z) r
    → Covers qname r z
Covers-longer_zone qname none z none h = absurd h
Covers-longer_zone qname none z (some zone) h = λ _. h
Covers-longer_zone qname (some b) z none h =
    if_case (λ x. AtLeast x none → Covers qname none z) (ltb (length b.domain) (length z.domain))
      (λ _ h. absurd h) (λ _ h. absurd h) h
Covers-longer_zone qname (some b) z (some zone) h = λ _.
    if_case (λ x. AtLeast x (some zone) → length z.domain ≤ length zone.domain)
      (ltb (length b.domain) (length z.domain)) (λ _ h. h) (λ l h. ground arith) h

Covers-other :
    (qname : Text) (z : Zone) (r : Option Zone)
    → ends_with qname z.domain ≡ false
    → Covers qname r z
Covers-other qname z none e = e
Covers-other qname z (some zone) e = λ t. absurd (ground arith)

AtLeast-refl : (r : Option Zone) → AtLeast r r
AtLeast-refl none = tt
AtLeast-refl (some zone) = omega arith

abbrev IsBest : Text → Option Zone → List Zone → Option Zone → Type 0
IsBest qname best zones r = Matches qname r × AtLeast best r × All (Covers qname r) zones

best_match-IsBest :
    (qname : Text) (best : Option Zone) (zones : List Zone)
    → Matches qname best
    → IsBest qname best zones (best_match qname best zones)
unfolding best_match
best_match-IsBest qname best [] m = (m, AtLeast-refl best, tt)
best_match-IsBest qname best (z ∷ zs) m =
    step (λ b. best_match-IsBest qname b zs) (ends_with qname z.domain) refl
  where
    step :
        ((b : Option Zone) → Matches qname b → IsBest qname b zs (best_match qname b zs))
        → (b : Bool) → ends_with qname z.domain ≡ b
        → IsBest qname best
            (z ∷ zs)
            (best_match qname (if not b then best else longer_zone best z) zs)
    step rest false e =
        let (matches, least, covers) = rest best m in
        (matches, least, (Covers-other qname z (best_match qname best zs) e, covers))
    step rest true e =
        let r = best_match qname (longer_zone best z) zs in
        let (matches, least, covers) =
          rest (longer_zone best z) (longer_zone-Matches qname best z m e) in
        (
          matches,
          AtLeast-longer_zone best z r least,
          (Covers-longer_zone qname best z r least, covers),
        )

longer_zone-or :
    (best : Option Zone) (z : Zone) → (longer_zone best z ≡ best) ⊎ (longer_zone best z ≡ some z)
longer_zone-or none z = inr refl
longer_zone-or (some b) z =
    if_case (λ r. (r ≡ some b) ⊎ (r ≡ some z)) (ltb (length b.domain) (length z.domain))
      (λ _. inr refl) (λ _. inl refl)

-- What is found is the match before, or one of the zones.
best_match-Mem :
    (qname : Text) (best : Option Zone) (zones : List Zone)
    → (best_match qname best zones ≡ best)
      ⊎ ((z : Zone) × (best_match qname best zones ≡ some z) × Mem z zones)
unfolding best_match
best_match-Mem qname best [] = inl refl
best_match-Mem qname best (z ∷ zs) =
    let b = if not (ends_with qname z.domain) then best else longer_zone best z in
    let next : (b ≡ best) ⊎ (b ≡ some z) =
      if_case (λ r. (r ≡ best) ⊎ (r ≡ some z)) (not (ends_with qname z.domain)) (λ _. inl refl)
        (λ _. longer_zone-or best z) in
    elim (best_match-Mem qname b zs) [
      | inl same ↦ elim next [
        | inl old ↦ inl (same ∙ old)
        | inr new ↦ inr (z, same ∙ new, mem-cons_self)
      ]
      | inr (y, e, m) ↦ inr (y, e, mem-cons_of_mem z m)
    ]

-- What `query` may answer.
pub IsRight : Text → QueryType → List Zone → Option DnsPacket → Type 0
IsRight qname qtype zones none = All (λ z. ends_with qname z.domain ≡ false) zones
IsRight qname qtype zones (some p) =
    (zone : Zone) × Mem zone zones × IsLongest qname zone zones × IsZoneReply qname qtype zone p

-- The authority answers exactly the names that end in the domain of one of its zones. The answer is
-- of one of the zones with the longest such domain: all of its records, in their order, of the name
-- that is asked for and of the type, or CNAMEs where an A record is asked for; or, where there are
-- none, NXDOMAIN with the SOA record of that zone.
pub query-IsRight :
    (qname : Text) (qtype : QueryType) (zones : List Zone)
    → IsRight qname qtype zones (query qname qtype zones)
unfolding query IsRight
query-IsRight qname qtype zones =
    go (best_match qname none zones) (best_match-IsBest qname none zones tt)
      (best_match-Mem qname none zones)
  where
    go :
        (r : Option Zone)
        → IsBest qname none zones r
        → (r ≡ none) ⊎ ((z : Zone) × (r ≡ some z) × Mem z zones)
        → IsRight qname qtype zones (reply_of qtype qname r)
    go none (_, _, covers) from = covers
    go (some zone) (matches, _, covers) (inl missing) = absurd (ground arith)
    go (some zone) (matches, _, covers) (inr (z, same, member)) = (
      zone,
      subst (λ x. Mem x zones) (some_inj.0 (sym same)) member,
      (matches, covers),
      zone_packet-zone_answers qname qtype zone,
    )
