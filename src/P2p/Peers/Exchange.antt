-- ===== src/P2p/Peers/Exchange.antt =====
-- What a node tells of its peers, and what it takes from others.
use gis.Base.{
  ℕ, suc, ◌≤◌, ◌<◌, true, false, List, [], ◌∷◌, ◌++◌, none, if◌then◌else◌, length, length-append,
  take, take_short, take-append_exact, length-take_le, append_assoc, append-[], All, ◌≡◌, refl, sym,
  ap, ◌∙◌, arith, inl, inr, Bool-cases, Option-cases,
}
use gis.Bytes.{Text}
use gis.P2p.Addr.{IpAddr, SocketAddr, same_ip, has_ip, skip_private_addr}
use gis.P2p.Message.{Codec}
use gis.P2p.Peers.{
  Peers, PeerMap, find_ip, has_new, is_wanted, distinct, take_peer, take_peers,
  add_peers_from_exchange, listens_at, is_shared, exchange_loop, get_peers_for_exchange,
}
use gis.P2p.Peers.Bans.{eq_of_same_ip}

-- Where the peers listen that the asker may know of: those that are neither disabled nor the asker,
-- and that are public and active.
unfoldable pub shared : ℕ → SocketAddr → PeerMap → List SocketAddr
shared now asker [] = []
shared now asker ((t, p) ∷ m) =
    let rest = shared now asker m in
    if is_shared now asker p then listens_at p.addr.ip ∷ rest else rest

exchange_loop-take :
    (now : ℕ) (asker : SocketAddr) (m : PeerMap) (result : List SocketAddr)
    → length result < 10
    → exchange_loop now asker m result ≡ take 10 (result ++ shared now asker m)
unfolding exchange_loop shared
exchange_loop-take now asker [] result h = rw append-[] (sym (take_short 10 result (omega arith)))
exchange_loop-take now asker ((t, p) ∷ m) result h =
    let more = result ++ (listens_at p.addr.ip ∷ []) in
    ground (
      arith,
      exchange_loop-take now asker m result,
      exchange_loop-take now asker m more,
      append_assoc result (listens_at p.addr.ip ∷ []) (shared now asker m),
      take-append_exact 10 more (shared now asker m),
      length-append result (listens_at p.addr.ip ∷ []),
    )

-- The addresses that are told to a peer are the first ten of those where the peers listen that it may
-- know of, so ten at most.
pub get_peers_for_exchange-take :
    (now : ℕ) (asker : SocketAddr) (ps : Peers)
    → (get_peers_for_exchange now asker ps ≡ take 10 (shared now asker ps.peers))
      × (length (get_peers_for_exchange now asker ps) ≤ 10)
unfolding get_peers_for_exchange
get_peers_for_exchange-take now asker ps =
    let same = exchange_loop-take now asker ps.peers [] (omega arith) in
    (same, rw same (length-take_le 10 (shared now asker ps.peers)))

same_ip_sym : (x y : IpAddr) → same_ip x y ≡ false → same_ip y x ≡ false
same_ip_sym x y h = elim (Bool-cases (same_ip y x)) [
  | inr other ↦ other
  | inl same ↦ let e = eq_of_same_ip y x same in absurd (ground (arith, e))
]

has_new-append :
    (ip : IpAddr) (xs : List SocketAddr) (a : SocketAddr)
    → has_new ip (xs ++ (a ∷ [])) ≡ false
    → (has_new ip xs ≡ false) × (same_ip a.ip ip ≡ false)
unfolding has_new
has_new-append ip [] a h = (refl, ground arith)
has_new-append ip (x ∷ xs) a h = ground (arith, has_new-append ip xs a)

-- An address that is worth a try: of no peer, not banned, not private, and not on the list.
pub record IsNew (ps : Peers) (a : SocketAddr) : Type 0 where
  pub no_peer : find_ip a.ip ps.peers ≡ none
  pub not_banned : has_ip a.ip ps.ignored ≡ false
  pub not_private : skip_private_addr a ≡ false
  pub not_listed : has_new a.ip ps.new_peers ≡ false

is_wanted-IsNew : (a : SocketAddr) (ps : Peers) → is_wanted a ps ≡ true → IsNew ps a
unfolding is_wanted
is_wanted-IsNew a ps h = elim (Option-cases (find_ip a.ip ps.peers)) [
  | inl none' ↦ record {
    no_peer = none';
    not_banned = ground arith;
    not_private = ground arith;
    not_listed = ground arith;
  }
  | inr (t, found) ↦ absurd (ground arith)
]

-- No two of the addresses have the same IP.
abbrev pub DistinctIps : List SocketAddr → Type 0
DistinctIps [] = Unit
DistinctIps (a ∷ as') = (has_new a.ip as' ≡ false) × DistinctIps as'

abbrev listed : SocketAddr → Peers → Peers
listed a ps = record ps { new_peers = ps.new_peers ++ (a ∷ []) }

IsNew-listed :
    (ps : Peers) (a b : SocketAddr)
    → IsNew (listed a ps) b
    → IsNew ps b × (same_ip b.ip a.ip ≡ false)
IsNew-listed ps a b n =
    let (others, this) = has_new-append b.ip ps.new_peers a n.not_listed in
    (
      record {
        no_peer = n.no_peer;
        not_banned = n.not_banned;
        not_private = n.not_private;
        not_listed = others;
      },
      same_ip_sym a.ip b.ip this,
    )

AllNew-listed :
    (ps : Peers) (a : SocketAddr) (xs : List SocketAddr)
    → All (IsNew (listed a ps)) xs
    → All (IsNew ps) xs × (has_new a.ip xs ≡ false)
unfolding has_new
AllNew-listed ps a [] h = (tt, refl)
AllNew-listed ps a (x ∷ xs) h =
    let (new, other) = IsNew-listed ps a x h.0 in
    let (rest, others) = AllNew-listed ps a xs h.1 in ((new, rest), rw other others)

-- The list of addresses has grown by new ones, and nothing else has changed.
pub record Learns (ps ps' : Peers) (limit : ℕ) : Type 0 where
  pub extra : List SocketAddr
  pub grown : ps' ≡ record ps { new_peers = ps.new_peers ++ extra }
  pub all_new : All (IsNew ps) extra
  pub all_distinct : DistinctIps extra
  pub few : length extra ≤ limit

Learns-none : (ps : Peers) (limit : ℕ) → Learns ps ps limit
Learns-none ps limit = record {
  extra = [];
  grown = ap (λ l. record ps { new_peers = l }) (sym (append-[] ps.new_peers));
  all_new = tt;
  all_distinct = tt;
  few = omega arith;
}

Learns-one :
    (ps ps' : Peers) (a : SocketAddr) (limit : ℕ)
    → IsNew ps a
    → Learns (listed a ps) ps' limit
    → Learns ps ps' (suc limit)
Learns-one ps ps' a limit new l =
    let (rest, others) = AllNew-listed ps a l.extra l.all_new in
    record {
      extra = a ∷ l.extra;
      grown =
          l.grown
          ∙ ap (λ xs. record ps { new_peers = xs }) (append_assoc ps.new_peers (a ∷ []) l.extra);
      all_new = (new, rest);
      all_distinct = (others, l.all_distinct);
      few = omega (arith, l.few);
    }

Learns-more : (ps ps' : Peers) (limit : ℕ) → Learns ps ps' limit → Learns ps ps' (suc limit)
Learns-more ps ps' limit l = record {
  extra = l.extra;
  grown = l.grown;
  all_new = l.all_new;
  all_distinct = l.all_distinct;
  few = omega (arith, l.few);
}

module _ (codec : Codec) where
  take_peers-Learns :
      (texts : List Text) (ps : Peers) → Learns ps (take_peers codec texts ps) (length texts)
  unfolding take_peers take_peer
  take_peers-Learns [] ps = Learns-none ps 0
  take_peers-Learns (x ∷ xs) ps = elim (Option-cases (codec.parse_addr x)) [
    | inl failed ↦ rw (failed, take_peer) (Learns-more ps _ (length xs) (take_peers-Learns xs ps))
    | inr (a, parsed) ↦ elim (Bool-cases (is_wanted a ps)) [
      | inr known ↦
          rw (parsed, known, take_peer) (Learns-more ps _ (length xs) (take_peers-Learns xs ps))
      | inl wanted ↦
          rw (parsed, wanted, take_peer)
            (Learns-one ps _ a (length xs) (is_wanted-IsNew a ps wanted)
              (take_peers-Learns xs (listed a ps)))
    ]
  ]

  length-distinct : (xs : List Text) → length (distinct xs) ≤ length xs
  unfolding distinct
  length-distinct [] = omega arith
  length-distinct (x ∷ xs) = ground (arith, length-distinct xs)

  -- Whatever another node sends as its peers: only the list of addresses to try grows, at its end, by
  -- no more addresses than were sent; each is of no peer, not banned, not private and not on the list
  -- yet, and no two of them have the same IP.
  pub add_peers_from_exchange-Learns :
      (texts : List Text) (ps : Peers)
      → Learns ps (add_peers_from_exchange codec texts ps) (length texts)
  unfolding add_peers_from_exchange
  add_peers_from_exchange-Learns texts ps =
      let l = take_peers-Learns (distinct texts) ps in
      record {
        extra = l.extra;
        grown = l.grown;
        all_new = l.all_new;
        all_distinct = l.all_distinct;
        few = omega (arith, l.few, length-distinct texts);
      }
