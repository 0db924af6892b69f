-- ===== src/P2p/Network/Sync.antt =====
-- How a node that is behind asks for blocks, and how it stops to.
use gis.Base.{
  ℕ, zero, suc, ◌%◌, ◌<◌, Bool, true, false, List, [], ◌∷◌, ◌++◌, none, some, ◌==◌, if◌then◌else◌,
  length, get_elem?, ◌≡◌, refl, ap, subst, ◌∙◌, arith, inl, inr, Bool-cases, Option-cases, add64,
}
use native.Mathlib.Nat.{mod-lt}
use gis.Bytes.{Bytes, Text}
use gis.P2p.Message.{Message, Codec}
use gis.P2p.Peer.{Peer, State, reregister, Interest, state_message, is_idle, has_more_blocks}
use gis.P2p.Peers.{Peers, PeerMap, find_peer, change_peer, with_peers, get_peers_active_count}
use gis.P2p.Peers.Update.{
  Draws, ask, choose, candidates, is_due, ping_idle, ask_higher, ping_behind, need_behind_ping,
  is_behind, ping_message, update, ignore_ips, offline_ips, drop_offline, reconnect_first,
}
use gis.P2p.Network.Context.{Context}
use gis.P2p.Network.Blocks.{Node}
use gis.P2p.Network.Handle.{set_peers}
use gis.P2p.Network.Stream.{frame}
use gis.P2p.Network.Loop.{written, on_writable}
use gis.P2p.Network.Online.{
  AllOnline, ping_idle-AllOnline, ask_higher-AllOnline, ping_behind-AllOnline, last_stages_online,
}

-- Every token stands for one peer.
abbrev pub DistinctTokens : PeerMap → Type 0
DistinctTokens [] = Unit
DistinctTokens ((t, p) ∷ m) = (find_peer t m ≡ none) × DistinctTokens m

find_peer-change_peer :
    (t token : ℕ) (f : Peer → Peer) (m : PeerMap)
    → find_peer t (change_peer token f m)
      ≡ elim (find_peer t m) [ none ↦ none | some p ↦ if t == token then some (f p) else some p ]
unfolding find_peer change_peer
find_peer-change_peer t token f [] = refl
find_peer-change_peer t token f ((u, p) ∷ m) = ground (arith, find_peer-change_peer t token f m)

get_elem?_total : (xs : List ℕ) (i : ℕ) → i < length xs → (t : ℕ) × (get_elem? xs i ≡ some t)
get_elem?_total [] i h = absurd (omega arith)
get_elem?_total (x ∷ xs) zero h = (x, refl)
get_elem?_total (x ∷ xs) (suc i) h = get_elem?_total xs i (omega arith)

-- Something is chosen of a list that is not empty, and what is chosen is in it.
choose_total : (choice x : ℕ) (xs : List ℕ) → (t : ℕ) × (choose choice (x ∷ xs) ≡ some t)
unfolding choose
choose_total choice x xs =
    get_elem?_total (x ∷ xs) (choice % length (x ∷ xs)) (mod-lt choice (omega arith))

choose_elem :
    (choice t : ℕ) (xs : List ℕ)
    → choose choice xs ≡ some t
    → get_elem? xs (choice % length xs) ≡ some t
unfolding choose
choose_elem choice t [] h = cc
choose_elem choice t (x ∷ xs) h = h

candidates-elem :
    (test : Peer → Bool) (m : PeerMap) (i t : ℕ)
    → DistinctTokens m
    → get_elem? (candidates test m) i ≡ some t
    → (p : Peer) × (find_peer t m ≡ some p) × (test p ≡ true)
unfolding candidates find_peer
candidates-elem test [] i t d h = absurd (cc)
candidates-elem test ((u, p) ∷ m) i t d h = elim (Bool-cases (test p)) [
  | inr fails ↦
      let (q, found, holds) = candidates-elem test m i t d.1 (ground arith) in
      (q, ground arith, holds)
  | inl passes ↦ first (λ j e. candidates-elem test m j t d.1 e) i passes (ground arith)
]
  where
    first :
        ((j : ℕ)
          → get_elem? (candidates test m) j ≡ some t
          → (q : Peer) × (find_peer t m ≡ some q) × (test q ≡ true))
        → (i : ℕ) → test p ≡ true
        → get_elem? (u ∷ candidates test m) i ≡ some t
        → (q : Peer) × (find_peer t ((u, p) ∷ m) ≡ some q) × (test q ≡ true)
    first rest zero passes h = (p, ground arith, passes)
    first rest (suc i) passes h = let (q, found, holds) = rest i h in (q, ground arith, holds)

candidates-some :
    (test : Peer → Bool) (m : PeerMap) (t : ℕ) (p : Peer)
    → find_peer t m ≡ some p
    → test p ≡ true
    → (x : ℕ) × ((xs : List ℕ) × (candidates test m ≡ x ∷ xs))
unfolding candidates find_peer
candidates-some test [] t p found holds = absurd (cc)
candidates-some test ((u, q) ∷ m) t p found holds = elim (Bool-cases (test q)) [
  | inl passes ↦ (u, (candidates test m, ground arith))
  | inr fails ↦
      let (x, (xs, e)) = candidates-some test m t p (ground arith) holds in (x, (xs, ground arith))
]

-- A candidate that passes the test is chosen, if there is one.
chosen :
    (choice : ℕ) (test : Peer → Bool) (m : PeerMap) (t : ℕ) (p : Peer)
    → DistinctTokens m
    → find_peer t m ≡ some p
    → test p ≡ true
    → (u : ℕ) × (choose choice (candidates test m) ≡ some u)
      × ((q : Peer) × (find_peer u m ≡ some q) × (test q ≡ true))
chosen choice test m t p d found holds =
    let (x, (xs, some')) = candidates-some test m t p found holds in
    let (u, picked) = choose_total choice x xs in
    let picked' : choose choice (candidates test m) ≡ some u = rw some' picked in
    (u, picked', candidates-elem test m _ u d (choose_elem choice u (candidates test m) picked'))

change_peer-DistinctTokens :
    (token : ℕ) (f : Peer → Peer) (m : PeerMap)
    → DistinctTokens m
    → DistinctTokens (change_peer token f m)
unfolding change_peer
change_peer-DistinctTokens token f [] d = tt
change_peer-DistinctTokens token f ((u, p) ∷ m) d =
    ground (arith, find_peer-change_peer u token f m, change_peer-DistinctTokens token f m d.1)

module _ (codec : Codec) (d : Draws) (height : ℕ) (hash : Bytes) where
  find_peer-ping_idle :
      (t nodes : ℕ) (m : PeerMap)
      → find_peer t (ping_idle codec d height hash nodes m) ≡ elim (find_peer t m) [
        | none ↦ none
        | some p ↦ some (
            if is_due codec d height hash p.state
            then ask codec (ping_message codec d height hash nodes t) p
            else p)
      ]
  unfolding find_peer ping_idle
  find_peer-ping_idle t nodes [] = refl
  find_peer-ping_idle t nodes ((u, p) ∷ m) = ground (arith, find_peer-ping_idle t nodes m)

  ping_idle-DistinctTokens :
      (nodes : ℕ) (m : PeerMap)
      → DistinctTokens m
      → DistinctTokens (ping_idle codec d height hash nodes m)
  unfolding ping_idle
  ping_idle-DistinctTokens nodes [] h = tt
  ping_idle-DistinctTokens nodes ((u, p) ∷ m) h =
      (ground (arith, find_peer-ping_idle u nodes m), ping_idle-DistinctTokens nodes m h.1)

  -- The socket of the peer waits to be written, and what goes out asks for the next block.
  abbrev pub Requests : Peer → Type 0
  Requests p =
      (p.state ≡ state_message codec (Message.get_block (add64 height 1)))
      × (p.stream.interest ≡ Interest.writable)

  -- The ping for those behind goes to an idle peer, so not to one that is asked for a block.
  find_peer-ping_behind :
      (ps : Peers) (t : ℕ) (p : Peer)
      → DistinctTokens ps.peers
      → find_peer t ps.peers ≡ some p
      → is_idle p.state ≡ false
      → find_peer t (ping_behind codec d height hash ps).peers ≡ some p
  unfolding ping_behind
  find_peer-ping_behind ps t p distinct found busy = elim (Bool-cases (need_behind_ping d.utc ps)) [
    | inr soon ↦ rw (soon, ping_behind) found
    | inl due ↦
        elim (Option-cases (choose d.choice_behind (candidates (is_behind height) ps.peers))) [
          | inl no_one ↦ rw (due, no_one, ping_behind) found
          | inr (u, picked) ↦
              let (q, at, idle) =
                candidates-elem (is_behind height) ps.peers _ u distinct
                  (choose_elem d.choice_behind u (candidates (is_behind height) ps.peers) picked) in
              rw (due, picked, ping_behind)
                (ground (
                  arith,
                  find_peer-change_peer t u (ask codec (Message.ping height hash)) ps.peers,
                  idle,
                  at,
                ))
        ]
  ]

  -- The stages of `update` behind the request leave it.
  later_stages :
      (ps : Peers) (t : ℕ) (p : Peer)
      → DistinctTokens ps.peers
      → AllOnline ps.peers
      → find_peer t ps.peers ≡ some p
      → is_idle p.state ≡ false
      → let ps2 = ping_behind codec d height hash ps in
        let ps3 =
          ignore_ips
            (offline_ips d.time ps2.peers)
            (with_peers (drop_offline d.time ps2.peers) ps2) in
        find_peer t (reconnect_first d ps3.peers) ≡ some p
  later_stages ps t p distinct on found busy =
      let ps2 = ping_behind codec d height hash ps in
      ap (λ qs. find_peer t qs.peers)
        (last_stages_online d ps2 (ping_behind-AllOnline codec d height hash ps on))
      ∙ find_peer-ping_behind ps t p distinct found busy

  abbrev request : Peer → Peer
  request = ask codec (Message.get_block (add64 height 1))

  -- The stage that asks, on a map where a peer has more blocks.
  asks :
      (m : PeerMap) (token : ℕ) (peer : Peer)
      → DistinctTokens m
      → find_peer token m ≡ some peer
      → has_more_blocks height peer ≡ true
      → (t : ℕ) × ((q : Peer) × (ask_higher codec d height hash m ≡ change_peer t request m)
          × (find_peer t (change_peer t request m) ≡ some (request q)))
  unfolding ask_higher
  asks m token peer distinct found more =
      let (t, picked, (q, at, higher)) =
        chosen d.choice_higher (has_more_blocks height) m token peer distinct found more in
      (t, (q, rw (picked, ask_higher), ground (arith, find_peer-change_peer t t request m)))

  requested :
      (ps : Peers) (m : PeerMap) (token : ℕ) (peer : Peer)
      → DistinctTokens m
      → AllOnline m
      → find_peer token m ≡ some peer
      → has_more_blocks height peer ≡ true
      → let ps1 = with_peers (ask_higher codec d height hash m) ps in
        let ps2 = ping_behind codec d height hash ps1 in
        let ps3 =
          ignore_ips
            (offline_ips d.time ps2.peers)
            (with_peers (drop_offline d.time ps2.peers) ps2) in
        (t : ℕ) × ((p : Peer) × (find_peer t (reconnect_first d ps3.peers) ≡ some p) × Requests p)
  requested ps m token peer distinct on found more =
      let (t, (q, asked, at)) = asks m token peer distinct found more in
      let on1 = subst AllOnline asked (ask_higher-AllOnline codec d height hash m on) in
      let found' =
        later_stages (with_peers (change_peer t request m) ps) t (request q)
          (change_peer-DistinctTokens t request m distinct) on1 at refl in
      (t, (request q, rw asked found', (refl, refl)))

  written_message :
      (now : ℕ) (my_id : Text) (x : Context) (content : Bytes) (p : Peer)
      → (written codec now my_id x (State.message content) p).stream.sent
        ≡ p.stream.sent ++ frame content
  unfolding written
  written_message now my_id x content p = refl

  -- A peer that is asked for the next block is sent the request when its socket can be written.
  Requests-sent :
      (now t : ℕ) (p : Peer) (n : Node)
      → find_peer t n.peers.peers ≡ some p
      → Requests p
      → (q : Peer) × (find_peer t (on_writable codec now t n).peers.peers ≡ some q)
        × (q.stream.sent
            ≡ p.stream.sent ++ frame (codec.message_json (Message.get_block (add64 height 1))))
  unfolding on_writable
  Requests-sent now t p n found (state, _) =
      let f : Peer → Peer =
        λ r. reregister Interest.readable (written codec now n.peers.my_id n.context r.state r) in
      let m = Message.get_block (add64 height 1) in
      (
        f p,
        ground (arith, find_peer-change_peer t t f n.peers.peers),
        ap (λ st. (written codec now n.peers.my_id n.context st p).stream.sent) {x = p.state}
              {y = state_message codec m} state
            ∙ written_message now n.peers.my_id n.context (codec.message_json m) p,
      )

  -- With distinct tokens and no peer offline, an idle peer that is higher, that has sent no block above
  -- the height, and that is not due for a ping: then `update` asks a peer for the next block, its
  -- socket waits to be written, and if it can be written next, what it is sent is that request.
  pub update-Requests :
      (ps : Peers) (token now : ℕ) (peer : Peer) (n : Node)
      → DistinctTokens ps.peers
      → AllOnline ps.peers
      → find_peer token ps.peers ≡ some peer
      → has_more_blocks height peer ≡ true
      → is_due codec d height hash peer.state ≡ false
      → (t : ℕ) × (p : Peer) × (find_peer t (update codec d height hash ps).peers ≡ some p)
        × Requests p
        × ((q : Peer) × (find_peer t
                (on_writable codec now t (set_peers (update codec d height hash ps) n)).peers.peers
              ≡ some q)
            × (q.stream.sent
                ≡ p.stream.sent ++ frame (codec.message_json (Message.get_block (add64 height 1)))))
  unfolding update
  update-Requests ps token now peer n distinct on found more early =
      let nodes = get_peers_active_count ps in
      let m = ping_idle codec d height hash nodes ps.peers in
      let found' : find_peer token m ≡ some peer =
        ground (arith, find_peer-ping_idle token nodes ps.peers) in
      let (t, (p, at, asked)) =
        requested ps m token peer (ping_idle-DistinctTokens nodes ps.peers distinct)
          (ping_idle-AllOnline codec d height hash nodes ps.peers on) found' more in
      (
        t,
        p,
        at,
        asked,
        Requests-sent now t p (set_peers (update codec d height hash ps) n) at asked,
      )
