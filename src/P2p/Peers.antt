-- ===== src/P2p/Peers.antt =====
-- src/p2p/peers.rs: the peers by token, the addresses to try and the banned ones. The map of the
-- peers is a list in the order in which it is gone through, which is any order.
pub mod Update
pub mod Connect
pub mod Bans
pub mod Shunned
pub mod Exchange
use gis.Base.{
  ℕ, ◌+◌, Bool, true, false, ◌&&◌, ◌||◌, not, List, [], ◌∷◌, ◌++◌, Option, none, some, ltb, leb,
  ◌==◌, if◌then◌else◌, length, Outcome, done, ◌>>=◌, unwrap,
}
use gis.Bytes.{Text, same_hash}
use gis.Blockchain.Types.{is_some}
use gis.Blockchain.Chain.State.{contains}
use gis.P2p.Addr.{IpAddr, SocketAddr, same_ip, has_ip, insert_ip, skip_private_addr}
use gis.P2p.Message.{Codec}
use gis.P2p.Peer.{Peer, State, set_state, is_loop, disabled, equals}

abbrev pub PeerMap : Type 0
PeerMap = List (ℕ × Peer)

-- The time of the last ping is an `i64`.
pub record Peers : Type 0 where
  pub peers : PeerMap
  pub new_peers : List SocketAddr
  pub ignored : List IpAddr
  pub my_id : Text
  pub behind_ping_sent_time : ℕ

abbrev pub with_peers : PeerMap → Peers → Peers
with_peers m ps = record ps { peers = m }

unfoldable pub find_peer : ℕ → PeerMap → Option Peer
find_peer token [] = none
find_peer token ((t, p) ∷ m) = if t == token then some p else find_peer token m

unfoldable pub put_peer : ℕ → Peer → PeerMap → PeerMap
put_peer token peer [] = (token, peer) ∷ []
put_peer token peer ((t, p) ∷ m) =
    if t == token then (t, peer) ∷ m else (t, p) ∷ put_peer token peer m

unfoldable pub remove_peer : ℕ → PeerMap → PeerMap
remove_peer token [] = []
remove_peer token ((t, p) ∷ m) = if t == token then m else (t, p) ∷ remove_peer token m

-- A change of the peer that `get_mut_peer` gives.
unfoldable pub change_peer : ℕ → (Peer → Peer) → PeerMap → PeerMap
change_peer token f [] = []
change_peer token f ((t, p) ∷ m) =
    if t == token then (t, f p) ∷ m else (t, p) ∷ change_peer token f m

unfoldable pub add_peer : ℕ → Peer → Peers → Peers
add_peer token peer ps = with_peers (put_peer token peer ps.peers) ps

abbrev pub get_peer : ℕ → Peers → Option Peer
get_peer token ps = find_peer token ps.peers

abbrev pub modify_peer : ℕ → (Peer → Peer) → Peers → Peers
modify_peer token f ps = with_peers (change_peer token f ps.peers) ps

unfoldable pub ignore_ip : IpAddr → Peers → Peers
ignore_ip ip ps = record ps { ignored = insert_ip ip ps.ignored }

abbrev pub is_banned : State → Bool
is_banned State.banned = true
is_banned _ = false

abbrev pub ignore_if : Bool → IpAddr → Peers → Peers
ignore_if b ip ps = if b then ignore_ip ip ps else ps

abbrev pub drop_peer : ℕ → Peers → Peers
drop_peer token ps = with_peers (remove_peer token ps.peers) ps

unfoldable pub close_found : ℕ → Option Peer → Peers → Peers
close_found token none ps = ps
close_found token (some peer) ps =
    drop_peer token (ignore_if (is_banned peer.state) peer.addr.ip ps)

unfoldable pub close_peer : ℕ → Peers → Peers
close_peer token ps = close_found token (get_peer token ps) ps

unfoldable pub close_peers : PeerMap → Peers → Peers
close_peers [] ps = ps
close_peers ((t, p) ∷ m) ps = close_peers m (close_peer t ps)

unfoldable pub close_all_peers : Peers → Peers
close_all_peers ps = with_peers [] (close_peers ps.peers ps)

unfoldable pub find_ip : IpAddr → PeerMap → Option ℕ
find_ip ip [] = none
find_ip ip ((t, p) ∷ m) = if same_ip p.addr.ip ip then some t else find_ip ip m

-- The last part of `ignore_peer`: one more peer of the address goes.
unfoldable pub close_other : Option ℕ → Peers → Peers
close_other none ps = ps
close_other (some t) ps = drop_peer t (close_peer t ps)

abbrev pub mark_banned : Bool → ℕ → Peers → Peers
mark_banned looped token ps = if looped then ps else modify_peer token (set_state State.banned) ps

unfoldable pub ignore_found : ℕ → Peer → Peers → Peers
ignore_found token peer ps =
    let ps' =
      ignore_ip peer.addr.ip (close_peer token (mark_banned (is_loop peer.state) token ps)) in
    close_other (find_ip peer.addr.ip ps'.peers) ps'

-- The peer is closed as a banned one, unless it is a loop, and one more peer of its address with it.
unfoldable pub ignore_peer : ℕ → Peers → Outcome Peers
ignore_peer token ps = do peer ← unwrap (get_peer token ps); done (ignore_found token peer ps)

unfoldable pub active_count : PeerMap → ℕ
active_count [] = 0
active_count ((t, p) ∷ m) = (if p.active then 1 else 0) + active_count m

abbrev pub get_peers_active_count : Peers → ℕ
get_peers_active_count ps = active_count ps.peers

abbrev pub get_peers_banned_count : Peers → ℕ
get_peers_banned_count ps = length ps.ignored

abbrev pub is_our_own_connect : Text → Peers → Bool
is_our_own_connect rand ps = same_hash ps.my_id rand

abbrev pub is_ignored : IpAddr → Peers → Bool
is_ignored ip ps = has_ip ip ps.ignored

unfoldable pub has_new : IpAddr → List SocketAddr → Bool
has_new ip [] = false
has_new ip (a ∷ as') = if same_ip a.ip ip then true else has_new ip as'

-- An address from another node that is worth a try.
unfoldable pub is_wanted : SocketAddr → Peers → Bool
is_wanted addr ps =
    if is_some (find_ip addr.ip ps.peers)
    then false
    else if has_new addr.ip ps.new_peers
    then false
    else if has_ip addr.ip ps.ignored
    then false
    else not (skip_private_addr addr)

-- The `HashSet` of the texts, in the order of its `iter`.
unfoldable pub distinct : List Text → List Text
distinct [] = []
distinct (x ∷ xs) = let rest = distinct xs in if contains x rest then rest else x ∷ rest

module _ (codec : Codec) where
  unfoldable pub take_peer : Text → Peers → Peers
  take_peer text ps = elim (codec.parse_addr text) [
    | none ↦ ps
    | some addr ↦
        if is_wanted addr ps then record ps { new_peers = ps.new_peers ++ (addr ∷ []) } else ps
  ]

  unfoldable pub take_peers : List Text → Peers → Peers
  take_peers [] ps = ps
  take_peers (x ∷ xs) ps = take_peers xs (take_peer x ps)

  unfoldable pub add_peers_from_exchange : List Text → Peers → Peers
  add_peers_from_exchange peers ps = take_peers (distinct peers) ps

abbrev pub listen_port : ℕ
listen_port = 46866

abbrev pub listens_at : IpAddr → SocketAddr
listens_at ip = record { ip = ip; port = listen_port; flowinfo = 0; scope_id = 0 }

-- Whether `get_peers_for_exchange` tells the asker of this peer.
abbrev pub is_shared : ℕ → SocketAddr → Peer → Bool
is_shared now asker p =
    if disabled now p then false else if equals p asker then false else p.public && p.active

-- The loop of `get_peers_for_exchange`: the result is measured behind a peer that is not skipped.
unfoldable pub exchange_loop : ℕ → SocketAddr → PeerMap → List SocketAddr → List SocketAddr
exchange_loop now asker [] result = result
exchange_loop now asker ((t, p) ∷ m) result = elim (disabled now p) [
  | true ↦ exchange_loop now asker m result
  | false ↦ elim (equals p asker) [
    | true ↦ exchange_loop now asker m result
    | false ↦
        let result' =
          if p.public && p.active then result ++ (listens_at p.addr.ip ∷ []) else result in
        elim (leb 10 (length result')) [
          | true ↦ result'
          | false ↦ exchange_loop now asker m result'
        ]
  ]
]

unfoldable pub get_peers_for_exchange : ℕ → SocketAddr → Peers → List SocketAddr
get_peers_for_exchange now asker ps = exchange_loop now asker ps.peers []

unfoldable pub blocks_connection : ℕ → SocketAddr → PeerMap → Bool
blocks_connection now addr [] = false
blocks_connection now addr ((t, p) ∷ m) =
    if equals p addr && (not p.public || (p.active || disabled now p))
    then true
    else blocks_connection now addr m

abbrev pub skip_peer_connection : ℕ → SocketAddr → Peers → Bool
skip_peer_connection now addr ps = blocks_connection now addr ps.peers
