-- ===== src/P2p/Network/Bans.antt =====
-- A banned address gets no new connection, whatever the network thread meets.
use gis.Base.{ℕ, ◌≤◌, true, List, ◌≡◌, arith, done}
use gis.Bytes.{Text}
use gis.Blockchain.Env.{Env}
use gis.P2p.Addr.{IpAddr, SocketAddr, unmapped}
use gis.P2p.Message.{Codec}
use gis.P2p.Peer.{State, Interest, new_peer}
use gis.P2p.Peers.{Peers, is_ignored, add_peer}
use gis.P2p.Peers.Connect.{Dialing, fresh}
use gis.P2p.Peers.Bans.{
  Shuns, ip_count, ip_count-put_peer, change_peer-Shuns, close_peer-Shuns, close_all_peers-Shuns,
  ignore_peer-Shuns, add_peers_from_exchange-Shuns,
}
use gis.P2p.Peers.Shunned.{
  other_of_free, connect_new_peers-Shuns, connect_peers-Shuns, update-Shuns,
}
use gis.P2p.Network.Loop.{accept, Round, Thread, rounds}
use gis.P2p.Network.Laws.{PeersLaws}
use gis.P2p.Network.Rounds.{rounds-Good}

accept-Shuns :
    (ip : IpAddr) (d : Dialing) (address : SocketAddr) (ps : Peers) (token : ℕ)
    → is_ignored ip ps ≡ true
    → Shuns ip ps (accept d address ps token).0
unfolding accept add_peer new_peer
accept-Shuns ip d address ps token banned =
    let addr = unmapped address in
    record {
      still = ground arith;
      no_more = ground (
        arith,
        other_of_free ip addr.ip ps.ignored banned,
        ip_count-put_peer ip token (new_peer addr (fresh Interest.readable) State.connected true)
            ps.peers,
      );
    }

module _ (ip : IpAddr) (start : Peers) where
  more :
      (ps ps' : Peers)
      → Shuns ip start ps
      → (is_ignored ip ps ≡ true → Shuns ip ps ps')
      → Shuns ip start ps'
  more ps ps' s next =
      let s' = next s.still in
      record { still = s'.still; no_more = omega (arith, s.no_more, s'.no_more) }

  shuns : PeersLaws (Shuns ip start)
  shuns = record {
    changed = λ token f ps mild s. more ps _ s (change_peer-Shuns ip token f ps mild.same_address);
    closed = λ token ps s. more ps _ s (close_peer-Shuns ip token ps);
    all_closed = λ ps s. more ps _ s (close_all_peers-Shuns ip ps);
    shut_out = λ token ps ps' s e. more ps ps' s (λ b. ignore_peer-Shuns ip token ps ps' b e);
    exchanged = λ codec texts ps s. more ps _ s (add_peers_from_exchange-Shuns ip codec texts ps);
    accepted = λ d addr ps token s. more ps _ s (accept-Shuns ip d addr ps token);
    dialed_new = λ d ps token s. more ps _ s (connect_new_peers-Shuns ip d ps token);
    dialed = λ d names ps token s. more ps _ s (connect_peers-Shuns ip d names ps token);
    updated = λ codec d height hash ps s. more ps _ s (update-Shuns ip codec d height hash ps);
  }

-- Whatever the network thread meets in any number of rounds (messages, sockets, accepted
-- connections, addresses from other nodes, timers), an address that is banned stays banned, and
-- there are never more connections with it than at the start.
pub rounds-Shuns :
    (ip : IpAddr) (codec : Codec) (env : Env) (fuel : ℕ) (names : List Text) (rs : List Round)
    (t t' : Thread)
    → is_ignored ip t.node.peers ≡ true
    → rounds codec env fuel names rs t ≡ done t'
    → (is_ignored ip t'.node.peers ≡ true)
      × (ip_count ip t'.node.peers.peers ≤ ip_count ip t.node.peers.peers)
rounds-Shuns ip codec env fuel names rs t t' banned e =
    let s =
      rounds-Good (Shuns ip t.node.peers) (shuns ip t.node.peers) codec env fuel names rs t t'
        (record { still = banned; no_more = omega arith }) e in
    (s.still, s.no_more)
