-- ===== src/P2p/Peers/Bans.antt =====
-- Banned addresses: what each operation of `Peers` leaves of them.
use gis.Base.{
  ℕ, ◌+◌, ◌≤◌, Bool, true, false, List, [], ◌∷◌, Option, none, some, if◌then◌else◌, ◌≡◌, refl,
  arith, done, subst, unwrap, >>=-eq-done, done_injective,
}
use gis.Bytes.{Text}
use gis.P2p.Addr.{IpAddr, same_ip, has_ip, insert_ip}
use gis.P2p.Message.{Codec}
use gis.P2p.Peer.{Peer, State, set_state, is_loop}
use gis.P2p.Peers.{
  Peers, PeerMap, with_peers, find_peer, put_peer, remove_peer, change_peer, add_peer, ignore_ip,
  close_peer, close_peers, close_all_peers, find_ip, drop_peer, ignore_if, close_found, close_other,
  mark_banned, ignore_found, is_banned, ignore_peer, is_ignored, take_peer, take_peers,
  add_peers_from_exchange, distinct,
}

-- How many peers have the address.
unfoldable pub ip_count : IpAddr → PeerMap → ℕ
ip_count ip [] = 0
ip_count ip ((t, p) ∷ m) = (if same_ip p.addr.ip ip then 1 else 0) + ip_count ip m

-- The address is still banned, and no connection with it is new.
pub record Shuns (ip : IpAddr) (before after : Peers) : Type 0 where
  pub still : is_ignored ip after ≡ true
  pub no_more : ip_count ip after.peers ≤ ip_count ip before.peers

pub Shuns-trans :
    (ip : IpAddr) (a b c : Peers)
    → (is_ignored ip a ≡ true → Shuns ip a b)
    → (is_ignored ip b ≡ true → Shuns ip b c)
    → is_ignored ip a ≡ true
    → Shuns ip a c
Shuns-trans ip a b c f g h =
    let ab = f h in
    let bc = g ab.still in
    record { still = bc.still; no_more = omega (arith, ab.no_more, bc.no_more) }

pub eq_of_same_ip : (x y : IpAddr) → same_ip x y ≡ true → x ≡ y
unfolding same_ip
eq_of_same_ip (IpAddr.v4 x) (IpAddr.v4 y) h = ground arith
eq_of_same_ip (IpAddr.v6 x) (IpAddr.v6 y) h = ground arith
eq_of_same_ip (IpAddr.v4 x) (IpAddr.v6 y) h = cc
eq_of_same_ip (IpAddr.v6 x) (IpAddr.v4 y) h = cc

module _ (ip : IpAddr) where
  has_ip-insert_ip :
      (x : IpAddr) (xs : List IpAddr) → has_ip ip xs ≡ true → has_ip ip (insert_ip x xs) ≡ true
  unfolding insert_ip has_ip
  has_ip-insert_ip x xs h = ground arith

  pub ip_count-put_peer :
      (token : ℕ) (p : Peer) (m : PeerMap)
      → same_ip p.addr.ip ip ≡ false
      → ip_count ip (put_peer token p m) ≤ ip_count ip m
  unfolding ip_count put_peer
  ip_count-put_peer token p [] h = ground arith
  ip_count-put_peer token p ((t, x) ∷ m) h = ground (arith, ip_count-put_peer token p m h)

  ip_count-remove_peer :
      (token : ℕ) (m : PeerMap) → ip_count ip (remove_peer token m) ≤ ip_count ip m
  unfolding ip_count remove_peer
  ip_count-remove_peer token [] = omega arith
  ip_count-remove_peer token ((t, x) ∷ m) = ground (arith, ip_count-remove_peer token m)

  pub ip_count-change_peer :
      (token : ℕ) (f : Peer → Peer) (m : PeerMap)
      → ((p : Peer) → (f p).addr ≡ p.addr)
      → ip_count ip (change_peer token f m) ≡ ip_count ip m
  unfolding ip_count change_peer
  ip_count-change_peer token f [] h = refl
  ip_count-change_peer token f ((t, x) ∷ m) h =
      ground (arith, ip_count-change_peer token f m h, h x)

  pub change_peer-Shuns :
      (token : ℕ) (f : Peer → Peer) (ps : Peers)
      → ((p : Peer) → (f p).addr ≡ p.addr)
      → is_ignored ip ps ≡ true
      → Shuns ip ps (with_peers (change_peer token f ps.peers) ps)
  change_peer-Shuns token f ps h banned = record {
    still = banned;
    no_more = omega (arith, ip_count-change_peer token f ps.peers h);
  }

  pub add_peer-Shuns :
      (token : ℕ) (p : Peer) (ps : Peers)
      → same_ip p.addr.ip ip ≡ false
      → is_ignored ip ps ≡ true
      → Shuns ip ps (add_peer token p ps)
  unfolding add_peer
  add_peer-Shuns token p ps other banned = record {
    still = banned;
    no_more = ip_count-put_peer token p ps.peers other;
  }

  pub ignore_ip-Shuns :
      (x : IpAddr) (ps : Peers) → is_ignored ip ps ≡ true → Shuns ip ps (ignore_ip x ps)
  unfolding ignore_ip
  ignore_ip-Shuns x ps banned = record {
    still = has_ip-insert_ip x ps.ignored banned;
    no_more = omega arith;
  }

  drop_peer-Shuns :
      (token : ℕ) (ps : Peers) → is_ignored ip ps ≡ true → Shuns ip ps (drop_peer token ps)
  drop_peer-Shuns token ps banned = record {
    still = banned;
    no_more = ip_count-remove_peer token ps.peers;
  }

  ignore_if-Shuns :
      (b : Bool) (x : IpAddr) (ps : Peers)
      → is_ignored ip ps ≡ true
      → Shuns ip ps (ignore_if b x ps)
  ignore_if-Shuns true x ps banned = ignore_ip-Shuns x ps banned
  ignore_if-Shuns false x ps banned = record { still = banned; no_more = omega arith }

  close_found-Shuns :
      (token : ℕ) (found : Option Peer) (ps : Peers)
      → is_ignored ip ps ≡ true
      → Shuns ip ps (close_found token found ps)
  unfolding close_found
  close_found-Shuns token none ps banned = record { still = banned; no_more = omega arith }
  close_found-Shuns token (some p) ps banned =
      Shuns-trans ip ps _ _ (ignore_if-Shuns (is_banned p.state) p.addr.ip ps)
        (drop_peer-Shuns token (ignore_if (is_banned p.state) p.addr.ip ps)) banned

  pub close_peer-Shuns :
      (token : ℕ) (ps : Peers) → is_ignored ip ps ≡ true → Shuns ip ps (close_peer token ps)
  unfolding close_peer
  close_peer-Shuns token ps banned = close_found-Shuns token (find_peer token ps.peers) ps banned

  close_peers-Shuns :
      (m : PeerMap) (ps : Peers) → is_ignored ip ps ≡ true → Shuns ip ps (close_peers m ps)
  unfolding close_peers
  close_peers-Shuns [] ps banned = record { still = banned; no_more = omega arith }
  close_peers-Shuns ((t, p) ∷ m) ps banned =
      Shuns-trans ip ps (close_peer t ps) _ (close_peer-Shuns t ps)
        (close_peers-Shuns m (close_peer t ps)) banned

  pub close_all_peers-Shuns :
      (ps : Peers) → is_ignored ip ps ≡ true → Shuns ip ps (close_all_peers ps)
  unfolding close_all_peers ip_count
  close_all_peers-Shuns ps banned = record {
    still = (close_peers-Shuns ps.peers ps banned).still;
    no_more = omega arith;
  }

  take_peer-Shuns :
      (codec : Codec) (text : Text) (ps : Peers)
      → is_ignored ip ps ≡ true
      → Shuns ip ps (take_peer codec text ps)
  unfolding take_peer
  take_peer-Shuns codec text ps banned = record { still = ground arith; no_more = ground arith }

  pub take_peers-Shuns :
      (codec : Codec) (texts : List Text) (ps : Peers)
      → is_ignored ip ps ≡ true
      → Shuns ip ps (take_peers codec texts ps)
  unfolding take_peers
  take_peers-Shuns codec [] ps banned = record { still = banned; no_more = omega arith }
  take_peers-Shuns codec (x ∷ xs) ps banned =
      Shuns-trans ip ps (take_peer codec x ps) _ (take_peer-Shuns codec x ps)
        (take_peers-Shuns codec xs (take_peer codec x ps)) banned

  pub add_peers_from_exchange-Shuns :
      (codec : Codec) (texts : List Text) (ps : Peers)
      → is_ignored ip ps ≡ true
      → Shuns ip ps (add_peers_from_exchange codec texts ps)
  unfolding add_peers_from_exchange
  add_peers_from_exchange-Shuns codec texts ps = take_peers-Shuns codec (distinct texts) ps

  close_other-Shuns :
      (found : Option ℕ) (ps : Peers) → is_ignored ip ps ≡ true → Shuns ip ps (close_other found ps)
  unfolding close_other
  close_other-Shuns none ps banned = record { still = banned; no_more = omega arith }
  close_other-Shuns (some t) ps banned =
      Shuns-trans ip ps (close_peer t ps) _ (close_peer-Shuns t ps)
        (drop_peer-Shuns t (close_peer t ps)) banned

  mark_banned-Shuns :
      (b : Bool) (token : ℕ) (ps : Peers)
      → is_ignored ip ps ≡ true
      → Shuns ip ps (mark_banned b token ps)
  mark_banned-Shuns true token ps banned = record { still = banned; no_more = omega arith }
  mark_banned-Shuns false token ps banned =
      change_peer-Shuns token (set_state State.banned) ps (λ p. refl) banned

  ignore_found-Shuns :
      (token : ℕ) (p : Peer) (ps : Peers)
      → is_ignored ip ps ≡ true
      → Shuns ip ps (ignore_found token p ps)
  unfolding ignore_found
  ignore_found-Shuns token p ps =
      let marked = mark_banned (is_loop p.state) token ps in
      let closed = close_peer token marked in
      let shut = ignore_ip p.addr.ip closed in
      Shuns-trans ip ps marked _ (mark_banned-Shuns (is_loop p.state) token ps) (
        Shuns-trans ip marked closed _ (close_peer-Shuns token marked) (
          Shuns-trans ip closed shut _ (ignore_ip-Shuns p.addr.ip closed)
            (close_other-Shuns (find_ip p.addr.ip shut.peers) shut)))

  pub ignore_peer-Shuns :
      (token : ℕ) (ps ps' : Peers)
      → is_ignored ip ps ≡ true
      → ignore_peer token ps ≡ done ps'
      → Shuns ip ps ps'
  unfolding ignore_peer
  ignore_peer-Shuns token ps ps' banned e =
      let (p, found, made) = >>=-eq-done (unwrap (find_peer token ps.peers)) _ e in
      subst (Shuns ip ps) (done_injective made) (ignore_found-Shuns token p ps banned)
