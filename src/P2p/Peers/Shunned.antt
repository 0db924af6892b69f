-- ===== src/P2p/Peers/Shunned.antt =====
-- Banned addresses under new connections and under `Peers::update`.
use gis.Base.{
  ℕ, ◌≤◌, true, false, List, [], ◌∷◌, if◌then◌else◌, ◌≡◌, refl, arith, inl, inr, Bool-cases,
  Option-cases, leb, length, add64,
}
use gis.Bytes.{Bytes, Text}
use gis.P2p.Addr.{IpAddr, SocketAddr, same_ip, has_ip}
use gis.P2p.Message.{Message, Codec}
use gis.P2p.Peer.{State, Interest, new_peer, set_public, has_more_blocks}
use gis.P2p.Peers.{
  Peers, PeerMap, with_peers, add_peer, ignore_ip, is_ignored, get_peers_active_count,
}
use gis.P2p.Peers.Update.{
  Draws, ask, choose, candidates, ping_idle, ask_higher, ping_behind, need_behind_ping, is_behind,
  offline_ips, drop_offline, ignore_ips, reconnect_first, update,
}
use gis.P2p.Peers.Connect.{
  Dialing, connect_peer, dedup, connect_new_peers, connect_all, connect_names, connect_peers,
  has_addr, fresh, first_new,
}
use gis.P2p.Peers.Bans.{
  Shuns, Shuns-trans, ip_count, ip_count-put_peer, eq_of_same_ip, ip_count-change_peer,
  ignore_ip-Shuns,
}

module _ (ip : IpAddr) where
  pub other_of_free :
      (x : IpAddr) (xs : List IpAddr)
      → has_ip ip xs ≡ true
      → has_ip x xs ≡ false
      → same_ip x ip ≡ false
  other_of_free x xs banned free = elim (Bool-cases (same_ip x ip)) [
    | inl same ↦ absurd (ground (arith, eq_of_same_ip x ip same))
    | inr other ↦ other
  ]

  connect_peer-Shuns :
      (d : Dialing) (addr : SocketAddr) (ps : Peers) (token : ℕ)
      → is_ignored ip ps ≡ true
      → Shuns ip ps (connect_peer d addr ps token).0
  unfolding connect_peer add_peer new_peer
  connect_peer-Shuns d addr ps token banned = record {
    still = ground arith;
    no_more = ground (
      arith,
      other_of_free addr.ip ps.ignored banned,
      ip_count-put_peer ip token
          (set_public true (new_peer addr (fresh Interest.writable) State.connecting false))
          ps.peers,
    );
  }

  first_new-Shuns :
      (d : Dialing) (as' : List SocketAddr) (ps : Peers) (token : ℕ)
      → is_ignored ip ps ≡ true
      → Shuns ip ps (first_new d as' ps token).0
  first_new-Shuns d [] ps token banned = record { still = banned; no_more = omega arith }
  first_new-Shuns d (a ∷ rest) ps token banned =
      let s = connect_peer-Shuns d a (record ps { new_peers = rest }) token banned in
      record { still = s.still; no_more = s.no_more }

  pub connect_new_peers-Shuns :
      (d : Dialing) (ps : Peers) (token : ℕ)
      → is_ignored ip ps ≡ true
      → Shuns ip ps (connect_new_peers d ps token).0
  unfolding connect_new_peers
  connect_new_peers-Shuns d ps token = first_new-Shuns d (dedup ps.new_peers) ps token

  connect_all-Shuns :
      (d : Dialing) (as' set : List SocketAddr) (ps : Peers) (token : ℕ)
      → is_ignored ip ps ≡ true
      → Shuns ip ps (connect_all d as' set ps token).1
  unfolding connect_all
  connect_all-Shuns d [] set ps token banned = record { still = banned; no_more = omega arith }
  connect_all-Shuns d (a ∷ as') set ps token banned = elim (Bool-cases (has_addr a set)) [
    | inl old ↦ rw (old, connect_all) (connect_all-Shuns d as' set ps token banned)
    | inr new ↦
        let r = connect_peer d a ps token in
        rw (new, connect_all)
          (Shuns-trans ip ps r.0 _ (connect_peer-Shuns d a ps token)
            (connect_all-Shuns d as' (if r.2 then a ∷ set else set) r.0 r.1) banned)
  ]

  connect_names-Shuns :
      (d : Dialing) (names : List Text) (set : List SocketAddr) (ps : Peers) (token : ℕ)
      → is_ignored ip ps ≡ true
      → Shuns ip ps (connect_names d names set ps token).0
  unfolding connect_names
  connect_names-Shuns d [] set ps token banned = record { still = banned; no_more = omega arith }
  connect_names-Shuns d (x ∷ xs) set ps token banned = elim (Option-cases (d.resolve x)) [
    | inl failed ↦ rw (failed, connect_names) (connect_names-Shuns d xs set ps token banned)
    | inr (as', found) ↦ elim (Bool-cases (leb 10 (length set))) [
      | inl enough ↦
          rw (found, enough, connect_names) (record { still = banned; no_more = omega arith })
      | inr few ↦
          let r = connect_all d as' set ps token in
          rw (found, few, connect_names)
            (Shuns-trans ip ps r.1 _ (connect_all-Shuns d as' set ps token)
              (connect_names-Shuns d xs r.0 r.1 r.2) banned)
    ]
  ]

  pub connect_peers-Shuns :
      (d : Dialing) (names : List Text) (ps : Peers) (token : ℕ)
      → is_ignored ip ps ≡ true
      → Shuns ip ps (connect_peers d names ps token).0
  unfolding connect_peers
  connect_peers-Shuns d names ps token = connect_names-Shuns d names [] ps token

  ip_count-drop_offline :
      (time : ℕ) (m : PeerMap) → ip_count ip (drop_offline time m) ≤ ip_count ip m
  unfolding ip_count drop_offline
  ip_count-drop_offline time [] = omega arith
  ip_count-drop_offline time ((t, p) ∷ m) = ground (arith, ip_count-drop_offline time m)

  ip_count-reconnect_first :
      (d : Draws) (m : PeerMap) → ip_count ip (reconnect_first d m) ≡ ip_count ip m
  unfolding ip_count reconnect_first
  ip_count-reconnect_first d [] = refl
  ip_count-reconnect_first d ((t, p) ∷ m) = ground (arith, ip_count-reconnect_first d m)

  ignore_ips-Shuns :
      (xs : List IpAddr) (ps : Peers) → is_ignored ip ps ≡ true → Shuns ip ps (ignore_ips xs ps)
  unfolding ignore_ips
  ignore_ips-Shuns [] ps banned = record { still = banned; no_more = omega arith }
  ignore_ips-Shuns (x ∷ xs) ps banned =
      Shuns-trans ip ps (ignore_ip x ps) _ (ignore_ip-Shuns ip x ps)
        (ignore_ips-Shuns xs (ignore_ip x ps)) banned

  module _ (codec : Codec) (d : Draws) (height : ℕ) (hash : Bytes) where
    ip_count-ping_idle :
        (nodes : ℕ) (m : PeerMap)
        → ip_count ip (ping_idle codec d height hash nodes m) ≡ ip_count ip m
    unfolding ip_count ping_idle
    ip_count-ping_idle nodes [] = refl
    ip_count-ping_idle nodes ((t, p) ∷ m) = ground (arith, ip_count-ping_idle nodes m)

    ip_count-ask_higher :
        (m : PeerMap) → ip_count ip (ask_higher codec d height hash m) ≡ ip_count ip m
    unfolding ask_higher
    ip_count-ask_higher m =
        elim (Option-cases (choose d.choice_higher (candidates (has_more_blocks height) m))) [
          | inl no_one ↦ rw (no_one, ask_higher)
          | inr (t, chosen) ↦
              rw (chosen, ask_higher)
                (ip_count-change_peer ip t (ask codec (Message.get_block (add64 height 1))) m
                  (λ p. refl))
        ]

    ping_behind-Shuns :
        (ps : Peers) → is_ignored ip ps ≡ true → Shuns ip ps (ping_behind codec d height hash ps)
    unfolding ping_behind
    ping_behind-Shuns ps banned = elim (Bool-cases (need_behind_ping d.utc ps)) [
      | inr soon ↦ rw (soon, ping_behind) (record { still = banned; no_more = omega arith })
      | inl due ↦
          elim (Option-cases (choose d.choice_behind (candidates (is_behind height) ps.peers))) [
            | inl no_one ↦
                rw (due, no_one, ping_behind) (record { still = banned; no_more = omega arith })
            | inr (t, chosen) ↦
                rw (due, chosen, ping_behind)
                  (record {
                    still = banned;
                    no_more = omega (
                      arith,
                      ip_count-change_peer ip t (ask codec (Message.ping height hash)) ps.peers
                          (λ p. refl),
                    );
                  })
          ]
    ]

    pub update-Shuns :
        (ps : Peers) → is_ignored ip ps ≡ true → Shuns ip ps (update codec d height hash ps)
    unfolding update
    update-Shuns ps banned =
        let m1 = ping_idle codec d height hash (get_peers_active_count ps) ps.peers in
        let ps1 = with_peers (ask_higher codec d height hash m1) ps in
        let ps2 = ping_behind codec d height hash ps1 in
        let s2 = ping_behind-Shuns ps1 banned in
        let kept = with_peers (drop_offline d.time ps2.peers) ps2 in
        let s3 = ignore_ips-Shuns (offline_ips d.time ps2.peers) kept s2.still in
        record {
          still = s3.still;
          no_more = omega (
            arith,
            ip_count-ask_higher m1,
            ip_count-ping_idle (get_peers_active_count ps) ps.peers,
            s2.no_more,
            ip_count-drop_offline d.time ps2.peers,
            s3.no_more,
            ip_count-reconnect_first d (ignore_ips (offline_ips d.time ps2.peers) kept).peers,
          );
        }
