-- ===== src/P2p/Network/Online.antt =====
-- No peer is ever offline: the reconnection of `Peers::update` has nothing to do.
use gis.Base.{
  ℕ, Bool, true, false, List, [], ◌∷◌, Option, none, some, ◌≡◌, refl, sym, ap, arith, done,
  if◌then◌else◌, inl, inr, Bool-cases, Option-cases, unwrap, >>=-eq-done, done_injective, subst,
  leb, length, add64,
}
use gis.Bytes.{Bytes, Text}
use gis.Blockchain.Env.{Env}
use gis.P2p.Addr.{SocketAddr, unmapped}
use gis.P2p.Message.{Message, Codec}
use gis.P2p.Peer.{
  Peer, State, Interest, new_peer, set_state, set_public, is_loop, need_reconnect, has_more_blocks,
}
use gis.P2p.Peers.{
  Peers, PeerMap, with_peers, find_peer, put_peer, remove_peer, change_peer, add_peer, ignore_ip,
  close_found, close_peer, close_all_peers, close_other, find_ip, mark_banned, ignore_found,
  ignore_peer, take_peer, take_peers, distinct, add_peers_from_exchange, get_peers_active_count,
}
use gis.P2p.Peers.Update.{
  Draws, ask, choose, candidates, ping_idle, ask_higher, ping_behind, need_behind_ping, is_behind,
  offline_ips, drop_offline, ignore_ips, reconnect_first, update,
}
use gis.P2p.Peers.Connect.{
  Dialing, fresh, first_new, connect_peer, connect_new_peers, connect_all, connect_names,
  connect_peers, has_addr, dedup,
}
use gis.P2p.Network.Loop.{accept, Round, Thread, rounds}
use gis.P2p.Network.Rounds.{rounds-Good}
use gis.P2p.Network.Laws.{PeersLaws, is_offline}

-- No peer of the map is offline.
abbrev pub AllOnline : PeerMap → Type 0
AllOnline [] = Unit
AllOnline ((t, p) ∷ m) = (is_offline p.state ≡ false) × AllOnline m

change_peer-AllOnline :
    (token : ℕ) (f : Peer → Peer) (m : PeerMap)
    → ((p : Peer) → is_offline p.state ≡ false → is_offline (f p).state ≡ false)
    → AllOnline m
    → AllOnline (change_peer token f m)
unfolding change_peer
change_peer-AllOnline token f [] h on = tt
change_peer-AllOnline token f ((t, p) ∷ m) h on =
    ground (arith, h p, change_peer-AllOnline token f m h)

put_peer-AllOnline :
    (token : ℕ) (p : Peer) (m : PeerMap)
    → is_offline p.state ≡ false
    → AllOnline m
    → AllOnline (put_peer token p m)
unfolding put_peer
put_peer-AllOnline token p [] h on = (h, tt)
put_peer-AllOnline token p ((t, q) ∷ m) h on = ground (arith, put_peer-AllOnline token p m h)

remove_peer-AllOnline : (token : ℕ) (m : PeerMap) → AllOnline m → AllOnline (remove_peer token m)
unfolding remove_peer
remove_peer-AllOnline token [] on = tt
remove_peer-AllOnline token ((t, p) ∷ m) on = ground (arith, remove_peer-AllOnline token m)

close_peer-AllOnline :
    (token : ℕ) (ps : Peers) → AllOnline ps.peers → AllOnline (close_peer token ps).peers
unfolding close_peer close_found ignore_ip
close_peer-AllOnline token ps on = ground (arith, remove_peer-AllOnline token ps.peers on)

close_other-AllOnline :
    (found : Option ℕ) (ps : Peers) → AllOnline ps.peers → AllOnline (close_other found ps).peers
unfolding close_other
close_other-AllOnline none ps on = on
close_other-AllOnline (some t) ps on =
    remove_peer-AllOnline t (close_peer t ps).peers (close_peer-AllOnline t ps on)

mark_banned-AllOnline :
    (b : Bool) (token : ℕ) (ps : Peers)
    → AllOnline ps.peers
    → AllOnline (mark_banned b token ps).peers
mark_banned-AllOnline true token ps on = on
mark_banned-AllOnline false token ps on =
    change_peer-AllOnline token (set_state State.banned) ps.peers (λ p h. refl) on

ignore_peer-AllOnline :
    (token : ℕ) (ps ps' : Peers)
    → AllOnline ps.peers
    → ignore_peer token ps ≡ done ps'
    → AllOnline ps'.peers
unfolding ignore_peer ignore_found ignore_ip
ignore_peer-AllOnline token ps ps' on e =
    let (p, found, made) = >>=-eq-done (unwrap (find_peer token ps.peers)) _ e in
    let marked = mark_banned (is_loop p.state) token ps in
    let shut = ignore_ip p.addr.ip (close_peer token marked) in
    subst (λ qs. AllOnline qs.peers) (done_injective made)
      (close_other-AllOnline (find_ip p.addr.ip shut.peers) shut
        (close_peer-AllOnline token marked (mark_banned-AllOnline (is_loop p.state) token ps on)))

take_peers-AllOnline :
    (codec : Codec) (texts : List Text) (ps : Peers)
    → AllOnline ps.peers
    → AllOnline (take_peers codec texts ps).peers
unfolding take_peers take_peer
take_peers-AllOnline codec [] ps on = on
take_peers-AllOnline codec (x ∷ xs) ps on =
    take_peers-AllOnline codec xs (take_peer codec x ps) (ground arith)

connect_peer-AllOnline :
    (d : Dialing) (addr : SocketAddr) (ps : Peers) (token : ℕ)
    → AllOnline ps.peers
    → AllOnline (connect_peer d addr ps token).0.peers
unfolding connect_peer add_peer new_peer
connect_peer-AllOnline d addr ps token on = ground (
  arith,
  put_peer-AllOnline token
      (set_public true (new_peer addr (fresh Interest.writable) State.connecting false)) ps.peers,
)

first_new-AllOnline :
    (d : Dialing) (as' : List SocketAddr) (ps : Peers) (token : ℕ)
    → AllOnline ps.peers
    → AllOnline (first_new d as' ps token).0.peers
first_new-AllOnline d [] ps token on = on
first_new-AllOnline d (a ∷ rest) ps token on =
    connect_peer-AllOnline d a (record ps { new_peers = rest }) token on

connect_all-AllOnline :
    (d : Dialing) (as' set : List SocketAddr) (ps : Peers) (token : ℕ)
    → AllOnline ps.peers
    → AllOnline (connect_all d as' set ps token).1.peers
unfolding connect_all
connect_all-AllOnline d [] set ps token on = on
connect_all-AllOnline d (a ∷ as') set ps token on = elim (Bool-cases (has_addr a set)) [
  | inl old ↦ rw (old, connect_all) (connect_all-AllOnline d as' set ps token on)
  | inr new ↦
      let r = connect_peer d a ps token in
      rw (new, connect_all)
        (connect_all-AllOnline d as' (if r.2 then a ∷ set else set) r.0 r.1
          (connect_peer-AllOnline d a ps token on))
]

connect_names-AllOnline :
    (d : Dialing) (names : List Text) (set : List SocketAddr) (ps : Peers) (token : ℕ)
    → AllOnline ps.peers
    → AllOnline (connect_names d names set ps token).0.peers
unfolding connect_names
connect_names-AllOnline d [] set ps token on = on
connect_names-AllOnline d (x ∷ xs) set ps token on = elim (Option-cases (d.resolve x)) [
  | inl failed ↦ rw (failed, connect_names) (connect_names-AllOnline d xs set ps token on)
  | inr (as', found) ↦ elim (Bool-cases (leb 10 (length set))) [
    | inl enough ↦ rw (found, enough, connect_names) on
    | inr few ↦
        let r = connect_all d as' set ps token in
        rw (found, few, connect_names)
          (connect_names-AllOnline d xs r.0 r.1 r.2 (connect_all-AllOnline d as' set ps token on))
  ]
]

need_reconnect_online :
    (time : ℕ) (s : State) → is_offline s ≡ false → need_reconnect time s ≡ false
need_reconnect_online time State.connecting h = refl
need_reconnect_online time (State.offline from) h = cc
need_reconnect_online time State.connected h = refl
need_reconnect_online time State.error h = refl
need_reconnect_online time State.banned h = refl
need_reconnect_online time State.send_loop h = refl
need_reconnect_online time State.loop h = refl
need_reconnect_online time State.twin h = refl
need_reconnect_online time (State.idle from) h = refl
need_reconnect_online time (State.message content) h = refl

drop_offline-AllOnline :
    (time : ℕ) (m : PeerMap) → AllOnline m → (drop_offline time m ≡ m) × (offline_ips time m ≡ [])
unfolding drop_offline offline_ips
drop_offline-AllOnline time [] on = (refl, refl)
drop_offline-AllOnline time ((t, p) ∷ m) on =
    let (kept, none') = drop_offline-AllOnline time m on.1 in
    let online = need_reconnect_online time p.state on.0 in (ground arith, ground arith)

reconnect_first-AllOnline : (d : Draws) (m : PeerMap) → AllOnline m → reconnect_first d m ≡ m
unfolding reconnect_first
reconnect_first-AllOnline d [] on = refl
reconnect_first-AllOnline d ((t, p) ∷ m) on =
    ground (arith, need_reconnect_online d.time p.state on.0, reconnect_first-AllOnline d m on.1)

pub last_stages_online :
    (d : Draws) (ps : Peers)
    → AllOnline ps.peers
    → let ps' =
        ignore_ips (offline_ips d.time ps.peers) (with_peers (drop_offline d.time ps.peers) ps) in
      with_peers (reconnect_first d ps'.peers) ps' ≡ ps
unfolding ignore_ips
last_stages_online d ps on =
    let (kept, none') = drop_offline-AllOnline d.time ps.peers on in
    rw (none', ignore_ips, kept)
      (ap (λ m. with_peers m ps) (reconnect_first-AllOnline d ps.peers on))

module _ (codec : Codec) (d : Draws) (height : ℕ) (hash : Bytes) where
  pub ping_idle-AllOnline :
      (nodes : ℕ) (m : PeerMap) → AllOnline m → AllOnline (ping_idle codec d height hash nodes m)
  unfolding ping_idle
  ping_idle-AllOnline nodes [] on = tt
  ping_idle-AllOnline nodes ((t, p) ∷ m) on = (ground arith, ping_idle-AllOnline nodes m on.1)

  pub ask_higher-AllOnline :
      (m : PeerMap) → AllOnline m → AllOnline (ask_higher codec d height hash m)
  unfolding ask_higher
  ask_higher-AllOnline m on =
      elim (Option-cases (choose d.choice_higher (candidates (has_more_blocks height) m))) [
        | inl no_one ↦ rw (no_one, ask_higher) on
        | inr (t, chosen) ↦
            rw (chosen, ask_higher)
              (change_peer-AllOnline t (ask codec (Message.get_block (add64 height 1))) m
                (λ p h. refl) on)
      ]

  pub ping_behind-AllOnline :
      (ps : Peers) → AllOnline ps.peers → AllOnline (ping_behind codec d height hash ps).peers
  unfolding ping_behind
  ping_behind-AllOnline ps on = elim (Bool-cases (need_behind_ping d.utc ps)) [
    | inr soon ↦ rw (soon, ping_behind) on
    | inl due ↦
        elim (Option-cases (choose d.choice_behind (candidates (is_behind height) ps.peers))) [
          | inl no_one ↦ rw (due, no_one, ping_behind) on
          | inr (t, chosen) ↦
              rw (due, chosen, ping_behind)
                (change_peer-AllOnline t (ask codec (Message.ping height hash)) ps.peers
                  (λ p h. refl) on)
        ]
  ]

  update-AllOnline :
      (ps : Peers) → AllOnline ps.peers → AllOnline (update codec d height hash ps).peers
  unfolding update
  update-AllOnline ps on =
      let m1 = ping_idle codec d height hash (get_peers_active_count ps) ps.peers in
      let ps1 = with_peers (ask_higher codec d height hash m1) ps in
      let on1 =
        ask_higher-AllOnline m1 (ping_idle-AllOnline (get_peers_active_count ps) ps.peers on) in
      let on2 = ping_behind-AllOnline ps1 on1 in
      subst (λ qs. AllOnline qs.peers)
        (sym (last_stages_online d (ping_behind codec d height hash ps1) on2)) on2

accept-AllOnline :
    (d : Dialing) (address : SocketAddr) (ps : Peers) (token : ℕ)
    → AllOnline ps.peers
    → AllOnline (accept d address ps token).0.peers
unfolding accept add_peer new_peer
accept-AllOnline d address ps token on = ground (
  arith,
  put_peer-AllOnline token
      (new_peer (unmapped address) (fresh Interest.readable) State.connected true) ps.peers,
)

online : PeersLaws (λ ps. AllOnline ps.peers)
unfolding close_all_peers add_peers_from_exchange connect_new_peers connect_peers
online = record {
  changed = λ token f ps mild on. change_peer-AllOnline token f ps.peers mild.online on;
  closed = close_peer-AllOnline;
  all_closed = λ ps on. tt;
  shut_out = ignore_peer-AllOnline;
  exchanged = λ codec texts ps on. take_peers-AllOnline codec (distinct texts) ps on;
  accepted = accept-AllOnline;
  dialed_new = λ d ps token on. first_new-AllOnline d (dedup ps.new_peers) ps token on;
  dialed = λ d names ps token on. connect_names-AllOnline d names [] ps token on;
  updated = λ codec d height hash ps on. update-AllOnline codec d height hash ps on;
}

-- From a thread without peers offline, so from the start of the program, no round ever leaves a peer
-- offline: what `update` does for such peers, to forget, to ban and to reconnect them, is never done.
pub rounds_online :
    (codec : Codec) (env : Env) (fuel : ℕ) (names : List Text) (rs : List Round) (t t' : Thread)
    (d : Draws)
    → AllOnline t.node.peers.peers
    → rounds codec env fuel names rs t ≡ done t'
    → AllOnline t'.node.peers.peers
      × (drop_offline d.time t'.node.peers.peers ≡ t'.node.peers.peers)
      × (offline_ips d.time t'.node.peers.peers ≡ [])
      × (reconnect_first d t'.node.peers.peers ≡ t'.node.peers.peers)
rounds_online codec env fuel names rs t t' d on e =
    let on' = rounds-Good (λ ps. AllOnline ps.peers) online codec env fuel names rs t t' on e in
    let (kept, none') = drop_offline-AllOnline d.time t'.node.peers.peers on' in
    (on', kept, none', reconnect_first-AllOnline d t'.node.peers.peers on')
