-- ===== src/P2p/Peers/Update.antt =====
-- `Peers::update`, in its five stages. What the clock and the random numbers give are arguments.
use gis.Base.{
  ℕ, ◌+◌, ◌%◌, Bool, false, ◌&&◌, List, [], ◌∷◌, Option, none, some, ltb, leb, if◌then◌else◌,
  length, get_elem?, add64, lt_i64,
}
use gis.Bytes.{Bytes}
use gis.P2p.Addr.{SocketAddr, IpAddr}
use gis.P2p.Message.{Message, Codec}
use gis.P2p.Peer.{
  Peer, State, Interest, state_message, set_state, elapsed_secs, is_idle, is_lower, need_reconnect,
  has_more_blocks, reregister, inc_reconnects,
}
use gis.P2p.Peers.{Peers, PeerMap, with_peers, change_peer, ignore_ip, get_peers_active_count}

abbrev pub ping_period : ℕ
ping_period = 30

abbrev pub max_nodes : ℕ
max_nodes = 20

abbrev pub max_reconnects : ℕ
max_reconnects = 5

-- `time` is that of `Instant`, `utc` that of the calendar; the others are random numbers, `coin`
-- by token; `connects` says whether a socket to the address can be made.
pub record Draws : Type 0 where
  pub time : ℕ
  pub utc : ℕ
  pub jitter : ℕ
  pub coin : ℕ → Bool
  pub choice_higher : ℕ
  pub choice_behind : ℕ
  pub connects : SocketAddr → Bool

-- `choose`: one of the candidates, if there is any.
unfoldable pub choose : ℕ → List ℕ → Option ℕ
choose choice [] = none
choose choice (x ∷ xs) = get_elem? (x ∷ xs) (choice % length (x ∷ xs))

unfoldable pub candidates : (Peer → Bool) → PeerMap → List ℕ
candidates p [] = []
candidates p ((t, x) ∷ m) = let rest = candidates p m in if p x then t ∷ rest else rest

-- A message for the peer, which goes out when its socket is writable.
abbrev pub ask : Codec → Message → Peer → Peer
ask codec m p = set_state (state_message codec m) (reregister Interest.writable p)

unfoldable pub need_behind_ping : ℕ → Peers → Bool
need_behind_ping utc ps = lt_i64 (add64 ps.behind_ping_sent_time 5) utc

abbrev pub is_long_offline : ℕ → Peer → Bool
is_long_offline time p = need_reconnect time p.state && leb max_reconnects p.reconnects

unfoldable pub offline_ips : ℕ → PeerMap → List IpAddr
offline_ips time [] = []
offline_ips time ((t, p) ∷ m) =
    let rest = offline_ips time m in if is_long_offline time p then p.addr.ip ∷ rest else rest

unfoldable pub drop_offline : ℕ → PeerMap → PeerMap
drop_offline time [] = []
drop_offline time ((t, p) ∷ m) =
    let rest = drop_offline time m in if is_long_offline time p then rest else (t, p) ∷ rest

unfoldable pub ignore_ips : List IpAddr → Peers → Peers
ignore_ips [] ps = ps
ignore_ips (ip ∷ ips) ps = ignore_ips ips (ignore_ip ip ps)

-- The stream is a new one.
abbrev reconnected : Peer → Peer
reconnected p =
    let p' = inc_reconnects (set_state State.connecting p) in
    record p' { stream = record { interest = Interest.writable; sent = [] } }

-- The first peer that needs it is tried, and no other.
unfoldable pub reconnect_first : Draws → PeerMap → PeerMap
reconnect_first d [] = []
reconnect_first d ((t, p) ∷ m) =
    if need_reconnect d.time p.state
    then if d.connects p.addr then (t, reconnected p) ∷ m else (t, p) ∷ m
    else (t, p) ∷ reconnect_first d m

abbrev pub is_behind : ℕ → Peer → Bool
is_behind height p = is_lower height p && is_idle p.state

module _ (codec : Codec) (d : Draws) (height : ℕ) (hash : Bytes) where
  abbrev pub ping_message : ℕ → ℕ → Message
  ping_message nodes token =
      if ltb nodes max_nodes && d.coin token then Message.get_peers else Message.ping height hash

  abbrev pub is_due : State → Bool
  is_due (State.idle from) = leb (ping_period + d.jitter % ping_period) (elapsed_secs d.time from)
  is_due _ = false

  unfoldable pub ping_idle : ℕ → PeerMap → PeerMap
  ping_idle nodes [] = []
  ping_idle nodes ((t, p) ∷ m) =
      (t, if is_due p.state then ask codec (ping_message nodes t) p else p) ∷ ping_idle nodes m

  -- One peer that has more blocks is asked for the next.
  unfoldable pub ask_higher : PeerMap → PeerMap
  ask_higher m = elim (choose d.choice_higher (candidates (has_more_blocks height) m)) [
    | none ↦ m
    | some t ↦ change_peer t (ask codec (Message.get_block (add64 height 1))) m
  ]

  -- One idle peer that is behind is told the height.
  unfoldable pub ping_behind : Peers → Peers
  ping_behind ps =
      if need_behind_ping d.utc ps
      then elim (choose d.choice_behind (candidates (is_behind height) ps.peers)) [
        | none ↦ ps
        | some t ↦ record ps {
          peers = change_peer t (ask codec (Message.ping height hash)) ps.peers;
          behind_ping_sent_time = d.utc;
        }
      ]
      else ps

  unfoldable pub update : Peers → Peers
  update ps =
      let ps1 = with_peers (ask_higher (ping_idle (get_peers_active_count ps) ps.peers)) ps in
      let ps2 = ping_behind ps1 in
      let ps3 =
        ignore_ips (offline_ips d.time ps2.peers)
          (with_peers (drop_offline d.time ps2.peers) ps2) in
      with_peers (reconnect_first d ps3.peers) ps3
