-- ===== src/P2p/Tests.antt =====
-- Concrete nodes, and the theorems about the network at them.
mod Sync
use gis.Base.{
  ℕ, ◌+◌, ◌^◌, ◌≤◌, ◌<◌, Bool, true, false, List, [], ◌∷◌, ◌++◌, Option, none, some, Outcome, done,
  panic, stuck, ◌≡◌, ◌⊎◌, refl, arith, length, take, drop,
}
use gis.Bytes.{Bytes, Text, codes}
use gis.Blockchain.Types.{Block}
use gis.Blockchain.Chain.State.{Chain}
use gis.Blockchain.Tests.{env, genesis, second, chain1, chain1-IsSound, second_is_good, runs}
use gis.Dns.Protocol.Types.{Ipv4Addr}
use gis.P2p.Addr.{IpAddr, SocketAddr}
use gis.P2p.Message.{Message, Codec}
use gis.P2p.Peer.{Peer, State, Interest, new_peer}
use gis.P2p.Peers.{Peers, is_ignored, get_peers_for_exchange, add_peers_from_exchange}
use gis.P2p.Peers.Update.{Draws, drop_offline, offline_ips, reconnect_first}
use gis.P2p.Peers.Connect.{Dialing, fresh}
use gis.P2p.Peers.Bans.{ip_count}
use gis.P2p.Peers.Exchange.{
  shared, Learns, get_peers_for_exchange-take, add_peers_from_exchange-Learns,
}
use gis.P2p.Network.Context.{Context}
use gis.P2p.Network.Stream.{Read, zeros, frame, read_message}
use gis.P2p.Network.Blocks.{Node, handle_block}
use gis.P2p.Network.Handle.{Chance}
use gis.P2p.Network.Loop.{Ready, PollEvent, Thread, Round, rounds}
use gis.P2p.Network.Bans.{rounds-Shuns}
use gis.P2p.Network.Online.{AllOnline, rounds_online}
use gis.P2p.Network.Received.{Moves, handle_block-Moves}

-- The line that lets the network run.
net_runs : ℕ
unfolding runs gis.P2p.Addr.same_ip gis.P2p.Addr.same_addr gis.P2p.Addr.is_loopback
    gis.P2p.Addr.is_private gis.P2p.Addr.is_yggdrasil gis.P2p.Addr.skip_private_addr
    gis.P2p.Addr.unmapped gis.P2p.Addr.has_ip gis.P2p.Addr.insert_ip gis.P2p.Message.from_bytes
    gis.P2p.Peer.new_peer gis.P2p.Peer.has_more_blocks gis.P2p.Peer.equals
    gis.P2p.Peer.add_fork_block gis.P2p.Peers.find_peer gis.P2p.Peers.put_peer
    gis.P2p.Peers.remove_peer gis.P2p.Peers.change_peer gis.P2p.Peers.add_peer
    gis.P2p.Peers.ignore_ip gis.P2p.Peers.close_found gis.P2p.Peers.close_peer
    gis.P2p.Peers.close_peers gis.P2p.Peers.close_all_peers gis.P2p.Peers.find_ip
    gis.P2p.Peers.close_other gis.P2p.Peers.ignore_found gis.P2p.Peers.ignore_peer
    gis.P2p.Peers.active_count gis.P2p.Peers.has_new gis.P2p.Peers.is_wanted gis.P2p.Peers.distinct
    gis.P2p.Peers.take_peer gis.P2p.Peers.take_peers gis.P2p.Peers.add_peers_from_exchange
    gis.P2p.Peers.exchange_loop gis.P2p.Peers.get_peers_for_exchange gis.P2p.Peers.blocks_connection
    gis.P2p.Peers.Update.choose gis.P2p.Peers.Update.candidates
    gis.P2p.Peers.Update.need_behind_ping gis.P2p.Peers.Update.offline_ips
    gis.P2p.Peers.Update.drop_offline gis.P2p.Peers.Update.ignore_ips
    gis.P2p.Peers.Update.reconnect_first gis.P2p.Peers.Update.ping_idle
    gis.P2p.Peers.Update.ask_higher gis.P2p.Peers.Update.ping_behind gis.P2p.Peers.Update.update
    gis.P2p.Peers.Connect.connect_peer gis.P2p.Peers.Connect.dedup_from
    gis.P2p.Peers.Connect.connect_new_peers gis.P2p.Peers.Connect.has_addr
    gis.P2p.Peers.Connect.connect_all gis.P2p.Peers.Connect.connect_names
    gis.P2p.Peers.Connect.connect_peers gis.P2p.Network.Stream.zeros gis.P2p.Network.Stream.be32
    gis.P2p.Network.Stream.frame gis.P2p.Network.Stream.received gis.P2p.Network.Stream.read_loop
    gis.P2p.Network.Stream.read_message gis.P2p.Network.Blocks.take_fork
    gis.P2p.Network.Blocks.handle_fork gis.P2p.Network.Blocks.handle_quality
    gis.P2p.Network.Blocks.judge_block gis.P2p.Network.Blocks.handle_block
    gis.P2p.Network.Handle.handle_hand gis.P2p.Network.Handle.handle_shake
    gis.P2p.Network.Handle.handle_ping gis.P2p.Network.Handle.handle_pong
    gis.P2p.Network.Handle.handle_get_peers gis.P2p.Network.Handle.handle_peers
    gis.P2p.Network.Handle.handle_get_block gis.P2p.Network.Handle.handle_block_text
    gis.P2p.Network.Handle.handle_message gis.P2p.Network.Loop.take_state
    gis.P2p.Network.Loop.written gis.P2p.Network.Loop.on_writable gis.P2p.Network.Loop.on_message
    gis.P2p.Network.Loop.on_data gis.P2p.Network.Loop.handle_readable
    gis.P2p.Network.Loop.handle_connection_event gis.P2p.Network.Loop.on_ready
    gis.P2p.Network.Loop.accept gis.P2p.Network.Loop.bootstrap gis.P2p.Network.Loop.note_events
    gis.P2p.Network.Loop.refresh gis.P2p.Network.Loop.on_timer gis.P2p.Network.Loop.handle_event
    gis.P2p.Network.Loop.handle_events gis.P2p.Network.Loop.round gis.P2p.Network.Loop.rounds
net_runs = 0

abbrev pub address : ℕ → ℕ → SocketAddr
address o3 port = record {
  ip = IpAddr.v4 (record { o0 = 8; o1 = 8; o2 = 8; o3 = o3 });
  port = port;
  flowinfo = 0;
  scope_id = 0;
}

-- A text of one byte is an address, and a message of one byte asks for peers.
abbrev addr_of : Text → Option SocketAddr
addr_of [] = none
addr_of (x ∷ xs) = some (address x 46866)

abbrev pub codec : Codec
codec = record {
  is_utf8 = λ content. true;
  message_json = λ m. 77 ∷ [];
  parse_message = λ text. some Message.get_peers;
  block_json = λ block. [];
  parse_block = λ text. some second;
  addr_text = λ a. 65 ∷ [];
  parse_addr = addr_of;
}

abbrev pub chance : Chance
chance = record { now = 1000; coin = false; roll = 60 }

abbrev pub draws : Draws
draws = record {
  time = 40000;
  utc = 1000;
  jitter = 3;
  coin = λ token. false;
  choice_higher = 4;
  choice_behind = 5;
  connects = λ a. true;
}

abbrev dialing : Dialing
dialing = record {
  yggdrasil_only = false;
  connects = λ a. true;
  resolve = λ name. some (address 1 46866 ∷ address 5 46866 ∷ []);
}

abbrev pub peer_at : ℕ → State → ℕ → Peer
peer_at o3 state height =
    record (new_peer (address o3 46866) (fresh Interest.readable) state false) {
      height = height;
      public = true;
      active = true;
    }

-- The address 8.8.8.1 is banned.
abbrev pub peers : Peers
peers = record {
  peers = (1, peer_at 2 (State.idle 0) 1) ∷ (2, peer_at 3 (State.idle 30000) 5) ∷ [];
  new_peers = [];
  ignored = (address 1 0).ip ∷ [];
  my_id = 9 ∷ [];
  behind_ping_sent_time = 0;
}

abbrev pub context : Context
context = record {
  app_version = [];
  origin = 3 ∷ [];
  public = true;
  zone_hashes = [];
  chain = chain1;
  posted = [];
}

abbrev pub node : Node
node = record { context = context; peers = peers }

abbrev thread : Thread
thread = record {
  node = node;
  unique_token = 3;
  ui_timer = 0;
  log_timer = 0;
  bootstrap_timer = 0;
  connect_timer = 0;
  last_events_time = 0;
}

abbrev event : Ready
event = record {
  token = 1;
  is_error = false;
  is_readable = true;
  is_writable = true;
  is_read_closed = false;
  is_write_closed = false;
  size = 1;
  reads = λ i. Read.bytes (77 ∷ []);
  chance = chance;
}

-- A banned address and another one connect, a peer asks for peers, and the timer is due.
abbrev busy : Round
busy = record {
  start = 39000;
  now = 40000;
  running = true;
  events =
      PollEvent.server (some (address 1 5000))
      ∷ PollEvent.server (some (address 4 5000))
      ∷ PollEvent.ready event
      ∷ [];
  dialing = dialing;
  draws = draws;
}

abbrev or_else {ℓ} : {A : Type ℓ} → A → Outcome A → A
or_else a (done b) = b
or_else a panic = a
or_else a stuck = a

later : Thread
unfolding net_runs
later = or_else thread (rounds codec env 9 [] (busy ∷ busy ∷ []) thread)

runs_to_later : rounds codec env 9 [] (busy ∷ busy ∷ []) thread ≡ done later
unfolding net_runs later
runs_to_later = refl

rounds-Shuns_example :
    (is_ignored (address 1 0).ip later.node.peers ≡ true)
    × (ip_count (address 1 0).ip later.node.peers.peers
        ≤ ip_count (address 1 0).ip thread.node.peers.peers)
unfolding net_runs
rounds-Shuns_example =
    rounds-Shuns (address 1 0).ip codec env 9 [] (busy ∷ busy ∷ []) thread later refl runs_to_later

rounds_online_example :
    AllOnline later.node.peers.peers
    × (drop_offline draws.time later.node.peers.peers ≡ later.node.peers.peers)
    × (offline_ips draws.time later.node.peers.peers ≡ [])
    × (reconnect_first draws later.node.peers.peers ≡ later.node.peers.peers)
unfolding net_runs
rounds_online_example =
    rounds_online codec env 9 [] (busy ∷ busy ∷ []) thread later draws (refl, (refl, tt))
      runs_to_later

get_peers_for_exchange-take_example :
    (get_peers_for_exchange 0 (address 2 5000) peers
      ≡ take 10 (shared 0 (address 2 5000) peers.peers))
    × (length (get_peers_for_exchange 0 (address 2 5000) peers) ≤ 10)
get_peers_for_exchange-take_example = get_peers_for_exchange-take 0 (address 2 5000) peers

-- One banned, one known, one new and one that comes twice.
abbrev told : List Text
told = (1 ∷ []) ∷ (2 ∷ []) ∷ (6 ∷ []) ∷ (7 ∷ []) ∷ (7 ∷ []) ∷ []

add_peers_from_exchange-Learns_example :
    Learns peers (add_peers_from_exchange codec told peers) (length told)
add_peers_from_exchange-Learns_example = add_peers_from_exchange-Learns codec told peers

grown : Node
unfolding net_runs
grown = (or_else (State.error, node) (handle_block env codec 9 1000 1 second node)).1

second_grows : handle_block env codec 9 1000 1 second node ≡ done (State.idle 1000, grown)
unfolding net_runs grown
second_grows = refl

handle_block-Moves_example : Moves second genesis chain1 grown.context.chain
handle_block-Moves_example =
    handle_block-Moves env codec 9 1000 1 second genesis node grown (State.idle 1000) chain1-IsSound
      (omega arith) (omega arith) second_grows
