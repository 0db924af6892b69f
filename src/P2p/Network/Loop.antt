-- ===== src/P2p/Network/Loop.antt =====
-- The event loop: the events of sockets, the accepted connections, and the timers.
use gis.Base.{
  ℕ, ◌-◌, Bool, true, false, ◌&&◌, ◌||◌, not, List, [], ◌∷◌, ◌++◌, Option, none, some, ltb, leb,
  if◌then◌else◌, Outcome, done, ◌>>=◌, unwrap, add64,
}
use gis.Bytes.{Bytes, Text, is_empty}
use gis.Commons.{chain_version}
use gis.Blockchain.Env.{Env}
use gis.Blockchain.Chain.State.{get_height, get_last_hash}
use gis.P2p.Addr.{SocketAddr, is_yggdrasil, unmapped}
use gis.P2p.Message.{Message, Codec, from_bytes}
use gis.P2p.Peer.{
  Peer, State, Interest, new_peer, set_state, elapsed_secs, inc_spurious, reset_spurious,
  reregister,
}
use gis.P2p.Peers.{
  Peers, get_peer, modify_peer, add_peer, close_peer, close_all_peers, ignore_peer, is_ignored,
  get_peers_active_count,
}
use gis.P2p.Peers.Update.{Draws, update, max_nodes}
use gis.P2p.Peers.Connect.{Dialing, fresh, connect_peers, connect_new_peers}
use gis.P2p.Network.Context.{Context, Event, post}
use gis.P2p.Network.Stream.{Read, frame, read_message}
use gis.P2p.Network.Blocks.{Node}
use gis.P2p.Network.Handle.{Chance, set_peers, handle_message}

-- An event of a connection: what is ready, what a message's length and bytes would be read from, and
-- the clock and the random numbers of its handler.
pub record Ready : Type 0 where
  pub token : ℕ
  pub is_error : Bool
  pub is_readable : Bool
  pub is_writable : Bool
  pub is_read_closed : Bool
  pub is_write_closed : Bool
  pub size : ℕ
  pub reads : ℕ → Read
  pub chance : Chance

abbrev pub send : Bytes → Peer → Peer
send content p = record p {
  stream = record { interest = p.stream.interest; sent = p.stream.sent ++ frame content };
}

abbrev pub on_node : ℕ → (Peer → Peer) → Node → Node
on_node token f n = set_peers (modify_peer token f n.peers) n

abbrev pub ban : ℕ → Node → Outcome Node
ban token n = do ps ← ignore_peer token n.peers; done (set_peers ps n)

-- What the answer of a message makes of the peer.
unfoldable pub take_state : ℕ → ℕ → State → Node → Outcome Node
take_state now token (State.message content) n =
    done (on_node token (λ p. set_state (State.message content) (reregister Interest.writable p)) n)
take_state now token State.connecting n = done n
take_state now token State.connected n = done n
take_state now token (State.idle from) n = done (on_node token (set_state (State.idle now)) n)
take_state now token State.error n = done n
take_state now token State.banned n = ban token n
take_state now token (State.offline from) n = done (on_node token (set_state (State.offline now)) n)
take_state now token State.loop n = ban token (on_node token (set_state State.loop) n)
take_state now token State.send_loop n =
    done (on_node token (λ p. set_state State.send_loop (reregister Interest.writable p)) n)
take_state now token State.twin n =
    done (on_node token (λ p. set_state State.twin (reregister Interest.writable p)) n)

-- The interest of a socket that was closed for reading.
abbrev waits_for : State → Interest
waits_for (State.message content) = Interest.writable
waits_for _ = Interest.readable

abbrev pub woken : Peer → Peer
woken p = inc_spurious (reregister (waits_for p.state) p)

module _ (codec : Codec) where
  -- What a writable socket is sent, by the state of its peer.
  unfoldable pub written : ℕ → Text → Context → State → Peer → Peer
  written now my_id x State.connecting p =
      send (codec.message_json (Message.hand x.app_version x.origin chain_version x.public my_id)) p
  written now my_id x (State.message content) p = send content p
  written now my_id x (State.idle from) p =
      if leb 30 (elapsed_secs now from)
      then send (codec.message_json (Message.ping (get_height x.chain) (get_last_hash x.chain))) p
      else p
  written now my_id x State.send_loop p = send (codec.message_json Message.loop) p
  written now my_id x State.twin p = send (codec.message_json Message.twin) p
  written now my_id x State.connected p = p
  written now my_id x State.error p = p
  written now my_id x State.banned p = p
  written now my_id x State.loop p = p
  written now my_id x (State.offline from) p = p

  unfoldable pub on_writable : ℕ → ℕ → Node → Node
  on_writable now token n =
      on_node token
        (λ p. reregister Interest.readable (written now n.peers.my_id n.context p.state p)) n

  module _ (env : Env) (fuel : ℕ) where
    -- The end of the readable part, when a message was read: `false` asks to close the connection.
    unfoldable pub on_message : Ready → Bytes → Node → Outcome (Bool × Node)
    on_message e content n = elim (from_bytes codec content) [
      | none ↦ done (false, n)
      | some message ↦ (do
        (state, n') ← handle_message codec e.chance env fuel message e.token n
        peer ← unwrap (get_peer e.token n'.peers)
        n'' ← take_state e.chance.now e.token state n'
        done (true, n''))
    ]

    unfoldable pub on_data : Ready → Option Bytes → Node → Outcome (Bool × Node)
    on_data e none n = done (false, n)
    on_data e (some content) n = on_message e content n

    abbrev pub then_write : Ready → Bool × Node → Bool × Node
    then_write e (false, n) = (false, n)
    then_write e (true, n) = (true, if e.is_writable then on_writable e.chance.now e.token n else n)

    unfoldable pub handle_readable : Ready → Node → Outcome (Bool × Node)
    handle_readable e n = elim (get_peer e.token n.peers) [
      | none ↦ done (false, n)
      | some peer ↦ elim e.is_read_closed [
        | true ↦
            if leb 3 peer.spurious then done (false, n) else done (true, on_node e.token woken n)
        | false ↦ (do
          content ← read_message fuel e.size e.reads
          result ← on_data e content (on_node e.token reset_spurious n)
          done (then_write e result))
      ]
    ]

    unfoldable pub handle_connection_event : Ready → Node → Outcome (Bool × Node)
    handle_connection_event e n = elim (e.is_error || (e.is_read_closed && e.is_write_closed)) [
      | true ↦ done (false, n)
      | false ↦ elim e.is_readable [
        | true ↦ handle_readable e n
        | false ↦ done (then_write e (true, n))
      ]
    ]

    abbrev pub post_status : Node → Node
    post_status n = record n {
      context =
          post (Event.network_status (get_peers_active_count n.peers) (get_height n.context.chain))
            n.context;
    }

    -- A connection that its handler gives up is closed.
    unfoldable pub on_ready : Ready → Node → Outcome Node
    on_ready e n = do
      (kept, n') ← handle_connection_event e n
      done (if kept then n' else post_status (set_peers (close_peer e.token n'.peers) n'))

-- The accepted connections come from `accept`, which may fail.
pub data PollEvent : Type 0 where
  server : Option SocketAddr → PollEvent
  ready : Ready → PollEvent

unfoldable pub accept : Dialing → SocketAddr → Peers → ℕ → Peers × ℕ
accept d address ps unique_token =
    let addr = unmapped address in
    if is_ignored addr.ip ps
    then (ps, unique_token)
    else if d.yggdrasil_only && not (is_yggdrasil addr.ip)
    then (ps, unique_token)
    else (
      add_peer unique_token (new_peer addr (fresh Interest.readable) State.connected true) ps,
      add64 unique_token 1,
    )

-- The variables of the network thread.
pub record Thread : Type 0 where
  pub node : Node
  pub unique_token : ℕ
  pub ui_timer : ℕ
  pub log_timer : ℕ
  pub bootstrap_timer : ℕ
  pub connect_timer : ℕ
  pub last_events_time : ℕ

-- What one round of the loop meets: the time at its start and behind `poll`, whether the program
-- still runs then, and the events.
pub record Round : Type 0 where
  pub start : ℕ
  pub now : ℕ
  pub running : Bool
  pub events : List PollEvent
  pub dialing : Dialing
  pub draws : Draws

abbrev pub set_dialed : Peers × ℕ → Thread → Thread
set_dialed (ps, token) t = record t { node = set_peers ps t.node; unique_token = token }

unfoldable pub bootstrap : List Text → Round → Thread → Thread
bootstrap names r t =
    if is_empty t.node.peers.peers && ltb 60 (elapsed_secs r.start t.bootstrap_timer)
    then record (set_dialed (connect_peers r.dialing names t.node.peers t.unique_token) t) {
      bootstrap_timer = r.start;
    }
    else t

unfoldable pub note_events : Round → Thread → Thread
note_events r t =
    if not (is_empty r.events)
    then record t { last_events_time = r.now }
    else if ltb 180 (elapsed_secs r.now t.last_events_time)
    then record t { node = set_peers (close_all_peers t.node.peers) t.node }
    else t

abbrev pub note_nodes : ℕ → Context → Context
note_nodes nodes x =
    if ltb 0 nodes then post (Event.network_status nodes (get_height x.chain)) x else x

abbrev pub dial_new : Round → ℕ → Thread → Thread
dial_new r nodes t =
    if ltb nodes max_nodes && leb 10 (elapsed_secs r.now t.connect_timer)
    then record (set_dialed (connect_new_peers r.dialing t.node.peers t.unique_token) t) {
      connect_timer = r.now;
    }
    else t

-- The part on the timer of the window: status, new connections, pings and requests.
unfoldable pub refresh : Codec → Round → Thread → Thread
refresh codec r t =
    let nodes = get_peers_active_count t.node.peers in
    let t1 = record t {
      node = record t.node { context = note_nodes nodes t.node.context };
      log_timer = if ltb 60 (elapsed_secs r.now t.log_timer) then r.now else t.log_timer;
    } in
    let t2 = dial_new r nodes t1 in
    let chain = t2.node.context.chain in
    record t2 {
      node =
          set_peers (update codec r.draws (get_height chain) (get_last_hash chain) t2.node.peers)
            t2.node;
      ui_timer = r.now;
    }

unfoldable pub on_timer : Codec → Round → Thread → Thread
on_timer codec r t = if ltb 600 (r.now - t.ui_timer) then refresh codec r t else t

module _ (codec : Codec) (env : Env) (fuel : ℕ) where
  unfoldable pub handle_event : Dialing → PollEvent → Thread → Outcome Thread
  handle_event d (PollEvent.server none) t = done t
  handle_event d (PollEvent.server (some address)) t =
      done (set_dialed (accept d address t.node.peers t.unique_token) t)
  handle_event d (PollEvent.ready e) t = do
    n ← on_ready codec env fuel e t.node
    done (record t { node = n })

  unfoldable pub handle_events : Dialing → List PollEvent → Thread → Outcome Thread
  handle_events d [] t = done t
  handle_events d (e ∷ es) t = do t' ← handle_event d e t; handle_events d es t'

  -- One round of the loop, and whether there is another one.
  unfoldable pub round : List Text → Round → Thread → Outcome (Bool × Thread)
  round names r t =
      let t1 = bootstrap names r t in
      elim r.running [
        | false ↦ done (false, t1)
        | true ↦ (do
          t2 ← handle_events r.dialing r.events t1
          done (true, on_timer codec r (note_events r t2)))
      ]

  unfoldable pub rounds : List Text → List Round → Thread → Outcome Thread
  rounds names [] t = done t
  rounds names (r ∷ rs) t = do
    (more, t') ← round names r t
    elim more [ true ↦ rounds names rs t' | false ↦ done t' ]
