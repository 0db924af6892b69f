-- ===== src/P2p/Peer.antt =====
-- src/p2p/peer.rs and src/p2p/state.rs. An `Instant` is a number of milliseconds, and the functions
-- that look at the clock take the time.
use gis.Base.{
  ℕ, ◌+◌, ◌-◌, ◌/◌, ◌%◌, ◌^◌, Bool, true, false, ◌||◌, not, List, [], ◌∷◌, ltb, ◌==◌, if◌then◌else◌,
}
use gis.Bytes.{Bytes, Text}
use gis.Blockchain.Types.{Block}
use gis.P2p.Addr.{SocketAddr, is_loopback, same_ip, same_addr}
use gis.P2p.Message.{Message, Codec}

pub data State : Type 0 where
  connecting connected error banned send_loop loop twin : State
  idle offline : ℕ → State
  message : Bytes → State

abbrev pub state_message : Codec → Message → State
state_message codec m = State.message (codec.message_json m)

abbrev pub is_idle : State → Bool
is_idle (State.idle from) = true
is_idle _ = false

abbrev pub is_loop : State → Bool
is_loop State.loop = true
is_loop State.send_loop = true
is_loop _ = false

-- `from.elapsed().as_secs()` at the time `now`.
abbrev pub elapsed_secs : ℕ → ℕ → ℕ
elapsed_secs now from = (now - from) / 1000

abbrev pub state_disabled : ℕ → State → Bool
state_disabled now State.error = true
state_disabled now State.banned = true
state_disabled now (State.offline from) = ltb (elapsed_secs now from) 60
state_disabled now _ = false

abbrev pub need_reconnect : ℕ → State → Bool
need_reconnect now (State.offline from) = ltb 60 (elapsed_secs now from)
need_reconnect now _ = false

-- What a socket is registered for, and the bytes that the program has handed to it.
pub data Interest : Type 0 where
  readable writable : Interest

pub record TcpStream : Type 0 where
  pub interest : Interest
  pub sent : Bytes

-- `fork` is a map by index.
pub record Peer : Type 0 where
  pub addr : SocketAddr
  pub stream : TcpStream
  pub state : State
  pub id : Text
  pub height : ℕ
  pub inbound : Bool
  pub public : Bool
  pub active : Bool
  pub reconnects : ℕ
  pub spurious : ℕ
  pub received_block : ℕ
  pub fork : List Block

unfoldable pub new_peer : SocketAddr → TcpStream → State → Bool → Peer
new_peer addr stream state inbound = record {
  addr = addr;
  stream = stream;
  state = state;
  id = [];
  height = 0;
  inbound = inbound;
  public = false;
  active = false;
  reconnects = 0;
  spurious = 0;
  received_block = 0;
  fork = [];
}

abbrev pub set_state : State → Peer → Peer
set_state state p = record p { state = state }

abbrev pub set_height : ℕ → Peer → Peer
set_height height p = record p { height = height }

abbrev pub set_active : Peer → Peer
set_active p = record p { active = true }

abbrev pub set_public : Bool → Peer → Peer
set_public public p = record p { public = public }

abbrev pub set_received_block : ℕ → Peer → Peer
set_received_block index p = record p { received_block = index }

-- The counters are `u32`.
abbrev pub inc_reconnects : Peer → Peer
inc_reconnects p = record p { reconnects = (p.reconnects + 1) % 2 ^ 32 }

abbrev pub reset_reconnects : Peer → Peer
reset_reconnects p = record p { reconnects = 0 }

abbrev pub inc_spurious : Peer → Peer
inc_spurious p = record p { spurious = (p.spurious + 1) % 2 ^ 32 }

abbrev pub reset_spurious : Peer → Peer
reset_spurious p = record p { spurious = 0 }

abbrev pub reregister : Interest → Peer → Peer
reregister interest p = record p { stream = record { interest = interest; sent = p.stream.sent } }

abbrev pub is_higher : ℕ → Peer → Bool
is_higher height p = ltb height p.height

abbrev pub is_lower : ℕ → Peer → Bool
is_lower height p = ltb p.height height

unfoldable pub has_more_blocks : ℕ → Peer → Bool
has_more_blocks height p =
    if not (ltb height p.height)
    then false
    else if ltb height p.received_block
    then false
    else if not (is_idle p.state)
    then false
    else ltb height p.height

abbrev pub disabled : ℕ → Peer → Bool
disabled now p = state_disabled now p.state || ltb 2 p.reconnects

-- A peer on the loopback is known by address and port, any other by its address.
unfoldable pub equals : Peer → SocketAddr → Bool
equals p addr = if is_loopback p.addr.ip then same_addr p.addr addr else same_ip p.addr.ip addr.ip

insert_block : Block → List Block → List Block
insert_block b [] = b ∷ []
insert_block b (x ∷ xs) = if x.index == b.index then b ∷ xs else x ∷ insert_block b xs

unfoldable pub add_fork_block : Block → Peer → Peer
unfolding insert_block
add_fork_block block p = record p { fork = insert_block block p.fork }
