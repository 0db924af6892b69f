-- ===== src/P2p/Network/Handle.antt =====
-- `handle_message`: the answer to each message, and what it changes.
use gis.Base.{
  ℕ, Bool, true, false, ◌&&◌, ◌||◌, not, List, Option, none, some, ltb, ◌==◌, if◌then◌else◌, max,
  map, Outcome, done, ◌>>=◌, unwrap,
}
use gis.Bytes.{Bytes, Text, same_hash}
use gis.Commons.{chain_version}
use gis.Blockchain.Env.{Env}
use gis.Blockchain.Chain.State.{get_height, get_last_hash, update_max_height}
use gis.Blockchain.Chain.Queries.{get_block}
use gis.P2p.Message.{Message, Codec}
use gis.P2p.Peer.{Peer, State, state_message, set_height, set_active, set_public, reset_reconnects}
use gis.P2p.Peers.{
  Peers, get_peer, modify_peer, get_peers_active_count, is_our_own_connect, get_peers_for_exchange,
  add_peers_from_exchange,
}
use gis.P2p.Peers.Update.{max_nodes}
use gis.P2p.Network.Context.{Context, Event, post, set_chain}
use gis.P2p.Network.Blocks.{Node, handle_block}

-- The time, `random::<bool>()` and `random::<u8>()`.
pub record Chance : Type 0 where
  pub now : ℕ
  pub coin : Bool
  pub roll : ℕ

abbrev pub set_peers : Peers → Node → Node
set_peers ps n = record n { peers = ps }

-- A change of the peer behind an `unwrap` of `get_mut_peer`.
abbrev pub on_peer : ℕ → (Peer → Peer) → Node → Outcome Node
on_peer token f n = do
  peer ← unwrap (get_peer token n.peers)
  done (set_peers (modify_peer token f n.peers) n)

abbrev pub raise_max_height : ℕ → Context → Context
raise_max_height height x = set_chain (update_max_height height x.chain) x

-- A peer that has shaken hands is active, with its height, and tried anew.
abbrev pub shaken : ℕ → Peer → Peer
shaken height p = reset_reconnects (set_active (set_height height p))

abbrev pub seen_at : ℕ → Peer → Peer
seen_at height p = set_active (set_height height p)

abbrev pub note_syncing : ℕ → ℕ → Node → Node
note_syncing my_height height n =
    if ltb my_height height
    then record n {
      context =
          post (Event.syncing my_height (max height my_height)) (raise_max_height height n.context);
    }
    else n

module _ (codec : Codec) (c : Chance) where
  -- An answer that asks for more peers, or none.
  abbrev pub more_peers : Bool → State
  more_peers wanted = if wanted then state_message codec Message.get_peers else State.idle c.now

  unfoldable pub handle_hand : ℕ → Text → ℕ → Bool → Text → Node → Outcome (State × Node)
  handle_hand token origin version public rand n =
      if is_our_own_connect rand n.peers
      then done (State.send_loop, n)
      else if same_hash origin n.context.origin && version == chain_version
      then (do
        n' ← on_peer token (λ p. set_active (set_public public p)) n
        done (
          state_message codec (
              Message.shake n.context.app_version origin version true (get_height n.context.chain)),
          n',
        ))
      else done (State.banned, n)

  unfoldable pub handle_shake : ℕ → Text → ℕ → Bool → ℕ → Node → Outcome (State × Node)
  handle_shake token origin version accepted height n =
      if not (same_hash origin n.context.origin) || not (version == chain_version)
      then done (State.banned, n)
      else if accepted
      then (do
        n' ← on_peer token (shaken height) n
        done (
          if ltb (get_peers_active_count n.peers) max_nodes && c.coin
              then state_message codec Message.get_peers
              else State.idle c.now,
          note_syncing (get_height n.context.chain) height n',
        ))
      else done (State.banned, n)

  -- What a height and a hash ask for: the block of that height, one's own if only the hashes differ.
  abbrev pub wanted_block : ℕ → Bytes → Context → Option ℕ
  wanted_block height hash x =
      if ltb (get_height x.chain) height
      then some height
      else if get_height x.chain == height && not (same_hash hash (get_last_hash x.chain))
      then some (get_height x.chain)
      else none

  -- `max_height` follows a higher peer.
  abbrev pub follow : ℕ → Node → Node
  follow height n =
      if ltb (get_height n.context.chain) height
      then record n { context = raise_max_height height n.context }
      else n

  abbrev pub request_or : State → Option ℕ → State
  request_or answer none = answer
  request_or answer (some index) = state_message codec (Message.get_block index)

  unfoldable pub handle_ping : ℕ → ℕ → Bytes → Node → Outcome (State × Node)
  handle_ping token height hash n = do
    n' ← on_peer token (seen_at height) n
    done (
      request_or
          (state_message codec
            (Message.pong (get_height n.context.chain) (get_last_hash n.context.chain)))
          (wanted_block height hash n.context),
      follow height n',
    )

  unfoldable pub handle_pong : ℕ → ℕ → Bytes → Node → Outcome (State × Node)
  handle_pong token height hash n = do
    n' ← on_peer token (seen_at height) n
    done (
      request_or (more_peers (ltb (get_peers_active_count n.peers) max_nodes && ltb c.roll 50))
          (wanted_block height hash n.context),
      follow height n',
    )

  unfoldable pub handle_get_peers : ℕ → Node → Outcome (State × Node)
  handle_get_peers token n = do
    peer ← unwrap (get_peer token n.peers)
    let ps = modify_peer token set_active n.peers
    done (
      state_message codec
          (Message.peers (map codec.addr_text (get_peers_for_exchange c.now peer.addr ps))),
      set_peers ps n,
    )

  unfoldable pub handle_peers : ℕ → List Text → Node → Outcome (State × Node)
  handle_peers token new_peers n = do
    n' ← on_peer token set_active n
    done (State.idle c.now, set_peers (add_peers_from_exchange codec new_peers n'.peers) n')

  unfoldable pub handle_get_block : ℕ → ℕ → Node → Outcome (State × Node)
  handle_get_block token index n = do
    n' ← on_peer token set_active n
    done (
      elim (get_block index n.context.chain) [
        | some block ↦ state_message codec (Message.block block.index (codec.block_json block))
        | none ↦ State.error
      ],
      n',
    )

  -- The text of a block has to be one, and of the index that the message says.
  unfoldable pub handle_block_text : Env → ℕ → ℕ → ℕ → Text → Node → Outcome (State × Node)
  handle_block_text env fuel token index text n = do
    n' ← on_peer token set_active n
    elim (codec.parse_block text) [
      | none ↦ done (State.banned, n')
      | some block ↦ elim (index == block.index) [
        | false ↦ done (State.banned, n')
        | true ↦ handle_block env codec fuel c.now token block n'
      ]
    ]

  unfoldable pub handle_message : Env → ℕ → Message → ℕ → Node → Outcome (State × Node)
  handle_message env fuel (Message.hand version' origin version public rand) token n =
      handle_hand token origin version public rand n
  handle_message env fuel (Message.shake version' origin version accepted height) token n =
      handle_shake token origin version accepted height n
  handle_message env fuel Message.error token n = done (State.error, n)
  handle_message env fuel (Message.ping height hash) token n = handle_ping token height hash n
  handle_message env fuel (Message.pong height hash) token n = handle_pong token height hash n
  handle_message env fuel Message.get_peers token n = handle_get_peers token n
  handle_message env fuel (Message.peers new_peers) token n = handle_peers token new_peers n
  handle_message env fuel (Message.get_block index) token n = handle_get_block token index n
  handle_message env fuel (Message.block index text) token n =
      handle_block_text env fuel token index text n
  handle_message env fuel Message.twin token n = done (State.twin, n)
  handle_message env fuel Message.loop token n = done (State.loop, n)
