-- ===== src/P2p/Tests/Sync.antt =====
-- The theorems about synchronisation and about the bytes of messages, at concrete inputs.
use gis.Base.{
  ℕ, ◌<◌, true, false, List, [], ◌∷◌, ◌++◌, none, some, done, stuck, ◌≡◌, refl, arith, take,
}
use gis.Bytes.{Bytes, value_be}
use gis.Blockchain.Types.{Block}
use gis.Blockchain.Tests.{env, block_at, zeros, genesis, chain1}
use gis.Blockchain.Chain.Growth.{SameStore}
use gis.P2p.Message.{Message}
use gis.P2p.Peer.{Peer, State, state_message, set_received_block}
use gis.P2p.Peers.{Peers, find_peer}
use gis.P2p.Peers.Update.{Draws, update, ask_higher}
use gis.P2p.Network.Stream.{Read, frame, read_message}
use gis.P2p.Network.Stream
use gis.P2p.Network.Blocks.{Node}
use gis.P2p.Network.Handle.{seen_at, set_peers}
use gis.P2p.Network.Loop.{on_writable}
use gis.P2p.Network.Sync.{Requests, update-Requests}
use gis.P2p.Network.Stalls.{ping_stalls}
use gis.P2p.Network.Framing.{reads_of, read_message-frame}
use gis.P2p.Network.Cut.{read_message_late, read_message_closed}
use gis.P2p.Tests.{codec, chance, draws, peer_at, peers, context, node, net_runs}

update-Requests_example :
    (t : ℕ) × (p : Peer) × (find_peer t (update codec draws 1 zeros peers).peers ≡ some p)
    × Requests codec draws 1 zeros p
    × ((q : Peer) × (find_peer t
            (on_writable codec 0 t (set_peers (update codec draws 1 zeros peers) node)).peers.peers
          ≡ some q)
        × (q.stream.sent
            ≡ p.stream.sent ++ Stream.frame (codec.message_json (Message.get_block 2))))
unfolding net_runs
update-Requests_example =
    update-Requests codec draws 1 zeros peers 2 0 (peer_at 3 (State.idle 30000) 5) node
      (refl, (refl, tt)) (refl, (refl, tt)) refl refl refl

abbrev fifth : Block
fifth = block_at 5 zeros 16 none

abbrev lone : Peer
lone = peer_at 2 (State.idle 0) 1

abbrev lone_peers : Peers
lone_peers = record peers { peers = (1, lone) ∷ [] }

abbrev lone_node : Node
lone_node = record node { peers = lone_peers }

abbrev pinged : Node
pinged = record {
  context = record context { chain = record chain1 { max_height = 5 } };
  peers = record lone_peers { peers = (1, seen_at 5 lone) ∷ [] };
}

abbrev received : Node
received = record pinged {
  peers = record lone_peers { peers = (1, set_received_block 5 (seen_at 5 lone)) ∷ [] };
}

ping_stalls_example :
    (State.message (77 ∷ []) ≡ state_message codec (Message.get_block 5))
    × SameStore chain1 received.context.chain
    × ((d : Draws) (h : ℕ) (hash : Bytes)
        → h < 5
        → ask_higher codec d h hash received.peers.peers ≡ received.peers.peers)
unfolding net_runs
ping_stalls_example =
    ping_stalls env codec 9 1000 1 5 zeros chance lone fifth genesis lone_node pinged received
      (State.message (77 ∷ [])) (State.idle 1000) refl refl (omega arith) (omega arith) refl refl
      refl

-- A message of three bytes, in two pieces.
abbrev pieces : List Read
pieces = Read.bytes (1 ∷ []) ∷ Read.would_block false ∷ Read.bytes (2 ∷ 3 ∷ []) ∷ []

read_message-frame_example :
    read_message 9 (value_be 0 (take 4 (frame (1 ∷ 2 ∷ 3 ∷ [])))) (reads_of pieces)
    ≡ done (some (1 ∷ 2 ∷ 3 ∷ []))
unfolding net_runs
read_message-frame_example =
    read_message-frame 9 (1 ∷ 2 ∷ 3 ∷ []) pieces (omega arith) (omega arith) (omega arith)
      (2 ∷ 3 ∷ [], refl, ([], refl, refl))

read_message_late_example :
    read_message 9 5 (reads_of (pieces ++ (Read.would_block true ∷ [])))
    ≡ done (some ((1 ∷ 2 ∷ 3 ∷ []) ++ Stream.zeros 2))
read_message_late_example =
    read_message_late 9 5 pieces (1 ∷ 2 ∷ 3 ∷ []) (omega arith) (omega arith) (omega arith)
      (2 ∷ 3 ∷ [], refl, ([], refl, refl))

read_message_closed_example : read_message 9 5 (λ i. Read.bytes []) ≡ stuck
read_message_closed_example =
    read_message_closed 9 5 (λ i. Read.bytes []) (omega arith) (omega arith) (λ i. refl)
