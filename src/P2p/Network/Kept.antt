-- ===== src/P2p/Network/Kept.antt =====
-- A property of the peers that meets `PeersLaws` survives every message.
use gis.Base.{
  ℕ, Bool, true, false, not, ◌&&◌, ◌||◌, List, Option, none, some, ltb, ◌==◌, ◌≡◌, refl, arith, inl,
  inr, Bool-cases, Option-cases, done, unwrap,
}
use gis.Bytes.{Bytes, Text, same_hash}
use gis.Commons.{chain_version}
use gis.Blockchain.Types.{Block, BlockQuality}
use gis.Blockchain.Env.{Env}
use gis.Blockchain.Chain.Check.{check_new_block}
use gis.Blockchain.Chain.Update.{add_block}
use gis.P2p.Message.{Message, Codec}
use gis.P2p.Peer.{Peer, State, set_active, set_public, set_received_block}
use gis.P2p.Peers.{Peers, find_peer, modify_peer, is_our_own_connect, get_peers_active_count}
use gis.P2p.Peers.Update.{max_nodes}
use gis.P2p.Network.Context.{Context, set_chain}
use gis.P2p.Network.Blocks.{
  Node, is_forbidden, handle_fork, handle_quality, judge_block, handle_block,
}
use gis.P2p.Network.Handle.{
  Chance, set_peers, on_peer, handle_hand, handle_shake, handle_ping, handle_pong, handle_get_peers,
  handle_peers, handle_get_block, handle_block_text, handle_message, more_peers, shaken, seen_at,
  wanted_block, request_or,
}
use gis.P2p.Network.Laws.{
  PeersLaws, IsMild, quiet, is_offline, After, After-bind, After-if, After-any,
}

module _ (Good : Peers → Type 0) (laws : PeersLaws Good) where
  -- What holds of an answer and the state behind it.
  abbrev pub Fine : State × Node → Type 0
  Fine (state, n) = (is_offline state ≡ false) × Good n.peers

  abbrev pub FineNode : Node → Type 0
  FineNode n = Good n.peers

  pub on_peer-Good :
      (token : ℕ) (f : Peer → Peer) (n : Node)
      → IsMild f
      → Good n.peers
      → After FineNode (on_peer token f n)
  on_peer-Good token f n mild good =
      After-bind (λ p. Unit) FineNode (unwrap (find_peer token n.peers.peers))
        (λ p. done (set_peers (modify_peer token f n.peers) n))
        (After-any (unwrap (find_peer token n.peers.peers)))
        (λ p u. laws.changed token f n.peers mild good)

  module _ (codec : Codec) (c : Chance) (token : ℕ) (n : Node) (good : Good n.peers) where
    handle_hand-Fine :
        (origin : Text) (version : ℕ) (public : Bool) (rand : Text)
        → After Fine (handle_hand codec c token origin version public rand n)
    unfolding handle_hand
    handle_hand-Fine origin version public rand =
        After-if Fine (is_our_own_connect rand n.peers) _ _ (refl, good)
          (After-if Fine (same_hash origin n.context.origin && version == chain_version) _ _
            (After-bind FineNode Fine _ _
              (on_peer-Good token (λ p. set_active (set_public public p)) n
                (quiet _ (λ p. refl) (λ p. refl)) good)
              (λ n' g. (refl, g)))
            (refl, good))

    more_peers_online : (b : Bool) → is_offline (more_peers codec c b) ≡ false
    more_peers_online true = refl
    more_peers_online false = refl

    request_or_online :
        (s : State) (wanted : Option ℕ)
        → is_offline s ≡ false
        → is_offline (request_or codec c s wanted) ≡ false
    request_or_online s none h = h
    request_or_online s (some index) h = refl

    handle_shake-Fine :
        (origin : Text) (version : ℕ) (taken : Bool) (height : ℕ)
        → After Fine (handle_shake codec c token origin version taken height n)
    unfolding handle_shake
    handle_shake-Fine origin version taken height =
        After-if Fine (not (same_hash origin n.context.origin) || not (version == chain_version)) _
          _ (refl, good)
          (After-if Fine taken _ _
            (After-bind FineNode Fine _ _
              (on_peer-Good token (shaken height) n (quiet _ (λ p. refl) (λ p. refl)) good)
              (λ n' g. (
                more_peers_online (ltb (get_peers_active_count n.peers) max_nodes && c.coin),
                ground arith,
              )))
            (refl, good))

    handle_ping-Fine :
        (height : ℕ) (hash : Bytes) → After Fine (handle_ping codec c token height hash n)
    unfolding handle_ping
    handle_ping-Fine height hash =
        After-bind FineNode Fine _ _
          (on_peer-Good token (seen_at height) n (quiet _ (λ p. refl) (λ p. refl)) good)
          (λ n' g.
            (request_or_online _ (wanted_block codec c height hash n.context) refl, ground arith))

    handle_pong-Fine :
        (height : ℕ) (hash : Bytes) → After Fine (handle_pong codec c token height hash n)
    unfolding handle_pong
    handle_pong-Fine height hash =
        After-bind FineNode Fine _ _
          (on_peer-Good token (seen_at height) n (quiet _ (λ p. refl) (λ p. refl)) good)
          (λ n' g. (
            request_or_online _ (wanted_block codec c height hash n.context) (
                more_peers_online
                  (ltb (get_peers_active_count n.peers) max_nodes && ltb c.roll 50)),
            ground arith,
          ))

    active_Good : Good (modify_peer token set_active n.peers)
    active_Good = laws.changed token set_active n.peers (quiet _ (λ p. refl) (λ p. refl)) good

    handle_get_peers-Fine : After Fine (handle_get_peers codec c token n)
    unfolding handle_get_peers
    handle_get_peers-Fine =
        After-bind (λ p. Unit) Fine (unwrap (find_peer token n.peers.peers)) _
          (After-any (unwrap (find_peer token n.peers.peers))) (λ p u. (refl, active_Good))

    active-Good : After FineNode (on_peer token set_active n)
    active-Good = on_peer-Good token set_active n (quiet _ (λ p. refl) (λ p. refl)) good

    handle_peers-Fine : (texts : List Text) → After Fine (handle_peers codec c token texts n)
    unfolding handle_peers
    handle_peers-Fine texts =
        After-bind FineNode Fine _ _ active-Good
          (λ n' g. (refl, laws.exchanged codec texts n'.peers g))

    handle_get_block-Fine : (index : ℕ) → After Fine (handle_get_block codec c token index n)
    unfolding handle_get_block
    handle_get_block-Fine index =
        After-bind FineNode Fine _ _ active-Good (λ n' g. (ground arith, g))

    module _ (env : Env) (fuel : ℕ) where
      Online : State × Context → Type 0
      Online (state, x) = is_offline state ≡ false

      handle_quality-Online :
          (count max_height : ℕ) (block : Block) (q : BlockQuality) (x : Context)
          → After Online (handle_quality env codec c.now count block max_height q x)
      unfolding handle_quality Online
      handle_quality-Online count max_height block BlockQuality.good x =
          After-bind (λ d. Unit) Online _ _ (After-any (add_block block x.chain)) (λ d u. refl)
      handle_quality-Online count max_height block BlockQuality.twin x = refl
      handle_quality-Online count max_height block BlockQuality.future x = refl
      handle_quality-Online count max_height block BlockQuality.rewind x = refl
      handle_quality-Online count max_height block BlockQuality.bad x = refl
      handle_quality-Online count max_height block BlockQuality.fork x =
          After-bind (λ d. Unit) Online _ _ (After-any (handle_fork env block x)) (λ d u. refl)

      judge_block-Online :
          (count : ℕ) (block : Block) (forbidden : Bool) (x : Context)
          → After Online (judge_block env codec fuel c.now count block forbidden x)
      unfolding judge_block Online
      judge_block-Online count block true x = refl
      judge_block-Online count block false x =
          After-bind (λ r. Unit) Online (check_new_block env fuel block x.chain) _
            (After-any (check_new_block env fuel block x.chain))
            (λ r u. handle_quality-Online count x.chain.max_height block r.0 (set_chain r.1 x))

  module _ (codec : Codec) (c : Chance) (env : Env) (fuel token : ℕ) where
    pub handle_block-Fine :
        (block : Block) (n : Node)
        → Good n.peers
        → After Fine (handle_block env codec fuel c.now token block n)
    unfolding handle_block Online
    handle_block-Fine block n good =
        After-bind (λ p. Unit) Fine (unwrap (find_peer token n.peers.peers)) _
          (After-any (unwrap (find_peer token n.peers.peers)))
          (λ p u.
            After-bind (Online codec c token n good env fuel) Fine _ _
              (judge_block-Online codec c token n good env fuel (get_peers_active_count n.peers)
                block (is_forbidden block.transaction n.context) n.context)
              (λ a online. (
                online,
                laws.changed token (set_received_block block.index) n.peers
                    (quiet _ (λ q. refl) (λ q. refl)) good,
              )))

    handle_block_text-Fine :
        (index : ℕ) (text : Text) (n : Node)
        → Good n.peers
        → After Fine (handle_block_text codec c env fuel token index text n)
    unfolding handle_block_text
    handle_block_text-Fine index text n good =
        After-bind FineNode Fine _ _ (active-Good codec c token n good) (λ n' g.
          elim (Option-cases (codec.parse_block text)) [
            | inl failed ↦ rw failed (refl, g)
            | inr (block, parsed) ↦ rw parsed (elim (Bool-cases (index == block.index)) [
              | inr other ↦ rw other (refl, g)
              | inl same ↦ rw same (handle_block-Fine block n' g)
            ])
          ])

    pub handle_message-Fine :
        (m : Message) (n : Node)
        → Good n.peers
        → After Fine (handle_message codec c env fuel m token n)
    unfolding handle_message
    handle_message-Fine (Message.hand v origin version public rand) n good =
        handle_hand-Fine codec c token n good origin version public rand
    handle_message-Fine (Message.shake v origin version taken height) n good =
        handle_shake-Fine codec c token n good origin version taken height
    handle_message-Fine Message.error n good = (refl, good)
    handle_message-Fine (Message.ping height hash) n good =
        handle_ping-Fine codec c token n good height hash
    handle_message-Fine (Message.pong height hash) n good =
        handle_pong-Fine codec c token n good height hash
    handle_message-Fine Message.get_peers n good = handle_get_peers-Fine codec c token n good
    handle_message-Fine (Message.peers texts) n good = handle_peers-Fine codec c token n good texts
    handle_message-Fine (Message.get_block index) n good =
        handle_get_block-Fine codec c token n good index
    handle_message-Fine (Message.block index text) n good = handle_block_text-Fine index text n good
    handle_message-Fine Message.twin n good = (refl, good)
    handle_message-Fine Message.loop n good = (refl, good)
