-- ===== src/P2p/Network/Blocks.antt =====
-- `handle_block`: what a block from a peer does to the chain.
use gis.Base.{
  ℕ, Bool, true, false, Option, none, some, ◌==◌, if◌then◌else◌, max, Outcome, done, ◌>>=◌, unwrap,
  sub64,
}
use gis.Commons.{to_hex}
use gis.Blockchain.Types.{Block, Transaction, BlockQuality, TransactionType, is_better_than}
use gis.Blockchain.Types.BlockQuality.{good, twin, future, rewind, bad, fork}
use gis.Blockchain.Env.{Env, get_type}
use gis.Blockchain.Chain.State.{get_height, contains, update_max_height}
use gis.Blockchain.Chain.Check.{check_new_block}
use gis.Blockchain.Chain.Update.{add_block, replace_block}
use gis.P2p.Message.{Message, Codec}
use gis.P2p.Peer.{State, state_message, set_received_block}
use gis.P2p.Peers.{Peers, get_peer, modify_peer, get_peers_active_count}
use gis.P2p.Network.Context.{Context, Event, post, set_chain}

-- The network's state: what it shares with the node, and its peers.
pub record Node : Type 0 where
  pub context : Context
  pub peers : Peers

abbrev pub is_zone_type : TransactionType → Bool
is_zone_type TransactionType.zone = true
is_zone_type _ = false

abbrev pub post_if : Bool → Event → Context → Context
post_if b e x = if b then post e x else x

-- Whether a transaction takes one of the zones that others own.
abbrev pub is_forbidden : Option Transaction → Context → Bool
is_forbidden none x = false
is_forbidden (some t) x = contains (to_hex t.identity) x.zone_hashes

-- The events behind a block that was added: `max_height` is from before the check.
abbrev pub announce_good : Bool → ℕ → ℕ → Context → Context
announce_good zone peers_count max_height x =
    let my_height = get_height x.chain in
    let x1 = post_if zone Event.zones_changed (post (Event.blockchain_changed my_height) x) in
    let x2 =
      post
        (if my_height == max_height
          then Event.sync_finished
          else Event.syncing my_height (max max_height my_height))
        x1 in
    post (Event.network_status peers_count my_height) x2

abbrev pub finish_sync : Context → Context
finish_sync x =
    post Event.sync_finished (set_chain (update_max_height (get_height x.chain) x.chain) x)

module _ (env : Env) where
  abbrev pub is_zone_block : Block → Bool
  is_zone_block block = is_zone_type (get_type env block.transaction)

  -- A fork that is better than the last block takes its place.
  unfoldable pub take_fork : Bool → Block → Context → Outcome Context
  take_fork false block x = done (finish_sync x)
  take_fork true block x = do
    c ← replace_block block x.chain
    done (
        finish_sync (
          post_if (is_zone_block block) Event.zones_changed
            (post (Event.blockchain_changed (get_height c)) (set_chain c x))))

  unfoldable pub handle_fork : Block → Context → Outcome Context
  handle_fork block x = do
    last ← unwrap x.chain.last_block
    better ← is_better_than block last
    take_fork better block x

  -- The branch by the quality; the answer is the peer's new state, where the code gives one early.
  unfoldable pub handle_quality :
      Codec → ℕ → ℕ → Block → ℕ → BlockQuality → Context → Outcome (State × Context)
  handle_quality codec now peers_count block max_height good x = do
    c ← add_block block x.chain
    done
        (State.idle now, announce_good (is_zone_block block) peers_count max_height (set_chain c x))
  handle_quality codec now peers_count block max_height twin x = done (State.idle now, x)
  handle_quality codec now peers_count block max_height future x = done (State.idle now, x)
  handle_quality codec now peers_count block max_height bad x = done (State.banned, finish_sync x)
  handle_quality codec now peers_count block max_height rewind x =
      done (state_message codec (Message.get_block (sub64 block.index 1)), x)
  handle_quality codec now peers_count block max_height fork x = do
    x' ← handle_fork block x
    done (State.idle now, x')

  -- The part behind the test for forbidden zones. `fuel` is that of `check_block`.
  unfoldable pub judge_block :
      Codec → ℕ → ℕ → ℕ → Block → Bool → Context → Outcome (State × Context)
  judge_block codec fuel now peers_count block true x = done (State.banned, x)
  judge_block codec fuel now peers_count block false x = do
    (quality, c) ← check_new_block env fuel block x.chain
    handle_quality codec now peers_count block x.chain.max_height quality (set_chain c x)

  unfoldable pub handle_block : Codec → ℕ → ℕ → ℕ → Block → Node → Outcome (State × Node)
  handle_block codec fuel now token block n = do
    peer ← unwrap (get_peer token n.peers)
    (state, x) ←
        judge_block codec fuel now (get_peers_active_count n.peers) block
          (is_forbidden block.transaction n.context) n.context
    done (
      state,
      record { context = x; peers = modify_peer token (set_received_block block.index) n.peers },
    )
