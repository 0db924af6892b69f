-- ===== src/P2p/Network/Stalls.antt =====
-- How the synchronisation with a single peer comes to a halt.
use gis.Base.{
  ℕ, ◌+◌, ◌^◌, ◌<◌, Bool, true, false, [], ◌∷◌, some, ◌≡◌, refl, sym, ap, subst, ◌∙◌, arith, ◌⊎◌,
  inl, inr, Option-cases, done, unwrap, >>=-eq-done, done_injective, add64,
}
use gis.Bytes.{Bytes}
use gis.Blockchain.Types.{Block, BlockQuality}
use gis.Blockchain.Types.BlockQuality.{good, twin, future, rewind, bad, fork}
use gis.Blockchain.Env.{Env}
use gis.Blockchain.Chain.State.{Chain, get_height}
use gis.Blockchain.Chain.Check.{check_new_block, check_block, check_front}
use gis.Blockchain.Chain.Growth.{SameStore}
use gis.P2p.Message.{Message, Codec}
use gis.P2p.Peer.{Peer, State, state_message, has_more_blocks, set_received_block}
use gis.P2p.Peers.{find_peer, change_peer, modify_peer, get_peers_active_count}
use gis.P2p.Peers.Update.{Draws, choose, candidates, ask_higher}
use gis.P2p.Network.Context.{Context, set_chain}
use gis.P2p.Network.Blocks.{Node, is_forbidden, judge_block, handle_quality, handle_block}
use gis.P2p.Network.Handle.{Chance, handle_ping, seen_at}

-- A block that is too far ahead is not judged further.
far_quality :
    (env : Env) (fuel : ℕ) (block last : Block) (c c' : Chain) (q : BlockQuality)
    → c.last_block ≡ some last
    → add64 last.index 1 < block.index
    → check_new_block env fuel block c ≡ done (q, c')
    → (c' ≡ c) × ((q ≡ bad) ⊎ (q ≡ future))
unfolding check_new_block check_block check_front
far_quality env fuel block last c c' q cached far e = ground arith

far_kept :
    (env : Env) (codec : Codec) (now count max_height : ℕ) (block : Block) (q : BlockQuality)
    (x x' : Context) (state : State)
    → (q ≡ bad) ⊎ (q ≡ future)
    → handle_quality env codec now count block max_height q x ≡ done (state, x')
    → SameStore x.chain x'.chain
unfolding handle_quality
far_kept env codec now count max_height block good x x' state h e = absurd (ground arith)
far_kept env codec now count max_height block twin x x' state h e = absurd (ground arith)
far_kept env codec now count max_height block rewind x x' state h e = absurd (ground arith)
far_kept env codec now count max_height block fork x x' state h e = absurd (ground arith)
far_kept env codec now count max_height block future x x' state h e =
    subst (λ r. SameStore x.chain r.1.chain) (done_injective e) (refl, refl, refl)
far_kept env codec now count max_height block bad x x' state h e =
    subst (λ r. SameStore x.chain r.1.chain) (done_injective e) (refl, refl, refl)

judge_far :
    (env : Env) (codec : Codec) (fuel now count : ℕ) (block last : Block) (forbidden : Bool)
    (x x' : Context) (state : State)
    → x.chain.last_block ≡ some last
    → add64 last.index 1 < block.index
    → judge_block env codec fuel now count block forbidden x ≡ done (state, x')
    → SameStore x.chain x'.chain
unfolding judge_block
judge_far env codec fuel now count block last true x x' state cached far e =
    subst (λ r. SameStore x.chain r.1.chain) (done_injective e) (refl, refl, refl)
judge_far env codec fuel now count block last false x x' state cached far e =
    let (r, checked, e1) = >>=-eq-done (check_new_block env fuel block x.chain) _ e in
    let (same, q) = far_quality env fuel block last x.chain r.1 r.0 cached far checked in
    subst (λ d. SameStore d x'.chain) same
      (far_kept env codec now count x.chain.max_height block r.0 (set_chain r.1 x) x' state q e1)

-- The only peer has sent a block above the height, and is not asked.
lone_not_asked :
    (codec : Codec) (d : Draws) (height token index : ℕ) (hash : Bytes) (p : Peer)
    → height < index
    → p.received_block ≡ index
    → ask_higher codec d height hash ((token, p) ∷ []) ≡ (token, p) ∷ []
unfolding ask_higher choose candidates has_more_blocks
lone_not_asked codec d height token index hash p below received = ground arith

changed_lone :
    (token : ℕ) (f : Peer → Peer) (p : Peer)
    → change_peer token f ((token, p) ∷ []) ≡ (token, f p) ∷ []
unfolding change_peer
changed_lone token f p = ground arith

-- The ping of a higher peer: its height is noted, and its block of that height is asked for.
pinged_higher :
    (codec : Codec) (token height : ℕ) (hash : Bytes) (c : Chance) (n n1 : Node) (state : State)
    → get_height n.context.chain < height
    → handle_ping codec c token height hash n ≡ done (state, n1)
    → (state ≡ state_message codec (Message.get_block height))
      × SameStore n.context.chain n1.context.chain
      × (n1.peers ≡ modify_peer token (seen_at height) n.peers)
unfolding handle_ping
pinged_higher codec token height hash c n n1 state above e =
    elim (Option-cases (find_peer token n.peers.peers)) [
      | inl missing ↦ absurd (ground arith)
      | inr (p, found) ↦ (ground arith, (ground arith, ground arith, ground arith), ground arith)
    ]

received_far :
    (env : Env) (codec : Codec) (fuel now token : ℕ) (block last : Block) (n n' : Node)
    (state : State)
    → n.context.chain.last_block ≡ some last
    → add64 last.index 1 < block.index
    → handle_block env codec fuel now token block n ≡ done (state, n')
    → SameStore n.context.chain n'.context.chain
      × (n'.peers ≡ modify_peer token (set_received_block block.index) n.peers)
unfolding handle_block
received_far env codec fuel now token block last n n' state cached far e =
    let (p, found, e1) = >>=-eq-done (unwrap (find_peer token n.peers.peers)) _ e in
    let (r, judged, e2) =
      >>=-eq-done
        (judge_block env codec fuel now (get_peers_active_count n.peers) block
          (is_forbidden block.transaction n.context) n.context)
        _ e1 in
    let made = done_injective e2 in
    (
      subst (λ a. SameStore n.context.chain a.1.context.chain) made
          (judge_far env codec fuel now (get_peers_active_count n.peers) block last
            (is_forbidden block.transaction n.context) n.context r.1 r.0 cached far judged),
      ap (λ a. a.1.peers) (sym made),
    )

-- A node with a single peer learns from its ping of a height two or more above its own. It answers by
-- asking for the block of that height; when it gets it, the chain keeps its store and its last blocks;
-- and then, for every height below, the stage of `update` that asks higher peers for blocks asks this
-- peer for none.
pub ping_stalls :
    (env : Env) (codec : Codec) (fuel now token height : ℕ) (hash : Bytes) (c : Chance)
    (peer : Peer) (block last : Block) (n n1 n2 : Node) (state state' : State)
    → n.peers.peers ≡ (token, peer) ∷ []
    → n.context.chain.last_block ≡ some last
    → last.index + 1 < height
    → height < 2 ^ 64
    → block.index ≡ height
    → handle_ping codec c token height hash n ≡ done (state, n1)
    → handle_block env codec fuel now token block n1 ≡ done (state', n2)
    → (state ≡ state_message codec (Message.get_block height))
      × SameStore n.context.chain n2.context.chain
      × ((d : Draws) (h : ℕ) (hash' : Bytes)
          → h < height
          → ask_higher codec d h hash' n2.peers.peers ≡ n2.peers.peers)
unfolding get_height
ping_stalls env codec fuel now token height hash c peer block last n n1 n2 state state' lone cached
      far within same pinged received =
    let (asked, kept, peers1) =
      pinged_higher codec token height hash c n n1 state (rw cached (omega arith)) pinged in
    let (kept', peers2) =
      received_far env codec fuel now token block last n1 n2 state' (kept.1 ∙ cached) (omega arith)
        received in
    let p2 = set_received_block block.index (seen_at height peer) in
    let lone2 : n2.peers.peers ≡ (token, p2) ∷ [] = ground (
      arith,
      changed_lone token (seen_at height) peer,
      changed_lone token (set_received_block block.index) (seen_at height peer),
    ) in
    (
      asked,
      (kept'.0 ∙ kept.0, kept'.1 ∙ kept.1, kept'.2 ∙ kept.2),
      λ d h hash' below. rw lone2 (lone_not_asked codec d h token height hash' p2 below same),
    )
