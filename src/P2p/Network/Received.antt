-- ===== src/P2p/Network/Received.antt =====
-- What a block from a peer makes of the chain.
use gis.Base.{
  ℕ, ◌+◌, ◌^◌, ◌≤◌, ◌<◌, Bool, true, false, ◌≡◌, ◌∙◌, refl, sym, ap, subst, arith, ◌⊎◌, inl, inr,
  done, unwrap, >>=-eq-done, done_injective,
}
use gis.Blockchain.Types.{Block, BlockQuality, is_better_than}
use gis.Blockchain.Types.BlockQuality.{good, twin, future, rewind, bad, fork}
use gis.Blockchain.Env.{Env}
use gis.Blockchain.Chain.State.{Chain, get_height}
use gis.Blockchain.Chain.Check.{check_new_block}
use gis.Blockchain.Chain.Update.{add_block, replace_block}
use gis.Blockchain.Chain.Keeps.{with_signers, check_block-with_signers}
use gis.Blockchain.Chain.Integrity.{IsLinked}
use gis.Blockchain.Chain.Growth.{IsSound, SameStore, same_store, moved, add_good_block-IsSound}
use gis.Blockchain.Chain.Forked.{fork_replaces}
use gis.P2p.Message.{Codec}
use gis.P2p.Peer.{State}
use gis.P2p.Peers.{find_peer, get_peers_active_count}
use gis.P2p.Network.Context.{Context, Event, post, set_chain}
use gis.P2p.Network.Blocks.{
  Node, is_forbidden, post_if, announce_good, finish_sync, is_zone_block, handle_fork, take_fork,
  handle_quality, judge_block, handle_block,
}

-- The chain has the block on top of the old one.
pub record Grew (block last : Block) (c : Chain) : Type 0 where
  pub sound : IsSound c block
  pub next : block.index ≡ last.index + 1
  pub parent : block.prev_block_hash ≡ last.hash

-- The chain ends with the block now, at an index that it had, and the block is the better one.
pub record Gave (block last : Block) (c : Chain) : Type 0 where
  pub linked : IsLinked c.db block
  pub height : get_height c ≡ block.index
  pub within : block.index ≤ last.index
  pub better : is_better_than block last ≡ done true

abbrev pub Moves : Block → Block → Chain → Chain → Type 0
Moves block last c c' = SameStore c c' ⊎ (Grew block last c' ⊎ Gave block last c')

announce_good-chain :
    (zone : Bool) (count max_height : ℕ) (x : Context)
    → (announce_good zone count max_height x).chain ≡ x.chain
announce_good-chain zone count max_height x = ground arith

post_if-chain : (b : Bool) (e : Event) (x : Context) → (post_if b e x).chain ≡ x.chain
post_if-chain true e x = refl
post_if-chain false e x = refl

-- The height that the network knows of is no part of this.
Gave-finish_sync :
    (block last : Block) (c : Chain) (x : Context)
    → Gave block last c
    → x.chain ≡ c
    → Gave block last (finish_sync x).chain
unfolding get_height
Gave-finish_sync block last c x g e = record {
  linked = subst (λ d. IsLinked d.db block) (sym e) g.linked;
  height = subst (λ d. get_height d ≡ block.index) (sym e) g.height;
  within = g.within;
  better = g.better;
}

module _ (env : Env) (fuel : ℕ) (block last : Block) (c c1 : Chain) (sound : IsSound c last)
    (fits : last.index + 1 < 2 ^ 63) (two : 2 ≤ block.index) where
  of_store : SameStore c c1 → IsSound c1 last
  of_store same = moved c c1 last same sound

  take_fork-Moves :
      (better : Bool) (x x' : Context)
      → check_new_block env fuel block c ≡ done (fork, c1)
      → SameStore c c1
      → is_better_than block last ≡ done better
      → take_fork env better block (set_chain c1 x) ≡ done x'
      → Moves block last c x'.chain
  unfolding take_fork
  take_fork-Moves false x x' checked same compared e =
      subst (λ y. Moves block last c y.chain) (done_injective e) (inl same)
  take_fork-Moves true x x' checked same compared e =
      let (c2, made, linked, height, within) =
        fork_replaces env fuel block last c c1 sound two checked in
      let (c3, made', e') = >>=-eq-done (replace_block block c1) _ e in
      let same_chain : c2 ≡ c3 = done_injective (sym made ∙ made') in
      let gave : Gave block last c3 = record {
        linked = subst (λ d. IsLinked d.db block) same_chain linked;
        height = subst (λ d. get_height d ≡ block.index) same_chain height;
        within = within;
        better = compared;
      } in
      let posted = post (Event.blockchain_changed (get_height c3)) (set_chain c3 x) in
      subst (λ y. Moves block last c y.chain) (done_injective e')
        (inr (
          inr (
            Gave-finish_sync block last c3
              (post_if (is_zone_block env block) Event.zones_changed posted) gave
              (post_if-chain (is_zone_block env block) Event.zones_changed posted))))

  handle_fork-Moves :
      (x x' : Context)
      → check_new_block env fuel block c ≡ done (fork, c1)
      → SameStore c c1
      → handle_fork env block (set_chain c1 x) ≡ done x'
      → Moves block last c x'.chain
  unfolding handle_fork
  handle_fork-Moves x x' checked same e =
      let (l, found, e1) = >>=-eq-done (unwrap c1.last_block) _ e in
      let is_last : l ≡ last =
        done_injective (sym found ∙ ap (λ o. unwrap o) (of_store same).cached) in
      let (better, compared, e2) = >>=-eq-done (is_better_than block l) _ e1 in
      take_fork-Moves better x x' checked same
        (subst (λ b. is_better_than block b ≡ done better) is_last compared) e2

  handle_quality-Moves :
      (codec : Codec) (now count max_height : ℕ) (q : BlockQuality) (x x' : Context) (state : State)
      → check_new_block env fuel block c ≡ done (q, c1)
      → SameStore c c1
      → handle_quality env codec now count block max_height q (set_chain c1 x) ≡ done (state, x')
      → Moves block last c x'.chain
  unfolding handle_quality
  handle_quality-Moves codec now count max_height good x x' state checked same e =
      let (c2, made, grown, next, parent) =
        add_good_block-IsSound env fuel block last c c1 sound fits (omega arith) checked in
      let (c3, made', e') = >>=-eq-done (add_block block c1) _ e in
      let same_chain : c2 ≡ c3 = done_injective (sym made ∙ made') in
      let at : x'.chain ≡ c2 =
        ap (λ r. r.1.chain) (sym (done_injective e'))
        ∙ (announce_good-chain (is_zone_block env block) count max_height (set_chain c3 x)
            ∙ sym same_chain) in
      inr (
        inl (record {
          sound = subst (λ d. IsSound d block) (sym at) grown;
          next = next;
          parent = parent;
        }))
  handle_quality-Moves codec now count max_height twin x x' state checked same e =
      subst (λ r. Moves block last c r.1.chain) (done_injective e) (inl same)
  handle_quality-Moves codec now count max_height future x x' state checked same e =
      subst (λ r. Moves block last c r.1.chain) (done_injective e) (inl same)
  handle_quality-Moves codec now count max_height rewind x x' state checked same e =
      subst (λ r. Moves block last c r.1.chain) (done_injective e) (inl same)
  handle_quality-Moves codec now count max_height bad x x' state checked same e =
      subst (λ r. Moves block last c r.1.chain) (done_injective e) (inl same)
  handle_quality-Moves codec now count max_height fork x x' state checked same e =
      let (y, made, e') = >>=-eq-done (handle_fork env block (set_chain c1 x)) _ e in
      subst (λ r. Moves block last c r.1.chain) (done_injective e')
        (handle_fork-Moves x y checked same made)

checked_keeps :
    (env : Env) (fuel : ℕ) (block : Block) (c c' : Chain) (q : BlockQuality)
    → check_new_block env fuel block c ≡ done (q, c')
    → c' ≡ with_signers c c'
unfolding check_new_block
checked_keeps env fuel block c c' q e =
    check_block-with_signers env fuel block c.last_block c.last_full_block c e

judge_block-Moves :
    (env : Env) (codec : Codec) (fuel now count : ℕ) (block last : Block) (forbidden : Bool)
    (x x' : Context) (state : State)
    → IsSound x.chain last
    → last.index + 1 < 2 ^ 63
    → 2 ≤ block.index
    → judge_block env codec fuel now count block forbidden x ≡ done (state, x')
    → Moves block last x.chain x'.chain
unfolding judge_block
judge_block-Moves env codec fuel now count block last true x x' state sound fits two e =
    subst (λ a. Moves block last x.chain a.1.chain) (done_injective e) (inl (refl, refl, refl))
judge_block-Moves env codec fuel now count block last false x x' state sound fits two e =
    let (r, checked, e1) = >>=-eq-done (check_new_block env fuel block x.chain) _ e in
    handle_quality-Moves env fuel block last x.chain r.1 sound fits two codec now count
      x.chain.max_height r.0 x x' state checked
      (same_store x.chain r.1 (checked_keeps env fuel block x.chain r.1 r.0 checked)) e1

-- What a block of index 2 or more, from a peer, makes of a sound chain, if the handler answers: it
-- leaves the store and its last blocks as they are; or the block is the next one, names the hash of
-- the last, and the chain is sound with it on top; or the block is better than the last one and the
-- chain is linked up to it, at an index that the chain had, with nothing above.
pub handle_block-Moves :
    (env : Env) (codec : Codec) (fuel now token : ℕ) (block last : Block) (n n' : Node)
    (state : State)
    → IsSound n.context.chain last
    → last.index + 1 < 2 ^ 63
    → 2 ≤ block.index
    → handle_block env codec fuel now token block n ≡ done (state, n')
    → Moves block last n.context.chain n'.context.chain
unfolding handle_block
handle_block-Moves env codec fuel now token block last n n' state sound fits two e =
    let (p, found, e1) = >>=-eq-done (unwrap (find_peer token n.peers.peers)) _ e in
    let (r, judged, e2) =
      >>=-eq-done
        (judge_block env codec fuel now (get_peers_active_count n.peers) block
          (is_forbidden block.transaction n.context) n.context)
        _ e1 in
    subst (λ a. Moves block last n.context.chain a.1.context.chain) (done_injective e2)
      (judge_block-Moves env codec fuel now (get_peers_active_count n.peers) block last
        (is_forbidden block.transaction n.context) n.context r.1 r.0 sound fits two judged)
