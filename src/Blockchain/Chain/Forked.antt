-- ===== src/Blockchain/Chain/Forked.antt =====
-- What `check_block` has made sure of when it answers `fork`, and what `replace_block` makes of it.
use gis.Base.{
  ℕ, ◌-◌, ◌^◌, ◌≤◌, ◌<◌, true, false, Option, none, some, done, ◌≡◌, ◌≢◌, ◌∙◌, inl, inr, ap, subst,
  arith, Option-cases, sub64,
}
use gis.Bytes.{same_hash}
use gis.Bytes.Equality.{same_hash_sound}
use gis.Blockchain.Types.{Block}
use gis.Blockchain.Types.BlockQuality.{fork}
use gis.Blockchain.Env.{Env}
use gis.Blockchain.Chain.State.{Chain, find_block, get_height}
use gis.Blockchain.Chain.Queries.{get_block}
use gis.Blockchain.Chain.Signers.{is_good_sign_block}
use gis.Blockchain.Chain.Check.{
  check_front, check_proof, check_transaction, check_order, check_position, check_block,
  check_new_block, has_wrong_parent,
}
use gis.Blockchain.Chain.Update.{replace_block}
use gis.Blockchain.Chain.Keeps.{check_block-with_signers}
use gis.Blockchain.Chain.Accepted.{IsProved, check_proof-IsProved}
use gis.Blockchain.Chain.Integrity.{IsLinked}
use gis.Blockchain.Chain.Growth.{IsSound, same_store, moved, IsProved-IsKnownClass}
use gis.Blockchain.Chain.Replace.{replace_block-IsLinked}

check_front-fork :
    (env : Env) (block : Block) (last : Option Block) → check_front env block last ≢ some fork
unfolding check_front
check_front-fork env block last h = ground arith

check_proof-fork :
    (env : Env) (block : Block) (c : Chain) → check_proof env block c ≢ done (some fork)
unfolding check_proof
check_proof-fork env block c h = ground arith

check_transaction-fork :
    (env : Env) (block : Block) (last : Option Block) (c : Chain)
    → check_transaction env block last c ≢ some fork
unfolding check_transaction
check_transaction-fork env block last c h = ground arith

check_block-stages_fork :
    (env : Env) (fuel : ℕ) (block : Block) (last full : Option Block) (c c' : Chain)
    → check_block env fuel block last full c ≡ done (fork, c')
    → (check_proof env block c ≡ done none)
      × (check_position fuel block last full c ≡ done (fork, c'))
unfolding check_block
check_block-stages_fork env fuel block last full c c' h = ground (
  arith,
  check_front-fork env block last,
  check_proof-fork env block c,
  check_transaction-fork env block last c,
)

check_order-fork :
    (block last : Block) (c : Chain)
    → check_order block last c ≡ fork
    → (block.index ≤ last.index)
      × ((mine : Block) × (get_block block.index c ≡ some mine)
          × (same_hash mine.hash block.hash ≡ false))
unfolding check_order
check_order-fork block last c h = elim (Option-cases (get_block block.index c)) [
  | inl missing ↦ absurd (ground arith)
  | inr (mine, found) ↦ (ground arith, (mine, found, ground arith))
]

check_position-fork :
    (fuel : ℕ) (block last : Block) (full : Option Block) (c c' : Chain)
    → check_position fuel block (some last) full c ≡ done (fork, c')
    → (check_order block last c' ≡ fork)
      × (0 < block.index → is_good_sign_block fuel block full c ≡ done (true, c'))
unfolding check_position
check_position-fork fuel block last full c c' h = ground arith

-- A fork in the making: its own proof, its signers, the stored block that it differs from, and the
-- stored parent that it names.
pub record IsFork (env : Env) (fuel : ℕ) (block last : Block) (c c' : Chain) : Type 0 where
  pub proved : IsProved env block c
  pub signer : 0 < block.index → is_good_sign_block fuel block c.last_full_block c ≡ done (true, c')
  pub within : block.index ≤ last.index
  pub mine : Block
  pub stored : get_block block.index c' ≡ some mine
  pub differs : same_hash mine.hash block.hash ≡ false

check_new_block-IsFork :
    (env : Env) (fuel : ℕ) (block last : Block) (c c' : Chain)
    → c.last_block ≡ some last
    → check_new_block env fuel block c ≡ done (fork, c')
    → IsFork env fuel block last c c'
unfolding check_new_block
check_new_block-IsFork env fuel block last c c' cached h =
    let h' =
      subst (λ l. check_block env fuel block l c.last_full_block c ≡ done (fork, c')) cached h in
    let (proof, position) =
      check_block-stages_fork env fuel block (some last) c.last_full_block c c' h' in
    let (order, signer) = check_position-fork fuel block last c.last_full_block c c' position in
    let (within, (mine, stored, differs)) = check_order-fork block last c' order in
    record {
      proved = check_proof-IsProved env block c proof;
      signer = signer;
      within = within;
      mine = mine;
      stored = stored;
      differs = differs;
    }

parent_of :
    (block prev : Block)
    → has_wrong_parent block (some prev) ≡ false
    → block.prev_block_hash ≡ prev.hash
parent_of block prev h = same_hash_sound block.prev_block_hash prev.hash (ground arith)

-- A block that the check calls a fork, of an index of 2 at least, can always take its place: the store
-- is linked up to it then.
pub fork_replaces :
    (env : Env) (fuel : ℕ) (block last : Block) (c c' : Chain)
    → IsSound c last
    → 2 ≤ block.index
    → check_new_block env fuel block c ≡ done (fork, c')
    → (c'' : Chain) × (replace_block block c' ≡ done c'')
      × IsLinked c''.db block
      × (get_height c'' ≡ block.index)
      × (block.index ≤ last.index)
unfolding get_block check_new_block
fork_replaces env fuel block last c c' sound two h =
    let f = check_new_block-IsFork env fuel block last c c' sound.cached h in
    let same = same_store c c' (check_block-with_signers env fuel block _ _ c h) in
    let s = moved c c' last same sound in
    let small : block.index < 2 ^ 63 = omega (arith, sound.linked.small, f.within) in
    let (prev, found) =
      sound.linked.complete (block.index - 1) (omega arith) (omega (arith, f.within)) in
    let before : sub64 block.index 1 ≡ block.index - 1 = omega arith in
    let fits : has_wrong_parent block (some prev) ≡ false =
      subst (λ o. has_wrong_parent block o ≡ false) found
        (subst (λ i. has_wrong_parent block (find_block i c.db.blocks) ≡ false) before
          f.proved.parent) in
    let (c'', made, linked, height, empty) =
      replace_block-IsLinked block last prev c' s two f.within
        (ap (λ db. find_block (block.index - 1) db.blocks) same.0 ∙ found)
        (parent_of block prev fits) (IsProved-IsKnownClass env block c f.proved) in
    (c'', made, linked, height, f.within)
