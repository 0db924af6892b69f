-- ===== src/Blockchain/Chain/Replace.antt =====
-- `replace_block`: the chain behind a fork.
use gis.Base.{
  ℕ, ◌+◌, ◌-◌, ◌≤◌, ◌<◌, [], ◌∷◌, ◌++◌, none, some, done, ◌≡◌, ◌≢◌, ◌∙◌, arith, lt_i64,
  if◌then◌else◌,
}
use gis.Blockchain.Types.{Block}
use gis.Blockchain.Chain.State.{
  Chain, Db, find_block, get_height, truncate_blocks, truncate_db_from_block, add_block_to_table,
}
use gis.Blockchain.Chain.Signers.{clear_signers}
use gis.Blockchain.Chain.Update.{add_block, replace_block, remember_block, set_db}
use gis.Blockchain.Chain.Store.{
  index-find_block, find_block-truncate, find_block-append, IdsUpTo-truncate, has_id_above,
}
use gis.Blockchain.Chain.Integrity.{IsLinked, IsKnownClass, add_block-Extends, extended}
use gis.Blockchain.Chain.Growth.{IsSound}

module _ (db : Db) (last prev : Block) (index : ℕ) (old : IsLinked db last) (two : 2 ≤ index)
    (within : index ≤ last.index) (at : find_block (index - 1) db.blocks ≡ some prev)
    (prev_index : prev.index ≡ index - 1) where
  find_cut :
      (i : ℕ)
      → find_block i (truncate_blocks index db.blocks)
        ≡ (if lt_i64 i index then find_block i db.blocks else none)
  find_cut i = find_block-truncate i index db.blocks

  find_kept :
      (i : ℕ) → i < index → find_block i (truncate_blocks index db.blocks) ≡ find_block i db.blocks
  find_kept i h = ground (arith, find_cut i, old.small)

  find_gone : (i : ℕ) → index ≤ i → find_block i (truncate_blocks index db.blocks) ≡ none
  find_gone i h = ground (arith, find_cut i, old.small, old.none_above i)

  still_there :
      (i : ℕ) (b : Block)
      → find_block i (truncate_blocks index db.blocks) ≡ some b
      → find_block i db.blocks ≡ some b
  still_there i b e = ground (arith, find_cut i)

  linked_cut :
      (i : ℕ) (b p : Block)
      → find_block (i + 1) (truncate_blocks index db.blocks) ≡ some b
      → find_block i (truncate_blocks index db.blocks) ≡ some p
      → b.prev_block_hash ≡ p.hash
  linked_cut i b p hb hp = old.linked i b p (still_there (i + 1) b hb) (still_there i p hp)

  -- Cut before `index`, a linked store is linked up to the block before.
  pub truncated : IsLinked (truncate_db_from_block index db) prev
  unfolding truncate_db_from_block
  truncated = record {
    positive = omega arith;
    small = omega (arith, old.small);
    stored = ground (arith, find_kept prev.index);
    complete = λ i h1 h2.
        let (b, found) = old.complete i h1 (omega arith) in (b, find_kept i (omega arith) ∙ found);
    none_above = λ i h. find_gone i (omega arith);
    none_at_zero = find_kept 0 (omega arith) ∙ old.none_at_zero;
    linked = linked_cut;
    domains_up_to = rw prev_index (
        IdsUpTo-truncate last.index index db.domains old.domains_up_to old.small
          (omega (arith, old.small)) (omega arith));
    zones_up_to = rw prev_index (
        IdsUpTo-truncate last.index index db.zones old.zones_up_to old.small
          (omega (arith, old.small)) (omega arith));
  }

-- A block of an index from 2 to the height, of a class that the tables know, that names the hash of
-- the stored block before it: `replace_block` does not panic, the store is linked again up to this
-- block, the height is its index, and the cache of signers is empty.
pub replace_block-IsLinked :
    (block last prev : Block) (c : Chain)
    → IsSound c last
    → 2 ≤ block.index
    → block.index ≤ last.index
    → find_block (block.index - 1) c.db.blocks ≡ some prev
    → block.prev_block_hash ≡ prev.hash
    → IsKnownClass block.transaction
    → (c' : Chain) × (replace_block block c ≡ done c')
      × IsLinked c'.db block
      × (get_height c' ≡ block.index)
      × (c'.signers ≡ [])
unfolding replace_block truncate_db_from_block get_height
replace_block-IsLinked block last prev c sound two within at parent known =
    let at_prev = index-find_block (block.index - 1) c.db.blocks prev at in
    let cut = truncated c.db last prev block.index sound.linked two within at at_prev in
    let gone = cut.none_above block.index (omega arith) in
    let c1 = set_db (clear_signers c) (truncate_db_from_block block.index c.db) in
    let (db, added, more) =
      add_block-Extends block c1 gone known
        (has_id_above prev.index block.index _ cut.domains_up_to (omega arith))
        (has_id_above prev.index block.index _ cut.zones_up_to (omega arith)) in
    let linked =
      extended c1.db db prev block cut more (omega arith) (omega (arith, sound.linked.small))
        parent in
    (set_db (remember_block block c1) db, added, linked, ground arith, ground arith)

cut_gone :
    (last : Block) (index i : ℕ) (db : Db)
    → IsLinked db last
    → index ≤ i
    → i ≤ last.index
    → find_block i (truncate_blocks index db.blocks) ≡ none
cut_gone last index i db old h within =
    ground (arith, find_block-truncate i index db.blocks, old.small)

add_bare :
    (block : Block) (c c' : Chain)
    → block.transaction ≡ none
    → find_block block.index c.db.blocks ≡ none
    → add_block block c ≡ done c'
    → (c'.last_full_block ≡ c.last_full_block) × (c'.db.blocks ≡ c.db.blocks ++ (block ∷ []))
unfolding add_block add_block_to_table
add_bare block c c' bare free e = ground arith

-- A fork without a transaction that takes the place of the last full block, or of a block before
-- it: the chain still gives the removed block as its last full one, and the store has it no more.
pub replace_block_stale :
    (block last full : Block) (c c' : Chain)
    → IsSound c last
    → c.last_full_block ≡ some full
    → block.transaction ≡ none
    → 1 ≤ block.index
    → block.index ≤ full.index
    → replace_block block c ≡ done c'
    → (c'.last_full_block ≡ some full) × (find_block full.index c'.db.blocks ≢ some full)
unfolding replace_block truncate_db_from_block
replace_block_stale block last full c c' sound cached bare one below e =
    let (stored, has_tx) = sound.full_stored full cached in
    let within : full.index ≤ last.index = ground (arith, sound.linked.none_above full.index) in
    let cut = truncate_blocks block.index c.db.blocks in
    let gone = cut_gone last block.index full.index c.db sound.linked below within in
    let gone_self =
      cut_gone last block.index block.index c.db sound.linked (omega arith) (omega arith) in
    let (cached', blocks') =
      add_bare block (set_db (clear_signers c) (truncate_db_from_block block.index c.db)) c' bare
        gone_self e in
    (
      cached' ∙ cached,
      λ found. ground (arith, blocks', gone, find_block-append full.index cut block gone),
    )
