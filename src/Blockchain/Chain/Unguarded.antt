-- ===== src/Blockchain/Chain/Unguarded.antt =====
-- Blocks of index 0, which `check_block` does not guard against.
use gis.Base.{
  ℕ, ◌≤◌, true, false, [], ◌∷◌, ◌++◌, none, some, done, ◌≡◌, arith, add64, sub64, lt_i64,
}
use gis.Bytes.{hash_difficulty}
use gis.Commons.{chain_version, keystore_difficulty, signer_difficulty}
use gis.Blockchain.Types.{Block}
use gis.Blockchain.Types.BlockQuality.{good}
use gis.Blockchain.Env.{Env, check_block_hash, check_block_signature, check_public_key_strength}
use gis.Blockchain.Chain.State.{Chain, get_height, add_block_to_table}
use gis.Blockchain.Chain.Queries.{get_block}
use gis.Blockchain.Chain.Check.{
  check_front, check_proof, check_transaction, check_position, check_order, check_block,
  check_new_block, required_difficulty,
}
use gis.Blockchain.Chain.Update.{add_block}
use gis.Blockchain.Chain.Growth.{IsSound}

-- The work and the signature of a signing block, its parent left out.
pub record IsMined (env : Env) (block : Block) : Type 0 where
  pub key_work : check_public_key_strength env block.pub_key keystore_difficulty ≡ done true
  pub enough : signer_difficulty ≤ block.difficulty
  pub work : (n : ℕ) × (hash_difficulty block.hash ≡ done n) × (block.difficulty ≤ n)
  pub hash_fits : check_block_hash env block ≡ true
  pub signed : check_block_signature env block ≡ done true

module _ (env : Env) (fuel : ℕ) (block last : Block) (c : Chain) (sound : IsSound c last)
    (index : block.index ≡ 0) (bare : block.transaction ≡ none)
    (version : block.version ≤ chain_version)
    (time : lt_i64 (add64 env.now 60) block.timestamp ≡ false) (mined : IsMined env block) where
  front_passes : check_front env block c.last_block ≡ none
  unfolding check_front
  front_passes = ground (arith, sound.cached, sound.linked.small)

  parent_absent : get_block (sub64 block.index 1) c ≡ none
  unfolding get_block
  parent_absent = sound.linked.none_above (sub64 block.index 1) (omega (arith, sound.linked.small))

  proof_passes : check_proof env block c ≡ done none
  unfolding check_proof required_difficulty
  proof_passes = ground (arith, parent_absent, mined)

  transaction_passes : check_transaction env block c.last_block c ≡ none
  unfolding check_transaction
  transaction_passes = ground arith

  position_passes : check_position fuel block c.last_block c.last_full_block c ≡ done (good, c)
  unfolding check_position check_order get_block
  position_passes = ground (arith, sound.cached, sound.linked.positive, sound.linked.none_at_zero)

  check_passes : check_new_block env fuel block c ≡ done (good, c)
  unfolding check_new_block check_block
  check_passes = ground (arith, front_passes, proof_passes, transaction_passes, position_passes)

  -- A signing block of index 0, of a supported version and not from the future, with the work and
  -- the signature of its key, is good on every sound chain, whatever parent it names, and adding it
  -- takes the height back to 0.
  pub zero_index_accepted :
      (check_new_block env fuel block c ≡ done (good, c))
      × ((c' : Chain) × (add_block block c ≡ done c') × (get_height c' ≡ 0))
  unfolding add_block add_block_to_table get_height
  zero_index_accepted = (
    check_passes,
    (
      record c {
        last_block = some block;
        db = record c.db { blocks = c.db.blocks ++ (block ∷ []) };
      },
      ground (arith, sound.linked.none_at_zero),
      ground arith,
    ),
  )
