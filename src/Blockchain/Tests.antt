-- ===== src/Blockchain/Tests.antt =====
-- Concrete chains, and the theorems about the chain at them.
mod Forks
mod Signers
use gis.Base.{
  ℕ, ◌+◌, ◌-◌, ◌^◌, ◌≤◌, ◌<◌, Bool, true, false, List, [], ◌∷◌, ◌++◌, Option, none, some, Outcome,
  done, panic, stuck, ◌≡◌, ◌≢◌, ◌⊎◌, ◌↔◌, inl, inr, refl, arith, length, lt_i64,
}
use gis.Bytes.{Bytes, Text, codes, is_zero, same_hash, hash_difficulty}
use gis.Blockchain.Types.{Block, Transaction, is_genesis}
use gis.Blockchain.Types.BlockQuality.{good}
use gis.Blockchain.Env.{Env, Row, PicksRow, check_block_hash}
use gis.Blockchain.Chain.Keeps.{with_signers, check_block-with_signers}
use gis.Blockchain.Chain.State.{Chain, Db, find_block, get_height, keep_rows}
use gis.Blockchain.Chain.Queries.{rows_before, is_id_available}
use gis.Blockchain.Chain.Check.{check_block, check_new_block, check_front}
use gis.Blockchain.Chain.Update.{add_block, replace_block}
use gis.Blockchain.Chain.Accepted.{
  IsAccepted, IsProved, check_block-IsAccepted, check_block-genesis,
}
use gis.Blockchain.Chain.Integrity.{IsLinked}
use gis.Blockchain.Chain.Growth.{IsSound, add_good_block-IsSound}

abbrev pub zeros : Bytes
zeros =
    0 ∷ 0 ∷ 0 ∷ 0 ∷ 0 ∷ 0 ∷ 0 ∷ 0 ∷ 0 ∷ 0 ∷ 0 ∷ 0 ∷ 0 ∷ 0 ∷ 0 ∷ 0 ∷ 0 ∷ 0 ∷ 0 ∷ 0 ∷ 0 ∷ 0 ∷ 0 ∷ 0
    ∷ 0 ∷ 0 ∷ 0 ∷ 0 ∷ 0 ∷ 0 ∷ 0 ∷ 0 ∷ []

abbrev pub first_row : List Row → Option Row
first_row [] = none
first_row (r ∷ rs) = some r

-- Every hash is zero, and every signature right.
abbrev pub env : Env
env = record {
  now = 1000;
  blakeout = λ content. zeros;
  sha256 = λ content. content;
  block_json = λ block. [];
  parse_domain = λ text. none;
  parse_zone = λ text. none;
  public_key_ok = λ key. true;
  signature_ok = λ signature. true;
  verify = λ message key signature. true;
  pick_row = first_row;
}

abbrev pub block_at : ℕ → Bytes → ℕ → Option Transaction → Block
block_at index prev difficulty transaction = record {
  index = index;
  timestamp = 900 + index;
  version = 0;
  difficulty = difficulty;
  random = 0;
  nonce = 0;
  transaction = transaction;
  prev_block_hash = prev;
  hash = zeros;
  pub_key = index ∷ [];
  signature = zeros;
}

abbrev pub genesis : Block
genesis = block_at 1 [] 28 none

abbrev pub second : Block
second = block_at 2 zeros 16 none

abbrev pub db1 : Db
db1 = record { blocks = genesis ∷ []; domains = []; zones = [] }

abbrev pub empty_chain : Chain
empty_chain = record {
  origin = zeros;
  last_block = none;
  last_full_block = none;
  max_height = 0;
  db = record { blocks = []; domains = []; zones = [] };
  zone_names = [];
  signers_index = 0;
  signers = [];
}

abbrev pub chain1 : Chain
chain1 = record empty_chain { last_block = some genesis; db = db1 }

-- The line that lets a check run.
unfoldable pub runs : ℕ
unfolding gis.Bytes.same_hash gis.Bytes.is_zero gis.Bytes.value_le gis.Bytes.cmp gis.Bytes.value_be
    gis.Bytes.get_tail_u64 gis.Bytes.leading_zeros gis.Bytes.trailing_zeros
    gis.Bytes.hash_difficulty gis.Bytes.key_hash_difficulty gis.Commons.to_hex
    gis.Commons.is_alphanumeric gis.Commons.check_chars gis.Commons.check_domain
    gis.Commons.rsplit_dot gis.Commons.get_domain_zone gis.Commons.is_yggdrasil_v6
    gis.Commons.is_yggdrasil_record gis.Blockchain.Types.new_block gis.Blockchain.Types.is_genesis
    gis.Blockchain.Types.is_better_than gis.Blockchain.Env.check_block_hash
    gis.Blockchain.Env.keystore_check gis.Blockchain.Env.check_block_signature
    gis.Blockchain.Env.hash_identity gis.Blockchain.Env.check_public_key_strength
    gis.Blockchain.Env.from_str gis.Blockchain.Env.check_identity gis.Blockchain.Env.get_domain_data
    gis.Blockchain.Env.get_type gis.Blockchain.Chain.State.get_height
    gis.Blockchain.Chain.State.get_last_hash gis.Blockchain.Chain.State.contains
    gis.Blockchain.Chain.State.find_block gis.Blockchain.Chain.State.latest
    gis.Blockchain.Chain.State.latest_row gis.Blockchain.Chain.State.keep_rows
    gis.Blockchain.Chain.State.truncate_blocks gis.Blockchain.Chain.State.truncate_db_from_block
    gis.Blockchain.Chain.State.add_block_to_table gis.Blockchain.Chain.State.has_id
    gis.Blockchain.Chain.Queries.get_block gis.Blockchain.Chain.Queries.get_last_full_block
    gis.Blockchain.Chain.Queries.rows_before gis.Blockchain.Chain.Queries.put_zone
    gis.Blockchain.Chain.Queries.find_zone gis.Blockchain.Chain.Queries.is_id_available
    gis.Blockchain.Chain.Queries.is_id_in_blockchain
    gis.Blockchain.Chain.Queries.is_zone_in_blockchain gis.Blockchain.Chain.Queries.fill_zones
    gis.Blockchain.Chain.Queries.get_zones gis.Blockchain.Chain.Queries.get_zone_difficulty
    gis.Blockchain.Chain.Queries.get_difficulty_for_transaction
    gis.Blockchain.Chain.Queries.get_domain_transaction
    gis.Blockchain.Chain.Queries.is_domain_available gis.Blockchain.Chain.Queries.cooldown_result
    gis.Blockchain.Chain.Queries.can_mine_domain
    gis.Blockchain.Chain.Queries.next_allowed_full_block
    gis.Blockchain.Chain.Signers.has_signers_for gis.Blockchain.Chain.Signers.take_key
    gis.Blockchain.Chain.Signers.signers_loop gis.Blockchain.Chain.Signers.get_block_signers
    gis.Blockchain.Chain.Signers.already_signed
    gis.Blockchain.Chain.Signers.is_good_signer_for_block
    gis.Blockchain.Chain.Signers.is_good_sign_block gis.Blockchain.Chain.Check.all_yggdrasil
    gis.Blockchain.Chain.Check.violates_zone gis.Blockchain.Chain.Check.check_front
    gis.Blockchain.Chain.Check.required_difficulty gis.Blockchain.Chain.Check.check_proof
    gis.Blockchain.Chain.Check.is_too_early gis.Blockchain.Chain.Check.check_transaction
    gis.Blockchain.Chain.Check.check_order gis.Blockchain.Chain.Check.check_position
    gis.Blockchain.Chain.Check.check_block gis.Blockchain.Chain.Check.check_new_block
    gis.Blockchain.Chain.Update.add_transaction_to_table gis.Blockchain.Chain.Update.add_block
    gis.Blockchain.Chain.Update.replace_block gis.Blockchain.Chain.Update.load_last_block
    gis.Blockchain.Chain.Update.load_cached_blocks gis.Blockchain.Chain.Update.check_blocks
    gis.Blockchain.Chain.Update.check_chain gis.Blockchain.Chain.Mining.already_mined
    gis.Blockchain.Chain.Mining.choose_as_signer gis.Blockchain.Chain.Mining.choose_sign_block
    gis.Blockchain.Chain.Mining.get_sign_block
    gis.Blockchain.Chain.Mining.update_sign_block_for_mining
    gis.Blockchain.Chain.Mining.is_waiting_signers
runs = 0

pub second_is_good : check_new_block env 9 second chain1 ≡ done (good, chain1)
unfolding runs
second_is_good = refl

genesis_is_good : check_new_block env 9 genesis empty_chain ≡ done (good, empty_chain)
unfolding runs
genesis_is_good = refl

genesis_complete : (i : ℕ) → 1 ≤ i → i ≤ 1 → (b : Block) × (find_block i db1.blocks ≡ some b)
unfolding find_block
genesis_complete i h1 h2 = (genesis, ground arith)

genesis_linked :
    (i : ℕ) (b p : Block)
    → find_block (i + 1) db1.blocks ≡ some b
    → find_block i db1.blocks ≡ some p
    → b.prev_block_hash ≡ p.hash
unfolding find_block
genesis_linked i b p hb hp = absurd (ground arith)

db1-IsLinked : IsLinked db1 genesis
unfolding find_block
db1-IsLinked = record {
  positive = omega arith;
  small = omega arith;
  stored = refl;
  complete = genesis_complete;
  none_above = λ i h. ground arith;
  none_at_zero = refl;
  linked = genesis_linked;
  domains_up_to = tt;
  zones_up_to = tt;
}

pub chain1-IsSound : IsSound chain1 genesis
unfolding find_block
chain1-IsSound = record {
  linked = db1-IsLinked;
  cached = refl;
  full_stored = λ f e. cc;
  full_last = λ i b e t. absurd (ground arith);
}

check_block-IsAccepted_example : IsAccepted env 9 second genesis none chain1 chain1
unfolding check_new_block
check_block-IsAccepted_example =
    check_block-IsAccepted env 9 second genesis none chain1 chain1 second_is_good

add_good_block-IsSound_example :
    (c : Chain) × (add_block second chain1 ≡ done c)
    × IsSound c second
    × (second.index ≡ genesis.index + 1)
    × (second.prev_block_hash ≡ genesis.hash)
add_good_block-IsSound_example =
    add_good_block-IsSound env 9 second genesis chain1 chain1 chain1-IsSound (omega arith)
      (omega arith) second_is_good
