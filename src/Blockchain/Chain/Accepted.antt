-- ===== src/Blockchain/Chain/Accepted.antt =====
-- What `check_block` has made sure of when it answers `good`.
use gis.Base.{
  ℕ, ◌≤◌, ◌<◌, true, false, Option, none, some, done, Outcome-cases, Option-cases, ◌≡◌, ◌≢◌, ◌⊎◌,
  inl, inr, arith, add64, sub64, lt_i64,
}
use gis.Bytes.{is_zero, hash_difficulty}
use gis.Bytes.Equality.{same_hash_sound}
use gis.Commons.{chain_version, keystore_difficulty}
use gis.Blockchain.Types.{Block, Transaction, DomainData, is_genesis}
use gis.Blockchain.Types.BlockQuality.{good}
use gis.Blockchain.Env.{
  Env, check_block_hash, check_block_signature, check_public_key_strength, get_domain_data,
}
use gis.Blockchain.Chain.State.{Chain}
use gis.Blockchain.Chain.Queries.{get_block, is_id_available, get_zones}
use gis.Blockchain.Chain.Signers.{is_good_sign_block}
use gis.Blockchain.Chain.Check.{
  check_front, required_difficulty, check_proof, is_too_early, check_transaction, check_order,
  check_position, check_block, violates_zone, has_wrong_parent, last_index,
}

-- The key has its work, the hash is the hash of the contents and has the work that the block
-- states, which is the work that it needs, and the signature is right.
pub record IsProved (env : Env) (block : Block) (c : Chain) : Type 0 where
  pub key_work : check_public_key_strength env block.pub_key keystore_difficulty ≡ done true
  pub enough : required_difficulty env block c ≤ block.difficulty
  pub work : (n : ℕ) × (hash_difficulty block.hash ≡ done n) × (block.difficulty ≤ n)
  pub hash_fits : check_block_hash env block ≡ true
  pub signed : check_block_signature env block ≡ done true
  pub parent : has_wrong_parent block (get_block (sub64 block.index 1) c) ≡ false

pub check_proof-IsProved :
    (env : Env) (block : Block) (c : Chain)
    → check_proof env block c ≡ done none
    → IsProved env block c
unfolding check_proof
check_proof-IsProved env block c h = elim (Outcome-cases (hash_difficulty block.hash)) [
  | inl (n, e) ↦ record {
    key_work = ground arith;
    enough = ground arith;
    work = (n, e, ground arith);
    hash_fits = ground arith;
    signed = ground arith;
    parent = ground arith;
  }
  | inr e ↦ absurd (ground arith)
]

-- The identity is free for this key under both tables, the key did not mine a new identity within
-- a day, and no zone forbids a record.
pub record IsAllowed (env : Env) (block : Block) (t : Transaction) (height : ℕ) (c : Chain)
    : Type 0 where
  pub domain_free : is_id_available env height t.identity block.pub_key false c ≡ true
  pub zone_free : is_id_available env height t.identity block.pub_key true c ≡ true
  pub in_time : is_too_early env block t c ≡ false
  pub zone_rules :
      (get_domain_data env t ≡ none)
      ⊎ ((d : DomainData) × (get_domain_data env t ≡ some d)
          × (violates_zone d (get_zones env c) ≡ false))

check_transaction-IsAllowed :
    (env : Env) (block : Block) (last : Option Block) (t : Transaction) (c : Chain)
    → block.transaction ≡ some t
    → check_transaction env block last c ≡ none
    → IsAllowed env block t (last_index last) c
unfolding check_transaction
check_transaction-IsAllowed env block last t c e h = elim (Option-cases (get_domain_data env t)) [
  | inl p ↦ record {
    domain_free = ground arith;
    zone_free = ground arith;
    in_time = ground arith;
    zone_rules = inl p;
  }
  | inr (d, p) ↦ record {
    domain_free = ground arith;
    zone_free = ground arith;
    in_time = ground arith;
    zone_rules = inr (d, p, ground arith);
  }
]

-- The block extends the last one, or it claims an index at which nothing is stored.
pub record IsInOrder (block last : Block) (c : Chain) : Type 0 where
  pub near : block.index ≤ add64 last.index 1
  pub order :
      (last.index < block.index) × (block.prev_block_hash ≡ last.hash)
      ⊎ (block.index ≤ last.index) × (get_block block.index c ≡ none)

check_order-good :
    (block last : Block) (c : Chain)
    → block.index ≤ add64 last.index 1
    → check_order block last c ≡ good
    → IsInOrder block last c
unfolding check_order
check_order-good block last c near h =
    ground (arith, same_hash_sound block.prev_block_hash last.hash)

check_position-good :
    (fuel : ℕ) (block last : Block) (full : Option Block) (c c' : Chain)
    → check_position fuel block (some last) full c ≡ done (good, c')
    → (block.index ≤ add64 last.index 1)
      × (check_order block last c' ≡ good)
      × (last.index < block.index → lt_i64 block.timestamp last.timestamp ≡ false)
      × (0 < block.index → is_good_sign_block fuel block full c ≡ done (true, c'))
unfolding check_position
check_position-good fuel block last full c c' h = ground arith

-- On an empty chain only a genesis block of the right origin is good.
check_position-genesis :
    (fuel : ℕ) (block : Block) (full : Option Block) (c c' : Chain)
    → check_position fuel block none full c ≡ done (good, c')
    → (is_genesis block ≡ true) × ((is_zero c.origin ≡ true) ⊎ (block.hash ≡ c.origin))
unfolding check_position
check_position-genesis fuel block full c c' h = ground (arith, same_hash_sound block.hash c.origin)

-- All that `good` promises of a block that arrives on the chain `c` behind `last`.
pub record IsAccepted (env : Env) (fuel : ℕ) (block last : Block) (full : Option Block)
    (c c' : Chain) : Type 0 where
  pub version : block.version ≤ chain_version
  pub not_future : lt_i64 (add64 env.now 60) block.timestamp ≡ false
  pub not_past : last.index < block.index → lt_i64 block.timestamp last.timestamp ≡ false
  pub proved : IsProved env block c
  pub allowed : (t : Transaction) → block.transaction ≡ some t → IsAllowed env block t last.index c
  pub in_order : IsInOrder block last c'
  pub signer : 0 < block.index → is_good_sign_block fuel block full c ≡ done (true, c')

check_front-good :
    (env : Env) (block : Block) (last : Option Block) → check_front env block last ≢ some good
unfolding check_front
check_front-good env block last h = ground arith

check_proof-good :
    (env : Env) (block : Block) (c : Chain) → check_proof env block c ≢ done (some good)
unfolding check_proof
check_proof-good env block c h = ground arith

check_transaction-good :
    (env : Env) (block : Block) (last : Option Block) (c : Chain)
    → check_transaction env block last c ≢ some good
unfolding check_transaction
check_transaction-good env block last c h = ground arith

check_block-stages :
    (env : Env) (fuel : ℕ) (block : Block) (last full : Option Block) (c c' : Chain)
    → check_block env fuel block last full c ≡ done (good, c')
    → (check_front env block last ≡ none)
      × (check_proof env block c ≡ done none)
      × (check_transaction env block last c ≡ none)
      × (check_position fuel block last full c ≡ done (good, c'))
unfolding check_block
check_block-stages env fuel block last full c c' h = ground (
  arith,
  check_front-good env block last,
  check_proof-good env block c,
  check_transaction-good env block last c,
)

check_front-none :
    (env : Env) (block last : Block)
    → check_front env block (some last) ≡ none
    → (block.version ≤ chain_version) × (lt_i64 (add64 env.now 60) block.timestamp ≡ false)
unfolding check_front
check_front-none env block last h = ground arith

-- A block that the check calls good on top of a last block has a supported version, is neither from
-- the future nor a later block with an older time, has the work of its key and of its hash, its own
-- hash and signature, and the parent that is stored before it. Its transaction, if it has one, is
-- free for its key, not too early, and within the rules of its zone. It extends the last block, or
-- its index is not stored, and the check of its signers said yes.
pub check_block-IsAccepted :
    (env : Env) (fuel : ℕ) (block last : Block) (full : Option Block) (c c' : Chain)
    → check_block env fuel block (some last) full c ≡ done (good, c')
    → IsAccepted env fuel block last full c c'
check_block-IsAccepted env fuel block last full c c' h =
    let (front, proof, allowed, position) =
      check_block-stages env fuel block (some last) full c c' h in
    let (near, order, not_past, signer) = check_position-good fuel block last full c c' position in
    let (version, not_future) = check_front-none env block last front in
    record {
      version = version;
      not_future = not_future;
      not_past = not_past;
      proved = check_proof-IsProved env block c proof;
      allowed = λ t e. check_transaction-IsAllowed env block (some last) t c e allowed;
      in_order = check_order-good block last c' near order;
      signer = signer;
    }

-- A block that the check calls good without a last block is proved by its work, hash and signature,
-- is a genesis block, and has the hash of the origin if one is set.
pub check_block-genesis :
    (env : Env) (fuel : ℕ) (block : Block) (full : Option Block) (c c' : Chain)
    → check_block env fuel block none full c ≡ done (good, c')
    → IsProved env block c
      × (is_genesis block ≡ true)
      × ((is_zero c.origin ≡ true) ⊎ (block.hash ≡ c.origin))
check_block-genesis env fuel block full c c' h =
    let (front, proof, allowed, position) = check_block-stages env fuel block none full c c' h in
    let (genesis, origin) = check_position-genesis fuel block full c c' position in
    (check_proof-IsProved env block c proof, genesis, origin)
