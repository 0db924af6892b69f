-- ===== src/Blockchain/Chain/Check.antt =====
-- `check_block`, in its four stretches. A stretch answers `some q` where the source returns `q`.
use gis.Base.{
  ℕ, Bool, true, false, ◌&&◌, ◌||◌, not, List, [], ◌∷◌, Option, none, some, ltb, leb, ◌==◌,
  if◌then◌else◌, Outcome, done, ◌>>=◌, add64, sub64, lt_i64,
}
use gis.Bytes.{is_zero, same_hash, hash_difficulty}
use gis.Commons.{
  chain_version, zone_difficulty, signer_difficulty, keystore_difficulty, block_signers_start,
  new_domains_interval, is_yggdrasil_record,
}
use gis.Dns.Protocol.Types.{DnsRecord}
use gis.Blockchain.Types.{Block, Transaction, DomainData, ZoneData, BlockQuality, is_genesis}
use gis.Blockchain.Types.BlockQuality.{good, twin, future, rewind, bad, fork}
use gis.Blockchain.Env.{
  Env, check_block_hash, check_block_signature, check_public_key_strength, get_domain_data,
}
use gis.Blockchain.Chain.State.{Chain}
use gis.Blockchain.Chain.Queries.{
  get_block, get_last_full_block, is_id_available, is_id_in_blockchain, get_zones,
  get_difficulty_for_transaction,
}
use gis.Blockchain.Chain.Signers.{is_good_sign_block}

abbrev pub last_index : Option Block → ℕ
last_index none = 0
last_index (some block) = block.index

abbrev pub is_far_ahead : Block → Option Block → Bool
is_far_ahead block none = false
is_far_ahead block (some last) = ltb (add64 last.index 1) block.index

abbrev pub has_wrong_parent : Block → Option Block → Bool
has_wrong_parent block none = false
has_wrong_parent block (some prev) = not (same_hash block.prev_block_hash prev.hash)

unfoldable pub all_yggdrasil : List DnsRecord → Bool
all_yggdrasil [] = true
all_yggdrasil (r ∷ rs) = if is_yggdrasil_record r then all_yggdrasil rs else false

-- The loop over the zones: whether one of them forbids a record of the domain.
unfoldable pub violates_zone : DomainData → List ZoneData → Bool
violates_zone domain [] = false
violates_zone domain (z ∷ zs) =
    if same_hash z.name domain.zone && z.yggdrasil && not (all_yggdrasil domain.records)
    then true
    else violates_zone domain zs

module _ (env : Env) where
  -- Version, time and distance.
  unfoldable pub check_front : Block → Option Block → Option BlockQuality
  check_front block last_block =
      if ltb chain_version block.version
      then some bad
      else if lt_i64 (add64 env.now 60) block.timestamp
      then some bad
      else if is_far_ahead block last_block
      then some future
      else none

  unfoldable pub required_difficulty : Block → Chain → ℕ
  required_difficulty block c = elim block.transaction [
    | none ↦ if block.index == 1 then zone_difficulty else signer_difficulty
    | some t ↦ get_difficulty_for_transaction env t c
  ]

  -- Key, work, hash, signature and parent.
  unfoldable pub check_proof : Block → Chain → Outcome (Option BlockQuality)
  check_proof block c = do
    strong ← check_public_key_strength env block.pub_key keystore_difficulty
    elim strong [
      | false ↦ done (some bad)
      | true ↦ elim (ltb block.difficulty (required_difficulty block c)) [
        | true ↦ done (some bad)
        | false ↦ (do
          work ← hash_difficulty block.hash
          elim (ltb work block.difficulty) [
            | true ↦ done (some bad)
            | false ↦ elim (check_block_hash env block) [
              | false ↦ done (some bad)
              | true ↦ (do
                signed ← check_block_signature env block
                done (
                    if not signed
                    then some bad
                    else if has_wrong_parent block (get_block (sub64 block.index 1) c)
                    then some rewind
                    else none))
            ]
          ])
      ]
    ]

  -- A key mines a new identity only a day after its last full block.
  unfoldable pub is_too_early : Block → Transaction → Chain → Bool
  is_too_early block t c = elim (get_last_full_block block.index (some block.pub_key) c) [
    | none ↦ false
    | some last ↦
        ltb last.index block.index
        && (not (is_id_in_blockchain env block.index t.identity false c)
            && lt_i64 block.timestamp (add64 last.timestamp new_domains_interval))
  ]

  -- Identity, pace and zone rules of the transaction.
  unfoldable pub check_transaction : Block → Option Block → Chain → Option BlockQuality
  check_transaction block last_block c = elim block.transaction [
    | none ↦ none
    | some t ↦
        let current_height = last_index last_block in
        if not (is_id_available env current_height t.identity block.pub_key false c)
          || not (is_id_available env current_height t.identity block.pub_key true c)
        then some bad
        else if is_too_early block t c
        then some bad
        else elim (get_domain_data env t) [
          | none ↦ none
          | some domain ↦ if violates_zone domain (get_zones env c) then some bad else none
        ]
  ]

-- The end of `check_position`, when the signers are right.
unfoldable pub check_order : Block → Block → Chain → BlockQuality
check_order block last c =
    if leb block.index last.index
    then if block.index == last.index && same_hash last.hash block.hash
      then twin
      else elim (get_block block.index c) [
        | none ↦ good
        | some my_block ↦ if not (same_hash my_block.hash block.hash) then fork else twin
      ]
    else if not (same_hash block.prev_block_hash last.hash)
    then bad
    else good

-- Where the block stands towards the last one.
unfoldable pub check_position :
    ℕ → Block → Option Block → Option Block → Chain → Outcome (BlockQuality × Chain)
check_position fuel block none last_full_block c = done (
    if not (is_genesis block)
    then (future, c)
    else if not (is_zero c.origin) && not (same_hash block.hash c.origin)
    then (bad, c)
    else (good, c))
check_position fuel block (some last) last_full_block c =
    elim (lt_i64 block.timestamp last.timestamp && ltb last.index block.index) [
      | true ↦ done (bad, c)
      | false ↦ elim (ltb (add64 last.index 1) block.index) [
        | true ↦ done (future, c)
        | false ↦ elim (ltb block_signers_start block.index) [
          | false ↦ done (check_order block last c, c)
          | true ↦ (do
            (signer, c') ← is_good_sign_block fuel block last_full_block c
            done (if not signer then (bad, c') else (check_order block last c', c')))
        ]
      ]
    ]

-- `fuel` bounds the rounds of the loop of `get_block_signers`.
unfoldable pub check_block :
    Env → ℕ → Block → Option Block → Option Block → Chain → Outcome (BlockQuality × Chain)
check_block env fuel block last_block last_full_block c = elim (check_front env block last_block) [
  | some q ↦ done (q, c)
  | none ↦ (do
    proof ← check_proof env block c
    elim proof [
      | some q ↦ done (q, c)
      | none ↦ elim (check_transaction env block last_block c) [
        | some q ↦ done (q, c)
        | none ↦ check_position fuel block last_block last_full_block c
      ]
    ])
]

unfoldable pub check_new_block : Env → ℕ → Block → Chain → Outcome (BlockQuality × Chain)
check_new_block env fuel block c = check_block env fuel block c.last_block c.last_full_block c
