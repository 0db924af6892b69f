-- ===== src/Blockchain/Chain/Mining.antt =====
-- What a miner asks of the chain: `get_sign_block` and its relatives.
use gis.Base.{
  ℕ, zero, suc, ◌+◌, ◌-◌, Bool, true, false, [], Option, none, some, ltb, leb, if◌then◌else◌,
  Outcome, done, ◌>>=◌, unwrap, add64, sub64, lt_i64,
}
use gis.Bytes.{Bytes, same_hash}
use gis.Commons.{block_signers_start, block_signers_min, signer_difficulty}
use gis.Blockchain.Types.{Block, new_block}
use gis.Blockchain.Env.{Env}
use gis.Blockchain.Chain.State.{Chain, get_height, contains}
use gis.Blockchain.Chain.Queries.{get_block}
use gis.Blockchain.Chain.Signers.{get_block_signers}

-- `for index in first..=height`, over the rounds: whether this key mined one of the blocks.
unfoldable pub already_mined : ℕ → ℕ → Bytes → Chain → Outcome Bool
already_mined zero index pub_key c = done false
already_mined (suc rounds) index pub_key c = do
  b ← unwrap (get_block index c)
  elim (same_hash b.pub_key pub_key) [
    | true ↦ done true
    | false ↦ already_mined rounds (index + 1) pub_key c
  ]

abbrev pub sign_block : Block → Block
sign_block last =
    let block = new_block none [] last.hash signer_difficulty in
    record block { index = add64 last.index 1 }

abbrev pub unless_mined : Bool → Block → Chain → Option Block × Chain
unless_mined true last c = (none, c)
unless_mined false last c = (some (sign_block last), c)

-- The branch on whether the key signs: a signer that mined a block since the full one does not
-- sign again.
unfoldable pub choose_as_signer :
    Bool → Block → Block → Bytes → Chain → Outcome (Option Block × Chain)
choose_as_signer false full last pub_key c = done (none, c)
choose_as_signer true full last pub_key c = do
  mined ← already_mined (get_height c + 1 - full.index) full.index pub_key c
  done (unless_mined mined last c)

-- The part of `get_sign_block` behind its guards: `full` is the last full block, `last` the last.
unfoldable pub choose_sign_block :
    ℕ → Block → Block → Bytes → Chain → Outcome (Option Block × Chain)
choose_sign_block fuel full last pub_key c = do
  (signers, c') ← get_block_signers fuel full c
  choose_as_signer (contains pub_key signers) full last pub_key c'

-- `keystore` is the public key of the keystore, if there is one.
unfoldable pub get_sign_block : Env → ℕ → Option Bytes → Chain → Outcome (Option Block × Chain)
get_sign_block env fuel none c = done (none, c)
get_sign_block env fuel (some pub_key) c =
    if ltb (get_height c) block_signers_start
    then done (none, c)
    else if ltb (get_height c) c.max_height
    then done (none, c)
    else elim c.last_full_block [
      | none ↦ done (none, c)
      | some full ↦
          if leb block_signers_min (sub64 (get_height c) full.index)
          then done (none, c)
          else elim c.last_block [
            | none ↦ done (none, c)
            | some last ↦
                if lt_i64 env.now (add64 last.timestamp 60)
                then done (none, c)
                else choose_sign_block fuel full last pub_key c
          ]
    ]

unfoldable pub update_sign_block_for_mining : Block → Chain → Option Block
update_sign_block_for_mining block c = elim c.last_full_block [
  | none ↦ none
  | some full ↦
      if leb block_signers_min (sub64 (get_height c) full.index) then none else elim c.last_block [
        | none ↦ none
        | some last ↦
            some (record block { index = add64 last.index 1; prev_block_hash = last.hash })
      ]
]

unfoldable pub is_waiting_signers : Chain → Bool
is_waiting_signers c = elim c.last_full_block [
  | none ↦ false
  | some full ↦ ltb (sub64 (get_height c) full.index) block_signers_min
]
