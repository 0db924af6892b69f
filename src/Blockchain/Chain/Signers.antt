-- ===== src/Blockchain/Chain/Signers.antt =====
-- Which keys may sign a full block: `get_block_signers`, and the checks that use it.
use gis.Base.{
  ℕ, zero, suc, ◌+◌, ◌-◌, ◌%◌, Bool, true, false, ◌&&◌, ◌||◌, not, List, [], ◌∷◌, ◌++◌, Option,
  none, some, ltb, ◌==◌, if◌then◌else◌, length, Outcome, done, panic, stuck, ◌>>=◌, ◌>>◌, assert,
  unwrap, add64, sub64, mul64,
}
use gis.Bytes.{Bytes, is_empty, same_hash, get_tail_u64}
use gis.Commons.{block_signers_start, block_signers_all, block_signers_min}
use gis.Blockchain.Types.{Block, is_some, is_none}
use gis.Blockchain.Chain.State.{Chain, get_height, contains}
use gis.Blockchain.Chain.Queries.{get_block}

unfoldable pub has_signers_for : ℕ → Chain → Bool
has_signers_for index c = c.signers_index == index && not (is_empty c.signers)

abbrev pub clear_signers : Chain → Chain
clear_signers c = record c { signers_index = 0; signers = [] }

-- The key of a probed block joins the signers unless it is the block's own or there already.
unfoldable pub take_key : Bytes → Option Block → List Bytes → List Bytes
take_key own none result = result
take_key own (some b) result =
    if not (same_hash b.pub_key own) && not (contains b.pub_key result)
    then result ++ (b.pub_key ∷ [])
    else result

-- The `while` loop, whose `set` holds the same keys as `result`. A remainder by 0 panics. Nothing in
-- the source bounds the rounds.
unfoldable pub signers_loop : ℕ → Chain → Bytes → ℕ → ℕ → ℕ → List Bytes → Outcome (List Bytes)
signers_loop zero c own tail window count result = stuck
signers_loop (suc fuel) c own tail window count result =
    elim (ltb (length result) block_signers_all) [
      | false ↦ done result
      | true ↦ elim (window == 0) [
        | true ↦ panic
        | false ↦
            signers_loop fuel c own tail window (add64 count 1)
              (take_key own (get_block (mul64 tail count % window + 1) c) result)
      ]
    ]

-- The keys come with the chain, whose cache then holds them.
unfoldable pub get_block_signers : ℕ → Block → Chain → Outcome (List Bytes × Chain)
get_block_signers fuel block c =
    if ltb block.index block_signers_start || ltb (get_height c) block.index
    then done ([], c)
    else do
      assert (is_some block.transaction)
      elim (has_signers_for block.index c) [
        | true ↦ done (c.signers, c)
        | false ↦ (do
          tail ← get_tail_u64 block.signature
          result ← signers_loop fuel c block.pub_key tail (sub64 block.index 1) 1 []
          done (result, record c { signers_index = block.index; signers = result }))
      ]

-- `for i in first..end`, over the number of rounds: whether one of the blocks is of this key.
unfoldable pub already_signed : ℕ → ℕ → Bytes → Chain → Outcome Bool
already_signed zero i pub_key c = done false
already_signed (suc rounds) i pub_key c = do
  signer ← unwrap (get_block i c)
  elim (same_hash signer.pub_key pub_key) [
    | true ↦ done true
    | false ↦ already_signed rounds (i + 1) pub_key c
  ]

unfoldable pub is_good_signer_for_block : ℕ → Block → Block → Chain → Outcome (Bool × Chain)
is_good_signer_for_block fuel block full_block c = do
  (signers, c') ← get_block_signers fuel full_block c
  elim (contains block.pub_key signers) [
    | false ↦ done (false, c')
    | true ↦ (do
      signed ←
          already_signed (block.index - add64 full_block.index 1) (add64 full_block.index 1)
            block.pub_key c'
      done (not signed, c'))
  ]

unfoldable pub is_good_sign_block : ℕ → Block → Option Block → Chain → Outcome (Bool × Chain)
is_good_sign_block fuel block last_full_block c =
    if is_some block.transaction then done (true, c) else elim last_full_block [
      | none ↦ done (true, c)
      | some full_block ↦
          let sign_count = sub64 (get_height c) full_block.index in
          if ltb sign_count block_signers_min
          then if ltb full_block.index block.index && is_some block.transaction
            then done (false, c)
            else is_good_signer_for_block fuel block full_block c
          else if ltb sign_count block_signers_all && is_none block.transaction
          then is_good_signer_for_block fuel block full_block c
          else done (true, c)
    ]
