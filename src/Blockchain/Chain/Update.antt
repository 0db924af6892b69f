-- ===== src/Blockchain/Chain/Update.antt =====
-- What changes the store: adding and replacing a block, and the check at the start of the program.
use gis.Base.{
  ℕ, zero, suc, ◌+◌, ◌-◌, Bool, true, false, List, Option, none, some, ltb, ◌==◌, if◌then◌else◌,
  Outcome, done, panic, ◌>>=◌, unwrap, i64_max,
}
use gis.Bytes.{codes, same_hash}
use gis.Blockchain.Types.{Block, Transaction, BlockQuality, is_some}
use gis.Blockchain.Env.{Env, Row}
use gis.Blockchain.Chain.State.{
  Chain, Db, get_height, latest, truncate_db_from_block, add_block_to_table, insert_row,
}
use gis.Blockchain.Chain.Queries.{get_block, get_last_full_block}
use gis.Blockchain.Chain.Signers.{clear_signers}
use gis.Blockchain.Chain.Check.{check_block}

abbrev pub transaction_row : ℕ → ℕ → Transaction → Row
transaction_row index timestamp t = record {
  id = index;
  timestamp = timestamp;
  identity = t.identity;
  confirmation = t.confirmation;
  content = t.content;
  pub_key = t.pub_key;
}

abbrev pub set_domains : Db → List Row → Db
set_domains db rows = record db { domains = rows }

abbrev pub set_zones : Db → List Row → Db
set_zones db rows = record db { zones = rows }

-- `none` is an error: another class, or an id that is there already.
unfoldable pub add_transaction_to_table : ℕ → ℕ → Transaction → Db → Option Db
add_transaction_to_table index timestamp t db =
    if same_hash t.class (codes "domain")
    then elim (insert_row (transaction_row index timestamp t) db.domains) [
      | none ↦ none
      | some rows ↦ some (set_domains db rows)
    ]
    else if same_hash t.class (codes "zone")
    then elim (insert_row (transaction_row index timestamp t) db.zones) [
      | none ↦ none
      | some rows ↦ some (set_zones db rows)
    ]
    else none

-- The two fields that `add_block` sets before it writes.
abbrev pub remember_block : Block → Chain → Chain
remember_block block c =
    if is_some block.transaction
    then record c { last_block = some block; last_full_block = some block }
    else record c { last_block = some block }

abbrev pub set_db : Chain → Db → Chain
set_db c db = record c { db = db }

-- A block that does not go into its table is passed over; a transaction that does not is a panic.
unfoldable pub add_block : Block → Chain → Outcome Chain
add_block block c =
    let c' = remember_block block c in
    elim (add_block_to_table block c.db) [
      | none ↦ done c'
      | some db ↦ elim block.transaction [
        | none ↦ done (set_db c' db)
        | some t ↦ (do
          db' ← unwrap (add_transaction_to_table block.index block.timestamp t db)
          done (set_db c' db'))
      ]
    ]

unfoldable pub replace_block : Block → Chain → Outcome Chain
replace_block block c =
    add_block block (set_db (clear_signers c) (truncate_db_from_block block.index c.db))

unfoldable pub load_last_block : Chain → Option Block
load_last_block c = latest (λ b. true) c.db.blocks

-- The part of `init_db` that fills the cached blocks.
unfoldable pub load_cached_blocks : Chain → Chain
load_cached_blocks c = elim (load_last_block c) [
  | none ↦ c
  | some block ↦
      let c' = record c { last_block = some block } in
      if is_some block.transaction
      then record c' { last_full_block = some block }
      else record c' { last_full_block = get_last_full_block i64_max none c' }
]

abbrev remember_full : Block → Option Block → Option Block
remember_full block old = if is_some block.transaction then some block else old

abbrev is_good : BlockQuality → Bool
is_good BlockQuality.good = true
is_good _ = false

-- The loop of `check_chain` over the rounds left: the last block and the last full block checked.
unfoldable pub check_blocks : Env → ℕ → ℕ → ℕ → Option Block → Option Block → Chain → Outcome Chain
check_blocks env fuel zero id last_block last_full_block c = done c
check_blocks env fuel (suc rounds) id last_block last_full_block c = do
  block ← unwrap (get_block id c)
  elim (block.index == 1) [
    | true ↦ elim (same_hash block.hash c.origin) [
      | false ↦ panic
      | true ↦ check_blocks env fuel rounds (id + 1) (some block) last_full_block c
    ]
    | false ↦ (do
      (quality, c') ← check_block env fuel block last_block last_full_block c
      elim (is_good quality) [
        | false ↦ done (set_db c' (truncate_db_from_block block.index c'.db))
        | true ↦
            check_blocks env fuel rounds (id + 1) (some block) (remember_full block last_full_block)
              (record c' { last_full_block = remember_full block c'.last_full_block })
      ])
  ]

abbrev full_up_to : Option Block → Chain → Option Block
full_up_to none c = none
full_up_to (some last) c =
    if is_some last.transaction then some last else get_last_full_block last.index none c

-- `fuel` is that of `check_block`.
unfoldable pub check_chain : Env → ℕ → ℕ → Chain → Outcome Chain
check_chain env fuel count c =
    let height = get_height c in
    let start = if ltb count height then height - count + 1 else 1 in
    let last = if ltb 1 start then get_block (start - 1) c else none in
    do
      c' ← check_blocks env fuel (height + 1 - start) start last (full_up_to last c) c
      let c'' = record c' { last_block = load_last_block c' }
      done (record c'' { last_full_block = get_last_full_block i64_max none c'' })
