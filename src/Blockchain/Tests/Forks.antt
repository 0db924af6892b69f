-- ===== src/Blockchain/Tests/Forks.antt =====
-- Forks, unguarded blocks and identities, at concrete chains.
use gis.Base.{
  ℕ, ◌≤◌, true, List, [], ◌∷◌, none, some, done, ◌≡◌, ◌≢◌, ◌⊎◌, ◌↔◌, inl, inr, refl, arith,
}
use gis.Bytes.{Bytes, codes}
use gis.Blockchain.Types.{Block, Transaction}
use gis.Blockchain.Types.BlockQuality.{good}
use gis.Blockchain.Env.{Row, PicksRow}
use gis.Blockchain.Chain.State.{Chain, Db, find_block, get_height}
use gis.Blockchain.Chain.Queries.{is_id_available}
use gis.Blockchain.Chain.Check.{check_new_block}
use gis.Blockchain.Chain.Update.{add_block, replace_block}
use gis.Blockchain.Chain.Integrity.{IsLinked}
use gis.Blockchain.Chain.Growth.{IsSound}
use gis.Blockchain.Chain.Unguarded.{IsMined, zero_index_accepted}
use gis.Blockchain.Chain.Identity.{NoneBelow, is_id_available_iff}
use gis.Blockchain.Chain.Replace.{replace_block-IsLinked, replace_block_stale}
use gis.Blockchain.Tests.{env, block_at, zeros, first_row, genesis, second, empty_chain, runs}
use mathlib.Core.List.{Mem, mem-cons}
use mathlib.Core.Logic.Or

abbrev pub zone_transaction : Transaction
zone_transaction = record {
  identity = 7 ∷ [];
  confirmation = 8 ∷ [];
  class = codes "zone";
  content = [];
  pub_key = 2 ∷ [];
}

abbrev pub zone_row : Row
zone_row = record {
  id = 2;
  timestamp = 902;
  identity = 7 ∷ [];
  confirmation = 8 ∷ [];
  content = [];
  pub_key = 2 ∷ [];
}

abbrev pub full : Block
full = block_at 2 zeros 28 (some zone_transaction)

abbrev pub db2 : Db
db2 = record { blocks = genesis ∷ full ∷ []; domains = []; zones = zone_row ∷ [] }

abbrev pub chain2 : Chain
chain2 = record empty_chain { last_block = some full; last_full_block = some full; db = db2 }

db2_complete : (i : ℕ) → 1 ≤ i → i ≤ 2 → (b : Block) × (find_block i db2.blocks ≡ some b)
unfolding find_block
db2_complete i h1 h2 = elim (one_or_two i h1 h2) [
  | inl e ↦ (genesis, ground arith)
  | inr e ↦ (full, ground arith)
]
  where
    one_or_two : (i : ℕ) → 1 ≤ i → i ≤ 2 → (i ≡ 1) ⊎ (i ≡ 2)
    one_or_two i h1 h2 = ground arith

chain2-IsSound : IsSound chain2 full
unfolding find_block
chain2-IsSound = record {
  linked = record {
    positive = omega arith;
    small = omega arith;
    stored = refl;
    complete = db2_complete;
    none_above = λ i h. ground arith;
    none_at_zero = refl;
    linked = λ i b p hb hp. ground arith;
    domains_up_to = tt;
    zones_up_to = omega arith;
  };
  cached = refl;
  full_stored = λ f e. ground arith;
  full_last = λ i b e t. (full, refl, ground arith);
}

-- The full block is replaced by a signing one.
replaced : Chain
unfolding runs
replaced = record chain2 {
  last_block = some second;
  db = record { blocks = genesis ∷ second ∷ []; domains = []; zones = [] };
}

replace_runs : replace_block second chain2 ≡ done replaced
unfolding runs replaced
replace_runs = refl

replace_block-IsLinked_example :
    (c : Chain) × (replace_block second chain2 ≡ done c)
    × IsLinked c.db second
    × (get_height c ≡ second.index)
    × (c.signers ≡ [])
unfolding find_block
replace_block-IsLinked_example =
    replace_block-IsLinked second full genesis chain2 chain2-IsSound (omega arith) (omega arith)
      refl refl tt

replace_block_stale_example :
    (replaced.last_full_block ≡ some full) × (find_block 2 replaced.db.blocks ≢ some full)
replace_block_stale_example =
    replace_block_stale second full full chain2 replaced chain2-IsSound refl refl (omega arith)
      (omega arith) replace_runs

abbrev zero_block : Block
zero_block = block_at 0 [] 16 none

zero_block-IsMined : IsMined env zero_block
unfolding runs
zero_block-IsMined = record {
  key_work = refl;
  enough = omega arith;
  work = (128, refl, omega arith);
  hash_fits = refl;
  signed = refl;
}

zero_index_accepted_example :
    (check_new_block env 0 zero_block chain2 ≡ done (good, chain2))
    × ((c : Chain) × (add_block zero_block chain2 ≡ done c) × (get_height c ≡ 0))
zero_index_accepted_example =
    zero_index_accepted env 0 zero_block full chain2 chain2-IsSound refl refl (omega arith) refl
      zero_block-IsMined

abbrev third : Block
third = block_at 3 zeros 28 (some zone_transaction)

env-PicksRow : PicksRow env
env-PicksRow = record { pick_empty = refl; pick_some = λ r rs. (r, refl); pick_mem = picked }
  where
    picked : (rs : List Row) (r : Row) → first_row rs ≡ some r → Mem r rs
    picked [] r e = absurd (cc)
    picked (x ∷ rs) r e = mem-cons.1 (Or.inl (cc))

-- The one row is of block 2 and of the owner 2: for the key 99 the identity is free at the height 2,
-- not at 3.
is_id_available_iff_example :
    (is_id_available env 3 (7 ∷ []) (99 ∷ []) true chain2 ≡ true)
    ↔ (NoneBelow 3 (7 ∷ []) db2.zones ⊎ (◌≡◌ {A = Bytes} (99 ∷ []) (2 ∷ [])))
is_id_available_iff_example =
    is_id_available_iff env 3 (7 ∷ []) (2 ∷ []) (99 ∷ []) true chain2 env-PicksRow (omega arith)
      (omega arith, tt) ((λ _ _. refl), tt)
