-- ===== src/Blockchain/Chain/Integrity.antt =====
-- The chain stays a chain: a block that a check calls good extends a linked store by one.
use gis.Base.{
  ℕ, ◌+◌, ◌^◌, ◌≤◌, ◌<◌, true, false, [], ◌∷◌, ◌++◌, Option, none, some, done, ◌≡◌, ◌≢◌, ◌⊎◌, inl,
  inr, refl, ◌∙◌, sym, arith, ◌==◌, if◌then◌else◌, Option-cases, Bool-cases,
}
use gis.Bytes.{codes, same_hash}
use gis.Blockchain.Types.{Block, Transaction}
use gis.Blockchain.Env.{Row}
use gis.Blockchain.Chain.State.{Chain, Db, find_block, has_id, add_block_to_table}
use gis.Blockchain.Chain.Update.{
  add_block, add_transaction_to_table, remember_block, set_db, transaction_row,
}
use gis.Blockchain.Chain.Store.{
  find_block-append, find_block-append_old, IdsUpTo, IdsUpTo-mono, IdsUpTo-append,
}

some-ne-none : {b : Block} → some b ≢ none
some-ne-none h = cc

-- The blocks 1 to `last.index` are there and no other, each names its parent's hash, and no row of
-- the other tables is of a later block.
pub record IsLinked (db : Db) (last : Block) : Type 0 where
  pub positive : 1 ≤ last.index
  pub small : last.index < 2 ^ 63
  pub stored : find_block last.index db.blocks ≡ some last
  pub complete : (i : ℕ) → 1 ≤ i → i ≤ last.index → (b : Block) × (find_block i db.blocks ≡ some b)
  pub none_above : (i : ℕ) → last.index < i → find_block i db.blocks ≡ none
  pub none_at_zero : find_block 0 db.blocks ≡ none
  pub linked :
      (i : ℕ) (b p : Block)
      → find_block (i + 1) db.blocks ≡ some b
      → find_block i db.blocks ≡ some p
      → b.prev_block_hash ≡ p.hash
  pub domains_up_to : IdsUpTo last.index db.domains
  pub zones_up_to : IdsUpTo last.index db.zones

abbrev pub IsKnownClass : Option Transaction → Type 0
IsKnownClass none = Unit
IsKnownClass (some t) =
    (same_hash t.class (codes "domain") ≡ true) ⊎ (same_hash t.class (codes "zone") ≡ true)

-- The store with the block added behind its last one.
abbrev pub Extends : Db → Db → Block → Type 0
Extends db db' block =
    (db'.blocks ≡ db.blocks ++ (block ∷ []))
    × ((n : ℕ) → block.index ≤ n → IdsUpTo n db.domains → IdsUpTo n db'.domains)
    × ((n : ℕ) → block.index ≤ n → IdsUpTo n db.zones → IdsUpTo n db'.zones)

add_transaction-Extends :
    (block : Block) (t : Transaction) (db : Db)
    → IsKnownClass (some t)
    → has_id block.index db.domains ≡ false
    → has_id block.index db.zones ≡ false
    → (db' : Db) × (add_transaction_to_table block.index block.timestamp t db ≡ some db')
      × (db'.blocks ≡ db.blocks)
      × ((n : ℕ) → block.index ≤ n → IdsUpTo n db.domains → IdsUpTo n db'.domains)
      × ((n : ℕ) → block.index ≤ n → IdsUpTo n db.zones → IdsUpTo n db'.zones)
unfolding add_transaction_to_table
add_transaction-Extends block t db k hd hz =
    elim (Bool-cases (same_hash t.class (codes "domain"))) [
      | inl e ↦ (
        record db { domains = db.domains ++ (row ∷ []) },
        rw (e, hd),
        refl,
        (λ n h u. IdsUpTo-append n db.domains row u h),
        (λ n h u. u),
      )
      | inr e ↦ (
        record db { zones = db.zones ++ (row ∷ []) },
        ground arith,
        refl,
        (λ n h u. u),
        (λ n h u. IdsUpTo-append n db.zones row u h),
      )
    ]
  where
    row : Row
    row = transaction_row block.index block.timestamp t

pub add_block-Extends :
    (block : Block) (c : Chain)
    → find_block block.index c.db.blocks ≡ none
    → IsKnownClass block.transaction
    → has_id block.index c.db.domains ≡ false
    → has_id block.index c.db.zones ≡ false
    → (db : Db) × (add_block block c ≡ done (set_db (remember_block block c) db))
      × Extends c.db db block
unfolding add_block add_block_to_table
add_block-Extends block c free k hd hz = elim (Option-cases block.transaction) [
  | inl e ↦ (
    record c.db { blocks = c.db.blocks ++ (block ∷ []) },
    ground arith,
    (refl, (λ n h u. u), (λ n h u. u)),
  )
  | inr (t, e) ↦
      let db1 : Db = record c.db { blocks = c.db.blocks ++ (block ∷ []) } in
      let (db', added, bs, ds, zs) = add_transaction-Extends block t db1 (rw e at k) hd hz in
      (db', ground (arith, added), (bs, ds, zs))
]

module _ (db db' : Db) (last block : Block) (old : IsLinked db last) (more : Extends db db' block)
    (next : block.index ≡ last.index + 1) (fits : last.index + 1 < 2 ^ 63)
    (parent : block.prev_block_hash ≡ last.hash) where
  free : find_block block.index db.blocks ≡ none
  free = old.none_above block.index (omega arith)

  find_new :
      (i : ℕ)
      → find_block i db.blocks ≡ none
      → find_block i db'.blocks ≡ (if block.index == i then some block else none)
  find_new i e = rw more.0 (find_block-append i db.blocks block e)

  find_old :
      (i : ℕ) (b : Block) → find_block i db.blocks ≡ some b → find_block i db'.blocks ≡ some b
  find_old i b e = rw more.0 (find_block-append_old i db.blocks block b e)

  complete_new :
      (i : ℕ) → 1 ≤ i → i ≤ block.index → (b : Block) × (find_block i db'.blocks ≡ some b)
  complete_new i h1 h2 = elim (Option-cases (find_block i db.blocks)) [
    | inr (b, e) ↦ (b, find_old i b e)
    | inl e ↦ elim (Bool-cases (block.index == i)) [
      | inl new ↦ (block, rw (find_new i e, new) refl)
      | inr other ↦
          let (b, found) = old.complete i h1 (ground arith) in absurd (some-ne-none (sym found ∙ e))
    ]
  ]

  -- A block below the new one is an old one.
  find_below :
      (i : ℕ) (p : Block)
      → i ≤ last.index
      → find_block i db'.blocks ≡ some p
      → find_block i db.blocks ≡ some p
  find_below i p h e = elim (Option-cases (find_block i db.blocks)) [
    | inl none_old ↦ absurd (ground (arith, find_new i none_old))
    | inr (q, found) ↦ ground (arith, find_old i q found)
  ]

  stored_up_to : (i : ℕ) (q : Block) → find_block i db.blocks ≡ some q → i ≤ last.index
  stored_up_to i q found = ground (arith, old.none_above i)

  -- What stands at a free index is the new block, whose parent is the last one.
  last_link :
      (i : ℕ) (b p : Block)
      → find_block (i + 1) db.blocks ≡ none
      → find_block (i + 1) db'.blocks ≡ some b
      → find_block i db'.blocks ≡ some p
      → b.prev_block_hash ≡ p.hash
  last_link i b p none_old hb hp =
      let new = find_new (i + 1) none_old in
      let at : i ≡ last.index = ground (arith, new) in
      let here = find_below i p (omega arith) hp in ground (arith, new, here, old.stored)

  linked_new :
      (i : ℕ) (b p : Block)
      → find_block (i + 1) db'.blocks ≡ some b
      → find_block i db'.blocks ≡ some p
      → b.prev_block_hash ≡ p.hash
  linked_new i b p hb hp = elim (Option-cases (find_block (i + 1) db.blocks)) [
    | inr (q, found) ↦
        let below = stored_up_to (i + 1) q found in
        old.linked i b p (ground (arith, find_old (i + 1) q found))
          (find_below i p (omega arith) hp)
    | inl none_old ↦ last_link i b p none_old hb hp
  ]

  pub extended : IsLinked db' block
  extended = record {
    positive = omega arith;
    small = omega arith;
    stored = ground (arith, find_new block.index free);
    complete = complete_new;
    none_above = λ i h. ground (arith, old.none_above i, find_new i);
    none_at_zero = ground (arith, old.none_at_zero, find_new 0);
    linked = linked_new;
    domains_up_to =
        more.1 block.index (omega arith) (IdsUpTo-mono _ _ _ (omega arith) old.domains_up_to);
    zones_up_to =
        more.2 block.index (omega arith) (IdsUpTo-mono _ _ _ (omega arith) old.zones_up_to);
  }
