-- ===== src/Blockchain/Chain/Growth.antt =====
-- A block that arrives and is good joins the store: `add_block` after `check_new_block`.
use gis.Base.{
  ℕ, ◌+◌, ◌-◌, ◌^◌, ◌≤◌, ◌<◌, true, false, some, done, ◌≡◌, ◌⊎◌, inl, inr, refl, ap, ◌∙◌, sym,
  subst, arith, Option-cases, Bool-cases,
}
use gis.Bytes.{codes, same_hash}
use gis.Bytes.Difficulty.{hash_difficulty-le}
use gis.Blockchain.Types.{Block, Transaction, is_some}
use gis.Blockchain.Types.BlockQuality.{good}
use gis.Blockchain.Env.{Env}
use gis.Blockchain.Chain.State.{Chain, Db, find_block}
use gis.Blockchain.Chain.Queries.{get_block, get_difficulty_for_transaction}
use gis.Blockchain.Chain.Check.{check_new_block, check_block, required_difficulty}
use gis.Blockchain.Chain.Update.{add_block, remember_block, set_db}
use gis.Blockchain.Chain.Keeps.{check_block-with_signers, with_signers}
use gis.Blockchain.Chain.Accepted.{IsProved, IsInOrder, check_block-IsAccepted}
use gis.Blockchain.Chain.Store.{has_id_above, find_block-append, find_block-append_old}
use gis.Blockchain.Chain.Integrity.{IsLinked, IsKnownClass, Extends, add_block-Extends, extended}

-- Work of 2 ^ 32 - 1, which a transaction of another class needs, is more than a hash can show.
difficulty_unknown_class :
    (env : Env) (t : Transaction) (c : Chain)
    → same_hash t.class (codes "domain") ≡ false
    → same_hash t.class (codes "zone") ≡ false
    → get_difficulty_for_transaction env t c ≡ 2 ^ 32 - 1
unfolding get_difficulty_for_transaction
difficulty_unknown_class env t c hd hz = rw (hd, hz) refl

pub IsProved-IsKnownClass :
    (env : Env) (block : Block) (c : Chain) → IsProved env block c → IsKnownClass block.transaction
unfolding required_difficulty
IsProved-IsKnownClass env block c v = elim (Option-cases block.transaction) [
  | inl e ↦ rw e tt
  | inr (t, e) ↦ rw e (known t e)
]
  where
    known : (t : Transaction) → block.transaction ≡ some t → IsKnownClass (some t)
    known t e = elim (Bool-cases (same_hash t.class (codes "domain"))) [
      | inl d ↦ inl d
      | inr nd ↦ elim (Bool-cases (same_hash t.class (codes "zone"))) [
        | inl z ↦ inr z
        | inr nz ↦ absurd (
            ground (
              arith,
              hash_difficulty-le block.hash v.work.0 v.work.1,
              difficulty_unknown_class env t c nd nz,
            ))
      ]
    ]

-- The store is linked, and the two cached blocks are what the store says.
pub record IsSound (c : Chain) (last : Block) : Type 0 where
  pub linked : IsLinked c.db last
  pub cached : c.last_block ≡ some last
  pub full_stored :
      (f : Block)
      → c.last_full_block ≡ some f
      → (find_block f.index c.db.blocks ≡ some f) × (is_some f.transaction ≡ true)
  pub full_last :
      (i : ℕ) (b : Block)
      → find_block i c.db.blocks ≡ some b
      → is_some b.transaction ≡ true
      → (f : Block) × (c.last_full_block ≡ some f) × (i ≤ f.index)

-- The fields that a check leaves alone.
abbrev pub SameStore : Chain → Chain → Type 0
SameStore c c' =
    (c'.db ≡ c.db) × (c'.last_block ≡ c.last_block) × (c'.last_full_block ≡ c.last_full_block)

pub same_store : (c c' : Chain) → c' ≡ with_signers c c' → SameStore c c'
same_store c c' e = (ap (λ d. d.db) e, ap (λ d. d.last_block) e, ap (λ d. d.last_full_block) e)

pub moved : (c c' : Chain) (last : Block) → SameStore c c' → IsSound c last → IsSound c' last
moved c c' last (db, lb, lf) s = record {
  linked = rw db s.linked;
  cached = lb ∙ s.cached;
  full_stored = λ f e. rw db (s.full_stored f (sym lf ∙ e));
  full_last = λ i b e t. rw lf (s.full_last i b (rw db at e) t);
}

-- A good block with an index has the next one, and the last block for its parent.
accepted_next :
    (block last : Block) (c : Chain)
    → IsSound c last
    → last.index + 1 < 2 ^ 63
    → 1 ≤ block.index
    → IsInOrder block last c
    → (block.index ≡ last.index + 1) × (block.prev_block_hash ≡ last.hash)
unfolding get_block
accepted_next block last c s fits pos o = elim o.order [
  | inl (above, parent) ↦ (omega (arith, o.near), parent)
  | inr (below, absent) ↦
      let (b, found) = s.linked.complete block.index pos below in absurd (cc (found, absent))
]

module _ (block last : Block) (c : Chain) (db : Db) (s : IsSound c last)
    (linked : IsLinked db block) (more : Extends c.db db block) where
  kept : (i : ℕ) (b : Block) → find_block i c.db.blocks ≡ some b → find_block i db.blocks ≡ some b
  kept i b e = rw more.0 (find_block-append_old i c.db.blocks block b e)

  -- A block of the new store is the new block or an old one.
  origin_of :
      (i : ℕ) (b : Block)
      → find_block i db.blocks ≡ some b
      → (b ≡ block) ⊎ (find_block i c.db.blocks ≡ some b)
  origin_of i b e = elim (Option-cases (find_block i c.db.blocks)) [
    | inl absent ↦ inl (ground (arith, more.0, find_block-append i c.db.blocks block absent))
    | inr (q, found) ↦ inr (ground (arith, kept i q found))
  ]

  full_stored_new :
      (f : Block)
      → (remember_block block c).last_full_block ≡ some f
      → (find_block f.index db.blocks ≡ some f) × (is_some f.transaction ≡ true)
  full_stored_new f e = elim (Bool-cases (is_some block.transaction)) [
    | inl full ↦ ground (arith, linked.stored)
    | inr bare ↦ let old = s.full_stored f (ground arith) in (kept f.index f old.0, old.1)
  ]

  full_last_new :
      (i : ℕ) (b : Block)
      → find_block i db.blocks ≡ some b
      → is_some b.transaction ≡ true
      → (f : Block) × ((remember_block block c).last_full_block ≡ some f) × (i ≤ f.index)
  full_last_new i b e t = elim (Bool-cases (is_some block.transaction)) [
    | inl full ↦ (block, ground arith, ground (arith, linked.none_above i))
    | inr bare ↦ elim (origin_of i b e) [
      | inl new ↦ absurd (cc (bare, ap (λ (x : Block). is_some x.transaction) new, t))
      | inr old ↦ let (f, cached, le) = s.full_last i b old t in (f, ground arith, le)
    ]
  ]

  -- The chain that `add_block` leaves has the new block as its last, and as its last full one if it
  -- has a transaction.
  remembered : IsSound (set_db (remember_block block c) db) block
  remembered = record {
    linked = ground (arith, linked);
    cached = ground arith;
    full_stored = full_stored_new;
    full_last = full_last_new;
  }

-- A sound chain below 2 ^ 63 - 1 blocks, and a block with an index of 1 at least that the check
-- calls good: `add_block` does not panic, the chain is sound again with that block as its last, the
-- block has the next index, and it names the hash of the block before.
pub add_good_block-IsSound :
    (env : Env) (fuel : ℕ) (block last : Block) (c c' : Chain)
    → IsSound c last
    → last.index + 1 < 2 ^ 63
    → 1 ≤ block.index
    → check_new_block env fuel block c ≡ done (good, c')
    → (c'' : Chain) × (add_block block c' ≡ done c'')
      × IsSound c'' block
      × (block.index ≡ last.index + 1)
      × (block.prev_block_hash ≡ last.hash)
unfolding check_new_block
add_good_block-IsSound env fuel block last c c' sound fits pos h =
    let h' =
      subst (λ l. check_block env fuel block l c.last_full_block c ≡ done (good, c')) sound.cached
        h in
    let accepted = check_block-IsAccepted env fuel block last c.last_full_block c c' h' in
    let same = same_store c c' (check_block-with_signers env fuel block _ _ c h) in
    let s = moved c c' last same sound in
    let (next, parent) = accepted_next block last c' s fits pos accepted.in_order in
    let known = IsProved-IsKnownClass env block c accepted.proved in
    let (db, added, more) =
      add_block-Extends block c' (s.linked.none_above block.index (omega arith)) known
        (has_id_above last.index block.index _ s.linked.domains_up_to (omega arith))
        (has_id_above last.index block.index _ s.linked.zones_up_to (omega arith)) in
    let linked = extended c'.db db last block s.linked more next fits parent in
    (
      set_db (remember_block block c') db,
      added,
      remembered block last c' db s linked more,
      next,
      parent,
    )
