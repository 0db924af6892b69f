-- ===== src/Blockchain/Chain/Probes.antt =====
-- Which blocks `get_block_signers` has to come across for its loop to end.
use gis.Base.{
  ℕ, zero, suc, ◌+◌, ◌%◌, ◌≤◌, ◌<◌, true, false, List, [], ◌∷◌, some, done, ◌≡◌, arith, length,
  add64, mul64, ◌⊎◌, inl, inr, Option-cases,
}
use gis.Bytes.{Bytes, same_hash}
use gis.Bytes.Equality.{same_hash_refl}
use gis.Blockchain.Types.{Block}
use gis.Blockchain.Chain.State.{Chain, contains}
use gis.Blockchain.Chain.Queries.{get_block}
use gis.Blockchain.Chain.Signers.{take_key, signers_loop}
use gis.Blockchain.Chain.Selection.{AreSigners, contains-append, signers_loop-AreSigners}
use gis.Blockchain.Chain.Termination.{probe_keys, signers_loop_total, Distinct, length-Distinct}

-- Block `i` is stored, and of this key.
abbrev pub IsKeyAt : Chain → ℕ → Bytes → Type 0
IsKeyAt c i key = (b : Block) × (get_block i c ≡ some b) × (b.pub_key ≡ key)

-- The key is of one of the blocks that stand at the `m` indices from `count` on.
abbrev pub IsProbed : ℕ → Chain → ℕ → ℕ → ℕ → Bytes → Type 0
IsProbed zero c tail window count key = ⊥
IsProbed (suc m) c tail window count key =
    IsKeyAt c (mul64 tail count % window + 1) key ⊎ IsProbed m c tail window (add64 count 1) key

-- Distinct keys, none of them this one, of blocks at those indices.
abbrev pub AreProbed : ℕ → Chain → Bytes → ℕ → ℕ → ℕ → List Bytes → Type 0
AreProbed m c own tail window count [] = Unit
AreProbed m c own tail window count (k ∷ ks) =
    (contains k ks ≡ false)
    × (same_hash k own ≡ false)
    × IsProbed m c tail window count k
    × AreProbed m c own tail window count ks

take_key-keeps :
    (own k : Bytes) (i : ℕ) (c : Chain) (ks : List Bytes)
    → contains k ks ≡ true
    → contains k (take_key own (get_block i c) ks) ≡ true
unfolding take_key
take_key-keeps own k i c ks h = elim (Option-cases (get_block i c)) [
  | inl e ↦ rw (e, take_key) h
  | inr (b, e) ↦ ground (arith, contains-append k b.pub_key ks)
]

take_key-takes :
    (own k : Bytes) (i : ℕ) (c : Chain) (ks : List Bytes)
    → same_hash k own ≡ false
    → IsKeyAt c i k
    → contains k (take_key own (get_block i c) ks) ≡ true
unfolding take_key
take_key-takes own k i c ks other (b, e, same) =
    ground (arith, contains-append k b.pub_key ks, same_hash_refl k)

probe_keys-keeps :
    (m : ℕ) (c : Chain) (own k : Bytes) (tail window count : ℕ) (ks : List Bytes)
    → contains k ks ≡ true
    → contains k (probe_keys m c own tail window count ks) ≡ true
unfolding probe_keys
probe_keys-keeps zero c own k tail window count ks h = h
probe_keys-keeps (suc m) c own k tail window count ks h =
    probe_keys-keeps m c own k tail window (add64 count 1)
      (take_key own (get_block (mul64 tail count % window + 1) c) ks)
      (take_key-keeps own k (mul64 tail count % window + 1) c ks h)

probe_keys-takes :
    (m : ℕ) (c : Chain) (own k : Bytes) (tail window count : ℕ) (ks : List Bytes)
    → same_hash k own ≡ false
    → IsProbed m c tail window count k
    → contains k (probe_keys m c own tail window count ks) ≡ true
unfolding probe_keys
probe_keys-takes zero c own k tail window count ks other h = elim h [ ]
probe_keys-takes (suc m) c own k tail window count ks other (inl at) =
    probe_keys-keeps m c own k tail window (add64 count 1)
      (take_key own (get_block (mul64 tail count % window + 1) c) ks)
      (take_key-takes own k (mul64 tail count % window + 1) c ks other at)
probe_keys-takes (suc m) c own k tail window count ks other (inr later) =
    probe_keys-takes m c own k tail window (add64 count 1)
      (take_key own (get_block (mul64 tail count % window + 1) c) ks) other later

AreProbed-Distinct :
    (m : ℕ) (c : Chain) (own : Bytes) (tail window count : ℕ) (keys : List Bytes)
    → AreProbed m c own tail window count keys
    → Distinct keys (probe_keys m c own tail window count [])
AreProbed-Distinct m c own tail window count [] u = tt
AreProbed-Distinct m c own tail window count (k ∷ ks) u = (
  u.0,
  probe_keys-takes m c own k tail window count [] u.1 u.2,
  AreProbed-Distinct m c own tail window count ks u.3,
)

-- The loop that chooses the signers of a block: if the blocks at the first `m` indices that it looks
-- at have seven distinct keys or more, other than the block's own, it answers within `m + 1` rounds,
-- with seven distinct keys of stored blocks, none of them the block's own.
pub signers_loop-found :
    (m : ℕ) (c : Chain) (own : Bytes) (tail window count : ℕ) (keys : List Bytes)
    → 0 < window
    → AreProbed m c own tail window count keys
    → 7 ≤ length keys
    → (result : List Bytes) × (signers_loop (suc m) c own tail window count [] ≡ done result)
      × AreSigners own c.db.blocks result
      × (length result ≡ 7)
signers_loop-found m c own tail window count keys w u many =
    let found =
      length-Distinct keys (probe_keys m c own tail window count [])
        (AreProbed-Distinct m c own tail window count keys u) in
    let (result, e) = signers_loop_total m c own tail window count [] w (omega (arith, found)) in
    let (signers, seven) =
      signers_loop-AreSigners (suc m) c own tail window count [] result tt (omega arith) e in
    (result, e, signers, seven)
