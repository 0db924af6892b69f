-- ===== src/Blockchain/Chain/Selection.antt =====
-- The signers of a block: what the loop of `get_block_signers` collects, and when it cannot end.
use gis.Base.{
  ℕ, zero, suc, ◌+◌, ◌%◌, ◌≤◌, true, false, List, [], ◌∷◌, ◌++◌, Option, none, some, done, ◌≡◌, inl,
  inr, refl, arith, length, length-append, add64, mul64, Option-cases, if◌then◌else◌,
}
use gis.Bytes.{Bytes, same_hash}
use gis.Bytes.Equality.{same_hash_sound, same_hash_refl}
use gis.Blockchain.Types.{Block}
use gis.Blockchain.Chain.State.{Chain, contains, find_block}
use gis.Blockchain.Chain.Queries.{get_block}
use gis.Blockchain.Chain.Signers.{take_key, signers_loop}

-- The keys of the blocks of a table.
abbrev pub keys : List Block → List Bytes
keys [] = []
keys (b ∷ bs) = b.pub_key ∷ keys bs

-- Distinct keys of stored blocks, none of them the block's own.
abbrev pub AreSigners : Bytes → List Block → List Bytes → Type 0
AreSigners own bs [] = Unit
AreSigners own bs (k ∷ ks) =
    (contains k ks ≡ false)
    × (same_hash k own ≡ false)
    × (contains k (keys bs) ≡ true)
    × AreSigners own bs ks

pub contains-append :
    (x y : Bytes) (ks : List Bytes)
    → contains x (ks ++ (y ∷ [])) ≡ (if contains x ks then true else same_hash y x)
unfolding contains
contains-append x y [] = ground arith
contains-append x y (k ∷ ks) = ground (arith, contains-append x y ks)

pub same_hash-sym : (x y : Bytes) → same_hash x y ≡ false → same_hash y x ≡ false
same_hash-sym x y h = ground (arith, same_hash_sound y x, same_hash_refl x)

AreSigners-append :
    (own k : Bytes) (bs : List Block) (ks : List Bytes)
    → AreSigners own bs ks
    → contains k ks ≡ false
    → same_hash k own ≡ false
    → contains k (keys bs) ≡ true
    → AreSigners own bs (ks ++ (k ∷ []))
unfolding contains
AreSigners-append own k bs [] u h1 h2 h3 = (refl, h2, h3, tt)
AreSigners-append own k bs (x ∷ ks) u h1 h2 h3 = (
  ground (arith, contains-append x k ks, same_hash-sym x k),
  u.1,
  u.2,
  AreSigners-append own k bs ks u.3 (ground arith) h2 h3,
)

contains-keys :
    (i : ℕ) (bs : List Block) (b : Block)
    → find_block i bs ≡ some b
    → contains b.pub_key (keys bs) ≡ true
unfolding find_block contains
contains-keys i [] b h = cc
contains-keys i (x ∷ bs) b h = ground (arith, same_hash_refl b.pub_key, contains-keys i bs b)

pub take_key-AreSigners :
    (own : Bytes) (bs : List Block) (i : ℕ) (ks : List Bytes)
    → AreSigners own bs ks
    → AreSigners own bs (take_key own (find_block i bs) ks)
unfolding take_key
take_key-AreSigners own bs i ks u = elim (Option-cases (find_block i bs)) [
  | inl e ↦ rw (e, take_key) u
  | inr (b, e) ↦ ground (arith, AreSigners-append own b.pub_key bs ks u, contains-keys i bs b e)
]

length-take_key :
    (own : Bytes) (o : Option Block) (ks : List Bytes) → length (take_key own o ks) ≤ length ks + 1
unfolding take_key
length-take_key own none ks = omega arith
length-take_key own (some b) ks = ground (arith, length-append ks (b.pub_key ∷ []))

-- Signers that the loop answers with: seven distinct keys of stored blocks, none the block's own.
pub signers_loop-AreSigners :
    (fuel : ℕ) (c : Chain) (own : Bytes) (tail window count : ℕ) (ks result : List Bytes)
    → AreSigners own c.db.blocks ks
    → length ks ≤ 7
    → signers_loop fuel c own tail window count ks ≡ done result
    → AreSigners own c.db.blocks result × (length result ≡ 7)
unfolding signers_loop get_block
signers_loop-AreSigners zero c own tail window count ks result u h e = cc
signers_loop-AreSigners (suc fuel) c own tail window count ks result u h e =
    let i = mul64 tail count % window + 1 in
    let next = take_key own (find_block i c.db.blocks) ks in
    ground (
      arith,
      length-take_key own (find_block i c.db.blocks) ks,
      take_key-AreSigners own c.db.blocks i ks u,
      signers_loop-AreSigners fuel c own tail window (add64 count 1) next result,
    )
