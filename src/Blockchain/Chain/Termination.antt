-- ===== src/Blockchain/Chain/Termination.antt =====
-- When the loop of `get_block_signers` ends.
use gis.Base.{
  ℕ, zero, suc, ◌+◌, ◌-◌, ◌%◌, ◌^◌, ◌≤◌, ◌<◌, true, false, List, [], ◌∷◌, done, stuck, ◌≡◌, refl,
  arith, length, add64, sub64, drop, mul64, ltb, if◌then◌else◌, Bool-cases, inl, inr, ◌∙◌,
}
use gis.Bytes.{Bytes, same_hash, value_be, get_tail_u64}
use gis.Bytes.Equality.{same_hash_sound}
use gis.Blockchain.Types.{Block, is_some}
use gis.Blockchain.Chain.State.{Chain, contains, find_block, get_height}
use gis.Blockchain.Chain.Queries.{get_block}
use gis.Blockchain.Chain.Signers.{take_key, signers_loop, get_block_signers, has_signers_for}
use gis.Blockchain.Chain.Selection.{
  AreSigners, take_key-AreSigners, keys, same_hash-sym, signers_loop-AreSigners,
}

-- The keys that `m` rounds collect, with no test of how many there are.
unfoldable pub probe_keys : ℕ → Chain → Bytes → ℕ → ℕ → ℕ → List Bytes → List Bytes
probe_keys zero c own tail window count ks = ks
probe_keys (suc m) c own tail window count ks =
    probe_keys m c own tail window (add64 count 1)
      (take_key own (get_block (mul64 tail count % window + 1) c) ks)

loop_stops :
    (fuel : ℕ) (c : Chain) (own : Bytes) (tail window count : ℕ) (ks : List Bytes)
    → 7 ≤ length ks
    → signers_loop (suc fuel) c own tail window count ks ≡ done ks
unfolding signers_loop
loop_stops fuel c own tail window count ks h = ground arith

loop_goes_on :
    (fuel : ℕ) (c : Chain) (own : Bytes) (tail window count : ℕ) (ks : List Bytes)
    → length ks < 7
    → 0 < window
    → signers_loop (suc fuel) c own tail window count ks
      ≡ signers_loop fuel c own tail window
          (add64 count 1)
          (take_key own (get_block (mul64 tail count % window + 1) c) ks)
unfolding signers_loop
loop_goes_on fuel c own tail window count ks h w = ground arith

-- The loop answers within `m + 1` rounds if `m` probes find seven keys.
pub signers_loop_total :
    (m : ℕ) (c : Chain) (own : Bytes) (tail window count : ℕ) (ks : List Bytes)
    → 0 < window
    → 7 ≤ length (probe_keys m c own tail window count ks)
    → (result : List Bytes) × (signers_loop (suc m) c own tail window count ks ≡ done result)
unfolding probe_keys
signers_loop_total zero c own tail window count ks w h =
    (ks, loop_stops 0 c own tail window count ks h)
signers_loop_total (suc m) c own tail window count ks w h = elim (Bool-cases (ltb (length ks) 7)) [
  | inr full ↦ (ks, loop_stops (suc m) c own tail window count ks (ground arith))
  | inl few ↦
      let next = take_key own (get_block (mul64 tail count % window + 1) c) ks in
      let (result, e) = signers_loop_total m c own tail window (add64 count 1) next w h in
      (result, loop_goes_on (suc m) c own tail window count ks (ground arith) w ∙ e)
]

-- The keys of the blocks whose key is another than this.
abbrev pub other_keys : Bytes → List Block → List Bytes
other_keys own [] = []
other_keys own (b ∷ bs) =
    if same_hash b.pub_key own then other_keys own bs else b.pub_key ∷ other_keys own bs

remove : Bytes → List Bytes → List Bytes
remove k [] = []
remove k (x ∷ xs) = if same_hash x k then xs else x ∷ remove k xs

length-remove :
    (k : Bytes) (xs : List Bytes) → contains k xs ≡ true → length (remove k xs) + 1 ≡ length xs
unfolding remove contains
length-remove k [] h = cc
length-remove k (x ∷ xs) h = ground (arith, length-remove k xs)

contains-remove :
    (k j : Bytes) (xs : List Bytes)
    → same_hash k j ≡ false
    → contains j xs ≡ true
    → contains j (remove k xs) ≡ true
unfolding remove contains
contains-remove k j [] d h = cc
contains-remove k j (x ∷ xs) d h =
    ground (arith, contains-remove k j xs d, same_hash_sound x k, same_hash_sound x j)

abbrev pub Distinct : List Bytes → List Bytes → Type 0
Distinct [] xs = Unit
Distinct (k ∷ ks) xs = (contains k ks ≡ false) × (contains k xs ≡ true) × Distinct ks xs

Distinct-remove :
    (k : Bytes) (ks xs : List Bytes)
    → contains k ks ≡ false
    → Distinct ks xs
    → Distinct ks (remove k xs)
unfolding contains
Distinct-remove k [] xs h u = tt
Distinct-remove k (j ∷ ks) xs h u = (
  u.0,
  contains-remove k j xs (same_hash-sym j k (ground arith)) u.1,
  Distinct-remove k ks xs (ground arith) u.2,
)

pub length-Distinct : (ks xs : List Bytes) → Distinct ks xs → length ks ≤ length xs
length-Distinct [] xs u = omega arith
length-Distinct (k ∷ ks) xs u = omega (
  arith,
  length-remove k xs u.1,
  length-Distinct ks (remove k xs) (Distinct-remove k ks xs u.0 u.2),
)

contains-other_keys :
    (own k : Bytes) (bs : List Block)
    → same_hash k own ≡ false
    → contains k (keys bs) ≡ true
    → contains k (other_keys own bs) ≡ true
unfolding contains
contains-other_keys own k [] d h = cc
contains-other_keys own k (b ∷ bs) d h =
    ground (arith, contains-other_keys own k bs d, same_hash_sound b.pub_key k)

AreSigners-Distinct :
    (own : Bytes) (bs : List Block) (ks : List Bytes)
    → AreSigners own bs ks
    → Distinct ks (other_keys own bs)
AreSigners-Distinct own bs [] u = tt
AreSigners-Distinct own bs (k ∷ ks) u =
    (u.0, contains-other_keys own k bs u.1 u.2, AreSigners-Distinct own bs ks u.3)

-- With fewer than seven blocks of other keys in the store the loop never answers: no fuel is
-- enough.
pub signers_loop-stuck :
    (fuel : ℕ) (c : Chain) (own : Bytes) (tail window count : ℕ) (ks : List Bytes)
    → length (other_keys own c.db.blocks) < 7
    → 0 < window
    → AreSigners own c.db.blocks ks
    → signers_loop fuel c own tail window count ks ≡ stuck
unfolding get_block
signers_loop-stuck zero c own tail window count ks few w u = unfold signers_loop in refl
signers_loop-stuck (suc fuel) c own tail window count ks few w u =
    let i = mul64 tail count % window + 1 in
    let bound = length-Distinct ks _ (AreSigners-Distinct own c.db.blocks ks u) in
    loop_goes_on fuel c own tail window count ks (omega (arith, bound)) w
    ∙ signers_loop-stuck fuel c own tail window (add64 count 1)
        (take_key own (find_block i c.db.blocks) ks) few w
        (take_key-AreSigners own c.db.blocks i ks u)

-- A block with a transaction, of an index from 2 to the height and below 2 ^ 64, with a signature of
-- eight bytes or more and no cached signers, on a store with fewer than seven blocks of other keys
-- than its own: the call for its signers never answers, whatever number of rounds the loop gets.
pub get_block_signers-stuck :
    (fuel : ℕ) (block : Block) (c : Chain)
    → is_some block.transaction ≡ true
    → block.index ≤ get_height c
    → 2 ≤ block.index
    → block.index < 2 ^ 64
    → has_signers_for block.index c ≡ false
    → 8 ≤ length block.signature
    → length (other_keys block.pub_key c.db.blocks) < 7
    → get_block_signers fuel block c ≡ stuck
unfolding get_block_signers get_tail_u64
get_block_signers-stuck fuel block c full h two small fresh long few = ground (
  arith,
  signers_loop-stuck fuel c block.pub_key
      (value_be 0 (drop (length block.signature - 8) block.signature)) (sub64 block.index 1) 1 []
      few (omega arith) tt,
)

-- Where it answers on a stored full block with no cached signers, the answer is seven distinct keys
-- of stored blocks, none of them the key of the block, and the cache then holds it.
pub get_block_signers-AreSigners :
    (fuel : ℕ) (block : Block) (c c' : Chain) (ks : List Bytes)
    → block.index ≤ get_height c
    → has_signers_for block.index c ≡ false
    → get_block_signers fuel block c ≡ done (ks, c')
    → AreSigners block.pub_key c.db.blocks ks
      × (length ks ≡ 7)
      × (c' ≡ record c { signers_index = block.index; signers = ks })
unfolding get_block_signers get_tail_u64
get_block_signers-AreSigners fuel block c c' ks h fresh e = ground (
  arith,
  signers_loop-AreSigners fuel c block.pub_key
      (value_be 0 (drop (length block.signature - 8) block.signature)) (sub64 block.index 1) 1 [] ks
      tt,
)
