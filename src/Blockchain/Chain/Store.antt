-- ===== src/Blockchain/Chain/Store.antt =====
-- Laws of the block table: reading after an insertion and after a truncation.
use gis.Base.{
  ℕ, ◌-◌, ◌^◌, ◌≤◌, ◌<◌, Bool, false, List, [], ◌∷◌, ◌++◌, none, some, ◌==◌, if◌then◌else◌, ◌≡◌,
  refl, arith, lt_i64,
}
use gis.Blockchain.Types.{Block}
use gis.Blockchain.Env.{Row}
use gis.Blockchain.Chain.State.{find_block, truncate_blocks, has_id, keep_rows}

pub index-find_block :
    (i : ℕ) (bs : List Block) (b : Block) → find_block i bs ≡ some b → b.index ≡ i
unfolding find_block
index-find_block i [] b h = cc
index-find_block i (x ∷ bs) b h = ground (arith, index-find_block i bs b)

pub find_block-append :
    (i : ℕ) (bs : List Block) (b : Block)
    → find_block i bs ≡ none
    → find_block i (bs ++ (b ∷ [])) ≡ (if b.index == i then some b else none)
unfolding find_block
find_block-append i [] b h = refl
find_block-append i (x ∷ bs) b h = ground (arith, find_block-append i bs b)

pub find_block-append_old :
    (i : ℕ) (bs : List Block) (b x : Block)
    → find_block i bs ≡ some x
    → find_block i (bs ++ (b ∷ [])) ≡ some x
unfolding find_block
find_block-append_old i [] b x h = cc
find_block-append_old i (y ∷ bs) b x h = ground (arith, find_block-append_old i bs b x)

-- A truncation keeps the blocks below the index, and no other.
pub find_block-truncate :
    (i index : ℕ) (bs : List Block)
    → find_block i (truncate_blocks index bs) ≡ (if lt_i64 i index then find_block i bs else none)
unfolding find_block truncate_blocks
find_block-truncate i index [] = ground arith
find_block-truncate i index (b ∷ bs) = ground (arith, find_block-truncate i index bs)

abbrev pub IdsUpTo : ℕ → List Row → Type 0
IdsUpTo n [] = Unit
IdsUpTo n (r ∷ rs) = (r.id ≤ n) × IdsUpTo n rs

pub IdsUpTo-mono : (m n : ℕ) (rs : List Row) → m ≤ n → IdsUpTo m rs → IdsUpTo n rs
IdsUpTo-mono m n [] h u = tt
IdsUpTo-mono m n (r ∷ rs) h u = (omega arith, IdsUpTo-mono m n rs h u.1)

pub IdsUpTo-append :
    (n : ℕ) (rs : List Row) (r : Row) → IdsUpTo n rs → r.id ≤ n → IdsUpTo n (rs ++ (r ∷ []))
IdsUpTo-append n [] r u h = (h, tt)
IdsUpTo-append n (x ∷ rs) r u h = (u.0, IdsUpTo-append n rs r u.1 h)

pub has_id_above : (n id : ℕ) (rs : List Row) → IdsUpTo n rs → n < id → has_id id rs ≡ false
unfolding has_id
has_id_above n id [] u h = refl
has_id_above n id (r ∷ rs) u h = ground (arith, has_id_above n id rs u.1)

pub IdsUpTo-keep_rows :
    (n : ℕ) (p : Row → Bool) (rs : List Row) → IdsUpTo n rs → IdsUpTo n (keep_rows p rs)
unfolding keep_rows
IdsUpTo-keep_rows n p [] u = tt
IdsUpTo-keep_rows n p (r ∷ rs) u = ground (arith, IdsUpTo-keep_rows n p rs u.1)

-- The rows that a truncation keeps lie below its index.
pub IdsUpTo-truncate :
    (n index : ℕ) (rs : List Row)
    → IdsUpTo n rs
    → n < 2 ^ 63
    → index < 2 ^ 63
    → 1 ≤ index
    → IdsUpTo (index - 1) (keep_rows (λ r. lt_i64 r.id index) rs)
unfolding keep_rows
IdsUpTo-truncate n index [] u hn hi h1 = tt
IdsUpTo-truncate n index (r ∷ rs) u hn hi h1 = ground (arith, IdsUpTo-truncate n index rs u.1)
