-- ===== src/Bytes.antt =====
-- src/bytes.rs and the byte-string functions of src/blockchain/hash_utils.rs. A `Bytes` value, a
-- slice and a `String` (its UTF-8 bytes) are lists of numbers below 256.
pub mod Equality
pub mod Difficulty
use Prim.Native.Nat.{compare, Ordering}
use Prim.Native.Char.{code}
use Prim.Native.String
use Prim.Native.String.{String}
use gis.Base.{
  ℕ, zero, suc, ◌+◌, ◌-◌, ◌*◌, ◌/◌, ◌%◌, ◌^◌, Bool, true, false, List, [], ◌∷◌, ltb, leb, ◌==◌,
  if◌then◌else◌, length, take, drop, Outcome, done, panic,
}

abbrev pub Bytes : Type 0
Bytes = List ℕ

abbrev pub Text : Type 0
Text = List ℕ

-- The bytes of an ASCII literal.
abbrev pub codes : String → Text
codes String.[] = []
codes (String.◌∷◌ c s) = code c ∷ codes s

abbrev pub is_empty {ℓ} : {A : Type ℓ} → List A → Bool
is_empty [] = true
is_empty (x ∷ xs) = false

-- The loop of `same_hash` goes through the whole zip and keeps one flag.
same_loop : Bool → Bytes → Bytes → Bool
same_loop result [] ys = result
same_loop result (x ∷ xs) [] = result
same_loop result (x ∷ xs) (y ∷ ys) = same_loop (if x == y then result else false) xs ys

-- `==` on `Bytes`, and here on texts too.
unfoldable pub same_hash : Bytes → Bytes → Bool
unfolding same_loop
same_hash left right = if length left == length right then same_loop true left right else false

unfoldable pub is_zero : Bytes → Bool
is_zero [] = true
is_zero (x ∷ xs) = if x == 0 then is_zero xs else false

-- `BigUint::from_bytes_le`.
unfoldable pub value_le : Bytes → ℕ
value_le [] = 0
value_le (x ∷ xs) = x + 256 * value_le xs

-- `Ord::cmp` of `Bytes`.
unfoldable pub cmp : Bytes → Bytes → Ordering
cmp left right = compare (value_le left) (value_le right)

-- `u64::from_be_bytes`, from an accumulator.
unfoldable pub value_be : ℕ → Bytes → ℕ
value_be acc [] = acc
value_be acc (x ∷ xs) = value_be (acc * 256 + x) xs

-- The slices `[..8]` and `[len - 8..]` panic where there are fewer than 8 bytes.
unfoldable pub get_tail_u64 : Bytes → Outcome ℕ
get_tail_u64 data' =
    if ltb (length data') 8 then panic else done (value_be 0 (drop (length data' - 8) data'))

-- `u64::leading_zeros` and `trailing_zeros`, for a word of `k` bits.
unfoldable pub leading_zeros : ℕ → ℕ → ℕ
leading_zeros zero x = 0
leading_zeros (suc k) x = if leb (2 ^ k) x then 0 else suc (leading_zeros k x)

unfoldable pub trailing_zeros : ℕ → ℕ → ℕ
trailing_zeros zero x = 0
trailing_zeros (suc k) x = if x % 2 == 0 then suc (trailing_zeros k (x / 2)) else 0

unfoldable pub hash_difficulty : Bytes → Outcome ℕ
unfolding value_be leading_zeros trailing_zeros
hash_difficulty hash =
    if ltb (length hash) 8
    then panic
    else done (
        leading_zeros 64 (value_be 0 (take 8 hash))
        + trailing_zeros 64 (value_be 0 (drop (length hash - 8) hash)))

unfoldable pub key_hash_difficulty : Bytes → Outcome ℕ
unfolding value_be leading_zeros
key_hash_difficulty hash =
    if ltb (length hash) 8 then panic else done (leading_zeros 64 (value_be 0 (take 8 hash)))
