-- ===== src/Bytes/Difficulty.antt =====
-- Difficulty as an upper bound of the number that the first eight bytes spell.
use gis.Base.{
  ℕ, zero, suc, ◌+◌, ◌-◌, ◌*◌, ◌^◌, ◌≤◌, ◌<◌, [], ◌∷◌, ◌≡◌, ◌↔◌, refl, arith, ◌/◌, length, take,
  drop, done, All, leb, Bool-cases, inl, inr, leb→le,
}
use gis.Bytes.{Bytes, value_be, leading_zeros, trailing_zeros, hash_difficulty, key_hash_difficulty}
use native.Mathlib.Nat.{
  two-pow-succ, le_refl, add-zero, add-suc, pow-suc, pow-zero, sub-zero, suc-sub-suc,
}

pow_mono : (a b : ℕ) → 2 ^ a ≤ 2 ^ (a + b)
pow_mono a zero = rw add-zero (le_refl (2 ^ a))
pow_mono a (suc b) = rw add-suc (omega (arith, pow_mono a b, two-pow-succ (a + b)))

pow_sub : (k d : ℕ) → d ≤ k → 2 ^ (k - d) ≤ 2 ^ k
pow_sub k d h = let e : k - d + d ≡ k = omega arith in rw e at (pow_mono (k - d) d)

-- A word has `d` leading zeros at least exactly when it is below 2 ^ (k - d).
pub leading_zeros_iff :
    (k x d : ℕ) → x < 2 ^ k → d ≤ k → (d ≤ leading_zeros k x) ↔ (x < 2 ^ (k - d))
unfolding leading_zeros
leading_zeros_iff k x zero h hd = (λ _. rw sub-zero h, λ _. omega arith)
leading_zeros_iff zero x (suc d) h hd = absurd (omega arith)
leading_zeros_iff (suc k) x (suc d) h hd = elim (Bool-cases (leb (2 ^ k) x)) [
  | inl big ↦
      rw (big, suc-sub-suc)
        (
          (λ c. absurd (omega arith)),
          (λ c. absurd (omega (arith, leb→le _ _ big, pow_sub k d (omega arith)))),
        )
  | inr small ↦
      let ih = leading_zeros_iff k x d (ground arith) (omega arith) in
      rw (small, suc-sub-suc) ((λ c. ih.0 (omega arith)), (λ c. omega (arith, ih.1 c)))
]

leading_zeros-le : (k x : ℕ) → leading_zeros k x ≤ k
unfolding leading_zeros
leading_zeros-le zero x = omega arith
leading_zeros-le (suc k) x = ground (arith, leading_zeros-le k x)

trailing_zeros-le : (k x : ℕ) → trailing_zeros k x ≤ k
unfolding trailing_zeros
trailing_zeros-le zero x = omega arith
trailing_zeros-le (suc k) x = ground (arith, trailing_zeros-le k (x / 2))

-- No hash has more work than its 128 bits.
pub hash_difficulty-le : (hash : Bytes) (n : ℕ) → hash_difficulty hash ≡ done n → n ≤ 128
unfolding hash_difficulty
hash_difficulty-le hash n h = ground (
  arith,
  leading_zeros-le 64 (value_be 0 (take 8 hash)),
  trailing_zeros-le 64 (value_be 0 (drop (length hash - 8) hash)),
)

abbrev IsByte : ℕ → Type 0
IsByte b = b < 256

value_be-lt : (acc : ℕ) (xs : Bytes) → All IsByte xs → value_be acc xs < (acc + 1) * 256 ^ length xs
unfolding value_be
value_be-lt acc [] u = rw pow-zero (omega arith)
value_be-lt acc (x ∷ xs) u =
    let p = 256 ^ length xs in
    let carry : x * p ≤ 255 * p = grind arith in
    rw pow-suc (omega (arith, carry, value_be-lt (acc * 256 + x) xs u.1))

length-take : (n : ℕ) (xs : Bytes) → n ≤ length xs → length (take n xs) ≡ n
length-take zero xs h = refl
length-take (suc n) [] h = absurd (omega arith)
length-take (suc n) (x ∷ xs) h = omega (arith, length-take n xs)

All-take : (n : ℕ) (xs : Bytes) → All IsByte xs → All IsByte (take n xs)
All-take zero xs u = tt
All-take (suc n) [] u = tt
All-take (suc n) (x ∷ xs) u = (u.0, All-take n xs u.1)

-- On a hash of eight bytes or more the key difficulty is defined, and it is `d` at least exactly
-- when the first eight bytes, as a big-endian number, lie below 2 ^ (64 - d).
pub key_hash_difficulty_iff :
    (hash : Bytes) (d : ℕ)
    → All IsByte hash
    → 8 ≤ length hash
    → d ≤ 64
    → (n : ℕ) × (key_hash_difficulty hash ≡ done n)
      × ((d ≤ n) ↔ (value_be 0 (take 8 hash) < 2 ^ (64 - d)))
unfolding key_hash_difficulty
key_hash_difficulty_iff hash d bytes long small =
    let first = value_be 0 (take 8 hash) in
    let eight : length (take 8 hash) ≡ 8 = length-take 8 hash long in
    let bound = rw eight at (value_be-lt 0 (take 8 hash) (All-take 8 hash bytes)) in
    (leading_zeros 64 first, ground arith, leading_zeros_iff 64 first d (omega arith) small)
