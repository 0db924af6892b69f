-- ===== src/Bytes/Equality.antt =====
-- `same_hash` is equality, and `cmp` is not.
use Prim.Native.Nat.{Ordering}
use gis.Base.{◌+◌, true, false, [], ◌∷◌, ◌++◌, ◌≡◌, ◌↔◌, refl, arith, length}
use gis.Bytes.{Bytes, same_loop, same_hash, value_le, cmp}

same_loop-false : (xs ys : Bytes) → same_loop false xs ys ≡ false
unfolding same_loop
same_loop-false [] ys = refl
same_loop-false (x ∷ xs) [] = refl
same_loop-false (x ∷ xs) (y ∷ ys) = ground (arith, same_loop-false xs ys)

same_loop_sound : (xs ys : Bytes) → length xs ≡ length ys → same_loop true xs ys ≡ true → xs ≡ ys
unfolding same_loop
same_loop_sound [] [] e h = refl
same_loop_sound [] (y ∷ ys) e h = absurd (omega arith)
same_loop_sound (x ∷ xs) [] e h = absurd (omega arith)
same_loop_sound (x ∷ xs) (y ∷ ys) e h = ground (arith, same_loop-false xs ys, same_loop_sound xs ys)

same_loop_refl : (xs : Bytes) → same_loop true xs xs ≡ true
unfolding same_loop
same_loop_refl [] = refl
same_loop_refl (x ∷ xs) = ground (arith, same_loop_refl xs)

pub same_hash_refl : (xs : Bytes) → same_hash xs xs ≡ true
unfolding same_hash
same_hash_refl xs = ground (arith, same_loop_refl xs)

pub same_hash_sound : (xs ys : Bytes) → same_hash xs ys ≡ true → xs ≡ ys
unfolding same_hash
same_hash_sound xs ys h = ground (arith, same_loop_sound xs ys)

-- `same_hash`, which never stops early, answers true exactly on equal byte strings.
pub same_hash_iff : (xs ys : Bytes) → (same_hash xs ys ≡ true) ↔ (xs ≡ ys)
same_hash_iff xs ys = (same_hash_sound xs ys, λ e. subst_refl e)
  where
    subst_refl : xs ≡ ys → same_hash xs ys ≡ true
    subst_refl e = rw (← e) (same_hash_refl xs)

value_le-append_zero : (xs : Bytes) → value_le (xs ++ (0 ∷ [])) ≡ value_le xs
unfolding value_le
value_le-append_zero [] = refl
value_le-append_zero (x ∷ xs) = omega (arith, value_le-append_zero xs)

-- `cmp` calls a byte string and the same string with a zero byte behind it equal, and `==` tells
-- them apart: the two orders of `Bytes` do not agree.
pub cmp-append_zero :
    (xs : Bytes) → (cmp xs (xs ++ (0 ∷ [])) ≡ Ordering.eq) × (same_hash xs (xs ++ (0 ∷ [])) ≡ false)
unfolding cmp same_hash
cmp-append_zero xs = (rw (value_le-append_zero xs) (ground arith), ground (arith, longer xs))
  where
    longer : (ys : Bytes) → length (ys ++ (0 ∷ [])) ≡ length ys + 1
    longer [] = refl
    longer (y ∷ ys) = omega (arith, longer ys)
