-- ===== src/Base/Bits.antt =====
-- Facts of bit operations over small ranges, checked at every value.
use Prim.Native.Nat.{ℕ, zero, suc, ◌<◌}
use mathlib.Core.Path.{◌≡◌}
use mathlib.Core.Bool.{Bool, true, ◌&&◌}
use native.Mathlib.Omega.{arith}

module _ (test : ℕ → Bool) where
  -- The test at every number below the bound, from 0 on.
  unfoldable pub always : ℕ → Bool
  always zero = true
  always (suc bound) = always bound && test bound

  pub always-at : {bound i : ℕ} → i < bound → always bound ≡ true → test i ≡ true
  unfolding always
  always-at {bound = suc bound} {i = i} below held =
      ground (arith, always-at {bound = bound} {i = i})
  always-at {bound = zero} below held = absurd (omega arith)
