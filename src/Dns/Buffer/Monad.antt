-- ===== src/Dns/Buffer/Monad.antt =====
-- The results of buffer operations, and the monad that passes a buffer on.

-- `stuck` is no Rust value: a loop ran out of the fuel that the model gave it.
pub data Result {ℓ} (A : Type ℓ) : Type ℓ where
  ok : A → Result A
  end_of_buffer panic stuck : Result A

abbrev pub M : Type 0 → Type 0 → Type 0
M B A = B → Result (A × B)

abbrev pub pure : {B A : Type 0} → A → M B A
pure a b = ok (a, b)

infixl 5 ◌>>=◌ ◌>>◌
abbrev pub ◌>>=◌ : {B A C : Type 0} → M B A → (A → M B C) → M B C
◌>>=◌ m f b = elim (m b) [
  | ok (a, b') ↦ f a b'
  | end_of_buffer ↦ end_of_buffer
  | panic ↦ panic
  | stuck ↦ stuck
]

abbrev pub ◌>>◌ : {B C : Type 0} → M B (Unit {0}) → M B C → M B C
m >> k = m >>= λ _. k
