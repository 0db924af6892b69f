-- ===== src/Dns/Buffer/Reads.antt =====
-- Readers and writers of a `VectorPacketBuffer`, put together.
use gis.Base.{
  ℕ, ◌+◌, List, ◌∷◌, ◌++◌, ◌≡◌, refl, ap, ◌∙◌, arith, length, append_assoc, get_elem?-append_mid,
}
use gis.Dns.Buffer.{ok, panic, stuck, end_of_buffer, M, pure, ◌>>=◌}
use gis.Dns.Buffer.Vector.{VectorPacketBuffer, vector_buffer, read}

-- `m` reads `a` from `start` to `stop` of every buffer that begins with `bytes`.
pub record Reads {A : Type 0} (m : M VectorPacketBuffer A) (bytes : List ℕ) (start stop : ℕ) (a : A)
    : Type 0 where
  pub run :
      (v : VectorPacketBuffer) (rest : List ℕ)
      → v.buffer ≡ bytes ++ rest
      → v.pos ≡ start
      → m v ≡ ok (a, record v { pos = stop })

pub Reads-append :
    {A : Type 0} {m : M VectorPacketBuffer A} (bytes more : List ℕ) {start stop : ℕ} {a : A}
    → Reads m bytes start stop a
    → Reads m (bytes ++ more) start stop a
Reads-append bytes more r = record {
  run = λ v rest e p. r.run v (more ++ rest) (e ∙ append_assoc bytes more rest) p;
}

pub bind-ok :
    {A C B : Type 0} (m : M B A) (f : A → M B C) {v w : B} {a : A}
    → m v ≡ ok (a, w)
    → (m >>= f) v ≡ f a w
bind-ok m f h =
    ap
      (λ r. elim r [
        | ok (a, b') ↦ f a b'
        | end_of_buffer ↦ end_of_buffer
        | panic ↦ panic
        | stuck ↦ stuck
      ])
      h

pub Reads-bind :
    {A C : Type 0} {m : M VectorPacketBuffer A} (f : A → M VectorPacketBuffer C) {bytes : List ℕ}
    {start mid stop : ℕ} {a : A} {c : C}
    → Reads m bytes start mid a
    → Reads (f a) bytes mid stop c
    → Reads (m >>= f) bytes start stop c
Reads-bind {m = m} f {mid = mid} r s = record {
  run = λ v rest e p. bind-ok m f (r.run v rest e p) ∙ s.run (record v { pos = mid }) rest e refl;
}

pub Reads-pure :
    {A : Type 0} {bytes : List ℕ} {start : ℕ} {a : A} → Reads (pure a) bytes start start a
Reads-pure {a = a} = record { run = λ v rest e p. ap (λ x. ok (a, record v { pos = x })) p }

pub read-Reads :
    (bytes : List ℕ) (b : ℕ) (more : List ℕ)
    → Reads read (bytes ++ (b ∷ more)) (length bytes) (length bytes + 1) b
unfolding read
read-Reads bytes b more = record {
  run = λ v rest e p.
      ground
        (arith, get_elem?-append_mid bytes b (more ++ rest), append_assoc bytes (b ∷ more) rest);
}
