-- ===== src/Dns/Buffer/Sized.antt =====
-- A body behind a length that is filled in when the body is written.
use gis.Base.{
  ℕ, ◌+◌, ◌-◌, ◌/◌, ◌%◌, ◌^◌, ◌≡◌, refl, sym, ap, ◌∙◌, subst, arith, bit_or, List, [], ◌∷◌, ◌++◌,
  Option, some, none, length, set, length-append, append_assoc, append-[],
}
use gis.Bytes.{Text}
use gis.Dns.Buffer.{
  Result, ok, end_of_buffer, panic, stuck, M, pure, ◌>>=◌, ◌>>◌, join_dots, split_dots, write_u8,
  write_u16, write_u32, set_u16, write_bytes, write_label, write_labels, write_qname, read_u16,
}
use gis.Dns.Buffer.Vector.{VectorPacketBuffer, vector_buffer, lookup_label, save_label, write}
use gis.Dns.Buffer.Vector
use gis.Dns.Buffer.Reads.{bind-ok}
use gis.Dns.Buffer.Wrote.{wrote, write_u16_lem}
use gis.Dns.Buffer.Writes.{Writes, Writes-step, Writes-same, u16-Writes}
use gis.Dns.Protocol.Record.{write_sized}

bind-inv :
    {A C : Type 0} (m : M VectorPacketBuffer A) (f : A → M VectorPacketBuffer C)
    (v w : VectorPacketBuffer) (c : C)
    → (m >>= f) v ≡ ok (c, w)
    → (a : A) × (u : VectorPacketBuffer) × (m v ≡ ok (a, u)) × (f a u ≡ ok (c, w))
bind-inv {A = A} m f v w c h = go (m v) refl h
  where
    go :
        (r : Result (A × VectorPacketBuffer))
        → m v ≡ r
        → elim r [
          | ok (a, u) ↦ f a u
          | end_of_buffer ↦ end_of_buffer
          | panic ↦ panic
          | stuck ↦ stuck
        ]
          ≡ ok (c, w)
        → (a : A) × (u : VectorPacketBuffer) × (m v ≡ ok (a, u)) × (f a u ≡ ok (c, w))
    go (ok (a, u)) e h = (a, u, e, h)
    go end_of_buffer e h = absurd (ground (arith, h))
    go panic e h = absurd (ground (arith, h))
    go stuck e h = absurd (ground (arith, h))

-- What a writer appends does not depend on the bytes that are there.
abbrev pub IsSteady : M VectorPacketBuffer (Unit {0}) → Type 0
IsSteady m =
    (v w : VectorPacketBuffer) (b : List ℕ)
    → m v ≡ ok (tt, w)
    → (bytes : List ℕ) × (w.buffer ≡ v.buffer ++ bytes)
      × (m (record v { buffer = b }) ≡ ok (tt, record w { buffer = b ++ bytes }))

pub then-IsSteady :
    (m k : M VectorPacketBuffer (Unit {0})) → IsSteady m → IsSteady k → IsSteady (m >> k)
then-IsSteady m k sm sk v w b h =
    let (x, u, e, e') = bind-inv m (λ x. k) v w tt h in
    let (bytes, grows, runs) = sm v u b e in
    let (more, grows', runs') = sk u w (b ++ bytes) e' in
    (
      bytes ++ more,
      grows' ∙ ap (λ l. l ++ more) grows ∙ append_assoc v.buffer bytes more,
      bind-ok m (λ x. k) runs
          ∙ runs'
          ∙ ap (λ l. ok (tt, record w { buffer = l })) (append_assoc b bytes more),
    )

pub u8-IsSteady : (x : ℕ) → IsSteady (write_u8 x)
unfolding write_u8 write
u8-IsSteady x v w b h = (x ∷ [], ground (arith, h), ground (arith, h))

pub u16-IsSteady : (x : ℕ) → IsSteady (write_u16 x)
unfolding write_u16 write
u16-IsSteady x v w b h = (
  x / 256 ∷ (x % 256 ∷ []),
  ground (arith, h, append_assoc v.buffer (x / 256 ∷ []) (x % 256 ∷ [])),
  ground (arith, h, append_assoc b (x / 256 ∷ []) (x % 256 ∷ [])),
)

pub u32-IsSteady : (x : ℕ) → IsSteady (write_u32 x)
unfolding write_u32 write
u32-IsSteady x v w b h =
    (b3 ∷ (b2 ∷ (b1 ∷ (b0 ∷ []))), ground (arith, h, four v.buffer), ground (arith, h, four b))
  where
    b3 : ℕ
    b3 = x / 2 ^ 24 % 256

    b2 : ℕ
    b2 = x / 2 ^ 16 % 256

    b1 : ℕ
    b1 = x / 2 ^ 8 % 256

    b0 : ℕ
    b0 = x % 256

    four :
        (l : List ℕ)
        → (((l ++ (b3 ∷ [])) ++ (b2 ∷ [])) ++ (b1 ∷ [])) ++ (b0 ∷ [])
          ≡ l ++ (b3 ∷ (b2 ∷ (b1 ∷ (b0 ∷ []))))
    four l = ground (
      arith,
      append_assoc l (b3 ∷ []) (b2 ∷ []),
      append_assoc l (b3 ∷ (b2 ∷ [])) (b1 ∷ []),
      append_assoc l (b3 ∷ (b2 ∷ (b1 ∷ []))) (b0 ∷ []),
    )

nothing-IsSteady : IsSteady (pure tt)
nothing-IsSteady v w b h =
    ([], ground (arith, h, append-[] v.buffer), ground (arith, h, append-[] b))

save-IsSteady : (label : Text) (n : ℕ) → IsSteady (save_label label n)
unfolding save_label
save-IsSteady label n v w b h =
    ([], ground (arith, h, append-[] v.buffer), ground (arith, h, append-[] b))

bytes-IsSteady : (bytes : List ℕ) → IsSteady (write_bytes bytes)
unfolding write_bytes
bytes-IsSteady [] = nothing-IsSteady
bytes-IsSteady (x ∷ xs) =
    then-IsSteady (write_u8 x) (write_bytes xs) (u8-IsSteady x) (bytes-IsSteady xs)

label-IsSteady :
    (label lbl : Text) (rest : M VectorPacketBuffer (Unit {0})) (found : Option ℕ)
    → IsSteady rest
    → IsSteady (write_label label lbl rest found)
unfolding write_label
label-IsSteady label lbl rest (some q) s v w b h = u16-IsSteady (bit_or (q % 2 ^ 16) 0xC000) v w b h
label-IsSteady label lbl rest none s v w b h =
    then-IsSteady (save_label lbl v.pos) (do write_u8 (length label % 256); write_bytes label; rest)
      (save-IsSteady lbl v.pos)
      (then-IsSteady (write_u8 (length label % 256)) (do write_bytes label; rest)
        (u8-IsSteady (length label % 256))
        (then-IsSteady (write_bytes label) rest (bytes-IsSteady label) s))
      v w b h

labels-IsSteady : (labels : List Text) → IsSteady (write_labels labels)
unfolding write_labels
labels-IsSteady [] v w b h = u8-IsSteady 0 v w b h
labels-IsSteady (l ∷ ls) v w b h =
    label-IsSteady l (join_dots (l ∷ ls)) (write_labels ls)
      (lookup_label (join_dots (l ∷ ls)) v.label_lookup) (labels-IsSteady ls) v w b h

pub qname-IsSteady : (name : Text) → IsSteady (write_qname name)
unfolding write_qname
qname-IsSteady name = labels-IsSteady (split_dots name)

set-append :
    (pre : List ℕ) (x z : ℕ) (ys : List ℕ) → set (pre ++ (x ∷ ys)) (length pre) z ≡ pre ++ (z ∷ ys)
set-append [] x z ys = refl
set-append (p ∷ ps) x z ys = ap (λ l. p ∷ l) (set-append ps x z ys)

set_lem :
    (v : VectorPacketBuffer) (pre : List ℕ) (x z : ℕ) (ys : List ℕ) (n : ℕ)
    → v.buffer ≡ pre ++ (x ∷ ys)
    → n ≡ length pre
    → Vector.set n z v ≡ ok (tt, record v { buffer = pre ++ (z ∷ ys) })
unfolding Vector.set
set_lem v pre x z ys n e at =
    ground (arith, e, at, set-append pre x z ys, length-append pre (x ∷ ys))

set_u16_lem :
    (v : VectorPacketBuffer) (pre : List ℕ) (x y n : ℕ) (ys : List ℕ)
    → v.buffer ≡ pre ++ (x ∷ (y ∷ ys))
    → set_u16 (length pre) n v ≡ ok (tt, record v { buffer = pre ++ (n / 256 ∷ (n % 256 ∷ ys)) })
unfolding set_u16
set_u16_lem v pre x y n ys e =
    bind-ok (Vector.set (length pre) (n / 256)) _
      (set_lem v pre x (n / 256) (y ∷ ys) (length pre) e refl)
    ∙ bind-ok (Vector.set (length pre + 1) (n % 256)) _ (
        set_lem (record v { buffer = pre ++ (n / 256 ∷ (y ∷ ys)) }) (pre ++ (n / 256 ∷ [])) y
          (n % 256) ys (length pre + 1) (sym (append_assoc pre (n / 256 ∷ []) (y ∷ ys)))
          (sym (length-append pre (n / 256 ∷ []))))
    ∙ ap (λ l. ok (tt, record v { buffer = l })) (append_assoc pre (n / 256 ∷ []) (n % 256 ∷ ys))

module _ {A : Type 0} (body : M VectorPacketBuffer (Unit {0})) (steady : IsSteady body) {max : ℕ}
    (r : M VectorPacketBuffer A) {a : A}
    (good : (u : VectorPacketBuffer) → u.pos ≡ length u.buffer → Writes body max r a u)
    (v : VectorPacketBuffer) (e : v.pos ≡ length v.buffer) where
  abbrev v0 : VectorPacketBuffer
  v0 = wrote v (0 ∷ (0 ∷ []))

  w0 : Writes body max r a v0
  w0 = good v0 (omega (arith, e, length-append v.buffer (0 ∷ (0 ∷ []))))

  abbrev size : ℕ
  size = (w0.after.pos - (v.pos + 2)) % 2 ^ 16

  abbrev length_bytes : List ℕ
  length_bytes = size / 256 ∷ (size % 256 ∷ [])

  -- To fill the length in behind the body is to write it before.
  two_ways : write_sized body v ≡ (write_u16 size >> body) v
  two_ways =
      let (bytes, grows, runs) = steady v0 w0.after (v.buffer ++ length_bytes) w0.runs in
      let filled =
        set_u16_lem w0.after v.buffer 0 0 size bytes
          (grows ∙ append_assoc v.buffer (0 ∷ (0 ∷ [])) bytes) in
      bind-ok (write_u16 0) _ (write_u16_lem v 0)
      ∙ bind-ok body _ w0.runs
      ∙ subst
          (λ p.
            set_u16 p size w0.after
            ≡ ok (tt, record w0.after { buffer = v.buffer ++ (size / 256 ∷ (size % 256 ∷ bytes)) }))
          (sym e) filled
      ∙ ap (λ l. ok (tt, record w0.after { buffer = l }))
          (sym (append_assoc v.buffer length_bytes bytes))
      ∙ sym (bind-ok (write_u16 size) (λ x. body) (write_u16_lem v size) ∙ runs)

  before : Writes (write_u16 size >> body) (2 + max) (read_u16 >>= λ len. r) a v
  before = Writes-step body (λ len. r) (u16-Writes size v e) good

  pub sized-Writes : Writes (write_sized body) (2 + max) (read_u16 >>= λ len. r) a v
  sized-Writes = Writes-same two_ways before
