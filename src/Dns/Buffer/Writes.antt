-- ===== src/Dns/Buffer/Writes.antt =====
-- Writers and the readers that take back what they wrote, put together.
use gis.Base.{
  ℕ, ◌+◌, ◌*◌, ◌/◌, ◌%◌, ◌≤◌, ◌≡◌, refl, sym, ap, ◌∙◌, subst, arith, List, [], ◌∷◌, ◌++◌, some,
  length, length-append, append_assoc, append-[],
}
use gis.Bytes.{Text}
use gis.Dns.Buffer.{
  Result, ok, end_of_buffer, panic, stuck, M, pure, ◌>>=◌, ◌>>◌, write_u8, write_u16, read_u16,
}
use gis.Dns.Buffer.Reads.{Reads, Reads-append, Reads-bind, Reads-pure, read-Reads, bind-ok}
use gis.Dns.Buffer.Vector.{VectorPacketBuffer, vector_buffer, lookup_label, read}
use gis.Dns.Buffer.Written.{IsNamed, IsNamed-append}
use gis.Dns.Buffer.Wrote.{write_u16_lem, write_u8_lem, wrote, wrote-wrote}

-- Every entry of the label table can be read where it points.
abbrev pub IsTable : VectorPacketBuffer → Type 0
IsTable v =
    (name : Text) (p : ℕ) → lookup_label name v.label_lookup ≡ some p → IsNamed v.buffer name p

-- `m` writes at most `max` bytes behind what is there, and `r` reads `a` from them.
pub record Writes {A : Type 0} (m : M VectorPacketBuffer (Unit {0})) (max : ℕ)
    (r : M VectorPacketBuffer A) (a : A) (v : VectorPacketBuffer) : Type 0 where
  pub after : VectorPacketBuffer
  pub bytes : List ℕ
  pub runs : m v ≡ ok (tt, after)
  pub at_end : after.pos ≡ length after.buffer
  pub grows : after.buffer ≡ v.buffer ++ bytes
  pub fits : length bytes ≤ max
  pub reads :
      length after.buffer ≤ 16384
      → IsTable v
      → IsTable after × Reads r after.buffer v.pos after.pos a

-- One write behind another.
pub Writes-then :
    {A C : Type 0} {m : M VectorPacketBuffer (Unit {0})} (k : M VectorPacketBuffer (Unit {0}))
    {max max' : ℕ} {r : M VectorPacketBuffer A} (f : A → M VectorPacketBuffer C) {a : A} {c : C}
    (v : VectorPacketBuffer)
    → (w : Writes m max r a v) → Writes k max' (f a) c w.after
    → Writes (m >> k) (max + max') (r >>= f) c v
Writes-then {m = m} k {r = r} f {a = a} v w x = record {
  after = x.after;
  bytes = w.bytes ++ x.bytes;
  runs = bind-ok m (λ _. k) w.runs ∙ x.runs;
  at_end = x.at_end;
  grows = x.grows ∙ ap (λ b. b ++ x.bytes) w.grows ∙ append_assoc v.buffer w.bytes x.bytes;
  fits = omega (arith, w.fits, x.fits, length-append w.bytes x.bytes);
  reads = λ le table.
      let (table', first) =
        w.reads (omega (arith, le, ap length x.grows, length-append w.after.buffer x.bytes))
          table in
      let (table'', second) = x.reads le table' in
      (
        table'',
        Reads-bind f
            (subst (λ b. Reads r b v.pos w.after.pos a) (sym x.grows)
              (Reads-append w.after.buffer x.bytes first))
            second,
      );
}

pub Writes-then-after :
    {A C : Type 0} {m : M VectorPacketBuffer (Unit {0})} (k : M VectorPacketBuffer (Unit {0}))
    {max max' : ℕ} {r : M VectorPacketBuffer A} (f : A → M VectorPacketBuffer C) {a : A} {c : C}
    (v : VectorPacketBuffer) (w : Writes m max r a v) (x : Writes k max' (f a) c w.after)
    → (Writes-then k f v w x).after ≡ x.after
unfolding Writes-then
Writes-then-after k f v w x = refl

pub Writes-step :
    {A C : Type 0} {m : M VectorPacketBuffer (Unit {0})} (k : M VectorPacketBuffer (Unit {0}))
    {max max' : ℕ} {r : M VectorPacketBuffer A} (f : A → M VectorPacketBuffer C) {a : A} {c : C}
    {v : VectorPacketBuffer}
    → Writes m max r a v
    → ((u : VectorPacketBuffer) → u.pos ≡ length u.buffer → Writes k max' (f a) c u)
    → Writes (m >> k) (max + max') (r >>= f) c v
Writes-step k f {v = v} w next = Writes-then k f v w (next w.after w.at_end)

-- Bytes that leave the label table alone.
pub plain :
    {A : Type 0} {m : M VectorPacketBuffer (Unit {0})} (bytes : List ℕ) {r : M VectorPacketBuffer A}
    {a : A} (v : VectorPacketBuffer)
    → v.pos ≡ length v.buffer
    → m v ≡ ok (tt, wrote v bytes)
    → Reads r (v.buffer ++ bytes) v.pos (v.pos + length bytes) a
    → Writes m (length bytes) r a v
plain bytes v e h rd = record {
  after = wrote v bytes;
  bytes = bytes;
  runs = h;
  at_end = omega (arith, e, length-append v.buffer bytes);
  grows = refl;
  fits = omega arith;
  reads =
      λ le table. (λ name p found. IsNamed-append v.buffer bytes name p (table name p found), rd);
}

-- Two bytes, the high one first.
read_u16-Reads :
    (bytes : List ℕ) (hi lo : ℕ)
    → Reads read_u16 (bytes ++ (hi ∷ (lo ∷ []))) (length bytes) (length bytes + 2) (hi * 256 + lo)
unfolding read_u16
read_u16-Reads bytes hi lo =
    Reads-bind (λ x. do y ← read; pure (x * 256 + y)) (read-Reads bytes hi (lo ∷ []))
      (Reads-bind (λ y. pure (hi * 256 + y)) low Reads-pure)
  where
    longer : length (bytes ++ (hi ∷ [])) ≡ length bytes + 1
    longer = length-append bytes (hi ∷ [])

    two : length (bytes ++ (hi ∷ [])) + 1 ≡ length bytes + 2
    two = omega (arith, longer)

    low : Reads read (bytes ++ (hi ∷ (lo ∷ []))) (length bytes + 1) (length bytes + 2) lo
    low =
        rw (← append_assoc bytes (hi ∷ []) (lo ∷ []), ← longer)
          (rw (← two) (read-Reads (bytes ++ (hi ∷ [])) lo []))

pub u16-Writes :
    (n : ℕ) (v : VectorPacketBuffer) → v.pos ≡ length v.buffer → Writes (write_u16 n) 2 read_u16 n v
u16-Writes n v e = plain (n / 256 ∷ (n % 256 ∷ [])) v e (write_u16_lem v n) (
    rw e (
      subst
        (λ m.
          Reads read_u16 (v.buffer ++ (n / 256 ∷ (n % 256 ∷ []))) (length v.buffer)
            (length v.buffer + 2) m)
        whole (read_u16-Reads v.buffer (n / 256) (n % 256))))
  where
    whole : n / 256 * 256 + n % 256 ≡ n
    whole = omega arith

-- The same write, spelled another way.
pub Writes-same :
    {A : Type 0} {m n : M VectorPacketBuffer (Unit {0})} {max : ℕ} {r : M VectorPacketBuffer A}
    {a : A} {v : VectorPacketBuffer}
    → n v ≡ m v
    → Writes m max r a v
    → Writes n max r a v
Writes-same same w = record {
  after = w.after;
  bytes = w.bytes;
  runs = same ∙ w.runs;
  at_end = w.at_end;
  grows = w.grows;
  fits = w.fits;
  reads = w.reads;
}

pub then_assoc :
    (m n k : M VectorPacketBuffer (Unit {0})) (v : VectorPacketBuffer)
    → ((m >> n) >> k) v ≡ (m >> (n >> k)) v
then_assoc m n k v = go (m v)
  where
    go :
        (r : Result (Unit {0} × VectorPacketBuffer))
        → ((λ b. ((λ b. r) >> n) v) >> k) v ≡ ((λ b. r) >> (n >> k)) v
    go (ok (a, u)) = refl
    go end_of_buffer = refl
    go panic = refl
    go stuck = refl

-- Two writes that are read back in one go, and what is written behind them.
pub Writes-pair :
    {A C : Type 0} (m n : M VectorPacketBuffer (Unit {0})) (k : M VectorPacketBuffer (Unit {0}))
    {max max' : ℕ} {r : M VectorPacketBuffer A} (f : A → M VectorPacketBuffer C) {a : A} {c : C}
    (v : VectorPacketBuffer)
    → Writes (m >> n) max r a v
    → ((u : VectorPacketBuffer) → u.pos ≡ length u.buffer → Writes k max' (f a) c u)
    → Writes (m >> (n >> k)) (max + max') (r >>= f) c v
Writes-pair m n k f v w rest = Writes-same (sym (then_assoc m n k v)) (Writes-step k f w rest)

-- Two bytes written one by one, and read as one number.
pub bytes-Writes :
    (hi lo : ℕ) (v : VectorPacketBuffer)
    → v.pos ≡ length v.buffer
    → Writes (write_u8 hi >> write_u8 lo) 2 read_u16 (hi * 256 + lo) v
bytes-Writes hi lo v e =
    plain (hi ∷ (lo ∷ [])) v e
      (bind-ok (write_u8 hi) (λ _. write_u8 lo) (write_u8_lem v hi)
        ∙ write_u8_lem (wrote v (hi ∷ [])) lo
        ∙ ap (λ u. ok (tt, u)) (wrote-wrote v (hi ∷ []) (lo ∷ [])))
      (rw e (read_u16-Reads v.buffer hi lo))

-- What the reader makes of what was read.
pub Writes-map :
    {A C : Type 0} {m : M VectorPacketBuffer (Unit {0})} {max : ℕ} {r : M VectorPacketBuffer A}
    (g : A → C) {a : A} {v : VectorPacketBuffer}
    → Writes m max r a v
    → Writes m max (r >>= λ x. pure (g x)) (g a) v
Writes-map g w = record {
  after = w.after;
  bytes = w.bytes;
  runs = w.runs;
  at_end = w.at_end;
  grows = w.grows;
  fits = w.fits;
  reads = λ le table.
      let (table', rd) = w.reads le table in (table', Reads-bind (λ x. pure (g x)) rd Reads-pure);
}

pub Writes-nothing :
    {C : Type 0} {c : C} (v : VectorPacketBuffer)
    → v.pos ≡ length v.buffer
    → Writes (pure tt) 0 (pure c) c v
Writes-nothing v e = record {
  after = v;
  bytes = [];
  runs = refl;
  at_end = e;
  grows = sym (append-[] v.buffer);
  fits = omega arith;
  reads = λ le table. (table, Reads-pure);
}
