-- ===== src/Dns/Protocol/Records.antt =====
-- Records, there and back.
use gis.Base.{
  ℕ, ◌+◌, ◌*◌, ◌/◌, ◌%◌, ◌^◌, ◌<◌, ◌≤◌, List, [], ◌∷◌, ◌++◌, ◌≡◌, refl, sym, ap, subst, ◌∙◌, arith,
  length, All, length-append, append_assoc,
}
use gis.Bytes.{Text}
use gis.Dns.Buffer.{
  Result, ok, end_of_buffer, panic, stuck, M, pure, ◌>>=◌, ◌>>◌, split_dots, to_lowercase,
  write_u16, write_u32, write_qname, read_u16, read_u32, read_qname,
}
use gis.Dns.Buffer.Vector.{VectorPacketBuffer, vector_buffer, read, write}
use gis.Dns.Buffer.Reads.{Reads, Reads-bind, Reads-pure, read-Reads}
use gis.Dns.Buffer.Wrote.{wrote, wrote-wrote}
use gis.Dns.Buffer.Labels.{IsShort}
use gis.Dns.Buffer.RoundTrip.{qname-Writes}
use gis.Dns.Buffer.Writes.{Writes, Writes-step, Writes-same, then_assoc, u16-Writes, plain}
use gis.Dns.Protocol.Types.{DnsRecord, QueryType, to_num, from_num}
use gis.Dns.Protocol.Record.{read_data, write_front, write_sized, write_data, to_ipv4}
use gis.Dns.Protocol.Record

read_at :
    (pre xs : List ℕ) (b : ℕ) (ys : List ℕ) (p q : ℕ)
    → p ≡ length pre + length xs
    → q ≡ p + 1
    → Reads read (pre ++ (xs ++ (b ∷ ys))) p q b
read_at pre xs b ys p q at next =
    rw (next, at)
      (rw (← append_assoc pre xs (b ∷ ys), ← length-append pre xs) (read-Reads (pre ++ xs) b ys))

-- Four bytes, the highest first.
pub read_u32-Reads :
    (pre : List ℕ) (b3 b2 b1 b0 : ℕ)
    → Reads read_u32
        (pre ++ (b3 ∷ (b2 ∷ (b1 ∷ (b0 ∷ [])))))
        (length pre)
        (length pre + 4)
        (b3 * 2 ^ 24 + b2 * 2 ^ 16 + b1 * 2 ^ 8 + b0)
unfolding read_u32
read_u32-Reads pre b3 b2 b1 b0 =
    Reads-bind
      (λ b3. do b2 ← read; b1 ← read; b0 ← read; pure (b3 * 2 ^ 24 + b2 * 2 ^ 16 + b1 * 2 ^ 8 + b0))
      (read_at pre [] b3 (b2 ∷ (b1 ∷ (b0 ∷ []))) (length pre) (length pre + 1) (omega arith) refl)
      (Reads-bind
        (λ b2. do b1 ← read; b0 ← read; pure (b3 * 2 ^ 24 + b2 * 2 ^ 16 + b1 * 2 ^ 8 + b0))
        (read_at pre (b3 ∷ []) b2 (b1 ∷ (b0 ∷ [])) (length pre + 1) (length pre + 2) refl
          (omega arith))
        (Reads-bind (λ b1. do b0 ← read; pure (b3 * 2 ^ 24 + b2 * 2 ^ 16 + b1 * 2 ^ 8 + b0))
          (read_at pre (b3 ∷ (b2 ∷ [])) b1 (b0 ∷ []) (length pre + 2) (length pre + 3) refl
            (omega arith))
          (Reads-bind (λ b0. pure (b3 * 2 ^ 24 + b2 * 2 ^ 16 + b1 * 2 ^ 8 + b0))
            (read_at pre (b3 ∷ (b2 ∷ (b1 ∷ []))) b0 [] (length pre + 3) (length pre + 4) refl
              (omega arith))
            Reads-pure)))

abbrev four : ℕ → List ℕ
four n = n / 2 ^ 24 % 256 ∷ (n / 2 ^ 16 % 256 ∷ (n / 2 ^ 8 % 256 ∷ (n % 256 ∷ [])))

write_u32_lem : (n : ℕ) (v : VectorPacketBuffer) → write_u32 n v ≡ ok (tt, wrote v (four n))
unfolding write_u32 write
write_u32_lem n v =
    ap (λ u. ok (tt, u))
      (ap (λ u. wrote (wrote u b1) b0) (wrote-wrote v b3 b2)
        ∙ ap (λ u. wrote u b0) (wrote-wrote v (b3 ++ b2) b1)
        ∙ wrote-wrote v (b3 ++ b2 ++ b1) b0)
  where
    b3 : List ℕ
    b3 = n / 2 ^ 24 % 256 ∷ []

    b2 : List ℕ
    b2 = n / 2 ^ 16 % 256 ∷ []

    b1 : List ℕ
    b1 = n / 2 ^ 8 % 256 ∷ []

    b0 : List ℕ
    b0 = n % 256 ∷ []

pub u32-Writes :
    (n : ℕ) (v : VectorPacketBuffer)
    → n < 2 ^ 32
    → v.pos ≡ length v.buffer
    → Writes (write_u32 n) 4 read_u32 n v
u32-Writes n v small e = plain (four n) v e (write_u32_lem n v) (
    rw e (
      subst (λ m. Reads read_u32 (v.buffer ++ four n) (length v.buffer) (length v.buffer + 4) m)
        whole
        (read_u32-Reads v.buffer (n / 2 ^ 24 % 256) (n / 2 ^ 16 % 256) (n / 2 ^ 8 % 256)
          (n % 256))))
  where
    whole :
        n / 2 ^ 24 % 256 * 2 ^ 24 + n / 2 ^ 16 % 256 * 2 ^ 16 + n / 2 ^ 8 % 256 * 2 ^ 8 + n % 256
        ≡ n
    whole = omega arith

-- The common fields, and what stands behind them.
front_assoc :
    (domain : Text) (qtype : QueryType) (ttl : ℕ) (k : M VectorPacketBuffer (Unit {0}))
    (v : VectorPacketBuffer)
    → (write_front domain qtype ttl >> k) v
      ≡ (do write_qname domain; write_u16 (to_num qtype); write_u16 1; write_u32 ttl; k) v
front_assoc domain qtype ttl k v =
    then_assoc (write_qname domain) (do write_u16 (to_num qtype); write_u16 1; write_u32 ttl) k v
    ∙ later (write_qname domain) _ _ v (λ u.
      then_assoc (write_u16 (to_num qtype)) (do write_u16 1; write_u32 ttl) k u
      ∙ later (write_u16 (to_num qtype)) _ _ u (then_assoc (write_u16 1) (write_u32 ttl) k))
  where
    later :
        (m n n' : M VectorPacketBuffer (Unit {0})) (v : VectorPacketBuffer)
        → ((u : VectorPacketBuffer) → n u ≡ n' u)
        → (m >> n) v ≡ (m >> n') v
    later m n n' v same = go (m v)
      where
        go : (r : Result (Unit {0} × VectorPacketBuffer)) → ((λ b. r) >> n) v ≡ ((λ b. r) >> n') v
        go (ok (a, u)) = same u
        go end_of_buffer = refl
        go panic = refl
        go stuck = refl

-- The bytes that a record takes at most, of which `max` behind its ttl.
abbrev pub front_size : Text → ℕ → ℕ
front_size domain max = length domain + 2 + (2 + (2 + (4 + max)))

module _ (fuel : ℕ) where
  abbrev behind_ttl : Text → ℕ → ℕ → ℕ → M VectorPacketBuffer DnsRecord
  behind_ttl domain qtype_num class ttl = do
    data_len ← read_u16
    read_data fuel (from_num qtype_num) domain qtype_num class ttl data_len

  abbrev behind_class : Text → ℕ → ℕ → M VectorPacketBuffer DnsRecord
  behind_class domain qtype_num class = read_u32 >>= behind_ttl domain qtype_num class

  abbrev behind_type : Text → ℕ → M VectorPacketBuffer DnsRecord
  behind_type domain qtype_num = read_u16 >>= behind_class domain qtype_num

  abbrev behind_name : Text → M VectorPacketBuffer DnsRecord
  behind_name domain = read_u16 >>= behind_type domain

  -- A name that can be written, and read with this fuel.
  abbrev pub IsName : Text → Type 0
  IsName name = All IsShort (split_dots name) × (length name + 2 ≤ fuel)

  pub front-Writes :
      (domain : Text) (qtype : QueryType) (ttl : ℕ) (k : M VectorPacketBuffer (Unit {0})) {max : ℕ}
      {rec : DnsRecord} (v : VectorPacketBuffer)
      → v.pos ≡ length v.buffer
      → IsName domain
      → ttl < 2 ^ 32
      → from_num (to_num qtype) ≡ qtype
      → ((u : VectorPacketBuffer)
          → u.pos ≡ length u.buffer
          → Writes k max
              (read_u16 >>= read_data fuel qtype (to_lowercase domain) (to_num qtype) 1 ttl)
              rec
              u)
      → Writes (write_front domain qtype ttl >> k) (front_size domain max) (Record.read fuel) rec v
  unfolding Record.read
  front-Writes domain qtype ttl k {max} {rec} v e (short, enough) small known rest =
      Writes-same (front_assoc domain qtype ttl k v) w
    where
      d : Text
      d = to_lowercase domain

      n : ℕ
      n = to_num qtype

      w :
          Writes
            (do write_qname domain; write_u16 n; write_u16 1; write_u32 ttl; k)
            (front_size domain max)
            (read_qname fuel [] >>= behind_name)
            rec
            v
      w =
          Writes-step (do write_u16 n; write_u16 1; write_u32 ttl; k) behind_name
            (qname-Writes domain fuel v e short enough)
            (λ u e.
              Writes-step (do write_u16 1; write_u32 ttl; k) (behind_type d) (u16-Writes n u e)
                (λ u e.
                  Writes-step (do write_u32 ttl; k) (behind_class d n) (u16-Writes 1 u e)
                    (λ u e. Writes-step k (behind_ttl d n 1) (u32-Writes ttl u small e) (λ u e.
                      subst (λ q. Writes k max (read_u16 >>= read_data fuel q d n 1 ttl) rec u)
                        (sym known) (rest u e)))))
