-- ===== src/Dns/Protocol/Sections.antt =====
-- The sections of records of a packet: as many of the records as fit, there and back.
use gis.Base.{
  ℕ, zero, suc, ◌+◌, ◌-◌, ◌≤◌, ◌≡◌, refl, sym, ap, ◌∙◌, arith, List, [], ◌∷◌, ◌++◌, length, take,
  map, All, length-append,
}
use gis.Dns.Buffer.{Result, ok, end_of_buffer, panic, stuck, M, pure, ◌>>=◌, ◌>>◌}
use gis.Dns.Buffer.Vector.{VectorPacketBuffer, vector_buffer}
use gis.Dns.Buffer.Reads.{bind-ok}
use gis.Dns.Buffer.Writes.{Writes, Writes-step, Writes-map, Writes-nothing, Writes-same}
use gis.Dns.Protocol.Types.{DnsRecord}
use gis.Dns.Protocol.Record.{write_data}
use gis.Dns.Protocol.Record
use gis.Dns.Protocol.Packet.{write_records, read_records}
use gis.Dns.Protocol.Written.{IsWritable, record_size, lowered, record-Writes}

-- The bytes that records take at most.
abbrev pub records_size : List DnsRecord → ℕ
records_size [] = 0
records_size (rec ∷ recs) = record_size rec + records_size recs

-- A record is written, and its size is no more than was said.
pub write_lem :
    (fuel : ℕ) (rec : DnsRecord) (v : VectorPacketBuffer) (e : v.pos ≡ length v.buffer)
    (good : IsWritable fuel rec)
    → (n : ℕ) × (n ≤ record_size rec)
      × (Record.write rec v ≡ ok (n, (record-Writes fuel rec v e good).after))
unfolding Record.write
write_lem fuel rec v e good =
    let w = record-Writes fuel rec v e good in
    (
      w.after.pos - v.pos,
      omega (arith, e, w.at_end, ap length w.grows, length-append v.buffer w.bytes, w.fits),
      bind-ok (write_data rec) _ w.runs,
    )

pub records-Writes :
    (fuel : ℕ) (recs : List DnsRecord) (v : VectorPacketBuffer)
    → v.pos ≡ length v.buffer
    → All (IsWritable fuel) recs
    → Writes
        (write_records recs)
        (records_size recs)
        (read_records fuel (length recs))
        (map lowered recs)
        v
unfolding write_records read_records
records-Writes fuel [] v e good = Writes-nothing v e
records-Writes fuel (rec ∷ recs) v e (g, gs) =
    Writes-same
      (bind-ok (Record.write rec) (λ n. write_records recs) ((write_lem fuel rec v e g).2)
        ∙ sym (
            bind-ok (write_data rec) (λ x. write_records recs)
              ((record-Writes fuel rec v e g).runs)))
      (Writes-step (write_records recs) behind (record-Writes fuel rec v e g)
        (λ u e. Writes-map (λ rest. lowered rec ∷ rest) (records-Writes fuel recs u e gs)))
  where
    behind : DnsRecord → M VectorPacketBuffer (List DnsRecord)
    behind x = do rest ← read_records fuel (length recs); pure (x ∷ rest)

pub write_records-append :
    (xs ys : List DnsRecord) (v : VectorPacketBuffer)
    → write_records (xs ++ ys) v ≡ (write_records xs >> write_records ys) v
unfolding write_records
write_records-append [] ys v = refl
write_records-append (x ∷ xs) ys v = go (write_records-append xs ys) (Record.write x v)
  where
    go :
        ((u : VectorPacketBuffer)
          → write_records (xs ++ ys) u ≡ (write_records xs >> write_records ys) u)
        → (r : Result (ℕ × VectorPacketBuffer))
        → ((λ b. r) >>= λ n. write_records (xs ++ ys)) v
          ≡ (((λ b. r) >>= λ n. write_records xs) >> write_records ys) v
    go same (ok (n, u)) = same u
    go same end_of_buffer = refl
    go same panic = refl
    go same stuck = refl

module _ {A : Type 0} (P : A → Type 0) where
  pub All-take : (n : ℕ) (xs : List A) → All P xs → All P (take n xs)
  All-take zero xs h = tt
  All-take (suc n) [] h = tt
  All-take (suc n) (x ∷ xs) (p, ps) = (p, All-take n xs ps)

  pub All-append : (xs ys : List A) → All P xs → All P ys → All P (xs ++ ys)
  All-append [] ys h k = k
  All-append (x ∷ xs) ys (p, ps) k = (p, All-append xs ys ps k)

module _ {A : Type 0} where
  pub take-append_both :
      (n : ℕ) (xs ys : List A) → take n (xs ++ ys) ≡ take n xs ++ take (n - length xs) ys
  take-append_both zero [] ys = refl
  take-append_both zero (x ∷ xs) ys = ground arith
  take-append_both (suc n) [] ys = ground arith
  take-append_both (suc n) (x ∷ xs) ys = ground (arith, take-append_both n xs ys)

  pub length-take : (n : ℕ) (xs : List A) → length (take n xs) ≡ n - (n - length xs)
  length-take zero xs = omega arith
  length-take (suc n) [] = omega arith
  length-take (suc n) (x ∷ xs) = omega (arith, length-take n xs)

pub records_size-take :
    (n : ℕ) (recs : List DnsRecord) → records_size (take n recs) ≤ records_size recs
records_size-take zero recs = omega arith
records_size-take (suc n) [] = omega arith
records_size-take (suc n) (rec ∷ recs) = omega (arith, records_size-take n recs)

pub records_size-append :
    (xs ys : List DnsRecord) → records_size (xs ++ ys) ≡ records_size xs + records_size ys
records_size-append [] ys = omega arith
records_size-append (x ∷ xs) ys = omega (arith, records_size-append xs ys)

record_size-pos : (fuel : ℕ) (rec : DnsRecord) → IsWritable fuel rec → 1 ≤ record_size rec
record_size-pos fuel (DnsRecord.unknown _ _ _ _) h = elim h [ ]
record_size-pos fuel (DnsRecord.opt _ _ _) h = elim h [ ]
record_size-pos fuel _ h = omega arith

pub length-records_size :
    (fuel : ℕ) (recs : List DnsRecord)
    → All (IsWritable fuel) recs
    → length recs ≤ records_size recs
length-records_size fuel [] h = omega arith
length-records_size fuel (rec ∷ recs) (g, gs) =
    omega (arith, record_size-pos fuel rec g, length-records_size fuel recs gs)
