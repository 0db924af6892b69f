-- ===== src/Dns/Protocol/Written/Soa.antt =====
-- The SOA record: two names and five numbers.
use gis.Base.{ℕ, ◌+◌, ◌<◌, ◌^◌, ◌≡◌, [], length}
use gis.Bytes.{Text}
use gis.Dns.Buffer.{
  M, pure, ◌>>=◌, ◌>>◌, to_lowercase, write_u32, write_qname, read_u32, read_qname,
}
use gis.Dns.Buffer.Vector.{VectorPacketBuffer, vector_buffer}
use gis.Dns.Buffer.RoundTrip.{qname-Writes}
use gis.Dns.Buffer.Writes.{Writes, Writes-step, Writes-map}
use gis.Dns.Buffer.Sized.{IsSteady, then-IsSteady, u32-IsSteady, qname-IsSteady, sized-Writes}
use gis.Dns.Protocol.Types.{DnsRecord, QueryType}
use gis.Dns.Protocol.Record.{read_data, write_data, write_sized}
use gis.Dns.Protocol.Record
use gis.Dns.Protocol.Codes.{from_num-to_num}
use gis.Dns.Protocol.Records.{u32-Writes, front-Writes, front_size, IsName}

abbrev pub AreWords : ℕ → ℕ → ℕ → ℕ → ℕ → Type 0
AreWords a b c d e = (a < 2 ^ 32) × (b < 2 ^ 32) × (c < 2 ^ 32) × (d < 2 ^ 32) × (e < 2 ^ 32)

abbrev write_five : ℕ → ℕ → ℕ → ℕ → ℕ → M VectorPacketBuffer (Unit {0})
write_five a b c d e = do write_u32 a; write_u32 b; write_u32 c; write_u32 d; write_u32 e

five-IsSteady : (a b c d e : ℕ) → IsSteady (write_five a b c d e)
five-IsSteady a b c d e = then-IsSteady (write_u32 a) _ (u32-IsSteady a) (
    then-IsSteady (write_u32 b) _ (u32-IsSteady b) (
      then-IsSteady (write_u32 c) _ (u32-IsSteady c)
        (then-IsSteady (write_u32 d) _ (u32-IsSteady d) (u32-IsSteady e))))

module _ {A : Type 0} (make : ℕ → ℕ → ℕ → ℕ → ℕ → A) where
  abbrev behind_four : ℕ → ℕ → ℕ → ℕ → M VectorPacketBuffer A
  behind_four a b c d = do e ← read_u32; pure (make a b c d e)

  abbrev behind_three : ℕ → ℕ → ℕ → M VectorPacketBuffer A
  behind_three a b c = read_u32 >>= behind_four a b c

  abbrev behind_two : ℕ → ℕ → M VectorPacketBuffer A
  behind_two a b = read_u32 >>= behind_three a b

  abbrev behind_one : ℕ → M VectorPacketBuffer A
  behind_one a = read_u32 >>= behind_two a

  five-Writes :
      (a b c d e : ℕ) (v : VectorPacketBuffer)
      → v.pos ≡ length v.buffer
      → AreWords a b c d e
      → Writes (write_five a b c d e) 20 (read_u32 >>= behind_one) (make a b c d e) v
  five-Writes a b c d e v at (ha, hb, hc, hd, he) =
      Writes-step _ behind_one (u32-Writes a v ha at) (λ u at.
        Writes-step _ (behind_two a) (u32-Writes b u hb at) (λ u at.
          Writes-step _ (behind_three a b) (u32-Writes c u hc at) (λ u at.
            Writes-step _ (behind_four a b c) (u32-Writes d u hd at)
              (λ u at. Writes-map (make a b c d) (u32-Writes e u he at)))))

pub soa-Writes :
    (fuel : ℕ) (domain m_name r_name : Text) (serial refresh retry expire minimum ttl : ℕ)
    (v : VectorPacketBuffer)
    → v.pos ≡ length v.buffer
    → IsName fuel domain
    → ttl < 2 ^ 32
    → IsName fuel m_name
    → IsName fuel r_name
    → AreWords serial refresh retry expire minimum
    → Writes
        (write_data (DnsRecord.soa domain m_name r_name serial refresh retry expire minimum ttl))
        (front_size domain (2 + (length m_name + 2 + (length r_name + 2 + 20))))
        (Record.read fuel)
        (DnsRecord.soa
          (to_lowercase domain)
          (to_lowercase m_name)
          (to_lowercase r_name)
          serial
          refresh
          retry
          expire
          minimum
          ttl)
        v
unfolding write_data read_data
soa-Writes fuel domain m_name r_name serial refresh retry expire minimum ttl v e named small
      (m_short, m_enough) (r_short, r_enough) words =
    front-Writes fuel domain QueryType.soa ttl (write_sized body) v e named small
      (from_num-to_num QueryType.soa tt)
      (λ u e.
        sized-Writes body
          (then-IsSteady (write_qname m_name) (do write_qname r_name; numbers)
            (qname-IsSteady m_name)
            (then-IsSteady (write_qname r_name) numbers (qname-IsSteady r_name)
              (five-IsSteady serial refresh retry expire minimum)))
          (read_qname fuel [] >>= behind_m_name)
          (λ u e.
            Writes-step (do write_qname r_name; numbers) behind_m_name
              (qname-Writes m_name fuel u e m_short m_enough)
              (λ u e.
                Writes-step numbers (λ r. read_u32 >>= behind_one (make (to_lowercase m_name) r))
                  (qname-Writes r_name fuel u e r_short r_enough)
                  (λ u e.
                    five-Writes (make (to_lowercase m_name) (to_lowercase r_name)) serial refresh
                      retry expire minimum u e words)))
          u e)
  where
    make : Text → Text → ℕ → ℕ → ℕ → ℕ → ℕ → DnsRecord
    make m r a b c d e = DnsRecord.soa (to_lowercase domain) m r a b c d e ttl

    behind_m_name : Text → M VectorPacketBuffer DnsRecord
    behind_m_name m = do r ← read_qname fuel []; read_u32 >>= behind_one (make m r)

    numbers : M VectorPacketBuffer (Unit {0})
    numbers = write_five serial refresh retry expire minimum

    body : M VectorPacketBuffer (Unit {0})
    body = do write_qname m_name; write_qname r_name; numbers
