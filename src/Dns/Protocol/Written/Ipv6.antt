-- ===== src/Dns/Protocol/Written/Ipv6.antt =====
-- The address of an AAAA record, written as eight words of 16 bits and read as four of 32.
use gis.Base.{
  ℕ, ◌+◌, ◌*◌, ◌/◌, ◌%◌, ◌^◌, ◌<◌, [], ◌∷◌, ◌++◌, ◌≡◌, refl, ap, subst, ◌∙◌, arith, List, length,
}
use gis.Bytes.{Text}
use gis.Dns.Buffer.{ok, M, pure, ◌>>=◌, ◌>>◌, to_lowercase, write_u16, read_u32}
use gis.Dns.Buffer.Vector.{VectorPacketBuffer, vector_buffer}
use gis.Dns.Buffer.Reads.{Reads, bind-ok}
use gis.Dns.Buffer.Wrote.{wrote, wrote-wrote, write_u16_lem}
use gis.Dns.Buffer.Writes.{Writes, Writes-step, Writes-pair, Writes-map, u16-Writes, plain}
use gis.Dns.Protocol.Types.{DnsRecord, Ipv6Addr, QueryType}
use gis.Dns.Protocol.Record.{read_data, write_data, to_ipv6}
use gis.Dns.Protocol.Record
use gis.Dns.Protocol.Codes.{from_num-to_num}
use gis.Dns.Protocol.Records.{read_u32-Reads, front-Writes, front_size, IsName}

abbrev pub IsIpv6Addr : Ipv6Addr → Type 0
IsIpv6Addr x =
    (x.s0 < 2 ^ 16)
    × (x.s1 < 2 ^ 16)
    × (x.s2 < 2 ^ 16)
    × (x.s3 < 2 ^ 16)
    × (x.s4 < 2 ^ 16)
    × (x.s5 < 2 ^ 16)
    × (x.s6 < 2 ^ 16)
    × (x.s7 < 2 ^ 16)

abbrev both : ℕ → ℕ → ℕ
both hi lo = hi * 2 ^ 16 + lo

both-parts :
    (hi lo : ℕ)
    → hi < 2 ^ 16
    → lo < 2 ^ 16
    → (both hi lo / 2 ^ 16 % 2 ^ 16 ≡ hi) × (both hi lo % 2 ^ 16 ≡ lo)
both-parts hi lo h l = (omega arith, omega arith)

to_ipv6-both :
    (x : Ipv6Addr)
    → IsIpv6Addr x
    → to_ipv6 (both x.s0 x.s1) (both x.s2 x.s3) (both x.s4 x.s5) (both x.s6 x.s7) ≡ x
to_ipv6-both x (h0, h1, h2, h3, h4, h5, h6, h7) =
    let (e0, e1) = both-parts x.s0 x.s1 h0 h1 in
    let (e2, e3) = both-parts x.s2 x.s3 h2 h3 in
    let (e4, e5) = both-parts x.s4 x.s5 h4 h5 in
    let (e6, e7) = both-parts x.s6 x.s7 h6 h7 in rw (e0, e1, e2, e3, e4, e5, e6, e7) refl

words-Writes :
    (hi lo : ℕ) (v : VectorPacketBuffer)
    → v.pos ≡ length v.buffer
    → Writes (write_u16 hi >> write_u16 lo) 4 read_u32 (both hi lo) v
words-Writes hi lo v e =
    plain bytes v e
      (bind-ok (write_u16 hi) (λ _. write_u16 lo) (write_u16_lem v hi)
        ∙ write_u16_lem (wrote v (hi / 256 ∷ (hi % 256 ∷ []))) lo
        ∙ ap (λ u. ok (tt, u))
            (wrote-wrote v (hi / 256 ∷ (hi % 256 ∷ [])) (lo / 256 ∷ (lo % 256 ∷ []))))
      (rw e (
        subst (λ m. Reads read_u32 (v.buffer ++ bytes) (length v.buffer) (length v.buffer + 4) m)
          whole (read_u32-Reads v.buffer (hi / 256) (hi % 256) (lo / 256) (lo % 256))))
  where
    bytes : List ℕ
    bytes = hi / 256 ∷ (hi % 256 ∷ (lo / 256 ∷ (lo % 256 ∷ [])))

    whole : hi / 256 * 2 ^ 24 + hi % 256 * 2 ^ 16 + lo / 256 * 2 ^ 8 + lo % 256 ≡ both hi lo
    whole = omega arith

abbrev write_words : Ipv6Addr → M VectorPacketBuffer (Unit {0})
write_words x = do
  write_u16 x.s0
  write_u16 x.s1
  write_u16 x.s2
  write_u16 x.s3
  write_u16 x.s4
  write_u16 x.s5
  write_u16 x.s6
  write_u16 x.s7

module _ {A : Type 0} (make : ℕ → ℕ → ℕ → ℕ → A) where
  abbrev behind_3 : ℕ → ℕ → ℕ → M VectorPacketBuffer A
  behind_3 r1 r2 r3 = do r4 ← read_u32; pure (make r1 r2 r3 r4)

  abbrev behind_2 : ℕ → ℕ → M VectorPacketBuffer A
  behind_2 r1 r2 = read_u32 >>= behind_3 r1 r2

  abbrev behind_1 : ℕ → M VectorPacketBuffer A
  behind_1 r1 = read_u32 >>= behind_2 r1

  eight-Writes :
      (x : Ipv6Addr) (v : VectorPacketBuffer)
      → v.pos ≡ length v.buffer
      → Writes
          (write_words x)
          16
          (read_u32 >>= behind_1)
          (make (both x.s0 x.s1) (both x.s2 x.s3) (both x.s4 x.s5) (both x.s6 x.s7))
          v
  eight-Writes x v e =
      Writes-pair (write_u16 x.s0) (write_u16 x.s1) _ behind_1 v (words-Writes x.s0 x.s1 v e)
        (λ u e.
          Writes-pair (write_u16 x.s2) (write_u16 x.s3) _ (behind_2 (both x.s0 x.s1)) u
            (words-Writes x.s2 x.s3 u e)
            (λ u e.
              Writes-pair (write_u16 x.s4) (write_u16 x.s5) _
                (behind_3 (both x.s0 x.s1) (both x.s2 x.s3)) u (words-Writes x.s4 x.s5 u e)
                (λ u e.
                  Writes-map (make (both x.s0 x.s1) (both x.s2 x.s3) (both x.s4 x.s5))
                    (words-Writes x.s6 x.s7 u e))))

pub aaaa-Writes :
    (fuel : ℕ) (domain : Text) (addr : Ipv6Addr) (ttl : ℕ) (v : VectorPacketBuffer)
    → v.pos ≡ length v.buffer
    → IsName fuel domain
    → ttl < 2 ^ 32
    → IsIpv6Addr addr
    → Writes
        (write_data (DnsRecord.aaaa domain addr ttl))
        (front_size domain (2 + 16))
        (Record.read fuel)
        (DnsRecord.aaaa (to_lowercase domain) addr ttl)
        v
unfolding write_data read_data
aaaa-Writes fuel domain addr ttl v e named small words =
    front-Writes fuel domain QueryType.aaaa ttl _ v e named small
      (from_num-to_num QueryType.aaaa tt)
      (λ u e.
        Writes-step _ (λ len. read_u32 >>= behind_1 make) (u16-Writes 16 u e)
          (λ u e.
            subst
              (λ x.
                Writes (write_words addr) 16 (read_u32 >>= behind_1 make)
                  (DnsRecord.aaaa (to_lowercase domain) x ttl) u)
              (to_ipv6-both addr words) (eight-Writes make addr u e)))
  where
    make : ℕ → ℕ → ℕ → ℕ → DnsRecord
    make r1 r2 r3 r4 = DnsRecord.aaaa (to_lowercase domain) (to_ipv6 r1 r2 r3 r4) ttl
