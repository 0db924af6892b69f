-- ===== src/Dns/Protocol/Written/Ipv4.antt =====
-- The address of an A record, which `DnsRecord::write` writes byte by byte.
use gis.Base.{ℕ, ◌+◌, ◌*◌, ◌/◌, ◌%◌, ◌^◌, ◌<◌, [], ◌∷◌, ◌≡◌, ap, subst, ◌∙◌, arith, length}
use gis.Bytes.{Text}
use gis.Dns.Buffer.{ok, M, pure, ◌>>=◌, ◌>>◌, to_lowercase, write_u8, write_u16, read_u32}
use gis.Dns.Buffer.Vector.{VectorPacketBuffer, vector_buffer}
use gis.Dns.Buffer.Reads.{bind-ok}
use gis.Dns.Buffer.Wrote.{wrote, wrote-wrote, write_u8_lem}
use gis.Dns.Buffer.Writes.{Writes, Writes-step, Writes-map, u16-Writes, plain}
use gis.Dns.Protocol.Types.{DnsRecord, Ipv4Addr, QueryType}
use gis.Dns.Protocol.Record.{read_data, write_data, to_ipv4}
use gis.Dns.Protocol.Record
use gis.Dns.Protocol.Codes.{from_num-to_num}
use gis.Dns.Protocol.Records.{read_u32-Reads, front-Writes, front_size, IsName}

abbrev pub IsIpv4Addr : Ipv4Addr → Type 0
IsIpv4Addr x = (x.o0 < 256) × (x.o1 < 256) × (x.o2 < 256) × (x.o3 < 256)

abbrev number : Ipv4Addr → ℕ
number x = x.o0 * 2 ^ 24 + x.o1 * 2 ^ 16 + x.o2 * 2 ^ 8 + x.o3

to_ipv4-number : (x : Ipv4Addr) → IsIpv4Addr x → to_ipv4 (number x) ≡ x
to_ipv4-number x (h0, h1, h2, h3) = ground (arith, f0, f1, f2, f3)
  where
    f0 : number x / 2 ^ 24 % 256 ≡ x.o0
    f0 = omega arith

    f1 : number x / 2 ^ 16 % 256 ≡ x.o1
    f1 = omega arith

    f2 : number x / 2 ^ 8 % 256 ≡ x.o2
    f2 = omega arith

    f3 : number x % 256 ≡ x.o3
    f3 = omega arith

abbrev write_addr : Ipv4Addr → M VectorPacketBuffer (Unit {0})
write_addr x = do write_u8 x.o0; write_u8 x.o1; write_u8 x.o2; write_u8 x.o3

addr-Writes :
    (x : Ipv4Addr) (v : VectorPacketBuffer)
    → v.pos ≡ length v.buffer
    → Writes (write_addr x) 4 read_u32 (number x) v
addr-Writes x v e =
    plain (x.o0 ∷ (x.o1 ∷ (x.o2 ∷ (x.o3 ∷ [])))) v e runs
      (rw e (read_u32-Reads v.buffer x.o0 x.o1 x.o2 x.o3))
  where
    runs : write_addr x v ≡ ok (tt, wrote v (x.o0 ∷ (x.o1 ∷ (x.o2 ∷ (x.o3 ∷ [])))))
    runs =
        bind-ok (write_u8 x.o0) _ (write_u8_lem v x.o0)
        ∙ bind-ok (write_u8 x.o1) _ (write_u8_lem (wrote v (x.o0 ∷ [])) x.o1)
        ∙ bind-ok (write_u8 x.o2) _ (write_u8_lem (wrote (wrote v (x.o0 ∷ [])) (x.o1 ∷ [])) x.o2)
        ∙ write_u8_lem (wrote (wrote (wrote v (x.o0 ∷ [])) (x.o1 ∷ [])) (x.o2 ∷ [])) x.o3
        ∙ ap (λ u. ok (tt, u))
            (ap (λ u. wrote (wrote u (x.o2 ∷ [])) (x.o3 ∷ []))
                (wrote-wrote v (x.o0 ∷ []) (x.o1 ∷ []))
              ∙ ap (λ u. wrote u (x.o3 ∷ [])) (wrote-wrote v (x.o0 ∷ (x.o1 ∷ [])) (x.o2 ∷ []))
              ∙ wrote-wrote v (x.o0 ∷ (x.o1 ∷ (x.o2 ∷ []))) (x.o3 ∷ []))

pub a-Writes :
    (fuel : ℕ) (domain : Text) (addr : Ipv4Addr) (ttl : ℕ) (v : VectorPacketBuffer)
    → v.pos ≡ length v.buffer
    → IsName fuel domain
    → ttl < 2 ^ 32
    → IsIpv4Addr addr
    → Writes
        (write_data (DnsRecord.a domain addr ttl))
        (front_size domain (2 + 4))
        (Record.read fuel)
        (DnsRecord.a (to_lowercase domain) addr ttl)
        v
unfolding write_data read_data
a-Writes fuel domain addr ttl v e named small octets =
    front-Writes fuel domain QueryType.a ttl (do write_u16 4; write_addr addr) v e named small
      (from_num-to_num QueryType.a tt)
      (λ u e.
        Writes-step (write_addr addr)
          (λ len. do raw ← read_u32; pure (DnsRecord.a (to_lowercase domain) (to_ipv4 raw) ttl))
          (u16-Writes 4 u e)
          (λ u e.
            subst
              (λ x.
                Writes (write_addr addr) 4
                  (do raw ← read_u32; pure (DnsRecord.a (to_lowercase domain) (to_ipv4 raw) ttl))
                  (DnsRecord.a (to_lowercase domain) x ttl) u)
              (to_ipv4-number addr octets)
              (Writes-map (λ raw. DnsRecord.a (to_lowercase domain) (to_ipv4 raw) ttl)
                (addr-Writes addr u e))))
