-- ===== src/Dns/Protocol/Written.antt =====
-- What `DnsRecord::write` writes of a record is what `DnsRecord::read` reads, for every type but the
-- two that it writes nothing of.
use gis.Base.{
  ℕ, ◌+◌, ◌-◌, ◌<◌, ◌≤◌, ◌^◌, ◌≡◌, [], refl, sym, ap, ◌∙◌, arith, length, length-append, append-[],
}
use gis.Dns.Buffer.{ok, to_lowercase}
use gis.Dns.Buffer.Vector.{VectorPacketBuffer, vector_buffer}
use gis.Dns.Buffer.Reads.{bind-ok}
use gis.Dns.Buffer.Writes.{Writes, IsTable}
use gis.Dns.Protocol.Types.{DnsRecord}
use gis.Dns.Protocol.Record.{write_data}
use gis.Dns.Protocol.Record
use gis.Dns.Protocol.Records.{front_size, IsName}
use gis.Dns.Protocol.Written.Hosts.{ns-Writes, cname-Writes, mx-Writes, srv-Writes}
use gis.Dns.Protocol.Written.Ipv4.{IsIpv4Addr, a-Writes}
use gis.Dns.Protocol.Written.Ipv6.{IsIpv6Addr, aaaa-Writes}
use gis.Dns.Protocol.Written.Soa.{AreWords, soa-Writes}
use gis.Dns.Protocol.Written.Txt.{txt-Writes}
mod Hosts
mod Ipv4
mod Ipv6
mod Soa
mod Txt

-- The records that are written: names whose labels fit, and numbers in range.
abbrev pub IsWritable : ℕ → DnsRecord → Type 0
IsWritable fuel (DnsRecord.a domain addr ttl) =
    IsName fuel domain × (ttl < 2 ^ 32) × IsIpv4Addr addr
IsWritable fuel (DnsRecord.aaaa domain addr ttl) =
    IsName fuel domain × (ttl < 2 ^ 32) × IsIpv6Addr addr
IsWritable fuel (DnsRecord.ns domain host ttl) =
    IsName fuel domain × (ttl < 2 ^ 32) × IsName fuel host
IsWritable fuel (DnsRecord.cname domain host ttl) =
    IsName fuel domain × (ttl < 2 ^ 32) × IsName fuel host
IsWritable fuel (DnsRecord.mx domain priority host ttl) =
    IsName fuel domain × (ttl < 2 ^ 32) × IsName fuel host
IsWritable fuel (DnsRecord.srv domain priority weight port host ttl) =
    IsName fuel domain × (ttl < 2 ^ 32) × IsName fuel host
IsWritable fuel (DnsRecord.soa domain m_name r_name serial refresh retry expire minimum ttl) =
    IsName fuel domain
    × (ttl < 2 ^ 32)
    × IsName fuel m_name
    × IsName fuel r_name
    × AreWords serial refresh retry expire minimum
IsWritable fuel (DnsRecord.txt domain content ttl) =
    IsName fuel domain × (ttl < 2 ^ 32) × (length content < 2 ^ 16)
IsWritable fuel (DnsRecord.unknown _ _ _ _) = ⊥
IsWritable fuel (DnsRecord.opt _ _ _) = ⊥

-- The bytes that a record takes at most.
abbrev pub record_size : DnsRecord → ℕ
record_size (DnsRecord.a domain addr ttl) = front_size domain (2 + 4)
record_size (DnsRecord.aaaa domain addr ttl) = front_size domain (2 + 16)
record_size (DnsRecord.ns domain host ttl) = front_size domain (2 + (length host + 2))
record_size (DnsRecord.cname domain host ttl) = front_size domain (2 + (length host + 2))
record_size (DnsRecord.mx domain priority host ttl) =
    front_size domain (2 + (2 + (length host + 2)))
record_size (DnsRecord.srv domain priority weight port host ttl) =
    front_size domain (2 + (2 + (2 + (2 + (length host + 2)))))
record_size (DnsRecord.soa domain m_name r_name serial refresh retry expire minimum ttl) =
    front_size domain (2 + (length m_name + 2 + (length r_name + 2 + 20)))
record_size (DnsRecord.txt domain content ttl) = front_size domain (2 + length content)
record_size (DnsRecord.unknown _ _ _ _) = 0
record_size (DnsRecord.opt _ _ _) = 0

-- What is read back: the names in lower case.
abbrev pub lowered : DnsRecord → DnsRecord
lowered (DnsRecord.a domain addr ttl) = DnsRecord.a (to_lowercase domain) addr ttl
lowered (DnsRecord.aaaa domain addr ttl) = DnsRecord.aaaa (to_lowercase domain) addr ttl
lowered (DnsRecord.ns domain host ttl) = DnsRecord.ns (to_lowercase domain) (to_lowercase host) ttl
lowered (DnsRecord.cname domain host ttl) =
    DnsRecord.cname (to_lowercase domain) (to_lowercase host) ttl
lowered (DnsRecord.mx domain priority host ttl) =
    DnsRecord.mx (to_lowercase domain) priority (to_lowercase host) ttl
lowered (DnsRecord.srv domain priority weight port host ttl) =
    DnsRecord.srv (to_lowercase domain) priority weight port (to_lowercase host) ttl
lowered (DnsRecord.soa domain m_name r_name serial refresh retry expire minimum ttl) =
    DnsRecord.soa (to_lowercase domain) (to_lowercase m_name) (to_lowercase r_name) serial refresh
      retry expire minimum ttl
lowered (DnsRecord.txt domain content ttl) = DnsRecord.txt (to_lowercase domain) content ttl
lowered (DnsRecord.unknown domain qtype data_len ttl) = DnsRecord.unknown domain qtype data_len ttl
lowered (DnsRecord.opt packet_len flags content) = DnsRecord.opt packet_len flags content

pub record-Writes :
    (fuel : ℕ) (rec : DnsRecord) (v : VectorPacketBuffer)
    → v.pos ≡ length v.buffer
    → IsWritable fuel rec
    → Writes (write_data rec) (record_size rec) (Record.read fuel) (lowered rec) v
record-Writes fuel (DnsRecord.a domain addr ttl) v e (named, small, octets) =
    a-Writes fuel domain addr ttl v e named small octets
record-Writes fuel (DnsRecord.aaaa domain addr ttl) v e (named, small, words) =
    aaaa-Writes fuel domain addr ttl v e named small words
record-Writes fuel (DnsRecord.ns domain host ttl) v e (named, small, host_named) =
    ns-Writes fuel domain host ttl v e named small host_named
record-Writes fuel (DnsRecord.cname domain host ttl) v e (named, small, host_named) =
    cname-Writes fuel domain host ttl v e named small host_named
record-Writes fuel (DnsRecord.mx domain priority host ttl) v e (named, small, host_named) =
    mx-Writes fuel domain priority host ttl v e named small host_named
record-Writes fuel (DnsRecord.srv domain priority weight port host ttl) v e
      (named, small, host_named) =
    srv-Writes fuel domain priority weight port host ttl v e named small host_named
record-Writes fuel (DnsRecord.soa domain m_name r_name serial refresh retry expire minimum ttl) v e
      (named, small, m_named, r_named, words) =
    soa-Writes fuel domain m_name r_name serial refresh retry expire minimum ttl v e named small
      m_named r_named words
record-Writes fuel (DnsRecord.txt domain content ttl) v e (named, small, short) =
    txt-Writes fuel domain content ttl v e named small short
record-Writes fuel (DnsRecord.unknown _ _ _ _) v e h = elim h [ ]
record-Writes fuel (DnsRecord.opt _ _ _) v e h = elim h [ ]

-- At the end of a buffer whose label table is right, with room below 2 ^ 14: a record of any type but
-- OPT and unknown ones, of names of labels of 1 to 63 bytes, with octets, words and a ttl in range
-- and a text of fewer than 2 ^ 16 bytes, can be written; the answer is the number of bytes that the
-- write took; and given a round for each byte of its names and two more, the record is read back
-- there, its names in lower case. The label table is right again.
pub write-read :
    (fuel : ℕ) (rec : DnsRecord) (v : VectorPacketBuffer)
    → v.pos ≡ length v.buffer
    → IsTable v
    → IsWritable fuel rec
    → length v.buffer + record_size rec ≤ 16384
    → (n : ℕ) × (after : VectorPacketBuffer) × (Record.write rec v ≡ ok (n, after))
      × (length after.buffer ≡ length v.buffer + n)
      × (Record.read fuel (record after { pos = v.pos }) ≡ ok (lowered rec, after))
      × IsTable after
unfolding Record.write
write-read fuel rec v e table good room =
    let w = record-Writes fuel rec v e good in
    let grown : length w.after.buffer ≡ length v.buffer + length w.bytes =
      ap length w.grows ∙ length-append v.buffer w.bytes in
    let (table', rd) = w.reads (omega (arith, grown, w.fits, room)) table in
    (
      w.after.pos - v.pos,
      w.after,
      bind-ok (write_data rec) _ w.runs,
      omega (arith, grown, e, w.at_end),
      rd.run (record w.after { pos = v.pos }) [] (sym (append-[] w.after.buffer)) refl,
      table',
    )
