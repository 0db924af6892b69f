-- ===== src/Dns/Protocol/Record.antt =====
-- `DnsRecord::read` and `DnsRecord::write`.
use gis.Base.{ℕ, ◌+◌, ◌-◌, ◌/◌, ◌%◌, ◌^◌, [], length}
use gis.Bytes.{Text}
use gis.Dns.Buffer.{
  PacketBuffer, M, pure, ◌>>=◌, ◌>>◌, write_u8, set_u16, write_u16, write_u32, write_bytes,
  write_qname, read_u16, read_u32, read_qname,
}
use gis.Dns.Protocol.Types.{DnsRecord, Ipv4Addr, Ipv6Addr, QueryType, to_num, from_num}

abbrev pub to_ipv4 : ℕ → Ipv4Addr
to_ipv4 raw = record {
  o0 = raw / 2 ^ 24 % 256;
  o1 = raw / 2 ^ 16 % 256;
  o2 = raw / 2 ^ 8 % 256;
  o3 = raw % 256;
}

abbrev pub to_ipv6 : ℕ → ℕ → ℕ → ℕ → Ipv6Addr
to_ipv6 raw1 raw2 raw3 raw4 = record {
  s0 = raw1 / 2 ^ 16 % 2 ^ 16;
  s1 = raw1 % 2 ^ 16;
  s2 = raw2 / 2 ^ 16 % 2 ^ 16;
  s3 = raw2 % 2 ^ 16;
  s4 = raw3 / 2 ^ 16 % 2 ^ 16;
  s5 = raw3 % 2 ^ 16;
  s6 = raw4 / 2 ^ 16 % 2 ^ 16;
  s7 = raw4 % 2 ^ 16;
}

module _ {B : Type 0} ⦃p : PacketBuffer B⦄ (fuel : ℕ) where
  -- What follows the common fields, by query type.
  unfoldable pub read_data : QueryType → Text → ℕ → ℕ → ℕ → ℕ → M B DnsRecord
  read_data QueryType.a domain qtype_num class ttl data_len = do
    raw_addr ← read_u32
    pure (DnsRecord.a domain (to_ipv4 raw_addr) ttl)
  read_data QueryType.aaaa domain qtype_num class ttl data_len = do
    raw_addr1 ← read_u32
    raw_addr2 ← read_u32
    raw_addr3 ← read_u32
    raw_addr4 ← read_u32
    pure (DnsRecord.aaaa domain (to_ipv6 raw_addr1 raw_addr2 raw_addr3 raw_addr4) ttl)
  read_data QueryType.ns domain qtype_num class ttl data_len = do
    ns ← read_qname fuel []
    pure (DnsRecord.ns domain ns ttl)
  read_data QueryType.cname domain qtype_num class ttl data_len = do
    cname ← read_qname fuel []
    pure (DnsRecord.cname domain cname ttl)
  read_data QueryType.srv domain qtype_num class ttl data_len = do
    priority ← read_u16
    weight ← read_u16
    port ← read_u16
    srv ← read_qname fuel []
    pure (DnsRecord.srv domain priority weight port srv ttl)
  read_data QueryType.mx domain qtype_num class ttl data_len = do
    priority ← read_u16
    mx ← read_qname fuel []
    pure (DnsRecord.mx domain priority mx ttl)
  read_data QueryType.soa domain qtype_num class ttl data_len = do
    m_name ← read_qname fuel []
    r_name ← read_qname fuel []
    serial ← read_u32
    refresh ← read_u32
    retry ← read_u32
    expire ← read_u32
    minimum ← read_u32
    pure (DnsRecord.soa domain m_name r_name serial refresh retry expire minimum ttl)
  read_data QueryType.txt domain qtype_num class ttl data_len = do
    cur_pos ← λ buffer. pure (p.pos buffer) buffer
    txt ← p.get_range cur_pos data_len
    p.step data_len
    pure (DnsRecord.txt domain txt ttl)
  read_data QueryType.opt domain qtype_num class ttl data_len = do
    cur_pos ← λ buffer. pure (p.pos buffer) buffer
    content ← p.get_range cur_pos data_len
    p.step data_len
    pure (DnsRecord.opt class ttl content)
  read_data (QueryType.unknown _) domain qtype_num class ttl data_len = do
    p.step data_len
    pure (DnsRecord.unknown domain qtype_num data_len ttl)

  unfoldable pub read : M B DnsRecord
  read = do
    domain ← read_qname fuel []
    qtype_num ← read_u16
    class ← read_u16
    ttl ← read_u32
    data_len ← read_u16
    read_data (from_num qtype_num) domain qtype_num class ttl data_len

module _ {B : Type 0} ⦃p : PacketBuffer B⦄ where
  -- The name, the type, the class 1 and the ttl, as each record begins.
  abbrev pub write_front : Text → QueryType → ℕ → M B (Unit {0})
  write_front domain qtype ttl = do
    write_qname domain
    write_u16 (to_num qtype)
    write_u16 1
    write_u32 ttl

  -- The body behind a length field, which is set when the body's end is known.
  abbrev pub write_sized : M B (Unit {0}) → M B (Unit {0})
  write_sized body = do
    pos ← λ buffer. pure (p.pos buffer) buffer
    write_u16 0
    body
    end ← λ buffer. pure (p.pos buffer) buffer
    set_u16 pos ((end - (pos + 2)) % 2 ^ 16)

  unfoldable pub write_data : DnsRecord → M B (Unit {0})
  write_data (DnsRecord.a domain addr ttl) = do
    write_front domain QueryType.a ttl
    write_u16 4
    write_u8 addr.o0
    write_u8 addr.o1
    write_u8 addr.o2
    write_u8 addr.o3
  write_data (DnsRecord.aaaa domain addr ttl) = do
    write_front domain QueryType.aaaa ttl
    write_u16 16
    write_u16 addr.s0
    write_u16 addr.s1
    write_u16 addr.s2
    write_u16 addr.s3
    write_u16 addr.s4
    write_u16 addr.s5
    write_u16 addr.s6
    write_u16 addr.s7
  write_data (DnsRecord.ns domain host ttl) = do
    write_front domain QueryType.ns ttl
    write_sized (write_qname host)
  write_data (DnsRecord.cname domain host ttl) = do
    write_front domain QueryType.cname ttl
    write_sized (write_qname host)
  write_data (DnsRecord.srv domain priority weight port host ttl) = do
    write_front domain QueryType.srv ttl
    write_sized (do write_u16 priority; write_u16 weight; write_u16 port; write_qname host)
  write_data (DnsRecord.mx domain priority host ttl) = do
    write_front domain QueryType.mx ttl
    write_sized (do write_u16 priority; write_qname host)
  write_data (DnsRecord.soa domain m_name r_name serial refresh retry expire minimum ttl) = do
    write_front domain QueryType.soa ttl
    write_sized (do
      write_qname m_name
      write_qname r_name
      write_u32 serial
      write_u32 refresh
      write_u32 retry
      write_u32 expire
      write_u32 minimum)
  write_data (DnsRecord.txt domain content ttl) = do
    write_front domain QueryType.txt ttl
    write_u16 (length content % 2 ^ 16)
    write_bytes content
  write_data (DnsRecord.opt packet_len flags content) = pure tt
  write_data (DnsRecord.unknown domain qtype data_len ttl) = pure tt

  -- The answer is how far the position has moved.
  unfoldable pub write : DnsRecord → M B ℕ
  write rec = do
    start_pos ← λ buffer. pure (p.pos buffer) buffer
    write_data rec
    end ← λ buffer. pure (p.pos buffer) buffer
    pure (end - start_pos)
