-- ===== src/Dns/Protocol/Written/Hosts.antt =====
-- The records that name a host: NS, CNAME, MX and SRV.
use gis.Base.{ℕ, ◌+◌, ◌<◌, ◌^◌, ◌≡◌, [], length}
use gis.Bytes.{Text}
use gis.Dns.Buffer.{
  M, pure, ◌>>=◌, ◌>>◌, to_lowercase, write_u16, write_qname, read_u16, read_qname,
}
use gis.Dns.Buffer.Vector.{VectorPacketBuffer, vector_buffer}
use gis.Dns.Buffer.RoundTrip.{qname-Writes}
use gis.Dns.Buffer.Writes.{Writes, Writes-step, Writes-map, u16-Writes}
use gis.Dns.Buffer.Sized.{IsSteady, then-IsSteady, u16-IsSteady, qname-IsSteady, sized-Writes}
use gis.Dns.Protocol.Types.{DnsRecord, QueryType}
use gis.Dns.Protocol.Record.{read_data, write_data, write_sized}
use gis.Dns.Protocol.Record
use gis.Dns.Protocol.Codes.{from_num-to_num}
use gis.Dns.Protocol.Records.{front-Writes, front_size, IsName}

pub ns-Writes :
    (fuel : ℕ) (domain : Text) (host : Text) (ttl : ℕ) (v : VectorPacketBuffer)
    → v.pos ≡ length v.buffer
    → IsName fuel domain
    → ttl < 2 ^ 32
    → IsName fuel host
    → Writes
        (write_data (DnsRecord.ns domain host ttl))
        (front_size domain (2 + (length host + 2)))
        (Record.read fuel)
        (DnsRecord.ns (to_lowercase domain) (to_lowercase host) ttl)
        v
unfolding write_data read_data
ns-Writes fuel domain host ttl v e named small (short, enough) =
    front-Writes fuel domain QueryType.ns ttl (write_sized (write_qname host)) v e named small
      (from_num-to_num QueryType.ns tt)
      (λ u e.
        sized-Writes (write_qname host) (qname-IsSteady host)
          (do h ← read_qname fuel []; pure (DnsRecord.ns (to_lowercase domain) h ttl))
          (λ u e.
            Writes-map (λ h. DnsRecord.ns (to_lowercase domain) h ttl)
              (qname-Writes host fuel u e short enough))
          u e)

pub cname-Writes :
    (fuel : ℕ) (domain : Text) (host : Text) (ttl : ℕ) (v : VectorPacketBuffer)
    → v.pos ≡ length v.buffer
    → IsName fuel domain
    → ttl < 2 ^ 32
    → IsName fuel host
    → Writes
        (write_data (DnsRecord.cname domain host ttl))
        (front_size domain (2 + (length host + 2)))
        (Record.read fuel)
        (DnsRecord.cname (to_lowercase domain) (to_lowercase host) ttl)
        v
unfolding write_data read_data
cname-Writes fuel domain host ttl v e named small (short, enough) =
    front-Writes fuel domain QueryType.cname ttl (write_sized (write_qname host)) v e named small
      (from_num-to_num QueryType.cname tt)
      (λ u e.
        sized-Writes (write_qname host) (qname-IsSteady host)
          (do h ← read_qname fuel []; pure (DnsRecord.cname (to_lowercase domain) h ttl))
          (λ u e.
            Writes-map (λ h. DnsRecord.cname (to_lowercase domain) h ttl)
              (qname-Writes host fuel u e short enough))
          u e)

pub mx-Writes :
    (fuel : ℕ) (domain : Text) (priority : ℕ) (host : Text) (ttl : ℕ) (v : VectorPacketBuffer)
    → v.pos ≡ length v.buffer
    → IsName fuel domain
    → ttl < 2 ^ 32
    → IsName fuel host
    → Writes
        (write_data (DnsRecord.mx domain priority host ttl))
        (front_size domain (2 + (2 + (length host + 2))))
        (Record.read fuel)
        (DnsRecord.mx (to_lowercase domain) priority (to_lowercase host) ttl)
        v
unfolding write_data read_data
mx-Writes fuel domain priority host ttl v e named small (short, enough) =
    front-Writes fuel domain QueryType.mx ttl (write_sized body) v e named small
      (from_num-to_num QueryType.mx tt)
      (λ u e.
        sized-Writes body
          (then-IsSteady (write_u16 priority) (write_qname host) (u16-IsSteady priority)
            (qname-IsSteady host))
          (read_u16 >>= behind)
          (λ u e. Writes-step (write_qname host) behind (u16-Writes priority u e) (λ u e.
            Writes-map (λ h. DnsRecord.mx (to_lowercase domain) priority h ttl)
              (qname-Writes host fuel u e short enough)))
          u e)
  where
    body : M VectorPacketBuffer (Unit {0})
    body = do write_u16 priority; write_qname host

    behind : ℕ → M VectorPacketBuffer DnsRecord
    behind p = do h ← read_qname fuel []; pure (DnsRecord.mx (to_lowercase domain) p h ttl)

pub srv-Writes :
    (fuel : ℕ) (domain : Text) (priority weight port : ℕ) (host : Text) (ttl : ℕ)
    (v : VectorPacketBuffer)
    → v.pos ≡ length v.buffer
    → IsName fuel domain
    → ttl < 2 ^ 32
    → IsName fuel host
    → Writes
        (write_data (DnsRecord.srv domain priority weight port host ttl))
        (front_size domain (2 + (2 + (2 + (2 + (length host + 2))))))
        (Record.read fuel)
        (DnsRecord.srv (to_lowercase domain) priority weight port (to_lowercase host) ttl)
        v
unfolding write_data read_data
srv-Writes fuel domain priority weight port host ttl v e named small (short, enough) =
    front-Writes fuel domain QueryType.srv ttl
      (write_sized (do write_u16 priority; write_u16 weight; write_u16 port; write_qname host)) v e
      named small (from_num-to_num QueryType.srv tt)
      (λ u e.
        sized-Writes (do write_u16 priority; write_u16 weight; write_u16 port; write_qname host)
          steady (read_u16 >>= behind_priority)
          (λ u e.
            Writes-step (do write_u16 weight; write_u16 port; write_qname host) behind_priority
              (u16-Writes priority u e)
              (λ u e.
                Writes-step (do write_u16 port; write_qname host) (behind_weight priority)
                  (u16-Writes weight u e)
                  (λ u e.
                    Writes-step (write_qname host) (behind_port priority weight)
                      (u16-Writes port u e)
                      (λ u e.
                        Writes-map
                          (λ h. DnsRecord.srv (to_lowercase domain) priority weight port h ttl)
                          (qname-Writes host fuel u e short enough)))))
          u e)
  where
    behind_port : ℕ → ℕ → ℕ → M VectorPacketBuffer DnsRecord
    behind_port p w o = do
      h ← read_qname fuel []
      pure (DnsRecord.srv (to_lowercase domain) p w o h ttl)

    behind_weight : ℕ → ℕ → M VectorPacketBuffer DnsRecord
    behind_weight p w = read_u16 >>= behind_port p w

    behind_priority : ℕ → M VectorPacketBuffer DnsRecord
    behind_priority p = read_u16 >>= behind_weight p

    steady : IsSteady (do write_u16 priority; write_u16 weight; write_u16 port; write_qname host)
    steady =
        then-IsSteady (write_u16 priority) (do write_u16 weight; write_u16 port; write_qname host)
          (u16-IsSteady priority)
          (then-IsSteady (write_u16 weight) (do write_u16 port; write_qname host)
            (u16-IsSteady weight)
            (then-IsSteady (write_u16 port) (write_qname host) (u16-IsSteady port)
              (qname-IsSteady host)))
