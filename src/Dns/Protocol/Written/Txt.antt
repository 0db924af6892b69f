-- ===== src/Dns/Protocol/Written/Txt.antt =====
-- The text of a TXT record, taken as it stands.
use gis.Base.{
  ℕ, ◌+◌, ◌%◌, ◌<◌, ◌^◌, ◌≡◌, ◌++◌, sym, ap, subst, drop-append_exact, ◌∙◌, arith, length, take,
  drop, append_assoc, length-append, take-append,
}
use gis.Bytes.{Text}
use gis.Dns.Buffer.{ok, M, pure, ◌>>=◌, ◌>>◌, to_lowercase, write_u16, write_bytes}
use gis.Dns.Buffer.Vector.{VectorPacketBuffer, vector_buffer, get_range, step}
use gis.Dns.Buffer.Names.{get_range_in}
use gis.Dns.Buffer.Reads.{bind-ok}
use gis.Dns.Buffer.Wrote.{write_bytes_lem}
use gis.Dns.Buffer.Writes.{Writes, Writes-step, u16-Writes, plain}
use gis.Dns.Protocol.Types.{DnsRecord, QueryType}
use gis.Dns.Protocol.Record.{read_data, write_data}
use gis.Dns.Protocol.Record
use gis.Dns.Protocol.Codes.{from_num-to_num}
use gis.Dns.Protocol.Records.{front-Writes, front_size, IsName}

abbrev read_range : {C : Type 0} → ℕ → (Text → C) → M VectorPacketBuffer C
read_range len f = do
  cur_pos ← λ buffer. pure (buffer.pos) buffer
  txt ← get_range cur_pos len
  step len
  pure (f txt)

range-Writes :
    {C : Type 0} (f : Text → C) (content : Text) (v : VectorPacketBuffer)
    → v.pos ≡ length v.buffer
    → Writes (write_bytes content) (length content) (read_range (length content) f) (f content) v
unfolding step
range-Writes f content v e = plain content v e (write_bytes_lem content v) (record {
  run = λ u rest same at.
      let size : length u.buffer ≡ length v.buffer + (length content + length rest) =
        ap length same
        ∙ ap length (append_assoc v.buffer content rest)
        ∙ length-append v.buffer (content ++ rest)
        ∙ ap (λ n. length v.buffer + n) (length-append content rest) in
      let text : take (length content) (drop u.pos u.buffer) ≡ content =
        ap (λ l. take (length content) (drop u.pos l)) (same ∙ append_assoc v.buffer content rest)
        ∙ ap (take (length content))
            (drop-append_exact u.pos v.buffer (content ++ rest) (sym (at ∙ e)))
        ∙ take-append content rest in
      bind-ok (get_range u.pos (length content)) _
        (get_range_in u u.pos (length content) (omega (arith, size, at, e)))
      ∙ ap (λ t. ok (f t, record u { pos = u.pos + length content })) text
      ∙ ap (λ n. ok (f content, record u { pos = n + length content })) at;
})

pub txt-Writes :
    (fuel : ℕ) (domain content : Text) (ttl : ℕ) (v : VectorPacketBuffer)
    → v.pos ≡ length v.buffer
    → IsName fuel domain
    → ttl < 2 ^ 32
    → length content < 2 ^ 16
    → Writes
        (write_data (DnsRecord.txt domain content ttl))
        (front_size domain (2 + length content))
        (Record.read fuel)
        (DnsRecord.txt (to_lowercase domain) content ttl)
        v
unfolding write_data read_data
txt-Writes fuel domain content ttl v e named small short =
    front-Writes fuel domain QueryType.txt ttl
      (do write_u16 (length content % 2 ^ 16); write_bytes content) v e named small
      (from_num-to_num QueryType.txt tt)
      (λ u e.
        Writes-step (write_bytes content) (λ len. read_range len make)
          (u16-Writes (length content % 2 ^ 16) u e)
          (λ u e.
            subst
              (λ n.
                Writes (write_bytes content) (length content) (read_range n make) (make content) u)
              (sym whole) (range-Writes make content u e)))
  where
    make : Text → DnsRecord
    make txt = DnsRecord.txt (to_lowercase domain) txt ttl

    whole : length content % 2 ^ 16 ≡ length content
    whole = omega arith
