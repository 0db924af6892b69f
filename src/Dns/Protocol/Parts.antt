-- ===== src/Dns/Protocol/Parts.antt =====
-- The parts of a packet, one behind another: a header that counts them, and what `from_buffer` reads.
use gis.Base.{ℕ, ◌+◌, ◌<◌, ◌≤◌, List, ◌++◌, ◌≡◌, refl, sym, ap, ◌∙◌, length, map, All}
use gis.Dns.Buffer.{ok, M, pure, ◌>>=◌, ◌>>◌}
use gis.Dns.Buffer.Vector.{VectorPacketBuffer, vector_buffer}
use gis.Dns.Buffer.Vector
use gis.Dns.Buffer.Reads.{bind-ok}
use gis.Dns.Buffer.Writes.{
  Writes, Writes-then, Writes-then-after, Writes-step, Writes-map, Writes-same,
}
use gis.Dns.Protocol.Types.{DnsHeader, DnsQuestion, DnsRecord, DnsPacket, new_packet}
use gis.Dns.Protocol.Header.{write_header, read_header}
use gis.Dns.Protocol.Packet.{
  write_questions, read_questions, write_records, read_records, from_buffer,
}
use gis.Dns.Protocol.RoundTrip.{header-Writes, questions-Writes, IsQuestion, questions_size}
use gis.Dns.Protocol.RoundTrip
use gis.Dns.Protocol.Written.{IsWritable}
use gis.Dns.Protocol.Written
use gis.Dns.Protocol.Sections.{records_size, records-Writes, write_records-append}

-- A header that counts what follows it.
abbrev pub counted :
    DnsHeader → List DnsQuestion → List DnsRecord → List DnsRecord → List DnsRecord → DnsHeader
counted h qs xs ys zs = record h {
  questions = length qs;
  answers = length xs;
  authoritative_entries = length ys;
  resource_entries = length zs;
}

module _ (fuel : ℕ) where
  abbrev read_zs :
      DnsHeader
      → List DnsQuestion
      → List DnsRecord
      → List DnsRecord
      → M VectorPacketBuffer DnsPacket
  read_zs h qs xs ys = do
    zs ← read_records fuel h.resource_entries
    pure (record { header = h; questions = qs; answers = xs; authorities = ys; resources = zs })

  abbrev read_ys : DnsHeader → List DnsQuestion → List DnsRecord → M VectorPacketBuffer DnsPacket
  read_ys h qs xs = read_records fuel h.authoritative_entries >>= read_zs h qs xs

  abbrev read_xs : DnsHeader → List DnsQuestion → M VectorPacketBuffer DnsPacket
  read_xs h qs = read_records fuel h.answers >>= read_ys h qs

  abbrev read_qs : DnsHeader → M VectorPacketBuffer DnsPacket
  read_qs h = read_questions fuel h.questions >>= read_xs h

module _ (fuel : ℕ) (h0 : DnsHeader) (qs : List DnsQuestion) (xs ys zs : List DnsRecord)
    (opcode : h0.opcode < 16) (are_questions : All IsQuestion qs)
    (enough : questions_size qs ≤ fuel) (good_xs : All (IsWritable fuel) xs)
    (good_ys : All (IsWritable fuel) ys) (good_zs : All (IsWritable fuel) zs) where
  abbrev h : DnsHeader
  h = counted h0 qs xs ys zs

  abbrev back : DnsPacket
  back = record {
    header = h;
    questions = map RoundTrip.lowered qs;
    answers = map Written.lowered xs;
    authorities = map Written.lowered ys;
    resources = map Written.lowered zs;
  }

  head : Writes (write_header h) 12 (read_header new_packet.header) h Vector.new
  head = header-Writes h new_packet.header Vector.new refl opcode

  body :
      Writes
        (write_questions qs)
        (questions_size qs)
        (read_questions fuel (length qs))
        (map RoundTrip.lowered qs)
        head.after
  body = questions-Writes qs fuel head.after head.at_end are_questions enough

  sections :
      (v : VectorPacketBuffer)
      → v.pos ≡ length v.buffer
      → Writes
          (write_records (xs ++ (ys ++ zs)))
          (records_size xs + (records_size ys + records_size zs))
          (read_xs fuel h (map RoundTrip.lowered qs))
          back
          v
  sections v e = Writes-same (write_records-append xs (ys ++ zs) v) (
      Writes-step (write_records (ys ++ zs)) (read_ys fuel h (map RoundTrip.lowered qs))
        (records-Writes fuel xs v e good_xs)
        (λ u e. Writes-same (write_records-append ys zs u) (
          Writes-step (write_records zs)
            (read_zs fuel h (map RoundTrip.lowered qs) (map Written.lowered xs))
            (records-Writes fuel ys u e good_ys)
            (λ u e.
              Writes-map (λ l. record back { resources = l })
                (records-Writes fuel zs u e good_zs)))))

  rest :
      Writes
        (write_records (xs ++ (ys ++ zs)))
        (records_size xs + (records_size ys + records_size zs))
        (read_xs fuel h (map RoundTrip.lowered qs))
        back
        body.after
  rest = sections body.after body.at_end

  pub packet-Writes :
      Writes
        (do write_header h; write_questions qs; write_records (xs ++ (ys ++ zs)))
        (12 + (questions_size qs + (records_size xs + (records_size ys + records_size zs))))
        (from_buffer fuel)
        back
        Vector.new
  unfolding from_buffer
  packet-Writes =
      Writes-then _ (read_qs fuel) Vector.new head
        (Writes-then _ (read_xs fuel h) head.after body rest)

  pub send_runs :
      (packet : DnsPacket)
      → (do write_header h; write_questions qs; write_records (xs ++ (ys ++ zs)); pure packet)
          Vector.new
        ≡ ok (packet, packet-Writes.after)
  unfolding packet-Writes
  send_runs packet =
      bind-ok (write_header h) _ head.runs
      ∙ bind-ok (write_questions qs) _ body.runs
      ∙ bind-ok (write_records (xs ++ (ys ++ zs))) _ rest.runs
      ∙ ap (λ v. ok (packet, v))
          (sym (
            Writes-then-after _ (read_qs fuel) Vector.new head
              (Writes-then _ (read_xs fuel h) head.after body rest)
            ∙ Writes-then-after _ (read_xs fuel h) head.after body rest))
