-- ===== src/Dns/Protocol/Whole.antt =====
-- Whole packets: what `DnsPacket::write` sends is what `from_buffer` gives.
use gis.Base.{
  ℕ, ◌+◌, ◌-◌, ◌^◌, ◌<◌, ◌≤◌, List, [], ◌∷◌, ◌++◌, ◌≡◌, refl, sym, ap, ◌∙◌, arith, length, take,
  map, ltb, All, append-[], ◌⊎◌,
}
use gis.Dns.Buffer.{ok, pure, ◌>>◌}
use gis.Dns.Buffer.Vector.{VectorPacketBuffer, vector_buffer}
use gis.Dns.Buffer.Vector
use gis.Dns.Buffer.Reads.{bind-ok}
use gis.Dns.Buffer.Writes.{Writes, IsTable}
use gis.Dns.Protocol.Types.{DnsQuestion, DnsPacket}
use gis.Dns.Protocol.Header.{write_header}
use gis.Dns.Protocol.Packet.{
  write_questions, read_questions, write_records, questions_len, all_records, fit_records, plan,
  send, write, from_buffer,
}
use gis.Dns.Protocol.RoundTrip.{questions-Writes, IsQuestion, questions_size}
use gis.Dns.Protocol.RoundTrip
use gis.Dns.Protocol.Written.{IsWritable}
use gis.Dns.Protocol.Sections.{
  records_size, All-take, All-append, records_size-take, records_size-append, length-records_size,
}
use gis.Dns.Protocol.Fitting.{counting, marked, Fits, fit_records_lem}
use gis.Dns.Protocol.Sent.{
  first_answers, first_authorities, first_resources, sent, received, take-all_records, header-sent,
}
use gis.Dns.Protocol.Parts.{packet-Writes, send_runs}

-- A packet whose header counts no records yet, all of whose parts can be written, where pointers can
-- reach.
pub record IsSendable (fuel : ℕ) (packet : DnsPacket) : Type 0 where
  pub no_answers : packet.header.answers ≡ 0
  pub no_authorities : packet.header.authoritative_entries ≡ 0
  pub no_resources : packet.header.resource_entries ≡ 0
  pub opcode : packet.header.opcode < 16
  pub are_questions : All IsQuestion packet.questions
  pub enough : questions_size packet.questions ≤ fuel
  pub answers : All (IsWritable fuel) packet.answers
  pub authorities : All (IsWritable fuel) packet.authorities
  pub resources : All (IsWritable fuel) packet.resources
  pub size : 12 + questions_size packet.questions + records_size (all_records packet) ≤ 16384

new-IsTable : IsTable Vector.new
unfolding Vector.lookup_label
new-IsTable name p found = absurd (ground arith)

module _ (fuel max_size : ℕ) (packet : DnsPacket) (good : IsSendable fuel packet) where
  all_good : All (IsWritable fuel) (all_records packet)
  all_good =
      All-append (IsWritable fuel) packet.answers (packet.authorities ++ packet.resources)
        good.answers
        (All-append (IsWritable fuel) packet.authorities packet.resources good.authorities
          good.resources)

  few_records : length (all_records packet) < 2 ^ 16
  few_records = omega (arith, length-records_size fuel (all_records packet) all_good, good.size)

  few_questions : (qs : List DnsQuestion) → length qs ≤ questions_size qs
  few_questions [] = omega arith
  few_questions (q ∷ qs) = omega (arith, few_questions qs)

  scratch_questions :
      Writes
        (write_questions packet.questions)
        (questions_size packet.questions)
        (read_questions fuel (length packet.questions))
        (map RoundTrip.lowered packet.questions)
        Vector.new
  scratch_questions =
      questions-Writes packet.questions fuel Vector.new refl good.are_questions good.enough

  fits :
      Fits fuel max_size
        (length packet.answers)
        (length packet.authorities)
        packet.header
        0
        (12 + questions_len packet.questions)
        (all_records packet)
        scratch_questions.after
  fits =
      fit_records_lem fuel max_size (length packet.answers) (length packet.authorities)
        packet.header (all_records packet) 0 (12 + questions_len packet.questions)
        scratch_questions.after scratch_questions.at_end all_good (omega (arith, few_records))

  abbrev n : ℕ
  n = fits.count

  new_counting :
      packet.header ≡ counting (length packet.answers) (length packet.authorities) 0 packet.header
  new_counting = ground (arith, good.no_answers, good.no_authorities, good.no_resources)

  plan_lem :
      plan packet max_size Vector.new
      ≡ ok (
        (
          marked
              (ltb n (length (all_records packet)))
              (counting (length packet.answers) (length packet.authorities) n packet.header),
          n,
        ),
        fits.scratch,
      )
  unfolding plan
  plan_lem =
      bind-ok (write_questions packet.questions) _ scratch_questions.runs
      ∙ ap
          (λ h.
            fit_records max_size (length packet.answers) (length packet.authorities) 0
              (12 + questions_len packet.questions) h (all_records packet) scratch_questions.after)
          new_counting
      ∙ fits.runs
      ∙ ap
          (λ i. ok (
            (
              marked (ltb n (length (all_records packet)))
                  (counting (length packet.answers) (length packet.authorities) i packet.header),
              i,
            ),
            fits.scratch,
          ))
          {x = 0 + n} {y = n} (omega arith)

  few : length packet.questions < 2 ^ 16
  few = omega (arith, few_questions packet.questions, good.size)

  good_answers : All (IsWritable fuel) (first_answers packet n)
  good_answers = All-take (IsWritable fuel) n packet.answers good.answers

  good_authorities : All (IsWritable fuel) (first_authorities packet n)
  good_authorities =
      All-take (IsWritable fuel) (n - length packet.answers) packet.authorities good.authorities

  good_resources : All (IsWritable fuel) (first_resources packet n)
  good_resources =
      All-take (IsWritable fuel) (n - length packet.answers - length packet.authorities)
        packet.resources good.resources

  whole :
      Writes
        (do
          write_header (sent packet n)
          write_questions packet.questions
          write_records
              (first_answers packet n ++ (first_authorities packet n ++ first_resources packet n)))
        (12
          + (questions_size packet.questions
              + (records_size (first_answers packet n)
                  + (records_size (first_authorities packet n)
                      + records_size (first_resources packet n)))))
        (from_buffer fuel)
        (received packet n)
        Vector.new
  whole =
      packet-Writes fuel (marked (ltb n (length (all_records packet))) packet.header)
        packet.questions (first_answers packet n) (first_authorities packet n)
        (first_resources packet n) good.opcode good.are_questions good.enough good_answers
        good_authorities good_resources

  write_lem :
      write packet max_size Vector.new ≡ ok (record packet { header = sent packet n }, whole.after)
  unfolding write send whole
  write_lem =
      ap (λ r. send packet r Vector.new) plan_lem
      ∙ ap
          (λ h.
            (do
              write_header h
              write_questions packet.questions
              write_records (take n (all_records packet))
              pure (record packet { header = h }))
              Vector.new)
          (header-sent packet n (ltb n (length (all_records packet))) few fits.at_most)
      ∙ ap
          (λ recs.
            (do
              write_header (sent packet n)
              write_questions packet.questions
              write_records recs
              pure (record packet { header = sent packet n }))
              Vector.new)
          (take-all_records packet n)
      ∙ send_runs fuel (marked (ltb n (length (all_records packet))) packet.header) packet.questions
          (first_answers packet n) (first_authorities packet n) (first_resources packet n)
          good.opcode good.are_questions good.enough good_answers good_authorities good_resources
          (record packet { header = sent packet n })

  low : length whole.after.buffer ≤ 16384
  low = omega (
    arith,
    ap length whole.grows,
    whole.fits,
    good.size,
    records_size-append packet.answers (packet.authorities ++ packet.resources),
    records_size-append packet.authorities packet.resources,
    records_size-take n packet.answers,
    records_size-take (n - length packet.answers) packet.authorities,
    records_size-take (n - length packet.answers - length packet.authorities) packet.resources,
  )

  from_buffer_lem :
      from_buffer fuel (record whole.after { pos = 0 }) ≡ ok (received packet n, whole.after)
  from_buffer_lem =
      (whole.reads low new-IsTable).1.run (record whole.after { pos = 0 }) []
        (sym (append-[] whole.after.buffer)) refl

-- A packet whose header counts no records and has an opcode of four bits, of questions and records
-- that can be written, and that takes no more than 2 ^ 14 bytes: on an empty buffer and under any
-- size limit it is written with its first `n` records, which are all, unless the limit is below what
-- `write` may reckon for the packet. The header then counts the questions and the records of each
-- section, and is marked as truncated if records are missing; and, given enough rounds, this header,
-- the questions and those records are read back from the start of the buffer, names in lower case.
pub write-from_buffer :
    (packet : DnsPacket) (fuel max_size : ℕ)
    → IsSendable fuel packet
    → (n : ℕ) × (after : VectorPacketBuffer) × (n ≤ length (all_records packet))
      × ((n ≡ length (all_records packet))
          ⊎ (max_size < 12 + questions_len packet.questions + records_size (all_records packet)))
      × (write packet max_size Vector.new ≡ ok (record packet { header = sent packet n }, after))
      × (from_buffer fuel (record after { pos = 0 }) ≡ ok (received packet n, after))
write-from_buffer packet fuel max_size good = (
  (fits fuel max_size packet good).count,
  (whole fuel max_size packet good).after,
  (fits fuel max_size packet good).at_most,
  (fits fuel max_size packet good).all_fit,
  write_lem fuel max_size packet good,
  from_buffer_lem fuel max_size packet good,
)
