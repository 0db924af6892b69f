-- ===== src/Dns/Protocol/Fitting.antt =====
-- What `DnsPacket::write` finds out on its scratch buffer: how many records fit, and what the header
-- says of them.
use gis.Base.{
  ℕ, suc, ◌+◌, ◌-◌, ◌^◌, ◌<◌, ◌≤◌, ◌≡◌, refl, sym, ap, ◌∙◌, arith, Bool, true, false, List, [], ◌∷◌,
  length, ltb, if◌then◌else◌, All, ◌⊎◌, inl, inr, Bool-cases, lt→ltb, ltb→lt,
}
use gis.Dns.Buffer.{Result, ok}
use gis.Dns.Buffer.Vector.{VectorPacketBuffer, vector_buffer}
use gis.Dns.Buffer.Reads.{bind-ok}
use gis.Dns.Protocol.Types.{DnsHeader, DnsRecord}
use gis.Dns.Protocol.Record
use gis.Dns.Protocol.Packet.{fit_records, count_record}
use gis.Dns.Protocol.Written.{IsWritable, record_size, record-Writes}
use gis.Dns.Protocol.Sections.{records_size, write_lem}

-- The header that counts `i` records, of which the first are answers and the next authorities.
abbrev pub counting : ℕ → ℕ → ℕ → DnsHeader → DnsHeader
counting answers authorities i h = record h {
  answers = i - (i - answers);
  authoritative_entries = (i - answers) - (i - answers - authorities);
  resource_entries = i - answers - authorities;
}

abbrev pub marked : Bool → DnsHeader → DnsHeader
marked cut h = record h { truncated_message = if cut then true else h.truncated_message }

count_record-counting :
    (answers authorities i : ℕ) (h : DnsHeader)
    → i + 1 < 2 ^ 16
    → count_record answers authorities i (counting answers authorities i h)
      ≡ counting answers authorities (i + 1) h
count_record-counting answers authorities i h small = ground arith

module _ (fuel max_size answers authorities : ℕ) (h : DnsHeader) where
  pub record Fits (i size : ℕ) (recs : List DnsRecord) (v : VectorPacketBuffer) : Type 0 where
    pub count : ℕ
    pub at_most : count ≤ length recs
    pub scratch : VectorPacketBuffer
    pub runs :
        fit_records max_size answers authorities i size (counting answers authorities i h) recs v
        ≡ ok (
          (
            marked (ltb count (length recs)) (counting answers authorities (i + count) h),
            i + count,
          ),
          scratch,
        )
    pub all_fit : (count ≡ length recs) ⊎ (max_size < size + records_size recs)

  abbrev result : ℕ → Bool → VectorPacketBuffer → Result ((DnsHeader × ℕ) × VectorPacketBuffer)
  result i cut w = ok ((marked cut (counting answers authorities i h), i), w)

  fit_records-over :
      (i size n : ℕ) (rec : DnsRecord) (recs : List DnsRecord) (v w : VectorPacketBuffer)
      → Record.write rec v ≡ ok (n, w)
      → ltb max_size (size + n) ≡ true
      → fit_records max_size answers authorities i size
          (counting answers authorities i h)
          (rec ∷ recs)
          v
        ≡ result i true w
  unfolding fit_records
  fit_records-over i size n rec recs v w runs over =
      bind-ok (Record.write rec) _ runs ∙ rw over refl

  fit_records-under :
      (i size n : ℕ) (rec : DnsRecord) (recs : List DnsRecord) (v w : VectorPacketBuffer)
      → Record.write rec v ≡ ok (n, w)
      → ltb max_size (size + n) ≡ false
      → i + 1 < 2 ^ 16
      → fit_records max_size answers authorities i size
          (counting answers authorities i h)
          (rec ∷ recs)
          v
        ≡ fit_records max_size answers authorities
            (i + 1)
            (size + n)
            (counting answers authorities (i + 1) h)
            recs
            w
  unfolding fit_records
  fit_records-under i size n rec recs v w runs under small =
      bind-ok (Record.write rec) _ runs
      ∙ rw under (
          ap (λ g. fit_records max_size answers authorities (i + 1) (size + n) g recs w)
            (count_record-counting answers authorities i h small))

  none-Fits :
      (i size n : ℕ) (rec : DnsRecord) (recs : List DnsRecord) (v w : VectorPacketBuffer)
      → Record.write rec v ≡ ok (n, w)
      → n ≤ record_size rec
      → ltb max_size (size + n) ≡ true
      → Fits i size (rec ∷ recs) v
  none-Fits i size n rec recs v w runs le over = record {
    count = 0;
    at_most = omega arith;
    scratch = w;
    runs =
        fit_records-over i size n rec recs v w runs over
        ∙ ap (λ j. result j true w) {x = i} {y = i + 0} (omega arith)
        ∙ ap (λ b. result (i + 0) b w) (sym (lt→ltb 0 (length (rec ∷ recs)) (omega arith)));
    all_fit = inr (omega (arith, ltb→lt max_size (size + n) over, le));
  }

  one-Fits :
      (i size n : ℕ) (rec : DnsRecord) (recs : List DnsRecord) (v w : VectorPacketBuffer)
      → Record.write rec v ≡ ok (n, w)
      → n ≤ record_size rec
      → ltb max_size (size + n) ≡ false
      → i + 1 < 2 ^ 16
      → Fits (i + 1) (size + n) recs w
      → Fits i size (rec ∷ recs) v
  one-Fits i size n rec recs v w runs le under small rest = record {
    count = suc rest.count;
    at_most = omega (arith, rest.at_most);
    scratch = rest.scratch;
    runs =
        fit_records-under i size n rec recs v w runs under small
        ∙ rest.runs
        ∙ ap (λ j. result j (ltb rest.count (length recs)) rest.scratch) next
        ∙ ap (λ b. result (i + suc rest.count) b rest.scratch) same;
    all_fit = elim rest.all_fit [ inl all ↦ inl (ap suc all) | inr over ↦ inr (omega arith) ];
  }
    where
      next : i + 1 + rest.count ≡ i + suc rest.count
      next = omega arith

      same : ltb rest.count (length recs) ≡ ltb (suc rest.count) (suc (length recs))
      same = ground arith

  pub fit_records_lem :
      (recs : List DnsRecord) (i size : ℕ) (v : VectorPacketBuffer)
      → v.pos ≡ length v.buffer
      → All (IsWritable fuel) recs
      → i + length recs < 2 ^ 16
      → Fits i size recs v
  unfolding fit_records
  fit_records_lem [] i size v e good few = record {
    count = 0;
    at_most = omega arith;
    scratch = v;
    runs = ap (λ j. result j false v) {x = i} {y = i + 0} (omega arith);
    all_fit = inl refl;
  }
  fit_records_lem (rec ∷ recs) i size v e (g, gs) few =
      let (n, le, runs) = write_lem fuel rec v e g in
      let w = record-Writes fuel rec v e g in
      elim (Bool-cases (ltb max_size (size + n))) [
        | inl over ↦ none-Fits i size n rec recs v w.after runs le over
        | inr under ↦
            one-Fits i size n rec recs v w.after runs le under (omega arith)
              (fit_records_lem recs (i + 1) (size + n) w.after w.at_end gs (omega arith))
      ]
