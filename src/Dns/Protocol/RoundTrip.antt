-- ===== src/Dns/Protocol/RoundTrip.antt =====
-- A header, a question and a query, there and back.
use gis.Base.{
  ℕ, ◌+◌, ◌*◌, ◌/◌, ◌%◌, ◌<◌, ◌≤◌, List, [], ◌∷◌, ◌≡◌, ap, subst, arith, length, map, All,
}
use gis.Bytes.{Text}
use gis.Dns.Buffer.{M, pure, ◌>>=◌, ◌>>◌, split_dots, to_lowercase, write_u8, write_u16, read_u16}
use gis.Dns.Buffer.Vector.{VectorPacketBuffer, vector_buffer}
use gis.Dns.Buffer.Labels.{IsShort}
use gis.Dns.Buffer.RoundTrip.{qname-Writes}
use gis.Dns.Buffer.Writes.{
  Writes, Writes-step, Writes-map, Writes-nothing, Writes-pair, u16-Writes, bytes-Writes,
}
use gis.Dns.Protocol.Types.{DnsHeader, DnsQuestion, QueryType, to_num, from_num}
use gis.Dns.Protocol.Header.{
  flags_high, flags_low, set_flags, write_header, read_header, write_question, read_question,
}
use gis.Dns.Protocol.Packet.{write_questions, read_questions}
use gis.Dns.Protocol.Codes.{IsCanonical, from_num-to_num}
use gis.Dns.Protocol.Flags.{flags-set_flags, with_flags}

flags_back :
    (h h0 : DnsHeader)
    → h.opcode < 16
    → set_flags
        ((flags_high h * 256 + flags_low h) / 256)
        ((flags_high h * 256 + flags_low h) % 256)
        h0
      ≡ with_flags h h0
flags_back h h0 lt = rw (hi, lo) (flags.0)
  where
    flags :
        (set_flags (flags_high h) (flags_low h) h0 ≡ with_flags h h0)
        × (flags_high h < 256)
        × (flags_low h < 256)
    flags = flags-set_flags h h0 lt

    hi : (flags_high h * 256 + flags_low h) / 256 ≡ flags_high h
    hi = omega (arith, flags.1, flags.2)

    lo : (flags_high h * 256 + flags_low h) % 256 ≡ flags_low h
    lo = omega (arith, flags.1, flags.2)

-- What `read_header` does behind each number.
abbrev counted : DnsHeader → ℕ → ℕ → ℕ → ℕ → ℕ → DnsHeader
counted h id questions answers authoritative_entries resource_entries = record h {
  id = id;
  questions = questions;
  answers = answers;
  authoritative_entries = authoritative_entries;
  resource_entries = resource_entries;
}

abbrev from_authorities : DnsHeader → ℕ → ℕ → ℕ → ℕ → M VectorPacketBuffer DnsHeader
from_authorities h id q a n = do r ← read_u16; pure (counted h id q a n r)

abbrev from_answers : DnsHeader → ℕ → ℕ → ℕ → M VectorPacketBuffer DnsHeader
from_answers h id q a = read_u16 >>= from_authorities h id q a

abbrev from_questions : DnsHeader → ℕ → ℕ → M VectorPacketBuffer DnsHeader
from_questions h id q = read_u16 >>= from_answers h id q

abbrev from_flags : DnsHeader → ℕ → ℕ → M VectorPacketBuffer DnsHeader
from_flags h id flags = read_u16 >>= from_questions (set_flags (flags / 256) (flags % 256) h) id

-- The writer's side, from the back.
abbrev to_answers : DnsHeader → M VectorPacketBuffer (Unit {0})
to_answers h = do
  write_u16 h.answers
  write_u16 h.authoritative_entries
  write_u16 h.resource_entries

abbrev to_authorities : DnsHeader → M VectorPacketBuffer (Unit {0})
to_authorities h = do write_u16 h.authoritative_entries; write_u16 h.resource_entries

counts-Writes :
    (h h' : DnsHeader) (u : VectorPacketBuffer)
    → u.pos ≡ length u.buffer
    → counted h' h.id h.questions h.answers h.authoritative_entries h.resource_entries ≡ h
    → Writes (do write_u16 h.questions; to_answers h) 8 (read_u16 >>= from_questions h' h.id) h u
counts-Writes h h' u e same =
    Writes-step (to_answers h) (from_questions h' h.id) (u16-Writes h.questions u e) (λ u e.
      Writes-step (to_authorities h) (from_answers h' h.id h.questions) (u16-Writes h.answers u e)
        (λ u e.
          Writes-step (write_u16 h.resource_entries)
            (from_authorities h' h.id h.questions h.answers)
            (u16-Writes h.authoritative_entries u e)
            (λ u e.
              subst
                (λ c.
                  Writes (write_u16 h.resource_entries) 2
                    (read_u16 >>= λ r.
                      pure (counted h' h.id h.questions h.answers h.authoritative_entries r))
                    c u)
                same
                (Writes-map (counted h' h.id h.questions h.answers h.authoritative_entries)
                  (u16-Writes h.resource_entries u e)))))

pub header-Writes :
    (h h0 : DnsHeader) (v : VectorPacketBuffer)
    → v.pos ≡ length v.buffer
    → h.opcode < 16
    → Writes (write_header h) 12 (read_header h0) h v
unfolding write_header read_header
header-Writes h h0 v e lt =
    Writes-step
      (do write_u8 (flags_high h); write_u8 (flags_low h); write_u16 h.questions; to_answers h)
      (λ id. read_u16 >>= from_flags h0 id) (u16-Writes h.id v e)
      (λ u e.
        Writes-pair (write_u8 (flags_high h)) (write_u8 (flags_low h))
          (do write_u16 h.questions; to_answers h) (from_flags h0 h.id) u
          (bytes-Writes (flags_high h) (flags_low h) u e)
          (λ u e.
            counts-Writes h
              (set_flags ((flags_high h * 256 + flags_low h) / 256)
                ((flags_high h * 256 + flags_low h) % 256) h0)
              u e
              (ap
                (λ f.
                  counted f h.id h.questions h.answers h.authoritative_entries h.resource_entries)
                (flags_back h h0 lt))))

-- A question whose name can be written: its labels are neither empty nor longer than 63 bytes, and
-- its type is not a known one in the clothes of an unknown one.
abbrev pub IsQuestion : DnsQuestion → Type 0
IsQuestion q = All IsShort (split_dots q.name) × IsCanonical q.qtype

-- The question that is read back: its name in lower case.
abbrev pub lowered : DnsQuestion → DnsQuestion
lowered q = record q { name = to_lowercase q.name }

abbrev new_question : DnsQuestion
new_question = record { name = []; qtype = QueryType.unknown 0 }

pub question-Writes :
    (q : DnsQuestion) (fuel : ℕ) (v : VectorPacketBuffer)
    → v.pos ≡ length v.buffer
    → IsQuestion q
    → length q.name + 2 ≤ fuel
    → Writes
        (write_question q)
        (length q.name + 2 + 4)
        (read_question fuel new_question)
        (lowered q)
        v
unfolding write_question read_question
question-Writes q fuel v e (short, canonical) enough =
    Writes-step (do write_u16 (to_num q.qtype); write_u16 1) with_name
      (qname-Writes q.name fuel v e short enough)
      (λ u e.
        Writes-step (write_u16 1) (with_type (to_lowercase q.name))
          (u16-Writes (to_num q.qtype) u e)
          (λ u e.
            subst
              (λ t.
                Writes (write_u16 1) 2 (with_type (to_lowercase q.name) (to_num q.qtype))
                  (record { name = to_lowercase q.name; qtype = t }) u)
              (from_num-to_num q.qtype canonical)
              (Writes-map
                (λ class. record { name = to_lowercase q.name; qtype = from_num (to_num q.qtype) })
                (u16-Writes 1 u e))))
  where
    with_type : Text → ℕ → M VectorPacketBuffer DnsQuestion
    with_type name qtype = do
      class ← read_u16
      pure (record { name = name; qtype = from_num qtype })

    with_name : Text → M VectorPacketBuffer DnsQuestion
    with_name name = read_u16 >>= with_type name

-- The bytes that questions take at most, and the rounds that their names take.
abbrev pub questions_size : List DnsQuestion → ℕ
questions_size [] = 0
questions_size (q ∷ qs) = length q.name + 2 + 4 + questions_size qs

pub questions-Writes :
    (qs : List DnsQuestion) (fuel : ℕ) (v : VectorPacketBuffer)
    → v.pos ≡ length v.buffer
    → All IsQuestion qs
    → questions_size qs ≤ fuel
    → Writes
        (write_questions qs)
        (questions_size qs)
        (read_questions fuel (length qs))
        (map lowered qs)
        v
unfolding write_questions read_questions
questions-Writes [] fuel v e good enough = Writes-nothing v e
questions-Writes (q ∷ qs) fuel v e (g, gs) enough =
    Writes-step (write_questions qs) behind (question-Writes q fuel v e g (omega arith))
      (λ u e. Writes-map (λ rest. lowered q ∷ rest) (questions-Writes qs fuel u e gs (omega arith)))
  where
    behind : DnsQuestion → M VectorPacketBuffer (List DnsQuestion)
    behind x = do rest ← read_questions fuel (length qs); pure (x ∷ rest)
