-- ===== src/Dns/Protocol/Header.antt =====
-- `DnsHeader::write` and `read`, and `DnsQuestion`.
use gis.Base.{ℕ, ◌+◌, ◌*◌, ◌/◌, ◌%◌, Bool, true, false, List, [], ◌∷◌, ltb, length, bit_and, bit_or}
use gis.Bytes.{Text}
use gis.Dns.Buffer.{
  PacketBuffer, M, pure, ◌>>=◌, ◌>>◌, write_u8, write_u16, write_qname, read_u16, read_qname,
  split_dots,
}
use gis.Dns.Protocol.Types.{DnsHeader, DnsQuestion, to_num, from_num, rescode_num, rescode_from_num}

abbrev pub bit : Bool → ℕ
bit true = 1
bit false = 0

-- `opcode << 3` on a byte drops what leaves it.
unfoldable pub flags_high : DnsHeader → ℕ
flags_high h =
    bit_or
      (bit_or
        (bit_or (bit_or (bit h.recursion_desired) (bit h.truncated_message * 2))
          (bit h.authoritative_answer * 4))
        (h.opcode * 8 % 256))
      (bit h.response * 128)

unfoldable pub flags_low : DnsHeader → ℕ
flags_low h =
    bit_or
      (bit_or
        (bit_or (bit_or (rescode_num h.rescode) (bit h.checking_disabled * 16))
          (bit h.authed_data * 32))
        (bit h.z * 64))
      (bit h.recursion_available * 128)

abbrev pub has_bit : ℕ → ℕ → Bool
has_bit x mask = ltb 0 (bit_and x mask)

-- The fields that `read` takes from the two bytes of flags.
unfoldable pub set_flags : ℕ → ℕ → DnsHeader → DnsHeader
set_flags high low h = record h {
  recursion_desired = has_bit high 1;
  truncated_message = has_bit high 2;
  authoritative_answer = has_bit high 4;
  opcode = bit_and (high / 8) 0x0F;
  response = has_bit high 128;
  rescode = rescode_from_num (bit_and low 0x0F);
  checking_disabled = has_bit low 16;
  authed_data = has_bit low 32;
  z = has_bit low 64;
  recursion_available = has_bit low 128;
}

module _ {B : Type 0} ⦃p : PacketBuffer B⦄ where
  unfoldable pub write_header : DnsHeader → M B (Unit {0})
  write_header h = do
    write_u16 h.id
    write_u8 (flags_high h)
    write_u8 (flags_low h)
    write_u16 h.questions
    write_u16 h.answers
    write_u16 h.authoritative_entries
    write_u16 h.resource_entries

  unfoldable pub read_header : DnsHeader → M B DnsHeader
  read_header h = do
    id ← read_u16
    flags ← read_u16
    questions ← read_u16
    answers ← read_u16
    authoritative_entries ← read_u16
    resource_entries ← read_u16
    let h' = set_flags (flags / 256) (flags % 256) h
    pure (record h' {
      id = id;
      questions = questions;
      answers = answers;
      authoritative_entries = authoritative_entries;
      resource_entries = resource_entries;
    })

  unfoldable pub write_question : DnsQuestion → M B (Unit {0})
  write_question q = do write_qname q.name; write_u16 (to_num q.qtype); write_u16 1

  unfoldable pub read_question : ℕ → DnsQuestion → M B DnsQuestion
  read_question fuel q = do
    name ← read_qname fuel q.name
    qtype ← read_u16
    class ← read_u16
    pure (record { name = name; qtype = from_num qtype })

-- `binary_len` of a header is 12, and of a question this.
abbrev label_lengths : List Text → ℕ
label_lengths [] = 1
label_lengths (l ∷ ls) = length l + 1 + label_lengths ls

unfoldable pub question_binary_len : DnsQuestion → ℕ
question_binary_len q = label_lengths (split_dots q.name)
