-- ===== src/Dns/Protocol/Packet.antt =====
-- `DnsPacket`: whole packets, and what the resolver reads of them.
use gis.Base.{
  ℕ, zero, suc, ◌+◌, ◌-◌, ◌%◌, ◌^◌, Bool, true, false, List, [], ◌∷◌, ◌++◌, Option, none, some, ltb,
  if◌then◌else◌, length, take, drop, get_elem?, any,
}
use gis.Bytes.{Text, is_empty, same_hash}
use gis.Dns.Buffer.{PacketBuffer, M, Result, ok, end_of_buffer, panic, stuck, pure, ◌>>=◌, ◌>>◌}
use gis.Dns.Buffer.Vector.{VectorPacketBuffer, vector_buffer}
use gis.Dns.Buffer.Vector
use gis.Dns.Protocol.Types.{
  DnsHeader, DnsQuestion, DnsRecord, DnsPacket, Ipv4Addr, QueryType, new_packet,
}
use gis.Dns.Protocol.Record
use gis.Dns.Protocol.Header.{
  write_header, read_header, write_question, read_question, question_binary_len,
}

-- `str::ends_with`.
unfoldable pub ends_with : Text → Text → Bool
ends_with s suffix =
    if ltb (length s) (length suffix)
    then false
    else same_hash (drop (length s - length suffix) s) suffix

module _ {B : Type 0} ⦃p : PacketBuffer B⦄ where
  unfoldable pub read_questions : ℕ → ℕ → M B (List DnsQuestion)
  read_questions fuel zero = pure []
  read_questions fuel (suc n) = do
    q ← read_question fuel (record { name = []; qtype = QueryType.unknown 0 })
    qs ← read_questions fuel n
    pure (q ∷ qs)

  unfoldable pub read_records : ℕ → ℕ → M B (List DnsRecord)
  read_records fuel zero = pure []
  read_records fuel (suc n) = do
    rec ← Record.read fuel
    recs ← read_records fuel n
    pure (rec ∷ recs)

  unfoldable pub from_buffer : ℕ → M B DnsPacket
  from_buffer fuel = do
    header ← read_header new_packet.header
    questions ← read_questions fuel header.questions
    answers ← read_records fuel header.answers
    authorities ← read_records fuel header.authoritative_entries
    resources ← read_records fuel header.resource_entries
    pure (record {
      header = header;
      questions = questions;
      answers = answers;
      authorities = authorities;
      resources = resources;
    })

  unfoldable pub write_questions : List DnsQuestion → M B (Unit {0})
  write_questions [] = pure tt
  write_questions (q ∷ qs) = do write_question q; write_questions qs

  unfoldable pub write_records : List DnsRecord → M B (Unit {0})
  write_records [] = pure tt
  write_records (rec ∷ recs) = do size ← Record.write rec; write_records recs

abbrev pub questions_len : List DnsQuestion → ℕ
questions_len [] = 0
questions_len (q ∷ qs) = question_binary_len q + questions_len qs

-- The counter that the record of index `i` adds to. A counter is a `u16`.
abbrev pub count_record : ℕ → ℕ → ℕ → DnsHeader → DnsHeader
count_record answers authorities i h =
    if ltb i answers
    then record h { answers = (h.answers + 1) % 2 ^ 16 }
    else if ltb i (answers + authorities)
    then record h { authoritative_entries = (h.authoritative_entries + 1) % 2 ^ 16 }
    else record h { resource_entries = (h.resource_entries + 1) % 2 ^ 16 }

-- The loop of `write` that sizes the records in the scratch buffer: the header that it leaves, and
-- how many records fit.
unfoldable pub fit_records :
    ℕ → ℕ → ℕ → ℕ → ℕ → DnsHeader → List DnsRecord → M VectorPacketBuffer (DnsHeader × ℕ)
fit_records max_size answers authorities i size h [] = pure (h, i)
fit_records max_size answers authorities i size h (rec ∷ recs) = do
  n ← Record.write rec
  elim (ltb max_size (size + n)) [
    | true ↦ pure (record h { truncated_message = true }, i)
    | false ↦
        fit_records max_size answers authorities (i + 1) (size + n)
          (count_record answers authorities i h) recs
  ]

abbrev pub all_records : DnsPacket → List DnsRecord
all_records packet = packet.answers ++ (packet.authorities ++ packet.resources)

-- What `write` finds out on the scratch buffer.
unfoldable pub plan : DnsPacket → ℕ → M VectorPacketBuffer (DnsHeader × ℕ)
plan packet max_size = do
  write_questions packet.questions
  fit_records max_size (length packet.answers) (length packet.authorities) 0
      (12 + questions_len packet.questions) packet.header (all_records packet)

-- What `write` does with that. It gives back the packet too, whose header it has changed.
module _ {B : Type 0} ⦃p : PacketBuffer B⦄ where
  unfoldable pub send :
      DnsPacket → Result ((DnsHeader × ℕ) × VectorPacketBuffer) → B → Result (DnsPacket × B)
  send packet (ok ((h, record_count), scratch)) =
      let header : DnsHeader = record h { questions = length packet.questions % 2 ^ 16 } in
      (do
        write_header header
        write_questions packet.questions
        write_records (take record_count (all_records packet))
        pure (record packet { header = header }))
  send packet end_of_buffer = λ buffer. end_of_buffer
  send packet panic = λ buffer. panic
  send packet stuck = λ buffer. stuck

  unfoldable pub write : DnsPacket → ℕ → B → Result (DnsPacket × B)
  write packet max_size = send packet (plan packet max_size Vector.new)

unfoldable pub get_ttl_from_soa : List DnsRecord → Option ℕ
get_ttl_from_soa [] = none
get_ttl_from_soa (DnsRecord.soa _ _ _ _ _ _ _ minimum _ ∷ _) = some minimum
get_ttl_from_soa (_ ∷ recs) = get_ttl_from_soa recs

-- `random` is the number that `random::<usize>()` gives.
abbrev as_a : Option DnsRecord → Option Ipv4Addr
as_a (some (DnsRecord.a _ addr _)) = some addr
as_a _ = none

unfoldable pub get_random_a : ℕ → DnsPacket → Option Ipv4Addr
get_random_a random packet =
    if is_empty packet.answers
    then none
    else as_a (get_elem? packet.answers (random % length packet.answers))

abbrev is_a_of : Text → DnsRecord → Bool
is_a_of host (DnsRecord.a domain _ _) = same_hash domain host
is_a_of host _ = false

-- Whether an answer is a CNAME whose target an A record among the answers resolves.
unfoldable pub is_matched : List DnsRecord → DnsRecord → Bool
is_matched answers (DnsRecord.cname _ host _) = any (is_a_of host) answers
is_matched answers _ = false

abbrev keep_unmatched : List DnsRecord → List DnsRecord → List DnsRecord
keep_unmatched answers [] = []
keep_unmatched answers (rec ∷ recs) =
    let rest = keep_unmatched answers recs in if is_matched answers rec then rest else rec ∷ rest

unfoldable pub get_unresolved_cnames : DnsPacket → List DnsRecord
get_unresolved_cnames packet = keep_unmatched packet.answers packet.answers

-- The addresses of `host` among the resources.
unfoldable pub glue : Text → List DnsRecord → List Ipv4Addr
glue host [] = []
glue host (DnsRecord.a domain addr _ ∷ recs) =
    let rest = glue host recs in if same_hash domain host then addr ∷ rest else rest
glue host (_ ∷ recs) = glue host recs

-- The hosts of the name servers of `qname`.
unfoldable pub ns_hosts : Text → List DnsRecord → List Text
ns_hosts qname [] = []
ns_hosts qname (DnsRecord.ns domain host _ ∷ recs) =
    let rest = ns_hosts qname recs in if ends_with qname domain then host ∷ rest else rest
ns_hosts qname (_ ∷ recs) = ns_hosts qname recs

abbrev glue_all : List DnsRecord → List Text → List Ipv4Addr
glue_all resources [] = []
glue_all resources (host ∷ hosts) = glue host resources ++ glue_all resources hosts

unfoldable pub get_resolved_ns : ℕ → Text → DnsPacket → Option Ipv4Addr
get_resolved_ns random qname packet =
    let found = glue_all packet.resources (ns_hosts qname packet.authorities) in
    if is_empty found then none else get_elem? found (random % length found)

unfoldable pub get_unresolved_ns : ℕ → Text → DnsPacket → Option Text
get_unresolved_ns random qname packet =
    let found = ns_hosts qname packet.authorities in
    if is_empty found then none else get_elem? found (random % length found)
