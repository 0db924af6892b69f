-- ===== src/Dns/Protocol/Sent.antt =====
-- What `DnsPacket::write` sends of a packet: its first records, and a header that counts them.
use gis.Base.{
  ℕ, ◌-◌, ◌%◌, ◌^◌, ◌<◌, ◌≤◌, Bool, List, ◌++◌, ◌≡◌, refl, ap, ◌∙◌, arith, length, take, map, ltb,
  length-append,
}
use gis.Dns.Protocol.Types.{DnsHeader, DnsRecord, DnsPacket}
use gis.Dns.Protocol.Packet.{all_records}
use gis.Dns.Protocol.RoundTrip
use gis.Dns.Protocol.Written
use gis.Dns.Protocol.Sections.{take-append_both, length-take}
use gis.Dns.Protocol.Fitting.{counting, marked}
use gis.Dns.Protocol.Parts.{counted}

-- The first `n` records of a packet, by section.
module _ (packet : DnsPacket) (n : ℕ) where
  abbrev pub first_answers : List DnsRecord
  first_answers = take n packet.answers

  abbrev pub first_authorities : List DnsRecord
  first_authorities = take (n - length packet.answers) packet.authorities

  abbrev pub first_resources : List DnsRecord
  first_resources = take (n - length packet.answers - length packet.authorities) packet.resources

  -- The header that counts them, marked as truncated if there are more.
  abbrev pub sent : DnsHeader
  sent =
      counted (marked (ltb n (length (all_records packet))) packet.header) packet.questions
        first_answers first_authorities first_resources

  -- What is read back: the names in lower case.
  abbrev pub received : DnsPacket
  received = record {
    header = sent;
    questions = map RoundTrip.lowered packet.questions;
    answers = map Written.lowered first_answers;
    authorities = map Written.lowered first_authorities;
    resources = map Written.lowered first_resources;
  }

  pub take-all_records :
      take n (all_records packet) ≡ first_answers ++ (first_authorities ++ first_resources)
  take-all_records =
      take-append_both n packet.answers (packet.authorities ++ packet.resources)
      ∙ ap (λ l. first_answers ++ l)
          (take-append_both (n - length packet.answers) packet.authorities packet.resources)

  pub header-sent :
      (cut : Bool)
      → length packet.questions < 2 ^ 16
      → n ≤ length (all_records packet)
      → record (marked cut
          (counting (length packet.answers) (length packet.authorities) n packet.header)) {
            questions = length packet.questions % 2 ^ 16;
          }
        ≡ counted
            (marked cut packet.header)
            packet.questions
            first_answers
            first_authorities
            first_resources
  header-sent cut few le = rw (q, a, b, c) refl
    where
      q : length packet.questions % 2 ^ 16 ≡ length packet.questions
      q = omega arith

      a : length first_answers ≡ n - (n - length packet.answers)
      a = length-take n packet.answers

      b :
          length first_authorities
          ≡ (n - length packet.answers) - (n - length packet.answers - length packet.authorities)
      b = length-take (n - length packet.answers) packet.authorities

      c : length first_resources ≡ n - length packet.answers - length packet.authorities
      c = omega (
        arith,
        length-take (n - length packet.answers - length packet.authorities) packet.resources,
        length-append packet.answers (packet.authorities ++ packet.resources),
        length-append packet.authorities packet.resources,
      )
