-- ===== src/Dns/Tests.antt =====
-- The theorems on the DNS wire format, at concrete packets.
mod Caching
mod Resolving
mod Serving
use gis.Base.{ℕ, ◌+◌, length, ◌<◌, ◌≤◌, ◌⊎◌, true, false, List, [], ◌∷◌, ◌≡◌, refl, arith, map}
use gis.Bytes.{Text}
use gis.Dns.Buffer.{ok, stuck, split_dots, to_lowercase, write_qname, read_qname, read_labels}
use gis.Dns.Buffer.Vector.{VectorPacketBuffer, vector_buffer, lookup_label}
use gis.Dns.Buffer.Vector
use gis.Dns.Buffer.RoundTrip.{write_qname-read_qname}
use gis.Dns.Buffer.Writes.{IsTable}
use gis.Dns.Buffer.Fixed.{BytePacketBuffer, byte_buffer}
use gis.Dns.Buffer.Hang.{self_pointer_hangs}
use gis.Dns.Protocol.Types.{
  QueryType, DnsHeader, DnsQuestion, DnsPacket, new_header, to_num, from_num,
}
use gis.Dns.Protocol.Header.{flags_high, flags_low, set_flags}
use gis.Dns.Protocol.Packet.{questions_len, all_records, write, from_buffer}
use gis.Dns.Protocol.Codes.{to_num-from_num}
use gis.Dns.Protocol.Flags.{flags-set_flags, with_flags}
use gis.Dns.Protocol.RoundTrip.{lowered}
use gis.Dns.Protocol.Types.{DnsRecord}
use gis.Dns.Protocol.Record
use gis.Dns.Protocol.Records.{IsName}
use gis.Dns.Protocol.Written.{IsWritable, write-read}
use gis.Dns.Protocol.Written
use gis.Dns.Protocol.Sections.{records_size}
use gis.Dns.Protocol.Sent.{sent, received}
use gis.Dns.Protocol.Whole.{IsSendable, write-from_buffer}

-- `Ab.c` and `c`, of which the second is written as a pointer into the first.
abbrev long_name : Text
long_name = 65 ∷ 98 ∷ 46 ∷ 99 ∷ []

abbrev short_name : Text
short_name = 99 ∷ []

new-IsTable : IsTable Vector.new
unfolding lookup_label
new-IsTable name p found = absurd (ground arith)

write_qname-read_qname_example :
    (after : VectorPacketBuffer) × (write_qname long_name Vector.new ≡ ok (tt, after))
    × (read_qname 9 [] (record after { pos = 0 }) ≡ ok (to_lowercase long_name, after))
    × IsTable after
unfolding split_dots
write_qname-read_qname_example =
    write_qname-read_qname long_name 9 Vector.new refl new-IsTable
      ((omega arith, omega arith), ((omega arith, omega arith), tt)) (omega arith) (omega arith)

abbrev questions : List DnsQuestion
questions =
    record { name = long_name; qtype = QueryType.a }
    ∷ record { name = short_name; qtype = QueryType.aaaa }
    ∷ []

abbrev header : DnsHeader
header = record new_header { id = 7; opcode = 2; recursion_desired = true }

-- A reply of four sections, with a record of each of four types.
abbrev reply : DnsPacket
reply = record {
  header = header;
  questions = questions;
  answers = DnsRecord.cname long_name short_name 60 ∷ [];
  authorities = DnsRecord.soa short_name long_name short_name 1 2 3 4 5 60 ∷ [];
  resources =
      DnsRecord.aaaa short_name
        (record { s0 = 512; s1 = 0; s2 = 0; s3 = 0; s4 = 0; s5 = 0; s6 = 0; s7 = 1 }) 60
      ∷ DnsRecord.txt long_name short_name 60
      ∷ [];
}

short_name-IsName : IsName 30 short_name
unfolding split_dots
short_name-IsName = (((omega arith, omega arith), tt), omega arith)

long_name-IsName : IsName 30 long_name
unfolding split_dots
long_name-IsName = (((omega arith, omega arith), ((omega arith, omega arith), tt)), omega arith)

reply-IsSendable : IsSendable 30 reply
reply-IsSendable = record {
  no_answers = refl;
  no_authorities = refl;
  no_resources = refl;
  opcode = omega arith;
  are_questions = ((long_name-IsName.0, tt), ((short_name-IsName.0, tt), tt));
  enough = omega arith;
  answers = ((long_name-IsName, omega arith, short_name-IsName), tt);
  authorities = (
    (
      short_name-IsName,
      omega arith,
      long_name-IsName,
      short_name-IsName,
      (omega arith, omega arith, omega arith, omega arith, omega arith),
    ),
    tt,
  );
  resources = (
    (
      short_name-IsName,
      omega arith,
      (
        omega arith,
        omega arith,
        omega arith,
        omega arith,
        omega arith,
        omega arith,
        omega arith,
        omega arith,
      ),
    ),
    ((long_name-IsName, omega arith, omega arith), tt),
  );
  size = omega arith;
}

write-from_buffer_example :
    (n : ℕ) × (after : VectorPacketBuffer) × (n ≤ 4)
    × ((n ≡ 4) ⊎ (100 < 12 + questions_len questions + records_size (all_records reply)))
    × (write reply 100 Vector.new ≡ ok (record reply { header = sent reply n }, after))
    × (from_buffer 30 (record after { pos = 0 }) ≡ ok (received reply n, after))
write-from_buffer_example = write-from_buffer reply 30 100 reply-IsSendable

abbrev looping : BytePacketBuffer
looping = record { buf = 192 ∷ 0 ∷ []; pos = 0 }

self_pointer_hangs_example : read_labels 50 0 false [] [] looping ≡ stuck
self_pointer_hangs_example = self_pointer_hangs looping 50 0 false [] [] (omega arith) refl refl

abbrev server : DnsRecord
server = DnsRecord.ns long_name short_name 3600

server-IsWritable : IsWritable 9 server
unfolding split_dots
server-IsWritable = (
  (((omega arith, omega arith), ((omega arith, omega arith), tt)), omega arith),
  omega arith,
  (((omega arith, omega arith), tt), omega arith),
)

write-read_example :
    (n : ℕ) × (after : VectorPacketBuffer) × (Record.write server Vector.new ≡ ok (n, after))
    × (length after.buffer ≡ 0 + n)
    × (Record.read 9 (record after { pos = 0 }) ≡ ok (Written.lowered server, after))
    × IsTable after
write-read_example = write-read 9 server Vector.new refl new-IsTable server-IsWritable (omega arith)
