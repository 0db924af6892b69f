-- ===== src/Dns/Client.antt =====
-- src/dns/client.rs: `DnsNetworkClient`, whose threads share the list of pending queries. A function
-- here is what one thread does between two others.
pub mod Steps
pub mod Once
pub mod Poison
use gis.Base.{
  ℕ, ◌+◌, ◌%◌, ◌^◌, Bool, true, false, ◌&&◌, List, [], ◌∷◌, ◌++◌, Option, none, some, ltb, ◌==◌,
  if◌then◌else◌, add64, take,
}
use gis.Bytes.{Bytes, Text, is_empty}
use gis.Dns.Buffer.{Result, ok, end_of_buffer, panic, stuck}
use gis.Dns.Buffer.Fixed.{BytePacketBuffer, byte_buffer}
use gis.Dns.Protocol.Packet.{from_buffer}
use gis.P2p.Network.Stream.{zeros}
use gis.Dns.Protocol.Types.{DnsPacket, QueryType, new_header, new_packet}

-- `tx` is the number of the channel. A time is in milliseconds.
pub record PendingQuery : Type 0 where
  pub seq : ℕ
  pub timestamp : ℕ
  pub tx : ℕ

-- The two receiving threads.
pub data Socket : Type 0 where
  ipv4 ipv6 : Socket

-- With the fields of the source: whether the lock of the list is poisoned, whether each receiving
-- thread runs, how many channels there have been, and what was sent over them.
pub record NetworkClient : Type 0 where
  pub total_sent : ℕ
  pub total_failed : ℕ
  pub seq : ℕ
  pub pending_queries : List PendingQuery
  pub poisoned : Bool
  pub running : Socket → Bool
  pub channels : ℕ
  pub messages : List (ℕ × Option DnsPacket)

abbrev pub new_client : NetworkClient
new_client = record {
  total_sent = 0;
  total_failed = 0;
  seq = 0;
  pending_queries = [];
  poisoned = false;
  running = λ socket. true;
  channels = 0;
  messages = [];
}

unfoldable pub count_sent : NetworkClient → NetworkClient
count_sent c = record c { total_sent = add64 c.total_sent 1 }

-- `fetch_add` on the counter, whose low bits are the id, and the `compare_exchange` behind it.
unfoldable pub take_id : NetworkClient → ℕ × NetworkClient
take_id c = (c.seq % 2 ^ 16, record c { seq = add64 c.seq 1 })

unfoldable pub reset_seq : ℕ → NetworkClient → NetworkClient
reset_seq id c = if (id + 1) % 2 ^ 16 == 0xFFFF && c.seq == 0xFFFF then record c { seq = 0 } else c

-- Both, when no other thread asks in between.
unfoldable pub next_id : NetworkClient → ℕ × NetworkClient
next_id c = let (id, c') = take_id c in (id, reset_seq id c')

unfoldable pub query_packet : ℕ → Text → QueryType → Bool → DnsPacket
query_packet id qname qtype desired = record new_packet {
  header = record new_header { id = id; questions = 1; recursion_desired = desired };
  questions = record { name = qname; qtype = qtype } ∷ [];
}

-- The channel of a new query, or `none` for `PoisonedLock`.
unfoldable pub register : ℕ → ℕ → NetworkClient → Option ℕ × NetworkClient
register now id c = if c.poisoned then (none, c) else (
  some c.channels,
  record c {
    pending_queries =
        c.pending_queries ++ (record { seq = id; timestamp = now; tx = c.channels } ∷ []);
    channels = c.channels + 1;
  },
)

-- The first query with the id, and the others.
unfoldable pub find_query : ℕ → List PendingQuery → Option PendingQuery
find_query id [] = none
find_query id (q ∷ qs) = if q.seq == id then some q else find_query id qs

unfoldable pub remove_query : ℕ → List PendingQuery → List PendingQuery
remove_query id [] = []
remove_query id (q ∷ qs) = if q.seq == id then qs else q ∷ remove_query id qs

unfoldable pub stop : Socket → (Socket → Bool) → Socket → Bool
stop Socket.ipv4 running Socket.ipv4 = false
stop Socket.ipv4 running Socket.ipv6 = running Socket.ipv6
stop Socket.ipv6 running Socket.ipv4 = running Socket.ipv4
stop Socket.ipv6 running Socket.ipv6 = false

-- The report of a response to no query reads its first question: without one the thread panics, and
-- poisons the lock that it holds.
unfoldable pub discard : Socket → DnsPacket → NetworkClient → NetworkClient
discard socket packet c =
    if is_empty packet.questions
    then record c { poisoned = true; running = stop socket c.running }
    else c

unfoldable pub deliver : Socket → DnsPacket → Option PendingQuery → NetworkClient → NetworkClient
deliver socket packet none c = discard socket packet c
deliver socket packet (some q) c = record c {
  pending_queries = remove_query packet.header.id c.pending_queries;
  messages = (q.tx, some packet) ∷ c.messages;
}

unfoldable pub on_packet : Socket → DnsPacket → NetworkClient → NetworkClient
on_packet socket packet c =
    if c.poisoned
    then c
    else deliver socket packet (find_query packet.header.id c.pending_queries) c

-- What `from_buffer` makes of a datagram. A packet whose reading panics, or goes on for ever, is the
-- thread's last.
unfoldable pub on_parsed :
    Socket → Result (DnsPacket × BytePacketBuffer) → NetworkClient → NetworkClient
on_parsed socket (ok (packet, rest)) c = on_packet socket packet c
on_parsed socket end_of_buffer c = c
on_parsed socket panic c = record c { running = stop socket c.running }
on_parsed socket stuck c = record c { running = stop socket c.running }

-- The buffer that a datagram is received in.
unfoldable pub datagram_buffer : Bytes → BytePacketBuffer
datagram_buffer bytes = record { buf = take 512 (bytes ++ zeros 512); pos = 0 }

-- A round of a receiving thread.
unfoldable pub on_datagram : ℕ → Socket → Bytes → NetworkClient → NetworkClient
on_datagram fuel socket bytes c =
    if c.running socket then on_parsed socket (from_buffer fuel (datagram_buffer bytes)) c else c

-- A round of the thread for timeouts.
unfoldable pub has_expired : ℕ → PendingQuery → Bool
has_expired now q = ltb (q.timestamp + 10000) now

unfoldable pub keep_fresh : ℕ → List PendingQuery → List PendingQuery
keep_fresh now [] = []
keep_fresh now (q ∷ qs) =
    let rest = keep_fresh now qs in if has_expired now q then rest else q ∷ rest

unfoldable pub timed_out : ℕ → List PendingQuery → List (ℕ × Option DnsPacket)
timed_out now [] = []
timed_out now (q ∷ qs) =
    let rest = timed_out now qs in if has_expired now q then (q.tx, none) ∷ rest else rest

unfoldable pub on_timeout : ℕ → NetworkClient → NetworkClient
on_timeout now c = if c.poisoned then c else record c {
  pending_queries = keep_fresh now c.pending_queries;
  messages = timed_out now c.pending_queries ++ c.messages;
}

-- `rx.recv()` of the thread that asked: `none` while there is no message.
unfoldable pub find_message : ℕ → List (ℕ × Option DnsPacket) → Option (Option DnsPacket)
find_message tx [] = none
find_message tx ((t, message) ∷ messages) =
    if t == tx then some message else find_message tx messages

-- A timeout is counted.
unfoldable pub take_message :
    Option (Option DnsPacket) → NetworkClient → Option (Option DnsPacket × NetworkClient)
take_message none c = none
take_message (some (some packet)) c = some (some packet, c)
take_message (some none) c = some (none, record c { total_failed = add64 c.total_failed 1 })

unfoldable pub receive : ℕ → NetworkClient → Option (Option DnsPacket × NetworkClient)
receive tx c = take_message (find_message tx c.messages) c

-- `send_query`, over the transports: a truncated response is asked for again.
unfoldable pub send_query : Option DnsPacket → Option DnsPacket → Option DnsPacket
send_query none tcp = none
send_query (some packet) tcp = if packet.header.truncated_message then tcp else some packet
