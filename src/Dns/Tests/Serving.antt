-- ===== src/Dns/Tests/Serving.antt =====
-- The theorems on the threads of the client and of the UDP server, at concrete runs.
use gis.Base.{ℕ, ◌+◌, ◌≤◌, false, [], ◌∷◌, some, length, ◌≡◌, refl}
use gis.Bytes.{Bytes}
use gis.Dns.Buffer.{ok}
use gis.Dns.Buffer.Fixed.{BytePacketBuffer, byte_buffer}
use gis.Dns.Protocol.Types.{DnsPacket, Ipv4Addr, new_packet}
use gis.Dns.Protocol.Packet.{from_buffer}
use gis.Dns.Client.{
  NetworkClient, Socket, datagram_buffer, find_query, new_client, on_datagram, on_timeout, register,
}
use gis.Dns.Client.Steps as Client
use gis.Dns.Client.Once.{IsOnce, Reach-IsOnce}
use gis.Dns.Client.Poison.{on_datagram_silences}
use gis.Dns.Resolve.{ServerContext}
use gis.Dns.Server.Udp.{
  ServerEvent, Advances, Reach, Step, UdpServer, Worker, here, later, not_sent, notified, popped,
  respond, total,
}
use gis.Dns.Server.Udp as Udp
use gis.Dns.Server.Udp.Backlog.{Reach-backlog, Reach-ended, is_alive}
use gis.Dns.Tests.Resolving.{ctx, request, start}
use gis.P2p.Addr.{IpAddr, SocketAddr}

-- A client with one query, whose id is 7.
abbrev asked : NetworkClient
asked = record new_client {
  pending_queries = record { seq = 7; timestamp = 5; tx = 0 } ∷ [];
  channels = 1;
}

-- An empty datagram leaves the buffer full of zeros, and those are a packet with no question.
abbrev empty_rest : BytePacketBuffer
empty_rest = record (datagram_buffer []) { pos = 12 }

-- The lines that let the code run.
runs : ℕ
unfolding from_buffer gis.Dns.Protocol.Header.read_header gis.Dns.Buffer.read_u16
    gis.Dns.Buffer.Fixed.read datagram_buffer gis.P2p.Network.Stream.zeros
    gis.Dns.Protocol.Packet.read_questions gis.Dns.Protocol.Packet.read_records
    gis.Dns.Protocol.Header.set_flags gis.Dns.Protocol.Types.rescode_from_num find_query
runs = 0

on_datagram_silences_example : (on_timeout 20000 (on_datagram 1 Socket.ipv4 [] asked)).messages ≡ []
unfolding runs
on_datagram_silences_example =
    (on_datagram_silences asked 1 Socket.ipv4 [] new_packet empty_rest refl refl refl refl refl
      (on_timeout 20000 (on_datagram 1 Socket.ipv4 [] asked))
      (Client.later Client.start (Client.timeout 20000 (on_datagram 1 Socket.ipv4 [] asked)))).0

-- The query runs out of its time.
Reach-IsOnce_example : IsOnce (on_timeout 20000 (register 5 7 new_client).1)
Reach-IsOnce_example = Reach-IsOnce (
    Client.later (Client.later Client.start (Client.registered 5 7 new_client))
      (Client.timeout 20000 (register 5 7 new_client).1))

abbrev src : SocketAddr
src = record {
  ip = IpAddr.v4 (record { o0 = 10; o1 = 0; o2 = 0; o3 = 9 });
  port = 0;
  flowinfo = 0;
  scope_id = 0;
}

-- One thread, which waits, and a request in the queue that came while it did not.
abbrev behind : UdpServer
behind = record {
  request_queue = (src, request) ∷ [];
  workers = Worker.waiting ∷ [];
  resolver = start;
  replies = [];
}

abbrev caught : UdpServer
caught = record behind { workers = Worker.busy src request ∷ [] }

Reach-backlog_example : 1 ≤ length caught.request_queue + 0
Reach-backlog_example = Reach-backlog ctx 0 behind caught 0 1 refl (
    later ServerEvent.usual
      (later ServerEvent.arrival Udp.start (notified src request behind (Worker.woken ∷ []) here))
      (popped src request ((src, request) ∷ [])
        (record behind {
          request_queue = (src, request) ∷ (src, request) ∷ [];
          workers = Worker.woken ∷ [];
        })
        (Worker.busy src request ∷ []) refl here))

abbrev closed : ServerContext
closed = record ctx { allow_recursive = false }

abbrev refusal : Bytes
refusal = 0 ∷ 9 ∷ 129 ∷ 5 ∷ 0 ∷ 0 ∷ 0 ∷ 0 ∷ 0 ∷ 0 ∷ 0 ∷ 0 ∷ []

refuses : respond closed 0 request start ≡ ok (some refusal, start)
unfolding runs respond gis.Dns.Server.execute_query Udp.datagram_of gis.Dns.Protocol.Packet.write
    gis.Dns.Protocol.Packet.send gis.Dns.Protocol.Packet.plan
    gis.Dns.Protocol.Packet.write_questions gis.Dns.Protocol.Packet.fit_records
    gis.Dns.Server.all_answers gis.Dns.Server.all_authorities gis.Dns.Server.all_resources
    gis.Dns.Protocol.Header.write_header gis.Dns.Buffer.write_u16 gis.Dns.Buffer.Vector.write
    gis.Dns.Buffer.write_u8 gis.Dns.Protocol.Packet.write_records Udp.ranged
    gis.Dns.Buffer.Vector.get_range gis.Dns.Protocol.Header.flags_high
    gis.Dns.Protocol.Header.flags_low gis.Dns.Protocol.Types.rescode_num
refuses = refl

abbrev over : UdpServer
over = record caught { request_queue = []; workers = Worker.ended ∷ [] }

-- The one thread has ended, and the next request stays in the queue.
abbrev unanswered : UdpServer
unanswered = record over { request_queue = (src, request) ∷ [] }

Reach-ended_example : (total is_alive over.workers ≡ 0) × (unanswered.replies ≡ over.replies)
Reach-ended_example =
    Reach-ended closed 0 (record caught { request_queue = [] }) over unanswered 0 0 0 1
      (later ServerEvent.usual Udp.start (
        not_sent src request (some refusal) start (record caught { request_queue = [] })
          (Worker.ended ∷ []) refuses here))
      refl (later ServerEvent.arrival Udp.start (Udp.queued src request over refl))
