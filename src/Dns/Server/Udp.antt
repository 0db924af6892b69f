-- ===== src/Dns/Server/Udp.antt =====
-- `DnsUdpServer` of src/dns/server.rs: a thread that takes in requests, and those that answer them. A
-- query is answered in one step here.
pub mod Backlog
use gis.Base.{
  ℕ, zero, suc, ◌+◌, Bool, true, false, List, [], ◌∷◌, ◌++◌, Option, none, some, ◌==◌, length,
  if◌then◌else◌, ◌≡◌,
}
use gis.Bytes.{Bytes}
use gis.Dns.Buffer.{M, Result, ok, end_of_buffer, panic, stuck, ◌>>=◌}
use gis.Dns.Buffer.Vector
use gis.Dns.Buffer.Vector.{VectorPacketBuffer, vector_buffer}
use gis.Dns.Protocol.Types.{DnsPacket, DnsRecord}
use gis.Dns.Protocol.Packet.{write}
use gis.Dns.Resolve.{ResolverState, ServerContext}
use gis.Dns.Server.{execute_query}
use gis.P2p.Addr.{SocketAddr}

-- The size that the client allows: EDNS, in the one additional record.
unfoldable pub size_limit : List DnsRecord → ℕ
size_limit (DnsRecord.opt packet_len flags content ∷ []) = packet_len
size_limit _ = 512

unfoldable pub ranged :
    ResolverState → Result (Bytes × VectorPacketBuffer) → Result (Option Bytes × ResolverState)
ranged s (ok (bytes, buffer)) = ok (some bytes, s)
ranged s end_of_buffer = end_of_buffer
ranged s panic = panic
ranged s stuck = stuck

-- The bytes that go out. An error of `write` is ignored, and then they are what it had written, which
-- is not modelled: `none`.
unfoldable pub datagram_of :
    Result (DnsPacket × VectorPacketBuffer) → ResolverState → Result (Option Bytes × ResolverState)
datagram_of (ok (packet, buffer)) s = ranged s (Vector.get_range 0 buffer.pos buffer)
datagram_of end_of_buffer s = ok (none, s)
datagram_of panic s = panic
datagram_of stuck s = stuck

unfoldable pub respond : ServerContext → ℕ → DnsPacket → M ResolverState (Option Bytes)
respond ctx fuel request = do
  packet ← execute_query ctx fuel request
  datagram_of (write packet (size_limit request.resources) Vector.new)

-- Where a thread stands: before the lock, waiting on the condition, woken, with a request, or ended.
pub data Worker : Type 0 where
  ready waiting woken ended : Worker
  busy : SocketAddr → DnsPacket → Worker

-- `replies` are the datagrams that were sent.
pub record UdpServer : Type 0 where
  pub request_queue : List (SocketAddr × DnsPacket)
  pub workers : List Worker
  pub resolver : ResolverState
  pub replies : List (SocketAddr × Option Bytes)

-- One worker goes on to another place.
pub data Advances (w w' : Worker) : List Worker → List Worker → Type 0 where
  here : {ws : List Worker} → Advances w w' (w ∷ ws) (w' ∷ ws)
  there :
      {x : Worker} {ws ws' : List Worker} → Advances w w' ws ws' → Advances w w' (x ∷ ws) (x ∷ ws')

abbrev pub total : (Worker → ℕ) → List Worker → ℕ
total f [] = 0
total f (w ∷ ws) = f w + total f ws

abbrev pub is_waiting : Worker → ℕ
is_waiting Worker.waiting = 1
is_waiting _ = 0

-- What is counted: a request that comes in, and a wake-up that no request caused.
pub data ServerEvent : Type 0 where
  usual arrival spurious : ServerEvent

-- A response that cannot be sent ends its thread, since `ignore_or_report` returns from it.
pub data Step (ctx : ServerContext) (fuel : ℕ) : ServerEvent → UdpServer → UdpServer → Type 0 where
  queued :
      (src : SocketAddr) (request : DnsPacket) (s : UdpServer)
      → total is_waiting s.workers ≡ 0
      → Step ctx fuel ServerEvent.arrival s
          (record s { request_queue = s.request_queue ++ ((src, request) ∷ []) })
  notified :
      (src : SocketAddr) (request : DnsPacket) (s : UdpServer) (ws : List Worker)
      → Advances Worker.waiting Worker.woken s.workers ws
      → Step ctx fuel ServerEvent.arrival s
          (record s { request_queue = s.request_queue ++ ((src, request) ∷ []); workers = ws })
  settled :
      (s : UdpServer) (ws : List Worker)
      → Advances Worker.ready Worker.waiting s.workers ws
      → Step ctx fuel ServerEvent.usual s (record s { workers = ws })
  woken_up :
      (s : UdpServer) (ws : List Worker)
      → Advances Worker.waiting Worker.woken s.workers ws
      → Step ctx fuel ServerEvent.spurious s (record s { workers = ws })
  popped :
      (src : SocketAddr) (request : DnsPacket) (rest : List (SocketAddr × DnsPacket))
      → (s : UdpServer) (ws : List Worker) → s.request_queue ≡ (src, request) ∷ rest
      → Advances Worker.woken (Worker.busy src request) s.workers ws
      → Step ctx fuel ServerEvent.usual s (record s { request_queue = rest; workers = ws })
  found_none :
      (s : UdpServer) (ws : List Worker)
      → s.request_queue ≡ []
      → Advances Worker.woken Worker.ready s.workers ws
      → Step ctx fuel ServerEvent.usual s (record s { workers = ws })
  replied :
      (src : SocketAddr) (request : DnsPacket) (bytes : Option Bytes) (r : ResolverState)
      → (s : UdpServer) (ws : List Worker) → respond ctx fuel request s.resolver ≡ ok (bytes, r)
      → Advances (Worker.busy src request) Worker.ready s.workers ws
      → Step ctx fuel ServerEvent.usual s
          (record s { workers = ws; resolver = r; replies = (src, bytes) ∷ s.replies })
  not_sent :
      (src : SocketAddr) (request : DnsPacket) (bytes : Option Bytes) (r : ResolverState)
      → (s : UdpServer) (ws : List Worker) → respond ctx fuel request s.resolver ≡ ok (bytes, r)
      → Advances (Worker.busy src request) Worker.ended s.workers ws
      → Step ctx fuel ServerEvent.usual s (record s { workers = ws; resolver = r })
  panicked :
      (src : SocketAddr) (request : DnsPacket) (s : UdpServer) (ws : List Worker)
      → respond ctx fuel request s.resolver ≡ panic
      → Advances (Worker.busy src request) Worker.ended s.workers ws
      → Step ctx fuel ServerEvent.usual s (record s { workers = ws })

abbrev pub spurious_of : ServerEvent → ℕ
spurious_of ServerEvent.spurious = 1
spurious_of _ = 0

abbrev pub arrivals_of : ServerEvent → ℕ
arrivals_of ServerEvent.arrival = 1
arrivals_of _ = 0

-- The steps from a server on, with how many of them were spurious wake-ups and arrivals.
pub data Reach (ctx : ServerContext) (fuel : ℕ) (s : UdpServer) : ℕ → ℕ → UdpServer → Type 0 where
  start : Reach ctx fuel s 0 0 s
  later :
      {wakes arrivals : ℕ} {t u : UdpServer} (e : ServerEvent)
      → Reach ctx fuel s wakes arrivals t
      → Step ctx fuel e t u
      → Reach ctx fuel s (wakes + spurious_of e) (arrivals + arrivals_of e) u
