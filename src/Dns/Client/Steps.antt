-- ===== src/Dns/Client/Steps.antt =====
-- The threads of the client, interleaved in any order.
use gis.Base.{ℕ, Option, some, ◌≡◌}
use gis.Bytes.{Bytes}
use gis.Dns.Protocol.Types.{DnsPacket}
use gis.Dns.Client.{
  NetworkClient, Socket, count_sent, on_datagram, on_timeout, receive, register, reset_seq, take_id,
}

-- The first four are those of a thread that asks.
pub data Step : NetworkClient → NetworkClient → Type 0 where
  counted : (c : NetworkClient) → Step c (count_sent c)
  numbered : (c : NetworkClient) → Step c (take_id c).1
  reset : (id : ℕ) (c : NetworkClient) → Step c (reset_seq id c)
  registered : (now id : ℕ) (c : NetworkClient) → Step c (register now id c).1
  answered :
      (tx : ℕ) (c d : NetworkClient) (message : Option DnsPacket)
      → receive tx c ≡ some (message, d)
      → Step c d
  datagram :
      (fuel : ℕ) (socket : Socket) (bytes : Bytes) (c : NetworkClient)
      → Step c (on_datagram fuel socket bytes c)
  timeout : (now : ℕ) (c : NetworkClient) → Step c (on_timeout now c)

pub data Reach (c : NetworkClient) : NetworkClient → Type 0 where
  start : Reach c c
  later : {d e : NetworkClient} → Reach c d → Step d e → Reach c e
