-- ===== src/Dns/Client/Poison.antt =====
-- A panic under the lock, and the ids of queries.
use gis.Base.{
  if_case, ℕ, ◌+◌, ◌%◌, ◌^◌, ◌<◌, true, false, ◌&&◌, [], Option, none, some, ◌==◌, ◌≡◌, refl, sym,
  ap, subst, ◌∙◌, arith,
}
use gis.Bytes.{Bytes, is_empty}
use gis.Dns.Buffer.{Result, ok, end_of_buffer, panic, stuck}
use gis.Dns.Buffer.Fixed.{BytePacketBuffer, byte_buffer}
use gis.Dns.Protocol.Types.{DnsPacket}
use gis.Dns.Protocol.Packet.{from_buffer}
use gis.Dns.Client.{
  NetworkClient, Socket, count_sent, datagram_buffer, deliver, discard, find_message, find_query,
  next_id, on_datagram, take_message, on_parsed, on_packet, on_timeout, receive, register,
  reset_seq, take_id,
}
use gis.Dns.Client.Steps.{
  Reach, Step, answered, counted, datagram, later, numbered, registered, reset, start, timeout,
}

-- Poisoned, and no message but those that were sent before.
Silent : NetworkClient → NetworkClient → Type 0
Silent c d = (d.poisoned ≡ true) × (d.messages ≡ c.messages)

on_parsed-Silent :
    (socket : Socket) (parsed : Result (DnsPacket × BytePacketBuffer)) (c : NetworkClient)
    → c.poisoned ≡ true
    → Silent c (on_parsed socket parsed c)
unfolding Silent on_parsed on_packet
on_parsed-Silent socket (ok (packet, rest)) c h =
    if_case (Silent c) c.poisoned (λ _. (h, refl)) (λ n. absurd (ground arith))
on_parsed-Silent socket end_of_buffer c h = (h, refl)
on_parsed-Silent socket panic c h = (h, refl)
on_parsed-Silent socket stuck c h = (h, refl)

take_message-Silent :
    (m : Option (Option DnsPacket)) (c d : NetworkClient) (message : Option DnsPacket)
    → c.poisoned ≡ true
    → take_message m c ≡ some (message, d)
    → Silent c d
unfolding Silent take_message
take_message-Silent none c d message h e = absurd (ground arith)
take_message-Silent (some (some packet)) c d message h e = ground arith
take_message-Silent (some none) c d message h e = ground arith

Step-Silent : {c d : NetworkClient} → Step c d → c.poisoned ≡ true → Silent c d
unfolding Silent count_sent take_id reset_seq register receive on_datagram on_timeout
Step-Silent (counted c) h = (h, refl)
Step-Silent (numbered c) h = (h, refl)
Step-Silent (reset id c) h =
    if_case (Silent c) ((id + 1) % 2 ^ 16 == 0xFFFF && c.seq == 0xFFFF) (λ _. (h, refl))
      (λ _. (h, refl))
Step-Silent (registered now id c) h =
    if_case (λ (r : Option ℕ × NetworkClient). Silent c r.1) c.poisoned (λ _. (h, refl))
      (λ n. absurd (ground arith))
Step-Silent (answered tx c d message e) h =
    take_message-Silent (find_message tx c.messages) c d message h e
Step-Silent (datagram fuel socket bytes c) h =
    if_case (Silent c) (c.running socket)
      (λ _. on_parsed-Silent socket (from_buffer fuel (datagram_buffer bytes)) c h) (λ _. (h, refl))
Step-Silent (timeout now c) h =
    if_case (Silent c) c.poisoned (λ _. (h, refl)) (λ n. absurd (ground arith))

Reach-Silent : {c d : NetworkClient} → Reach c d → c.poisoned ≡ true → Silent c d
unfolding Silent
Reach-Silent start h = (h, refl)
Reach-Silent (later r st) h =
    let (poisoned, same) = Reach-Silent r h in
    let (poisoned', same') = Step-Silent st poisoned in (poisoned', same' ∙ same)

discard-Silent :
    (socket : Socket) (packet : DnsPacket) (c : NetworkClient)
    → is_empty packet.questions ≡ true
    → Silent c (discard socket packet c)
unfolding Silent discard
discard-Silent socket packet c e =
    if_case (Silent c) (is_empty packet.questions) (λ _. (refl, refl)) (λ n. absurd (ground arith))

on_datagram-Silent :
    (c : NetworkClient) (fuel : ℕ) (socket : Socket) (bytes : Bytes)
    → (packet : DnsPacket) (rest : BytePacketBuffer) → c.running socket ≡ true
    → c.poisoned ≡ false
    → from_buffer fuel (datagram_buffer bytes) ≡ ok (packet, rest)
    → packet.questions ≡ []
    → find_query packet.header.id c.pending_queries ≡ none
    → Silent c (on_datagram fuel socket bytes c)
unfolding on_datagram on_parsed on_packet deliver
on_datagram-Silent c fuel socket bytes packet rest runs clean parsed empty missing =
    subst (Silent c) (sym discards) (discard-Silent socket packet c (ap is_empty empty))
  where
    discards : on_datagram fuel socket bytes c ≡ discard socket packet c
    discards = rw (runs, parsed, clean, missing) refl

-- A packet without a question that is no answer to a pending query silences the client for good:
-- whatever the threads do then, no channel is sent a message any more, neither a response nor the end
-- of its time, and every new query fails.
pub on_datagram_silences :
    (c : NetworkClient) (fuel : ℕ) (socket : Socket) (bytes : Bytes)
    → (packet : DnsPacket) (rest : BytePacketBuffer) → c.running socket ≡ true
    → c.poisoned ≡ false
    → from_buffer fuel (datagram_buffer bytes) ≡ ok (packet, rest)
    → packet.questions ≡ []
    → find_query packet.header.id c.pending_queries ≡ none
    → (d : NetworkClient) → Reach (on_datagram fuel socket bytes c) d
    → (d.messages ≡ c.messages) × ((now id : ℕ) → (register now id d).0 ≡ none)
unfolding register Silent
on_datagram_silences c fuel socket bytes packet rest runs clean parsed empty missing d r =
    let (poisoned, same) =
      on_datagram-Silent c fuel socket bytes packet rest runs clean parsed empty missing in
    let (poisoned', same') = Reach-Silent r poisoned in (same' ∙ same, λ now id. rw poisoned' refl)

-- The ids of a thread that asks alone count from 0 to 0xfffe and start again.
pub next_id-less :
    (c : NetworkClient)
    → c.seq < 0xFFFF
    → ((next_id c).0 ≡ c.seq) × ((next_id c).1.seq ≡ (c.seq + 1) % 0xFFFF)
unfolding next_id take_id reset_seq
next_id-less c h = (omega arith, ground arith)
