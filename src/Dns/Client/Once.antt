-- ===== src/Dns/Client/Once.antt =====
-- One answer to each query.
use gis.Base.{
  if_case, ℕ, ◌+◌, ◌%◌, ◌^◌, ◌&&◌, ◌<◌, ◌≤◌, Bool, true, false, List, [], ◌∷◌, ◌++◌, Option, none,
  some, ◌==◌, ◌≡◌, refl, ap, subst, arith,
}
use gis.Bytes.{is_empty}
use gis.Dns.Buffer.{Result, ok, end_of_buffer, panic, stuck}
use gis.Dns.Buffer.Fixed.{BytePacketBuffer, byte_buffer}
use gis.Dns.Protocol.Types.{DnsPacket}
use gis.Dns.Protocol.Packet.{from_buffer}
use gis.Dns.Client.{
  NetworkClient, PendingQuery, Socket, count_sent, datagram_buffer, deliver, discard, find_message,
  find_query, keep_fresh, new_client, on_datagram, take_message, on_parsed, on_packet, on_timeout,
  receive, register, remove_query, reset_seq, take_id, timed_out,
}
use gis.Dns.Client.Steps.{
  Reach, Step, answered, counted, datagram, later, numbered, registered, reset, start, timeout,
}

abbrev one_if : Bool → ℕ
one_if true = 1
one_if false = 0

-- How many pending queries, and how many messages, a channel has.
pub waiting : ℕ → List PendingQuery → ℕ
waiting tx [] = 0
waiting tx (q ∷ qs) = one_if (q.tx == tx) + waiting tx qs

pub told : ℕ → List (ℕ × Option DnsPacket) → ℕ
told tx [] = 0
told tx ((t, message) ∷ messages) = one_if (t == tx) + told tx messages

-- A channel that was made waits, or has been told once; and there is nothing for the others.
pub record IsOnce (c : NetworkClient) : Type 0 where
  pub once : (tx : ℕ) → tx < c.channels → waiting tx c.pending_queries + told tx c.messages ≡ 1
  pub fresh : (tx : ℕ) → c.channels ≤ tx → waiting tx c.pending_queries + told tx c.messages ≡ 0

waiting-append :
    (tx : ℕ) (xs ys : List PendingQuery) → waiting tx (xs ++ ys) ≡ waiting tx xs + waiting tx ys
unfolding waiting
waiting-append tx [] ys = omega arith
waiting-append tx (x ∷ xs) ys = omega (arith, waiting-append tx xs ys)

told-append :
    (tx : ℕ) (xs ys : List (ℕ × Option DnsPacket)) → told tx (xs ++ ys) ≡ told tx xs + told tx ys
unfolding told
told-append tx [] ys = omega arith
told-append tx ((t, message) ∷ xs) ys = omega (arith, told-append tx xs ys)

waiting-remove_query :
    (tx id : ℕ) (qs : List PendingQuery) (q : PendingQuery)
    → find_query id qs ≡ some q
    → waiting tx qs ≡ one_if (q.tx == tx) + waiting tx (remove_query id qs)
unfolding waiting find_query remove_query
waiting-remove_query tx id [] q e = absurd (ground arith)
waiting-remove_query tx id (x ∷ qs) q e = ground (arith, waiting-remove_query tx id qs q)

waiting-keep_fresh :
    (tx now : ℕ) (qs : List PendingQuery)
    → waiting tx (keep_fresh now qs) + told tx (timed_out now qs) ≡ waiting tx qs
unfolding waiting told keep_fresh timed_out
waiting-keep_fresh tx now [] = refl
waiting-keep_fresh tx now (q ∷ qs) = ground (arith, waiting-keep_fresh tx now qs)

-- What keeps the sum for every channel, and the number of channels.
Balanced : NetworkClient → NetworkClient → Type 0
Balanced c d =
    (d.channels ≡ c.channels)
    × ((tx : ℕ)
        → waiting tx d.pending_queries + told tx d.messages
          ≡ waiting tx c.pending_queries + told tx c.messages)

Balanced-IsOnce : (c d : NetworkClient) → Balanced c d → IsOnce c → IsOnce d
unfolding Balanced
Balanced-IsOnce c d (n, same) h = record {
  once = λ tx lt. omega (arith, same tx, h.once tx (omega arith));
  fresh = λ tx le. omega (arith, same tx, h.fresh tx (omega arith));
}

deliver-Balanced :
    (socket : Socket) (packet : DnsPacket) (q : Option PendingQuery) (c : NetworkClient)
    → find_query packet.header.id c.pending_queries ≡ q
    → Balanced c (deliver socket packet q c)
unfolding Balanced deliver discard told
deliver-Balanced socket packet none c e =
    if_case (Balanced c) (is_empty packet.questions) (λ _. (refl, λ tx. refl))
      (λ _. (refl, λ tx. refl))
deliver-Balanced socket packet (some q) c e =
    (refl, λ tx. omega (arith, waiting-remove_query tx packet.header.id c.pending_queries q e))

on_packet-Balanced :
    (socket : Socket) (packet : DnsPacket) (c : NetworkClient)
    → Balanced c (on_packet socket packet c)
unfolding Balanced on_packet
on_packet-Balanced socket packet c =
    if_case (Balanced c) c.poisoned (λ _. (refl, λ tx. refl))
      (λ _. deliver-Balanced socket packet (find_query packet.header.id c.pending_queries) c refl)

on_parsed-Balanced :
    (socket : Socket) (parsed : Result (DnsPacket × BytePacketBuffer)) (c : NetworkClient)
    → Balanced c (on_parsed socket parsed c)
unfolding Balanced on_parsed
on_parsed-Balanced socket (ok (packet, rest)) c = on_packet-Balanced socket packet c
on_parsed-Balanced socket end_of_buffer c = (refl, λ tx. refl)
on_parsed-Balanced socket panic c = (refl, λ tx. refl)
on_parsed-Balanced socket stuck c = (refl, λ tx. refl)

abbrev after : NetworkClient → Option (Option DnsPacket × NetworkClient) → NetworkClient
after c none = c
after c (some (message, d)) = d

reset_seq-Balanced : (id : ℕ) (c : NetworkClient) → Balanced c (reset_seq id c)
unfolding Balanced reset_seq
reset_seq-Balanced id c =
    if_case (Balanced c) ((id + 1) % 2 ^ 16 == 0xFFFF && c.seq == 0xFFFF) (λ _. (refl, λ tx. refl))
      (λ _. (refl, λ tx. refl))

on_timeout-Balanced : (now : ℕ) (c : NetworkClient) → Balanced c (on_timeout now c)
unfolding Balanced on_timeout
on_timeout-Balanced now c =
    if_case (Balanced c) c.poisoned (λ _. (refl, λ tx. refl))
      (λ _. (
        refl,
        λ tx. omega (
          arith,
          told-append tx (timed_out now c.pending_queries) c.messages,
          waiting-keep_fresh tx now c.pending_queries,
        ),
      ))

register-IsOnce : (now id : ℕ) (c : NetworkClient) → IsOnce c → IsOnce (register now id c).1
unfolding register waiting
register-IsOnce now id c h =
    let q : PendingQuery = record { seq = id; timestamp = now; tx = c.channels } in
    if_case (λ (r : Option ℕ × NetworkClient). IsOnce r.1) c.poisoned (λ _. h)
      (λ _. record {
        once = λ tx lt.
            ground (arith, waiting-append tx c.pending_queries (q ∷ []), h.once tx, h.fresh tx);
        fresh = λ tx le. ground (arith, waiting-append tx c.pending_queries (q ∷ []), h.fresh tx);
      })

take_message-Balanced :
    (m : Option (Option DnsPacket)) (c d : NetworkClient) (message : Option DnsPacket)
    → take_message m c ≡ some (message, d)
    → Balanced c d
unfolding Balanced take_message
take_message-Balanced none c d message e = absurd (ground arith)
take_message-Balanced (some (some packet)) c d message e =
    subst (Balanced c) (ap (after c) e) (refl, λ tx. refl)
take_message-Balanced (some none) c d message e =
    subst (Balanced c) (ap (after c) e) (refl, λ tx. refl)

Step-IsOnce : {c d : NetworkClient} → Step c d → IsOnce c → IsOnce d
unfolding Balanced count_sent take_id receive on_datagram
Step-IsOnce (counted c) h = record { once = h.once; fresh = h.fresh }
Step-IsOnce (numbered c) h = record { once = h.once; fresh = h.fresh }
Step-IsOnce (reset id c) h = Balanced-IsOnce c (reset_seq id c) (reset_seq-Balanced id c) h
Step-IsOnce (registered now id c) h = register-IsOnce now id c h
Step-IsOnce (answered tx c d message e) h =
    Balanced-IsOnce c d (take_message-Balanced (find_message tx c.messages) c d message e) h
Step-IsOnce (datagram fuel socket bytes c) h =
    Balanced-IsOnce c (on_datagram fuel socket bytes c)
      (if_case (Balanced c) (c.running socket)
        (λ _. on_parsed-Balanced socket (from_buffer fuel (datagram_buffer bytes)) c)
        (λ _. (refl, λ tx. refl)))
      h
Step-IsOnce (timeout now c) h = Balanced-IsOnce c (on_timeout now c) (on_timeout-Balanced now c) h

-- Whatever the threads do, in any order, from a client with no query: each channel that was made
-- either waits among the pending queries, once, or has been sent one message, a response or the end
-- of its time; never both, nor two, nor none.
pub Reach-IsOnce : {c : NetworkClient} → Reach new_client c → IsOnce c
unfolding waiting told
Reach-IsOnce start = record { once = λ tx lt. absurd (omega arith); fresh = λ tx le. refl }
Reach-IsOnce (later r st) = Step-IsOnce st (Reach-IsOnce r)
