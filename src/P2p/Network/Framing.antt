-- ===== src/P2p/Network/Framing.antt =====
-- Messages through a socket: what is sent is read, however the stream cuts it.
use gis.Base.{
  ℕ, zero, suc, ◌+◌, ◌-◌, ◌%◌, ◌^◌, ◌≤◌, ◌<◌, true, false, List, [], ◌∷◌, ◌++◌, some, ◌==◌,
  if◌then◌else◌, length, length-append, take, drop, take_short, append_assoc, append-[], ◌≡◌, refl,
  sym, ap, ◌∙◌, arith, inl, inr, Bool-cases, done,
}
use gis.Bytes.{Bytes, value_be}
use gis.P2p.Network.Stream.{
  Read, bytes, would_block, interrupted, fatal, be32, frame, received, read_loop, read_message,
  max_packet_size,
}

-- The reads of a list, and then an error.
abbrev pub reads_of : List Read → ℕ → Read
reads_of [] i = fatal
reads_of (r ∷ rs) zero = r
reads_of (r ∷ rs) (suc i) = reads_of rs i

-- The reads bring these bytes, in pieces of any size, with interruptions and with waiting in time.
abbrev pub Delivers : List Read → Bytes → Type 0
Delivers [] content = content ≡ []
Delivers (bytes bs ∷ rs) content = (rest : Bytes) × (content ≡ bs ++ rest) × Delivers rs rest
Delivers (would_block false ∷ rs) content = Delivers rs content
Delivers (would_block true ∷ rs) content = ⊥
Delivers (interrupted ∷ rs) content = Delivers rs content
Delivers (fatal ∷ rs) content = ⊥

empty_of_length : (l : Bytes) → length l ≡ 0 → l ≡ []
empty_of_length [] h = refl
empty_of_length (x ∷ l) h = absurd (omega arith)

received-fits :
    (size : ℕ) (got bs : Bytes) → length bs ≤ size - length got → received size got bs ≡ got ++ bs
unfolding received
received-fits size got bs h = ap (λ l. got ++ l) (take_short (size - length got) bs h)

-- One read of bytes for which there is room.
pub read_loop-bytes :
    (fuel size : ℕ) (reads : ℕ → Read) (got bs : Bytes)
    → reads 0 ≡ bytes bs
    → length bs ≤ size - length got
    → read_loop (suc fuel) reads size got ≡ (
        if length (got ++ bs) == size
        then done (some (got ++ bs))
        else read_loop fuel (λ i. reads (suc i)) size (got ++ bs))
unfolding read_loop
read_loop-bytes fuel size reads got bs e h = ground (arith, e, received-fits size got bs h)

read_loop-Delivers :
    (fuel size : ℕ) (rs : List Read) (got content : Bytes)
    → length rs < fuel
    → length got < size
    → length got + length content ≡ size
    → Delivers rs content
    → read_loop fuel (reads_of rs) size got ≡ done (some (got ++ content))
unfolding read_loop
read_loop-Delivers zero size rs got content f g e d = absurd (omega arith)
read_loop-Delivers (suc fuel) size [] got content f g e d = absurd (omega (arith, ap length d))
read_loop-Delivers (suc fuel) size (would_block false ∷ rs) got content f g e d =
    read_loop-Delivers fuel size rs got content (omega arith) g e d
read_loop-Delivers (suc fuel) size (would_block true ∷ rs) got content f g e d = absurd d
read_loop-Delivers (suc fuel) size (interrupted ∷ rs) got content f g e d =
    read_loop-Delivers fuel size rs got content (omega arith) g e d
read_loop-Delivers (suc fuel) size (fatal ∷ rs) got content f g e d = absurd d
read_loop-Delivers (suc fuel) size (bytes bs ∷ rs) got content f g e (rest, cut, d) =
    let sizes : length content ≡ length bs + length rest = ap length cut ∙ length-append bs rest in
    let opened =
      read_loop-bytes fuel size (reads_of (bytes bs ∷ rs)) got bs refl (omega (arith, sizes)) in
    let longer = length-append got bs in
    elim (Bool-cases (length (got ++ bs) == size)) [
      | inl full ↦
          let none' : rest ≡ [] = empty_of_length rest (ground (arith, longer, sizes)) in
          opened
          ∙ rw full (
              ap (λ l. done (some (got ++ l))) (sym (cut ∙ ap (λ l. bs ++ l) none' ∙ append-[] bs)))
      | inr short ↦
          opened
          ∙ rw short (
              read_loop-Delivers fuel size rs (got ++ bs) rest (omega arith)
                (ground (arith, longer, sizes)) (omega (arith, longer, sizes)) d
              ∙ ap (λ l. done (some l)) (append_assoc got bs rest ∙ ap (λ l. got ++ l) (sym cut)))
    ]

pub read_open :
    (fuel size : ℕ) (reads : ℕ → Read)
    → 1 ≤ size
    → size ≤ max_packet_size
    → read_message fuel size reads ≡ read_loop fuel reads size []
unfolding read_message
read_open fuel size reads one small = ground arith

be32_value : (n : ℕ) → n < 2 ^ 32 → value_be 0 (be32 n) ≡ n
unfolding value_be be32
be32_value n h = omega arith

-- What `send_message` hands over for a message of 1 byte to 2 MiB, read behind its four bytes of
-- length in pieces of any size, with interruptions and with waiting in time: given a round for each
-- read and one more, `read_message` answers with the message.
pub read_message-frame :
    (fuel : ℕ) (content : Bytes) (rs : List Read)
    → 1 ≤ length content
    → length content ≤ max_packet_size
    → length rs < fuel
    → Delivers rs (drop 4 (frame content))
    → read_message fuel (value_be 0 (take 4 (frame content))) (reads_of rs) ≡ done (some content)
unfolding frame be32
read_message-frame fuel content rs one small enough d =
    let n = length content in
    let size : value_be 0 (be32 (n % 2 ^ 32)) ≡ n =
      be32_value (n % 2 ^ 32) (omega arith) ∙ omega arith in
    let size' : value_be 0 (take 4 (frame content)) ≡ n = size in
    rw size' (
      read_open fuel n (reads_of rs) one small
      ∙ read_loop-Delivers fuel n rs [] content enough (omega arith) (omega arith) d)
