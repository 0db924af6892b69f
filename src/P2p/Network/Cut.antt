-- ===== src/P2p/Network/Cut.antt =====
-- Messages that a socket does not bring whole.
use gis.Base.{
  ℕ, zero, suc, ◌+◌, ◌-◌, ◌≤◌, ◌<◌, true, false, List, [], ◌∷◌, ◌++◌, some, ◌==◌, length,
  length-append, append_assoc, append-[], ◌≡◌, refl, sym, ap, ◌∙◌, arith, done, stuck,
}
use gis.Bytes.{Bytes}
use gis.P2p.Network.Stream.{
  Read, bytes, would_block, interrupted, fatal, zeros, read_loop, read_message, max_packet_size,
}
use gis.P2p.Network.Framing.{reads_of, Delivers, read_loop-bytes, read_open}

-- The loop on reads that bring less than the size, and then none in time.
read_loop_late :
    (fuel size : ℕ) (rs : List Read) (got content : Bytes)
    → length rs + 1 < fuel
    → length got + length content < size
    → Delivers rs content
    → read_loop fuel (reads_of (rs ++ (would_block true ∷ []))) size got
      ≡ done (some ((got ++ content) ++ zeros (size - length (got ++ content))))
unfolding read_loop
read_loop_late zero size rs got content f g d = absurd (omega arith)
read_loop_late (suc zero) size rs got content f g d = absurd (omega arith)
read_loop_late (suc (suc fuel)) size [] got content f g d =
    ap (λ l. done (some (l ++ zeros (size - length l))))
      (sym (ap (λ l. got ++ l) d ∙ append-[] got))
read_loop_late (suc (suc fuel)) size (would_block false ∷ rs) got content f g d =
    read_loop_late (suc fuel) size rs got content (omega arith) g d
read_loop_late (suc (suc fuel)) size (would_block true ∷ rs) got content f g d = absurd d
read_loop_late (suc (suc fuel)) size (interrupted ∷ rs) got content f g d =
    read_loop_late (suc fuel) size rs got content (omega arith) g d
read_loop_late (suc (suc fuel)) size (fatal ∷ rs) got content f g d = absurd d
read_loop_late (suc (suc fuel)) size (bytes bs ∷ rs) got content f g (rest, cut, d) =
    let sizes : length content ≡ length bs + length rest = ap length cut ∙ length-append bs rest in
    let longer = length-append got bs in
    let short : (length (got ++ bs) == size) ≡ false = ground (arith, longer, sizes) in
    read_loop-bytes (suc fuel) size (reads_of ((bytes bs ∷ rs) ++ (would_block true ∷ []))) got bs
      refl (omega (arith, sizes))
    ∙ rw short (
        read_loop_late (suc fuel) size rs (got ++ bs) rest (omega arith)
          (omega (arith, longer, sizes)) d
        ∙ ap (λ l. done (some (l ++ zeros (size - length l))))
            (append_assoc got bs rest ∙ ap (λ l. got ++ l) (sym cut)))

-- A message that stops in the middle until its time is over, behind any reads in time: the answer is a
-- whole message of the size that was announced, with zeros for all that is missing.
pub read_message_late :
    (fuel size : ℕ) (rs : List Read) (got : Bytes)
    → size ≤ max_packet_size
    → length got < size
    → length rs + 1 < fuel
    → Delivers rs got
    → read_message fuel size (reads_of (rs ++ (would_block true ∷ [])))
      ≡ done (some (got ++ zeros (size - length got)))
read_message_late fuel size rs got small short enough d =
    read_open fuel size (reads_of (rs ++ (would_block true ∷ []))) (omega arith) small
    ∙ read_loop_late fuel size rs [] got enough (omega arith) d

read_loop_closed :
    (fuel size : ℕ) (reads : ℕ → Read) (got : Bytes)
    → length got < size
    → ((i : ℕ) → reads i ≡ bytes [])
    → read_loop fuel reads size got ≡ stuck
unfolding read_loop
read_loop_closed zero size reads got short closed = refl
read_loop_closed (suc fuel) size reads got short closed =
    let same : (got ++ []) ≡ got = append-[] got in
    let open' : (length (got ++ []) == size) ≡ false = ground (arith, ap length same) in
    read_loop-bytes fuel size reads got [] (closed 0) (omega arith)
    ∙ rw open' (
        ap (λ l. read_loop fuel (λ i. reads (suc i)) size l) same
        ∙ read_loop_closed fuel size (λ i. reads (suc i)) got short (λ i. closed (suc i)))

-- A connection that is closed behind the length of a message, whose reads give no bytes any more: the
-- loop goes on for ever, whatever number of rounds it is given.
pub read_message_closed :
    (fuel size : ℕ) (reads : ℕ → Read)
    → 1 ≤ size
    → size ≤ max_packet_size
    → ((i : ℕ) → reads i ≡ bytes [])
    → read_message fuel size reads ≡ stuck
read_message_closed fuel size reads one small closed =
    read_open fuel size reads one small ∙ read_loop_closed fuel size reads [] (omega arith) closed
