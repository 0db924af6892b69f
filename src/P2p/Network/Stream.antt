-- ===== src/P2p/Network/Stream.antt =====
-- `read_message` and `send_message`: a length in four bytes, and the bytes.
use gis.Base.{
  ℕ, zero, suc, ◌-◌, ◌*◌, ◌/◌, ◌%◌, ◌^◌, Bool, true, false, ◌||◌, [], ◌∷◌, ◌++◌, Option, none, some,
  ltb, ◌==◌, if◌then◌else◌, length, take, Outcome, done, stuck,
}
use gis.Bytes.{Bytes}

abbrev pub max_packet_size : ℕ
max_packet_size = 2 * 1024 * 1024

-- What one `read` of a socket gives: bytes, no more than there is room for, or an error.
-- `would_block` comes with whether the time of 500 ms is over.
pub data Read : Type 0 where
  bytes : Bytes → Read
  would_block : Bool → Read
  interrupted fatal : Read

unfoldable pub zeros : ℕ → Bytes
zeros zero = []
zeros (suc n) = 0 ∷ zeros n

-- `u32` in the order of the network.
unfoldable pub be32 : ℕ → Bytes
be32 n = (n / 2 ^ 24 % 256) ∷ (n / 2 ^ 16 % 256) ∷ (n / 2 ^ 8 % 256) ∷ (n % 256) ∷ []

unfoldable pub frame : Bytes → Bytes
frame content = be32 (length content % 2 ^ 32) ++ content

-- A `read` takes no more than there is room for.
unfoldable pub received : ℕ → Bytes → Bytes → Bytes
received size got bs = got ++ take (size - length got) bs

-- The loop of `read_message`: `got` is the front of the buffer, which is filled with zeros behind it,
-- and read number `i` from here on is `reads i`. The test of the length behind the loop looks at the
-- buffer, not at the bytes read.
unfoldable pub read_loop : ℕ → (ℕ → Read) → ℕ → Bytes → Outcome (Option Bytes)
read_loop zero reads size got = stuck
read_loop (suc fuel) reads size got = elim (reads 0) [
  | bytes bs ↦
      let got' = received size got bs in
      elim (length got' == size) [
        | true ↦ done (some got')
        | false ↦ read_loop fuel (λ i. reads (suc i)) size got'
      ]
  | would_block late ↦ elim late [
    | false ↦ read_loop fuel (λ i. reads (suc i)) size got
    | true ↦ done (some (got ++ zeros (size - length got)))
  ]
  | interrupted ↦ read_loop fuel (λ i. reads (suc i)) size got
  | fatal ↦ done none
]

-- `size` is what `read_u32` gave, 0 where it failed.
unfoldable pub read_message : ℕ → ℕ → (ℕ → Read) → Outcome (Option Bytes)
read_message fuel size reads =
    if ltb max_packet_size size || size == 0 then done none else read_loop fuel reads size []
