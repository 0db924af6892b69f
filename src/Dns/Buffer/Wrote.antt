-- ===== src/Dns/Buffer/Wrote.antt =====
-- What stands in a `VectorPacketBuffer` after bytes are written at its end.
use gis.Base.{
  ℕ, ◌+◌, ◌/◌, ◌%◌, ◌≡◌, refl, ap, ◌∙◌, arith, List, [], ◌∷◌, ◌++◌, length, length-append,
  append_assoc, append-[],
}
use gis.Dns.Buffer.{ok, write_u8, write_u16, write_bytes}
use gis.Dns.Buffer.Reads.{bind-ok}
use gis.Dns.Buffer.Vector.{VectorPacketBuffer, vector_buffer, write}

abbrev pub wrote : VectorPacketBuffer → List ℕ → VectorPacketBuffer
wrote v bytes = record v { buffer = v.buffer ++ bytes; pos = v.pos + length bytes }

pub write_u8_lem : (v : VectorPacketBuffer) (b : ℕ) → write_u8 b v ≡ ok (tt, wrote v (b ∷ []))
unfolding write_u8 write
write_u8_lem v b = refl

pub wrote-[] : (v : VectorPacketBuffer) → v ≡ wrote v []
wrote-[] v = ground (arith, append-[] v.buffer)

pub wrote-wrote :
    (v : VectorPacketBuffer) (xs ys : List ℕ) → wrote (wrote v xs) ys ≡ wrote v (xs ++ ys)
wrote-wrote v xs ys = ground (arith, append_assoc v.buffer xs ys, length-append xs ys)

pub write_bytes_lem :
    (bytes : List ℕ) (v : VectorPacketBuffer) → write_bytes bytes v ≡ ok (tt, wrote v bytes)
unfolding write_bytes
write_bytes_lem [] v = ap (λ w. ok (tt, w)) (wrote-[] v)
write_bytes_lem (b ∷ bs) v =
    bind-ok (write_u8 b) (λ _. write_bytes bs) (write_u8_lem v b)
    ∙ write_bytes_lem bs (wrote v (b ∷ []))
    ∙ ap (λ w. ok (tt, w)) (wrote-wrote v (b ∷ []) bs)

pub write_u16_lem :
    (v : VectorPacketBuffer) (n : ℕ) → write_u16 n v ≡ ok (tt, wrote v (n / 256 ∷ (n % 256 ∷ [])))
unfolding write_u16 write
write_u16_lem v n = ap (λ w. ok (tt, w)) (wrote-wrote v (n / 256 ∷ []) (n % 256 ∷ []))
