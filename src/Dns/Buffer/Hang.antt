-- ===== src/Dns/Buffer/Hang.antt =====
-- Names that `read_qname` never stops reading, in the buffer of a datagram.
use gis.Base.{
  ltb, bit_and, bit_xor, ℕ, zero, suc, ◌+◌, ◌*◌, ◌/◌, ◌%◌, ◌<◌, Bool, true, false, some, ◌≡◌, refl,
  ◌∙◌, arith, get_elem?,
}
use gis.Bytes.{Text}
use gis.Dns.Buffer.{stuck, read_labels}
use gis.Dns.Buffer.Fixed.{BytePacketBuffer, byte_buffer, get, seek}
use gis.Dns.Buffer.Names.{mark}

-- Where the reader is left when it goes on from a pointer.
abbrev behind : Bool → ℕ → BytePacketBuffer → BytePacketBuffer
behind true stop v = v
behind false stop v = record v { pos = stop }

follows :
    (v : BytePacketBuffer) (fuel pos hi lo : ℕ) (jumped : Bool) (delim outstr : Text)
    → pos + 1 < 512
    → get_elem? v.buf pos ≡ some hi
    → get_elem? v.buf (pos + 1) ≡ some lo
    → ltb 0 (bit_and hi 0xC0) ≡ true
    → read_labels (suc fuel) pos jumped delim outstr v
      ≡ read_labels fuel (bit_xor hi 0xC0 * 256 + lo) true delim outstr (behind jumped (pos + 2) v)
unfolding read_labels get seek
follows v fuel pos hi lo true delim outstr low h k b = ground arith
follows v fuel pos hi lo false delim outstr low h k b = ground arith

-- In the 512 bytes of a datagram, a compression pointer that points at itself, and does not stand in
-- the last byte, is followed for ever: no number of rounds is enough.
pub self_pointer_hangs :
    (v : BytePacketBuffer) (fuel p : ℕ) (jumped : Bool) (delim outstr : Text)
    → p + 1 < 512
    → get_elem? v.buf p ≡ some (192 + p / 256)
    → get_elem? v.buf (p + 1) ≡ some (p % 256)
    → read_labels fuel p jumped delim outstr v ≡ stuck
unfolding read_labels
self_pointer_hangs v zero p jumped delim outstr low hi lo = refl
self_pointer_hangs v (suc fuel) p jumped delim outstr low hi lo =
    follows v fuel p (192 + p / 256) (p % 256) jumped delim outstr low hi lo (marked.0)
    ∙ rw (marked.1, back)
        (elim jumped as (λ j. read_labels fuel p true delim outstr (behind j (p + 2) v) ≡ stuck) [
          | true ↦ self_pointer_hangs v fuel p true delim outstr low hi lo
          | false ↦ self_pointer_hangs (record v { pos = p + 2 }) fuel p true delim outstr low hi lo
        ])
  where
    marked :
        (ltb 0 (bit_and (192 + p / 256) 0xC0) ≡ true) × (bit_xor (192 + p / 256) 0xC0 ≡ p / 256)
    marked = mark (p / 256) (omega arith)

    back : p / 256 * 256 + p % 256 ≡ p
    back = omega arith
