-- ===== src/Dns/Buffer/Fixed.antt =====
-- `BytePacketBuffer`: 512 bytes, as a datagram has.
use gis.Base.{
  ℕ, ◌+◌, List, Option, none, some, ltb, leb, if◌then◌else◌, length, get_elem?, take, drop,
}
use gis.Base.{set as set_elem}
use gis.Dns.Buffer.{PacketBuffer, Result, ok, end_of_buffer, panic}

-- `buf` has 512 elements.
pub record BytePacketBuffer : Type 0 where
  pub buf : List ℕ
  pub pos : ℕ

abbrev or_panic : Option ℕ → BytePacketBuffer → Result (ℕ × BytePacketBuffer)
or_panic (some b) v = ok (b, v)
or_panic none v = panic

unfoldable pub read : BytePacketBuffer → Result (ℕ × BytePacketBuffer)
read v =
    if leb 512 v.pos
    then end_of_buffer
    else or_panic (get_elem? v.buf v.pos) (record v { pos = v.pos + 1 })

unfoldable pub get : ℕ → BytePacketBuffer → Result (ℕ × BytePacketBuffer)
get pos v = if leb 512 pos then end_of_buffer else or_panic (get_elem? v.buf pos) v

unfoldable pub get_range : ℕ → ℕ → BytePacketBuffer → Result (List ℕ × BytePacketBuffer)
get_range start len v =
    if leb 512 (start + len) then end_of_buffer else ok (take len (drop start v.buf), v)

unfoldable pub write : ℕ → BytePacketBuffer → Result (Unit {0} × BytePacketBuffer)
write val v =
    if leb 512 v.pos
    then end_of_buffer
    else ok (tt, record v { buf = set_elem v.buf v.pos val; pos = v.pos + 1 })

unfoldable pub set : ℕ → ℕ → BytePacketBuffer → Result (Unit {0} × BytePacketBuffer)
set pos val v =
    if ltb pos (length v.buf) then ok (tt, record v { buf = set_elem v.buf pos val }) else panic

unfoldable pub seek : ℕ → BytePacketBuffer → Result (Unit {0} × BytePacketBuffer)
seek pos v = ok (tt, record v { pos = pos })

unfoldable pub step : ℕ → BytePacketBuffer → Result (Unit {0} × BytePacketBuffer)
step steps v = ok (tt, record v { pos = v.pos + steps })

-- The fixed buffer keeps no labels.
instance abbrev pub byte_buffer : PacketBuffer BytePacketBuffer
byte_buffer = record {
  read = read;
  get = get;
  get_range = get_range;
  write = write;
  set = set;
  pos = λ v. v.pos;
  seek = seek;
  step = step;
  find_label = λ label v. none;
  save_label = λ label pos v. ok (tt, v);
}
