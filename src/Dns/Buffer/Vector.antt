-- ===== src/Dns/Buffer/Vector.antt =====
-- `VectorPacketBuffer`: a byte vector that grows, with the offsets of the names written so far.
use gis.Base.{
  ℕ, ◌+◌, List, [], ◌∷◌, ◌++◌, Option, none, some, ltb, if◌then◌else◌, length, get_elem?, take,
  drop,
}
use gis.Base.{set as set_elem}
use gis.Bytes.{Text, same_hash}
use gis.Dns.Buffer.{PacketBuffer, Result, ok, panic}

pub record VectorPacketBuffer : Type 0 where
  pub buffer : List ℕ
  pub pos : ℕ
  pub label_lookup : List (Text × ℕ)

abbrev pub new : VectorPacketBuffer
new = record { buffer = []; pos = 0; label_lookup = [] }

-- `BTreeMap::get` and `insert`.
unfoldable pub lookup_label : Text → List (Text × ℕ) → Option ℕ
lookup_label label [] = none
lookup_label label ((l, p) ∷ ls) = if same_hash l label then some p else lookup_label label ls

abbrev pub or_panic : Option ℕ → VectorPacketBuffer → Result (ℕ × VectorPacketBuffer)
or_panic (some b) v = ok (b, v)
or_panic none v = panic

unfoldable pub read : VectorPacketBuffer → Result (ℕ × VectorPacketBuffer)
read v = or_panic (get_elem? v.buffer v.pos) (record v { pos = v.pos + 1 })

unfoldable pub get : ℕ → VectorPacketBuffer → Result (ℕ × VectorPacketBuffer)
get pos v = or_panic (get_elem? v.buffer pos) v

unfoldable pub get_range : ℕ → ℕ → VectorPacketBuffer → Result (List ℕ × VectorPacketBuffer)
get_range start len v =
    if ltb (length v.buffer) (start + len) then panic else ok (take len (drop start v.buffer), v)

unfoldable pub write : ℕ → VectorPacketBuffer → Result (Unit {0} × VectorPacketBuffer)
write val v = ok (tt, record v { buffer = v.buffer ++ (val ∷ []); pos = v.pos + 1 })

unfoldable pub set : ℕ → ℕ → VectorPacketBuffer → Result (Unit {0} × VectorPacketBuffer)
set pos val v =
    if ltb pos (length v.buffer)
    then ok (tt, record v { buffer = set_elem v.buffer pos val })
    else panic

unfoldable pub seek : ℕ → VectorPacketBuffer → Result (Unit {0} × VectorPacketBuffer)
seek pos v = ok (tt, record v { pos = pos })

unfoldable pub step : ℕ → VectorPacketBuffer → Result (Unit {0} × VectorPacketBuffer)
step steps v = ok (tt, record v { pos = v.pos + steps })

-- The newest entry of a label stands first, and hides an older one as `insert` replaces it.
unfoldable pub save_label : Text → ℕ → VectorPacketBuffer → Result (Unit {0} × VectorPacketBuffer)
save_label label pos v = ok (tt, record v { label_lookup = (label, pos) ∷ v.label_lookup })

instance abbrev pub vector_buffer : PacketBuffer VectorPacketBuffer
vector_buffer = record {
  read = read;
  get = get;
  get_range = get_range;
  write = write;
  set = set;
  pos = λ v. v.pos;
  seek = seek;
  step = step;
  find_label = λ label v. lookup_label label v.label_lookup;
  save_label = save_label;
}
