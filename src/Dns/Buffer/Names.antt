-- ===== src/Dns/Buffer/Names.antt =====
-- Where a name stands in a buffer, so that `read_qname` gives it, whatever is written behind.
use gis.Base.{
  some, not, ℕ, zero, suc, ◌+◌, ◌*◌, ◌/◌, ◌%◌, ◌<◌, ◌≤◌, ltb, ◌==◌, ◌≡◌, refl, ◌∙◌, arith, bit_or,
  bit_and, bit_xor, Bool, true, false, ◌&&◌, always, always-at, List, [], ◌∷◌, ◌++◌, length, take,
  drop, get_elem?, length-append, get_elem?-append_mid, append_assoc, append-[], take-append,
  drop-append,
}
use gis.Bytes.{Text}
use gis.Dns.Buffer.{ok, read_labels, to_lowercase}
use gis.Dns.Buffer.Vector.{VectorPacketBuffer, vector_buffer, get, get_range, seek}

-- Where a reader stands after a name: at its end, unless it jumped, and then where it was.
abbrev pub land : Bool → ℕ → VectorPacketBuffer → VectorPacketBuffer
land true stop v = v
land false stop v = record v { pos = stop }

-- One round of the loop: at the end, at a label, and at a pointer.
read_labels-end :
    (v : VectorPacketBuffer) (fuel pos : ℕ) (jumped : Bool) (delim outstr : Text)
    → get_elem? v.buffer pos ≡ some 0
    → read_labels (suc fuel) pos jumped delim outstr v ≡ ok (outstr, land jumped (pos + 1) v)
unfolding read_labels get seek
read_labels-end v fuel pos true delim outstr h = ground arith
read_labels-end v fuel pos false delim outstr h = ground arith

-- Whether a length byte has neither of the two bits of a pointer.
is_length : ℕ → Bool
is_length b = not (ltb 0 (bit_and b 0xC0))

small_table : always is_length 64 ≡ true
unfolding always is_length
small_table = refl

small : (b : ℕ) → b < 64 → ltb 0 (bit_and b 0xC0) ≡ false
unfolding is_length
small b h = ground (arith, always-at is_length h small_table)

pub get_range_in :
    (v : VectorPacketBuffer) (start len : ℕ)
    → start + len ≤ length v.buffer
    → get_range start len v ≡ ok (take len (drop start v.buffer), v)
unfolding get_range
get_range_in v start len h = ground arith

read_labels-label :
    (v : VectorPacketBuffer) (fuel pos len : ℕ) (jumped : Bool) (delim outstr : Text)
    → get_elem? v.buffer pos ≡ some len
    → 0 < len
    → len < 64
    → pos + 1 + len ≤ length v.buffer
    → read_labels (suc fuel) pos jumped delim outstr v
      ≡ read_labels fuel
          (pos + 1 + len)
          jumped
          (b'.' ∷ [])
          (outstr ++ delim ++ to_lowercase (take len (drop (pos + 1) v.buffer)))
          v
unfolding read_labels get
read_labels-label v fuel pos len jumped delim outstr h l0 l64 le =
    ground (arith, small len l64, get_range_in v (pos + 1) len le)

pub read_labels-pointer :
    (v : VectorPacketBuffer) (fuel pos hi lo : ℕ) (jumped : Bool) (delim outstr : Text)
    → get_elem? v.buffer pos ≡ some hi
    → get_elem? v.buffer (pos + 1) ≡ some lo
    → ltb 0 (bit_and hi 0xC0) ≡ true
    → read_labels (suc fuel) pos jumped delim outstr v
      ≡ read_labels fuel (bit_xor hi 0xC0 * 256 + lo) true delim outstr (land jumped (pos + 2) v)
unfolding read_labels get seek
read_labels-pointer v fuel pos hi lo true delim outstr h k b = ground arith
read_labels-pointer v fuel pos hi lo false delim outstr h k b = ground arith

-- In every buffer that begins with `bytes`, `read_labels` reads from `start` on what `text` makes of
-- the separator, given `need` rounds.
pub record NameAt (bytes : List ℕ) (need start stop : ℕ) (text : Text → Text) : Type 0 where
  pub run :
      (v : VectorPacketBuffer) (rest : List ℕ)
      → v.buffer ≡ bytes ++ rest
      → (fuel : ℕ) → need ≤ fuel
      → (jumped : Bool) (delim outstr : Text)
      → read_labels fuel start jumped delim outstr v ≡ ok (outstr ++ text delim, land jumped stop v)

pub NameAt-append :
    {bytes : List ℕ} (more : List ℕ) {need start stop : ℕ} {text : Text → Text}
    → NameAt bytes need start stop text
    → NameAt (bytes ++ more) need start stop text
NameAt-append {bytes = bytes} more n = record {
  run = λ v rest e. n.run v (more ++ rest) (e ∙ append_assoc bytes more rest);
}

abbrev pub no_text : Text → Text
no_text delim = []

abbrev pub text_of : Text → Text → Text
text_of name delim = delim ++ to_lowercase name

-- The zero byte that ends a name.
pub NameAt-end :
    (pre more : List ℕ) → NameAt (pre ++ (0 ∷ more)) 1 (length pre) (length pre + 1) no_text
NameAt-end pre more = record { run = go }
  where
    go :
        (v : VectorPacketBuffer) (rest : List ℕ)
        → v.buffer ≡ pre ++ (0 ∷ more) ++ rest
        → (fuel : ℕ) → 1 ≤ fuel
        → (jumped : Bool) (delim outstr : Text)
        → read_labels fuel (length pre) jumped delim outstr v
          ≡ ok (outstr ++ [], land jumped (length pre + 1) v)
    go v rest e zero h jumped delim outstr = absurd (ground arith)
    go v rest e (suc fuel) h jumped delim outstr = ground (
      arith,
      append-[] outstr,
      read_labels-end v fuel (length pre) jumped delim outstr,
      append_assoc pre (0 ∷ more) rest,
      get_elem?-append_mid pre 0 (more ++ rest),
    )

-- A label with what the name goes on with.
pub NameAt-label :
    (pre label more : List ℕ) {need stop : ℕ} {text : Text → Text}
    → 0 < length label
    → length label < 64
    → NameAt
        (pre ++ (length label ∷ (label ++ more)))
        need
        (length pre + 1 + length label)
        stop
        text
    → NameAt
        (pre ++ (length label ∷ (label ++ more)))
        (suc need)
        (length pre)
        stop
        (λ delim. delim ++ to_lowercase label ++ text (b'.' ∷ []))
NameAt-label pre label more {need = need} {stop = stop} {text = text} l0 l64 n = record { run = go }
  where
    go :
        (v : VectorPacketBuffer) (rest : List ℕ)
        → v.buffer ≡ pre ++ (length label ∷ (label ++ more)) ++ rest
        → (fuel : ℕ) → suc need ≤ fuel
        → (jumped : Bool) (delim outstr : Text)
        → read_labels fuel (length pre) jumped delim outstr v
          ≡ ok (outstr ++ (delim ++ to_lowercase label ++ text (b'.' ∷ [])), land jumped stop v)
    go v rest e zero h jumped delim outstr = absurd (ground arith)
    go v rest e (suc fuel) h jumped delim outstr = ground (
      arith,
      read_labels-label v fuel (length pre) (length label) jumped delim outstr,
      n.run v rest e fuel (omega arith) jumped (b'.' ∷ []) (outstr ++ delim ++ to_lowercase label),
      append_assoc pre (length label ∷ (label ++ more)) rest,
      append_assoc label more rest,
      get_elem?-append_mid pre (length label) (label ++ (more ++ rest)),
      take-append label (more ++ rest),
      drop-append pre (length label) (label ++ (more ++ rest)),
      length-append pre (length label ∷ (label ++ (more ++ rest))),
      length-append label (more ++ rest),
      append_assoc (outstr ++ delim) (to_lowercase label) (text (b'.' ∷ [])),
      append_assoc outstr delim (to_lowercase label ++ text (b'.' ∷ [])),
      append_assoc delim (to_lowercase label) (text (b'.' ∷ [])),
    )

-- The two bytes of a pointer to `q`.
is_pointer_to : ℕ → Bool
is_pointer_to q = bit_or q 0xC000 / 256 == 192 + q / 256 && bit_or q 0xC000 % 256 == q % 256

pointer_table : always is_pointer_to 16384 ≡ true
unfolding always is_pointer_to
pointer_table = refl

-- The first byte of a pointer, whose high half is `b`.
is_marked : ℕ → Bool
is_marked b = ltb 0 (bit_and (192 + b) 0xC0) && bit_xor (192 + b) 0xC0 == b

mark_table : always is_marked 64 ≡ true
unfolding always is_marked
mark_table = refl

pub pointer_bytes :
    (q : ℕ)
    → q < 16384
    → (bit_or q 0xC000 / 256 ≡ 192 + q / 256) × (bit_or q 0xC000 % 256 ≡ q % 256)
unfolding is_pointer_to
pointer_bytes q h = ground (arith, always-at is_pointer_to h pointer_table)

pub mark : (b : ℕ) → b < 64 → (ltb 0 (bit_and (192 + b) 0xC0) ≡ true) × (bit_xor (192 + b) 0xC0 ≡ b)
unfolding is_marked
mark b h = ground (arith, always-at is_marked h mark_table)

pub land-buffer :
    (jumped : Bool) (stop : ℕ) (v : VectorPacketBuffer) → (land jumped stop v).buffer ≡ v.buffer
land-buffer true stop v = refl
land-buffer false stop v = refl

-- A pointer to what was written before.
pub NameAt-pointer :
    (pre more : List ℕ) {need q stop : ℕ} {text : Text → Text}
    → q < 16384
    → NameAt pre need q stop text
    → NameAt
        (pre ++ ((192 + q / 256) ∷ ((q % 256) ∷ more)))
        (suc need)
        (length pre)
        (length pre + 2)
        text
NameAt-pointer pre more {need = need} {q = q} {stop = stop} {text = text} lt n = record { run = go }
  where
    bytes : List ℕ
    bytes = (192 + q / 256) ∷ ((q % 256) ∷ more)

    back : q / 256 * 256 + q % 256 ≡ q
    back = omega arith

    go :
        (v : VectorPacketBuffer) (rest : List ℕ)
        → v.buffer ≡ pre ++ bytes ++ rest
        → (fuel : ℕ) → suc need ≤ fuel
        → (jumped : Bool) (delim outstr : Text)
        → read_labels fuel (length pre) jumped delim outstr v
          ≡ ok (outstr ++ text delim, land jumped (length pre + 2) v)
    go v rest e zero h jumped delim outstr = absurd (ground arith)
    go v rest e (suc fuel) h jumped delim outstr =
        read_labels-pointer v fuel (length pre) (192 + q / 256) (q % 256) jumped delim outstr
          (ground (
            arith,
            append_assoc pre bytes rest,
            get_elem?-append_mid pre (192 + q / 256) ((q % 256) ∷ (more ++ rest)),
          ))
          (ground (
            arith,
            append_assoc pre bytes rest,
            append_assoc pre ((192 + q / 256) ∷ []) ((q % 256) ∷ (more ++ rest)),
            length-append pre ((192 + q / 256) ∷ []),
            get_elem?-append_mid (pre ++ ((192 + q / 256) ∷ [])) (q % 256) (more ++ rest),
          ))
          ((mark (q / 256) (omega arith)).0)
        ∙ (rw ((mark (q / 256) (omega arith)).1, back)
            (n.run (land jumped (length pre + 2) v) (bytes ++ rest)
              (land-buffer jumped (length pre + 2) v ∙ e ∙ append_assoc pre bytes rest) fuel
              (omega arith) true delim outstr))
