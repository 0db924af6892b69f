-- ===== src/Dns/Buffer.antt =====
-- src/dns/buffer.rs: the trait `PacketBuffer`, with its provided methods. The implementations are
-- in the children.
mod Monad
pub mod Vector
pub mod Fixed
pub mod Reads
pub mod Names
pub mod Labels
pub mod Wrote
pub mod Written
pub mod Writes
pub mod Hang
pub mod RoundTrip
pub mod Sized
pub use Monad.*
use gis.Base.{
  ℕ, zero, suc, ◌+◌, ◌*◌, ◌/◌, ◌%◌, ◌^◌, Bool, true, false, List, [], ◌∷◌, ◌++◌, Option, none, some,
  ltb, ◌==◌, if◌then◌else◌, length, bit_and, bit_or, bit_xor,
}
use gis.Bytes.{Text}

-- The state of a buffer is passed on; an error ends the call, and the state with it.
pub record PacketBuffer (B : Type 0) : Type 0 where
  pub read : B → Result (ℕ × B)
  pub get : ℕ → B → Result (ℕ × B)
  pub get_range : ℕ → ℕ → B → Result (List ℕ × B)
  pub write : ℕ → B → Result (Unit {0} × B)
  pub set : ℕ → ℕ → B → Result (Unit {0} × B)
  pub pos : B → ℕ
  pub seek : ℕ → B → Result (Unit {0} × B)
  pub step : ℕ → B → Result (Unit {0} × B)
  pub find_label : Text → B → Option ℕ
  pub save_label : Text → ℕ → B → Result (Unit {0} × B)

-- `split('.')` and `join(".")`.
abbrev pub push_front : ℕ → List Text → List Text
push_front c [] = (c ∷ []) ∷ []
push_front c (l ∷ ls) = (c ∷ l) ∷ ls

unfoldable pub split_dots : Text → List Text
split_dots [] = [] ∷ []
split_dots (c ∷ cs) = if c == b'.' then [] ∷ split_dots cs else push_front c (split_dots cs)

unfoldable pub join_dots : List Text → Text
join_dots [] = []
join_dots (l ∷ []) = l
join_dots (l ∷ (m ∷ ms)) = l ++ (b'.' ∷ join_dots (m ∷ ms))

-- `to_lowercase` of an ASCII text. What `from_utf8_lossy` does to other bytes is not modelled.
abbrev pub lower : ℕ → ℕ
lower c = if ltb c b'A' then c else if ltb b'Z' c then c else c + 32

unfoldable pub to_lowercase : Text → Text
to_lowercase [] = []
to_lowercase (c ∷ cs) = lower c ∷ to_lowercase cs

module _ {B : Type 0} ⦃p : PacketBuffer B⦄ where
  unfoldable pub write_u8 : ℕ → M B (Unit {0})
  write_u8 val = do p.write val; pure tt

  unfoldable pub set_u16 : ℕ → ℕ → M B (Unit {0})
  set_u16 pos val = do p.set pos (val / 256); p.set (pos + 1) (val % 256); pure tt

  unfoldable pub write_u16 : ℕ → M B (Unit {0})
  write_u16 val = do p.write (val / 256); p.write (val % 256); pure tt

  unfoldable pub write_u32 : ℕ → M B (Unit {0})
  write_u32 val = do
    p.write (val / 2 ^ 24 % 256)
    p.write (val / 2 ^ 16 % 256)
    p.write (val / 2 ^ 8 % 256)
    p.write (val % 256)
    pure tt

  unfoldable pub write_bytes : List ℕ → M B (Unit {0})
  write_bytes [] = pure tt
  write_bytes (b ∷ bs) = do write_u8 b; write_bytes bs

  -- The body of the loop of `write_qname`: `found` is what the buffer has for `search_lbl`, and
  -- `rest` the rounds for the labels behind.
  unfoldable pub write_label : Text → Text → M B (Unit {0}) → Option ℕ → M B (Unit {0})
  write_label label search_lbl rest (some prev_pos) = write_u16 (bit_or (prev_pos % 2 ^ 16) 0xC000)
  write_label label search_lbl rest none = λ buffer.
      (do
        p.save_label search_lbl (p.pos buffer)
        write_u8 (length label % 256)
        write_bytes label
        rest)
        buffer

  -- The loop over the labels that are left. `search_lbl` is what they join to.
  unfoldable pub write_labels : List Text → M B (Unit {0})
  write_labels [] buffer = write_u8 0 buffer
  write_labels (label ∷ labels) buffer =
      let search_lbl = join_dots (label ∷ labels) in
      write_label label search_lbl (write_labels labels) (p.find_label search_lbl buffer) buffer

  unfoldable pub write_qname : Text → M B (Unit {0})
  write_qname qname = write_labels (split_dots qname)

  -- Of bytes `(hi << 8) | lo` is the sum.
  unfoldable pub read_u16 : M B ℕ
  read_u16 = do hi ← p.read; lo ← p.read; pure (hi * 256 + lo)

  unfoldable pub read_u32 : M B ℕ
  read_u32 = do
    b3 ← p.read
    b2 ← p.read
    b1 ← p.read
    b0 ← p.read
    pure (b3 * 2 ^ 24 + b2 * 2 ^ 16 + b1 * 2 ^ 8 + b0)

  -- The loop of `read_qname`: `pos`, `jumped`, `delim` and `outstr` are its variables. Nothing in
  -- the source bounds its rounds, and `stuck` says that the fuel ran out.
  unfoldable pub read_labels : ℕ → ℕ → Bool → Text → Text → M B Text
  read_labels zero pos jumped delim outstr buffer = stuck
  read_labels (suc fuel) pos jumped delim outstr buffer =
      (do
        len ← p.get pos
        elim (ltb 0 (bit_and len 0xC0)) [
          | true ↦ (do
            elim jumped [ true ↦ pure tt | false ↦ p.seek (pos + 2) ]
            b2 ← p.get (pos + 1)
            read_labels fuel (bit_xor len 0xC0 * 256 + b2) true delim outstr)
          | false ↦ elim (len == 0) [
            | true ↦ (do elim jumped [ true ↦ pure tt | false ↦ p.seek (pos + 1) ]; pure outstr)
            | false ↦ (do
              str_buffer ← p.get_range (pos + 1) len
              read_labels fuel (pos + 1 + len) jumped (b'.' ∷ [])
                  (outstr ++ delim ++ to_lowercase str_buffer))
          ]
        ])
        buffer

  -- The text read is appended to `outstr`.
  unfoldable pub read_qname : ℕ → Text → M B Text
  read_qname fuel outstr buffer = read_labels fuel (p.pos buffer) false [] outstr buffer
