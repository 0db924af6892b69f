-- ===== src/Dns/Protocol/Flags.antt =====
-- The two bytes of flags of a header, there and back.
use gis.Base.{
  ℕ, ◌*◌, ◌/◌, ◌%◌, ◌<◌, Bool, true, false, not, ◌&&◌, ◌≡◌, refl, arith, always, always-at, ◌==◌,
  bit_and, bit_or, ltb,
}
use gis.Dns.Protocol.Types.{ResultCode, rescode_num, DnsHeader}
use gis.Dns.Protocol.Header.{bit, has_bit, flags_high, flags_low, set_flags}
use gis.Dns.Protocol.Codes.{rescode_from_num-rescode_num}

all_bools : (Bool → Bool) → Bool
all_bools p = p true && p false

all_bools_sound : (p : Bool → Bool) (b : Bool) → all_bools p ≡ true → p b ≡ true
unfolding all_bools
all_bools_sound p true h = ground arith
all_bools_sound p false h = ground arith

same : Bool → Bool → Bool
same true b = b
same false b = not b

same_sound : (a b : Bool) → same a b ≡ true → a ≡ b
unfolding same
same_sound true true h = refl
same_sound false false h = refl
same_sound true false h = absurd (ground arith)
same_sound false true h = absurd (ground arith)

-- A byte of four flags, one of them on top, and a number of four bits, as `flags_high` builds it.
abbrev high_byte : Bool → Bool → Bool → Bool → ℕ → ℕ
high_byte rd tc aa qr op =
    bit_or (bit_or (bit_or (bit_or (bit rd) (bit tc * 2)) (bit aa * 4)) (op * 8 % 256))
      (bit qr * 128)

abbrev low_byte : Bool → Bool → Bool → Bool → ℕ → ℕ
low_byte cd ad z ra code =
    bit_or (bit_or (bit_or (bit_or code (bit cd * 16)) (bit ad * 32)) (bit z * 64)) (bit ra * 128)

abbrev is_high : Bool → Bool → Bool → Bool → ℕ → Bool
is_high rd tc aa qr op =
    let x = high_byte rd tc aa qr op in
    same (has_bit x 1) rd
    && same (has_bit x 2) tc
    && same (has_bit x 4) aa
    && same (has_bit x 128) qr
    && bit_and (x / 8) 0x0F == op
    && ltb x 256

abbrev is_low : Bool → Bool → Bool → Bool → ℕ → Bool
is_low cd ad z ra code =
    let x = low_byte cd ad z ra code in
    same (has_bit x 16) cd
    && same (has_bit x 32) ad
    && same (has_bit x 64) z
    && same (has_bit x 128) ra
    && bit_and x 0x0F == code
    && ltb x 256

over_all : (Bool → Bool → Bool → Bool → ℕ → Bool) → Bool
over_all p =
    all_bools (λ a. all_bools (λ b. all_bools (λ c. all_bools (λ d. always (p a b c d) 16))))

over_all_sound :
    (p : Bool → Bool → Bool → Bool → ℕ → Bool) (a b c d : Bool) (n : ℕ)
    → over_all p ≡ true
    → n < 16
    → p a b c d n ≡ true
unfolding over_all
over_all_sound p a b c d n h lt = always-at (p a b c d) lt (
    all_bools_sound (λ d. always (p a b c d) 16) d
      (all_bools_sound (λ c. all_bools (λ d. always (p a b c d) 16)) c
        (all_bools_sound (λ b. all_bools (λ c. all_bools (λ d. always (p a b c d) 16))) b
          (all_bools_sound
            (λ a. all_bools (λ b. all_bools (λ c. all_bools (λ d. always (p a b c d) 16)))) a h))))

high_table : over_all is_high ≡ true
unfolding over_all all_bools always same
high_table = refl

low_table : over_all is_low ≡ true
unfolding over_all all_bools always same
low_table = refl

pub rescode_num-small : (r : ResultCode) → rescode_num r < 16
unfolding rescode_num
rescode_num-small r = ground arith

-- What the test of a byte says.
parts :
    (a b c d a' b' c' d' : Bool) (x y n : ℕ)
    → (same a a' && same b b' && same c c' && same d d' && y == n && ltb x 256) ≡ true
    → (a ≡ a') × ((b ≡ b') × ((c ≡ c') × ((d ≡ d') × ((y ≡ n) × (x < 256)))))
parts a b c d a' b' c' d' x y n h =
    ground (arith, same_sound a a', same_sound b b', same_sound c c', same_sound d d')

high_byte_lem :
    (rd tc aa qr : Bool) (op : ℕ)
    → op < 16
    → let x : ℕ = high_byte rd tc aa qr op in
      (has_bit x 1 ≡ rd)
      × ((has_bit x 2 ≡ tc)
          × ((has_bit x 4 ≡ aa)
              × ((has_bit x 128 ≡ qr) × ((bit_and (x / 8) 0x0F ≡ op) × (x < 256)))))
high_byte_lem rd tc aa qr op lt =
    let x : ℕ = high_byte rd tc aa qr op in
    parts (has_bit x 1) (has_bit x 2) (has_bit x 4) (has_bit x 128) rd tc aa qr x
      (bit_and (x / 8) 0x0F) op (over_all_sound is_high rd tc aa qr op high_table lt)

low_byte_lem :
    (cd ad z ra : Bool) (code : ℕ)
    → code < 16
    → let x : ℕ = low_byte cd ad z ra code in
      (has_bit x 16 ≡ cd)
      × ((has_bit x 32 ≡ ad)
          × ((has_bit x 64 ≡ z) × ((has_bit x 128 ≡ ra) × ((bit_and x 0x0F ≡ code) × (x < 256)))))
low_byte_lem cd ad z ra code lt =
    let x : ℕ = low_byte cd ad z ra code in
    parts (has_bit x 16) (has_bit x 32) (has_bit x 64) (has_bit x 128) cd ad z ra x (bit_and x 0x0F)
      code (over_all_sound is_low cd ad z ra code low_table lt)

-- The header that `set_flags` makes of `h0`, when it reads the flags of `h`.
abbrev pub with_flags : DnsHeader → DnsHeader → DnsHeader
with_flags h h0 = record h0 {
  recursion_desired = h.recursion_desired;
  truncated_message = h.truncated_message;
  authoritative_answer = h.authoritative_answer;
  opcode = h.opcode;
  response = h.response;
  rescode = h.rescode;
  checking_disabled = h.checking_disabled;
  authed_data = h.authed_data;
  z = h.z;
  recursion_available = h.recursion_available;
}

-- A header whose opcode fits in four bits: the two bytes of flags are bytes, and the reader takes
-- from them every flag, the opcode and the result code of the header.
pub flags-set_flags :
    (h h0 : DnsHeader)
    → h.opcode < 16
    → (set_flags (flags_high h) (flags_low h) h0 ≡ with_flags h h0)
      × (flags_high h < 256)
      × (flags_low h < 256)
unfolding set_flags flags_high flags_low
flags-set_flags h h0 lt =
    let (rd, (tc, (aa, (qr, (op, high))))) =
      high_byte_lem h.recursion_desired h.truncated_message h.authoritative_answer h.response
        h.opcode lt in
    let (cd, (ad, (z, (ra, (code, low))))) =
      low_byte_lem h.checking_disabled h.authed_data h.z h.recursion_available
        (rescode_num h.rescode) (rescode_num-small h.rescode) in
    (
      ground
          (arith, rd, tc, aa, qr, op, cd, ad, z, ra, code, rescode_from_num-rescode_num h.rescode),
      high,
      low,
    )
