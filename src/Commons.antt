-- ===== src/Commons.antt =====
-- src/commons/mod.rs and src/commons/constants.rs.
pub mod Domain
use gis.Base.{
  ℕ, zero, suc, ◌+◌, ◌-◌, ◌*◌, ◌/◌, ◌%◌, Bool, true, false, not, ◌&&◌, ◌||◌, List, [], ◌∷◌, ◌++◌,
  Option, none, some, ltb, leb, ◌==◌, if◌then◌else◌,
}
use gis.Bytes.{Bytes, Text}
use gis.Dns.Protocol.Types.{DnsRecord, Ipv4Addr, Ipv6Addr}

abbrev pub chain_version : ℕ
chain_version = 0

abbrev pub zone_difficulty : ℕ
zone_difficulty = 28

abbrev pub signer_difficulty : ℕ
signer_difficulty = 16

abbrev pub keystore_difficulty : ℕ
keystore_difficulty = 23

abbrev pub block_signers_start : ℕ
block_signers_start = 0

abbrev pub block_signers_all : ℕ
block_signers_all = 7

abbrev pub block_signers_min : ℕ
block_signers_min = 2

abbrev pub new_domains_interval : ℕ
new_domains_interval = 86400

abbrev pub domain_lifetime : ℕ
domain_lifetime = 86400 * 365

-- One upper-case hexadecimal digit, and `to_hex`.
abbrev pub hex_digit : ℕ → ℕ
hex_digit d = if ltb d 10 then b'0' + d else b'A' + (d - 10)

unfoldable pub to_hex : Bytes → Text
to_hex [] = []
to_hex (x ∷ xs) = hex_digit (x / 16) ∷ hex_digit (x % 16) ∷ to_hex xs

abbrev pub is_digit : ℕ → Bool
is_digit c = leb b'0' c && leb c b'9'

abbrev pub is_upper : ℕ → Bool
is_upper c = leb b'A' c && leb c b'Z'

abbrev pub is_lower : ℕ → Bool
is_lower c = leb b'a' c && leb c b'z'

unfoldable pub is_alphanumeric : ℕ → Bool
is_alphanumeric c = is_digit c || is_upper c || is_lower c

abbrev pub starts_with_byte : ℕ → Text → Bool
starts_with_byte b [] = false
starts_with_byte b (c ∷ cs) = c == b

abbrev pub ends_with_byte : ℕ → Text → Bool
ends_with_byte b [] = false
ends_with_byte b (c ∷ []) = c == b
ends_with_byte b (c ∷ (d ∷ ds)) = ends_with_byte b (d ∷ ds)

-- The loop of `check_domain`, with its two flags.
unfoldable pub check_chars : Bool → Bool → Bool → Text → Bool
unfolding is_alphanumeric
check_chars allow_dots last_dot last_hyphen [] = true
check_chars allow_dots last_dot last_hyphen (c ∷ cs) = elim (allow_dots && c == b'.') [
  | true ↦ elim last_dot [ true ↦ false | false ↦ check_chars allow_dots true last_hyphen cs ]
  | false ↦ elim (c == b'-') [
    | true ↦ elim last_hyphen [ true ↦ false | false ↦ check_chars allow_dots last_dot true cs ]
    | false ↦ elim (is_alphanumeric c) [
      | true ↦ check_chars allow_dots false false cs
      | false ↦ false
    ]
  ]
]

unfoldable pub check_domain : Text → Bool → Bool
unfolding check_chars
check_domain name allow_dots =
    if starts_with_byte b'.' name
      || starts_with_byte b'-' name
      || ends_with_byte b'.' name
      || ends_with_byte b'-' name
    then false
    else check_chars allow_dots false false name

-- `rsplitn(2, ".")`: what stands behind the last dot, and what stands before it.
unfoldable pub rsplit_dot : Text → Text × Option Text
rsplit_dot [] = ([], none)
rsplit_dot (c ∷ cs) =
    let (zone, rest) = rsplit_dot cs in
    elim rest [
      | some r ↦ (zone, some (c ∷ r))
      | none ↦ if c == b'.' then (zone, some []) else (c ∷ zone, none)
    ]

unfoldable pub get_domain_zone : Text → Text
unfolding rsplit_dot
get_domain_zone domain = (rsplit_dot domain).0

-- The first octet is the high half of the first segment.
unfoldable pub is_yggdrasil_v6 : Ipv6Addr → Bool
is_yggdrasil_v6 addr = addr.s0 / 256 == 2 || addr.s0 / 256 == 3

unfoldable pub is_yggdrasil_record : DnsRecord → Bool
unfolding is_yggdrasil_v6
is_yggdrasil_record (DnsRecord.a _ _ _) = false
is_yggdrasil_record (DnsRecord.aaaa _ addr _) = is_yggdrasil_v6 addr
is_yggdrasil_record (DnsRecord.unknown _ _ _ _) = true
is_yggdrasil_record (DnsRecord.ns _ _ _) = true
is_yggdrasil_record (DnsRecord.cname _ _ _) = true
is_yggdrasil_record (DnsRecord.soa _ _ _ _ _ _ _ _ _) = true
is_yggdrasil_record (DnsRecord.mx _ _ _ _) = true
is_yggdrasil_record (DnsRecord.txt _ _ _) = true
is_yggdrasil_record (DnsRecord.srv _ _ _ _ _ _) = true
is_yggdrasil_record (DnsRecord.opt _ _ _) = true
