-- ===== src/Dns/Hosts.antt =====
-- src/dns/hosts.rs: a hosts file, and the answers from it. `parse_ip` is `str::parse::<IpAddr>`, and
-- `trim` knows the ASCII white space.
use gis.Base.{
  ℕ, Bool, true, false, ◌&&◌, ◌||◌, List, [], ◌∷◌, Option, none, some, leb, ◌==◌, if◌then◌else◌,
  ◌≡◌, refl, subst, ◌∙◌,
}
use gis.Bytes.{Text, codes, is_empty, same_hash}
use gis.Bytes.Equality.{same_hash_sound}
use gis.Dns.Protocol.Types.{DnsRecord, DnsPacket, QueryType, new_packet, same_type}
use gis.P2p.Addr.{IpAddr}

abbrev pub HostMap : Type 0
HostMap = List (Text × List IpAddr)

unfoldable pub get_hosts : Text → HostMap → Option (List IpAddr)
get_hosts name [] = none
get_hosts name ((n, addrs) ∷ hosts) = if same_hash n name then some addrs else get_hosts name hosts

-- `map.entry(domain).or_insert(vec!(addr))`.
unfoldable pub or_insert : Text → IpAddr → HostMap → HostMap
or_insert name addr hosts = elim (get_hosts name hosts) [
  | none ↦ (name, addr ∷ []) ∷ hosts
  | some addrs ↦ hosts
]

abbrev is_space : ℕ → Bool
is_space c = c == b' ' || leb 9 c && leb c 13

unfoldable pub trim_start : Text → Text
trim_start [] = []
trim_start (c ∷ cs) = if is_space c then trim_start cs else c ∷ cs

unfoldable pub trim_end : Text → Text
trim_end [] = []
trim_end (c ∷ cs) = let rest = trim_end cs in if is_empty rest && is_space c then [] else c ∷ rest

abbrev trim : Text → Text
trim text = trim_end (trim_start text)

abbrev tabs_to_spaces : Text → Text
tabs_to_spaces [] = []
tabs_to_spaces (c ∷ cs) = (if c == 9 then b' ' else c) ∷ tabs_to_spaces cs

-- `splitn(2, " ")`: what stands before the first space and behind it.
unfoldable pub split_space : Text → Text × Option Text
split_space [] = ([], none)
split_space (c ∷ cs) =
    let (front, rest) = split_space cs in if c == b' ' then ([], some cs) else (c ∷ front, rest)

abbrev is_skipped : Text → Bool
is_skipped [] = true
is_skipped (c ∷ cs) = c == b'#'

module _ (parse_ip : Text → Option IpAddr) where
  abbrev named_addr : Text × Option Text → Option (Text × IpAddr)
  named_addr (ip, none) = none
  named_addr (ip, some rest) = elim (parse_ip (trim ip)) [
    | none ↦ none
    | some addr ↦ if is_empty (trim rest) then none else some (trim rest, addr)
  ]

  -- The name and the address of a line.
  unfoldable pub parse_line : Text → Option (Text × IpAddr)
  parse_line line = if is_skipped line then none else named_addr (split_space (tabs_to_spaces line))

  abbrev add_line : Option (Text × IpAddr) → HostMap → HostMap
  add_line none hosts = hosts
  add_line (some (name, addr)) hosts = or_insert name addr hosts

  -- The loop of `new`.
  unfoldable pub load_lines : List Text → HostMap → HostMap
  load_lines [] hosts = hosts
  load_lines (line ∷ lines) hosts = load_lines lines (add_line (parse_line line) hosts)

  -- The address of the first line for a name.
  abbrev pick : Text → Option (Text × IpAddr) → Option (List IpAddr) → Option (List IpAddr)
  pick name none rest = rest
  pick name (some (n, addr)) rest = if same_hash n name then some (addr ∷ []) else rest

  abbrev pub first_line : Text → List Text → Option (List IpAddr)
  first_line name [] = none
  first_line name (line ∷ lines) = pick name (parse_line line) (first_line name lines)

  abbrev pub or_else : Option (List IpAddr) → Option (List IpAddr) → Option (List IpAddr)
  or_else none other = other
  or_else (some addrs) other = some addrs

  get_hosts-add_line :
      (name : Text) (entry : Option (Text × IpAddr)) (hosts : HostMap)
      → (rest : Option (List IpAddr))
      → or_else (get_hosts name (add_line entry hosts)) rest
        ≡ or_else (get_hosts name hosts) (pick name entry rest)
  unfolding get_hosts or_insert
  get_hosts-add_line name none hosts rest = refl
  get_hosts-add_line name (some (n, addr)) hosts rest =
      known (get_hosts n hosts) refl (same_hash n name) refl
    where
      known :
          (found : Option (List IpAddr))
          → get_hosts n hosts ≡ found
          → (same : Bool) → same_hash n name ≡ same
          → or_else
              (get_hosts name (elim found [ none ↦ (n, addr ∷ []) ∷ hosts | some addrs ↦ hosts ]))
              rest
            ≡ or_else (get_hosts name hosts) (if same then some (addr ∷ []) else rest)
      known none e true s =
          let e' : get_hosts name hosts ≡ none =
            subst (λ x. get_hosts x hosts ≡ none) (same_hash_sound n name s) e in
          rw (s, e') refl
      known none e false s = rw s refl
      known (some addrs) e true s =
          let e' : get_hosts name hosts ≡ some addrs =
            subst (λ x. get_hosts x hosts ≡ some addrs) (same_hash_sound n name s) e in
          rw e' refl
      known (some addrs) e false s = refl

  get_hosts-load_lines :
      (name : Text) (lines : List Text) (hosts : HostMap)
      → get_hosts name (load_lines lines hosts)
        ≡ or_else (get_hosts name hosts) (first_line name lines)
  unfolding load_lines
  get_hosts-load_lines name [] hosts = or_else_none (get_hosts name hosts)
    where
      or_else_none : (r : Option (List IpAddr)) → r ≡ or_else r none
      or_else_none none = refl
      or_else_none (some addrs) = refl
  get_hosts-load_lines name (line ∷ lines) hosts =
      get_hosts-load_lines name lines (add_line (parse_line line) hosts)
      ∙ get_hosts-add_line name (parse_line line) hosts (first_line name lines)

  -- A name has the one address of the first line of the file for it, whatever later lines give it.
  pub get_hosts-first_line :
      (name : Text) (lines : List Text)
      → get_hosts name (load_lines lines []) ≡ first_line name lines
  unfolding get_hosts
  get_hosts-first_line name lines = get_hosts-load_lines name lines []

-- The records of the addresses of the type asked for.
unfoldable pub host_records : QueryType → Text → List IpAddr → List DnsRecord
host_records qtype qname [] = []
host_records qtype qname (IpAddr.v4 addr ∷ addrs) =
    let rest = host_records qtype qname addrs in
    if same_type qtype QueryType.a then DnsRecord.a qname addr 2 ∷ rest else rest
host_records qtype qname (IpAddr.v6 addr ∷ addrs) =
    let rest = host_records qtype qname addrs in
    if same_type qtype QueryType.aaaa then DnsRecord.aaaa qname addr 2 ∷ rest else rest

unfoldable pub lookup : Text → QueryType → HostMap → Option DnsPacket
lookup qname qtype hosts = elim (get_hosts qname hosts) [
  | none ↦ none
  | some list ↦ some (record new_packet {
    header = record new_packet.header { authoritative_answer = true };
    questions = record { name = qname; qtype = qtype } ∷ [];
    answers = host_records qtype qname list;
    authorities = DnsRecord.ns (codes "hosts") (codes "hosts") 600 ∷ [];
  })
]
