-- ===== src/P2p/Addr.antt =====
-- The addresses of std::net that src/p2p works with, `is_yggdrasil` of src/commons/mod.rs, and
-- `skip_private_addr` of src/p2p/peers.rs.
use gis.Base.{ℕ, ◌/◌, ◌%◌, Bool, true, false, ◌&&◌, ◌||◌, List, [], ◌∷◌, leb, ◌==◌, if◌then◌else◌}
use gis.Dns.Protocol.Types.{Ipv4Addr, Ipv6Addr}
use gis.Dns.Cache.{same_v4, same_v6}
use gis.Commons.{is_yggdrasil_v6}

pub data IpAddr : Type 0 where
  v4 : Ipv4Addr → IpAddr
  v6 : Ipv6Addr → IpAddr

-- The last two fields are zero for an IPv4 address.
pub record SocketAddr : Type 0 where
  pub ip : IpAddr
  pub port : ℕ
  pub flowinfo : ℕ
  pub scope_id : ℕ

unfoldable pub same_ip : IpAddr → IpAddr → Bool
same_ip (IpAddr.v4 x) (IpAddr.v4 y) = same_v4 x y
same_ip (IpAddr.v6 x) (IpAddr.v6 y) = same_v6 x y
same_ip _ _ = false

unfoldable pub same_addr : SocketAddr → SocketAddr → Bool
same_addr x y =
    same_ip x.ip y.ip
    && (x.port == y.port && (x.flowinfo == y.flowinfo && x.scope_id == y.scope_id))

-- The six high segments of a mapped address, whose sixth is 0 or 0xffff.
abbrev has_v4_prefix : Ipv6Addr → Bool
has_v4_prefix x =
    x.s0 == 0
    && (x.s1 == 0 && (x.s2 == 0 && (x.s3 == 0 && (x.s4 == 0 && (x.s5 == 0 || x.s5 == 0xFFFF)))))

abbrev last_octets : Ipv6Addr → Ipv4Addr
last_octets x = record { o0 = x.s6 / 256; o1 = x.s6 % 256; o2 = x.s7 / 256; o3 = x.s7 % 256 }

unfoldable pub is_loopback : IpAddr → Bool
is_loopback (IpAddr.v4 x) = x.o0 == 127
is_loopback (IpAddr.v6 x) =
    x.s0 == 0
    && (x.s1 == 0
        && (x.s2 == 0 && (x.s3 == 0 && (x.s4 == 0 && (x.s5 == 0 && (x.s6 == 0 && x.s7 == 1))))))

unfoldable pub is_private : Ipv4Addr → Bool
is_private x =
    x.o0 == 10 || ((x.o0 == 172 && (leb 16 x.o1 && leb x.o1 31)) || (x.o0 == 192 && x.o1 == 168))

unfoldable pub is_yggdrasil : IpAddr → Bool
is_yggdrasil (IpAddr.v4 x) = false
is_yggdrasil (IpAddr.v6 x) = is_yggdrasil_v6 x

abbrev is_private_ip : IpAddr → Bool
is_private_ip (IpAddr.v4 x) = is_private x
is_private_ip (IpAddr.v6 x) = false

unfoldable pub skip_private_addr : SocketAddr → Bool
skip_private_addr addr = if is_loopback addr.ip then true else is_private_ip addr.ip

abbrev unmapped_ip : IpAddr → IpAddr
unmapped_ip (IpAddr.v4 x) = IpAddr.v4 x
unmapped_ip (IpAddr.v6 x) = if has_v4_prefix x then IpAddr.v4 (last_octets x) else IpAddr.v6 x

abbrev is_mapped : IpAddr → Bool
is_mapped (IpAddr.v4 x) = false
is_mapped (IpAddr.v6 x) = has_v4_prefix x

-- What the node takes the address of an incoming connection for.
unfoldable pub unmapped : SocketAddr → SocketAddr
unmapped addr =
    if is_mapped addr.ip
    then record { ip = unmapped_ip addr.ip; port = addr.port; flowinfo = 0; scope_id = 0 }
    else addr

unfoldable pub has_ip : IpAddr → List IpAddr → Bool
has_ip ip [] = false
has_ip ip (x ∷ xs) = if same_ip x ip then true else has_ip ip xs

-- `HashSet::insert`.
unfoldable pub insert_ip : IpAddr → List IpAddr → List IpAddr
insert_ip ip xs = if has_ip ip xs then xs else ip ∷ xs
