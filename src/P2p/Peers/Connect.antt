-- ===== src/P2p/Peers/Connect.antt =====
-- The outgoing connections of src/p2p/peers.rs.
use gis.Base.{
  ℕ, Bool, true, false, ◌&&◌, not, List, [], ◌∷◌, Option, none, some, leb, if◌then◌else◌, length,
  add64,
}
use gis.Bytes.{Text}
use gis.P2p.Addr.{SocketAddr, same_addr, has_ip, is_yggdrasil}
use gis.P2p.Peer.{State, Interest, TcpStream, new_peer, set_public}
use gis.P2p.Peers.{Peers, add_peer}

-- What a connection depends on: the setting `yggdrasil_only`, and whether a socket can be made.
pub record Dialing : Type 0 where
  pub yggdrasil_only : Bool
  pub connects : SocketAddr → Bool
  pub resolve : Text → Option (List SocketAddr)

abbrev pub fresh : Interest → TcpStream
fresh interest = record { interest = interest; sent = [] }

-- The answer: the peers, the next token, and whether the connection was made.
unfoldable pub connect_peer : Dialing → SocketAddr → Peers → ℕ → Peers × ℕ × Bool
connect_peer d addr ps unique_token =
    if has_ip addr.ip ps.ignored
    then (ps, unique_token, false)
    else if d.yggdrasil_only && not (is_yggdrasil addr.ip)
    then (ps, unique_token, false)
    else if d.connects addr
    then (
      add_peer unique_token
          (set_public true (new_peer addr (fresh Interest.writable) State.connecting false)) ps,
      add64 unique_token 1,
      true,
    )
    else (ps, unique_token, false)

-- `Vec::dedup`: of equal neighbours the first stays.
unfoldable pub dedup_from : SocketAddr → List SocketAddr → List SocketAddr
dedup_from a [] = []
dedup_from a (b ∷ bs) = if same_addr a b then dedup_from a bs else b ∷ dedup_from b bs

abbrev pub dedup : List SocketAddr → List SocketAddr
dedup [] = []
dedup (a ∷ as') = a ∷ dedup_from a as'

abbrev pub first_new : Dialing → List SocketAddr → Peers → ℕ → Peers × ℕ
first_new d [] ps unique_token = (ps, unique_token)
first_new d (addr ∷ rest) ps unique_token =
    let (ps', token', made) = connect_peer d addr (record ps { new_peers = rest }) unique_token in
    (ps', token')

unfoldable pub connect_new_peers : Dialing → Peers → ℕ → Peers × ℕ
connect_new_peers d ps unique_token = first_new d (dedup ps.new_peers) ps unique_token

unfoldable pub has_addr : SocketAddr → List SocketAddr → Bool
has_addr a [] = false
has_addr a (b ∷ bs) = if same_addr b a then true else has_addr a bs

-- The `while` loop over the addresses of one name; `set` holds those that are connected.
unfoldable pub connect_all :
    Dialing → List SocketAddr → List SocketAddr → Peers → ℕ → List SocketAddr × Peers × ℕ
connect_all d [] set ps unique_token = (set, ps, unique_token)
connect_all d (addr ∷ rest) set ps unique_token = elim (has_addr addr set) [
  | true ↦ connect_all d rest set ps unique_token
  | false ↦
      let (ps', token', made) = connect_peer d addr ps unique_token in
      connect_all d rest (if made then addr ∷ set else set) ps' token'
]

-- The loop over the names. The addresses left over for `new_peers` are none: the `while` loop takes
-- them all.
unfoldable pub connect_names : Dialing → List Text → List SocketAddr → Peers → ℕ → Peers × ℕ
connect_names d [] set ps unique_token = (ps, unique_token)
connect_names d (name ∷ names) set ps unique_token = elim (d.resolve name) [
  | none ↦ connect_names d names set ps unique_token
  | some addresses ↦ elim (leb 10 (length set)) [
    | true ↦ (ps, unique_token)
    | false ↦
        let (set', ps', token') = connect_all d addresses set ps unique_token in
        connect_names d names set' ps' token'
  ]
]

unfoldable pub connect_peers : Dialing → List Text → Peers → ℕ → Peers × ℕ
connect_peers d names ps unique_token = connect_names d names [] ps unique_token
