-- ===== src/P2p/Network/Laws.antt =====
-- What a property of the peers needs to survive the whole network thread: that it survives each
-- operation of `Peers` that the thread calls.
use gis.Base.{
  ℕ, Bool, true, false, List, Outcome, done, panic, stuck, ◌>>=◌, if◌then◌else◌, ◌≡◌, subst,
  done_injective,
}
use gis.Bytes.{Bytes, Text}
use gis.P2p.Addr.{SocketAddr}
use gis.P2p.Message.{Codec}
use gis.P2p.Peer.{Peer, State}
use gis.P2p.Peers.{
  Peers, modify_peer, close_peer, close_all_peers, ignore_peer, add_peers_from_exchange,
}
use gis.P2p.Peers.Update.{Draws, update}
use gis.P2p.Peers.Connect.{Dialing, connect_peers, connect_new_peers}
use gis.P2p.Network.Loop.{accept}

abbrev pub is_offline : State → Bool
is_offline (State.offline from) = true
is_offline _ = false

-- A change of a peer that leaves its address, and that takes no peer offline.
pub record IsMild (f : Peer → Peer) : Type 0 where
  pub same_address : (p : Peer) → (f p).addr ≡ p.addr
  pub online : (p : Peer) → is_offline p.state ≡ false → is_offline (f p).state ≡ false

pub quiet :
    (f : Peer → Peer)
    → ((p : Peer) → (f p).addr ≡ p.addr)
    → ((p : Peer) → (f p).state ≡ p.state)
    → IsMild f
quiet f h k = record { same_address = h; online = λ p online. rw (k p) online }

pub record PeersLaws (Good : Peers → Type 0) : Type 0 where
  pub changed :
      (token : ℕ) (f : Peer → Peer) (ps : Peers)
      → IsMild f
      → Good ps
      → Good (modify_peer token f ps)
  pub closed : (token : ℕ) (ps : Peers) → Good ps → Good (close_peer token ps)
  pub all_closed : (ps : Peers) → Good ps → Good (close_all_peers ps)
  pub shut_out : (token : ℕ) (ps ps' : Peers) → Good ps → ignore_peer token ps ≡ done ps' → Good ps'
  pub exchanged :
      (codec : Codec) (texts : List Text) (ps : Peers)
      → Good ps
      → Good (add_peers_from_exchange codec texts ps)
  pub accepted :
      (d : Dialing) (addr : SocketAddr) (ps : Peers) (token : ℕ)
      → Good ps
      → Good (accept d addr ps token).0
  pub dialed_new :
      (d : Dialing) (ps : Peers) (token : ℕ) → Good ps → Good (connect_new_peers d ps token).0
  pub dialed :
      (d : Dialing) (names : List Text) (ps : Peers) (token : ℕ)
      → Good ps
      → Good (connect_peers d names ps token).0
  pub updated :
      (codec : Codec) (d : Draws) (height : ℕ) (hash : Bytes) (ps : Peers)
      → Good ps
      → Good (update codec d height hash ps)

-- What holds of the answer of a computation, if it answers.
abbrev pub After : {A : Type 0} → (A → Type 0) → Outcome A → Type 0
After P (done a) = P a
After P panic = Unit
After P stuck = Unit

pub After-bind :
    {A B : Type 0} (Q : A → Type 0) (P : B → Type 0) (m : Outcome A) (f : A → Outcome B)
    → After Q m
    → ((a : A) → Q a → After P (f a))
    → After P (m >>= f)
After-bind Q P (done a) f q h = h a q
After-bind Q P panic f q h = tt
After-bind Q P stuck f q h = tt

pub After-if :
    {A : Type 0} (P : A → Type 0) (b : Bool) (x y : Outcome A)
    → After P x
    → After P y
    → After P (if b then x else y)
After-if P true x y hx hy = hx
After-if P false x y hx hy = hy

pub After-any : {A : Type 0} (m : Outcome A) → After (λ a. Unit) m
After-any (done a) = tt
After-any panic = tt
After-any stuck = tt

pub After-done :
    {A : Type 0} (P : A → Type 0) (m : Outcome A) {a : A} → After P m → m ≡ done a → P a
After-done P (done b) h e = subst P (done_injective e) h
After-done P panic h e = cc
After-done P stuck h e = cc
