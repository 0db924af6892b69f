-- ===== src/P2p/Network/Events.antt =====
-- A property of the peers that meets `PeersLaws` survives each event of a connection.
use gis.Base.{
  ℕ, Bool, true, false, ◌&&◌, ◌||◌, Option, none, some, leb, if◌then◌else◌, ◌≡◌, refl, arith, inl,
  inr, Bool-cases, Option-cases, Outcome, done, panic, stuck, unwrap,
}
use gis.Bytes.{Bytes, Text}
use gis.Blockchain.Env.{Env}
use gis.P2p.Message.{Codec, from_bytes}
use gis.P2p.Peer.{Peer, State, set_state, reset_spurious}
use gis.P2p.Peers.{Peers, find_peer, ignore_peer, close_peer}
use gis.P2p.Network.Context.{Context}
use gis.P2p.Network.Stream.{read_message}
use gis.P2p.Network.Blocks.{Node}
use gis.P2p.Network.Handle.{set_peers, handle_message}
use gis.P2p.Network.Loop.{
  Ready, on_node, ban, take_state, written, on_writable, on_message, on_data, then_write,
  handle_readable, handle_connection_event, on_ready, post_status, woken,
}
use gis.P2p.Network.Laws.{PeersLaws, IsMild, quiet, is_offline, After, After-bind, After-any}
use gis.P2p.Network.Kept.{Fine, FineNode, handle_message-Fine}

-- What is written changes nothing but the socket.
written_rest :
    (codec : Codec) (now : ℕ) (my_id : Text) (x : Context) (s : State) (p : Peer)
    → ((written codec now my_id x s p).addr ≡ p.addr)
      × ((written codec now my_id x s p).state ≡ p.state)
unfolding written
written_rest codec now my_id x State.connecting p = (refl, refl)
written_rest codec now my_id x (State.message content) p = (refl, refl)
written_rest codec now my_id x (State.idle from) p = ground arith
written_rest codec now my_id x State.send_loop p = (refl, refl)
written_rest codec now my_id x State.twin p = (refl, refl)
written_rest codec now my_id x State.connected p = (refl, refl)
written_rest codec now my_id x State.error p = (refl, refl)
written_rest codec now my_id x State.banned p = (refl, refl)
written_rest codec now my_id x State.loop p = (refl, refl)
written_rest codec now my_id x (State.offline from) p = (refl, refl)

-- A new state that is not offline, with a change of the socket or without.
moved-IsMild :
    (f : Peer → Peer) (s : State)
    → ((p : Peer) → (f p).addr ≡ p.addr)
    → ((p : Peer) → (f p).state ≡ s)
    → is_offline s ≡ false
    → IsMild f
moved-IsMild f s h k online = record { same_address = h; online = λ p old. rw (k p) online }

module _ (Good : Peers → Type 0) (laws : PeersLaws Good) where
  -- What is kept by a computation that also answers whether to go on.
  abbrev KeptNode : Bool × Node → Type 0
  KeptNode (more, n) = Good n.peers

  ban-Good : (token : ℕ) (n : Node) → Good n.peers → After (FineNode Good laws) (ban token n)
  ban-Good token n good =
      After-bind (λ ps. Good ps) (FineNode Good laws) (ignore_peer token n.peers) _
        (shut_out_after (ignore_peer token n.peers) refl) (λ ps g. g)
    where
      shut_out_after : (o : Outcome Peers) → ignore_peer token n.peers ≡ o → After (λ ps. Good ps) o
      shut_out_after (done ps) e = laws.shut_out token n.peers ps good e
      shut_out_after panic e = tt
      shut_out_after stuck e = tt

  take_state-Good :
      (now token : ℕ) (s : State) (n : Node)
      → is_offline s ≡ false
      → Good n.peers
      → After (FineNode Good laws) (take_state now token s n)
  unfolding take_state
  take_state-Good now token (State.message content) n h good =
      laws.changed token _ n.peers
        (moved-IsMild _ (State.message content) (λ p. refl) (λ p. refl) refl) good
  take_state-Good now token State.connecting n h good = good
  take_state-Good now token State.connected n h good = good
  take_state-Good now token (State.idle from) n h good =
      laws.changed token _ n.peers (moved-IsMild _ (State.idle now) (λ p. refl) (λ p. refl) refl)
        good
  take_state-Good now token State.error n h good = good
  take_state-Good now token State.banned n h good = ban-Good token n good
  take_state-Good now token (State.offline from) n h good = cc
  take_state-Good now token State.loop n h good =
      ban-Good token (on_node token (set_state State.loop) n)
        (laws.changed token _ n.peers (moved-IsMild _ State.loop (λ p. refl) (λ p. refl) refl) good)
  take_state-Good now token State.send_loop n h good =
      laws.changed token _ n.peers (moved-IsMild _ State.send_loop (λ p. refl) (λ p. refl) refl)
        good
  take_state-Good now token State.twin n h good =
      laws.changed token _ n.peers (moved-IsMild _ State.twin (λ p. refl) (λ p. refl) refl) good

  module _ (codec : Codec) where
    on_writable-Good :
        (now token : ℕ) (n : Node) → Good n.peers → Good (on_writable codec now token n).peers
    unfolding on_writable
    on_writable-Good now token n good =
        laws.changed token _ n.peers
          (quiet _ (λ p. (written_rest codec now n.peers.my_id n.context p.state p).0)
            (λ p. (written_rest codec now n.peers.my_id n.context p.state p).1))
          good

    then_write-Good :
        (env : Env) (fuel : ℕ) (e : Ready) (r : Bool × Node)
        → KeptNode r
        → KeptNode (then_write codec env fuel e r)
    then_write-Good env fuel e (false, n) good = good
    then_write-Good env fuel e (true, n) good = elim (Bool-cases e.is_writable) [
      | inl w ↦ rw w (on_writable-Good e.chance.now e.token n good)
      | inr w ↦ rw w good
    ]

    module _ (env : Env) (fuel : ℕ) where
      on_message-Good :
          (e : Ready) (content : Bytes) (n : Node)
          → Good n.peers
          → After KeptNode (on_message codec env fuel e content n)
      unfolding on_message
      on_message-Good e content n good = elim (Option-cases (from_bytes codec content)) [
        | inl failed ↦ rw (failed, on_message) good
        | inr (m, parsed) ↦
            rw (parsed, on_message)
              (After-bind (Fine Good laws) KeptNode
                (handle_message codec e.chance env fuel m e.token n) _
                (handle_message-Fine Good laws codec e.chance env fuel e.token m n good)
                (λ r fine.
                  After-bind (λ p. Unit) KeptNode (unwrap (find_peer e.token r.1.peers.peers)) _
                    (After-any (unwrap (find_peer e.token r.1.peers.peers)))
                    (λ p u.
                      After-bind (FineNode Good laws) KeptNode
                        (take_state e.chance.now e.token r.0 r.1) _
                        (take_state-Good e.chance.now e.token r.0 r.1 fine.0 fine.1) (λ n' g. g))))
      ]

      on_data-Good :
          (e : Ready) (content : Option Bytes) (n : Node)
          → Good n.peers
          → After KeptNode (on_data codec env fuel e content n)
      unfolding on_data
      on_data-Good e none n good = good
      on_data-Good e (some content) n good = on_message-Good e content n good

      handle_readable-Good :
          (e : Ready) (n : Node)
          → Good n.peers
          → After KeptNode (handle_readable codec env fuel e n)
      unfolding handle_readable
      handle_readable-Good e n good = elim (Option-cases (find_peer e.token n.peers.peers)) [
        | inl missing ↦ rw (missing, handle_readable) good
        | inr (p, found) ↦
            rw (found, handle_readable)
              (elim (Bool-cases e.is_read_closed) [
                | inl closed ↦ rw closed (elim (Bool-cases (leb 3 p.spurious)) [
                  | inl often ↦ rw often good
                  | inr seldom ↦
                      rw seldom
                        (laws.changed e.token woken n.peers (quiet _ (λ q. refl) (λ q. refl)) good)
                ])
                | inr open' ↦ rw open' (
                    After-bind (λ d. Unit) KeptNode (read_message fuel e.size e.reads) _
                      (After-any (read_message fuel e.size e.reads))
                      (λ d u.
                        After-bind KeptNode KeptNode
                          (on_data codec env fuel e d (on_node e.token reset_spurious n)) _
                          (on_data-Good e d (on_node e.token reset_spurious n) (
                            laws.changed e.token reset_spurious n.peers
                              (quiet _ (λ q. refl) (λ q. refl)) good))
                          (λ r g. then_write-Good env fuel e r g)))
              ])
      ]

      handle_connection_event-Good :
          (e : Ready) (n : Node)
          → Good n.peers
          → After KeptNode (handle_connection_event codec env fuel e n)
      unfolding handle_connection_event
      handle_connection_event-Good e n good =
          elim (Bool-cases (e.is_error || (e.is_read_closed && e.is_write_closed))) [
            | inl failed ↦ rw (failed, handle_connection_event) good
            | inr sane ↦
                rw (sane, handle_connection_event)
                  (elim (Bool-cases e.is_readable) [
                    | inl r ↦ rw r (handle_readable-Good e n good)
                    | inr r ↦ rw r (then_write-Good env fuel e (true, n) good)
                  ])
          ]

      closed_unless-Good :
          (e : Ready) (r : Bool × Node)
          → KeptNode r
          → Good
              (if r.0
                then r.1
                else post_status codec env fuel
                    (set_peers (close_peer e.token r.1.peers) r.1)).peers
      closed_unless-Good e (true, n) good = good
      closed_unless-Good e (false, n) good = laws.closed e.token n.peers good

      pub on_ready-Good :
          (e : Ready) (n : Node)
          → Good n.peers
          → After (FineNode Good laws) (on_ready codec env fuel e n)
      unfolding on_ready
      on_ready-Good e n good =
          After-bind KeptNode (FineNode Good laws) (handle_connection_event codec env fuel e n) _
            (handle_connection_event-Good e n good) (λ r g. closed_unless-Good e r g)
