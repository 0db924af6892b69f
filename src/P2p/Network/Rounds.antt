-- ===== src/P2p/Network/Rounds.antt =====
-- A property of the peers that meets `PeersLaws` survives the whole thread of the network.
use gis.Base.{
  ℕ, Bool, true, false, not, ◌&&◌, List, [], ◌∷◌, none, some, ltb, leb, ◌≡◌, inl, inr, Bool-cases,
  done, ◌-◌,
}
use gis.Bytes.{Text, is_empty}
use gis.Blockchain.Env.{Env}
use gis.P2p.Message.{Codec}
use gis.P2p.Peer.{elapsed_secs}
use gis.P2p.Peers.{Peers}
use gis.P2p.Peers.Update.{max_nodes}
use gis.P2p.Peers.Connect.{Dialing}
use gis.P2p.Network.Loop.{
  on_ready, PollEvent, Thread, Round, bootstrap, note_events, refresh, on_timer, handle_event,
  handle_events, round, rounds, dial_new,
}
use gis.P2p.Network.Laws.{PeersLaws, After, After-bind, After-done}
use gis.P2p.Network.Events.{on_ready-Good}
use gis.P2p.Network.Kept.{FineNode}

module _ (Good : Peers → Type 0) (laws : PeersLaws Good) where
  abbrev GoodThread : Thread → Type 0
  GoodThread t = Good t.node.peers

  bootstrap-Good :
      (names : List Text) (r : Round) (t : Thread) → GoodThread t → GoodThread (bootstrap names r t)
  unfolding bootstrap
  bootstrap-Good names r t good =
      elim (Bool-cases
        (is_empty t.node.peers.peers && ltb 60 (elapsed_secs r.start t.bootstrap_timer))) [
          | inl due ↦ rw due (laws.dialed r.dialing names t.node.peers t.unique_token good)
          | inr not_due ↦ rw not_due good
        ]

  note_events-Good : (r : Round) (t : Thread) → GoodThread t → GoodThread (note_events r t)
  unfolding note_events
  note_events-Good r t good = elim (Bool-cases (not (is_empty r.events))) [
    | inl some' ↦ rw some' good
    | inr silent ↦ elim (Bool-cases (ltb 180 (elapsed_secs r.now t.last_events_time))) [
      | inl long ↦ rw (silent, long) (laws.all_closed t.node.peers good)
      | inr short ↦ rw (silent, short) good
    ]
  ]

  dial_new-Good :
      (r : Round) (nodes : ℕ) (t : Thread) → GoodThread t → GoodThread (dial_new r nodes t)
  dial_new-Good r nodes t good =
      elim (Bool-cases (ltb nodes max_nodes && leb 10 (elapsed_secs r.now t.connect_timer))) [
        | inl due ↦ rw due (laws.dialed_new r.dialing t.node.peers t.unique_token good)
        | inr not_due ↦ rw not_due good
      ]

  module _ (codec : Codec) where
    refresh-Good : (r : Round) (t : Thread) → GoodThread t → GoodThread (refresh codec r t)
    unfolding refresh
    refresh-Good r t good = laws.updated codec r.draws _ _ _ (dial_new-Good r _ _ good)

    on_timer-Good : (r : Round) (t : Thread) → GoodThread t → GoodThread (on_timer codec r t)
    unfolding on_timer
    on_timer-Good r t good = elim (Bool-cases (ltb 600 (r.now - t.ui_timer))) [
      | inl due ↦ rw due (refresh-Good r t good)
      | inr soon ↦ rw soon good
    ]

    module _ (env : Env) (fuel : ℕ) where
      handle_event-Good :
          (d : Dialing) (e : PollEvent) (t : Thread)
          → GoodThread t
          → After GoodThread (handle_event codec env fuel d e t)
      unfolding handle_event
      handle_event-Good d (PollEvent.server none) t good = good
      handle_event-Good d (PollEvent.server (some address)) t good =
          laws.accepted d address t.node.peers t.unique_token good
      handle_event-Good d (PollEvent.ready e) t good =
          After-bind (FineNode Good laws) GoodThread (on_ready codec env fuel e t.node) _
            (on_ready-Good Good laws codec env fuel e t.node good) (λ n g. g)

      handle_events-Good :
          (d : Dialing) (es : List PollEvent) (t : Thread)
          → GoodThread t
          → After GoodThread (handle_events codec env fuel d es t)
      unfolding handle_events
      handle_events-Good d [] t good = good
      handle_events-Good d (e ∷ es) t good =
          After-bind GoodThread GoodThread (handle_event codec env fuel d e t) _
            (handle_event-Good d e t good) (λ t' g. handle_events-Good d es t' g)

      abbrev KeptThread : Bool × Thread → Type 0
      KeptThread (more, t) = GoodThread t

      round-Good :
          (names : List Text) (r : Round) (t : Thread)
          → GoodThread t
          → After KeptThread (round codec env fuel names r t)
      unfolding round
      round-Good names r t good =
          let good1 = bootstrap-Good names r t good in
          elim (Bool-cases r.running) [
            | inr stopped ↦ rw (stopped, round) good1
            | inl on ↦
                rw (on, round)
                  (After-bind GoodThread KeptThread
                    (handle_events codec env fuel r.dialing r.events (bootstrap names r t)) _
                    (handle_events-Good r.dialing r.events (bootstrap names r t) good1)
                    (λ t' g. on_timer-Good r (note_events r t') (note_events-Good r t' g)))
          ]

      rounds-After :
          (names : List Text) (rs : List Round) (t : Thread)
          → GoodThread t
          → After GoodThread (rounds codec env fuel names rs t)
      unfolding rounds
      rounds-After names [] t good = good
      rounds-After names (r ∷ rs) t good =
          After-bind KeptThread GoodThread (round codec env fuel names r t) _
            (round-Good names r t good) (next (λ t' g. rounds-After names rs t' g))
        where
          next :
              ((t' : Thread) → GoodThread t' → After GoodThread (rounds codec env fuel names rs t'))
              → (a : Bool × Thread) → KeptThread a
              → After GoodThread
                  (elim a.0 [ true ↦ rounds codec env fuel names rs a.1 | false ↦ done a.1 ])
          next later (true, t') g = later t' g
          next later (false, t') g = g

      -- A property that survives the operations of `Peers` survives every run of the thread.
      pub rounds-Good :
          (names : List Text) (rs : List Round) (t t' : Thread)
          → GoodThread t
          → rounds codec env fuel names rs t ≡ done t'
          → GoodThread t'
      rounds-Good names rs t t' good e =
          After-done GoodThread (rounds codec env fuel names rs t) (rounds-After names rs t good) e
