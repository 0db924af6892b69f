-- ===== src/Dns/Server/Udp/Backlog.antt =====
-- Requests that are left behind, and threads that end.
use gis.Base.{ℕ, ◌+◌, ◌≤◌, List, [], ◌∷◌, length, ◌≡◌, refl, ap, ◌∙◌, arith, length-append}
use gis.Dns.Resolve.{ServerContext}
use gis.Dns.Server.Udp.{
  ServerEvent, Advances, Reach, Step, UdpServer, Worker, arrivals_of, found_none, here, later,
  not_sent, notified, panicked, popped, queued, replied, settled, spurious_of, start, there, total,
  woken_up,
}

abbrev pub is_woken : Worker → ℕ
is_woken Worker.woken = 1
is_woken _ = 0

abbrev pub is_alive : Worker → ℕ
is_alive Worker.ended = 0
is_alive _ = 1

abbrev is_busy : Worker → ℕ
is_busy (Worker.busy _ _) = 1
is_busy _ = 0

-- The requests in the queue, those that a thread has, and those that were answered.
abbrev pub requests : UdpServer → ℕ
requests s = length s.request_queue + total is_busy s.workers + length s.replies

total-Advances :
    {w w' : Worker} {ws ws' : List Worker} (f : Worker → ℕ)
    → Advances w w' ws ws'
    → total f ws' + f w ≡ total f ws + f w'
total-Advances f here = omega arith
total-Advances f (there m) = omega (arith, total-Advances f m)

total-Moves_le :
    {w w' : Worker} {ws ws' : List Worker} (f : Worker → ℕ)
    → Advances w w' ws ws'
    → f w ≤ total f ws
total-Moves_le f here = omega arith
total-Moves_le f (there m) = omega (arith, total-Moves_le f m)

module _ {ctx : ServerContext} {fuel : ℕ} where
  Step-backlog :
      {e : ServerEvent} {s t : UdpServer}
      → Step ctx fuel e s t
      → length s.request_queue + total is_woken t.workers
        ≤ length t.request_queue + total is_woken s.workers + spurious_of e
  Step-backlog (queued src request s none) =
      omega (arith, length-append s.request_queue ((src, request) ∷ []))
  Step-backlog (notified src request s ws m) =
      omega (arith, length-append s.request_queue ((src, request) ∷ []), total-Advances is_woken m)
  Step-backlog (settled s ws m) = omega (arith, total-Advances is_woken m)
  Step-backlog (woken_up s ws m) = omega (arith, total-Advances is_woken m)
  Step-backlog (popped src request rest s ws e m) =
      omega (arith, ap length e, total-Advances is_woken m)
  Step-backlog (found_none s ws e m) = omega (arith, total-Advances is_woken m)
  Step-backlog (replied src request bytes r s ws e m) = omega (arith, total-Advances is_woken m)
  Step-backlog (not_sent src request bytes r s ws e m) = omega (arith, total-Advances is_woken m)
  Step-backlog (panicked src request s ws e m) = omega (arith, total-Advances is_woken m)

  Reach-backlog_woken :
      {s t : UdpServer} {wakes arrivals : ℕ}
      → Reach ctx fuel s wakes arrivals t
      → length s.request_queue + total is_woken t.workers
        ≤ length t.request_queue + total is_woken s.workers + wakes
  Reach-backlog_woken start = omega arith
  Reach-backlog_woken (later e r st) = omega (arith, Reach-backlog_woken r, Step-backlog st)

  -- A request that came in stands in the queue, is with a thread, was answered, or a thread ended
  -- over it.
  Step-lost :
      {e : ServerEvent} {s t : UdpServer}
      → Step ctx fuel e s t
      → requests s + arrivals_of e + total is_alive t.workers
        ≡ requests t + total is_alive s.workers
  Step-lost (queued src request s none) =
      omega (arith, length-append s.request_queue ((src, request) ∷ []))
  Step-lost (notified src request s ws m) = omega (
    arith,
    length-append s.request_queue ((src, request) ∷ []),
    total-Advances is_busy m,
    total-Advances is_alive m,
  )
  Step-lost (settled s ws m) = omega (arith, total-Advances is_busy m, total-Advances is_alive m)
  Step-lost (woken_up s ws m) = omega (arith, total-Advances is_busy m, total-Advances is_alive m)
  Step-lost (popped src request rest s ws e m) =
      omega (arith, ap length e, total-Advances is_busy m, total-Advances is_alive m)
  Step-lost (found_none s ws e m) =
      omega (arith, total-Advances is_busy m, total-Advances is_alive m)
  Step-lost (replied src request bytes r s ws e m) =
      omega (arith, total-Advances is_busy m, total-Advances is_alive m)
  Step-lost (not_sent src request bytes r s ws e m) =
      omega (arith, total-Advances is_busy m, total-Advances is_alive m)
  Step-lost (panicked src request s ws e m) =
      omega (arith, total-Advances is_busy m, total-Advances is_alive m)

  Reach-lost :
      {s t : UdpServer} {wakes arrivals : ℕ}
      → Reach ctx fuel s wakes arrivals t
      → requests s + arrivals + total is_alive t.workers ≡ requests t + total is_alive s.workers
  Reach-lost start = omega arith
  Reach-lost (later e r st) = omega (arith, Reach-lost r, Step-lost st)

  Step-alive :
      {e : ServerEvent} {s t : UdpServer}
      → Step ctx fuel e s t
      → total is_alive t.workers ≤ total is_alive s.workers
  Step-alive (queued src request s none) = omega arith
  Step-alive (notified src request s ws m) = omega (arith, total-Advances is_alive m)
  Step-alive (settled s ws m) = omega (arith, total-Advances is_alive m)
  Step-alive (woken_up s ws m) = omega (arith, total-Advances is_alive m)
  Step-alive (popped src request rest s ws e m) = omega (arith, total-Advances is_alive m)
  Step-alive (found_none s ws e m) = omega (arith, total-Advances is_alive m)
  Step-alive (replied src request bytes r s ws e m) = omega (arith, total-Advances is_alive m)
  Step-alive (not_sent src request bytes r s ws e m) = omega (arith, total-Advances is_alive m)
  Step-alive (panicked src request s ws e m) = omega (arith, total-Advances is_alive m)

  Reach-alive :
      {s t : UdpServer} {wakes arrivals : ℕ}
      → Reach ctx fuel s wakes arrivals t
      → total is_alive t.workers ≤ total is_alive s.workers
  Reach-alive start = omega arith
  Reach-alive (later e r st) = omega (arith, Reach-alive r, Step-alive st)

  Step-silent :
      {e : ServerEvent} {s t : UdpServer}
      → Step ctx fuel e s t
      → total is_alive s.workers ≡ 0
      → t.replies ≡ s.replies
  Step-silent (queued src request s none) h = refl
  Step-silent (notified src request s ws m) h = refl
  Step-silent (settled s ws m) h = refl
  Step-silent (woken_up s ws m) h = refl
  Step-silent (popped src request rest s ws e m) h = refl
  Step-silent (found_none s ws e m) h = refl
  Step-silent (replied src request bytes r s ws e m) h =
      absurd (omega (arith, total-Moves_le is_alive m))
  Step-silent (not_sent src request bytes r s ws e m) h = refl
  Step-silent (panicked src request s ws e m) h = refl

  Reach-silent :
      {s t : UdpServer} {wakes arrivals : ℕ}
      → Reach ctx fuel s wakes arrivals t
      → total is_alive s.workers ≡ 0
      → t.replies ≡ s.replies
  Reach-silent start h = refl
  Reach-silent (later e r st) h = Step-silent st (omega (arith, Reach-alive r)) ∙ Reach-silent r h

-- The backlog of the UDP server is never made up for. From a moment when no thread is woken on, there
-- are always as many requests in the queue as then, but for spurious wake-ups, whatever the threads
-- do.
pub Reach-backlog :
    (ctx : ServerContext) (fuel : ℕ) (s t : UdpServer) (wakes arrivals : ℕ)
    → total is_woken s.workers ≡ 0
    → Reach ctx fuel s wakes arrivals t
    → length s.request_queue ≤ length t.request_queue + wakes
Reach-backlog ctx fuel s t wakes arrivals h r = omega (arith, Reach-backlog_woken r)

-- When, of the requests that the UDP server had and those that came in, as many have got lost (they
-- are neither in the queue nor with a thread nor answered) as threads were alive, then no thread is
-- alive, and nothing is answered any more, whatever comes in.
pub Reach-ended :
    (ctx : ServerContext) (fuel : ℕ) (s t u : UdpServer) (wakes arrivals wakes' arrivals' : ℕ)
    → Reach ctx fuel s wakes arrivals t
    → requests s + arrivals ≡ requests t + total is_alive s.workers
    → Reach ctx fuel t wakes' arrivals' u
    → (total is_alive t.workers ≡ 0) × (u.replies ≡ t.replies)
Reach-ended ctx fuel s t u wakes arrivals wakes' arrivals' r lost r' =
    let none : total is_alive t.workers ≡ 0 = omega (arith, Reach-lost r, lost) in
    (none, Reach-silent r' none)
