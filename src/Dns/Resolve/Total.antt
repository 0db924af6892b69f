-- ===== src/Dns/Resolve/Total.antt =====
-- Resolving that always gives a result, and what it keeps.
use gis.Base.{
  if_case, ℕ, zero, suc, ◌+◌, ◌%◌, ◌<◌, Bool, true, not, ◌||◌, List, [], ◌∷◌, ◌++◌, Option, none,
  some, length, get_elem?, ◌≡◌, ◌≢◌, refl, sym, subst, ◌∙◌, arith,
}
use gis.Bytes.{Text}
use gis.Dns.Buffer.{M, ok, pure, ◌>>=◌, ◌>>◌}
use gis.Dns.Protocol.Types.{DnsRecord, DnsPacket, QueryType, ResultCode, same_type}
use gis.Dns.Protocol.Packet.{get_unresolved_cnames}
use gis.Dns.Authority.{query}
use gis.Dns.Filter
use gis.Dns.Filter.Keeps.{lookup-SameStore}
use gis.Dns.Hosts
use gis.Dns.Cache.Lookup.{lookup, store}
use gis.Blockchain.Chain.State.{Chain}
use gis.Blockchain.Chain.Growth.{SameStore}
use gis.Dns.Resolve.{
  DnsFilter, ResolveStrategy, Resolved, Server, ServerContext, ResolverState, cache_lookup,
  cache_store, client, cname_lookup, failed, filter_lookup, found, is_unknown, next_random, or_try,
  rescode_packet, resolve, run_filters, send,
}
use gis.Dns.Resolve.Perform.{ask_upstream, choose_upstream, perform_forward}
use gis.Dns.Resolve.Cnames.{
  chase, cname_host, follow_all, follow_host, perform, resolve_cnames, resolve_with,
}

module _ (I : ResolverState → Type 0) where
  -- From a state where `I` holds, a result and a state where it holds.
  abbrev pub Keeps : {A : Type 0} → M ResolverState A → Type 0
  Keeps {A} m =
      (s : ResolverState) → I s → (a : A) × (s' : ResolverState) × (m s ≡ ok (a, s')) × I s'

  pub Keeps-pure : {A : Type 0} (a : A) → Keeps (pure a)
  Keeps-pure a s i = (a, s, refl, i)

  pub Keeps-bind :
      {A B : Type 0} (m : M ResolverState A) (f : A → M ResolverState B)
      → Keeps m
      → ((a : A) → Keeps (f a))
      → Keeps (m >>= f)
  Keeps-bind m f hm hf s i =
      let (a, s1, e1, i1) = hm s i in
      let (b, s2, e2, i2) = hf a s1 i1 in (b, s2, rw (◌>>=◌, e1) e2, i2)

  pub Keeps-or_try :
      (packet : Option DnsPacket) (next : M ResolverState Resolved)
      → Keeps next
      → Keeps (or_try packet next)
  unfolding or_try
  Keeps-or_try none next h = h
  Keeps-or_try (some packet) next h = Keeps-pure (found packet)

  -- Following CNAMEs gives a result where resolving does.
  module _ (ctx : ServerContext) (fuel : ℕ)
      (resolves : (host : Text) (qtype : QueryType)
        → Keeps (resolve_with ctx fuel host qtype true)) where
    chase-Keeps :
        (deeper : List DnsRecord → M ResolverState (List DnsPacket)) (r : Resolved)
        → ((recs : List DnsRecord) → Keeps (deeper recs))
        → Keeps (chase ctx deeper r)
    unfolding chase
    chase-Keeps deeper (failed e) h = Keeps-pure []
    chase-Keeps deeper (found packet) h =
        Keeps-bind (deeper (get_unresolved_cnames packet)) (λ more. pure (packet ∷ more))
          (h (get_unresolved_cnames packet)) (λ more. Keeps-pure (packet ∷ more))

    follow_host-Keeps :
        (deeper : List DnsRecord → M ResolverState (List DnsPacket)) (host : Option Text)
        → ((recs : List DnsRecord) → Keeps (deeper recs))
        → Keeps (follow_host ctx fuel deeper host)
    unfolding follow_host
    follow_host-Keeps deeper none h = Keeps-pure []
    follow_host-Keeps deeper (some host) h =
        Keeps-bind (resolve_with ctx fuel host QueryType.a true) _ (resolves host QueryType.a)
          (λ first. Keeps-bind (chase ctx deeper first) _ (chase-Keeps deeper first h) (λ v4.
            Keeps-bind (resolve_with ctx fuel host QueryType.aaaa true) _
              (resolves host QueryType.aaaa)
              (λ second.
                Keeps-bind (chase ctx deeper second) _ (chase-Keeps deeper second h)
                  (λ v6. Keeps-pure (v4 ++ v6)))))

    follow_all-Keeps :
        (deeper : List DnsRecord → M ResolverState (List DnsPacket)) (recs : List DnsRecord)
        → ((recs : List DnsRecord) → Keeps (deeper recs))
        → Keeps (follow_all ctx fuel deeper recs)
    unfolding follow_all
    follow_all-Keeps deeper [] h = Keeps-pure []
    follow_all-Keeps deeper (rec ∷ recs) h =
        Keeps-bind (follow_host ctx fuel deeper (cname_host ctx rec)) _
          (follow_host-Keeps deeper (cname_host ctx rec) h)
          (λ here.
            Keeps-bind (follow_all ctx fuel deeper recs) _ (follow_all-Keeps deeper recs h)
              (λ rest. Keeps-pure (here ++ rest)))

    pub resolve_cnames-Keeps :
        (left : ℕ) (recs : List DnsRecord) → Keeps (resolve_cnames ctx fuel left recs)
    unfolding resolve_cnames
    resolve_cnames-Keeps zero recs = Keeps-pure []
    resolve_cnames-Keeps (suc left) recs =
        follow_all-Keeps (resolve_cnames ctx fuel left) recs (resolve_cnames-Keeps left)

-- The blocks, identities and zones of the chain, as they were.
abbrev pub Unchanged : Chain → ResolverState → Type 0
Unchanged c s = SameStore c s.chain

module _ (ctx : ServerContext) (c : Chain) where
  cache_lookup-Keeps :
      (qname : Text) (qtype : QueryType) → Keeps (Unchanged c) (cache_lookup ctx qname qtype)
  unfolding cache_lookup
  cache_lookup-Keeps qname qtype s i =
      let (packet, cache) = lookup ctx.shared ctx.now qname qtype s.cache in
      (packet, record s { cache = cache }, refl, i)

  cache_store-Keeps : (recs : List DnsRecord) → Keeps (Unchanged c) (cache_store ctx recs)
  unfolding cache_store
  cache_store-Keeps recs s i =
      (tt, record s { cache = store ctx.shared ctx.now recs s.cache }, refl, i)

  next_random-Keeps : Keeps (Unchanged c) (next_random ctx)
  unfolding next_random
  next_random-Keeps s i = (ctx.random s.calls, record s { calls = s.calls + 1 }, refl, i)

  send-Keeps :
      (qname : Text) (qtype : QueryType) (server : Server) (desired : Bool)
      → Keeps (Unchanged c) (send ctx qname qtype server desired)
  unfolding send
  send-Keeps qname qtype server desired s i =
      (ctx.send_query s.calls qname qtype server desired, record s { calls = s.calls + 1 }, refl, i)

  filter_lookup-Keeps :
      (qname : Text) (qtype : QueryType) (filter : DnsFilter)
      → Keeps (Unchanged c) (filter_lookup ctx qname qtype filter)
  unfolding filter_lookup
  filter_lookup-Keeps qname qtype (DnsFilter.hosts map) s i =
      (Hosts.lookup qname qtype map, s, refl, i)
  filter_lookup-Keeps qname qtype DnsFilter.blockchain s (db, last, full) =
      let (packet, chain) = Filter.lookup ctx.env qname qtype s.chain in
      let (db', last', full') = lookup-SameStore ctx.env qname qtype s.chain in
      (packet, record s { chain = chain }, refl, (db' ∙ db, last' ∙ last, full' ∙ full))

  run_filters-Keeps :
      (qname : Text) (qtype : QueryType) (next : M ResolverState Resolved)
      (filters : List DnsFilter)
      → Keeps (Unchanged c) next
      → Keeps (Unchanged c) (run_filters ctx qname qtype next filters)
  unfolding run_filters
  run_filters-Keeps qname qtype next [] h = h
  run_filters-Keeps qname qtype next (filter ∷ filters) h =
      Keeps-bind (Unchanged c) (filter_lookup ctx qname qtype filter) _
        (filter_lookup-Keeps qname qtype filter)
        (λ packet.
          Keeps-or_try (Unchanged c) packet (run_filters ctx qname qtype next filters)
            (run_filters-Keeps qname qtype next filters h))

  cname_lookup-Keeps :
      (qname : Text) (qtype : QueryType) → Keeps (Unchanged c) (cname_lookup ctx qname qtype)
  unfolding cname_lookup
  cname_lookup-Keeps qname qtype =
      if_case (Keeps (Unchanged c)) (same_type qtype QueryType.a || same_type qtype QueryType.aaaa)
        (λ _. cache_lookup-Keeps qname QueryType.cname) (λ _. Keeps-pure (Unchanged c) none)

  resolve-Keeps :
      (perform : Text → QueryType → M ResolverState Resolved) (qname : Text) (qtype : QueryType)
      → (desired : Bool) → Keeps (Unchanged c) (perform qname qtype)
      → Keeps (Unchanged c) (resolve ctx perform qname qtype desired)
  unfolding resolve
  resolve-Keeps perform qname qtype desired h =
      let K : M ResolverState Resolved → Type 0 = Keeps (Unchanged c) in
      if_case K (is_unknown qtype)
        (λ _. Keeps-pure (Unchanged c) (found (rescode_packet ResultCode.not_imp)))
        (λ _. Keeps-or_try (Unchanged c) (query qname qtype ctx.zones) _ (
          if_case K (not desired || not ctx.allow_recursive)
            (λ _. Keeps-pure (Unchanged c) (found (rescode_packet ResultCode.refused)))
            (λ _.
              Keeps-bind (Unchanged c) (cache_lookup ctx qname qtype) _
                (cache_lookup-Keeps qname qtype)
                (λ cached. Keeps-or_try (Unchanged c) cached _ (
                  Keeps-bind (Unchanged c) (cname_lookup ctx qname qtype) _
                    (cname_lookup-Keeps qname qtype)
                    (λ cname.
                      Keeps-or_try (Unchanged c) cname _
                        (run_filters-Keeps qname qtype (perform qname qtype) ctx.filters h)))))))

  ask_upstream-Keeps :
      (qname : Text) (qtype : QueryType) (server : Text) (cached : Option DnsPacket)
      → Keeps (Unchanged c) (ask_upstream ctx qname qtype (some server) cached)
  unfolding ask_upstream
  ask_upstream-Keeps qname qtype server (some packet) =
      Keeps-bind (Unchanged c) (cache_store ctx packet.answers) _ (cache_store-Keeps packet.answers)
        (λ _. Keeps-pure (Unchanged c) (found packet))
  ask_upstream-Keeps qname qtype server none =
      Keeps-bind (Unchanged c) (send ctx qname qtype (Server.upstream server) true) _
        (send-Keeps qname qtype (Server.upstream server) true) stored
    where
      stored :
          (response : Option DnsPacket)
          → Keeps (Unchanged c) (elim response [
            | none ↦ pure (failed client)
            | some packet ↦ do cache_store ctx packet.answers; pure (found packet)
          ])
      stored none = Keeps-pure (Unchanged c) (failed client)
      stored (some packet) =
          Keeps-bind (Unchanged c) (cache_store ctx packet.answers) _
            (cache_store-Keeps packet.answers) (λ _. Keeps-pure (Unchanged c) (found packet))

  choose_some :
      (random : ℕ) (upstreams : List Text)
      → upstreams ≢ []
      → (server : Text) × (choose_upstream ctx random upstreams ≡ some server)
  choose_some random [] n = absurd (n refl)
  choose_some random (u ∷ us) n = get_some (u ∷ us) (random % length (u ∷ us)) (omega arith)
    where
      get_some : (l : List Text) (i : ℕ) → i < length l → (x : Text) × (get_elem? l i ≡ some x)
      get_some [] i h = absurd (omega arith)
      get_some (x ∷ l) zero h = (x, refl)
      get_some (x ∷ l) (suc i) h = get_some l i (omega arith)

  perform_forward-Keeps :
      (upstreams : List Text) (qname : Text) (qtype : QueryType)
      → upstreams ≢ []
      → Keeps (Unchanged c) (perform_forward ctx upstreams qname qtype)
  unfolding perform_forward
  perform_forward-Keeps upstreams qname qtype n =
      Keeps-bind (Unchanged c) (next_random ctx) _ next_random-Keeps (λ random.
        Keeps-bind (Unchanged c) (cache_lookup ctx qname qtype) _ (cache_lookup-Keeps qname qtype)
          (λ cached.
            let (server, e) = choose_some random upstreams n in
            rw e (ask_upstream-Keeps qname qtype server cached)))

  pub forwarding-Keeps :
      (fuel : ℕ) (upstreams : List Text) (qname : Text) (qtype : QueryType) (desired : Bool)
      → ctx.resolve_strategy ≡ ResolveStrategy.forward upstreams
      → upstreams ≢ []
      → Keeps (Unchanged c) (resolve_with ctx fuel qname qtype desired)
  unfolding resolve_with
  forwarding-Keeps fuel upstreams qname qtype desired e n =
      resolve-Keeps (perform ctx fuel ctx.resolve_strategy) qname qtype desired (
        subst (λ strategy. Keeps (Unchanged c) (perform ctx fuel strategy qname qtype)) (sym e)
          (perform_forward-Keeps upstreams qname qtype n))
