-- ===== src/Dns/Server/Responses.antt =====
-- What `execute_query` answers.
use gis.Base.{
  if_case, ℕ, Bool, true, false, not, ◌&&◌, List, [], ◌∷◌, ◌≡◌, ◌≢◌, refl, ap, ◌∙◌, subst, arith,
}
use gis.Dns.Buffer.{M, Result, ok, end_of_buffer, panic, stuck, pure, ◌>>=◌}
use gis.Dns.Protocol.Types.{DnsPacket, DnsQuestion, ResultCode}
use gis.Dns.Protocol.Packet.{get_unresolved_cnames}
use gis.Blockchain.Chain.Growth.{SameStore}
use gis.Dns.Resolve.{ResolveStrategy, Resolved, ServerContext, ResolverState, failed, found}
use gis.Dns.Resolve.Cnames.{resolve_cnames, resolve_with}
use gis.Dns.Resolve.Total.{
  Keeps, Keeps-bind, Keeps-pure, Unchanged, forwarding-Keeps, resolve_cnames-Keeps,
}
use gis.Dns.Resolve.Closed.{resolve-Keeps_closed}
use gis.Dns.Server.{all_answers, answer_first, execute_query, on_resolved, started, with_results}
use gis.Bytes.{Text}
use gis.Dns.Protocol.Types.{QueryType}

-- A query gives a packet where resolving does.
module _ (I : ResolverState → Type 0) (ctx : ServerContext) (fuel : ℕ)
    (resolves : (host : Text) (qtype : QueryType) (desired : Bool)
      → Keeps I (resolve_with ctx fuel host qtype desired)) where
  on_resolved-Keeps : (packet : DnsPacket) (r : Resolved) → Keeps I (on_resolved ctx fuel packet r)
  unfolding on_resolved
  on_resolved-Keeps packet (failed e) =
      Keeps-pure I (with_results packet ResultCode.serv_fail false [])
  on_resolved-Keeps packet (found result) =
      let unmatched = get_unresolved_cnames result in
      Keeps-bind I (resolve_cnames ctx fuel 11 unmatched) _
        (resolve_cnames-Keeps I ctx fuel (λ host qtype. resolves host qtype true) 11 unmatched)
        (λ more. Keeps-pure I (
          with_results packet result.header.rescode result.header.authoritative_answer
            (result ∷ more)))

  answer_first-Keeps :
      (request : DnsPacket) (questions : List DnsQuestion)
      → Keeps I (answer_first ctx fuel request questions)
  unfolding answer_first
  answer_first-Keeps request [] =
      Keeps-pure I (with_results (started ctx request) ResultCode.form_err false [])
  answer_first-Keeps request (question ∷ rest) =
      let desired = request.header.recursion_desired in
      Keeps-bind I (resolve_with ctx fuel question.name question.qtype desired) _
        (resolves question.name question.qtype desired)
        (on_resolved-Keeps (record (started ctx request) { questions = question ∷ [] }))

  execute_query-Keeps : (request : DnsPacket) → Keeps I (execute_query ctx fuel request)
  unfolding execute_query
  execute_query-Keeps request =
      if_case (Keeps I) (request.header.recursion_desired && not ctx.allow_recursive)
        (λ _. Keeps-pure I (with_results (started ctx request) ResultCode.refused false []))
        (λ _. answer_first-Keeps request request.questions)

-- What every response to a request has.
pub record IsResponse (ctx : ServerContext) (request p : DnsPacket) : Type 0 where
  pub id : p.header.id ≡ request.header.id
  pub response : p.header.response ≡ true
  pub available : p.header.recursion_available ≡ ctx.allow_recursive
  pub desired : p.header.recursion_desired ≡ request.header.recursion_desired
  pub refused :
      (request.header.recursion_desired && not ctx.allow_recursive) ≡ true
      → (p.header.rescode ≡ ResultCode.refused) × (p.answers ≡ [])
  pub no_question :
      (request.header.recursion_desired && not ctx.allow_recursive) ≡ false
      → request.questions ≡ []
      → (p.header.rescode ≡ ResultCode.form_err) × (p.answers ≡ [])

-- Whatever is returned satisfies `P`.
abbrev Gives : (DnsPacket → Type 0) → M ResolverState DnsPacket → Type 0
Gives P m = (s : ResolverState) (p : DnsPacket) (s' : ResolverState) → m s ≡ ok (p, s') → P p

ok_injective :
    {A : Type 0} {a b : A} {s s' : ResolverState}
    → Path (Result (A × ResolverState)) (ok (a, s)) (ok (b, s'))
    → a ≡ b
ok_injective {A} {a} e = ap (λ r. elim r [ ok (x, _) ↦ x | _ ↦ a ]) e

Gives-pure : (P : DnsPacket → Type 0) (p : DnsPacket) → P p → Gives P (pure p)
Gives-pure P p h s q s' e = subst P (ok_injective e) h

Gives-bind :
    {A : Type 0} (P : DnsPacket → Type 0) (m : M ResolverState A)
    (f : A → M ResolverState DnsPacket)
    → ((a : A) → Gives P (f a))
    → Gives P (m >>= f)
Gives-bind {A} P m f h s p s' e = go (m s) e
  where
    go :
        (r : Result (A × ResolverState))
        → elim r [
          | ok (a, s1) ↦ f a s1
          | end_of_buffer ↦ end_of_buffer
          | panic ↦ panic
          | stuck ↦ stuck
        ]
          ≡ ok (p, s')
        → P p
    go (ok (a, s1)) e = h a s1 p s' e
    go end_of_buffer e = absurd (ground arith)
    go panic e = absurd (ground arith)
    go stuck e = absurd (ground arith)

module _ (ctx : ServerContext) (fuel : ℕ) (request : DnsPacket) where
  with_results-IsResponse :
      (question : DnsQuestion) (rest : List DnsQuestion)
      → request.questions ≡ question ∷ rest
      → (request.header.recursion_desired && not ctx.allow_recursive) ≡ false
      → (rescode : ResultCode) (authoritative : Bool) (results : List DnsPacket)
      → IsResponse ctx request (
          with_results
            (record (started ctx request) { questions = question ∷ [] })
            rescode
            authoritative
            results)
  with_results-IsResponse question rest e allowed rescode authoritative results = record {
    id = refl;
    response = refl;
    available = refl;
    desired = refl;
    refused = λ closed. absurd (ground arith);
    no_question = λ _ empty. absurd (ground arith);
  }

  on_resolved-Gives :
      (question : DnsQuestion) (rest : List DnsQuestion)
      → request.questions ≡ question ∷ rest
      → (request.header.recursion_desired && not ctx.allow_recursive) ≡ false
      → (r : Resolved)
      → Gives
          (IsResponse ctx request)
          (on_resolved ctx fuel (record (started ctx request) { questions = question ∷ [] }) r)
  unfolding on_resolved
  on_resolved-Gives question rest e allowed (failed x) =
      Gives-pure (IsResponse ctx request) _
        (with_results-IsResponse question rest e allowed ResultCode.serv_fail false [])
  on_resolved-Gives question rest e allowed (found result) =
      Gives-bind (IsResponse ctx request)
        (resolve_cnames ctx fuel 11 (get_unresolved_cnames result)) _
        (λ more. Gives-pure (IsResponse ctx request) _ (
          with_results-IsResponse question rest e allowed result.header.rescode
            result.header.authoritative_answer (result ∷ more)))

  answer_first-Gives :
      (questions : List DnsQuestion)
      → request.questions ≡ questions
      → (request.header.recursion_desired && not ctx.allow_recursive) ≡ false
      → Gives (IsResponse ctx request) (answer_first ctx fuel request questions)
  unfolding answer_first all_answers
  answer_first-Gives [] e allowed = Gives-pure (IsResponse ctx request) _ (record {
    id = refl;
    response = refl;
    available = refl;
    desired = refl;
    refused = λ closed. absurd (ground arith);
    no_question = λ _ _. (refl, refl);
  })
  answer_first-Gives (question ∷ rest) e allowed =
      Gives-bind (IsResponse ctx request)
        (resolve_with ctx fuel question.name question.qtype request.header.recursion_desired) _
        (on_resolved-Gives question rest e allowed)

  execute_query-Gives : Gives (IsResponse ctx request) (execute_query ctx fuel request)
  unfolding execute_query all_answers
  execute_query-Gives =
      if_case (Gives (IsResponse ctx request))
        (request.header.recursion_desired && not ctx.allow_recursive)
        (λ closed. Gives-pure (IsResponse ctx request) _ (record {
          id = refl;
          response = refl;
          available = refl;
          desired = refl;
          refused = λ _. (refl, refl);
          no_question = λ allowed. absurd (ground arith);
        }))
        (answer_first-Gives request.questions refl)

pub execute_query-IsResponse :
    (ctx : ServerContext) (fuel : ℕ) (request : DnsPacket) (s : ResolverState) (p : DnsPacket)
    (s' : ResolverState)
    → execute_query ctx fuel request s ≡ ok (p, s')
    → IsResponse ctx request p
execute_query-IsResponse ctx fuel request s p s' e = execute_query-Gives ctx fuel request s p s' e

-- A forwarding server answers every request, whatever its upstreams send, with a packet that carries
-- the request's id, is marked as a response, and says whether the server does recursion and whether
-- it was asked for; recursion that the server does not do is REFUSED, and any other request with no
-- question gets FORMERR, both with no answer. The blocks, identities and zones of the chain are what
-- they were.
pub execute_query_returns :
    (ctx : ServerContext) (upstreams : List Text)
    → ctx.resolve_strategy ≡ ResolveStrategy.forward upstreams
    → upstreams ≢ []
    → (fuel : ℕ) (request : DnsPacket) (s : ResolverState)
    → (p : DnsPacket) × (s' : ResolverState) × (execute_query ctx fuel request s ≡ ok (p, s'))
      × IsResponse ctx request p
      × SameStore s.chain s'.chain
execute_query_returns ctx upstreams e n fuel request s =
    let (p, s', done, same) =
      execute_query-Keeps (Unchanged s.chain) ctx fuel
        (λ host qtype desired. forwarding-Keeps ctx s.chain fuel upstreams host qtype desired e n)
        request s (refl, refl, refl) in
    (p, s', done, execute_query-IsResponse ctx fuel request s p s' done, same)

-- A server that does no recursion answers every request with a response as `IsResponse` has it, whatever its strategy,
-- and sends nothing: its cache, its chain and the number of its calls to the outside are what they
-- were.
pub execute_query_closed :
    (ctx : ServerContext)
    → ctx.allow_recursive ≡ false
    → (fuel : ℕ) (request : DnsPacket) (s : ResolverState)
    → (p : DnsPacket) × (execute_query ctx fuel request s ≡ ok (p, s)) × IsResponse ctx request p
execute_query_closed ctx closed fuel request s =
    let (p, s', e, same) =
      execute_query-Keeps (λ s'. s' ≡ s) ctx fuel
        (λ host qtype desired.
          resolve-Keeps_closed ctx (λ s'. s' ≡ s) fuel host qtype desired (ground arith))
        request s refl in
    (p, e ∙ ap (λ s'. ok (p, s')) same, execute_query-IsResponse ctx fuel request s p s' e)
