-- ===== src/Dns/Resolve/Closed.antt =====
-- Resolving for clients that the server does no recursion for.
use gis.Base.{if_case, ℕ, Bool, true, not, ◌||◌, ◌≡◌, arith}
use gis.Bytes.{Text}
use gis.Dns.Buffer.{M}
use gis.Dns.Protocol.Types.{QueryType, ResultCode}
use gis.Dns.Authority.{query}
use gis.Dns.Resolve.{
  Resolved, ServerContext, ResolverState, found, is_unknown, rescode_packet, resolve,
}
use gis.Dns.Resolve.Cnames.{resolve_with}
use gis.Dns.Resolve.Total.{Keeps, Keeps-pure, Keeps-or_try}

pub resolve-Keeps_closed :
    (ctx : ServerContext) (I : ResolverState → Type 0) (fuel : ℕ) (qname : Text) (qtype : QueryType)
    → (desired : Bool) → (not desired || not ctx.allow_recursive) ≡ true
    → Keeps I (resolve_with ctx fuel qname qtype desired)
unfolding resolve resolve_with
resolve-Keeps_closed ctx I fuel qname qtype desired closed =
    let K : M ResolverState Resolved → Type 0 = Keeps I in
    if_case K (is_unknown qtype) (λ _. Keeps-pure I (found (rescode_packet ResultCode.not_imp)))
      (λ _. Keeps-or_try I (query qname qtype ctx.zones) _ (
        if_case K (not desired || not ctx.allow_recursive)
          (λ _. Keeps-pure I (found (rescode_packet ResultCode.refused)))
          (λ opened. absurd (ground arith))))
