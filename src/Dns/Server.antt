-- ===== src/Dns/Server.antt =====
-- `execute_query` of src/dns/server.rs.
pub mod Responses
pub mod Udp
use gis.Base.{Bool, true, false, not, ◌&&◌, ◌||◌, ℕ, List, [], ◌∷◌, ◌++◌, if◌then◌else◌}
use gis.Dns.Buffer.{M, pure, ◌>>=◌}
use gis.Dns.Protocol.Types.{
  DnsHeader, DnsPacket, DnsQuestion, DnsRecord, ResultCode, new_header, new_packet,
}
use gis.Dns.Protocol.Packet.{get_unresolved_cnames}
use gis.Dns.Resolve.{Resolved, ServerContext, ResolverState, failed, found}
use gis.Dns.Resolve.Cnames.{resolve_cnames, resolve_with}

unfoldable pub all_answers : List DnsPacket → List DnsRecord
all_answers [] = []
all_answers (p ∷ ps) = p.answers ++ all_answers ps

unfoldable pub all_authorities : List DnsPacket → List DnsRecord
all_authorities [] = []
all_authorities (p ∷ ps) = p.authorities ++ all_authorities ps

unfoldable pub all_resources : List DnsPacket → List DnsRecord
all_resources [] = []
all_resources (p ∷ ps) = p.resources ++ all_resources ps

-- The packet with the results that were gathered.
abbrev with_results : DnsPacket → ResultCode → Bool → List DnsPacket → DnsPacket
with_results packet rescode authoritative results = record packet {
  header = record packet.header { rescode = rescode; authoritative_answer = authoritative };
  answers = all_answers results;
  authorities = all_authorities results;
  resources = all_resources results;
}

module _ (ctx : ServerContext) where
  abbrev pub started : DnsPacket → DnsPacket
  started request = record new_packet {
    header = record new_header {
      id = request.header.id;
      recursion_available = ctx.allow_recursive;
      recursion_desired = request.header.recursion_desired;
      response = true;
    };
  }

  unfoldable pub on_resolved : ℕ → DnsPacket → Resolved → M ResolverState DnsPacket
  on_resolved fuel packet (failed e) = pure (with_results packet ResultCode.serv_fail false [])
  on_resolved fuel packet (found result) = do
    more ← resolve_cnames ctx fuel 11 (get_unresolved_cnames result)
    pure (
        with_results packet result.header.rescode result.header.authoritative_answer
          (result ∷ more))

  unfoldable pub answer_first : ℕ → DnsPacket → List DnsQuestion → M ResolverState DnsPacket
  answer_first fuel request [] = pure (with_results (started request) ResultCode.form_err false [])
  answer_first fuel request (question ∷ rest) = do
    resolved ← resolve_with ctx fuel question.name question.qtype request.header.recursion_desired
    on_resolved fuel (record (started request) { questions = question ∷ [] }) resolved

  unfoldable pub execute_query : ℕ → DnsPacket → M ResolverState DnsPacket
  execute_query fuel request =
      if request.header.recursion_desired && not ctx.allow_recursive
      then pure (with_results (started request) ResultCode.refused false [])
      else answer_first fuel request request.questions
