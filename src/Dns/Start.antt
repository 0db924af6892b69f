-- ===== src/Dns/Start.antt =====
-- `create_server_context` of src/dns_utils.rs: the resolver as the program sets it up.
use gis.Base.{true, List, [], ◌∷◌, if◌then◌else◌}
use gis.Bytes.{Text, is_empty}
use gis.Dns.Hosts.{HostMap}
use gis.Dns.Resolve.{DnsFilter, ResolveStrategy, ServerContext}

unfoldable pub strategy_of : List Text → ResolveStrategy
strategy_of forwarders =
    if is_empty forwarders then ResolveStrategy.recursive else ResolveStrategy.forward forwarders

-- The hosts files in their order, and the chain behind them.
unfoldable pub filters_of : List HostMap → List DnsFilter
filters_of [] = DnsFilter.blockchain ∷ []
filters_of (map ∷ maps) = DnsFilter.hosts map ∷ filters_of maps

-- `base` is what `ServerContext::new` and the files of zones give.
unfoldable pub create_server_context : List Text → List HostMap → ServerContext → ServerContext
create_server_context forwarders maps base = record base {
  allow_recursive = true;
  resolve_strategy = strategy_of forwarders;
  filters = filters_of maps;
}
