-- ===== src/Catalog/Tests.antt =====
-- A catalog of two nodes, and the theorem about catalog.go applied to it.
use tor_country_manager.Shared.{true, false, List, [], ◌∷◌, none, some, ◌≡◌, refl, All, length}
use tor_country_manager.Shared.Assoc.{lookup}
use tor_country_manager.Shared.Text.{Text, same, lower}
use tor_country_manager.Shared.Int.{pos, negsuc}
use tor_country_manager.Shared.Sort.{insert_sorted}
use tor_country_manager.Config.Defs.{normalize_code}
use tor_country_manager.Config.Load.{default_config}
use tor_country_manager.Catalog.Nodes.{
  ExitNode, ExitCatalog, best_candidate, all_nodes, nodes_for_country,
}
use tor_country_manager.Catalog.Best.{Best, best_candidate-Best}
use tor_country_manager.Catalog.Refresh.{
  AddressLib, Relay, document, bad_status, bad_http_status, new_catalog, refresh, ensure_fresh,
  by_code, count_before,
}
use tor_country_manager.Catalog.Sound.{
  Sound, FromRelay, CatalogEvent, run_catalog, catalog-Sound, refresh-FromRelay, failed_refresh,
}
use tor_country_manager.Catalog.Counts.{by_code-length}
use tor_country_manager.Catalog.Policy.{allows_port}
use tor_country_manager.Catalog.Ranges.{PortRange}

abbrev us : Text
us = b'u' ∷ b's' ∷ []

abbrev unmeasured : ExitNode
unmeasured = record {
  fingerprint = b'A' ∷ [];
  nickname = [];
  ip = [];
  or_address = [];
  country_code = us;
  country_name = [];
  continent = [];
  asn = [];
  isp = [];
  consensus_weight = pos 100;
  latency_ms = negsuc 0;
  latency_checked = 0;
}

abbrev measured : ExitNode
measured = record unmeasured {
  fingerprint = b'B' ∷ [];
  consensus_weight = pos 1;
  latency_ms = pos 40;
}

abbrev two_nodes : ExitCatalog
two_nodes = record {
  cfg = default_config false;
  nodes = (b'A' ∷ [], unmeasured) ∷ (b'B' ∷ [], measured) ∷ [];
  fetched_at = 0;
  last_error = [];
}

measured_first : best_candidate two_nodes (us ∷ []) false false ≡ some measured
unfolding best_candidate same normalize_code lower insert_sorted
measured_first = refl

best_candidate-Best_example :
    Best two_nodes (us ∷ []) true (best_candidate two_nodes (us ∷ []) false true)
best_candidate-Best_example = best_candidate-Best two_nodes (us ∷ []) true

-- Every text is an address, and no text has a port.
abbrev all_addresses : AddressLib
all_addresses = record {
  ipv4 = λ t. some t;
  split_host_port = λ t. none;
  join_host_port = λ h p. h;
}

abbrev relay : Relay
relay = record {
  fingerprint = b'a' ∷ [];
  nickname = [];
  or_addresses = [];
  exit_addresses = (b'1' ∷ []) ∷ [];
  country = us;
  country_name = [];
  asn = [];
  as_name = [];
  consensus_weight = pos 7;
  accept = (b'4' ∷ b'4' ∷ b'3' ∷ []) ∷ [];
  reject = [];
}

-- A first refresh, a measurement of its node, and a directory that then fails.
abbrev three_events : List CatalogEvent
three_events =
    CatalogEvent.refreshed false (document (relay ∷ [])) 1 2
    ∷ CatalogEvent.measurement_ended unmeasured (some 0) 3
    ∷ CatalogEvent.refreshed true (bad_status 500) 4 5
    ∷ []

one_node_left :
    length (run_catalog all_addresses (new_catalog (default_config false)) three_events).nodes ≡ 1
unfolding run_catalog lookup new_catalog tor_country_manager.Shared.Text.is_empty normalize_code
    tor_country_manager.Shared.Text.has_byte tor_country_manager.Config.Defs.country_code_pattern
    lower allows_port tor_country_manager.Config.Validate.atoi
    tor_country_manager.Shared.Assoc.insert same tor_country_manager.Shared.Text.to_upper
    tor_country_manager.Shared.Text.upper
one_node_left = refl

catalog-Sound_example :
    All Sound (run_catalog all_addresses (new_catalog (default_config false)) three_events).nodes
catalog-Sound_example = catalog-Sound all_addresses (default_config false) three_events

refresh-FromRelay_example :
    (let (d, error) = refresh all_addresses two_nodes true (document (relay ∷ [])) 1 2 in
      (error ≡ none)
      × (d.fetched_at ≡ 2)
      × (d.last_error ≡ [])
      × All (FromRelay all_addresses (relay ∷ [])) d.nodes)
refresh-FromRelay_example = refresh-FromRelay all_addresses two_nodes (relay ∷ []) 1 2

failed_refresh_example :
    (let d = (refresh all_addresses two_nodes true (bad_status 500) 1 2).0 in
      (d.nodes ≡ two_nodes.nodes)
      × (d.fetched_at ≡ 0)
      × (d.cfg ≡ two_nodes.cfg)
      × ((ensure_fresh all_addresses two_nodes (bad_status 500) 1 2).1 ≡ none))
unfolding refresh
failed_refresh_example =
    failed_refresh all_addresses two_nodes true (bad_status 500) 1 2 (bad_http_status 500) refl

by_code-length_example :
    count_before (lookup us (by_code (all_nodes two_nodes) []))
    ≡ length (nodes_for_country two_nodes us)
unfolding normalize_code lower
by_code-length_example = by_code-length two_nodes us refl

-- The ports 80 and 400 to 500.
abbrev two_ranges : List PortRange
two_ranges = record { first = 80; last = 80 } ∷ record { first = 400; last = 500 } ∷ []
