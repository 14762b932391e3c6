-- ===== src/Health/Tests.antt =====
-- A monitor and a route that fails again and again, and the theorem about health.go applied to it.
use tor_country_manager.Shared.{
  ℕ, ◌≤◌, true, false, List, [], ◌∷◌, none, ◌≡◌, refl, arith, inl, length,
}
use tor_country_manager.Shared.Text.{Text, same, lower, upper, to_upper}
use tor_country_manager.Shared.Int.{pos}
use tor_country_manager.Shared.Assoc.{lookup, insert}
use tor_country_manager.Shared.Sort.{insert_sorted}
use tor_country_manager.Config.Defs.{normalize_code}
use tor_country_manager.Manager.Defs.{DiskAnswer, Manager, Instance, zero_instance, running}
use tor_country_manager.Manager.Nodes.{State, empty_manager}
use tor_country_manager.Health.Round.{Ended, run_once}
use tor_country_manager.Health.Rounds.{paused_round}
use tor_country_manager.Health.Report.{ok, report}
use tor_country_manager.Health.Reports.{report-lem}
use tor_country_manager.Config.Load.{default_config}
use tor_country_manager.Catalog.Nodes.{ExitNode, nodes_for_country}
use tor_country_manager.Health.Monitor.{
  RouteHealthMonitor, RouteProbeResult, Answers, apply_probe_result, alternate_node,
}
use tor_country_manager.Health.Pause.{Probe, Apart, run_probes, run_probes-Apart}

abbrev us : Text
us = b'u' ∷ b's' ∷ []

abbrev fresh : RouteHealthMonitor
fresh = record { records = []; global_failure = false; failures = 3; cooldown = 600; switches = [] }

abbrev failing : RouteProbeResult
failing = record {
  probed = record zero_instance {
    country = record { code = us; name = [] };
    status = running;
    selected_ip = us;
  };
  active = true;
  outcome = inl us;
}

abbrev other : ExitNode
other = record {
  fingerprint = b'B' ∷ [];
  nickname = [];
  ip = [];
  or_address = [];
  country_code = us;
  country_name = [];
  continent = [];
  asn = [];
  isp = [];
  consensus_weight = pos 1;
  latency_ms = pos 40;
  latency_checked = 0;
}

abbrev one_node : Answers
one_node = record {
  refresh_error = none;
  catalog = record {
    cfg = default_config false;
    nodes = (b'B' ∷ [], other) ∷ [];
    fetched_at = 0;
    last_error = [];
  };
  switch_error = none;
}

abbrev probe_at : ℕ → Probe
probe_at n = record { result = failing; allow_switch = true; answers = one_node; now = n }

-- Seven failures: the third changes the node, the sixth comes too early, the seventh changes it.
abbrev seven : List Probe
seven =
    probe_at 100
    ∷ probe_at 160
    ∷ probe_at 220
    ∷ probe_at 280
    ∷ probe_at 340
    ∷ probe_at 400
    ∷ probe_at 900
    ∷ []

two_switches : length (run_probes fresh seven).switches ≡ 2
unfolding run_probes apply_probe_result lookup insert same alternate_node nodes_for_country
    normalize_code lower upper insert_sorted to_upper
two_switches = refl

run_probes-Apart_example : Apart 600 (run_probes fresh seven).switches
run_probes-Apart_example = run_probes-Apart fresh seven refl (
  omega arith,
  (omega arith, (omega arith, (omega arith, (omega arith, (omega arith, (omega arith, tt)))))),
)

-- Two running routes, both of which fail.
abbrev two_routes : State
two_routes = record {
  active = us;
  proxy_address = [];
  max_running = pos 10;
  instances = failing.probed ∷ failing.probed ∷ [];
}

abbrev here : Manager
here = record (empty_manager (default_config false) (λ n. DiskAnswer.replaced)) {
  heap = λ p. failing.probed;
  next_instance = 1;
  instances = (us, 0) ∷ [];
}

abbrev both_fail : Instance → Ended
both_fail i = record { outcome = inl us; manager = here }

paused_round_example :
    (run_once fresh two_routes both_fail (λ n. one_node) (λ n. 900)).switches ≡ []
unfolding tor_country_manager.Health.Round.is_global_failure
    tor_country_manager.Health.Round.checked_routes
    tor_country_manager.Manager.Defs.is_running_status
    tor_country_manager.Manager.Nodes.instance_copy lookup same normalize_code lower
paused_round_example =
    paused_round fresh two_routes both_fail (λ n. one_node) (λ n. 900) (omega arith)
      ((us, refl), ((us, refl), tt))

report-lem_example :
    (let r = report fresh two_routes one_node.catalog 60 900 in
      (r.online_countries ≡ 2)
      × (r.failed_countries ≡ 0)
      × (length r.countries ≡ 2)
      × (r.status ≡ ok))
unfolding tor_country_manager.Health.Report.is_listed
    tor_country_manager.Manager.Defs.is_running_status tor_country_manager.Manager.Defs.is_error
    tor_country_manager.Health.Monitor.record_of lookup tor_country_manager.Shared.Text.is_empty
report-lem_example = report-lem fresh two_routes one_node.catalog 60 900
