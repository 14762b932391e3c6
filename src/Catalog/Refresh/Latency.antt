-- ===== src/Catalog/Refresh/Latency.antt =====
-- catalog.go: the latency checks, `startLatencyChecks` and `measureTCPLatency`.
use tor_country_manager.Shared.{
  ℕ, ◌+◌, ◌&&◌, not, List, [], ◌∷◌, Option, none, some, ltb, if◌then◌else◌, ◌==◌, length, take,
}
use tor_country_manager.Shared.Text.{Text, is_empty}
use tor_country_manager.Shared.Assoc.{lookup, insert}
use tor_country_manager.Shared.Int.{ℤ, pos, negsuc}
use tor_country_manager.Catalog.Nodes.{ExitNode, ExitCatalog, nodes_for_country}

abbrev pub five_minutes : ℕ
five_minutes = 300000000000

unfoldable due : List ExitNode → (now : ℕ) → List ExitNode
due [] now = []
due (n ∷ ns) now =
    let rest = due ns now in
    if not (n.latency_checked == 0) && ltb now (n.latency_checked + five_minutes)
    then rest
    else n ∷ rest

-- `startLatencyChecks`: the nodes for which a measurement begins.
unfoldable pub start_latency_checks :
    ExitCatalog → (code : Text) → (limit : ℕ) → (now : ℕ) → List ExitNode
unfolding due
start_latency_checks c code limit now =
    let nodes = nodes_for_country c code in
    due (if ltb 0 limit && ltb limit (length nodes) then take limit nodes else nodes) now

-- `measureTCPLatency`: the milliseconds after which the connection stood, `none` if it failed.
unfoldable pub measure_tcp_latency : (address : Text) → (elapsed : Option ℕ) → ℤ
measure_tcp_latency address none = negsuc 1
measure_tcp_latency address (some elapsed) =
    if is_empty address then negsuc 1 else if ltb elapsed 1 then pos 1 else pos elapsed

-- The end of a measurement that `startLatencyChecks` began.
unfoldable write_latency : ExitCatalog → Text → ℤ → ℕ → Option ExitNode → ExitCatalog
write_latency c fingerprint latency now none = c
write_latency c fingerprint latency now (some current) = record c {
  nodes =
      insert fingerprint (record current { latency_ms = latency; latency_checked = now }) c.nodes;
}

unfoldable pub latency_measured :
    ExitCatalog → ExitNode → (elapsed : Option ℕ) → (now : ℕ) → ExitCatalog
unfolding write_latency measure_tcp_latency
latency_measured c n elapsed now =
    write_latency c n.fingerprint (measure_tcp_latency n.or_address elapsed) now
      (lookup n.fingerprint c.nodes)
