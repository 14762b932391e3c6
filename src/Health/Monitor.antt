-- ===== src/Health/Monitor.antt =====
-- health.go: the records of the monitor and `applyProbeResult`. A time is a number of nanoseconds; the
-- zero time is 0. What the network, the catalog and the manager answer are arguments.
use tor_country_manager.Shared.{
  ℕ, suc, ◌+◌, Bool, ◌&&◌, ◌||◌, not, List, [], ◌∷◌, ◌++◌, ◌⊎◌, inl, inr, Option, none, some, leb,
  ◌==◌, if◌then◌else◌,
}
use tor_country_manager.Shared.Text.{Text, text, same, to_upper}
use tor_country_manager.Shared.Int.{ℤ, pos}
use tor_country_manager.Shared.Assoc.{lookup, insert}
use tor_country_manager.Manager.Defs.{Instance}
use tor_country_manager.Catalog.Nodes.{ExitNode, ExitCatalog, nodes_for_country}

pub record RouteHealthRecord : Type 0 where
  pub latency_ms : ℤ
  pub observed_exit_ip : Text
  pub last_checked : ℕ
  pub last_success : ℕ
  pub consecutive_failures : ℕ
  pub last_error : Text
  pub last_switch_at : ℕ
  pub last_switch_node : Text
  pub last_switch_error : Text
  pub automatic_switch_attempts : ℕ

-- One call of `switchNode`, and when.
pub record Switch : Type 0 where
  pub code : Text
  pub node : ExitNode
  pub active : Bool
  pub at : ℕ

-- `switches` are the calls of `switchNode` so far, the last first, by the country of the instance.
pub record RouteHealthMonitor : Type 0 where
  pub records : List (Text × RouteHealthRecord)
  pub global_failure : Bool
  pub failures : ℕ
  pub cooldown : ℕ
  pub switches : List (Text × Switch)

-- `outcome` is the error, or the exit address and the rounded latency in milliseconds.
pub record RouteProbeResult : Type 0 where
  pub probed : Instance
  pub active : Bool
  pub outcome : Text ⊎ (Text × ℤ)

-- The error of `EnsureFresh`, the catalog then, and the error of `switchNode`.
pub record Answers : Type 0 where
  pub refresh_error : Option Text
  pub catalog : ExitCatalog
  pub switch_error : Option Text

abbrev pub no_record : RouteHealthRecord
no_record = record {
  latency_ms = pos 0;
  observed_exit_ip = [];
  last_checked = 0;
  last_success = 0;
  consecutive_failures = 0;
  last_error = [];
  last_switch_at = 0;
  last_switch_node = [];
  last_switch_error = [];
  automatic_switch_attempts = 0;
}

abbrev pub record_or_zero : Option RouteHealthRecord → RouteHealthRecord
record_or_zero none = no_record
record_or_zero (some r) = r

unfoldable pub record_of : RouteHealthMonitor → Text → RouteHealthRecord
record_of m code = record_or_zero (lookup code m.records)

unfoldable pub set_record : RouteHealthMonitor → Text → RouteHealthRecord → RouteHealthMonitor
set_record m code r = record m { records = insert code r m.records }

unfoldable pub record_switch_error : RouteHealthMonitor → Text → Text → RouteHealthMonitor
unfolding set_record record_of
record_switch_error m code message =
    set_record m code (record (record_of m code) { last_switch_error = message })

unfoldable pub is_alternate : Instance → ExitNode → Bool
is_alternate i n =
    not (same (to_upper n.fingerprint) (to_upper i.exit_fingerprint))
    && not (same n.ip i.selected_ip)

unfoldable pub first_alternate : Instance → List ExitNode → Option ExitNode
unfolding is_alternate
first_alternate i [] = none
first_alternate i (n ∷ ns) =
    let rest = first_alternate i ns in if is_alternate i n then some n else rest

unfoldable pub alternate_node : ExitCatalog → Instance → Option ExitNode
unfolding first_alternate
alternate_node c i = first_alternate i (nodes_for_country c i.country.code)

unfoldable pub succeeded : RouteHealthRecord → Text → ℤ → ℕ → RouteHealthRecord
succeeded r exit_ip latency now = record r {
  latency_ms = latency;
  observed_exit_ip = exit_ip;
  last_checked = now;
  last_success = now;
  consecutive_failures = 0;
  last_error = [];
  last_switch_error = [];
}

unfoldable pub failed_again : RouteHealthRecord → Text → ℕ → RouteHealthRecord
failed_again r e now = record r {
  last_checked = now;
  consecutive_failures = suc r.consecutive_failures;
  last_error = e;
}

unfoldable pub should_switch : RouteHealthMonitor → Bool → RouteHealthRecord → ℕ → Bool
should_switch m allow_switch r now =
    allow_switch
    && (leb m.failures r.consecutive_failures
        && (r.last_switch_at == 0 || leb (r.last_switch_at + m.cooldown) now))

-- `switchNode` returned.
unfoldable pub after_switch : RouteHealthMonitor → Text → Option Text → RouteHealthMonitor
unfolding record_switch_error set_record record_of
after_switch m code (some e) = record_switch_error m code e
after_switch m code none =
    let r = record_of m code in
    set_record m code (record r {
      consecutive_failures = 0;
      automatic_switch_attempts = suc r.automatic_switch_attempts;
    })

-- The time and the node are noted before `switchNode` is called.
unfoldable pub begin_switch :
    RouteHealthMonitor → RouteProbeResult → ExitNode → ℕ → RouteHealthMonitor
unfolding set_record record_of
begin_switch m result node now =
    let code = result.probed.country.code in
    let noted = set_record m code (record (record_of m code) {
      last_switch_at = now;
      last_switch_node = node.ip;
      last_switch_error = [];
    }) in
    record noted {
      switches =
          (code, record { code = code; node = node; active = result.active; at = now })
          ∷ m.switches;
    }

unfoldable pub switch_node :
    RouteHealthMonitor → RouteProbeResult → Option ExitNode → Answers → ℕ → RouteHealthMonitor
unfolding begin_switch after_switch record_switch_error
switch_node m result none o now =
    record_switch_error m result.probed.country.code
      (text "no alternate exit node is available in the same country")
switch_node m result (some node) o now =
    after_switch (begin_switch m result node now) result.probed.country.code o.switch_error

unfoldable pub refreshed :
    RouteHealthMonitor → RouteProbeResult → Option Text → Answers → ℕ → RouteHealthMonitor
unfolding switch_node record_switch_error
refreshed m result (some e) o now =
    record_switch_error m result.probed.country.code (text "refresh exit catalog: " ++ e)
refreshed m result none o now = switch_node m result (alternate_node o.catalog result.probed) o now

unfoldable pub apply_outcome :
    RouteHealthMonitor
    → RouteProbeResult
    → Text ⊎ (Text × ℤ)
    → Bool
    → Answers
    → ℕ
    → RouteHealthMonitor
unfolding refreshed set_record record_of succeeded failed_again should_switch
apply_outcome m result (inr (exit_ip, latency)) allow_switch o now =
    let code = result.probed.country.code in
    set_record m code (succeeded (record_of m code) exit_ip latency now)
apply_outcome m result (inl e) allow_switch o now =
    let code = result.probed.country.code in
    let r = failed_again (record_of m code) e now in
    let noted = set_record m code r in
    if should_switch m allow_switch r now
    then refreshed noted result o.refresh_error o now
    else noted

unfoldable pub apply_probe_result :
    RouteHealthMonitor → RouteProbeResult → Bool → Answers → ℕ → RouteHealthMonitor
unfolding apply_outcome
apply_probe_result m result allow_switch o now =
    apply_outcome m result result.outcome allow_switch o now
