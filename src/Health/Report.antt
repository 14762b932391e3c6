-- ===== src/Health/Report.antt =====
-- health.go: `Report`.
use tor_country_manager.Shared.{
  ℕ, suc, ◌/◌, Bool, false, ◌||◌, not, List, [], ◌∷◌, ◌++◌, Option, none, some, ltb, ◌==◌,
  if◌then◌else◌,
}
use tor_country_manager.Shared.Text.{Text, same, is_empty}
use tor_country_manager.Shared.Int.{ℤ, negsuc}
use tor_country_manager.Config.Defs.{Country}
use tor_country_manager.Catalog.Nodes.{ExitNode, ExitCatalog, node_at}
use tor_country_manager.Manager.Defs.{
  Instance, Status, is_running_status, is_switching_status, is_error,
}
use tor_country_manager.Manager.Nodes.{State}
use tor_country_manager.Health.Monitor.{RouteHealthMonitor, RouteHealthRecord, record_of}

-- The strings of the report's `Status`.
pub data HealthStatus : Type 0 where
  idle ok degraded : HealthStatus

pub record HealthCountry : Type 0 where
  pub country : Country
  pub status : Status
  pub active : Bool
  pub exit_ip : Text
  pub observed_exit_ip : Text
  pub selected_ip : Text
  pub selected_node : Text
  pub exit_fingerprint : Text
  pub latency_ms : ℤ
  pub node_tcp_latency_ms : ℤ
  pub active_connections : ℕ
  pub draining_connections : ℕ
  pub last_checked : ℕ
  pub last_success : ℕ
  pub consecutive_failures : ℕ
  pub last_error : Text
  pub last_switch_at : ℕ
  pub last_switch_node : Text
  pub last_switch_error : Text
  pub automatic_switch_attempts : ℕ

pub record HealthReport : Type 0 where
  pub status : HealthStatus
  pub checked_at : ℕ
  pub global_failure : Bool
  pub active : Text
  pub proxy_address : Text
  pub online_countries : ℕ
  pub failed_countries : ℕ
  pub check_interval_seconds : ℕ
  pub failure_threshold : ℕ
  pub switch_cooldown_seconds : ℕ
  pub countries : List HealthCountry

unfoldable pub is_listed : Instance → Bool
is_listed i = is_running_status i.status || (is_switching_status i.status || is_error i.status)

abbrev node_latency : Option ExitNode → ℤ
node_latency none = negsuc 0
node_latency (some n) = n.latency_ms

unfoldable pub health_country : Text → ExitCatalog → Instance → RouteHealthRecord → HealthCountry
health_country active c i r = record {
  country = i.country;
  status = i.status;
  active = same active i.country.code;
  exit_ip = i.exit_ip;
  observed_exit_ip = r.observed_exit_ip;
  selected_ip = i.selected_ip;
  selected_node = i.selected_node;
  exit_fingerprint = i.exit_fingerprint;
  latency_ms = if r.last_checked == 0 then negsuc 0 else r.latency_ms;
  node_tcp_latency_ms = node_latency (node_at c i.exit_fingerprint);
  active_connections = i.active_connections;
  draining_connections = i.draining_connections;
  last_checked = r.last_checked;
  last_success = r.last_success;
  consecutive_failures = r.consecutive_failures;
  last_error = if is_empty r.last_error then i.error_text else r.last_error;
  last_switch_at = r.last_switch_at;
  last_switch_node = r.last_switch_node;
  last_switch_error = r.last_switch_error;
  automatic_switch_attempts = r.automatic_switch_attempts;
}

-- What the loop has counted: the countries online and failed, whether something is degraded, and the
-- entries.
pub record Tally : Type 0 where
  pub online : ℕ
  pub failed : ℕ
  pub is_degraded : Bool
  pub listed : List HealthCountry

unfoldable pub tally_one : Text → ExitCatalog → RouteHealthMonitor → Instance → Tally → Tally
unfolding health_country
tally_one active c m i t =
    let r = record_of m i.country.code in
    let faulty = ltb 0 r.consecutive_failures || not (is_empty r.last_switch_error) in
    if not (is_listed i) then t else record {
      online = if is_error i.status then t.online else suc t.online;
      failed = if is_error i.status then suc t.failed else t.failed;
      is_degraded = t.is_degraded || (is_error i.status || faulty);
      listed = t.listed ++ (health_country active c i r ∷ []);
    }

unfoldable pub tally : Text → ExitCatalog → RouteHealthMonitor → List Instance → Tally → Tally
unfolding tally_one
tally active c m [] t = t
tally active c m (i ∷ is) t = tally active c m is (tally_one active c m i t)

abbrev pub no_tally : Tally
no_tally = record { online = 0; failed = 0; is_degraded = false; listed = [] }

unfoldable pub report : RouteHealthMonitor → State → ExitCatalog → (interval now : ℕ) → HealthReport
unfolding tally
report m s c interval now =
    let t = tally s.active c m s.instances no_tally in
    record {
      status = if t.is_degraded then degraded else if ltb 0 t.online then ok else idle;
      checked_at = now;
      global_failure = m.global_failure;
      active = s.active;
      proxy_address = s.proxy_address;
      online_countries = t.online;
      failed_countries = t.failed;
      check_interval_seconds = interval / 1000000000;
      failure_threshold = m.failures;
      switch_cooldown_seconds = m.cooldown / 1000000000;
      countries = t.listed;
    }
