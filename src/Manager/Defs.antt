-- ===== src/Manager/Defs.antt =====
-- manager.go: the state of the manager. Instances are shared by pointers (`m.instances`,
-- `m.allInstances`, `pendingReplacement`), so they live in a heap; a pointer is a number. A process
-- is the number that it was given when it started: `cmd` is set only after `cmd.Start` succeeded,
-- so `cmd != nil` and `cmd.Process != nil` are one test. Times are numbers, and 0 is the zero time.
use tor_country_manager.Shared.{
  ℕ, Bool, true, false, List, [], ◌∷◌, Option, none, ◌==◌, if◌then◌else◌, ◌||◌,
}
use tor_country_manager.Shared.Text.{Text}
use tor_country_manager.Shared.Int.{ℤ}
use tor_country_manager.Config.Defs.{Country, Config}

-- The strings of `Status`; `unset` is the empty string.
pub data Status : Type 0 where
  unset stopped starting connecting running switching draining stopping error : Status

pub record Instance : Type 0 where
  pub country : Country
  pub socks_port : ℤ
  pub control_port : ℤ
  pub status : Status
  pub bootstrap_progress : ℕ
  pub exit_ip : Text
  pub exit_isp : Text
  pub exit_asn : Text
  pub exit_country : Text
  pub exit_country_code : Text
  pub exit_city : Text
  pub selected_ip : Text
  pub selected_node : Text
  pub exit_fingerprint : Text
  pub error_text : Text
  pub started_at : ℕ
  pub active_connections : ℕ
  pub draining_connections : ℕ
  pub data_dir : Text
  pub cancel_rotation : Option ℕ
  pub cmd : Option ℕ
  pub is_stopping : Bool
  pub is_draining : Bool
  pub replacement : Bool
  pub replacement_sequence : ℕ
  pub replacement_previous_status : Status
  pub replacement_previous_error : Text
  pub pending_replacement : Option ℕ
  pub restart_attempts : ℕ
  pub restart_scheduled : Bool
  pub dynamic_ports : Bool

pub record PersistedNode : Type 0 where
  pub country : Country
  pub exit_fingerprint : Text
  pub selected_ip : Text
  pub selected_node : Text
  pub started_at : ℕ

pub record PersistedManagerState : Type 0 where
  pub active : Text
  pub instances : List PersistedNode

-- What becomes of the state file when it is saved: it is replaced by the state, stays as it is, or is cut off
-- (`Files.Unnoticed`), so that nothing can be read from it.
pub data DiskAnswer : Type 0 where
  replaced unchanged damaged : DiskAnswer

-- The goroutines that the manager starts, with what each closes over.
pub data Task : Type 0 where
  watch : (instance cmd : ℕ) (instance_dir : Text) → Task
  await_ready await_bootstrap : (instance cmd : ℕ) → Task
  drain_and_stop : (instance : ℕ) → Task
  kill_later : (instance cmd : ℕ) → Task
  run_auto_restart : (instance attempt delay : ℕ) → Task
  complete_replacement : (current next : ℕ) (activate : Bool) (sequence : ℕ) → Task
  drain_instance : (old current : ℕ) → Task
  rotate : (instance rotation : ℕ) → Task

-- `disk n` is what becomes of the state file at its n-th saving; `state_file` is what can be read from it.
pub record Manager : Type 0 where
  pub cfg : Config
  pub heap : ℕ → Instance
  pub next_instance : ℕ
  pub instances : List (Text × ℕ)
  pub all_instances : List ℕ
  pub resume_nodes : List (Text × PersistedNode)
  pub resume_active : Text
  pub active : Text
  pub reserved_ports : List ℤ
  pub shutting_down : Bool
  pub tasks : List Task
  pub next_cmd : ℕ
  pub signalled : List ℕ
  pub cancelled : List ℕ
  pub next_rotation : ℕ
  pub disk : ℕ → DiskAnswer
  pub writes : ℕ
  pub state_file : Option PersistedManagerState

-- The errors that the methods return.
pub data ManagerError : Type 0 where
  unknown_country : Text → ManagerError
  is_shutting_down : ManagerError
  max_running_reached : ℤ → ManagerError
  previous_not_exited : ManagerError
  prepare_failed : Text → ManagerError
  start_failed : Text → ManagerError
  replacement_not_started : Text → ManagerError
  stopped_before_activation : ManagerError
  invalid_country_code : Text → ManagerError
  no_ports_remain : ManagerError
  invalid_fingerprint : ManagerError
  not_replaceable : ManagerError
  port_unavailable : Text → ManagerError

-- What the operating system answers to `prepareTorCommand` (its directories, then the file `torrc`)
-- and to `cmd.Start`.
pub data Spawn : Type 0 where
  cannot_make_dir cannot_write cannot_start : Text → Spawn
  started : Spawn

abbrev pub update : (ℕ → Instance) → ℕ → Instance → ℕ → Instance
update heap p v q = if p == q then v else heap q

-- A write through a pointer.
abbrev pub modify : Manager → ℕ → (Instance → Instance) → Manager
modify m p f = record m { heap = update m.heap p (f (m.heap p)) }

abbrev pub go : Task → Manager → Manager
go t m = record m { tasks = t ∷ m.tasks }

-- A set of pointers, `map[*Instance]struct{}`.
unfoldable pub has_pointer : ℕ → List ℕ → Bool
has_pointer p [] = false
has_pointer p (q ∷ qs) = q == p || has_pointer p qs

unfoldable pub add_pointer : ℕ → List ℕ → List ℕ
unfolding has_pointer
add_pointer p ps = if has_pointer p ps then ps else p ∷ ps

unfoldable pub delete_pointer : ℕ → List ℕ → List ℕ
delete_pointer p [] = []
delete_pointer p (q ∷ qs) = let rest = delete_pointer p qs in if q == p then rest else q ∷ rest

-- `starting`, `connecting`, `running` or `switching`: the instances that count as running.
unfoldable pub is_occupied : Status → Bool
is_occupied starting = true
is_occupied connecting = true
is_occupied running = true
is_occupied switching = true
is_occupied _ = false

unfoldable pub is_error : Status → Bool
is_error error = true
is_error _ = false

unfoldable pub is_draining_status : Status → Bool
is_draining_status draining = true
is_draining_status _ = false

unfoldable pub is_running_status : Status → Bool
is_running_status running = true
is_running_status _ = false

unfoldable pub is_starting_status : Status → Bool
is_starting_status starting = true
is_starting_status _ = false

unfoldable pub is_connecting_status : Status → Bool
is_connecting_status connecting = true
is_connecting_status _ = false

unfoldable pub is_switching_status : Status → Bool
is_switching_status switching = true
is_switching_status _ = false

abbrev pub no_country : Country
no_country = record { code = []; name = [] }

-- `&Instance{}`: Go's zero value.
abbrev pub zero_instance : Instance
zero_instance = record {
  country = no_country;
  socks_port = ℤ.pos 0;
  control_port = ℤ.pos 0;
  status = unset;
  bootstrap_progress = 0;
  exit_ip = [];
  exit_isp = [];
  exit_asn = [];
  exit_country = [];
  exit_country_code = [];
  exit_city = [];
  selected_ip = [];
  selected_node = [];
  exit_fingerprint = [];
  error_text = [];
  started_at = 0;
  active_connections = 0;
  draining_connections = 0;
  data_dir = [];
  cancel_rotation = none;
  cmd = none;
  is_stopping = false;
  is_draining = false;
  replacement = false;
  replacement_sequence = 0;
  replacement_previous_status = unset;
  replacement_previous_error = [];
  pending_replacement = none;
  restart_attempts = 0;
  restart_scheduled = false;
  dynamic_ports = false;
}
