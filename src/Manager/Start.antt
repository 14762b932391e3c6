-- ===== src/Manager/Start.antt =====
-- manager.go: `Start`, `makeRoom` and `Activate`. A call that holds `startMu` is one step here.
use tor_country_manager.Shared.{
  ℕ, suc, Bool, true, false, List, [], ◌∷◌, ◌++◌, Option, none, some, if◌then◌else◌, is_some, ◌&&◌,
  ◌||◌, not, ltb,
}
use tor_country_manager.Shared.Text.{Text, text, same}
use tor_country_manager.Shared.Int.{pos, ltb_ℤ}
use tor_country_manager.Shared.Assoc.{lookup}
use tor_country_manager.Config.Defs.{normalize_code}
use tor_country_manager.Manager.Defs.{
  Manager, Instance, starting, error, ManagerError, unknown_country, is_shutting_down,
  max_running_reached, previous_not_exited, prepare_failed, start_failed, stopped_before_activation,
  Spawn, cannot_make_dir, cannot_write, add_pointer, cannot_start, started, watch, await_ready,
  update, modify, go, is_occupied, is_draining_status,
}
use tor_country_manager.Manager.Persist.{remember_instance}
use tor_country_manager.Manager.Stop.{stop}

-- What the scan of `makeRoom` finds: the target runs already, or the number of running instances
-- and the oldest of those that are not active.
pub data Room : Type 0 where
  target_runs : Room
  counted : (running : ℕ) (oldest : Option ℕ) → Room

unfoldable pub is_older : Manager → ℕ → Option ℕ → Bool
is_older m p none = true
is_older m p (some q) = ltb (m.heap p).started_at (m.heap q).started_at

-- The candidate for eviction after an instance that runs was seen.
unfoldable pub pick_oldest : Manager → Text → ℕ → Option ℕ → Option ℕ
unfolding is_older
pick_oldest m code p oldest =
    if not (same code m.active) && is_older m p oldest then some p else oldest

unfoldable pub scan_room : Manager → Text → ℕ → Option ℕ → List (Text × ℕ) → Room
scan_room m target running oldest [] = counted running oldest
scan_room m target running oldest ((code, p) ∷ rest) =
    let counts = is_occupied (m.heap p).status in
    let found =
      scan_room m target (if counts then suc running else running)
        (if counts then pick_oldest m code p oldest else oldest) rest in
    if counts && same code target then target_runs else found

unfoldable pub evict : Manager → Option ℕ → Manager × Option ManagerError
evict m none = (m, some (max_running_reached m.cfg.max_running))
evict m (some p) = stop m (m.heap p).country.code

unfoldable pub make_room : Manager → Text → Manager × Option ManagerError
unfolding scan_room pick_oldest evict
make_room m target = elim (scan_room m target 0 none m.instances) [
  | target_runs ↦ (m, none)
  | counted running oldest ↦
      if ltb_ℤ (pos running) m.cfg.max_running then (m, none) else evict m oldest
]

-- The instance after its process was started. Its `draining` stays as it was.
unfoldable pub launched : Instance → ℕ → ℕ → Instance
launched i cmd now = record i {
  cmd = some cmd;
  status = starting;
  bootstrap_progress = 0;
  restart_scheduled = false;
  error_text = [];
  exit_ip = [];
  exit_isp = [];
  exit_asn = [];
  exit_country = [];
  exit_country_code = [];
  exit_city = [];
  started_at = now;
  is_stopping = false;
}

-- `filepath.Join(m.cfg.StateDir, name)`, and the data directory in it.
unfoldable pub instance_dir : Manager → Text → Text
instance_dir m name = m.cfg.state_dir ++ text "/" ++ name

-- The data directory of an instance whose directory has this name.
unfoldable pub set_data_dir : Manager → ℕ → Text → Manager
unfolding instance_dir
set_data_dir m p name =
    modify m p (λ i. record i { data_dir = instance_dir m name ++ text "/data" })

-- `prepareTorCommand` sets the data directory once the directories are made, and then `cmd.Start`
-- runs.
unfoldable pub launch : Manager → Text → ℕ → Spawn → ℕ → Manager × Option ManagerError
unfolding launched set_data_dir add_pointer
launch m code p (cannot_make_dir e) now = (m, some (prepare_failed e))
launch m code p (cannot_write e) now = (set_data_dir m p code, some (prepare_failed e))
launch m code p (cannot_start e) now = (
  modify (set_data_dir m p code) p (λ i. record i { status = error; error_text = e }),
  some (start_failed e),
)
launch m code p started now =
    let cmd = m.next_cmd in
    let m0 = set_data_dir m p code in
    let m1 = record m0 {
      heap = update m0.heap p (launched (m0.heap p) cmd now);
      all_instances = add_pointer p m.all_instances;
      next_cmd = suc cmd;
    } in
    (go (await_ready p cmd) (go (watch p cmd (instance_dir m code)) (remember_instance m1 p)), none)

-- `Start` from its second lock on.
unfoldable pub start_known : Manager → Text → ℕ → Spawn → ℕ → Manager × Option ManagerError
unfolding launch
start_known m code p spawn now =
    let i = m.heap p in
    if is_occupied i.status || is_draining_status i.status
    then (m, none)
    else if is_some i.cmd
    then (m, some previous_not_exited)
    else launch m code p spawn now

unfoldable pub start_in_room :
    Text → Spawn → ℕ → Manager × Option ManagerError → Manager × Option ManagerError
unfolding start_known
start_in_room code spawn now (m, some e) = (m, some e)
start_in_room code spawn now (m, none) = elim (lookup code m.instances) [
  | none ↦ (m, some (unknown_country code))
  | some p ↦ start_known m code p spawn now
]

unfoldable pub start : Manager → Text → Spawn → ℕ → Manager × Option ManagerError
unfolding start_in_room make_room
start m code0 spawn now =
    let code = normalize_code code0 in
    if not (is_some (lookup code m.instances))
    then (m, some (unknown_country code))
    else if m.shutting_down
    then (m, some is_shutting_down)
    else start_in_room code spawn now (make_room m code)

unfoldable pub can_activate : Instance → Bool
can_activate i = not i.is_draining && is_occupied i.status

unfoldable pub activate_started :
    Text → Manager × Option ManagerError → Manager × Option ManagerError
unfolding can_activate
activate_started code (m, some e) = (m, some e)
activate_started code (m, none) = elim (lookup code m.instances) [
  | none ↦ (m, some stopped_before_activation)
  | some p ↦
      if can_activate (m.heap p)
      then (record m { active = code }, none)
      else (m, some stopped_before_activation)
]

unfoldable pub activate : Manager → Text → Spawn → ℕ → Manager × Option ManagerError
unfolding start activate_started
activate m code0 spawn now =
    let code = normalize_code code0 in activate_started code (start m code spawn now)
