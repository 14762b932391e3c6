-- ===== src/Manager/System.antt =====
-- manager.go as a whole: every call from outside and every round of a goroutine is an event, and a
-- history is a list of events in any order; the arguments of an event are what the network, the clock and
-- the system answer. `UpdateUpstream` and `UpdateCircuitRotateMinutes` hold no lock between their
-- instances, so each instance's turn is an event. So is each section of `watch` (the end of the process,
-- the ports, the rest) and of `runAutoRestart` (the claim, the call of `Start`, its failure). `startNode`
-- is an event as a whole, and each of its sections is one too. A round of a loop that waits is one event.
use tor_country_manager.Shared.{ℕ, Bool, List, [], ◌∷◌, Option}
use tor_country_manager.Shared.Text.{Text}
use tor_country_manager.Shared.Int.{ℤ}
use tor_country_manager.Manager.Defs.{Manager, ManagerError, Spawn}
use tor_country_manager.Manager.Stop.{stop, drain_round}
use tor_country_manager.Manager.Start.{start, activate}
use tor_country_manager.Manager.Traffic.{acquire_instance, release_instance}
use tor_country_manager.Manager.Ready.{
  ExitInfo, ready_round, start_circuit_rotation, bootstrap_round, rotation_round,
}
use tor_country_manager.Manager.Watch.{
  release_instance_ports, watch_exit, watch_settle, claim_round, after_restart,
}
use tor_country_manager.Manager.Replace.{
  NodeChoice, replace_node, cancel_replacement, complete_round, drain_old_round,
}
use tor_country_manager.Manager.Nodes.{Outside, start_node, ensure_country, select}
use tor_country_manager.Manager.Limits.{update_max_running, begin_shutdown, shutdown_round}
use tor_country_manager.Config.Defs.{Config, Country}
use tor_country_manager.Manager.Upstream.{retry_bootstrap, set_upstream, set_rotate_minutes}

pub data Event : Type 0 where
  starts activates : (code : Text) (spawn : Spawn) (now : ℕ) → Event
  stops cancels : (code : Text) → Event
  starts_node : (node : NodeChoice) (activate : Bool) (outside : Outside) → Event
  limits : ℤ → Event
  connects : (code : Text) → Event
  disconnects : (instance : ℕ) → Event
  exits : (instance cmd : ℕ) (exit_error : Option Text) → Event
  releases_ports settles : (instance : ℕ) → Event
  claims_restart : (instance attempt : ℕ) → Event
  ends_restart : (instance : ℕ) (failure : Option ManagerError) → Event
  dials : (instance cmd : ℕ) (expired dialled : Bool) (upstream : Option Text) → Event
  bootstraps :
      (instance cmd : ℕ) (expired : Bool) (progress : Option ℕ) (exit : Option Text)
      (info : Option ExitInfo)
      → Event
  rotates : (instance rotation : ℕ) → Event
  drains : (instance : ℕ) (expired : Bool) → Event
  completes : (current next : ℕ) (activate : Bool) (sequence : ℕ) (expired : Bool) → Event
  drains_old : (old current : ℕ) (expired : Bool) → Event
  retries_bootstrap restarts_rotation : (instance : ℕ) → Event
  sets_upstream : Config → Event
  sets_rotate_minutes : ℤ → Event
  -- the sections of `startNode`, one by one
  ensures_country : Country → Event
  selects : (instance : ℕ) (node : NodeChoice) → Event
  replaces_node : (instance : ℕ) (node : NodeChoice) (activate : Bool) (outside : Outside) → Event
  makes_active : (code : Text) → Event
  begins_shutdown : Event
  goes_on_shutting_down : Event

unfoldable pub step : Manager → Event → Manager
step m (starts code spawn now) = (start m code spawn now).0
step m (activates code spawn now) = (activate m code spawn now).0
step m (stops code) = (stop m code).0
step m (cancels code) = (cancel_replacement m code).0
step m (starts_node node activate outside) = (start_node m node activate outside).0
step m (limits limit) = update_max_running m limit
step m (connects code) = (acquire_instance m code).0
step m (disconnects p) = release_instance m p
step m (exits p cmd e) = (watch_exit m p cmd e).0
step m (releases_ports p) = release_instance_ports m p
step m (settles p) = watch_settle m p
step m (claims_restart p attempt) = claim_round m p attempt
step m (ends_restart p failure) = after_restart p (m, failure)
step m (dials p cmd expired dialled upstream) = ready_round m p cmd expired dialled upstream
step m (bootstraps p cmd expired progress exit info) =
    bootstrap_round m p cmd expired progress exit info
step m (rotates p r) = rotation_round m p r
step m (drains p expired) = drain_round m p expired
step m (completes p r activate sequence expired) = complete_round m p r activate sequence expired
step m (drains_old old current expired) = drain_old_round m old current expired
step m (retries_bootstrap p) = retry_bootstrap m p
step m (restarts_rotation p) = start_circuit_rotation m p
step m (sets_upstream cfg) = set_upstream m cfg
step m (sets_rotate_minutes minutes) = set_rotate_minutes m minutes
step m (ensures_country c) = (ensure_country m c).0
step m (selects p node) = select m p node
step m (replaces_node p node activate o) =
    (replace_node m p node activate o.offers o.control_offers o.spawn o.now).0
step m (makes_active code) = record m { active = code }
step m begins_shutdown = begin_shutdown m
step m goes_on_shutting_down = (shutdown_round m).0

unfoldable pub run : Manager → List Event → Manager
run m [] = m
run m (e ∷ es) = run (step m e) es
