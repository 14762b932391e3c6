-- ===== src/Manager/Replace.antt =====
-- manager.go: a second process that takes over a country, `replaceNode` and `CancelReplacement`; the
-- modules below are the ports that it reserves, the way back, and the end of a replacement.
pub mod Ports
pub mod Resume
pub mod Complete
use tor_country_manager.Shared.{
  ℕ, zero, suc, Bool, true, false, List, [], ◌∷◌, ◌++◌, Option, none, some, if◌then◌else◌, is_some,
  is_ref, not, ◌&&◌, ◌||◌, ◌==◌,
}
use tor_country_manager.Shared.Text.{Text, text, is_empty, to_upper, decimal}
use tor_country_manager.Shared.Int.{ℤ, eqb_ℤ}
use tor_country_manager.Shared.Assoc.{lookup, insert}
use tor_country_manager.Config.Defs.{normalize_code}
use tor_country_manager.Manager.Defs.{
  Manager, Instance, Status, unset, stopped, starting, connecting, running, switching, draining,
  stopping, error, ManagerError, unknown_country, is_shutting_down, prepare_failed,
  replacement_not_started, not_replaceable, port_unavailable, Spawn, cannot_make_dir, cannot_write,
  cannot_start, started, watch, await_ready, await_bootstrap, complete_replacement, drain_instance,
  update, modify, go, add_pointer, zero_instance, is_running_status,
}
use tor_country_manager.Manager.Persist.{remember_instance}
use tor_country_manager.Manager.Stop.{stop_instance, stop_pending}
use tor_country_manager.Manager.Start.{instance_dir, set_data_dir}
use tor_country_manager.Manager.Watch.{release_instance_ports, delete_port, is_current, message_of}
pub use tor_country_manager.Manager.Replace.Ports.{Offer, no_listener, offered, close_failed}
unfoldable pub use tor_country_manager.Manager.Replace.Ports.{
  has_port, reserve_loop, reserve_local_port, release_reserved_port,
}
unfoldable pub use tor_country_manager.Manager.Replace.Resume.{
  is_final_status, resumed_status, joined_error, restore_after_replacement,
  resume_after_replacement, restore_current,
}
unfoldable pub use tor_country_manager.Manager.Replace.Complete.{
  take_over, give_up_replacement, wait_on, complete_round, show_draining, clear_draining,
  drain_old_round,
}

-- The fields of a node of the catalog that the manager reads.
pub record NodeChoice : Type 0 where
  pub fingerprint : Text
  pub nickname : Text
  pub ip : Text
  pub country_code : Text
  pub country_name : Text

-- The current instance takes a replacement `r`.
unfoldable pub switch_to : Instance → ℕ → Instance
switch_to i r = record i {
  replacement_previous_status = if i.replacement then i.replacement_previous_status else i.status;
  replacement_previous_error = if i.replacement then i.replacement_previous_error else i.error_text;
  replacement_sequence = suc i.replacement_sequence;
  replacement = true;
  status = switching;
  pending_replacement = some r;
}

unfoldable pub new_replacement : Instance → NodeChoice → ℤ → ℤ → Instance
new_replacement current node port control = record zero_instance {
  country = current.country;
  socks_port = port;
  control_port = control;
  status = stopped;
  exit_fingerprint = to_upper node.fingerprint;
  selected_ip = node.ip;
  selected_node = node.nickname;
  dynamic_ports = true;
}

-- The instance after `startDetached` has started its process.
unfoldable pub launched_detached : Instance → ℕ → ℕ → Instance
launched_detached i cmd now = record i {
  cmd = some cmd;
  status = starting;
  bootstrap_progress = 0;
  started_at = now;
}

unfoldable pub detached_name : Manager → ℕ → Text → Text
detached_name m p suffix = (m.heap p).country.code ++ text "-" ++ suffix

unfoldable pub start_detached : Manager → ℕ → Text → Spawn → ℕ → Manager × Option ManagerError
unfolding launched_detached release_instance_ports set_data_dir detached_name
start_detached m p suffix (cannot_make_dir e) now =
    (release_instance_ports m p, some (prepare_failed e))
start_detached m p suffix (cannot_write e) now = (
  release_instance_ports (set_data_dir m p (detached_name m p suffix)) p,
  some (prepare_failed e),
)
start_detached m p suffix (cannot_start e) now = (
  release_instance_ports (set_data_dir m p (detached_name m p suffix)) p,
  some (replacement_not_started e),
)
start_detached m p suffix started now =
    let cmd = m.next_cmd in
    let dir = instance_dir m (detached_name m p suffix) in
    let m1 = set_data_dir m p (detached_name m p suffix) in
    (
      go (await_ready p cmd) (
          go (watch p cmd dir) (record m1 {
            heap = update m1.heap p (launched_detached (m1.heap p) cmd now);
            all_instances = add_pointer p m.all_instances;
            next_cmd = suc cmd;
          })),
      none,
    )

unfoldable pub is_replaceable : Manager → ℕ → Bool
is_replaceable m p =
    let i = m.heap p in
    is_current m p && (is_some i.cmd && (not i.is_stopping && not i.is_draining))

unfoldable pub finish_replace :
    ℕ → ℕ → Bool → ℕ → Manager × Option ManagerError → Manager × Option ManagerError
unfolding restore_current resume_after_replacement message_of
finish_replace p r activate sequence (m, none) =
    (go (complete_replacement p r activate sequence) m, none)
finish_replace p r activate sequence (m, some e) =
    let (m1, retry) =
      restore_current m p r sequence (text "replacement failed: " ++ message_of e) in
    (resume_after_replacement m1 p retry, some e)

-- The lock of `replaceNode`: a new instance, to which the current one switches.
unfoldable pub open_replacement : Manager → ℕ → NodeChoice → ℤ → ℤ → Manager
unfolding new_replacement switch_to
open_replacement m p node port control =
    let i = m.heap p in
    let r = m.next_instance in
    record m {
      heap = update (update m.heap r (new_replacement i node port control)) p (switch_to i r);
      next_instance = suc r;
    }

-- `replaceNode` with both ports reserved.
unfoldable pub replace_with_ports :
    Manager → ℕ → NodeChoice → Bool → ℤ → ℤ → Spawn → ℕ → Manager × Option ManagerError
unfolding is_replaceable release_reserved_port open_replacement start_detached finish_replace
replace_with_ports m p node activate port control spawn now =
    let i = m.heap p in
    let m1 = stop_pending (open_replacement m p node port control) i.pending_replacement in
    if not (is_replaceable m p)
    then (release_reserved_port (release_reserved_port m port) control, some not_replaceable)
    else finish_replace p m.next_instance activate (suc i.replacement_sequence)
        (start_detached m1 m.next_instance (text "replacement-" ++ decimal now) spawn now)

unfoldable pub replace_with_port :
    Manager → ℕ → NodeChoice → Bool → ℤ → (ℕ → Offer) → Spawn → ℕ → Manager × Option ManagerError
unfolding replace_with_ports reserve_local_port
replace_with_port m p node activate port offers spawn now =
    let (m1, answer) = reserve_local_port m offers in
    elim answer.0 [
      | none ↦ (release_reserved_port m1 port, some (port_unavailable answer.1))
      | some control ↦ replace_with_ports m1 p node activate port control spawn now
    ]

unfoldable pub replace_node :
    Manager
    → ℕ
    → NodeChoice
    → Bool
    → (ℕ → Offer)
    → (ℕ → Offer)
    → Spawn
    → ℕ
    → Manager × Option ManagerError
unfolding replace_with_port
replace_node m p node activate offers control_offers spawn now =
    let (m1, answer) = reserve_local_port m offers in
    if m.shutting_down then (m, some is_shutting_down) else elim answer.0 [
      | none ↦ (m1, some (port_unavailable answer.1))
      | some port ↦ replace_with_port m1 p node activate port control_offers spawn now
    ]

-- The lock of `CancelReplacement`, where there is something to cancel.
unfoldable pub cancelled_replacement : Instance → Instance × Option (ℕ × Status)
unfolding restore_after_replacement
cancelled_replacement i =
    restore_after_replacement (record i { replacement_sequence = suc i.replacement_sequence }) []

-- `CancelReplacement` on an instance that is known.
unfoldable pub cancel_known : Manager → ℕ → Manager
unfolding cancelled_replacement resume_after_replacement
cancel_known m p =
    let (i, retry) = cancelled_replacement (m.heap p) in
    elim (m.heap p).pending_replacement [
      | none ↦ m
      | some r ↦
          if (m.heap p).replacement
          then resume_after_replacement (stop_instance (record m { heap = update m.heap p i }) r) p
              retry
          else m
    ]

unfoldable pub cancel_replacement : Manager → Text → Manager × Option ManagerError
unfolding cancel_known
cancel_replacement m code0 =
    let code = normalize_code code0 in
    elim (lookup code m.instances) [
      | none ↦ (m, some (unknown_country code))
      | some p ↦ (cancel_known m p, none)
    ]
