-- ===== src/Manager/Stop.antt =====
-- manager.go: `stop`, `stopInstance`, `drainAndStop`, `signalProcess` and `failInstance`.
use tor_country_manager.Shared.{
  ℕ, suc, Bool, true, false, [], ◌∷◌, Option, none, some, if◌then◌else◌, is_some, is_ref, ◌==◌,
  ◌||◌, not,
}
use tor_country_manager.Shared.Text.{Text, same}
use tor_country_manager.Shared.Assoc.{lookup}
use tor_country_manager.Config.Defs.{normalize_code}
use tor_country_manager.Manager.Defs.{
  Manager, Instance, stopped, stopping, draining, error, unset, ManagerError, unknown_country,
  drain_and_stop, kill_later, update, modify, go,
}
use tor_country_manager.Manager.Persist.{forget_instance}

-- The process is interrupted, or killed at once if it cannot be; a kill follows after 8 seconds.
unfoldable pub signal_process : Manager → ℕ → ℕ → Manager
signal_process m p cmd = go (kill_later p cmd) (record m { signalled = cmd ∷ m.signalled })

-- `cancelRotation()`, if there is a rotation.
unfoldable pub cancel_rotation_of : Manager → ℕ → Manager
cancel_rotation_of m p = elim (m.heap p).cancel_rotation [
  | none ↦ m
  | some r ↦
      modify (record m { cancelled = r ∷ m.cancelled }) p (λ i. record i { cancel_rotation = none })
]

unfoldable pub stop_process : Manager → ℕ → Manager
unfolding signal_process
stop_process m p = elim (m.heap p).cmd [
  | none ↦ modify m p (λ i. record i { status = stopped; error_text = [] })
  | some cmd ↦
      signal_process
        (modify m p (λ i. record i { is_stopping = true; is_draining = true; status = stopping })) p
        cmd
]

unfoldable pub stop_instance : Manager → ℕ → Manager
unfolding stop_process cancel_rotation_of
stop_instance m p = if (m.heap p).is_stopping then m else stop_process (cancel_rotation_of m p) p

unfoldable pub stop_pending : Manager → Option ℕ → Manager
unfolding stop_instance
stop_pending m none = m
stop_pending m (some r) = stop_instance m r

-- A pending replacement is given up.
unfoldable pub drop_replacement : Instance → Instance
drop_replacement i = elim i.pending_replacement [
  | none ↦ i
  | some r ↦ record i {
    replacement_sequence = suc i.replacement_sequence;
    replacement = false;
    replacement_previous_status = unset;
    replacement_previous_error = [];
    pending_replacement = none;
  }
]

-- The instance without a process is stopped at once.
unfoldable pub stopped_idle : Instance → Instance
stopped_idle i = record i {
  status = stopped;
  error_text = [];
  restart_scheduled = false;
  restart_attempts = 0;
}

-- One with a process is drained first.
unfoldable pub drained : Instance → Instance
drained i = record i {
  is_draining = true;
  restart_scheduled = false;
  restart_attempts = 0;
  status = draining;
}

abbrev pub write : Manager → ℕ → Instance → Manager
write m p i = record m { heap = update m.heap p i }

abbrev pub deactivate : Manager → Text → Manager
deactivate m code = record m { active = if same m.active code then [] else m.active }

-- The cases of `stop`, on an instance that is known; the pending replacement is stopped after the
-- lock is given back.
unfoldable pub stop_known : Manager → Text → ℕ → Manager
unfolding stop_pending drop_replacement stopped_idle drained
stop_known m code p =
    let pending = (m.heap p).pending_replacement in
    let i = drop_replacement (m.heap p) in
    if not (is_some (m.heap p).cmd)
    then forget_instance (stop_pending (write m p (stopped_idle i)) pending) code
    else if (m.heap p).is_draining
    then stop_pending (write m p i) pending
    else go (drain_and_stop p)
        (forget_instance (stop_pending (deactivate (write m p (drained i)) code) pending) code)

unfoldable pub stop : Manager → Text → Manager × Option ManagerError
unfolding stop_known
stop m code0 =
    let code = normalize_code code0 in
    elim (lookup code m.instances) [
      | none ↦ (m, some (unknown_country code))
      | some p ↦ (stop_known m code p, none)
    ]

-- One round of `drainAndStop`: at the deadline, or without connections, the instance is stopped;
-- otherwise the goroutine sleeps and looks again.
unfoldable pub drain_round : Manager → ℕ → (expired : Bool) → Manager
unfolding stop_instance
drain_round m p expired =
    if expired || ((m.heap p).active_connections == 0)
    then stop_instance m p
    else go (drain_and_stop p) m

unfoldable pub fail_instance : Manager → ℕ → ℕ → Text → Manager
unfolding signal_process
fail_instance m p cmd message =
    let i = m.heap p in
    if not (is_ref i.cmd cmd) || (i.is_stopping || i.is_draining)
    then m
    else signal_process (modify m p (λ i. record i { status = error; error_text = message })) p cmd
