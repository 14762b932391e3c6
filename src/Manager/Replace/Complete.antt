-- ===== src/Manager/Replace/Complete.antt =====
-- manager.go: `completeReplacement` and `drainInstance`, the end of a replacement.
use tor_country_manager.Shared.{
  ℕ, Bool, true, false, [], none, if◌then◌else◌, is_ref, not, ◌&&◌, ◌||◌, ◌==◌,
}
use tor_country_manager.Shared.Text.{text}
use tor_country_manager.Shared.Assoc.{insert}
use tor_country_manager.Manager.Defs.{
  Manager, Status, unset, stopped, draining, error, complete_replacement, drain_instance, update,
  modify, go, is_running_status,
}
use tor_country_manager.Manager.Persist.{remember_instance}
use tor_country_manager.Manager.Stop.{stop_instance}
use tor_country_manager.Manager.Watch.{is_current}
use tor_country_manager.Manager.Replace.Resume.{resume_after_replacement, restore_current}

-- The lock of `completeReplacement` in which the country changes hands.
unfoldable pub take_over : Manager → ℕ → ℕ → Bool → Manager
take_over m p r activate =
    let i = m.heap p in
    let code = i.country.code in
    record m {
      heap =
          update
            (update m.heap r (record (m.heap r) {
              active_connections = 0;
              draining_connections = i.active_connections;
            }))
            p
            (record i {
              replacement = false;
              replacement_previous_status = unset;
              replacement_previous_error = [];
              pending_replacement = none;
              is_draining = true;
              status = draining;
            });
      instances = insert code r m.instances;
      active = if activate then code else m.active;
    }

unfoldable pub give_up_replacement : Manager → ℕ → ℕ → ℕ → Manager
unfolding restore_current resume_after_replacement
give_up_replacement m p r sequence =
    let (m1, retry) =
      restore_current m p r sequence
        (text "replacement instance did not become ready; old route was preserved") in
    resume_after_replacement (stop_instance m1 r) p retry

-- A replacement that does not run yet has failed, or is waited for.
unfoldable pub wait_on : Status → Manager → ℕ → ℕ → Bool → ℕ → Manager
unfolding give_up_replacement
wait_on error m p r activate sequence = give_up_replacement m p r sequence
wait_on stopped m p r activate sequence = give_up_replacement m p r sequence
wait_on _ m p r activate sequence = go (complete_replacement p r activate sequence) m

-- One round of `completeReplacement`.
unfoldable pub complete_round : Manager → ℕ → ℕ → Bool → ℕ → (expired : Bool) → Manager
unfolding take_over wait_on
complete_round m p r activate sequence expired =
    let i = m.heap p in
    let status = (m.heap r).status in
    let pending = (i.replacement_sequence == sequence) && is_ref i.pending_replacement r in
    if expired
    then give_up_replacement m p r sequence
    else if not pending
    then stop_instance m r
    else if is_running_status status
    then (if not (is_current m p)
        then stop_instance m r
        else go (drain_instance p r) (remember_instance (take_over m p r activate) r))
    else wait_on status m p r activate sequence

unfoldable pub show_draining : Manager → ℕ → ℕ → Manager
show_draining m old current =
    modify m current (λ i. record i { draining_connections = (m.heap old).active_connections })

unfoldable pub clear_draining : Manager → ℕ → Manager
clear_draining m current =
    if is_current m current
    then modify m current (λ i. record i { draining_connections = 0 })
    else m

-- One round of `drainInstance`.
unfoldable pub drain_old_round : Manager → ℕ → ℕ → (expired : Bool) → Manager
unfolding show_draining clear_draining
drain_old_round m old current expired =
    let seen = if expired then m else show_draining m old current in
    if expired || ((m.heap old).active_connections == 0)
    then clear_draining (stop_instance seen old) current
    else go (drain_instance old current) seen
