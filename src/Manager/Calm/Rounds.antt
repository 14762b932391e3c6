-- ===== src/Manager/Calm/Rounds.antt =====
-- manager.go: the connections, the rounds of the goroutines and a change of the limit leave the
-- routes alone.
use tor_country_manager.Shared.{
  ℕ, Bool, true, false, List, [], ◌∷◌, Option, none, some, arith, if_either, not, ◌&&◌, is_ref,
}
use tor_country_manager.Shared.Text.{Text}
use tor_country_manager.Shared.Int.{ℤ}
use tor_country_manager.Manager.Defs.{is_connecting_status, Manager, ManagerError}
use tor_country_manager.Manager.Stop.{stop, stop_instance}
use tor_country_manager.Manager.Ready.{
  ExitInfo, mark_instance_running, start_circuit_rotation, rotation_round, lookup_exit_info,
  refresh_exit_ip, refresh_bootstrap_progress, bootstrap_round, ready_round,
}
use tor_country_manager.Manager.Watch.{
  release_instance_ports, schedule_auto_restart, watch_exit, give_up, watch_settle, restart_over,
  restart_failed, claim_restart, after_restart, is_claimed, claim_round,
}
use tor_country_manager.Manager.Limits.{
  codes_to_stop, still_to_stop, set_limit, stop_all, update_max_running, stop_instances,
  shutdown_round,
}
use tor_country_manager.Manager.Calm.{
  Calm, Calm-refl, Calm-trans, go-Calm, CalmResult, calm_result, stop-Calm, stop_instance-Calm,
  fail_instance-Calm,
}

mark_instance_running-CalmResult :
    (m : Manager) (p cmd : ℕ) (ip : Text) → CalmResult m (mark_instance_running m p cmd ip)
unfolding mark_instance_running
mark_instance_running-CalmResult m p cmd ip = record {
  calm = record {
    same_instances = ground arith;
    same_next = ground arith;
    same_shutdown = ground arith;
    no_start = λ h. ground arith;
    at = λ q. ground arith;
  };
}

pub start_circuit_rotation-Calm : (m : Manager) (p : ℕ) → Calm m (start_circuit_rotation m p)
unfolding start_circuit_rotation
start_circuit_rotation-Calm m p = record {
  same_instances = ground arith;
  same_next = ground arith;
  same_shutdown = ground arith;
  no_start = λ h. ground arith;
  at = λ q. ground arith;
}

lookup_exit_info-Calm :
    (m : Manager) (p : ℕ) (ip : Text) (info : Option ExitInfo)
    → Calm m (lookup_exit_info m p ip info)
unfolding lookup_exit_info
lookup_exit_info-Calm m p ip none = Calm-refl m
lookup_exit_info-Calm m p ip (some info) = record {
  same_instances = ground arith;
  same_next = ground arith;
  same_shutdown = ground arith;
  no_start = λ h. ground arith;
  at = λ q. ground arith;
}

refresh_exit_ip-CalmResult :
    (m : Manager) (p cmd : ℕ) (exit : Option Text) (info : Option ExitInfo)
    → CalmResult m (refresh_exit_ip m p cmd exit info)
unfolding refresh_exit_ip
refresh_exit_ip-CalmResult m p cmd none info = calm_result (Calm-refl m)
refresh_exit_ip-CalmResult m p cmd (some ip) info =
    let marked = (mark_instance_running-CalmResult m p cmd ip).calm in
    if_either (CalmResult m) (mark_instance_running m p cmd ip).1
      (calm_result (
        Calm-trans marked
          (Calm-trans (start_circuit_rotation-Calm _ p) (lookup_exit_info-Calm _ p ip info))))
      (calm_result marked)

refresh_bootstrap_progress-Calm :
    (m : Manager) (p : ℕ) (progress : Option ℕ) → Calm m (refresh_bootstrap_progress m p progress)
unfolding refresh_bootstrap_progress
refresh_bootstrap_progress-Calm m p none = Calm-refl m
refresh_bootstrap_progress-Calm m p (some n) = record {
  same_instances = ground arith;
  same_next = ground arith;
  same_shutdown = ground arith;
  no_start = λ h. ground arith;
  at = λ q. ground arith;
}

pub bootstrap_round-Calm :
    (m : Manager) (p cmd : ℕ) (expired : Bool) (progress : Option ℕ) (exit : Option Text)
    (info : Option ExitInfo)
    → Calm m (bootstrap_round m p cmd expired progress exit info)
unfolding bootstrap_round
bootstrap_round-Calm m p cmd expired progress exit info =
    let seen =
      Calm-trans (refresh_bootstrap_progress-Calm m p progress)
        (refresh_exit_ip-CalmResult _ p cmd exit info).calm in
    if_either (Calm m) expired (fail_instance-Calm m p cmd _) (
      if_either (Calm m) (not (is_ref (m.heap p).cmd cmd && is_connecting_status (m.heap p).status))
        (Calm-refl m)
        (if_either (Calm m)
          (refresh_exit_ip (refresh_bootstrap_progress m p progress) p cmd exit info).1 seen
          (go-Calm _ seen)))

pub ready_round-Calm :
    (m : Manager) (p cmd : ℕ) (expired dialled : Bool) (upstream : Option Text)
    → Calm m (ready_round m p cmd expired dialled upstream)
unfolding ready_round
ready_round-Calm m p cmd true dialled upstream = fail_instance-Calm m p cmd _
ready_round-Calm m p cmd false false upstream = go-Calm _ (Calm-refl m)
ready_round-Calm m p cmd false true upstream = record {
  same_instances = ground arith;
  same_next = ground arith;
  same_shutdown = ground arith;
  no_start = λ h. ground arith;
  at = λ q. ground arith;
}

pub rotation_round-Calm : (m : Manager) (p r : ℕ) → Calm m (rotation_round m p r)
unfolding rotation_round
rotation_round-Calm m p r = record {
  same_instances = ground arith;
  same_next = ground arith;
  same_shutdown = ground arith;
  no_start = λ h. ground arith;
  at = λ q. ground arith;
}

pub release_instance_ports-Calm : (m : Manager) (p : ℕ) → Calm m (release_instance_ports m p)
unfolding release_instance_ports
release_instance_ports-Calm m p = record {
  same_instances = ground arith;
  same_next = ground arith;
  same_shutdown = ground arith;
  no_start = λ h. ground arith;
  at = λ q. ground arith;
}

pub watch_exit-CalmResult :
    (m : Manager) (p cmd : ℕ) (e : Option Text) → CalmResult m (watch_exit m p cmd e)
unfolding watch_exit
watch_exit-CalmResult m p cmd e = record {
  calm = record {
    same_instances = ground arith;
    same_next = ground arith;
    same_shutdown = ground arith;
    no_start = λ h. ground arith;
    at = λ q. ground arith;
  };
}

schedule_auto_restart-CalmResult :
    (m : Manager) (p : ℕ) (reason : Text) → CalmResult m (schedule_auto_restart m p reason)
unfolding schedule_auto_restart
schedule_auto_restart-CalmResult m p reason = record {
  calm = record {
    same_instances = ground arith;
    same_next = ground arith;
    same_shutdown = ground arith;
    no_start = λ h. ground arith;
    at = λ q. ground arith;
  };
}

give_up-Calm : (m : Manager) (p : ℕ) → Calm m (give_up m p)
unfolding give_up
give_up-Calm m p = record {
  same_instances = ground arith;
  same_next = ground arith;
  same_shutdown = ground arith;
  no_start = λ h. ground arith;
  at = λ q. ground arith;
}

pub watch_settle-Calm : (m : Manager) (p : ℕ) → Calm m (watch_settle m p)
unfolding watch_settle
watch_settle-Calm m p =
    if_either (Calm m)
      (not (m.heap p).is_draining && (schedule_auto_restart m p (m.heap p).error_text).1)
      (schedule_auto_restart-CalmResult m p _).calm (give_up-Calm m p)

restart_over-Calm : (m : Manager) (p : ℕ) (reason : Text) → Calm m (restart_over m p reason)
unfolding restart_over
restart_over-Calm m p reason = record {
  same_instances = ground arith;
  same_next = ground arith;
  same_shutdown = ground arith;
  no_start = λ h. ground arith;
  at = λ q. ground arith;
}

restart_failed-Calm : (m : Manager) (p : ℕ) (reason : Text) → Calm m (restart_failed m p reason)
unfolding restart_failed
restart_failed-Calm m p reason =
    if_either (Calm m) (schedule_auto_restart m p reason).1
      (schedule_auto_restart-CalmResult m p reason).calm (restart_over-Calm m p reason)

pub after_restart-Calm :
    (m : Manager) (p : ℕ) (r : Manager × Option ManagerError)
    → CalmResult m r
    → Calm m (after_restart p r)
unfolding after_restart
after_restart-Calm m p (n, none) c = c.calm
after_restart-Calm m p (n, some e) c = Calm-trans c.calm (restart_failed-Calm n p _)

claim_restart-Calm : (m : Manager) (p : ℕ) → Calm m (claim_restart m p)
unfolding claim_restart
claim_restart-Calm m p = record {
  same_instances = ground arith;
  same_next = ground arith;
  same_shutdown = ground arith;
  no_start = λ h. ground arith;
  at = λ q. ground arith;
}

pub claim_round-Calm : (m : Manager) (p attempt : ℕ) → Calm m (claim_round m p attempt)
unfolding claim_round
claim_round-Calm m p attempt =
    if_either (Calm m) (is_claimed m p attempt) (claim_restart-Calm m p) (Calm-refl m)

stop_all-Calm : (m : Manager) (codes : List Text) → Calm m (stop_all m codes)
unfolding stop_all
stop_all-Calm m [] = Calm-refl m
stop_all-Calm m (code ∷ codes) = Calm-trans (stop-Calm m code) (stop_all-Calm (stop m code).0 codes)

set_limit-Calm : (m : Manager) (limit : ℤ) → Calm m (set_limit m limit)
unfolding set_limit
set_limit-Calm m limit = record {
  same_instances = ground arith;
  same_next = ground arith;
  same_shutdown = ground arith;
  no_start = λ h. ground arith;
  at = λ q. ground arith;
}

pub update_max_running-Calm : (m : Manager) (limit : ℤ) → Calm m (update_max_running m limit)
unfolding update_max_running
update_max_running-Calm m limit =
    Calm-trans (set_limit-Calm m limit) (stop_all-Calm _ (codes_to_stop m limit))

stop_instances-Calm : (m : Manager) (ps : List ℕ) → Calm m (stop_instances m ps)
unfolding stop_instances
stop_instances-Calm m [] = Calm-refl m
stop_instances-Calm m (p ∷ ps) =
    Calm-trans (stop_instance-Calm m p) (stop_instances-Calm (stop_instance m p) ps)

pub shutdown_round-Calm : (m : Manager) → Calm m (shutdown_round m).0
unfolding shutdown_round
shutdown_round-Calm m = stop_instances-Calm m (still_to_stop m.heap m.all_instances)
