-- ===== src/Manager/Calm/Replaces.antt =====
-- manager.go: what `CancelReplacement`, a failed replacement and the draining of an old instance
-- leave alone.
use tor_country_manager.Shared.{
  ℕ, false, Bool, Option, none, some, refl, ◌≡◌, arith, ◌==◌, ◌||◌, ◌&&◌, Option-cases, inl, inr,
  if_either, is_ref,
}
use tor_country_manager.Shared.Text.{Text}
use tor_country_manager.Shared.Int.{ℤ}
use tor_country_manager.Shared.Assoc.{lookup}
use tor_country_manager.Config.Defs.{normalize_code}
use tor_country_manager.Manager.Defs.{
  Manager, Instance, Status, error, stopped, starting, connecting, ManagerError, Spawn,
  cannot_make_dir, cannot_write, cannot_start, started, update, drain_instance,
}
use tor_country_manager.Manager.Replace.{
  NodeChoice, detached_name, Offer, reserve_local_port, release_reserved_port,
  restore_after_replacement, resume_after_replacement, start_detached, finish_replace,
  restore_current, cancel_known, cancel_replacement, give_up_replacement, wait_on, show_draining,
  clear_draining, cancelled_replacement, drain_old_round,
}
use tor_country_manager.Manager.Start.{set_data_dir}
use tor_country_manager.Manager.Nodes.{name_country, select}
use tor_country_manager.Manager.Calm.{
  Calm, CalmAt, Calm-refl, Calm-trans, update-CalmAt, go-Calm, CalmResult, calm_result,
  stop_instance-Calm,
}
use tor_country_manager.Manager.Calm.Rounds.{release_instance_ports-Calm}

pub reserve_local_port-CalmResult :
    (m : Manager) (offers : ℕ → Offer) → CalmResult m (reserve_local_port m offers)
unfolding reserve_local_port
reserve_local_port-CalmResult m offers = record {
  calm = record {
    same_instances = refl;
    same_next = refl;
    same_shutdown = refl;
    no_start = λ h. refl;
    at = (Calm-refl m).at;
  };
}

pub release_reserved_port-Calm : (m : Manager) (a : ℤ) → Calm m (release_reserved_port m a)
unfolding release_reserved_port
release_reserved_port-Calm m a = record {
  same_instances = refl;
  same_next = refl;
  same_shutdown = refl;
  no_start = λ h. refl;
  at = (Calm-refl m).at;
}

resume_after_replacement-Calm :
    (m : Manager) (p : ℕ) (o : Option (ℕ × Status)) → Calm m (resume_after_replacement m p o)
unfolding resume_after_replacement
resume_after_replacement-Calm m p none = Calm-refl m
resume_after_replacement-Calm m p (some (cmd, starting)) = go-Calm _ (Calm-refl m)
resume_after_replacement-Calm m p (some (cmd, connecting)) = go-Calm _ (Calm-refl m)
resume_after_replacement-Calm m p (some (cmd, _)) = Calm-refl m

restore_after_replacement-CalmAt :
    (i : Instance) (message : Text) → CalmAt i (restore_after_replacement i message).0
unfolding restore_after_replacement
restore_after_replacement-CalmAt i message = ground arith

restore_current-CalmResult :
    (m : Manager) (p r sequence : ℕ) (message : Text)
    → CalmResult m (restore_current m p r sequence message)
unfolding restore_current
restore_current-CalmResult m p r sequence message =
    if_either (CalmResult m)
      (((m.heap p).replacement_sequence == sequence) && is_ref (m.heap p).pending_replacement r)
      (record {
        calm = record {
          same_instances = refl;
          same_next = refl;
          same_shutdown = refl;
          no_start = λ h. refl;
          at = update-CalmAt m.heap p _ (restore_after_replacement-CalmAt (m.heap p) message);
        };
      })
      (calm_result (Calm-refl m))

-- A failed replacement leaves every route as it is.
pub give_up_replacement-Calm :
    (m : Manager) (p r sequence : ℕ) → Calm m (give_up_replacement m p r sequence)
unfolding give_up_replacement
give_up_replacement-Calm m p r sequence =
    Calm-trans (restore_current-CalmResult m p r sequence _).calm
      (Calm-trans (stop_instance-Calm _ r) (resume_after_replacement-Calm _ p _))

show_draining-Calm : (m : Manager) (old current : ℕ) → Calm m (show_draining m old current)
unfolding show_draining
show_draining-Calm m old current = record {
  same_instances = refl;
  same_next = refl;
  same_shutdown = refl;
  no_start = λ h. refl;
  at = λ q. ground arith;
}

clear_draining-Calm : (m : Manager) (current : ℕ) → Calm m (clear_draining m current)
unfolding clear_draining
clear_draining-Calm m current = record {
  same_instances = ground arith;
  same_next = ground arith;
  same_shutdown = ground arith;
  no_start = λ h. ground arith;
  at = λ q. ground arith;
}

pub drain_old_round-Calm :
    (m : Manager) (old current : ℕ) (expired : Bool)
    → Calm m (drain_old_round m old current expired)
unfolding drain_old_round
drain_old_round-Calm m old current expired =
    let seen = if_either (Calm m) expired (Calm-refl m) (show_draining-Calm m old current) in
    if_either (Calm m) (expired || ((m.heap old).active_connections == 0))
      (Calm-trans seen (Calm-trans (stop_instance-Calm _ old) (clear_draining-Calm _ current)))
      (go-Calm (drain_instance old current) seen)

cancelled_replacement-CalmAt : (i : Instance) → CalmAt i (cancelled_replacement i).0
unfolding cancelled_replacement
cancelled_replacement-CalmAt i = ground arith

restored-Calm :
    (m : Manager) (p : ℕ)
    → Calm m (record m { heap = update m.heap p (cancelled_replacement (m.heap p)).0 })
unfolding cancelled_replacement
restored-Calm m p = record {
  same_instances = refl;
  same_next = refl;
  same_shutdown = refl;
  no_start = λ h. refl;
  at = update-CalmAt m.heap p _ (cancelled_replacement-CalmAt (m.heap p));
}

cancel_known-Calm : (m : Manager) (p : ℕ) → Calm m (cancel_known m p)
unfolding cancel_known
cancel_known-Calm m p = elim (Option-cases (m.heap p).pending_replacement) [
  | inl e ↦ rw (e, cancel_known) (Calm-refl m)
  | inr (r, e) ↦
      rw (e, cancel_known)
        (if_either (Calm m) (m.heap p).replacement
          (Calm-trans (restored-Calm m p)
            (Calm-trans (stop_instance-Calm _ r) (resume_after_replacement-Calm _ p _)))
          (Calm-refl m))
]

pub cancel_replacement-CalmResult :
    (m : Manager) (code : Text) → CalmResult m (cancel_replacement m code)
unfolding cancel_replacement
cancel_replacement-CalmResult m code =
    elim (Option-cases (lookup (normalize_code code) m.instances)) [
      | inl e ↦ rw (e, cancel_replacement) (calm_result (Calm-refl m))
      | inr (p, e) ↦ rw (e, cancel_replacement) (calm_result (cancel_known-Calm m p))
    ]

set_data_dir-Calm : (m : Manager) (p : ℕ) (name : Text) → Calm m (set_data_dir m p name)
unfolding set_data_dir
set_data_dir-Calm m p name = record {
  same_instances = refl;
  same_next = refl;
  same_shutdown = refl;
  no_start = λ h. refl;
  at = λ q. ground arith;
}

pub start_detached-CalmResult :
    (m : Manager) (p : ℕ) (suffix : Text) (spawn : Spawn) (now : ℕ)
    → m.shutting_down ≡ false
    → CalmResult m (start_detached m p suffix spawn now)
unfolding start_detached
start_detached-CalmResult m p suffix (cannot_make_dir e) now on = record {
  calm = release_instance_ports-Calm m p;
}
start_detached-CalmResult m p suffix (cannot_write e) now on = record {
  calm =
      Calm-trans (set_data_dir-Calm m p (detached_name m p suffix))
        (release_instance_ports-Calm _ p);
}
start_detached-CalmResult m p suffix (cannot_start e) now on = record {
  calm =
      Calm-trans (set_data_dir-Calm m p (detached_name m p suffix))
        (release_instance_ports-Calm _ p);
}
start_detached-CalmResult m p suffix started now on = record {
  calm = record {
    same_instances = refl;
    same_next = refl;
    same_shutdown = refl;
    no_start = λ h. cc;
    at = λ q. ground arith;
  };
}

pub finish_replace-CalmResult :
    (m : Manager) (p r : ℕ) (activate : Bool) (sequence : ℕ) (o : Manager × Option ManagerError)
    → CalmResult m o
    → CalmResult m (finish_replace p r activate sequence o)
unfolding finish_replace
finish_replace-CalmResult m p r activate sequence (n, none) c = record { calm = go-Calm _ c.calm }
finish_replace-CalmResult m p r activate sequence (n, some e) c = record {
  calm = Calm-trans c.calm (
      Calm-trans (restore_current-CalmResult n p r sequence _).calm
        (resume_after_replacement-Calm _ p _));
}

pub wait_on-Calm :
    (s : Status) (m : Manager) (p r : ℕ) (activate : Bool) (sequence : ℕ)
    → Calm m (wait_on s m p r activate sequence)
unfolding wait_on
wait_on-Calm error m p r activate sequence = give_up_replacement-Calm m p r sequence
wait_on-Calm stopped m p r activate sequence = give_up_replacement-Calm m p r sequence
wait_on-Calm _ m p r activate sequence = go-Calm _ (Calm-refl m)

pub name_country-Calm : (m : Manager) (p : ℕ) (name : Text) → Calm m (name_country m p name)
unfolding name_country
name_country-Calm m p name = record {
  same_instances = ground arith;
  same_next = ground arith;
  same_shutdown = ground arith;
  no_start = λ h. ground arith;
  at = λ q. ground arith;
}

pub select-Calm : (m : Manager) (p : ℕ) (node : NodeChoice) → Calm m (select m p node)
unfolding select
select-Calm m p node = record {
  same_instances = refl;
  same_next = refl;
  same_shutdown = refl;
  no_start = λ h. refl;
  at = λ q. ground arith;
}
