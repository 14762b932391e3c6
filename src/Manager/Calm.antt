-- ===== src/Manager/Calm.antt =====
-- What most operations leave alone: which instance stands for which country, and the flags of an
-- instance that is on its way out.
pub mod Starts
pub mod Rounds
pub mod Replaces
pub mod Upstreams
use tor_country_manager.Shared.{
  ℕ, suc, ◌≤◌, Bool, true, false, List, [], ◌∷◌, ◌++◌, Option, none, some, if◌then◌else◌, ◌≡◌, refl,
  ◌∙◌, arith, ◌==◌, Option-cases, Bool-cases, inl, inr, map, if_either,
}
use tor_country_manager.Shared.Text.{Text, same}
use tor_country_manager.Shared.Int.{ℤ}
use tor_country_manager.Shared.Assoc.{lookup}
use tor_country_manager.Config.Defs.{normalize_code}
use tor_country_manager.Manager.Defs.{
  Manager, Instance, ManagerError, Spawn, Task, update, modify, go,
}
use tor_country_manager.Manager.Persist.{save_runtime_state, remember_instance, forget_instance}
use tor_country_manager.Manager.Stop.{
  signal_process, cancel_rotation_of, stop_process, stop_instance, stop_pending, drop_replacement,
  stop_known, stop, stopped_idle, drained, write, drain_round, fail_instance,
}

-- `j` may follow `i` in the same place of the heap.
pub record CalmAt (i j : Instance) : Type 0 where
  pub draining_stays : i.is_draining ≡ true → j.is_draining ≡ true
  pub no_replacement : i.pending_replacement ≡ none → j.pending_replacement ≡ none
  pub same_code : j.country.code ≡ i.country.code
  pub same_connections : j.active_connections ≡ i.active_connections
  pub replacement_kept : (r : ℕ) → j.pending_replacement ≡ some r → i.pending_replacement ≡ some r
  pub few_restarts : i.restart_attempts ≤ 3 → j.restart_attempts ≤ 3

pub record Calm (m n : Manager) : Type 0 where
  pub same_instances : n.instances ≡ m.instances
  pub same_next : n.next_instance ≡ m.next_instance
  pub same_shutdown : n.shutting_down ≡ m.shutting_down
  pub no_start : m.shutting_down ≡ true → n.next_cmd ≡ m.next_cmd
  pub at : (q : ℕ) → CalmAt (m.heap q) (n.heap q)

pub Calm-refl : (m : Manager) → Calm m m
Calm-refl m = record {
  same_instances = refl;
  same_next = refl;
  same_shutdown = refl;
  no_start = λ h. refl;
  at = λ q. record {
    draining_stays = λ h. h;
    no_replacement = λ h. h;
    same_code = refl;
    same_connections = refl;
    replacement_kept = λ r h. h;
    few_restarts = λ h. h;
  };
}

pub Calm-trans : {l m n : Manager} → Calm l m → Calm m n → Calm l n
Calm-trans c d = record {
  same_instances = d.same_instances ∙ c.same_instances;
  same_next = d.same_next ∙ c.same_next;
  same_shutdown = d.same_shutdown ∙ c.same_shutdown;
  no_start = λ h. d.no_start (c.same_shutdown ∙ h) ∙ c.no_start h;
  at = λ q. record {
    draining_stays = λ h. (d.at q).draining_stays ((c.at q).draining_stays h);
    no_replacement = λ h. (d.at q).no_replacement ((c.at q).no_replacement h);
    same_code = (d.at q).same_code ∙ (c.at q).same_code;
    same_connections = (d.at q).same_connections ∙ (c.at q).same_connections;
    replacement_kept = λ r h. (c.at q).replacement_kept r ((d.at q).replacement_kept r h);
    few_restarts = λ h. (d.at q).few_restarts ((c.at q).few_restarts h);
  };
}

-- A write at one place.
pub update-CalmAt :
    (heap : ℕ → Instance) (p : ℕ) (v : Instance)
    → CalmAt (heap p) v
    → (q : ℕ) → CalmAt (heap q) (update heap p v q)
update-CalmAt heap p v c q = ground arith

pub forget_instance-Calm : (m : Manager) (code : Text) → Calm m (forget_instance m code)
unfolding forget_instance
forget_instance-Calm m code = record {
  same_instances = refl;
  same_next = refl;
  same_shutdown = refl;
  no_start = λ h. refl;
  at = λ q. ground arith;
}

pub remember_instance-Calm : (m : Manager) (p : ℕ) → Calm m (remember_instance m p)
unfolding remember_instance
remember_instance-Calm m p = record {
  same_instances = ground arith;
  same_next = ground arith;
  same_shutdown = ground arith;
  no_start = λ h. ground arith;
  at = λ q. ground arith;
}

pub signal_process-Calm : (m : Manager) (p cmd : ℕ) → Calm m (signal_process m p cmd)
unfolding signal_process
signal_process-Calm m p cmd = record {
  same_instances = ground arith;
  same_next = ground arith;
  same_shutdown = ground arith;
  no_start = λ h. ground arith;
  at = λ q. ground arith;
}

pub cancel_rotation_of-Calm : (m : Manager) (p : ℕ) → Calm m (cancel_rotation_of m p)
unfolding cancel_rotation_of
cancel_rotation_of-Calm m p = record {
  same_instances = ground arith;
  same_next = ground arith;
  same_shutdown = ground arith;
  no_start = λ h. ground arith;
  at = λ q. ground arith;
}

pub stop_process-Calm : (m : Manager) (p : ℕ) → Calm m (stop_process m p)
unfolding stop_process
stop_process-Calm m p = record {
  same_instances = ground arith;
  same_next = ground arith;
  same_shutdown = ground arith;
  no_start = λ h. ground arith;
  at = λ q. ground arith;
}

pub stop_instance-Calm : (m : Manager) (p : ℕ) → Calm m (stop_instance m p)
unfolding stop_instance
stop_instance-Calm m p = elim (Bool-cases (m.heap p).is_stopping) [
  | inl e ↦ rw e (Calm-refl m)
  | inr e ↦ rw e (Calm-trans (cancel_rotation_of-Calm m p) (stop_process-Calm _ p))
]

pub stop_pending-Calm : (m : Manager) (o : Option ℕ) → Calm m (stop_pending m o)
unfolding stop_pending
stop_pending-Calm m none = Calm-refl m
stop_pending-Calm m (some r) = stop_instance-Calm m r

drop_replacement-CalmAt : (i : Instance) → CalmAt i (drop_replacement i)
unfolding drop_replacement
drop_replacement-CalmAt i = ground arith

pub fail_instance-Calm :
    (m : Manager) (p cmd : ℕ) (message : Text) → Calm m (fail_instance m p cmd message)
unfolding fail_instance
fail_instance-Calm m p cmd message = record {
  same_instances = ground arith;
  same_next = ground arith;
  same_shutdown = ground arith;
  no_start = λ h. ground arith;
  at = λ q. ground arith;
}

pub write-Calm :
    (m : Manager) (p : ℕ) (v : Instance) (a : Text)
    → CalmAt (m.heap p) v
    → Calm m (record m { heap = update m.heap p v; active = a })
write-Calm m p v a c = record {
  same_instances = refl;
  same_next = refl;
  same_shutdown = refl;
  no_start = λ h. refl;
  at = update-CalmAt m.heap p v c;
}

pub go-Calm : {m n : Manager} (t : Task) → Calm m n → Calm m (go t n)
go-Calm t c = record {
  same_instances = c.same_instances;
  same_next = c.same_next;
  same_shutdown = c.same_shutdown;
  no_start = c.no_start;
  at = c.at;
}

pub stop_known-Calm : (m : Manager) (code : Text) (p : ℕ) → Calm m (stop_known m code p)
unfolding stop_known
stop_known-Calm m code p =
    let pending = (m.heap p).pending_replacement in
    let i = drop_replacement (m.heap p) in
    if_either (Calm m) _
      (Calm-trans (write-Calm m p (stopped_idle i) m.active (ground arith))
        (Calm-trans (stop_pending-Calm _ pending) (forget_instance-Calm _ code)))
      (if_either (Calm m) _
        (Calm-trans (write-Calm m p i m.active (ground arith)) (stop_pending-Calm _ pending))
        (go-Calm _ (
          Calm-trans
            (write-Calm m p (drained i) (if same m.active code then [] else m.active)
              (ground arith))
            (Calm-trans (stop_pending-Calm _ pending) (forget_instance-Calm _ code)))))

pub stop-Calm : (m : Manager) (code : Text) → Calm m (stop m code).0
unfolding stop
stop-Calm m code0 = elim (Option-cases (lookup (normalize_code code0) m.instances)) [
  | inl e ↦ rw (e, stop) (Calm-refl m)
  | inr (p, e) ↦ rw (e, stop) (stop_known-Calm m (normalize_code code0) p)
]

pub drain_round-Calm : (m : Manager) (p : ℕ) (expired : Bool) → Calm m (drain_round m p expired)
unfolding drain_round
drain_round-Calm m p expired =
    if_either (Calm m) _ (stop_instance-Calm m p) (go-Calm _ (Calm-refl m))

-- The same of the state in a result.
pub record CalmResult {ℓ} {E : Type ℓ} (m : Manager) (r : Manager × E) : Type ℓ where
  pub calm : Calm m r.0

pub calm_result {ℓ} : {E : Type ℓ} {m n : Manager} {e : E} → Calm m n → CalmResult m (n, e)
calm_result c = record { calm = c }
