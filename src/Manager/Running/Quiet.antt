-- ===== src/Manager/Running/Quiet.antt =====
-- manager.go: what `stop` does never adds an instance to those that run.
use tor_country_manager.Shared.{
  ℕ, true, false, [], Option, none, some, ◌≡◌, refl, ◌∙◌, arith, if◌then◌else◌, if_either, if_cases,
  not, is_some,
}
use tor_country_manager.Shared.Text.{Text, same}
use tor_country_manager.Manager.Defs.{Manager, Instance, Task, update, go, is_occupied}
use tor_country_manager.Manager.Persist.{forget_instance, remember_instance}
use tor_country_manager.Manager.Stop.{
  cancel_rotation_of, stop_process, stop_instance, stop_pending, drop_replacement, stopped_idle,
  drained, stop_known,
}

pub record Quiet (m n : Manager) : Type 0 where
  pub same_cfg : n.cfg ≡ m.cfg
  pub at : (q : ℕ) → is_occupied (n.heap q).status ≡ true → is_occupied (m.heap q).status ≡ true

pub Quiet-refl : (m : Manager) → Quiet m m
Quiet-refl m = record { same_cfg = refl; at = λ q h. h }

pub Quiet-trans : {l m n : Manager} → Quiet l m → Quiet m n → Quiet l n
Quiet-trans c d = record { same_cfg = d.same_cfg ∙ c.same_cfg; at = λ q h. c.at q (d.at q h) }

pub go-Quiet : {m n : Manager} (t : Task) → Quiet m n → Quiet m (go t n)
go-Quiet t c = record { same_cfg = c.same_cfg; at = c.at }

pub forget_instance-Quiet : (m : Manager) (code : Text) → Quiet m (forget_instance m code)
unfolding forget_instance
forget_instance-Quiet m code = record { same_cfg = refl; at = λ q h. h }

pub remember_instance-Quiet : (m : Manager) (p : ℕ) → Quiet m (remember_instance m p)
unfolding remember_instance
remember_instance-Quiet m p = record { same_cfg = refl; at = λ q h. h }

cancel_rotation_of-Quiet : (m : Manager) (p : ℕ) → Quiet m (cancel_rotation_of m p)
unfolding cancel_rotation_of
cancel_rotation_of-Quiet m p = record { same_cfg = ground arith; at = λ q h. ground arith }

stop_process-Quiet : (m : Manager) (p : ℕ) → Quiet m (stop_process m p)
unfolding stop_process is_occupied
stop_process-Quiet m p = record { same_cfg = ground arith; at = λ q h. ground arith }

pub stop_instance-Quiet : (m : Manager) (p : ℕ) → Quiet m (stop_instance m p)
unfolding stop_instance
stop_instance-Quiet m p =
    if_either (Quiet m) (m.heap p).is_stopping (Quiet-refl m)
      (Quiet-trans (cancel_rotation_of-Quiet m p) (stop_process-Quiet _ p))

pub stop_pending-Quiet : (m : Manager) (o : Option ℕ) → Quiet m (stop_pending m o)
unfolding stop_pending
stop_pending-Quiet m none = Quiet-refl m
stop_pending-Quiet m (some r) = stop_instance-Quiet m r

write-Quiet :
    (m : Manager) (p : ℕ) (v : Instance) (a : Text)
    → (is_occupied v.status ≡ true → is_occupied (m.heap p).status ≡ true)
    → Quiet m (record m { heap = update m.heap p v; active = a })
write-Quiet m p v a f = record { same_cfg = refl; at = λ q h. ground (arith, f) }

drop_replacement-status : (i : Instance) → (drop_replacement i).status ≡ i.status
unfolding drop_replacement
drop_replacement-status i = ground arith

-- A write that ends an instance, followed by what adds nothing.
ends :
    (l : Manager) (p : ℕ) (v : Instance) (a : Text) {n : Manager}
    → is_occupied v.status ≡ false
    → Quiet (record l { heap = update l.heap p v; active = a }) n
    → Quiet l n × (is_occupied (n.heap p).status ≡ false)
ends l p v a {n} e c = (Quiet-trans (write-Quiet l p v a (λ h. cc)) c, ground (arith, c.at p, e))

-- Where a running instance that is not draining is stopped, nothing new runs, and it runs no more.
pub stop_known-Quiet :
    (m : Manager) (code : Text) (p : ℕ)
    → (m.heap p).is_draining ≡ false
    → Quiet m (stop_known m code p) × (is_occupied ((stop_known m code p).heap p).status ≡ false)
unfolding stop_known
stop_known-Quiet m code p d =
    let pending = (m.heap p).pending_replacement in
    let i = drop_replacement (m.heap p) in
    let P : Manager → Type 0 = λ n. Quiet m n × (is_occupied (n.heap p).status ≡ false) in
    if_either P (not (is_some (m.heap p).cmd))
      (ends m p (stopped_idle i) m.active (unfold stopped_idle is_occupied in refl)
        (Quiet-trans (stop_pending-Quiet _ pending) (forget_instance-Quiet _ code)))
      (if_cases P (m.heap p).is_draining (λ e. absurd (ground arith))
        (λ _.
          ends m p (drained i) (if same m.active code then [] else m.active)
            (unfold drained is_occupied in refl)
            (go-Quiet _
              (Quiet-trans (stop_pending-Quiet _ pending) (forget_instance-Quiet _ code)))))
