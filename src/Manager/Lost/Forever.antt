-- ===== src/Manager/Lost/Forever.antt =====
-- manager.go: after `Stop` on a country whose process runs, no history of calls and goroutines makes
-- the country take connections again, and no further `Stop` reaches its process.
use tor_country_manager.Shared.{
  ℕ, ◌<◌, true, List, [], none, some, if◌then◌else◌, ◌≡◌, refl, ◌∙◌, arith, not, if_cases, is_some,
}
use tor_country_manager.Shared.Text.{Text, same}
use tor_country_manager.Shared.Assoc.{lookup}
use tor_country_manager.Config.Defs.{normalize_code}
use tor_country_manager.Manager.Defs.{Manager, Instance, update}
use tor_country_manager.Manager.Stop.{drained, stop, stop_known, drop_replacement}
use tor_country_manager.Manager.Traffic.{acquire_instance}
use tor_country_manager.Manager.System.{Event, run}
use tor_country_manager.Manager.Calm.{forget_instance-Calm, Calm-trans, go-Calm, stop_pending-Calm}
use tor_country_manager.Manager.Lost.{IsLost, Calm-IsLost, run-IsLost}

write-IsLost :
    (k : Text) (p : ℕ) (m : Manager) (v : Instance) (a : Text)
    → v.is_draining ≡ true
    → v.pending_replacement ≡ none
    → lookup k m.instances ≡ some p
    → p < m.next_instance
    → IsLost k p (record m { heap = update m.heap p v; active = a })
write-IsLost k p m v a d n s lt = record {
  stands = s;
  draining = ground arith;
  alone = ground arith;
  allocated = lt;
}

drop_replacement-pending : (i : Instance) → (drop_replacement i).pending_replacement ≡ none
unfolding drop_replacement
drop_replacement-pending i = ground arith

drop_replacement-draining : (i : Instance) → (drop_replacement i).is_draining ≡ i.is_draining
unfolding drop_replacement
drop_replacement-draining i = ground arith

stop_known-IsLost :
    (k code : Text) (p : ℕ) (m : Manager)
    → lookup k m.instances ≡ some p
    → p < m.next_instance
    → is_some (m.heap p).cmd ≡ true
    → IsLost k p (stop_known m code p)
unfolding stop_known
stop_known-IsLost k code p m s lt h =
    let pending = (m.heap p).pending_replacement in
    let i = drop_replacement (m.heap p) in
    let alone = drop_replacement-pending (m.heap p) in
    if_cases (IsLost k p) (not (is_some (m.heap p).cmd)) (λ e. absurd (ground arith))
      (λ _.
        if_cases (IsLost k p) (m.heap p).is_draining
          (λ d.
            Calm-IsLost k p (stop_pending-Calm _ pending)
              (write-IsLost k p m i m.active (drop_replacement-draining (m.heap p) ∙ d) alone s lt))
          (λ _.
            Calm-IsLost k p
              (go-Calm _ (Calm-trans (stop_pending-Calm _ pending) (forget_instance-Calm _ code)))
              (write-IsLost k p m (drained i) (if same m.active code then [] else m.active)
                (unfold drained in refl) (unfold drained in alone) s lt)))

-- `Stop` on a country whose process runs.
pub stop-IsLost :
    (m : Manager) (code : Text) (p : ℕ)
    → lookup (normalize_code code) m.instances ≡ some p
    → p < m.next_instance
    → is_some (m.heap p).cmd ≡ true
    → IsLost (normalize_code code) p (stop m code).0
unfolding stop
stop-IsLost m code p s lt h =
    rw (s, stop) (stop_known-IsLost (normalize_code code) (normalize_code code) p m s lt h)

acquire-lost :
    (code : Text) (p : ℕ) (m : Manager)
    → IsLost (normalize_code code) p m
    → (acquire_instance m code).1 ≡ none
unfolding acquire_instance
acquire-lost code p m l = rw (l.stands, acquire_instance) (ground (arith, l.draining))

stop_known-lost :
    (k code : Text) (p : ℕ) (m : Manager)
    → IsLost k p m
    → is_some (m.heap p).cmd ≡ true
    → ((stop_known m code p).signalled ≡ m.signalled) × ((stop_known m code p).tasks ≡ m.tasks)
unfolding stop_known
stop_known-lost k code p m l h = ground (arith, l.draining, l.alone)

-- Once `Stop` was called for a country whose instance stands in the heap with a process, every connection for this country
-- is refused, whatever calls and rounds of goroutines follow.
pub stopped_country_refuses :
    (m : Manager) (code : Text) (p : ℕ) (es : List Event)
    → lookup (normalize_code code) m.instances ≡ some p
    → p < m.next_instance
    → is_some (m.heap p).cmd ≡ true
    → (acquire_instance (run (stop m code).0 es) code).1 ≡ none
stopped_country_refuses m code p es s lt h =
    acquire-lost code p _
      (run-IsLost (normalize_code code) p (stop m code).0 es (stop-IsLost m code p s lt h))

-- Once `Stop` was called for a country whose instance stands in the heap with a process, and a process runs for this
-- country after some further calls and rounds of goroutines, then another `Stop` returns no error
-- and neither signals a process nor starts a goroutine.
pub stopped_country_runs_on :
    (m : Manager) (code : Text) (p : ℕ) (es : List Event)
    → lookup (normalize_code code) m.instances ≡ some p
    → p < m.next_instance
    → is_some (m.heap p).cmd ≡ true
    → is_some ((run (stop m code).0 es).heap p).cmd ≡ true
    → let n = run (stop m code).0 es in
      ((stop n code).1 ≡ none)
      × ((stop n code).0.signalled ≡ n.signalled)
      × ((stop n code).0.tasks ≡ n.tasks)
unfolding stop
stopped_country_runs_on m code p es s lt h c =
    let l = run-IsLost (normalize_code code) p (stop m code).0 es (stop-IsLost m code p s lt h) in
    let (a, b) = stop_known-lost _ (normalize_code code) p _ l c in rw (l.stands, stop) (refl, a, b)
