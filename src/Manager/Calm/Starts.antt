-- ===== src/Manager/Calm/Starts.antt =====
-- manager.go: `Start`, `Activate` and `makeRoom` leave the routes alone.
use tor_country_manager.Shared.{
  ℕ, Option, none, some, ◌≡◌, refl, ◌∙◌, false, arith, if_cases, ◌⊎◌, Option-cases, inl, inr,
  if_either, ◌||◌, not, is_some,
}
use tor_country_manager.Shared.Text.{Text}
use tor_country_manager.Shared.Assoc.{lookup}
use tor_country_manager.Config.Defs.{normalize_code}
use tor_country_manager.Manager.Defs.{
  Manager, ManagerError, Spawn, cannot_make_dir, cannot_write, cannot_start, started, is_occupied,
  is_draining_status,
}
use tor_country_manager.Manager.Start.{
  Room, target_runs, counted, scan_room, evict, make_room, launch, start_known, start_in_room,
  start, activate_started, activate, can_activate,
}
use tor_country_manager.Manager.Calm.{
  Calm-refl, Calm-trans, go-Calm, CalmResult, calm_result, remember_instance-Calm, stop-Calm,
}

evict-CalmResult : (m : Manager) (o : Option ℕ) → CalmResult m (evict m o)
unfolding evict
evict-CalmResult m none = calm_result (Calm-refl m)
evict-CalmResult m (some p) = record { calm = stop-Calm m (m.heap p).country.code }

pub Room-cases : (r : Room) → (r ≡ target_runs) ⊎ ((n : ℕ) × (o : Option ℕ) × (r ≡ counted n o))
Room-cases target_runs = inl refl
Room-cases (counted n o) = inr (n, o, refl)

pub make_room-CalmResult : (m : Manager) (target : Text) → CalmResult m (make_room m target)
unfolding make_room
make_room-CalmResult m target = elim (Room-cases (scan_room m target 0 none m.instances)) [
  | inl e ↦ rw (e, make_room) (calm_result (Calm-refl m))
  | inr (n, o, e) ↦
      rw (e, make_room)
        (if_either (CalmResult m) _ (calm_result (Calm-refl m)) (evict-CalmResult m o))
]

launch-CalmResult :
    (m : Manager) (code : Text) (p : ℕ) (spawn : Spawn) (now : ℕ)
    → m.shutting_down ≡ false
    → CalmResult m (launch m code p spawn now)
unfolding launch
launch-CalmResult m code p (cannot_make_dir e) now on = calm_result (Calm-refl m)
launch-CalmResult m code p (cannot_write e) now on = calm_result (record {
  same_instances = refl;
  same_next = refl;
  same_shutdown = refl;
  no_start = λ h. refl;
  at = λ q. ground arith;
})
launch-CalmResult m code p (cannot_start e) now on = calm_result (record {
  same_instances = refl;
  same_next = refl;
  same_shutdown = refl;
  no_start = λ h. refl;
  at = λ q. ground arith;
})
launch-CalmResult m code p started now on = calm_result (
    go-Calm _ (
      go-Calm _ (
        Calm-trans
          (record {
            same_instances = refl;
            same_next = refl;
            same_shutdown = refl;
            no_start = λ h. cc;
            at = λ q. ground arith;
          })
          (remember_instance-Calm _ p))))

pub start_known-CalmResult :
    (m : Manager) (code : Text) (p : ℕ) (spawn : Spawn) (now : ℕ)
    → m.shutting_down ≡ false
    → CalmResult m (start_known m code p spawn now)
unfolding start_known
start_known-CalmResult m code p spawn now on =
    if_either (CalmResult m) (is_occupied (m.heap p).status || is_draining_status (m.heap p).status)
      (calm_result (Calm-refl m))
      (if_either (CalmResult m) (is_some (m.heap p).cmd) (calm_result (Calm-refl m))
        (launch-CalmResult m code p spawn now on))

start_in_room-CalmResult :
    (m : Manager) (code : Text) (spawn : Spawn) (now : ℕ) (r : Manager × Option ManagerError)
    → m.shutting_down ≡ false
    → CalmResult m r
    → CalmResult m (start_in_room code spawn now r)
unfolding start_in_room
start_in_room-CalmResult m code spawn now (n, some e) on c = c
start_in_room-CalmResult m code spawn now (n, none) on c =
    elim (Option-cases (lookup code n.instances)) [
      | inl h ↦ rw (h, start_in_room) (calm_result c.calm)
      | inr (p, h) ↦
          rw (h, start_in_room)
            (record {
              calm =
                  Calm-trans c.calm
                    (start_known-CalmResult n code p spawn now (c.calm.same_shutdown ∙ on)).calm;
            })
    ]

-- `Start` may start and evict processes, and no route changes hands.
pub start-CalmResult :
    (m : Manager) (code : Text) (spawn : Spawn) (now : ℕ) → CalmResult m (start m code spawn now)
unfolding start
start-CalmResult m code spawn now =
    if_either (CalmResult m) (not (is_some (lookup (normalize_code code) m.instances)))
      (calm_result (Calm-refl m))
      (if_cases (CalmResult m) m.shutting_down (λ down. calm_result (Calm-refl m))
        (λ on. start_in_room-CalmResult m _ spawn now _ on (make_room-CalmResult m _)))

activate_started-CalmResult :
    (m : Manager) (code : Text) (r : Manager × Option ManagerError)
    → CalmResult m r
    → CalmResult m (activate_started code r)
unfolding activate_started
activate_started-CalmResult m code (n, some e) c = c
activate_started-CalmResult m code (n, none) c = elim (Option-cases (lookup code n.instances)) [
  | inl h ↦ rw (h, activate_started) (calm_result c.calm)
  | inr (p, h) ↦
      rw (h, activate_started)
        (if_either (CalmResult m) (can_activate (n.heap p))
          (calm_result (record {
            same_instances = c.calm.same_instances;
            same_next = c.calm.same_next;
            same_shutdown = c.calm.same_shutdown;
            no_start = c.calm.no_start;
            at = c.calm.at;
          }))
          (calm_result c.calm))
]

pub activate-CalmResult :
    (m : Manager) (code : Text) (spawn : Spawn) (now : ℕ) → CalmResult m (activate m code spawn now)
unfolding activate
activate-CalmResult m code spawn now =
    activate_started-CalmResult m _ _ (start-CalmResult m _ spawn now)
