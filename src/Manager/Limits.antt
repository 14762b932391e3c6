-- ===== src/Manager/Limits.antt =====
-- manager.go: `UpdateMaxRunning` and `Shutdown`.
use tor_country_manager.Shared.{
  ℕ, suc, ◌+◌, ◌-◌, Bool, true, List, [], ◌∷◌, if◌then◌else◌, is_some, not, ltb, ◌&&◌, ◌==◌, take,
  map,
}
use tor_country_manager.Shared.Text.{Text, same}
use tor_country_manager.Shared.Int.{ℤ, pos, negsuc}
use tor_country_manager.Shared.Sort.{sort_slice}
use tor_country_manager.Manager.Defs.{Manager, Instance, is_occupied}
use tor_country_manager.Manager.Stop.{stop, stop_instance}

-- How many instances count as running.
unfoldable pub count_running : (ℕ → Instance) → List (Text × ℕ) → ℕ
count_running heap [] = 0
count_running heap ((k, p) ∷ rest) =
    let others = count_running heap rest in
    if is_occupied (heap p).status then suc others else others

-- Those that run and are not active.
unfoldable pub stop_candidates : (ℕ → Instance) → Text → List (Text × ℕ) → List ℕ
stop_candidates heap active [] = []
stop_candidates heap active ((k, p) ∷ rest) =
    let others = stop_candidates heap active rest in
    if is_occupied (heap p).status && not (same k active) then p ∷ others else others

abbrev pub older_instance : (ℕ → Instance) → ℕ → ℕ → Bool
older_instance heap p q = ltb (heap p).started_at (heap q).started_at

-- `running - limit`, at least 0; what `take` does with more than there are is the second bound.
unfoldable pub surplus : ℕ → ℤ → ℕ
surplus running (pos limit) = running - limit
surplus running (negsuc n) = suc (running + n)

unfoldable pub stop_all : Manager → List Text → Manager
stop_all m [] = m
stop_all m (code ∷ codes) = stop_all (stop m code).0 codes

unfoldable pub set_limit : Manager → ℤ → Manager
set_limit m limit = record m { cfg = record (m.cfg) { max_running = limit } }

-- The oldest of the candidates, as many as there are too many.
unfoldable pub codes_to_stop : Manager → ℤ → List Text
unfolding stop_candidates count_running surplus
codes_to_stop m limit =
    let candidates =
      sort_slice (older_instance m.heap) (stop_candidates m.heap m.active m.instances) in
    map (λ p. (m.heap p).country.code)
      (take (surplus (count_running m.heap m.instances) limit) candidates)

unfoldable pub update_max_running : Manager → ℤ → Manager
unfolding stop_all codes_to_stop set_limit
update_max_running m limit = stop_all (set_limit m limit) (codes_to_stop m limit)

-- `Shutdown` up to its loop.
unfoldable pub begin_shutdown : Manager → Manager
begin_shutdown m = record m { shutting_down = true }

unfoldable pub live_processes : (ℕ → Instance) → List ℕ → ℕ
live_processes heap [] = 0
live_processes heap (p ∷ ps) =
    let rest = live_processes heap ps in if is_some (heap p).cmd then suc rest else rest

unfoldable pub stop_instances : Manager → List ℕ → Manager
stop_instances m [] = m
stop_instances m (p ∷ ps) = stop_instances (stop_instance m p) ps

unfoldable pub still_to_stop : (ℕ → Instance) → List ℕ → List ℕ
still_to_stop heap [] = []
still_to_stop heap (p ∷ ps) =
    let rest = still_to_stop heap ps in
    if is_some (heap p).cmd && not (heap p).is_stopping then p ∷ rest else rest

-- One round of the loop of `Shutdown`; `true` means that no process is left.
unfoldable pub shutdown_round : Manager → Manager × Bool
unfolding stop_instances still_to_stop live_processes
shutdown_round m = (
  stop_instances m (still_to_stop m.heap m.all_instances),
  live_processes m.heap m.all_instances == 0,
)
