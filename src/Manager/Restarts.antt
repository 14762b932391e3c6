-- ===== src/Manager/Restarts.antt =====
-- manager.go: how often an instance is restarted automatically in a row.
use tor_country_manager.Shared.{ℕ, zero, suc, ◌≤◌, List, [], ◌∷◌, Option, arith}
use tor_country_manager.Config.Defs.{Config, Country}
use tor_country_manager.Manager.Defs.{DiskAnswer, Manager, PersistedManagerState, Spawn}
use tor_country_manager.Manager.Traffic.{release_instance}
use tor_country_manager.Manager.Watch.{auto_restart_limit, restart_delay}
use tor_country_manager.Manager.Replace.{open_replacement, switch_to, new_replacement, take_over}
use tor_country_manager.Manager.Nodes.{
  add_countries, new_instance, place_country, empty_manager, new_manager,
}
use tor_country_manager.Manager.Limits.{begin_shutdown}
use tor_country_manager.Manager.System.{Event}
use tor_country_manager.Manager.Steps.{Survives, SurvivesTraffic}
use tor_country_manager.Manager.Steps.Histories.{run-Kept}
use tor_country_manager.Manager.Steps.Restoring.{restore-Kept}
use tor_country_manager.Manager.Ordered.Served.{served, load_runtime_state-Calm}

record FewRestarts (m : Manager) : Type 0 where
  few : (q : ℕ) → (m.heap q).restart_attempts ≤ 3

FewRestarts-Survives : Survives FewRestarts
unfolding place_country new_instance open_replacement switch_to new_replacement take_over
    begin_shutdown
FewRestarts-Survives = record {
  calm = λ c r. record { few = λ q. (c.at q).few_restarts (r.few q) };
  placed = λ m c port control h r. record { few = λ q. ground (arith, r.few q) };
  opened = λ m p node port control h on r. record { few = λ q. ground (arith, r.few q, r.few p) };
  handed = λ m p s activate h h' r. record { few = λ q. ground (arith, r.few q, r.few p, r.few s) };
  closed = λ m r. record { few = r.few };
}

FewRestarts-SurvivesTraffic : SurvivesTraffic FewRestarts
unfolding release_instance
FewRestarts-SurvivesTraffic = record {
  served = λ m k p h r. record { few = λ q. ground (arith, r.few q, r.few p) };
  released = λ m p r. record { few = λ q. ground (arith, r.few q, r.few p) };
}

add_countries-FewRestarts :
    (cs : List Country) (m : Manager) (index : ℕ)
    → FewRestarts m
    → FewRestarts (add_countries m index cs)
unfolding add_countries new_instance
add_countries-FewRestarts [] m index r = r
add_countries-FewRestarts (c ∷ cs) m index r =
    add_countries-FewRestarts cs _ (suc index) (record { few = λ q. ground (arith, r.few q) })

new_manager-FewRestarts :
    (cfg : Config) (disk : ℕ → DiskAnswer) (file : Option PersistedManagerState)
    → FewRestarts (new_manager cfg disk file)
unfolding new_manager empty_manager
new_manager-FewRestarts cfg disk file =
    FewRestarts-Survives.calm (load_runtime_state-Calm _ file)
      (add_countries-FewRestarts cfg.countries _ 0 (record { few = λ q. omega arith }))

restart_delay-bound : (n : ℕ) → n ≤ 3 → restart_delay n ≤ 4
unfolding restart_delay
restart_delay-bound zero h = omega arith
restart_delay-bound (suc zero) h = omega arith
restart_delay-bound (suc (suc zero)) h = omega arith
restart_delay-bound (suc (suc (suc zero))) h = omega arith
restart_delay-bound (suc (suc (suc (suc n)))) h = absurd (omega arith)

-- Whatever the configuration and the state file, after the manager was made and has restored its
-- instances, and after any history of calls and rounds of goroutines, in any order: the counter of the
-- automatic restarts of every instance is at most the limit of 3, and the wait before the attempt of that
-- number is at most 4 seconds.
pub restarts_are_few :
    (cfg : Config) (disk : ℕ → DiskAnswer) (file : Option PersistedManagerState)
    (spawns : ℕ → Spawn) (times : ℕ → ℕ) (es : List Event) (q : ℕ)
    → let n = (served cfg disk file spawns times es).heap q in
      (n.restart_attempts ≤ auto_restart_limit) × (restart_delay n.restart_attempts ≤ 4)
restarts_are_few cfg disk file spawns times es q =
    let r =
      run-Kept FewRestarts-Survives FewRestarts-SurvivesTraffic _ es (
        restore-Kept FewRestarts-Survives _ spawns times (new_manager-FewRestarts cfg disk file)) in
    (r.few q, restart_delay-bound _ (r.few q))
