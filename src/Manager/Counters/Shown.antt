-- ===== src/Manager/Counters/Shown.antt =====
-- manager.go: from `NewManager` and `Restore` on, an instance shows the number of its open connections, and
-- a drain waits for them.
use tor_country_manager.Shared.{
  ℕ, suc, ◌+◌, ◌<◌, true, false, List, [], ◌∷◌, Option, none, some, ◌≡◌, refl, ◌∙◌, arith,
}
use tor_country_manager.Config.Defs.{Config, Country}
use tor_country_manager.Manager.Defs.{
  DiskAnswer, Manager, PersistedManagerState, Spawn, drain_and_stop, go,
}
use tor_country_manager.Manager.Persist.{load_runtime_state}
use tor_country_manager.Manager.Stop.{drain_round}
use tor_country_manager.Manager.Replace.{drain_old_round, show_draining}
use tor_country_manager.Manager.Nodes.{
  add_countries, new_instance, empty_manager, new_manager, restore,
}
use tor_country_manager.Manager.System.{Event}
use tor_country_manager.Manager.Steps.Restoring.{restore-Kept}
use tor_country_manager.Manager.Ordered.Served.{served, new_manager-Ordered}
use tor_country_manager.Manager.Counters.{
  arrivals, departures, paired, Shows, Shows-Survives, run-Counts,
}

add_countries-number :
    (cs : List Country) (m : Manager) (index q : ℕ)
    → (m.heap q).active_connections ≡ 0
    → ((add_countries m index cs).heap q).active_connections ≡ 0
unfolding add_countries new_instance
add_countries-number [] m index q h = h
add_countries-number (c ∷ cs) m index q h = add_countries-number cs _ (suc index) q (ground arith)

load_runtime_state-number :
    (m : Manager) (file : Option PersistedManagerState) (q : ℕ)
    → ((load_runtime_state m file).heap q).active_connections ≡ (m.heap q).active_connections
unfolding load_runtime_state
load_runtime_state-number m none q = refl
load_runtime_state-number m (some state) q = refl

new_manager-number :
    (cfg : Config) (disk : ℕ → DiskAnswer) (file : Option PersistedManagerState) (q : ℕ)
    → ((new_manager cfg disk file).heap q).active_connections ≡ 0
unfolding new_manager empty_manager
new_manager-number cfg disk file q =
    load_runtime_state-number _ file q ∙ add_countries-number cfg.countries _ 0 q refl

-- Nothing is connected when the instances have been restored.
restored-Shows :
    (cfg : Config) (disk : ℕ → DiskAnswer) (file : Option PersistedManagerState)
    (spawns : ℕ → Spawn) (times : ℕ → ℕ) (q : ℕ)
    → Shows q 0 (restore (new_manager cfg disk file) spawns times)
restored-Shows cfg disk file spawns times q =
    restore-Kept (Shows-Survives q 0) _ spawns times (record {
      ordered = new_manager-Ordered cfg disk file;
      number = new_manager-number cfg disk file q;
    })

-- Whatever the configuration and the state file, after the manager was made and has restored its
-- instances, let any history of calls and rounds of goroutines follow, in any order, in which no
-- connection of the instance `q` ends that has not come. Then the number of active connections that
-- `q` shows, with those that have ended, is the number of those that came: evictions, restarts,
-- replacements and takeovers lose none and invent none.
pub connections_are_counted :
    (cfg : Config) (disk : ℕ → DiskAnswer) (file : Option PersistedManagerState)
    (spawns : ℕ → Spawn) (times : ℕ → ℕ) (es : List Event) (q : ℕ)
    → paired q 0 (restore (new_manager cfg disk file) spawns times) es ≡ true
    → ((served cfg disk file spawns times es).heap q).active_connections + departures q es
      ≡ arrivals q (restore (new_manager cfg disk file) spawns times) es
connections_are_counted cfg disk file spawns times es q h =
    let s = restored-Shows cfg disk file spawns times q in
    omega (arith, run-Counts q es _ s.ordered (rw s.number h), s.number)

-- Whatever the configuration and the state file, after the manager was made and has restored its
-- instances, let any history of calls and rounds of goroutines follow in which no connection of the
-- instance `q` ends that has not come, but more have come than have ended. Then a round of the drain of
-- `q` before its deadline does nothing but look again later, and a round, before its deadline too, of the
-- drain that follows a takeover of the country from `q` signals no process.
pub drain_spares_connections :
    (cfg : Config) (disk : ℕ → DiskAnswer) (file : Option PersistedManagerState)
    (spawns : ℕ → Spawn) (times : ℕ → ℕ) (es : List Event) (q next : ℕ)
    → paired q 0 (restore (new_manager cfg disk file) spawns times) es ≡ true
    → departures q es < arrivals q (restore (new_manager cfg disk file) spawns times) es
    → let n = served cfg disk file spawns times es in
      (drain_round n q false ≡ go (drain_and_stop q) n)
      × ((drain_old_round n q next false).signalled ≡ n.signalled)
unfolding drain_round drain_old_round show_draining
drain_spares_connections cfg disk file spawns times es q next h lt =
    ground (arith, connections_are_counted cfg disk file spawns times es q)
