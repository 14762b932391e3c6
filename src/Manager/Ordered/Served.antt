-- ===== src/Manager/Ordered/Served.antt =====
-- manager.go: from `NewManager` and `Restore` on, a client of a country gets an instance of that country.
use tor_country_manager.Shared.{ℕ, suc, List, [], ◌∷◌, Option, none, some, ◌≡◌, refl, arith}
use tor_country_manager.Shared.Text.{Text}
use tor_country_manager.Shared.Int.{pos, add_int}
use tor_country_manager.Shared.Assoc.{lookup}
use tor_country_manager.Config.Defs.{Config, Country, normalize_code}
use tor_country_manager.Manager.Defs.{DiskAnswer, Manager, PersistedManagerState, Spawn}
use tor_country_manager.Manager.Persist.{load_runtime_state}
use tor_country_manager.Manager.Traffic.{acquire_instance}
use tor_country_manager.Manager.Nodes.{
  add_countries, empty_manager, new_manager, place_country, restore,
}
use tor_country_manager.Manager.System.{Event, run}
use tor_country_manager.Manager.Calm.{Calm, Calm-refl}
use tor_country_manager.Manager.Steps.Histories.{run-Kept}
use tor_country_manager.Manager.Steps.Restoring.{restore-Kept}
use tor_country_manager.Manager.Ordered.{
  Ordered, Calm-Ordered, place_country-Ordered, Ordered-Survives, Ordered-SurvivesTraffic,
}

add_countries-Ordered :
    (cs : List Country) (m : Manager) (index : ℕ) → Ordered m → Ordered (add_countries m index cs)
unfolding add_countries place_country
add_countries-Ordered [] m index o = o
add_countries-Ordered (c ∷ cs) m index o =
    let country = record c { code = normalize_code c.code } in
    let base = m.cfg.base_socks_port in
    let placed =
      place_country m country (add_int base (pos index))
        (add_int (add_int base (pos 3000)) (pos index)) in
    add_countries-Ordered cs _ (suc index) (
      Calm-Ordered
        (record {
          same_instances = refl;
          same_next = refl;
          same_shutdown = refl;
          no_start = λ h. refl;
          at = (Calm-refl placed).at;
        })
        (place_country-Ordered m country _ _ o))

pub load_runtime_state-Calm :
    (m : Manager) (file : Option PersistedManagerState) → Calm m (load_runtime_state m file)
unfolding load_runtime_state
load_runtime_state-Calm m none = Calm-refl m
load_runtime_state-Calm m (some state) = record {
  same_instances = refl;
  same_next = refl;
  same_shutdown = refl;
  no_start = λ h. refl;
  at = (Calm-refl m).at;
}

empty_manager-Ordered :
    (cfg : Config) (disk : ℕ → DiskAnswer) (file : Option PersistedManagerState)
    → Ordered (record (empty_manager cfg disk) { state_file = file })
unfolding empty_manager lookup
empty_manager-Ordered cfg disk file = record {
  stands = λ k p h. cc;
  pends = λ q r h. cc;
  waits = λ k q r h. cc;
  unique = λ p q r h h'. cc;
  unused = λ q h. refl;
}

pub new_manager-Ordered :
    (cfg : Config) (disk : ℕ → DiskAnswer) (file : Option PersistedManagerState)
    → Ordered (new_manager cfg disk file)
unfolding new_manager
new_manager-Ordered cfg disk file =
    Calm-Ordered (load_runtime_state-Calm _ file)
      (add_countries-Ordered cfg.countries _ 0 (empty_manager-Ordered cfg disk file))

-- The manager as `main` sets it up, after a history of events.
abbrev pub served :
    Config
    → (ℕ → DiskAnswer)
    → Option PersistedManagerState
    → (ℕ → Spawn)
    → (ℕ → ℕ)
    → List Event
    → Manager
served cfg disk file spawns times es = run (restore (new_manager cfg disk file) spawns times) es

pub served-Ordered :
    (cfg : Config) (disk : ℕ → DiskAnswer) (file : Option PersistedManagerState)
    (spawns : ℕ → Spawn) (times : ℕ → ℕ) (es : List Event)
    → Ordered (served cfg disk file spawns times es)
served-Ordered cfg disk file spawns times es =
    run-Kept Ordered-Survives Ordered-SurvivesTraffic _ es
      (restore-Kept Ordered-Survives _ spawns times (new_manager-Ordered cfg disk file))

acquire_instance-own :
    (m : Manager) (code : Text) (p : ℕ)
    → Ordered m
    → (acquire_instance m code).1 ≡ some p
    → (m.heap p).country.code ≡ normalize_code code
unfolding acquire_instance
acquire_instance-own m code p o h = ground (arith, o.stands (normalize_code code) p)

-- Whatever the configuration and the state file, after the manager was made and has restored its
-- instances, and after any history of calls and rounds of goroutines, in any order: an instance
-- that a client of a country gets is an instance of that country.
pub clients_get_their_country :
    (cfg : Config) (disk : ℕ → DiskAnswer) (file : Option PersistedManagerState)
    (spawns : ℕ → Spawn) (times : ℕ → ℕ) (es : List Event) (code : Text) (p : ℕ)
    → (acquire_instance (served cfg disk file spawns times es) code).1 ≡ some p
    → ((served cfg disk file spawns times es).heap p).country.code ≡ normalize_code code
clients_get_their_country cfg disk file spawns times es code p =
    acquire_instance-own _ code p (served-Ordered cfg disk file spawns times es)
