-- ===== src/Manager/Nodes.antt =====
-- manager.go: `NewManager`, `Restore`, `ensureCountry`, `startNode`, and what a caller reads,
-- `Instance` and `State`.
pub mod Views
use tor_country_manager.Shared.{
  ℕ, suc, Bool, false, List, [], ◌∷◌, ◌++◌, Option, none, some, if◌then◌else◌, is_some, not, ◌&&◌,
  length,
}
use tor_country_manager.Shared.Text.{Text, same, is_empty, to_upper}
use tor_country_manager.Shared.Int.{ℤ, pos, add_int, leb_ℤ}
use tor_country_manager.Shared.Assoc.{lookup, insert}
use tor_country_manager.Shared.Sort.{sort_slice}
use tor_country_manager.Config.Defs.{Country, Config, normalize_code, country_code_pattern}
use tor_country_manager.Manager.Defs.{
  DiskAnswer, Manager, Instance, PersistedNode, PersistedManagerState, stopped, ManagerError,
  invalid_country_code, no_ports_remain, invalid_fingerprint, Spawn, update, modify, add_pointer,
  zero_instance, is_running_status, is_switching_status,
}
use tor_country_manager.Manager.Persist.{
  load_runtime_state, nodes_of, older_node, fingerprint_pattern,
}
use tor_country_manager.Manager.Start.{start, activate}
use tor_country_manager.Manager.Replace.{NodeChoice, Offer, replace_node}
pub use tor_country_manager.Manager.Nodes.Views.{State}
unfoldable pub use tor_country_manager.Manager.Nodes.Views.{
  instance_copy, shown, shown_countries, state,
}

unfoldable pub new_instance : Country → ℤ → ℤ → Instance
new_instance country port control = record zero_instance {
  country = country;
  socks_port = port;
  control_port = control;
  status = stopped;
}

-- The loop of `NewManager` over the configured countries, from an index on.
unfoldable pub add_countries : Manager → ℕ → List Country → Manager
unfolding new_instance
add_countries m index [] = m
add_countries m index (c ∷ cs) =
    let code = normalize_code c.code in
    let base = m.cfg.base_socks_port in
    let p = m.next_instance in
    add_countries
      (record m {
        heap = update m.heap p (
            new_instance (record c { code = code }) (add_int base (pos index))
              (add_int (add_int base (pos 3000)) (pos index)));
        next_instance = suc p;
        instances = insert code p m.instances;
        all_instances = add_pointer p m.all_instances;
      })
      (suc index) cs

-- A manager with no instances; `disk` is what will become of its writes.
unfoldable pub empty_manager : Config → (ℕ → DiskAnswer) → Manager
empty_manager cfg disk = record {
  cfg = cfg;
  heap = λ p. zero_instance;
  next_instance = 0;
  instances = [];
  all_instances = [];
  resume_nodes = [];
  resume_active = [];
  active = [];
  reserved_ports = [];
  shutting_down = false;
  tasks = [];
  next_cmd = 0;
  signalled = [];
  cancelled = [];
  next_rotation = 0;
  disk = disk;
  writes = 0;
  state_file = none;
}

unfoldable pub new_manager : Config → (ℕ → DiskAnswer) → Option PersistedManagerState → Manager
unfolding add_countries empty_manager load_runtime_state
new_manager cfg disk file =
    load_runtime_state
      (add_countries (record (empty_manager cfg disk) { state_file = file }) 0 cfg.countries) file

unfoldable pub place_country : Manager → Country → ℤ → ℤ → Manager
unfolding new_instance
place_country m country port control =
    let p = m.next_instance in
    record m {
      heap = update m.heap p (new_instance country port control);
      next_instance = suc p;
      instances = insert country.code p m.instances;
      all_instances = add_pointer p m.all_instances;
      cfg = record (m.cfg) { countries = m.cfg.countries ++ country ∷ [] };
    }

-- The entry for a country that is new.
unfoldable pub add_country : Manager → Country → Manager × (Option ℕ × Option ManagerError)
unfolding place_country
add_country m country =
    let base = m.cfg.base_socks_port in
    let index = pos (length m.cfg.countries) in
    let port = add_int base index in
    let p = m.next_instance in
    if leb_ℤ (pos 65535) port
    then (m, (none, some no_ports_remain))
    else (place_country m country port (add_int (add_int base (pos 3000)) index), (some p, none))

-- A name that is missing is filled in.
unfoldable pub name_country : Manager → ℕ → Text → Manager
name_country m p name =
    let i = m.heap p in
    if is_empty i.country.name && not (is_empty name)
    then record m {
      heap = update m.heap p (record i { country = record { code = i.country.code; name = name } });
    }
    else m

unfoldable pub ensure_country : Manager → Country → Manager × (Option ℕ × Option ManagerError)
unfolding add_country name_country
ensure_country m country0 =
    let code = normalize_code country0.code in
    let country = record country0 { code = code } in
    if not (country_code_pattern code)
    then (m, (none, some (invalid_country_code code)))
    else elim (lookup code m.instances) [
      | some p ↦ (name_country m p country.name, (some p, none))
      | none ↦ add_country m country
    ]

-- What `startNode` and `replaceNode` get from outside: ports, the new process and the time.
pub record Outside : Type 0 where
  pub offers : ℕ → Offer
  pub control_offers : ℕ → Offer
  pub spawn : Spawn
  pub now : ℕ

unfoldable pub select : Manager → ℕ → NodeChoice → Manager
select m p node = modify m p (λ i. record i {
  exit_fingerprint = to_upper node.fingerprint;
  selected_ip = node.ip;
  selected_node = node.nickname;
})

unfoldable pub start_selected :
    Manager → ℕ → NodeChoice → (activates : Bool) → Outside → Manager × Option ManagerError
unfolding replace_node select
start_selected m p node activates o =
    let i = m.heap p in
    let already_running =
      same i.exit_fingerprint (to_upper node.fingerprint) && is_running_status i.status in
    if already_running
    then (if activates then record m { active = i.country.code } else m, none)
    else if is_some i.cmd
    then replace_node m p node activates o.offers o.control_offers o.spawn o.now
    else if activates
    then activate (select m p node) i.country.code o.spawn o.now
    else start (select m p node) i.country.code o.spawn o.now

unfoldable pub start_ensured :
    Manager × (Option ℕ × Option ManagerError)
    → NodeChoice
    → Bool
    → Outside
    → Manager × Option ManagerError
unfolding start_selected
start_ensured (m, (none, e)) node activates o = (m, e)
start_ensured (m, (some p, e)) node activates o = start_selected m p node activates o

-- `startNode`; `ActivateNode` and `StartNode` are its two values of `activates`.
unfoldable pub start_node : Manager → NodeChoice → Bool → Outside → Manager × Option ManagerError
unfolding start_ensured ensure_country
start_node m node activates o =
    if not (fingerprint_pattern node.fingerprint)
    then (m, some invalid_fingerprint)
    else start_ensured
        (ensure_country m (record { code = node.country_code; name = node.country_name })) node
        activates o

unfoldable pub restore_one :
    Manager × (Option ℕ × Option ManagerError) → PersistedNode → Spawn → ℕ → Manager
restore_one (m, (none, e)) node spawn now = m
restore_one (m, (some p, e)) node spawn now =
    (start
      (modify m p (λ i. record i {
        exit_fingerprint = node.exit_fingerprint;
        selected_ip = node.selected_ip;
        selected_node = node.selected_node;
      }))
      node.country.code spawn now).0

-- The loop of `Restore`; the n-th start gets the answer `spawns n` at the time `times n`.
unfoldable pub restore_loop : Manager → ℕ → (ℕ → Spawn) → (ℕ → ℕ) → List PersistedNode → Manager
unfolding restore_one ensure_country
restore_loop m n spawns times [] = m
restore_loop m n spawns times (node ∷ rest) =
    restore_loop (restore_one (ensure_country m node.country) node (spawns n) (times n)) (suc n)
      spawns times rest

unfoldable pub restore : Manager → (ℕ → Spawn) → (ℕ → ℕ) → Manager
unfolding restore_loop
restore m spawns times =
    restore_loop (record m { active = m.resume_active }) 0 spawns times
      (sort_slice older_node (nodes_of m.resume_nodes))
