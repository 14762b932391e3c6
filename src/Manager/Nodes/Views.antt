-- ===== src/Manager/Nodes/Views.antt =====
-- manager.go: what a caller reads, `Instance` and `State`.
use tor_country_manager.Shared.{List, [], ◌∷◌, Option, none, some, if◌then◌else◌}
use tor_country_manager.Shared.Text.{Text}
use tor_country_manager.Shared.Int.{ℤ}
use tor_country_manager.Shared.Assoc.{lookup}
use tor_country_manager.Config.Defs.{Country, normalize_code}
use tor_country_manager.Manager.Defs.{Manager, Instance, is_switching_status}

-- `Instance(code)`: a copy without its process.
unfoldable pub instance_copy : Manager → Text → Option Instance
instance_copy m code = elim (lookup (normalize_code code) m.instances) [
  | none ↦ none
  | some p ↦ some (record (m.heap p) { cmd = none })
]

pub record State : Type 0 where
  pub active : Text
  pub proxy_address : Text
  pub max_running : ℤ
  pub instances : List Instance

-- A switching instance shows the progress and the node of its replacement.
unfoldable pub shown : Manager → Instance → Instance
unfolding is_switching_status
shown m i =
    let copy = record i { cmd = none } in
    elim i.pending_replacement [
      | none ↦ copy
      | some r ↦
          if is_switching_status i.status
          then record copy {
            bootstrap_progress = (m.heap r).bootstrap_progress;
            selected_ip = (m.heap r).selected_ip;
            selected_node = (m.heap r).selected_node;
          }
          else copy
    ]

-- `none` is the fault of a configured country that has no instance.
unfoldable pub shown_countries : Manager → List Country → Option (List Instance)
unfolding shown
shown_countries m [] = some []
shown_countries m (c ∷ cs) =
    let rest = shown_countries m cs in
    elim (lookup (normalize_code c.code) m.instances) [
      | none ↦ none
      | some p ↦ elim rest [ none ↦ none | some is ↦ some (shown m (m.heap p) ∷ is) ]
    ]

unfoldable pub state : Manager → Option State
unfolding shown_countries
state m = elim (shown_countries m m.cfg.countries) [
  | none ↦ none
  | some is ↦ some (record {
    active = m.active;
    proxy_address = m.cfg.proxy_address;
    max_running = m.cfg.max_running;
    instances = is;
  })
]
