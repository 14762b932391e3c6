-- ===== src/Manager/Persist.antt =====
-- manager.go: the state file, `saveRuntimeState`, `rememberInstance`, `forgetInstance` and
-- `loadRuntimeState`. The steps that write the temporary file and rename it are one write, which
-- succeeds or leaves the file as it was.
use tor_country_manager.Shared.{
  ℕ, suc, Bool, true, List, [], ◌∷◌, Option, none, some, if◌then◌else◌, ltb, leb, length, not, ◌==◌,
  ◌&&◌, ◌||◌, is_some,
}
use tor_country_manager.Shared.Text.{Text, same, to_upper, is_empty}
use tor_country_manager.Shared.Assoc.{lookup, insert, delete}
use tor_country_manager.Shared.Sort.{sort_slice}
use tor_country_manager.Config.Defs.{normalize_code, country_code_pattern}
use tor_country_manager.Manager.Defs.{
  DiskAnswer, replaced, unchanged, damaged, Manager, Instance, PersistedNode, PersistedManagerState,
}

abbrev pub older_node : PersistedNode → PersistedNode → Bool
older_node a b = ltb a.started_at b.started_at

unfoldable pub nodes_of : List (Text × PersistedNode) → List PersistedNode
nodes_of [] = []
nodes_of ((k, n) ∷ m) = n ∷ nodes_of m

abbrev file_after :
    DiskAnswer → (before now : Option PersistedManagerState) → Option PersistedManagerState
file_after replaced before now = now
file_after unchanged before now = before
file_after damaged before now = none

unfoldable pub save_runtime_state : Manager → Manager
save_runtime_state m = record m {
  writes = suc m.writes;
  state_file = file_after (m.disk m.writes) m.state_file (
      some (record {
        active = m.active;
        instances = sort_slice older_node (nodes_of m.resume_nodes);
      }));
}

abbrev pub persisted : Instance → PersistedNode
persisted i = record {
  country = i.country;
  exit_fingerprint = i.exit_fingerprint;
  selected_ip = i.selected_ip;
  selected_node = i.selected_node;
  started_at = i.started_at;
}

unfoldable pub remember_instance : Manager → ℕ → Manager
unfolding save_runtime_state
remember_instance m p =
    let i = m.heap p in
    save_runtime_state
      (record m { resume_nodes = insert i.country.code (persisted i) m.resume_nodes })

unfoldable pub forget_instance : Manager → Text → Manager
unfolding save_runtime_state
forget_instance m code = save_runtime_state (record m {
  resume_nodes = delete (normalize_code code) m.resume_nodes;
  active = if same m.active (normalize_code code) then [] else m.active;
})

unfoldable pub is_hex : ℕ → Bool
is_hex c = (leb b'A' c && leb c b'F') || ((leb b'a' c && leb c b'f') || (leb b'0' c && leb c b'9'))

unfoldable pub all_hex : Text → Bool
unfolding is_hex
all_hex [] = true
all_hex (c ∷ cs) = is_hex c && all_hex cs

-- `fingerprintPattern`, `^[A-Fa-f0-9]{40}$`.
unfoldable pub fingerprint_pattern : Text → Bool
unfolding all_hex
fingerprint_pattern s = length s == 40 && all_hex s

-- An entry of the state file that is kept, with its code and fingerprint in their normal form.
unfoldable pub accept_node : PersistedNode → Option PersistedNode
unfolding fingerprint_pattern
accept_node node =
    let code = normalize_code node.country.code in
    if not (country_code_pattern code)
      || (not (is_empty node.exit_fingerprint) && not (fingerprint_pattern node.exit_fingerprint))
    then none
    else some (record node {
      country = record { code = code; name = node.country.name };
      exit_fingerprint = to_upper node.exit_fingerprint;
    })

unfoldable pub load_nodes :
    List PersistedNode → List (Text × PersistedNode) → List (Text × PersistedNode)
unfolding accept_node
load_nodes [] nodes = nodes
load_nodes (n ∷ ns) nodes =
    load_nodes ns
      (elim (accept_node n) [ none ↦ nodes | some node ↦ insert node.country.code node nodes ])

-- What was read is `none` if the file is missing, cannot be read or is no JSON of that form.
unfoldable pub load_runtime_state : Manager → Option PersistedManagerState → Manager
unfolding load_nodes
load_runtime_state m none = m
load_runtime_state m (some state) =
    let nodes = load_nodes state.instances m.resume_nodes in
    record m {
      resume_nodes = nodes;
      resume_active =
          if is_some (lookup (normalize_code state.active) nodes)
          then normalize_code state.active
          else m.resume_active;
    }
