-- ===== src/Manager/Steps/Restoring.antt =====
-- manager.go: what survives the elementary changes survives `Restore`.
use tor_country_manager.Shared.{ℕ, suc, Option, none, some, List, [], ◌∷◌, refl, arith}
use tor_country_manager.Shared.Text.{Text}
use tor_country_manager.Shared.Sort.{sort_slice}
use tor_country_manager.Manager.Defs.{Manager, ManagerError, PersistedNode, Spawn, modify}
use tor_country_manager.Manager.Persist.{nodes_of, older_node}
use tor_country_manager.Manager.Nodes.{restore_one, restore_loop, restore}
use tor_country_manager.Manager.Calm.{Calm}
use tor_country_manager.Manager.Calm.Starts.{start-CalmResult}
use tor_country_manager.Manager.Steps.{Survives, KeptResult, activate-Calm}
use tor_country_manager.Manager.Steps.Adding.{ensure_country-KeptResult}

-- The node of the state file is put into the instance.
chosen-Calm :
    (m : Manager) (p : ℕ) (a b c : Text)
    → Calm m
        (modify m p (λ i. record i { exit_fingerprint = a; selected_ip = b; selected_node = c }))
chosen-Calm m p a b c = record {
  same_instances = refl;
  same_next = refl;
  same_shutdown = refl;
  no_start = λ h. refl;
  at = λ q. ground arith;
}

module _ {P : Manager → Type 0} (s : Survives P) where
  restore_one-Kept :
      (r : Manager × (Option ℕ × Option ManagerError)) (node : PersistedNode) (spawn : Spawn)
      (now : ℕ)
      → KeptResult P r
      → P (restore_one r node spawn now)
  unfolding restore_one
  restore_one-Kept (m, (none, e)) node spawn now l = l.kept
  restore_one-Kept (m, (some p, e)) node spawn now l =
      s.calm (start-CalmResult _ node.country.code spawn now).calm
        (s.calm (chosen-Calm m p _ _ _) l.kept)

  restore_loop-Kept :
      (nodes : List PersistedNode) (m : Manager) (n : ℕ) (spawns : ℕ → Spawn) (times : ℕ → ℕ)
      → P m
      → P (restore_loop m n spawns times nodes)
  unfolding restore_loop
  restore_loop-Kept [] m n spawns times l = l
  restore_loop-Kept (node ∷ rest) m n spawns times l =
      restore_loop-Kept rest _ (suc n) spawns times (
        restore_one-Kept _ node (spawns n) (times n) (ensure_country-KeptResult s m node.country l))

  pub restore-Kept :
      (m : Manager) (spawns : ℕ → Spawn) (times : ℕ → ℕ) → P m → P (restore m spawns times)
  unfolding restore
  restore-Kept m spawns times l =
      restore_loop-Kept (sort_slice older_node (nodes_of m.resume_nodes)) _ 0 spawns times
        (s.calm (activate-Calm m m.resume_active) l)
