-- ===== src/Manager/Traffic.antt =====
-- manager.go: `acquireInstance` and `releaseInstance`, which a proxied connection calls at its start
-- and at its end.
use tor_country_manager.Shared.{
  ℕ, suc, ◌-◌, Bool, Option, none, some, if◌then◌else◌, ltb, ◌&&◌, ◌||◌, not,
}
use tor_country_manager.Shared.Text.{Text}
use tor_country_manager.Shared.Assoc.{lookup}
use tor_country_manager.Config.Defs.{normalize_code}
use tor_country_manager.Manager.Defs.{
  Manager, Instance, modify, is_running_status, is_switching_status,
}

-- An instance that takes new connections.
unfoldable pub accepts : Instance → Bool
unfolding is_running_status is_switching_status
accepts i = (is_running_status i.status || is_switching_status i.status) && not i.is_draining

unfoldable pub acquire_instance : Manager → Text → Manager × Option ℕ
unfolding accepts
acquire_instance m code = elim (lookup (normalize_code code) m.instances) [
  | none ↦ (m, none)
  | some p ↦
      if accepts (m.heap p)
      then (modify m p (λ i. record i { active_connections = suc i.active_connections }), some p)
      else (m, none)
]

unfoldable pub release_instance : Manager → ℕ → Manager
release_instance m p = modify m p (λ i.
    if ltb 0 i.active_connections
    then record i { active_connections = i.active_connections - 1 }
    else i)
