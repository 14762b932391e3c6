-- ===== src/Manager/Steps.antt =====
-- manager.go: a property survives every event if it survives the few elementary changes that the events
-- are made of.
pub mod Replacing
pub mod Adding
pub mod Histories
pub mod Restoring
use tor_country_manager.Shared.{
  ℕ, suc, ◌<◌, ◌≤◌, Bool, true, false, List, [], ◌∷◌, Option, none, some, if◌then◌else◌, ◌≡◌, ◌≢◌,
  refl, sym, ap, ◌∙◌, arith, ◌==◌, ◌||◌, ◌&&◌, not, Option-cases, Bool-cases, inl, inr, if_either,
  if_cases, is_ref, is_some,
}
use tor_country_manager.Shared.Text.{Text, text, same, same_iff, to_upper}
use tor_country_manager.Shared.Int.{ℤ}
use tor_country_manager.Shared.Assoc.{lookup, insert, lookup-insert}
use tor_country_manager.Config.Defs.{Country, normalize_code, country_code_pattern}
use tor_country_manager.Manager.Defs.{
  Manager, Instance, ManagerError, Spawn, update, modify, go, is_running_status,
}
use tor_country_manager.Manager.Stop.{stop, stop_known, stop_pending, drop_replacement}
use tor_country_manager.Manager.Persist.{fingerprint_pattern}
use tor_country_manager.Manager.Traffic.{acquire_instance, accepts}
use tor_country_manager.Manager.Watch.{is_current}
use tor_country_manager.Manager.Replace.{
  NodeChoice, Offer, is_replaceable, open_replacement, switch_to, new_replacement, start_detached,
  finish_replace, replace_with_ports, replace_with_port, replace_node, reserve_local_port,
  take_over, complete_round,
}
use tor_country_manager.Manager.Nodes.{
  Outside, new_instance, add_country, name_country, ensure_country, select, start_selected,
  start_ensured, start_node,
}
use tor_country_manager.Manager.System.{
  Event, starts, activates, stops, cancels, starts_node, limits, connects, disconnects, exits,
  dials, bootstraps, rotates, drains, completes, drains_old, begins_shutdown, goes_on_shutting_down,
  step, run,
}
use tor_country_manager.Manager.Calm.{
  Calm, CalmAt, Calm-refl, Calm-trans, go-Calm, CalmResult, stop-Calm, stop_pending-Calm,
  stop_instance-Calm, remember_instance-Calm, drain_round-Calm,
}
use tor_country_manager.Manager.Calm.Starts.{start-CalmResult, activate-CalmResult}
use tor_country_manager.Manager.Calm.Rounds
use tor_country_manager.Manager.Calm.Replaces
use tor_country_manager.Manager.Traffic.{release_instance}
use tor_country_manager.Manager.Nodes.{place_country}
use tor_country_manager.Manager.Limits.{begin_shutdown}

-- The elementary changes but the two of the traffic.
pub record Survives (P : Manager → Type 0) : Type 0 where
  pub calm : {m n : Manager} → Calm m n → P m → P n
  pub placed :
      (m : Manager) (c : Country) (port control : ℤ)
      → lookup c.code m.instances ≡ none
      → P m
      → P (place_country m c port control)
  pub opened :
      (m : Manager) (q : ℕ) (node : NodeChoice) (port control : ℤ)
      → is_replaceable m q ≡ true
      → m.shutting_down ≡ false
      → P m
      → P (open_replacement m q node port control)
  pub handed :
      (m : Manager) (q r : ℕ) (activate : Bool)
      → is_current m q ≡ true
      → is_ref (m.heap q).pending_replacement r ≡ true
      → P m
      → P (take_over m q r activate)
  pub closed : (m : Manager) → P m → P (begin_shutdown m)

-- One connection more, and one less.
pub record SurvivesTraffic (P : Manager → Type 0) : Type 0 where
  pub served :
      (m : Manager) (k : Text) (p : ℕ)
      → lookup k m.instances ≡ some p
      → P m
      → P (modify m p (λ i. record i { active_connections = suc i.active_connections }))
  pub released : (m : Manager) (p : ℕ) → P m → P (release_instance m p)

-- The state of the result of a call.
pub record KeptResult {ℓ} {E : Type ℓ} (P : Manager → Type 0) (r : Manager × E) : Type 0 where
  pub kept : P r.0

pub activate-Calm : (m : Manager) (code : Text) → Calm m (record m { active = code })
activate-Calm m code = record {
  same_instances = refl;
  same_next = refl;
  same_shutdown = refl;
  no_start = λ h. refl;
  at = (Calm-refl m).at;
}
