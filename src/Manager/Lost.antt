-- ===== src/Manager/Lost.antt =====
-- manager.go: what becomes of a country whose instance is draining. No code clears `draining`.
pub mod Forever
use tor_country_manager.Shared.{
  ℕ, suc, ◌<◌, ◌≤◌, Bool, true, false, List, [], ◌∷◌, Option, none, some, if◌then◌else◌, ◌≡◌, ◌≢◌,
  refl, sym, ap, ◌∙◌, arith, ◌==◌, ◌||◌, ◌&&◌, not, Option-cases, Bool-cases, inl, inr, if_either,
  if_cases, is_ref, is_some,
}
use tor_country_manager.Shared.Text.{Text, text, same, same_iff, to_upper}
use tor_country_manager.Shared.Int.{ℤ}
use tor_country_manager.Shared.Assoc.{lookup, insert, lookup-insert}
use tor_country_manager.Config.Defs.{Country, normalize_code, country_code_pattern}
use tor_country_manager.Manager.Defs.{
  Manager, Instance, ManagerError, Spawn, update, modify, go, is_running_status,
}
use tor_country_manager.Manager.Stop.{stop, stop_known, stop_pending, drop_replacement}
use tor_country_manager.Manager.Persist.{fingerprint_pattern}
use tor_country_manager.Manager.Traffic.{acquire_instance, accepts}
use tor_country_manager.Manager.Watch.{is_current}
use tor_country_manager.Manager.Replace.{
  NodeChoice, Offer, is_replaceable, open_replacement, switch_to, new_replacement, start_detached,
  finish_replace, replace_with_ports, replace_with_port, replace_node, reserve_local_port,
  take_over, complete_round,
}
use tor_country_manager.Manager.Nodes.{
  Outside, new_instance, add_country, name_country, ensure_country, select, start_selected,
  start_ensured, start_node,
}
use tor_country_manager.Manager.System.{
  Event, starts, activates, stops, cancels, starts_node, limits, connects, disconnects, exits,
  dials, bootstraps, rotates, drains, completes, drains_old, begins_shutdown, goes_on_shutting_down,
  step, run,
}
use tor_country_manager.Manager.Calm.{
  Calm, CalmAt, Calm-refl, Calm-trans, go-Calm, CalmResult, stop-Calm, stop_pending-Calm,
  stop_instance-Calm, remember_instance-Calm, drain_round-Calm,
}
use tor_country_manager.Manager.Calm.Starts.{start-CalmResult, activate-CalmResult}
use tor_country_manager.Manager.Calm.Rounds
use tor_country_manager.Manager.Calm.Replaces
use tor_country_manager.Manager.Traffic.{release_instance}
use tor_country_manager.Manager.Limits.{begin_shutdown}
use tor_country_manager.Manager.Nodes.{place_country}
use tor_country_manager.Manager.Steps.{Survives, SurvivesTraffic}
use tor_country_manager.Manager.Steps.Histories.{run-Kept}

-- The country `k` stands for the instance `p`, which is draining with no replacement on its way.
pub record IsLost (k : Text) (p : ℕ) (m : Manager) : Type 0 where
  pub stands : lookup k m.instances ≡ some p
  pub draining : (m.heap p).is_draining ≡ true
  pub alone : (m.heap p).pending_replacement ≡ none
  pub allocated : p < m.next_instance

module _ (k : Text) (p : ℕ) where
  pub Calm-IsLost : {m n : Manager} → Calm m n → IsLost k p m → IsLost k p n
  Calm-IsLost c l = record {
    stands = ap (lookup k) c.same_instances ∙ l.stands;
    draining = (c.at p).draining_stays l.draining;
    alone = (c.at p).no_replacement l.alone;
    allocated = ground (arith, l.allocated, c.same_next);
  }

  open_replacement-IsLost :
      (m : Manager) (q : ℕ) (node : NodeChoice) (port control : ℤ)
      → is_replaceable m q ≡ true
      → IsLost k p m
      → IsLost k p (open_replacement m q node port control)
  unfolding open_replacement is_replaceable
  open_replacement-IsLost m q node port control h l = record {
    stands = l.stands;
    draining = ground (arith, l.draining, l.allocated);
    alone = ground (arith, l.draining, l.alone, l.allocated);
    allocated = omega (arith, l.allocated);
  }

  place_country-IsLost :
      (m : Manager) (c : Country) (port control : ℤ)
      → lookup c.code m.instances ≡ none
      → IsLost k p m
      → IsLost k p (place_country m c port control)
  unfolding place_country
  place_country-IsLost m c port control e l = record {
    stands = rw lookup-insert (ground (arith, same_iff c.code k, e, l.stands));
    draining = ground (arith, l.draining, l.allocated);
    alone = ground (arith, l.alone, l.allocated);
    allocated = omega (arith, l.allocated);
  }

  -- Only an instance that stands for its country hands it over, and it has a replacement.
  take_over-IsLost :
      (m : Manager) (q r : ℕ) (activate : Bool)
      → is_current m q ≡ true
      → is_ref (m.heap q).pending_replacement r ≡ true
      → IsLost k p m
      → IsLost k p (take_over m q r activate)
  unfolding take_over is_current
  take_over-IsLost m q r activate c h l = record {
    stands =
        rw lookup-insert
          (ground (arith, same_iff (m.heap q).country.code k, l.stands, l.alone, h, c));
    draining = ground (arith, l.draining);
    alone = ground (arith, l.alone);
    allocated = l.allocated;
  }

  IsLost-Survives : Survives (IsLost k p)
  unfolding begin_shutdown
  IsLost-Survives = record {
    calm = Calm-IsLost;
    placed = place_country-IsLost;
    opened = λ m q node port control h _. open_replacement-IsLost m q node port control h;
    handed = take_over-IsLost;
    closed = λ m l. record {
      stands = l.stands;
      draining = l.draining;
      alone = l.alone;
      allocated = l.allocated;
    };
  }

  IsLost-SurvivesTraffic : SurvivesTraffic (IsLost k p)
  unfolding release_instance
  IsLost-SurvivesTraffic = record {
    served = λ m j q h l. record {
      stands = l.stands;
      draining = ground (arith, l.draining);
      alone = ground (arith, l.alone);
      allocated = l.allocated;
    };
    released = λ m q l. record {
      stands = l.stands;
      draining = ground (arith, l.draining);
      alone = ground (arith, l.alone);
      allocated = l.allocated;
    };
  }

  pub run-IsLost : (m : Manager) (es : List Event) → IsLost k p m → IsLost k p (run m es)
  run-IsLost = run-Kept IsLost-Survives IsLost-SurvivesTraffic
