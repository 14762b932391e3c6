-- ===== src/Manager/Down.antt =====
-- manager.go: once the shutdown began, no process is started. `Start` and `replaceNode` hold `startMu`
-- from their test of the flag to the start of the process, and `Shutdown` sets the flag under it.
use tor_country_manager.Shared.{ℕ, true, List, ◌≡◌, refl, ◌∙◌, arith}
use tor_country_manager.Manager.Defs.{Manager}
use tor_country_manager.Manager.Limits.{begin_shutdown}
use tor_country_manager.Manager.Replace.{take_over}
use tor_country_manager.Manager.Nodes.{place_country}
use tor_country_manager.Manager.System.{Event, begins_shutdown, step, run}
use tor_country_manager.Manager.Calm.{Calm}
use tor_country_manager.Manager.Traffic.{release_instance}
use tor_country_manager.Manager.Replace.{open_replacement}
use tor_country_manager.Manager.Steps.{Survives, SurvivesTraffic}
use tor_country_manager.Manager.Steps.Histories.{run-Kept}

-- The shutdown has begun, and so many processes were started before.
pub record IsDown (count : ℕ) (m : Manager) : Type 0 where
  pub down : m.shutting_down ≡ true
  pub started_before : m.next_cmd ≡ count

module _ (count : ℕ) where
  Calm-IsDown : {m n : Manager} → Calm m n → IsDown count m → IsDown count n
  Calm-IsDown c d = record {
    down = c.same_shutdown ∙ d.down;
    started_before = c.no_start d.down ∙ d.started_before;
  }

  IsDown-Survives : Survives (IsDown count)
  unfolding place_country open_replacement take_over begin_shutdown
  IsDown-Survives = record {
    calm = Calm-IsDown;
    placed = λ m c port control h d. record { down = d.down; started_before = d.started_before };
    opened = λ m q node port control h on d. absurd (ground (arith, d.down));
    handed = λ m q r activate c h d. record { down = d.down; started_before = d.started_before };
    closed = λ m d. record { down = refl; started_before = d.started_before };
  }

  IsDown-SurvivesTraffic : SurvivesTraffic (IsDown count)
  unfolding release_instance
  IsDown-SurvivesTraffic = record {
    served = λ m k p h d. record { down = d.down; started_before = d.started_before };
    released = λ m p d. record { down = d.down; started_before = d.started_before };
  }

-- After the shutdown began, no call and no goroutine starts a process, in whatever order they come:
-- whatever happens then, as many processes have been started as before.
pub no_start_after_shutdown :
    (m : Manager) (es : List Event) → (run (step m begins_shutdown) es).next_cmd ≡ m.next_cmd
unfolding step begin_shutdown
no_start_after_shutdown m es =
    (run-Kept (IsDown-Survives m.next_cmd) (IsDown-SurvivesTraffic m.next_cmd)
      (step m begins_shutdown) es (record { down = refl; started_before = refl })).started_before
