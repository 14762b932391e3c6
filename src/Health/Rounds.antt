-- ===== src/Health/Rounds.antt =====
-- health.go: when a round changes nodes, and when it must not.
use mathlib.Core.List.{Memᴰ}
use mathlib.Core.List.Memᴰ
use tor_country_manager.Shared.{
  ◌++◌, keep, ℕ, suc, ◌+◌, ◌≤◌, true, false, List, [], ◌∷◌, ◌⊎◌, inl, inr, none, some, ◌≡◌, refl,
  ◌∙◌, arith, length, All,
}
use tor_country_manager.Shared.Text.{Text}
use tor_country_manager.Shared.Int.{ℤ}
use tor_country_manager.Manager.Defs.{Instance}
use tor_country_manager.Manager.Nodes.{State}
use tor_country_manager.Catalog.Nodes.{ExitNode}
use tor_country_manager.Health.Monitor.{
  RouteHealthMonitor, RouteProbeResult, Answers, Switch, record_of, set_record, should_switch,
  alternate_node, apply_outcome, apply_probe_result,
}
use tor_country_manager.Health.Pause.{Probe}
use tor_country_manager.Health.Round.{
  Ended, has_succeeded, apply_results, is_global_failure, checked_routes, run_once,
}

-- While switches are not allowed none is made.
apply_outcome-paused :
    (m : RouteHealthMonitor) (r : RouteProbeResult) (s : Text ⊎ (Text × ℤ)) (o : Answers) (now : ℕ)
    → ((apply_outcome m r s false o now).switches ≡ m.switches)
      × ((apply_outcome m r s false o now).global_failure ≡ m.global_failure)
unfolding apply_outcome set_record should_switch
apply_outcome-paused m r (inl e) o now = (refl, refl)
apply_outcome-paused m r (inr s) o now = (refl, refl)

apply_results-paused :
    (m : RouteHealthMonitor) (answers : ℕ → Answers) (times : ℕ → ℕ) (n : ℕ)
    (rs : List RouteProbeResult)
    → ((apply_results m false answers times n rs).switches ≡ m.switches)
unfolding apply_results apply_probe_result
apply_results-paused m answers times n [] = refl
apply_results-paused m answers times n (r ∷ rs) =
    apply_results-paused (apply_probe_result m r false (answers n) (times n)) answers times (suc n)
      rs
    ∙ (apply_outcome-paused m r r.outcome (answers n) (times n)).0

-- A check that does not come through.
abbrev pub NotReached : RouteProbeResult → Type 0
NotReached r = (e : Text) × (r.outcome ≡ inl e)

none_reached : (rs : List RouteProbeResult) → All NotReached rs → length (keep has_succeeded rs) ≡ 0
none_reached [] a = refl
none_reached (r ∷ rs) ((e, f), a) = rw f (none_reached rs a)

NotReached-global :
    (rs : List RouteProbeResult) → 2 ≤ length rs → All NotReached rs → is_global_failure rs ≡ true
unfolding is_global_failure
NotReached-global rs l a = ground (arith, none_reached rs a)

-- A round that checks at least two routes and reaches the network through none of them changes no node,
-- however often the routes have failed before.
pub paused_round :
    (m : RouteHealthMonitor) (s : State) (ends : Instance → Ended) (answers : ℕ → Answers)
    (times : ℕ → ℕ)
    → 2 ≤ length (checked_routes s ends)
    → All NotReached (checked_routes s ends)
    → (run_once m s ends answers times).switches ≡ m.switches
unfolding run_once
paused_round m s ends answers times l a = rw (NotReached-global (checked_routes s ends) l a) (
    apply_results-paused (record m { global_failure = true }) answers times 0
      (checked_routes s ends))

-- The switches are those there were, with newer ones before them.
abbrev Grew : RouteHealthMonitor → RouteHealthMonitor → Type 0
Grew m n = (new : List (Text × Switch)) × (n.switches ≡ new ++ m.switches)

-- A check of the country's route that fails while switches are allowed, the catalog can be read and has
-- another node, a switch to which succeeds, and the last switch, at `last`, is long enough ago.
pub record Fails (code : Text) (cooldown last : ℕ) (q : Probe) : Type 0 where
  pub own : q.result.probed.country.code ≡ code
  pub failure : (e : Text) × (q.result.outcome ≡ inl e)
  pub allowed : q.allow_switch ≡ true
  pub readable : q.answers.refresh_error ≡ none
  pub alternate : (n : ExitNode) × (alternate_node q.answers.catalog q.result.probed ≡ some n)
  pub switches_well : q.answers.switch_error ≡ none
  pub rested : (last ≡ 0) ⊎ (last + cooldown ≤ q.now)

abbrev after_probe : RouteHealthMonitor → Probe → RouteHealthMonitor
after_probe m q = apply_probe_result m q.result q.allow_switch q.answers q.now

-- What is left as it was by a failure that does not reach the threshold yet.
abbrev CountsOn : Text → RouteHealthMonitor → RouteHealthMonitor → Type 0
CountsOn code m n =
    (n.switches ≡ m.switches)
    × (n.failures ≡ m.failures)
    × (n.cooldown ≡ m.cooldown)
    × ((record_of n code).consecutive_failures ≡ suc (record_of m code).consecutive_failures)
    × ((record_of n code).last_switch_at ≡ (record_of m code).last_switch_at)

abbrev switch_of : RouteProbeResult → ExitNode → ℕ → Text × Switch
switch_of r n now = (
  r.probed.country.code,
  record { code = r.probed.country.code; node = n; active = r.active; at = now },
)

-- One of the checks has led to a switch of the country, at its time, to the other node of its catalog.
abbrev IsSwitch : Text → List Probe → Text × Switch → Type 0
IsSwitch code qs s =
    (q : Probe) × Memᴰ q qs
    × ((n : ExitNode) × (alternate_node q.answers.catalog q.result.probed ≡ some n)
        × (s ≡ (code, record { code = code; node = n; active = q.result.active; at = q.now })))

-- The switches have a new one, of this kind.
abbrev pub ChangesNode : Text → List Probe → RouteHealthMonitor → RouteHealthMonitor → Type 0
ChangesNode code qs m n =
    (new : List (Text × Switch)) × (n.switches ≡ new ++ m.switches)
    × ((s : Text × Switch) × Memᴰ s new × IsSwitch code qs s)
