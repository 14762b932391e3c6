-- ===== src/Health/Pause.antt =====
-- health.go: the pause between two automatic switches of one country.
use tor_country_manager.Shared.{
  ℕ, ◌+◌, ◌≤◌, Bool, true, List, [], ◌∷◌, Option, none, some, if◌then◌else◌, ◌⊎◌, inl, inr, ◌≡◌,
  subst, refl, ◌∙◌, arith, All, if_cases, Bool-cases,
}
use tor_country_manager.Shared.Text.{Text, same, same_iff, same_refl}
use tor_country_manager.Shared.Int.{ℤ}
use tor_country_manager.Shared.Assoc.{lookup, lookup-insert}
use tor_country_manager.Catalog.Nodes.{ExitNode}
use tor_country_manager.Health.Monitor.{
  RouteHealthRecord, Switch, RouteHealthMonitor, RouteProbeResult, Answers, record_of, set_record,
  record_switch_error, succeeded, failed_again, should_switch, after_switch, begin_switch,
  switch_node, refreshed, apply_outcome, apply_probe_result,
}

-- Two switches of one country in a row are this far apart.
abbrev pub Apart : ℕ → List (Text × Switch) → Type 0
Apart cooldown [] = Unit
Apart cooldown ((code, s) ∷ rest) =
    ((earlier : Switch) → lookup code rest ≡ some earlier → earlier.at + cooldown ≤ s.at)
    × Apart cooldown rest

-- The records know the last switch of each country.
pub record Pauses (m : RouteHealthMonitor) : Type 0 where
  pub apart : Apart m.cooldown m.switches
  pub known :
      (code : Text) (s : Switch)
      → lookup code m.switches ≡ some s
      → ((record_of m code).last_switch_at ≡ s.at) × (1 ≤ s.at)

record_of-set_record :
    (m : RouteHealthMonitor) (k j : Text) (r : RouteHealthRecord)
    → record_of (set_record m k r) j ≡ (if same k j then r else record_of m j)
unfolding record_of set_record
record_of-set_record m k j r = ground (arith, lookup-insert k j r m.records)

-- A record that keeps its last switch keeps the pauses.
set_record-Pauses :
    (m : RouteHealthMonitor) (code : Text) (r : RouteHealthRecord)
    → r.last_switch_at ≡ (record_of m code).last_switch_at
    → Pauses m
    → Pauses (set_record m code r)
unfolding set_record
set_record-Pauses m code r e p = record {
  apart = p.apart;
  known = λ k s h.
      let (a, b) = p.known k s h in
      (ground (arith, record_of-set_record m code k r, same_iff code k), b);
}

record_switch_error-Pauses :
    (m : RouteHealthMonitor) (code e : Text) → Pauses m → Pauses (record_switch_error m code e)
unfolding record_switch_error
record_switch_error-Pauses m code e p = set_record-Pauses m code _ refl p

after_switch-Pauses :
    (m : RouteHealthMonitor) (code : Text) (o : Option Text)
    → Pauses m
    → Pauses (after_switch m code o)
unfolding after_switch
after_switch-Pauses m code (some e) p = record_switch_error-Pauses m code e p
after_switch-Pauses m code none p = set_record-Pauses m code _ refl p

-- The pause has passed, or there was no switch.
abbrev Rested : RouteHealthMonitor → Text → ℕ → Type 0
Rested m code now =
    ((record_of m code).last_switch_at ≡ 0) ⊎ ((record_of m code).last_switch_at + m.cooldown ≤ now)

Rested-Apart :
    (m : RouteHealthMonitor) (code : Text) (now : ℕ) (s : Switch)
    → Pauses m
    → Rested m code now
    → lookup code m.switches ≡ some s
    → s.at + m.cooldown ≤ now
Rested-Apart m code now s p (inl z) h =
    let (a, b) = p.known code s h in absurd (omega (arith, a, b, z))
Rested-Apart m code now s p (inr l) h = let (a, b) = p.known code s h in omega (arith, a, l)

noted_switch : RouteHealthMonitor → Text → RouteHealthRecord → Switch → RouteHealthMonitor
noted_switch m code r s = record (set_record m code r) { switches = (code, s) ∷ m.switches }

record_of-noted_switch :
    (m : RouteHealthMonitor) (k j : Text) (r : RouteHealthRecord) (s : Switch)
    → record_of (noted_switch m k r s) j ≡ (if same k j then r else record_of m j)
unfolding record_of set_record noted_switch
record_of-noted_switch m k j r s = ground (arith, lookup-insert k j r m.records)

lookup-noted_switch :
    (m : RouteHealthMonitor) (k j : Text) (r : RouteHealthRecord) (s : Switch)
    → lookup j (noted_switch m k r s).switches ≡ (if same k j then some s else lookup j m.switches)
unfolding noted_switch lookup
lookup-noted_switch m k j r s = refl

noted_switch-Apart :
    (m : RouteHealthMonitor) (code : Text) (r : RouteHealthRecord) (s : Switch)
    → Rested m code s.at
    → Pauses m
    → Apart (noted_switch m code r s).cooldown (noted_switch m code r s).switches
unfolding noted_switch set_record
noted_switch-Apart m code r s rested p = ((λ t h. Rested-Apart m code s.at t p rested h), p.apart)

noted_switch-Pauses :
    (m : RouteHealthMonitor) (code : Text) (r : RouteHealthRecord) (s : Switch)
    → r.last_switch_at ≡ s.at
    → 1 ≤ s.at
    → Rested m code s.at
    → Pauses m
    → Pauses (noted_switch m code r s)
noted_switch-Pauses m code r s e l rested p = record {
  apart = noted_switch-Apart m code r s rested p;
  known = λ k t h.
      let here = record_of-noted_switch m code k r s in
      let found = lookup-noted_switch m code k r s in
      elim (Bool-cases (same code k)) [
        | inl y ↦
            let it : some s ≡ some t = ground (arith, found) in
            let same_time : s.at ≡ t.at = ground arith in (ground (arith, here), omega arith)
        | inr n ↦ let (a, b) = p.known k t (ground (arith, found)) in (ground (arith, here), b)
      ];
}

begin_switch-Pauses :
    (m : RouteHealthMonitor) (result : RouteProbeResult) (node : ExitNode) (now : ℕ)
    → 1 ≤ now
    → Rested m result.probed.country.code now
    → Pauses m
    → Pauses (begin_switch m result node now)
unfolding begin_switch noted_switch
begin_switch-Pauses m result node now l rested p =
    noted_switch-Pauses m result.probed.country.code _ _ refl l rested p

switch_node-Pauses :
    (m : RouteHealthMonitor) (result : RouteProbeResult) (node : Option ExitNode) (o : Answers)
    (now : ℕ)
    → 1 ≤ now
    → Rested m result.probed.country.code now
    → Pauses m
    → Pauses (switch_node m result node o now)
unfolding switch_node
switch_node-Pauses m result none o now l rested p = record_switch_error-Pauses m _ _ p
switch_node-Pauses m result (some node) o now l rested p =
    after_switch-Pauses (begin_switch m result node now) _ o.switch_error
      (begin_switch-Pauses m result node now l rested p)

refreshed-Pauses :
    (m : RouteHealthMonitor) (result : RouteProbeResult) (e : Option Text) (o : Answers) (now : ℕ)
    → 1 ≤ now
    → Rested m result.probed.country.code now
    → Pauses m
    → Pauses (refreshed m result e o now)
unfolding refreshed
refreshed-Pauses m result (some e) o now l rested p = record_switch_error-Pauses m _ _ p
refreshed-Pauses m result none o now l rested p = switch_node-Pauses m result _ o now l rested p

should_switch-Rested :
    (m : RouteHealthMonitor) (code e : Text) (allow : Bool) (now : ℕ)
    → should_switch m allow (failed_again (record_of m code) e now) now ≡ true
    → Rested (set_record m code (failed_again (record_of m code) e now)) code now
unfolding should_switch failed_again
should_switch-Rested m code e allow now h =
    let r = failed_again (record_of m code) e now in
    let here = record_of-set_record m code code r in
    let same_cooldown : (set_record m code r).cooldown ≡ m.cooldown = unfold set_record in refl in
    ground (arith, here, same_cooldown, same_refl code)

apply_outcome-Pauses :
    (m : RouteHealthMonitor) (result : RouteProbeResult) (r : Text ⊎ (Text × ℤ)) (allow : Bool)
    (o : Answers) (now : ℕ)
    → 1 ≤ now
    → Pauses m
    → Pauses (apply_outcome m result r allow o now)
unfolding apply_outcome
apply_outcome-Pauses m result (inr (exit_ip, latency)) allow o now l p =
    set_record-Pauses m _ _ (unfold succeeded in refl) p
apply_outcome-Pauses m result (inl e) allow o now l p =
    let code = result.probed.country.code in
    let r = failed_again (record_of m code) e now in
    let noted = set_record-Pauses m code r (unfold failed_again in refl) p in
    if_cases Pauses (should_switch m allow r now)
      (λ h.
        refreshed-Pauses (set_record m code r) result o.refresh_error o now l
          (should_switch-Rested m code e allow now h) noted)
      (λ _. noted)

-- One call of `applyProbeResult`.
pub record Probe : Type 0 where
  pub result : RouteProbeResult
  pub allow_switch : Bool
  pub answers : Answers
  pub now : ℕ

unfoldable pub run_probes : RouteHealthMonitor → List Probe → RouteHealthMonitor
run_probes m [] = m
run_probes m (q ∷ qs) = run_probes (apply_probe_result m q.result q.allow_switch q.answers q.now) qs

run_probes-Pauses :
    (m : RouteHealthMonitor) (qs : List Probe)
    → All (λ q. 1 ≤ q.now) qs
    → Pauses m
    → Pauses (run_probes m qs)
unfolding run_probes apply_probe_result
run_probes-Pauses m [] l p = p
run_probes-Pauses m (q ∷ qs) l p =
    run_probes-Pauses (apply_probe_result m q.result q.allow_switch q.answers q.now) qs l.1
      (apply_outcome-Pauses m q.result q.result.outcome q.allow_switch q.answers q.now l.0 p)

none-Pauses : (m : RouteHealthMonitor) → m.switches ≡ [] → Pauses m
unfolding lookup
none-Pauses m e = record { apart = rw e tt; known = λ code s h. ground (arith, e) }

apply_probe_result-cooldown :
    (m : RouteHealthMonitor) (result : RouteProbeResult) (allow : Bool) (o : Answers) (now : ℕ)
    → (apply_probe_result m result allow o now).cooldown ≡ m.cooldown
unfolding apply_probe_result apply_outcome refreshed switch_node begin_switch after_switch
    record_switch_error set_record
apply_probe_result-cooldown m result allow o now = ground arith

run_probes-cooldown :
    (m : RouteHealthMonitor) (qs : List Probe) → (run_probes m qs).cooldown ≡ m.cooldown
unfolding run_probes
run_probes-cooldown m [] = refl
run_probes-cooldown m (q ∷ qs) =
    run_probes-cooldown (apply_probe_result m q.result q.allow_switch q.answers q.now) qs
    ∙ apply_probe_result-cooldown m q.result q.allow_switch q.answers q.now

-- Whatever the probes of the routes find, in whatever order, and however the switches end, two
-- automatic switches of one country in a row are at least the cooldown apart, for a monitor that has
-- not switched before; a time is after the zero time.
pub run_probes-Apart :
    (m : RouteHealthMonitor) (qs : List Probe)
    → m.switches ≡ []
    → All (λ q. 1 ≤ q.now) qs
    → Apart m.cooldown (run_probes m qs).switches
run_probes-Apart m qs e l =
    subst (λ d. Apart d (run_probes m qs).switches) (run_probes-cooldown m qs)
      (run_probes-Pauses m qs l (none-Pauses m e)).apart
