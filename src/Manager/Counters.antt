-- ===== src/Manager/Counters.antt =====
-- manager.go: the number of connections that an instance shows, against the connections that came and
-- went.
pub mod Shown
use tor_country_manager.Shared.{
  ℕ, suc, ◌+◌, ◌-◌, Bool, true, false, List, [], ◌∷◌, Option, none, some, if◌then◌else◌, ltb, ◌==◌,
  ◌&&◌, not, is_ref, ◌≡◌, refl, sym, ◌∙◌, arith, if_either, Option-cases, Bool-cases, inl, inr,
}
use tor_country_manager.Shared.Text.{Text}
use tor_country_manager.Shared.Int.{ℤ}
use tor_country_manager.Shared.Assoc.{lookup}
use tor_country_manager.Config.Defs.{Config, Country, normalize_code}
use tor_country_manager.Manager.Defs.{Manager, PersistedManagerState, Spawn}
use tor_country_manager.Manager.Traffic.{acquire_instance, release_instance, accepts}
use tor_country_manager.Manager.Watch.{is_current}
use tor_country_manager.Manager.Replace.{
  NodeChoice, is_replaceable, open_replacement, switch_to, new_replacement, take_over,
}
use tor_country_manager.Manager.Nodes.{place_country, new_instance}
use tor_country_manager.Manager.Limits.{begin_shutdown}
use tor_country_manager.Manager.System.{Event, connects, disconnects, step, run}
use tor_country_manager.Manager.Steps.{Survives}
use tor_country_manager.Manager.Steps.Histories.{is_traffic, step-quiet, step-Kept}
use tor_country_manager.Manager.Ordered.{Ordered, Ordered-Survives, Ordered-SurvivesTraffic}
use tor_country_manager.Manager.Ordered.Served.{served, served-Ordered}

-- A new connection gets the instance `q`.
unfoldable pub comes_to : ℕ → Manager → Event → Bool
comes_to q m (connects code) = is_ref (acquire_instance m code).1 q
comes_to q m _ = false

unfoldable pub leaves : ℕ → Event → Bool
leaves q (disconnects p) = p == q
leaves q _ = false

-- So many connections of a history get `q`, and so many of `q` end.
unfoldable pub arrivals : ℕ → Manager → List Event → ℕ
unfolding comes_to
arrivals q m [] = 0
arrivals q m (e ∷ es) =
    let rest = arrivals q (step m e) es in if comes_to q m e then suc rest else rest

unfoldable pub departures : ℕ → List Event → ℕ
unfolding leaves
departures q [] = 0
departures q (e ∷ es) = let rest = departures q es in if leaves q e then suc rest else rest

-- With `have` connections at the start, none ends that has not come.
unfoldable pub paired : ℕ → ℕ → Manager → List Event → Bool
unfolding comes_to leaves
paired q have m [] = true
paired q have m (e ∷ es) =
    let after = step m e in
    let more = paired q (suc have) after es in
    let same_number = paired q have after es in
    let fewer = paired q (have - 1) after es in
    if comes_to q m e then more else if leaves q e then ltb 0 have && fewer else same_number

-- An ordered manager in which `q` shows the number `n`.
pub record Shows (q n : ℕ) (m : Manager) : Type 0 where
  pub ordered : Ordered m
  pub number : (m.heap q).active_connections ≡ n

module _ (q n : ℕ) where
  pub Shows-Survives : Survives (Shows q n)
  unfolding place_country new_instance open_replacement switch_to new_replacement take_over
      is_replaceable is_current begin_shutdown
  Shows-Survives = record {
    calm = λ c s. record {
      ordered = Ordered-Survives.calm c s.ordered;
      number = (c.at q).same_connections ∙ s.number;
    };
    placed = λ m c port control h s. record {
      ordered = Ordered-Survives.placed m c port control h s.ordered;
      number = ground (arith, s.ordered.unused q, s.number);
    };
    opened = λ m p node port control h on s. record {
      ordered = Ordered-Survives.opened m p node port control h on s.ordered;
      number =
          ground (arith, s.ordered.unused q, s.ordered.stands (m.heap p).country.code p, s.number);
    };
    handed = λ m p r activate h h' s. record {
      ordered = Ordered-Survives.handed m p r activate h h' s.ordered;
      number = ground (arith, s.ordered.pends p r, s.number);
    };
    closed = λ m s. record { ordered = Ordered-Survives.closed m s.ordered; number = s.number };
  }

-- What one event should do to the number.
abbrev Counted : ℕ → Manager → Event → ℕ → Type 0
Counted q m e n = n ≡ (
    if comes_to q m e
    then suc (m.heap q).active_connections
    else if leaves q e
    then (m.heap q).active_connections - 1
    else (m.heap q).active_connections)

acquire_instance-number :
    (q : ℕ) (m : Manager) (code : Text)
    → ((acquire_instance m code).0.heap q).active_connections ≡ (
        if is_ref (acquire_instance m code).1 q
        then suc (m.heap q).active_connections
        else (m.heap q).active_connections)
unfolding acquire_instance
acquire_instance-number q m code = ground arith

traffic-Counted :
    (q : ℕ) (m : Manager) (e : Event)
    → is_traffic e ≡ true
    → Counted q m e ((step m e).heap q).active_connections
unfolding step comes_to leaves release_instance is_traffic
traffic-Counted q m (connects code) h = acquire_instance-number q m code
traffic-Counted q m (disconnects p) h = ground arith
traffic-Counted q m _ h = absurd (ground arith)

quiet-unchanged :
    (q : ℕ) (m : Manager) (e : Event)
    → is_traffic e ≡ false
    → (comes_to q m e ≡ false) × (leaves q e ≡ false)
unfolding is_traffic comes_to leaves
quiet-unchanged q m (connects code) h = absurd (ground arith)
quiet-unchanged q m (disconnects p) h = absurd (ground arith)
quiet-unchanged q m _ h = (refl, refl)

step-Counted :
    (q : ℕ) (m : Manager) (e : Event)
    → Ordered m
    → Counted q m e ((step m e).heap q).active_connections
step-Counted q m e o = elim (Bool-cases (is_traffic e)) [
  | inl h ↦ traffic-Counted q m e h
  | inr h ↦
      let s =
        step-quiet (Shows-Survives q (m.heap q).active_connections) m e h
          (record { ordered = o; number = refl }) in
      let (a, b) = quiet-unchanged q m e h in rw (a, b) s.number
]

pub run-Counts :
    (q : ℕ) (es : List Event) (m : Manager)
    → Ordered m
    → paired q (m.heap q).active_connections m es ≡ true
    → ((run m es).heap q).active_connections + departures q es
      ≡ (m.heap q).active_connections + arrivals q m es
unfolding run paired arrivals departures
run-Counts q [] m o h = omega arith
run-Counts q (e ∷ es) m o h = ground (
  arith,
  step-Counted q m e o,
  run-Counts q es (step m e) (step-Kept Ordered-Survives Ordered-SurvivesTraffic m e o),
)
