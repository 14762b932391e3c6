-- ===== src/Health/Reports.antt =====
-- health.go: what the report's status and numbers say.

use tor_country_manager.Shared.{
  ℕ, ◌+◌, Bool, true, false, refl, sym, ◌∙◌, ◌||◌, ◌&&◌, not, List, [], ◌∷◌, ltb, if◌then◌else◌,
  ◌≡◌, arith, length, length-append, count_if,
}
use tor_country_manager.Shared.Text.{Text, is_empty}
use tor_country_manager.Catalog.Nodes.{ExitCatalog}
use tor_country_manager.Manager.Defs.{
  Instance, Status, is_error, is_running_status, is_switching_status, unset, stopped, starting,
  connecting, running, switching, draining, stopping, error,
}
use tor_country_manager.Manager.Nodes.{State}
use tor_country_manager.Health.Monitor.{RouteHealthMonitor, record_of}
use tor_country_manager.Health.Report.{
  idle, ok, degraded, health_country, is_listed, Tally, tally_one, tally, no_tally, report,
}

-- Which states are shown as online, and which as failed.
abbrev pub shows_online : Status → Bool
shows_online running = true
shows_online switching = true
shows_online _ = false

abbrev pub shows_failed : Status → Bool
shows_failed error = true
shows_failed _ = false

abbrev pub is_online : Instance → Bool
is_online i = shows_online i.status

abbrev pub is_down : Instance → Bool
is_down i = shows_failed i.status

abbrev pub is_shown : Instance → Bool
is_shown i = is_online i || is_down i

-- A shown route in trouble: in error, or with failures since its last success, or with a switch that
-- failed.
abbrev pub is_troubled : RouteHealthMonitor → Instance → Bool
is_troubled m i =
    is_down i
    || (is_online i
        && (ltb 0 (record_of m i.country.code).consecutive_failures
            || not (is_empty (record_of m i.country.code).last_switch_error)))

-- The same in the terms of the code.
abbrev listed_troubled : RouteHealthMonitor → Instance → Bool
listed_troubled m i =
    is_listed i
    && (is_error i.status
        || (ltb 0 (record_of m i.country.code).consecutive_failures
            || not (is_empty (record_of m i.country.code).last_switch_error)))

abbrev listed_online : Instance → Bool
listed_online i = is_listed i && not (is_error i.status)

abbrev listed_down : Instance → Bool
listed_down i = is_listed i && is_error i.status

-- The states of the code's tests.
shown-lem :
    (t : Status)
    → (is_error t ≡ shows_failed t)
      × ((is_running_status t || (is_switching_status t || is_error t))
          ≡ (shows_online t || shows_failed t))
      × ((shows_online t && shows_failed t) ≡ false)
unfolding is_error is_running_status is_switching_status
shown-lem unset = (refl, refl, refl)
shown-lem stopped = (refl, refl, refl)
shown-lem starting = (refl, refl, refl)
shown-lem connecting = (refl, refl, refl)
shown-lem running = (refl, refl, refl)
shown-lem switching = (refl, refl, refl)
shown-lem draining = (refl, refl, refl)
shown-lem stopping = (refl, refl, refl)
shown-lem error = (refl, refl, refl)

count_if-ext {ℓ} :
    {A : Type ℓ} (p q : A → Bool) (xs : List A)
    → ((x : A) → p x ≡ q x)
    → count_if p xs ≡ count_if q xs
count_if-ext p q [] h = refl
count_if-ext p q (x ∷ xs) h = rw (h x, count_if-ext p q xs h) refl

tally-lem :
    (active : Text) (c : ExitCatalog) (m : RouteHealthMonitor) (is : List Instance) (t : Tally)
    → (let u = tally active c m is t in
        (u.online ≡ t.online + count_if listed_online is)
        × (u.failed ≡ t.failed + count_if listed_down is)
        × (length u.listed ≡ length t.listed + count_if is_listed is)
        × (u.is_degraded ≡ (t.is_degraded || ltb 0 (count_if (listed_troubled m) is))))
unfolding tally tally_one
tally-lem active c m [] t = (omega arith, omega arith, omega arith, ground arith)
tally-lem active c m (i ∷ is) t =
    let (a, b, l, d) = tally-lem active c m is (tally_one active c m i t) in
    let grown =
      length-append t.listed (health_country active c i (record_of m i.country.code) ∷ []) in
    (ground (arith, a), ground (arith, b), ground (arith, l, grown), ground (arith, d))

report-listed :
    (m : RouteHealthMonitor) (s : State) (c : ExitCatalog) (interval now : ℕ)
    → (let r = report m s c interval now in
        (r.online_countries ≡ count_if listed_online s.instances)
        × (r.failed_countries ≡ count_if listed_down s.instances)
        × (length r.countries ≡ count_if is_listed s.instances)
        × (r.status ≡ (
            if ltb 0 (count_if (listed_troubled m) s.instances)
            then degraded
            else if ltb 0 (count_if listed_online s.instances)
            then ok
            else idle)))
unfolding report
report-listed m s c interval now =
    let (a, b, l, d) = tally-lem s.active c m s.instances no_tally in
    (omega (arith, a), omega (arith, b), omega (arith, l), ground (arith, a, d))

listed_online-lem : (i : Instance) → listed_online i ≡ is_online i
unfolding is_listed
listed_online-lem i = ground (arith, shown-lem i.status)

listed_down-lem : (i : Instance) → listed_down i ≡ is_down i
unfolding is_listed
listed_down-lem i = ground (arith, shown-lem i.status)

is_listed-lem : (i : Instance) → is_listed i ≡ is_shown i
unfolding is_listed
is_listed-lem i = ground (arith, shown-lem i.status)

listed_troubled-lem :
    (m : RouteHealthMonitor) (i : Instance) → listed_troubled m i ≡ is_troubled m i
unfolding is_listed
listed_troubled-lem m i = ground (arith, shown-lem i.status)

-- The report counts as online the routes that run or switch and as failed those in error, and lists
-- both; its status is `degraded` if one of them is in error, has failed since its last success or could
-- not be switched, else `ok` if one is online, else `idle`.
pub report-lem :
    (m : RouteHealthMonitor) (s : State) (c : ExitCatalog) (interval now : ℕ)
    → (let r = report m s c interval now in
        (r.online_countries ≡ count_if is_online s.instances)
        × (r.failed_countries ≡ count_if is_down s.instances)
        × (length r.countries ≡ count_if is_shown s.instances)
        × (r.status ≡ (
            if ltb 0 (count_if (is_troubled m) s.instances)
            then degraded
            else if ltb 0 (count_if is_online s.instances)
            then ok
            else idle)))
report-lem m s c interval now =
    let (a, b, l, d) = report-listed m s c interval now in
    let online = count_if-ext listed_online is_online s.instances listed_online-lem in
    let troubled =
      count_if-ext (listed_troubled m) (is_troubled m) s.instances (listed_troubled-lem m) in
    (
      a ∙ online,
      b ∙ count_if-ext listed_down is_down s.instances listed_down-lem,
      l ∙ count_if-ext is_listed is_shown s.instances is_listed-lem,
      rw (sym troubled, sym online) d,
    )
