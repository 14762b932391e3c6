-- ===== src/Health/Round.antt =====
-- health.go: one round of checks, `runOnce`, and what a check asks. The results are applied in the order
-- of the instances; the code takes them in the order in which the checks end.
use tor_country_manager.Shared.{
  ℕ, suc, Bool, true, false, ◌&&◌, ◌||◌, not, List, [], ◌∷◌, ◌++◌, ◌⊎◌, inl, inr, Option, none,
  some, ltb, ◌==◌, if◌then◌else◌, keep, length,
}
use tor_country_manager.Shared.Text.{Text, text, same, decimal}
use tor_country_manager.Shared.Int.{ℤ, eqb_ℤ}
use tor_country_manager.Manager.Defs.{Manager, Instance, is_running_status}
use tor_country_manager.Manager.Nodes.{State, instance_copy}
use tor_country_manager.Health.Monitor.{
  RouteHealthMonitor, RouteProbeResult, Answers, apply_probe_result,
}

-- What a web service answers: nothing, a status, or, under the status 200, a body that is not
-- understood, or an address and, from the first service, whether it is one of Tor.
pub data WebAnswer : Type 0 where
  no_answer : (error : Text) → WebAnswer
  http_status : ℕ → WebAnswer
  not_understood : (error : Text) → WebAnswer
  address : (ip : Text) (is_tor : Bool) → WebAnswer

module _ (is_ip : Text → Bool) where
  unfoldable probe_tor_project : WebAnswer → Text ⊎ Text
  unfolding text
  probe_tor_project (no_answer e) = inl e
  probe_tor_project (http_status n) = inl (text "Tor check returned HTTP " ++ decimal n)
  probe_tor_project (not_understood e) = inl e
  probe_tor_project (address ip is_tor) =
      if not is_tor || not (is_ip ip)
      then inl (text "Tor check did not confirm the route")
      else inr ip

  unfoldable probe_ipify : WebAnswer → Text ⊎ Text
  unfolding text
  probe_ipify (no_answer e) = inl e
  probe_ipify (http_status n) = inl (text "fallback check returned HTTP " ++ decimal n)
  probe_ipify (not_understood e) = inl e
  probe_ipify (address ip is_tor) =
      if not (is_ip ip) then inl (text "fallback check returned an invalid IP") else inr ip

  unfoldable fallback_result : Text ⊎ Text → ℤ → Text ⊎ (Text × ℤ)
  unfolding text
  fallback_result (inl e) latency = inl (text "Tor route check failed: " ++ e)
  fallback_result (inr ip) latency = inr (ip, latency)

  unfoldable tor_result : Text ⊎ Text → ℤ → WebAnswer → ℤ → Text ⊎ (Text × ℤ)
  unfolding probe_ipify fallback_result
  tor_result (inr ip) latency fallback fallback_latency = inr (ip, latency)
  tor_result (inl e) latency fallback fallback_latency =
      fallback_result (probe_ipify fallback) fallback_latency

  -- `probeTorRoute` on the two answers and the times that they took.
  unfoldable pub probe_tor_route : WebAnswer → ℤ → WebAnswer → ℤ → Text ⊎ (Text × ℤ)
  unfolding probe_tor_project tor_result
  probe_tor_route tor latency fallback fallback_latency =
      tor_result (probe_tor_project tor) latency fallback fallback_latency

-- Whether the route is still the one that was checked.
unfoldable is_same_route : Instance → Option Instance → Bool
is_same_route i none = false
is_same_route i (some current) =
    is_running_status current.status
    && (eqb_ℤ current.socks_port i.socks_port && same current.exit_fingerprint i.exit_fingerprint)

-- The end of a check: its outcome, and the manager then.
pub record Ended : Type 0 where
  pub outcome : Text ⊎ (Text × ℤ)
  pub manager : Manager

unfoldable pub probe_instance : Instance → (active : Bool) → Ended → Option RouteProbeResult
unfolding is_same_route
probe_instance i active e =
    if is_same_route i (instance_copy e.manager i.country.code)
    then some (record { probed = i; active = active; outcome = e.outcome })
    else none

unfoldable collect : Text → (Instance → Ended) → List Instance → List RouteProbeResult
unfolding probe_instance
collect active ends [] = []
collect active ends (i ∷ is) =
    let rest = collect active ends is in
    elim (probe_instance i (same active i.country.code) (ends i)) [
      | none ↦ rest
      | some r ↦ r ∷ rest
    ]

abbrev pub has_succeeded : RouteProbeResult → Bool
has_succeeded r = elim r.outcome [ inl e ↦ false | inr s ↦ true ]

-- The results are applied in turn; the n-th meets the answers `answers n` at the time `times n`.
unfoldable pub apply_results :
    RouteHealthMonitor
    → (allow_switch : Bool) → (answers : ℕ → Answers) → (times : ℕ → ℕ) → ℕ
    → List RouteProbeResult
    → RouteHealthMonitor
unfolding apply_probe_result
apply_results m allow_switch answers times n [] = m
apply_results m allow_switch answers times n (r ∷ rs) =
    apply_results (apply_probe_result m r allow_switch (answers n) (times n)) allow_switch answers
      times (suc n) rs

unfoldable pub is_global_failure : List RouteProbeResult → Bool
is_global_failure rs = ltb 1 (length rs) && length (keep has_succeeded rs) == 0

unfoldable pub checked_routes : State → (Instance → Ended) → List RouteProbeResult
unfolding collect
checked_routes s ends =
    collect s.active ends (keep (λ (i : Instance). is_running_status i.status) s.instances)

unfoldable pub run_once :
    RouteHealthMonitor
    → State
    → (ends : Instance → Ended) → (answers : ℕ → Answers) → (times : ℕ → ℕ) → RouteHealthMonitor
unfolding apply_results is_global_failure checked_routes
run_once m s ends answers times =
    let results = checked_routes s ends in
    let failure = is_global_failure results in
    apply_results (record m { global_failure = failure }) (not failure) answers times 0 results
