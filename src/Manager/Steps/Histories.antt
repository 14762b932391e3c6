-- ===== src/Manager/Steps/Histories.antt =====
-- manager.go: what survives the elementary changes survives every event, and every history.
use tor_country_manager.Shared.{
  true, false, List, [], ◌∷◌, ◌≡◌, refl, arith, if_either, Option-cases, inl, inr, Bool,
}
use tor_country_manager.Shared.Text.{Text}
use tor_country_manager.Shared.Assoc.{lookup}
use tor_country_manager.Config.Defs.{normalize_code}
use tor_country_manager.Manager.Defs.{Manager}
use tor_country_manager.Manager.Limits.{begin_shutdown}
use tor_country_manager.Manager.System.{
  Event, starts, activates, stops, cancels, starts_node, limits, connects, disconnects, exits,
  dials, bootstraps, rotates, drains, completes, drains_old, retries_bootstrap, restarts_rotation,
  sets_upstream, sets_rotate_minutes, begins_shutdown, goes_on_shutting_down, releases_ports,
  settles, claims_restart, ends_restart, ensures_country, selects, replaces_node, makes_active,
  step, run,
}
use tor_country_manager.Manager.Calm.{Calm-refl, stop-Calm, drain_round-Calm}
use tor_country_manager.Manager.Calm.Starts.{start-CalmResult, activate-CalmResult}
use tor_country_manager.Manager.Calm.Rounds
use tor_country_manager.Manager.Calm.Replaces
use tor_country_manager.Manager.Calm.Upstreams
use tor_country_manager.Manager.Traffic.{acquire_instance, accepts}
use tor_country_manager.Manager.Steps.{Survives, SurvivesTraffic, KeptResult, activate-Calm}
use tor_country_manager.Manager.Steps.Replacing.{complete_round-Kept, replace_node-KeptResult}
use tor_country_manager.Manager.Steps.Adding.{start_node-KeptResult, ensure_country-KeptResult}

-- The events by which connections come and go.
unfoldable pub is_traffic : Event → Bool
is_traffic (connects code) = true
is_traffic (disconnects p) = true
is_traffic _ = false

module _ {P : Manager → Type 0} (s : Survives P) where
  by_kind :
      (m : Manager) (e : Event) → (is_traffic e ≡ true → P m → P (step m e)) → P m → P (step m e)
  unfolding step is_traffic begin_shutdown
  by_kind m (starts code spawn now) h = s.calm (start-CalmResult m code spawn now).calm
  by_kind m (activates code spawn now) h = s.calm (activate-CalmResult m code spawn now).calm
  by_kind m (stops code) h = s.calm (stop-Calm m code)
  by_kind m (cancels code) h = s.calm (Replaces.cancel_replacement-CalmResult m code).calm
  by_kind m (starts_node node act o) h = λ d. (start_node-KeptResult s m node act o d).kept
  by_kind m (limits limit) h = s.calm (Rounds.update_max_running-Calm m limit)
  by_kind m (connects code) h = h refl
  by_kind m (disconnects q) h = h refl
  by_kind m (dials q cmd expired dialled upstream) h =
      s.calm (Rounds.ready_round-Calm m q cmd expired dialled upstream)
  by_kind m (bootstraps q cmd expired progress exit info) h =
      s.calm (Rounds.bootstrap_round-Calm m q cmd expired progress exit info)
  by_kind m (rotates q r) h = s.calm (Rounds.rotation_round-Calm m q r)
  by_kind m (drains q expired) h = s.calm (drain_round-Calm m q expired)
  by_kind m (completes q r act sequence expired) h =
      complete_round-Kept s m q r act sequence expired
  by_kind m (drains_old old current expired) h =
      s.calm (Replaces.drain_old_round-Calm m old current expired)
  by_kind m (retries_bootstrap q) h = s.calm (Upstreams.retry_bootstrap-Calm m q)
  by_kind m (restarts_rotation q) h = s.calm (Rounds.start_circuit_rotation-Calm m q)
  by_kind m (releases_ports q) h = s.calm (Rounds.release_instance_ports-Calm m q)
  by_kind m (exits q cmd e) h = s.calm (Rounds.watch_exit-CalmResult m q cmd e).calm
  by_kind m (settles q) h = s.calm (Rounds.watch_settle-Calm m q)
  by_kind m (claims_restart q attempt) h = s.calm (Rounds.claim_round-Calm m q attempt)
  by_kind m (ends_restart q failure) h =
      s.calm (Rounds.after_restart-Calm m q (m, failure) (record { calm = Calm-refl m }))
  by_kind m (ensures_country c) h = λ d. (ensure_country-KeptResult s m c d).kept
  by_kind m (selects q node) h = s.calm (Replaces.select-Calm m q node)
  by_kind m (replaces_node q node act o) h =
      λ d. (replace_node-KeptResult s m q node act o.offers o.control_offers o.spawn o.now d).kept
  by_kind m (makes_active code) h = s.calm (activate-Calm m code)
  by_kind m (sets_upstream cfg) h = s.calm (Upstreams.set_upstream-Calm m cfg)
  by_kind m (sets_rotate_minutes n) h = s.calm (Upstreams.set_rotate_minutes-Calm m n)
  by_kind m begins_shutdown h = s.closed m
  by_kind m goes_on_shutting_down h = s.calm (Rounds.shutdown_round-Calm m)

  pub step-quiet : (m : Manager) (e : Event) → is_traffic e ≡ false → P m → P (step m e)
  step-quiet m e h = by_kind m e (λ t. absurd (ground arith))

  module _ (t : SurvivesTraffic P) where
    acquire_instance-KeptResult :
        (m : Manager) (code : Text) → P m → KeptResult P (acquire_instance m code)
    unfolding acquire_instance
    acquire_instance-KeptResult m code l =
        elim (Option-cases (lookup (normalize_code code) m.instances)) [
          | inl e ↦ rw (e, acquire_instance) (record { kept = l })
          | inr (p, e) ↦
              rw (e, acquire_instance)
                (if_either (KeptResult P) (accepts (m.heap p))
                  (record { kept = t.served m (normalize_code code) p e l }) (record { kept = l }))
        ]

    step-traffic : (m : Manager) (e : Event) → is_traffic e ≡ true → P m → P (step m e)
    unfolding step is_traffic
    step-traffic m (connects code) h l = (acquire_instance-KeptResult m code l).kept
    step-traffic m (disconnects p) h l = t.released m p l
    step-traffic m _ h l = absurd (ground arith)

    pub step-Kept : (m : Manager) (e : Event) → P m → P (step m e)
    step-Kept m e = by_kind m e (step-traffic m e)

    pub run-Kept : (m : Manager) (es : List Event) → P m → P (run m es)
    unfolding run
    run-Kept m [] l = l
    run-Kept m (e ∷ es) l = run-Kept (step m e) es (step-Kept m e l)
