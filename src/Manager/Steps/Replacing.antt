-- ===== src/Manager/Steps/Replacing.antt =====
-- manager.go: what survives the elementary changes survives a replacement, from its request to the
-- takeover.
use tor_country_manager.Shared.{
  ℕ, Bool, false, ◌≡◌, ◌∙◌, arith, ◌==◌, ◌&&◌, not, Option-cases, inl, inr, if_either, if_cases,
  is_ref,
}
use tor_country_manager.Shared.Int.{ℤ}
use tor_country_manager.Manager.Defs.{Manager, Spawn, is_running_status}
use tor_country_manager.Manager.Watch.{is_current}
use tor_country_manager.Manager.Replace.{
  NodeChoice, Offer, is_replaceable, replace_with_ports, replace_with_port, replace_node,
  reserve_local_port, complete_round,
}
use tor_country_manager.Manager.Calm.{
  Calm-trans, go-Calm, stop_pending-Calm, stop_instance-Calm, remember_instance-Calm,
}
use tor_country_manager.Manager.Calm.Replaces
use tor_country_manager.Manager.Steps.{Survives, KeptResult}

module _ {P : Manager → Type 0} (s : Survives P) where
  replace_with_ports-KeptResult :
      (m : Manager) (q : ℕ) (node : NodeChoice) (activate : Bool) (port control : ℤ) (spawn : Spawn)
      (now : ℕ)
      → m.shutting_down ≡ false
      → P m
      → KeptResult P (replace_with_ports m q node activate port control spawn now)
  unfolding replace_with_ports
  replace_with_ports-KeptResult m q node activate port control spawn now on l =
      if_cases (KeptResult P) (not (is_replaceable m q))
        (λ _. record {
          kept =
              s.calm
                (Calm-trans (Replaces.release_reserved_port-Calm m port)
                  (Replaces.release_reserved_port-Calm _ control))
                l;
        })
        (λ h. record {
          kept =
              s.calm
                (Replaces.finish_replace-CalmResult _ q _ activate _ _ (record {
                  calm =
                      Calm-trans (stop_pending-Calm _ _)
                        (Replaces.start_detached-CalmResult _ _ _ spawn now
                          ((stop_pending-Calm _ _).same_shutdown ∙ on)).calm;
                })).calm
                (s.opened m q node port control (ground arith) on l);
        })

  replace_with_port-KeptResult :
      (m : Manager) (q : ℕ) (node : NodeChoice) (activate : Bool) (port : ℤ) (offers : ℕ → Offer)
      (spawn : Spawn) (now : ℕ)
      → m.shutting_down ≡ false
      → P m
      → KeptResult P (replace_with_port m q node activate port offers spawn now)
  unfolding replace_with_port
  replace_with_port-KeptResult m q node activate port offers spawn now on l =
      let (n, answer) = reserve_local_port m offers in
      let kept : P n = s.calm (Replaces.reserve_local_port-CalmResult m offers).calm l in
      elim (Option-cases answer.0) [
        | inl e ↦
            rw (e, replace_with_port)
              (record { kept = s.calm (Replaces.release_reserved_port-Calm n port) kept })
        | inr (control, e) ↦
            rw (e, replace_with_port)
              (replace_with_ports-KeptResult n q node activate port control spawn now
                ((Replaces.reserve_local_port-CalmResult m offers).calm.same_shutdown ∙ on) kept)
      ]

  pub replace_node-KeptResult :
      (m : Manager) (q : ℕ) (node : NodeChoice) (activate : Bool)
      (offers control_offers : ℕ → Offer) (spawn : Spawn) (now : ℕ)
      → P m
      → KeptResult P (replace_node m q node activate offers control_offers spawn now)
  unfolding replace_node
  replace_node-KeptResult m q node activate offers control_offers spawn now l =
      let (n, answer) = reserve_local_port m offers in
      let kept : P n = s.calm (Replaces.reserve_local_port-CalmResult m offers).calm l in
      if_cases (KeptResult P) m.shutting_down (λ down. record { kept = l })
        (λ on. elim (Option-cases answer.0) [
          | inl e ↦ rw e (record { kept = kept })
          | inr (port, e) ↦ rw e (
              replace_with_port-KeptResult n q node activate port control_offers spawn now
                ((Replaces.reserve_local_port-CalmResult m offers).calm.same_shutdown ∙ on) kept)
        ])

  pub complete_round-Kept :
      (m : Manager) (q r : ℕ) (activate : Bool) (sequence : ℕ) (expired : Bool)
      → P m
      → P (complete_round m q r activate sequence expired)
  unfolding complete_round
  complete_round-Kept m q r activate sequence expired l =
      let failed = s.calm (Replaces.give_up_replacement-Calm m q r sequence) l in
      let dropped = s.calm (stop_instance-Calm m r) l in
      if_either P expired failed (
        if_cases P
          (not (
            ((m.heap q).replacement_sequence == sequence)
            && is_ref (m.heap q).pending_replacement r))
          (λ _. dropped)
          λ pending.
            if_either P (is_running_status (m.heap r).status)
              (if_cases P (not (is_current m q)) (λ _. dropped)
                (λ current.
                  s.calm (go-Calm _ (remember_instance-Calm _ r))
                    (s.handed m q r activate (ground arith) (ground arith) l)))
              (s.calm (Replaces.wait_on-Calm (m.heap r).status m q r activate sequence) l))
