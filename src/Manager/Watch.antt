-- ===== src/Manager/Watch.antt =====
-- manager.go: `watch`, which sees a process exit, and the automatic restart.
use tor_country_manager.Shared.{
  ℕ, suc, ◌-◌, ◌^◌, Bool, true, false, List, [], ◌∷◌, ◌++◌, Option, none, some, if◌then◌else◌,
  is_some, is_ref, ltb, leb, not, ◌&&◌, ◌||◌, ◌==◌,
}
use tor_country_manager.Shared.Text.{Text, text, same, is_empty, decimal}
use tor_country_manager.Shared.Int.{ℤ, pos, negsuc, eqb_ℤ}
use tor_country_manager.Shared.Assoc.{lookup}
use tor_country_manager.Manager.Defs.{
  Manager, Instance, stopped, error, ManagerError, unknown_country, is_shutting_down,
  max_running_reached, previous_not_exited, prepare_failed, start_failed, replacement_not_started,
  stopped_before_activation, invalid_country_code, no_ports_remain, invalid_fingerprint,
  not_replaceable, port_unavailable, run_auto_restart, modify, update, go, delete_pointer, is_error,
}

abbrev pub auto_restart_limit : ℕ
auto_restart_limit = 3

unfoldable pub delete_port : ℤ → List ℤ → List ℤ
delete_port a [] = []
delete_port a (b ∷ bs) = let rest = delete_port a bs in if eqb_ℤ b a then rest else b ∷ rest

unfoldable pub release_instance_ports : Manager → ℕ → Manager
unfolding delete_port
release_instance_ports m p =
    let i = m.heap p in
    if not i.dynamic_ports then m else record m {
      reserved_ports = delete_port i.control_port (delete_port i.socks_port m.reserved_ports);
    }

-- `m.instances[instance.Country.Code] == instance`.
unfoldable pub is_current : Manager → ℕ → Bool
is_current m p = is_ref (lookup (m.heap p).country.code m.instances) p

unfoldable pub auto_restart_eligible : Manager → ℕ → Bool
unfolding is_current is_error
auto_restart_eligible m p =
    let i = m.heap p in
    not m.shutting_down
    && (is_current m p
        && (is_error i.status
            && (not (is_some i.cmd)
                && (not i.is_stopping
                    && (not i.is_draining
                        && (not i.replacement
                            && (not (is_some i.pending_replacement)
                                && ltb i.restart_attempts auto_restart_limit)))))))

-- The seconds to wait before an attempt, `time.Second << (attempt - 1)`.
unfoldable pub restart_delay : ℕ → ℕ
restart_delay attempt = 2 ^ (attempt - 1)

unfoldable pub restart_message : Text → ℕ → Text
restart_message reason attempt =
    reason
    ++ text "; automatic restart "
    ++ decimal attempt
    ++ text "/"
    ++ decimal auto_restart_limit
    ++ text " in "
    ++ decimal (restart_delay attempt)
    ++ text "s"

unfoldable pub schedule_auto_restart : Manager → ℕ → Text → Manager × Bool
unfolding auto_restart_eligible
schedule_auto_restart m p reason =
    let attempt = suc (m.heap p).restart_attempts in
    if not (auto_restart_eligible m p) || (m.heap p).restart_scheduled then (m, false) else (
      go (run_auto_restart p attempt (restart_delay attempt)) (
          modify m p (λ i. record i {
            restart_attempts = attempt;
            restart_scheduled = true;
            error_text = restart_message reason attempt;
          })),
      true,
    )

-- The reason that is shown for a process that went down by itself.
unfoldable pub exit_reason : Instance → Option Text → Text
unfolding is_error
exit_reason i exit_error =
    if is_error i.status && not (is_empty i.error_text)
    then i.error_text
    else elim exit_error [ none ↦ text "Tor exited unexpectedly" | some e ↦ e ]

unfoldable pub exited : Instance → Option Text → Instance
unfolding exit_reason
exited i exit_error =
    let reason = exit_reason i exit_error in
    record i {
      cmd = none;
      status = if i.is_stopping then stopped else error;
      error_text = if i.is_stopping then [] else reason;
      is_stopping = false;
    }

-- The first lock of `watch`, and the ports, which are released in any case; the second component
-- says whether the process was that of the instance.
unfoldable pub watch_exit : Manager → ℕ → ℕ → Option Text → Manager × Bool
unfolding exited delete_pointer
watch_exit m p cmd exit_error =
    let m1 = record m {
      heap = update m.heap p (exited (m.heap p) exit_error);
      all_instances = delete_pointer p m.all_instances;
    } in
    if not (is_ref (m.heap p).cmd cmd) then (m, false) else (m1, true)

-- The rest of the second lock of `watch`, where no restart was scheduled.
unfoldable pub give_up : Manager → ℕ → Manager
unfolding is_current
give_up m p =
    let i = m.heap p in
    let m1 =
      if not m.shutting_down && (is_current m p && leb auto_restart_limit i.restart_attempts)
      then modify m p
          (λ i. record i { error_text = i.error_text ++ text "; automatic restart limit reached" })
      else m in
    if is_current m p && (not (is_some i.cmd) && same m.active i.country.code)
    then record m1 { active = [] }
    else m1

unfoldable pub watch_settle : Manager → ℕ → Manager
unfolding schedule_auto_restart give_up
watch_settle m p =
    let (m1, scheduled) = schedule_auto_restart m p (m.heap p).error_text in
    if not (m.heap p).is_draining && scheduled then m1 else give_up m p

unfoldable pub decimal_int : ℤ → Text
decimal_int (pos n) = decimal n
decimal_int (negsuc n) = text "-" ++ decimal (suc n)

-- `err.Error()`.
unfoldable pub message_of : ManagerError → Text
message_of (unknown_country code) = text "unknown country \"" ++ code ++ text "\""
message_of is_shutting_down = text "manager is shutting down"
message_of (max_running_reached limit) =
    text "maximum of " ++ decimal_int limit ++ text " running instances reached"
message_of previous_not_exited = text "previous Tor process has not exited yet"
message_of (prepare_failed e) = e
message_of (start_failed e) = text "start tor: " ++ e
message_of (replacement_not_started e) = text "start replacement tor: " ++ e
message_of stopped_before_activation = text "Tor instance stopped before it could be activated"
message_of (invalid_country_code code) = text "invalid country code \"" ++ code ++ text "\""
message_of no_ports_remain = text "no internal SOCKS ports remain"
message_of invalid_fingerprint = text "invalid Tor relay fingerprint"
message_of not_replaceable = text "current Tor instance is no longer available for replacement"
message_of (port_unavailable e) = e

-- No further restart follows.
unfoldable pub restart_over : Manager → ℕ → Text → Manager
restart_over m p reason =
    let m1 = modify m p (λ i. record i {
      error_text =
          reason
          ++ text "; automatic restart limit reached after "
          ++ decimal i.restart_attempts
          ++ text " attempts";
    }) in
    if same m.active (m.heap p).country.code then record m1 { active = [] } else m1

unfoldable pub restart_failed : Manager → ℕ → Text → Manager
unfolding schedule_auto_restart restart_over
restart_failed m p reason =
    let (m1, scheduled) = schedule_auto_restart m p reason in
    if scheduled then m1 else restart_over m p reason

unfoldable pub after_restart : ℕ → Manager × Option ManagerError → Manager
unfolding restart_failed
after_restart p (m, none) = m
after_restart p (m, some e) = restart_failed m p (text "automatic restart failed: " ++ message_of e)

unfoldable pub claim_restart : Manager → ℕ → Manager
claim_restart m p = modify m p (λ i. record i { restart_scheduled = false })

-- The first lock of `runAutoRestart` once its timer has fired: whether the attempt is still wanted.
unfoldable pub is_claimed : Manager → ℕ → ℕ → Bool
unfolding auto_restart_eligible
is_claimed m p attempt =
    (m.heap p).restart_scheduled
    && ((m.heap p).restart_attempts == attempt && auto_restart_eligible m p)

unfoldable pub claim_round : Manager → ℕ → ℕ → Manager
unfolding is_claimed claim_restart
claim_round m p attempt = if is_claimed m p attempt then claim_restart m p else m
