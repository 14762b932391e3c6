-- ===== src/Manager/Ready.antt =====
-- manager.go: `awaitReady`, `awaitBootstrap`, `markInstanceRunning`, the circuit rotation and what is
-- looked up of an exit. A polling loop is one round, which starts itself again where the source
-- sleeps; what the network answers, and whether the deadline has passed, are arguments.
use tor_country_manager.Shared.{
  ℕ, suc, Bool, true, false, [], ◌∷◌, ◌++◌, Option, none, some, if◌then◌else◌, is_ref, ltb, not,
  ◌&&◌, ◌||◌,
}
use tor_country_manager.Shared.Text.{Text, text, same}
use tor_country_manager.Shared.Int.{pos, leb_ℤ}
use tor_country_manager.Manager.Defs.{
  Manager, connecting, running, modify, go, has_pointer, await_ready, await_bootstrap, rotate,
  is_starting_status, is_connecting_status, is_running_status,
}
use tor_country_manager.Manager.Stop.{fail_instance, cancel_rotation_of}

pub record ExitInfo : Type 0 where
  pub asn : Text
  pub org : Text
  pub country_name : Text
  pub country_code : Text
  pub city : Text

unfoldable pub mark_instance_running : Manager → ℕ → ℕ → Text → Manager × Bool
unfolding is_connecting_status
mark_instance_running m p cmd exit_ip =
    let i = m.heap p in
    if not (is_ref i.cmd cmd) || not (is_connecting_status i.status) then (m, false) else (
      modify m p (λ i. record i {
        exit_ip = exit_ip;
        status = running;
        bootstrap_progress = 100;
        error_text = [];
        restart_attempts = 0;
        restart_scheduled = false;
      }),
      true,
    )

-- A running rotation is cancelled before the next one starts.
unfoldable pub start_circuit_rotation : Manager → ℕ → Manager
unfolding cancel_rotation_of
start_circuit_rotation m p =
    let m1 = cancel_rotation_of m p in
    let r = m1.next_rotation in
    if leb_ℤ m.cfg.circuit_rotate_minutes (pos 0)
    then m
    else go (rotate p r) (
        modify (record m1 { next_rotation = suc r }) p (λ i. record i { cancel_rotation = some r }))

-- A tick of the rotation's goroutine; `SIGNAL NEWNYM` changes nothing here.
unfoldable pub rotation_round : Manager → ℕ → ℕ → Manager
unfolding is_running_status has_pointer
rotation_round m p r =
    if has_pointer r m.cancelled
    then m
    else if not (is_running_status (m.heap p).status)
    then record m { cancelled = r ∷ m.cancelled }
    else go (rotate p r) m

unfoldable pub lookup_exit_info : Manager → ℕ → Text → Option ExitInfo → Manager
lookup_exit_info m p ip none = m
lookup_exit_info m p ip (some info) = modify m p (λ i.
    if same i.exit_ip ip
    then record i {
      exit_isp = info.org;
      exit_asn = info.asn;
      exit_country = info.country_name;
      exit_country_code = info.country_code;
      exit_city = info.city;
    }
    else i)

-- `exit` is the address that one of the two services confirmed.
unfoldable pub refresh_exit_ip : Manager → ℕ → ℕ → Option Text → Option ExitInfo → Manager × Bool
unfolding mark_instance_running start_circuit_rotation lookup_exit_info
refresh_exit_ip m p cmd none info = (m, false)
refresh_exit_ip m p cmd (some ip) info =
    let (m1, marked) = mark_instance_running m p cmd ip in
    if marked then (lookup_exit_info (start_circuit_rotation m1 p) p ip info, true) else (m1, false)

unfoldable pub refresh_bootstrap_progress : Manager → ℕ → Option ℕ → Manager
refresh_bootstrap_progress m p none = m
refresh_bootstrap_progress m p (some progress) = modify m p (λ i.
    if ltb i.bootstrap_progress progress then record i { bootstrap_progress = progress } else i)

unfoldable pub bootstrap_round :
    Manager → ℕ → ℕ → (expired : Bool) → Option ℕ → Option Text → Option ExitInfo → Manager
unfolding refresh_exit_ip refresh_bootstrap_progress fail_instance
bootstrap_round m p cmd expired progress exit info =
    let i = m.heap p in
    let (m1, done) = refresh_exit_ip (refresh_bootstrap_progress m p progress) p cmd exit info in
    if expired
    then fail_instance m p cmd
        (text "Tor did not obtain a working exit within 3 minutes; the network may block Tor")
    else if not (is_ref i.cmd cmd && is_connecting_status i.status)
    then m
    else if done
    then m1
    else go (await_bootstrap p cmd) m1

-- `dialled` says whether the SOCKS port answers, `upstream` is the error of `applyUpstream`.
unfoldable pub ready_round : Manager → ℕ → ℕ → (expired dialled : Bool) → Option Text → Manager
unfolding fail_instance is_starting_status
ready_round m p cmd true dialled upstream =
    fail_instance m p cmd (text "Tor did not open its SOCKS port within 90 seconds")
ready_round m p cmd false false upstream = go (await_ready p cmd) m
ready_round m p cmd false true upstream =
    let i = m.heap p in
    let m1 = modify m p (λ i. record i { status = connecting }) in
    if not (is_ref i.cmd cmd) || not (is_starting_status i.status) then m else elim upstream [
      | none ↦ go (await_bootstrap p cmd) m1
      | some e ↦ fail_instance m1 p cmd (text "apply upstream proxy: " ++ e)
    ]
