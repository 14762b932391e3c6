-- ===== src/Manager/Upstream.antt =====
-- manager.go: `UpdateUpstream`, `applyUpstream`, `RestartRotations`, `UpdateCircuitRotateMinutes` and
-- `InstanceLogPath`. The n-th exchange of an instance with the control port is an argument.
use tor_country_manager.Shared.{
  ℕ, suc, Bool, ◌&&◌, ◌||◌, not, List, [], ◌∷◌, ◌++◌, Option, none, some, ◌⊎◌, inl, inr,
  if◌then◌else◌, is_some,
}
use tor_country_manager.Shared.Text.{Text, text, is_empty, has_prefix, trim_space}
use tor_country_manager.Shared.Int.{ℤ}
use tor_country_manager.Shared.Assoc.{lookup}
use tor_country_manager.Config.Defs.{Config, normalize_code}
use tor_country_manager.Manager.Defs.{
  Manager, Instance, connecting, await_bootstrap, modify, go, is_running_status,
  is_connecting_status, is_error,
}
use tor_country_manager.Manager.Ready.{start_circuit_rotation}
use tor_country_manager.Manager.Control.{control_value, control_command, Exchange, ControlError}

pub data UpstreamError : Type 0 where
  no_control : ControlError → UpstreamError
  refused : Text → UpstreamError
  -- the circuit of the instance is not rotated
  not_rotated : ControlError → UpstreamError

unfoldable setconf : Config → Text
unfolding text
setconf cfg =
    text "SETCONF Socks5Proxy="
    ++ (control_value cfg.upstream_socks5
        ++ (if not (is_empty cfg.upstream_username)
            then text " Socks5ProxyUsername="
              ++ (control_value cfg.upstream_username
                  ++ (text " Socks5ProxyPassword=" ++ control_value cfg.upstream_password))
            else []))

-- The commands of `applyUpstream`, in their order.
unfoldable pub upstream_commands : Config → List Text
unfolding setconf text
upstream_commands cfg =
    if is_empty cfg.upstream_socks5
    then text "RESETCONF Socks5Proxy Socks5ProxyUsername Socks5ProxyPassword" ∷ []
    else if is_empty cfg.upstream_username
    then text "RESETCONF Socks5ProxyUsername Socks5ProxyPassword" ∷ setconf cfg ∷ []
    else setconf cfg ∷ []

unfoldable pub judge_response : ControlError ⊎ Text → Option UpstreamError
unfolding text
judge_response (inl e) = some (no_control e)
judge_response (inr response) =
    if not (has_prefix response (text "250")) then some (refused (trim_space response)) else none

-- The commands from the n-th on: the first error, or `none`.
unfoldable pub send_commands : Instance → (ℕ → Exchange) → ℕ → List Text → Option UpstreamError
unfolding judge_response control_command
send_commands i xs n [] = none
send_commands i xs n (c ∷ cs) =
    let rest = send_commands i xs (suc n) cs in
    elim (judge_response (control_command i (xs n))) [ some e ↦ some e | none ↦ rest ]

-- `SIGNAL NEWNYM`, of which only a failure of the exchange counts.
unfoldable pub rotate_circuit : Instance → Exchange → Option UpstreamError
unfolding control_command
rotate_circuit i x = elim (control_command i x) [ inl e ↦ some (not_rotated e) | inr r ↦ none ]

unfoldable pub apply_upstream : Instance → Config → (ℕ → Exchange) → Option UpstreamError
unfolding send_commands upstream_commands
apply_upstream i cfg xs = send_commands i xs 0 (upstream_commands cfg)

-- What the loop does to one instance on the network; the `SIGNAL NEWNYM` is the last exchange.
unfoldable pub reconfigure : Instance → Config → (ℕ → Exchange) → Exchange → Option UpstreamError
unfolding apply_upstream rotate_circuit
reconfigure i cfg xs signal = elim (apply_upstream i cfg xs) [
  | some e ↦ some e
  | none ↦ rotate_circuit i signal
]

unfoldable wait_for_bootstrap : Manager → ℕ → Option ℕ → Manager
wait_for_bootstrap m p none = m
wait_for_bootstrap m p (some cmd) =
    go (await_bootstrap p cmd) (modify m p (λ i. record i { status = connecting; error_text = [] }))

-- An instance in error whose process lives waits for its bootstrap again.
unfoldable pub retry_bootstrap : Manager → ℕ → Manager
unfolding wait_for_bootstrap is_error
retry_bootstrap m p =
    if is_error (m.heap p).status then wait_for_bootstrap m p (m.heap p).cmd else m

unfoldable pub takes_upstream : Instance → Bool
takes_upstream i =
    (is_running_status i.status || (is_connecting_status i.status || is_error i.status))
    && (is_some i.cmd && (not i.is_stopping && not i.is_draining))

unfoldable pub upstream_targets : (ℕ → Instance) → List (Text × ℕ) → List ℕ
unfolding takes_upstream
upstream_targets heap [] = []
upstream_targets heap ((k, p) ∷ rest) =
    let others = upstream_targets heap rest in
    if takes_upstream (heap p) then p ∷ others else others

-- What one instance's exchanges are.
pub record Exchanges : Type 0 where
  pub commands : ℕ → Exchange
  pub signal : Exchange

-- The error of one instance ends the loop.
unfoldable pub or_refusal :
    Manager
    → ℕ
    → Option UpstreamError
    → Manager × Option (ℕ × UpstreamError)
    → Manager × Option (ℕ × UpstreamError)
or_refusal m p (some e) rest = (m, some (p, e))
or_refusal m p none rest = rest

-- The loop over the instances, up to the first error, with the instance that it is about.
unfoldable pub upstream_loop :
    Manager → Config → (ℕ → Exchanges) → List ℕ → Manager × Option (ℕ × UpstreamError)
unfolding reconfigure retry_bootstrap or_refusal
upstream_loop m cfg xs [] = (m, none)
upstream_loop m cfg xs (p ∷ ps) =
    let rest = upstream_loop (retry_bootstrap m p) cfg xs ps in
    or_refusal m p (reconfigure (m.heap p) cfg (xs p).commands (xs p).signal) rest

unfoldable pub set_upstream : Manager → Config → Manager
set_upstream m cfg = record m {
  cfg = record m.cfg {
    upstream_socks5 = cfg.upstream_socks5;
    upstream_username = cfg.upstream_username;
    upstream_password = cfg.upstream_password;
  };
}

unfoldable pub upstream_done :
    Config → Manager × Option (ℕ × UpstreamError) → Manager × Option (ℕ × UpstreamError)
unfolding set_upstream
upstream_done cfg (m, some e) = (m, some e)
upstream_done cfg (m, none) = (set_upstream m cfg, none)

unfoldable pub change_upstream :
    Manager → Config → (ℕ → Exchanges) → Manager × Option (ℕ × UpstreamError)
unfolding upstream_done upstream_loop upstream_targets
change_upstream m cfg xs =
    upstream_done cfg (upstream_loop m cfg xs (upstream_targets m.heap m.instances))

unfoldable restart_all : Manager → List ℕ → Manager
restart_all m [] = m
restart_all m (p ∷ ps) = restart_all (start_circuit_rotation m p) ps

unfoldable running_instances : (ℕ → Instance) → List (Text × ℕ) → List ℕ
running_instances heap [] = []
running_instances heap ((k, p) ∷ rest) =
    let others = running_instances heap rest in
    if is_running_status (heap p).status then p ∷ others else others

unfoldable pub restart_rotations : Manager → Manager
unfolding restart_all running_instances
restart_rotations m = restart_all m (running_instances m.heap m.instances)

unfoldable pub set_rotate_minutes : Manager → ℤ → Manager
set_rotate_minutes m minutes = record m { cfg = record m.cfg { circuit_rotate_minutes = minutes } }

unfoldable pub update_circuit_rotate_minutes : Manager → ℤ → Manager
unfolding restart_rotations set_rotate_minutes
update_circuit_rotate_minutes m minutes = restart_rotations (set_rotate_minutes m minutes)

unfoldable log_of : (log_path : Text → Text) → Instance → Option Text
log_of log_path i = if is_empty i.data_dir then none else some (log_path i.data_dir)

-- `log_path` is the file `logs/tor.log` beside the data directory, by `filepath`.
unfoldable pub instance_log_path : Manager → (log_path : Text → Text) → Text → Option Text
unfolding log_of
instance_log_path m log_path code = elim (lookup (normalize_code code) m.instances) [
  | none ↦ none
  | some p ↦ log_of log_path (m.heap p)
]
