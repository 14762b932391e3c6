-- ===== src/Manager/Applied.antt =====
-- manager.go: what `UpdateUpstream` leaves when a Tor process refuses the change.
use tor_country_manager.Shared.{
  ℕ, suc, Bool, true, false, not, ◌&&◌, if◌then◌else◌, List, [], ◌∷◌, Option, none, some, ◌≡◌, ◌⊎◌,
  inl, inr,
}
use tor_country_manager.Config.Defs.{Config}
use tor_country_manager.Manager.Defs.{Manager, Instance, Status, connecting, running, error}
use tor_country_manager.Shared.Text.{Text, text, is_empty, has_prefix}
use tor_country_manager.Shared.Int.{pos, eqb_ℤ}
use tor_country_manager.Manager.Control.{Exchange, ControlError, answered}
use tor_country_manager.Manager.Upstream.{
  UpstreamError, Exchanges, upstream_commands, retry_bootstrap, set_upstream,
}

-- The instances that a change of the proxy is about: those that run, connect or are in error, with a live
-- process, and are neither being stopped nor drained.
abbrev is_served : Status → Bool
is_served running = true
is_served connecting = true
is_served error = true
is_served _ = false

abbrev has_process : Option ℕ → Bool
has_process none = false
has_process (some cmd) = true

abbrev is_target : Instance → Bool
is_target i = is_served i.status && (has_process i.cmd && (not i.is_stopping && not i.is_draining))

abbrev pub targets_of : Manager → List (Text × ℕ) → List ℕ
targets_of m [] = []
targets_of m ((code, p) ∷ rest) =
    let others = targets_of m rest in if is_target (m.heap p) then p ∷ others else others

-- The instance has a control port and a directory, and its process answers to the authentication with a
-- code of success and then to the command, with `response`.
abbrev Replies : Instance → Exchange → Text → Type 0
Replies i (answered first second) response =
    (eqb_ℤ i.control_port (pos 0) ≡ false)
    × (is_empty i.data_dir ≡ false)
    × (has_prefix first (text "250") ≡ true)
    × (second ≡ response)
Replies i _ response = ⊥

-- Each command is answered with a code of success, from the n-th exchange on.
abbrev AllSucceed : Instance → (ℕ → Exchange) → ℕ → List Text → Type 0
AllSucceed i xs n [] = Unit
AllSucceed i xs n (c ∷ cs) =
    ((response : Text) × Replies i (xs n) response × (has_prefix response (text "250") ≡ true))
    × AllSucceed i xs (suc n) cs

-- The process takes the commands and answers to the change of its circuit.
abbrev Takes : Config → Exchanges → Instance → Type 0
Takes cfg x i =
    AllSucceed i x.commands 0 (upstream_commands cfg)
    × ((response : Text) × Replies i x.signal response)

-- Every instance of the list takes the change, each as it is when its turn comes.
abbrev AllTake : Config → (ℕ → Exchanges) → Manager → List ℕ → Type 0
AllTake cfg xs m [] = Unit
AllTake cfg xs m (p ∷ ps) = Takes cfg (xs p) (m.heap p) × AllTake cfg xs (retry_bootstrap m p) ps

-- What an exchange comes to: no reply, or this one.
abbrev Replied : Instance → Exchange → ControlError ⊎ Text → Type 0
Replied i x (inl e) = (response : Text) → Replies i x response → ⊥
Replied i x (inr r) = Replies i x r

-- No error exactly if this holds.
abbrev Answered : Type 0 → Option UpstreamError → Type 0
Answered A none = A
Answered A (some e) = A → ⊥

-- What a change of the proxy leaves, with the error or without: the configuration is set exactly if
-- every target took the change.
abbrev pub Applied :
    Manager → Config → (ℕ → Exchanges) → List ℕ → Manager × Option (ℕ × UpstreamError) → Type 0
Applied m cfg xs targets (n, some e) = (n.cfg ≡ m.cfg) × (AllTake cfg xs m targets → ⊥)
Applied m cfg xs targets (n, none) = (n.cfg ≡ (set_upstream m cfg).cfg) × AllTake cfg xs m targets

-- The same of the loop, which does not set it yet.
abbrev Looped :
    Manager → Config → (ℕ → Exchanges) → List ℕ → Manager × Option (ℕ × UpstreamError) → Type 0
Looped m cfg xs targets (n, some e) = (n.cfg ≡ m.cfg) × (AllTake cfg xs m targets → ⊥)
Looped m cfg xs targets (n, none) = (n.cfg ≡ m.cfg) × AllTake cfg xs m targets
