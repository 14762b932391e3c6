-- ===== src/Server/Connections.antt =====
-- client_routes.go: when the bytes of a client reach a Tor process.
use tor_country_manager.Shared.{
  ℕ, suc, Bool, true, false, [], ◌∷◌, Option, none, some, if◌then◌else◌, ◌==◌, ◌≡◌, refl, sym,
  subst, arith, if_cases, Bool-cases, Option-cases, inl, inr,
}
use tor_country_manager.Shared.Text.{Text}
use tor_country_manager.Shared.Assoc.{lookup}
use tor_country_manager.Config.Defs.{normalize_code}
use tor_country_manager.Manager.Defs.{Manager, modify}
use tor_country_manager.Manager.Traffic.{accepts, acquire_instance, release_instance}
use tor_country_manager.Socks.Negotiate.{negotiate_client_auth, choose_method}
use tor_country_manager.Socks.Stream.{read_full}
use tor_country_manager.Socks.Handshake.{Authenticates, negotiate_client_auth_iff}
use tor_country_manager.Server.Proxies.{
  TorAnswer, Forwarded, accepts_greeting, forward_acquired, forward_country,
}

-- The connections that are counted, where nothing was opened.
abbrev Uncounted : Manager → Manager → Type 0
Uncounted m n = (q : ℕ) → (n.heap q).active_connections ≡ (m.heap q).active_connections

-- One more connection is counted at this instance, and none elsewhere.
abbrev Counted : ℕ → Manager → Manager → Type 0
Counted p m n =
    (q : ℕ)
    → (n.heap q).active_connections
      ≡ (if p == q then suc (m.heap q).active_connections else (m.heap q).active_connections)

-- What became of a connection: without a tunnel nothing is counted; with one, the client has shown the
-- country's name and the key, and the tunnel goes to the country's instance, which takes connections.
abbrev pub Connected : Manager → (key code input : Text) → Forwarded → Option ℕ → Type 0
Connected m key code input f none = Uncounted m f.manager
Connected m key code input f (some p) =
    Authenticates code key input
    × (lookup (normalize_code code) m.instances ≡ some p)
    × (accepts (m.heap p) ≡ true)
    × Counted p m f.manager

-- What `acquireInstance` gives.
abbrev Acquired : Manager → Text → Manager × Option ℕ → Type 0
Acquired m code (n, none) = n ≡ m
Acquired m code (n, some p) =
    (lookup (normalize_code code) m.instances ≡ some p)
    × (accepts (m.heap p) ≡ true)
    × Counted p m n

acquire_instance-none :
    (m : Manager) (code : Text)
    → lookup (normalize_code code) m.instances ≡ none
    → acquire_instance m code ≡ (m, none)
unfolding acquire_instance
acquire_instance-none m code e = rw (e, acquire_instance) refl

acquire_instance-some :
    (m : Manager) (code : Text) (p : ℕ)
    → lookup (normalize_code code) m.instances ≡ some p
    → acquire_instance m code ≡ (
        if accepts (m.heap p)
        then (modify m p (λ i. record i { active_connections = suc i.active_connections }), some p)
        else (m, none))
unfolding acquire_instance
acquire_instance-some m code p e = rw (e, acquire_instance) refl

acquire_instance-Acquired : (m : Manager) (code : Text) → Acquired m code (acquire_instance m code)
acquire_instance-Acquired m code = elim (Option-cases (lookup (normalize_code code) m.instances)) [
  | inl e ↦ subst (Acquired m code) (sym (acquire_instance-none m code e)) refl
  | inr (p, e) ↦
      subst (Acquired m code) (sym (acquire_instance-some m code p e)) (
        if_cases (Acquired m code) (accepts (m.heap p)) (λ y. (e, y, λ q. ground arith))
          (λ n. refl))
]

-- A release undoes what was counted.
release-Uncounted : (m n : Manager) (p : ℕ) → Counted p m n → Uncounted m (release_instance n p)
unfolding release_instance
release-Uncounted m n p c = λ q. let here = c p in let there = c q in ground (arith, here, there)

forward_acquired-Connected :
    (m : Manager) (key code input written : Text) (r : Manager × Option ℕ) (tor : TorAnswer)
    (confirms : Bool)
    → Authenticates code key input
    → Acquired m code r
    → (let f = forward_acquired written r tor confirms in Connected m key code input f f.tunnel)
unfolding forward_acquired
forward_acquired-Connected m key code input written (n, none) tor confirms k a = λ q. rw a refl
forward_acquired-Connected m key code input written (n, some p) tor confirms k (l, t, c) =
    elim (Bool-cases (accepts_greeting tor)) [
      | inr e ↦ rw e (release-Uncounted m n p c)
      | inl e ↦ elim (Bool-cases confirms) [
        | inl y ↦ rw (e, y) (k, l, t, c)
        | inr y ↦ rw (e, y) (release-Uncounted m n p c)
      ]
    ]

-- Where the answer to the client's methods cannot be written, the client is refused.
unsent-refused :
    (code key input : Text) → (negotiate_client_auth false code key input).accepted ≡ false
unfolding negotiate_client_auth choose_method
unsent-refused code key [] = refl
unsent-refused code key (v ∷ []) = refl
unsent-refused code key (v ∷ n ∷ rest) = elim (Option-cases (read_full n rest)) [
  | inl e ↦ rw e (ground arith)
  | inr ((methods, later), e) ↦ rw e (ground arith)
]

accepted-Authenticates :
    (code key : Text) (sends : Bool) (input : Text)
    → (negotiate_client_auth sends code key input).accepted ≡ true
    → Authenticates code key input
accepted-Authenticates code key true input h = (negotiate_client_auth_iff code key input).0 h
accepted-Authenticates code key false input h = let refused = unsent-refused code key input in cc

-- Bytes of a client of a country's proxy reach a Tor process only if it has sent the name of that country
-- and the clients' key, and only the process of that country, which takes connections then and counts
-- this one; a connection that is turned away at any point leaves all counters as they were. This
-- whether or not the answers to the client can be written.
pub forward_country-Connected :
    (m : Manager) (key code : Text) (sends : Bool) (input : Text) (tor : TorAnswer)
    (confirms : Bool)
    → (let f = forward_country m key code sends input tor confirms in
        Connected m key code input f f.tunnel)
unfolding forward_country
forward_country-Connected m key code sends input tor confirms =
    elim (Bool-cases (negotiate_client_auth sends code key input).accepted) [
      | inl e ↦ rw e (
          forward_acquired-Connected m key code input _ (acquire_instance m code) tor confirms
            (accepted-Authenticates code key sends input e) (acquire_instance-Acquired m code))
      | inr e ↦ rw e (λ q. refl)
    ]
