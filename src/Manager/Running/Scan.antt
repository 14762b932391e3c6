-- ===== src/Manager/Running/Scan.antt =====
-- manager.go: what the scan of `makeRoom` finds.
use tor_country_manager.Shared.{
  ℕ, suc, ◌+◌, ◌≤◌, true, false, List, [], ◌∷◌, Option, none, some, ◌≡◌, refl, arith, ◌⊎◌, inl, inr,
  if◌then◌else◌, ◌&&◌, not, Bool-cases,
}
use tor_country_manager.Shared.Text.{Text, same, same_iff}
use tor_country_manager.Shared.Assoc.{lookup}
use tor_country_manager.Manager.Defs.{Manager, is_occupied}
use tor_country_manager.Manager.Limits.{count_running}
use tor_country_manager.Manager.Start.{target_runs, counted, is_older, pick_oldest, scan_room}
use tor_country_manager.Manager.Running.{Keyed, Distinct}

-- The scan counts every running instance, unless the target runs.
pub scan_room-counted :
    (m : Manager) (target : Text) (running : ℕ) (oldest : Option ℕ) (xs : List (Text × ℕ)) (n : ℕ)
    (o : Option ℕ)
    → scan_room m target running oldest xs ≡ counted n o
    → n ≡ running + count_running m.heap xs
unfolding scan_room count_running
scan_room-counted m target running oldest [] n o h = ground arith
scan_room-counted m target running oldest ((k, p) ∷ rest) n o h = ground (
  arith,
  scan_room-counted m target (suc running) (pick_oldest m k p oldest) rest n o,
  scan_room-counted m target running oldest rest n o,
)

lookup-ne :
    (j k : Text) (q p : ℕ) (xs : List (Text × ℕ))
    → lookup j xs ≡ none
    → lookup k xs ≡ some p
    → lookup k ((j, q) ∷ xs) ≡ some p
unfolding lookup
lookup-ne j k q p xs e h = ground (arith, same_iff j k)

lookup-head :
    (k t : Text) (p : ℕ) (xs : List (Text × ℕ)) → same k t ≡ true → lookup t ((k, p) ∷ xs) ≡ some p
unfolding lookup
lookup-head k t p xs h = ground arith

-- A running target is found.
pub scan_room-target :
    (m : Manager) (target : Text) (running : ℕ) (oldest : Option ℕ) (xs : List (Text × ℕ))
    → Distinct xs
    → scan_room m target running oldest xs ≡ target_runs
    → (p : ℕ) × (lookup target xs ≡ some p) × (is_occupied (m.heap p).status ≡ true)
unfolding scan_room
scan_room-target m target running oldest [] d h = cc
scan_room-target m target running oldest ((k, p) ∷ rest) d h =
    elim (Bool-cases (is_occupied (m.heap p).status && same k target)) [
      | inl e ↦ (p, lookup-head k target p rest (ground arith), ground arith)
      | inr e ↦
          let (q, f, o) =
            scan_room-target m target
              (if is_occupied (m.heap p).status then suc running else running)
              (if is_occupied (m.heap p).status then pick_oldest m k p oldest else oldest) rest d.1
              (rw e at h) in
          (q, lookup-ne k target p q rest d.0 f, o)
    ]

-- An instance that may be evicted: it runs, and its country is not the active one.
abbrev pub Candidate : Manager → List (Text × ℕ) → ℕ → Type 0
Candidate m xs p =
    (is_occupied (m.heap p).status ≡ true)
    × (same (m.heap p).country.code m.active ≡ false)
    × (lookup (m.heap p).country.code xs ≡ some p)

-- What `pick_oldest` proposes is what it was given, or the instance that it sees.
pick_oldest-cases :
    (m : Manager) (k : Text) (q : ℕ) (oldest : Option ℕ) (p : ℕ)
    → pick_oldest m k q oldest ≡ some p
    → (oldest ≡ some p) ⊎ ((p ≡ q) × (same k m.active ≡ false))
unfolding pick_oldest
pick_oldest-cases m k q oldest p h =
    elim (Bool-cases (not (same k m.active) && is_older m q oldest)) [
      | inl e ↦ inr (ground arith, ground arith)
      | inr e ↦ inl (ground arith)
    ]

head-Candidate :
    (m : Manager) (k : Text) (p q : ℕ) (rest : List (Text × ℕ))
    → p ≡ q
    → (m.heap q).country.code ≡ k
    → is_occupied (m.heap q).status ≡ true
    → same k m.active ≡ false
    → Candidate m ((k, q) ∷ rest) p
unfolding lookup
head-Candidate m k p q rest e c o a = rw (e, c) (o, a, ground (arith, same_iff k k))

tail-Candidate :
    (m : Manager) (k : Text) (p q : ℕ) (rest : List (Text × ℕ))
    → lookup k rest ≡ none
    → Candidate m rest p
    → Candidate m ((k, q) ∷ rest) p
tail-Candidate m k p q rest e c = (c.0, c.1, lookup-ne k _ q p rest e c.2)

-- What the scan proposes is what it started with, or such an instance.
pub scan_room-Candidate :
    (m : Manager) (target : Text) (running : ℕ) (oldest : Option ℕ) (xs : List (Text × ℕ)) (n p : ℕ)
    → Keyed m.heap xs
    → Distinct xs
    → scan_room m target running oldest xs ≡ counted n (some p)
    → (oldest ≡ some p) ⊎ Candidate m xs p
unfolding scan_room
scan_room-Candidate m target running oldest [] n p c d h = inl (ground arith)
scan_room-Candidate m target running oldest ((k, q) ∷ rest) n p c d h =
    elim (Bool-cases (is_occupied (m.heap q).status)) [
      | inl o ↦
          elim (scan_room-Candidate m target (suc running) (pick_oldest m k q oldest) rest n p c.2
            d.1 (ground arith)) [
              | inl e ↦ elim (pick_oldest-cases m k q oldest p e) [
                | inl f ↦ inl f
                | inr (f, a) ↦ inr (head-Candidate m k p q rest f c.0 o a)
              ]
              | inr t ↦ inr (tail-Candidate m k p q rest d.0 t)
            ]
      | inr o ↦ elim (scan_room-Candidate m target running oldest rest n p c.2 d.1 (ground arith)) [
        | inl e ↦ inl e
        | inr t ↦ inr (tail-Candidate m k p q rest d.0 t)
      ]
    ]

-- No running instance of another country than the active one started before `t`.
abbrev pub NoOlder : Manager → ℕ → List (Text × ℕ) → Type 0
NoOlder m t [] = Unit {0}
NoOlder m t ((k, q) ∷ rest) =
    (is_occupied (m.heap q).status ≡ true → same k m.active ≡ false → t ≤ (m.heap q).started_at)
    × NoOlder m t rest

abbrev OlderThan : Manager → ℕ → Option ℕ → Type 0
OlderThan m t none = Unit {0}
OlderThan m t (some q) = t ≤ (m.heap q).started_at

pick_oldest-OlderThan :
    (m : Manager) (k : Text) (q t : ℕ) (oldest : Option ℕ)
    → OlderThan m t (pick_oldest m k q oldest)
    → OlderThan m t oldest × (same k m.active ≡ false → t ≤ (m.heap q).started_at)
unfolding pick_oldest is_older
pick_oldest-OlderThan m k q t none h = (tt, λ a. ground arith)
pick_oldest-OlderThan m k q t (some r) h = (ground arith, λ a. ground arith)

-- What the scan proposes is not younger than what it started with, nor than any other candidate.
pub scan_room-oldest :
    (m : Manager) (target : Text) (running : ℕ) (oldest : Option ℕ) (xs : List (Text × ℕ)) (n p : ℕ)
    → scan_room m target running oldest xs ≡ counted n (some p)
    → OlderThan m (m.heap p).started_at oldest × NoOlder m (m.heap p).started_at xs
unfolding scan_room
scan_room-oldest m target running none [] n p h = (tt, tt)
scan_room-oldest m target running (some r) [] n p h = (ground arith, tt)
scan_room-oldest m target running oldest ((k, q) ∷ rest) n p h =
    elim (Bool-cases (is_occupied (m.heap q).status)) [
      | inl o ↦
          let (a, b) =
            scan_room-oldest m target (suc running) (pick_oldest m k q oldest) rest n p
              (ground arith) in
          let (c, d) = pick_oldest-OlderThan m k q (m.heap p).started_at oldest a in
          (c, ((λ _ e. d e), b))
      | inr o ↦
          let (a, b) = scan_room-oldest m target running oldest rest n p (ground arith) in
          (a, ((λ e _. cc), b))
    ]

-- Every running instance belongs to the active country.
abbrev pub NoCandidate : Manager → List (Text × ℕ) → Type 0
NoCandidate m [] = Unit {0}
NoCandidate m ((k, q) ∷ rest) =
    (is_occupied (m.heap q).status ≡ true → same k m.active ≡ true) × NoCandidate m rest

pick_oldest-none :
    (m : Manager) (k : Text) (q : ℕ) (oldest : Option ℕ)
    → pick_oldest m k q oldest ≡ none
    → (oldest ≡ none) × (same k m.active ≡ true)
unfolding pick_oldest is_older
pick_oldest-none m k q none h = (refl, ground arith)
pick_oldest-none m k q (some r) h = absurd (ground arith)

-- Where the scan proposes nothing, there is no candidate.
pub scan_room-none :
    (m : Manager) (target : Text) (running : ℕ) (oldest : Option ℕ) (xs : List (Text × ℕ)) (n : ℕ)
    → scan_room m target running oldest xs ≡ counted n none
    → (oldest ≡ none) × NoCandidate m xs
unfolding scan_room
scan_room-none m target running oldest [] n h = (ground arith, tt)
scan_room-none m target running oldest ((k, q) ∷ rest) n h =
    elim (Bool-cases (is_occupied (m.heap q).status)) [
      | inl o ↦
          let (a, b) =
            scan_room-none m target (suc running) (pick_oldest m k q oldest) rest n
              (ground arith) in
          let (c, d) = pick_oldest-none m k q oldest a in (c, ((λ _. d), b))
      | inr o ↦
          let (a, b) = scan_room-none m target running oldest rest n (ground arith) in
          (a, ((λ e. cc), b))
    ]
