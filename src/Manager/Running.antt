-- ===== src/Manager/Running.antt =====
-- manager.go: how many instances count as running, and what a change of the heap does to the count.
pub mod Quiet
pub mod Scan
pub mod Limit
pub mod Eviction
use native.Mathlib.Decide.{ℕ_discrete}
use tor_country_manager.Shared.{
  ℕ, suc, ◌≤◌, ◌+◌, Bool, true, false, List, [], ◌∷◌, Option, none, some, ◌≡◌, ◌≢◌, refl, arith,
}
use tor_country_manager.Shared.Text.{Text, same, same_iff}
use tor_country_manager.Shared.Assoc.{lookup}
use tor_country_manager.Config.Defs.{normalize_code}
use tor_country_manager.Manager.Defs.{Instance, is_occupied}
use tor_country_manager.Manager.Limits.{count_running}

-- Each entry stands under the code of its instance, which is in normal form.
abbrev pub Keyed : (ℕ → Instance) → List (Text × ℕ) → Type 0
Keyed heap [] = Unit {0}
Keyed heap ((k, p) ∷ rest) = ((heap p).country.code ≡ k) × (normalize_code k ≡ k) × Keyed heap rest

-- No code stands twice.
abbrev pub Distinct : List (Text × ℕ) → Type 0
Distinct [] = Unit {0}
Distinct ((k, p) ∷ rest) = (lookup k rest ≡ none) × Distinct rest

-- What runs is not draining.
abbrev pub Serves : (ℕ → Instance) → List (Text × ℕ) → Type 0
Serves heap [] = Unit {0}
Serves heap ((k, p) ∷ rest) =
    (is_occupied (heap p).status ≡ true → (heap p).is_draining ≡ false) × Serves heap rest

pub count_running_mono :
    (h h' : ℕ → Instance) (xs : List (Text × ℕ))
    → ((q : ℕ) → is_occupied (h' q).status ≡ true → is_occupied (h q).status ≡ true)
    → count_running h' xs ≤ count_running h xs
unfolding count_running
count_running_mono h h' [] f = omega arith
count_running_mono h h' ((k, p) ∷ rest) f = ground (arith, f p, count_running_mono h h' rest f)

-- One instance that stops running is counted off.
pub count_running-drop :
    (h h' : ℕ → Instance) (xs : List (Text × ℕ)) (k : Text) (p : ℕ)
    → ((q : ℕ) → is_occupied (h' q).status ≡ true → is_occupied (h q).status ≡ true)
    → lookup k xs ≡ some p
    → is_occupied (h p).status ≡ true
    → is_occupied (h' p).status ≡ false
    → suc (count_running h' xs) ≤ count_running h xs
unfolding count_running lookup
count_running-drop h h' [] k p f e o n = cc
count_running-drop h h' ((j, q) ∷ rest) k p f e o n =
    ground (arith, f q, count_running_mono h h' rest f, count_running-drop h h' rest k p f)

-- An instance that is in no entry does not count.
count_running-absent :
    (h h' : ℕ → Instance) (xs : List (Text × ℕ)) (p : ℕ)
    → Keyed h xs
    → lookup (h p).country.code xs ≡ none
    → ((q : ℕ) → q ≢ p → is_occupied (h' q).status ≡ true → is_occupied (h q).status ≡ true)
    → count_running h' xs ≤ count_running h xs
unfolding count_running lookup
count_running-absent h h' [] p d e f = omega arith
count_running-absent h h' ((j, q) ∷ rest) p d e f =
    ground (arith, f q, same_iff j (h p).country.code, count_running-absent h h' rest p d.2)

-- One instance that starts adds at most one to the count.
pub count_running-raise :
    (h h' : ℕ → Instance) (xs : List (Text × ℕ)) (p : ℕ)
    → Keyed h xs
    → Distinct xs
    → ((q : ℕ) → q ≢ p → is_occupied (h' q).status ≡ true → is_occupied (h q).status ≡ true)
    → count_running h' xs ≤ suc (count_running h xs)
unfolding count_running
count_running-raise h h' [] p d e f = omega arith
count_running-raise h h' ((j, q) ∷ rest) p d e f = elim (ℕ_discrete q p) [
  | yes same_place ↦
      ground (arith, count_running-absent h h' rest p d.2 (rw (← same_place, d.0) e.0) f)
  | no other ↦ ground (arith, f q other, count_running-raise h h' rest p d.2 e.1 f)
]
