-- ===== src/Shared/Assoc.antt =====
-- A Go map with string keys, as an association list: the order of the list is the order in which
-- `range` visits the entries, which Go leaves open.
use mathlib.Core.Path.{◌≡◌, refl, sym, ap, subst}
use mathlib.Core.Logic.{inl, inr}
use mathlib.Core.List.{List, [], ◌∷◌}
use mathlib.Core.Option.{Option, none, some}
use native.Mathlib.Omega.{arith}
use tor_country_manager.Shared.Tests.{if◌then◌else◌, if_cases, Bool-cases}
use tor_country_manager.Shared.Lists.{All}
use tor_country_manager.Shared.Text.{Text, same, same_iff}

module _ {ℓ} {V : Type ℓ} where
  unfoldable pub lookup : Text → List (Text × V) → Option V
  lookup k [] = none
  lookup k ((j, v) ∷ m) = if same j k then some v else lookup k m

  unfoldable pub insert : Text → V → List (Text × V) → List (Text × V)
  insert k v [] = (k, v) ∷ []
  insert k v ((j, w) ∷ m) = if same j k then (j, v) ∷ m else (j, w) ∷ insert k v m

  unfoldable pub delete : Text → List (Text × V) → List (Text × V)
  delete k [] = []
  delete k ((j, v) ∷ m) = let rest = delete k m in if same j k then rest else (j, v) ∷ rest

  -- A read after a write.
  pub lookup-insert :
      (k j : Text) (v : V) (m : List (Text × V))
      → lookup j (insert k v m) ≡ (if same k j then some v else lookup j m)
  unfolding lookup insert
  lookup-insert k j v [] = refl
  lookup-insert k j v ((i, w) ∷ m) =
      ground (arith, same_iff k j, same_iff i k, same_iff i j, lookup-insert k j v m)

  -- A read after a removal.
  pub lookup-delete :
      (k j : Text) (m : List (Text × V))
      → lookup j (delete k m) ≡ (if same k j then none else lookup j m)
  unfolding lookup delete
  lookup-delete k j [] = ground arith
  lookup-delete k j ((i, w) ∷ m) =
      ground (arith, same_iff k j, same_iff i k, same_iff i j, lookup-delete k j m)

  -- What holds of the entries and of the new value under its key holds after a write.
  pub All-insert {κ} :
      (P : Text × V → Type κ) (k : Text) (v : V) (m : List (Text × V))
      → P (k, v)
      → All P m
      → All P (insert k v m)
  unfolding insert
  All-insert P k v [] h a = (h, tt)
  All-insert P k v ((j, w) ∷ m) h a =
      if_cases (All P) (same j k) (λ e. (subst (λ i. P (i, v)) (sym ((same_iff j k).0 e)) h, a.1))
        (λ e. (a.0, All-insert P k v m h a.1))

  -- What holds of all entries holds of the one that is found.
  pub All-lookup {κ} :
      (P : Text × V → Type κ) (k : Text) (v : V) (m : List (Text × V))
      → All P m
      → lookup k m ≡ some v
      → P (k, v)
  unfolding lookup
  All-lookup P k v [] a e = cc
  All-lookup P k v ((j, w) ∷ m) a e = elim (Bool-cases (same j k)) [
    | inl q ↦
        let here : some w ≡ some v = rw q at e in
        let value : w ≡ v = cc in
        subst P (ap (λ i. (i, v)) ((same_iff j k).0 q)) (subst (λ u. P (j, u)) value a.0)
    | inr q ↦ All-lookup P k v m a.1 (rw q at e)
  ]
