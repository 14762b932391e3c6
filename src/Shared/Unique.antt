-- ===== src/Shared/Unique.antt =====
-- Association lists in which no key stands twice.
use mathlib.Core.Path.{◌≡◌, refl}
use mathlib.Core.Logic.{inl, inr}
use mathlib.Core.Bool.{Bool}
use mathlib.Core.List.{List, [], ◌∷◌}
use mathlib.Core.Option.{none}
use native.Mathlib.Omega.{arith}
use tor_country_manager.Shared.Tests.{Bool-cases}
use tor_country_manager.Shared.Lists.{keep}
use tor_country_manager.Shared.Text.{Text, same, same_iff}
use tor_country_manager.Shared.Assoc.{lookup, insert, delete, lookup-insert, lookup-delete}

-- No key stands twice.
abbrev pub Unique {ℓ} : {V : Type ℓ} → List (Text × V) → Type ℓ
Unique [] = Unit
Unique ((k, v) ∷ m) = (lookup k m ≡ none) × Unique m

module _ {ℓ} {V : Type ℓ} where
  pub lookup-keep-none :
      (p : Text × V → Bool) (k : Text) (m : List (Text × V))
      → lookup k m ≡ none
      → lookup k (keep p m) ≡ none
  unfolding lookup
  lookup-keep-none p k [] h = h
  lookup-keep-none p k ((j, v) ∷ m) h = ground (arith, lookup-keep-none p k m)

  pub keep-Unique : (p : Text × V → Bool) (m : List (Text × V)) → Unique m → Unique (keep p m)
  keep-Unique p [] u = u
  keep-Unique p ((j, v) ∷ m) (a, u) = elim (Bool-cases (p (j, v))) [
    | inl e ↦ rw e (lookup-keep-none p j m a, keep-Unique p m u)
    | inr e ↦ rw e (keep-Unique p m u)
  ]

  pub insert-Unique : (k : Text) (v : V) (m : List (Text × V)) → Unique m → Unique (insert k v m)
  unfolding insert lookup
  insert-Unique k v [] u = (refl, tt)
  insert-Unique k v ((j, w) ∷ m) (a, u) = elim (Bool-cases (same j k)) [
    | inl e ↦ rw e (a, u)
    | inr e ↦
        rw e
          (ground (arith, lookup-insert k j v m, same_iff k j, same_iff j k), insert-Unique k v m u)
  ]

  pub delete-Unique : (k : Text) (m : List (Text × V)) → Unique m → Unique (delete k m)
  unfolding delete lookup
  delete-Unique k [] u = u
  delete-Unique k ((j, w) ∷ m) (a, u) = elim (Bool-cases (same j k)) [
    | inl e ↦ rw e (delete-Unique k m u)
    | inr e ↦ rw e (ground (arith, lookup-delete k j m), delete-Unique k m u)
  ]
