-- ===== src/Catalog/Ranges.antt =====
-- catalog.go: `rangesContainPort` on the ranges that the directory writes, in decimal digits.
use mathlib.Core.List.{reverse}
use tor_country_manager.Shared.{
  ℕ, zero, suc, ◌+◌, ◌-◌, ◌*◌, ◌/◌, ◌%◌, ◌<◌, Bool, true, false, ◌||◌, ◌&&◌, List, [], ◌∷◌, ◌++◌,
  some, ltb, leb, if◌then◌else◌, ◌==◌, ◌≡◌, refl, ◌∙◌, arith,
}
use tor_country_manager.Shared.Text.{Text, digits_of, decimal}
use tor_country_manager.Shared.Int.{pos}
use tor_country_manager.Config.Validate.{digits_value, unsigned, atoi_pos, atoi}
use mathlib.Core.List.{reverse-cons}
use tor_country_manager.Shared.{Bool-cases, inl, inr}

-- One more digit at the end.
digits_value-snoc :
    (xs : Text) (acc v d : ℕ)
    → digits_value acc xs ≡ some v
    → d < 10
    → digits_value acc (xs ++ ((b'0' + d) ∷ [])) ≡ some (v * 10 + d)
unfolding digits_value
digits_value-snoc [] acc v d h l = ground arith
digits_value-snoc (x ∷ xs) acc v d h l =
    ground (arith, digits_value-snoc xs (acc * 10 + (x - b'0')) v d)

-- The fuel of `decimal` is enough for all digits.
digits_of-value : (fuel n : ℕ) → n < fuel → digits_value 0 (reverse (digits_of fuel n)) ≡ some n
unfolding digits_of digits_value
digits_of-value zero n l = ground arith
digits_of-value (suc fuel) n l = elim (Bool-cases (ltb n 10)) [
  | inl e ↦ rw e (ground arith)
  | inr e ↦
      let rest = digits_of fuel (n / 10) in
      let below =
        digits_value-snoc (reverse rest) 0 (n / 10) (n % 10)
          (digits_of-value fuel (n / 10) (ground arith)) (omega arith) in
      rw (e, reverse-cons (b'0' + n % 10) rest) (ground (arith, below))
]

digits_of-cons : (fuel n : ℕ) → (d : ℕ) × (ds : Text) × (digits_of (suc fuel) n ≡ d ∷ ds)
unfolding digits_of
digits_of-cons fuel n = elim (Bool-cases (ltb n 10)) [
  | inl e ↦ (b'0' + n, [], rw e refl)
  | inr e ↦ (b'0' + n % 10, digits_of fuel (n / 10), rw e refl)
]

-- A number that fits is read from its digits.
digits-atoi :
    (xs : Text) (x v : ℕ) → digits_value 0 (x ∷ xs) ≡ some v → atoi (x ∷ xs) ≡ atoi_pos (some v)
unfolding atoi unsigned digits_value
digits-atoi xs x v h = ground arith

snoc-cons : (xs : Text) (d : ℕ) → (x : ℕ) × (ys : Text) × (xs ++ (d ∷ []) ≡ x ∷ ys)
snoc-cons [] d = (d, [], refl)
snoc-cons (x ∷ xs) d = (x, xs ++ (d ∷ []), refl)

decimal-cons : (n : ℕ) → (x : ℕ) × (xs : Text) × (decimal n ≡ x ∷ xs)
unfolding decimal
decimal-cons n =
    let (d, ds, e) = digits_of-cons n n in
    let (x, xs, k) = snoc-cons (reverse ds) d in (x, xs, rw (e, reverse-cons d ds) k)

-- A number in decimal digits is read as that number, if it fits an `int`.
pub atoi-decimal : (n : ℕ) → n < 9223372036854775808 → atoi (decimal n) ≡ some (pos n)
unfolding decimal atoi_pos
atoi-decimal n l =
    let (x, xs, e) = decimal-cons n in
    let value = digits_of-value (suc n) n (omega arith) in
    rw e (digits-atoi xs x n (rw e at value) ∙ ground arith)

-- A range of the directory, and how it is written: the port alone where it is one.
pub record PortRange : Type 0 where
  pub first : ℕ
  pub last : ℕ

abbrev pub write_range : PortRange → Text
write_range r =
    if r.first == r.last then decimal r.first else decimal r.first ++ (b'-' ∷ decimal r.last)

abbrev pub in_range : ℕ → PortRange → Bool
in_range p r = leb r.first p && leb p r.last

abbrev pub in_ranges : ℕ → List PortRange → Bool
in_ranges p [] = false
in_ranges p (r ∷ rs) = in_range p r || in_ranges p rs

abbrev pub FitsInt : PortRange → Type 0
FitsInt r = (r.first < 9223372036854775808) × (r.last < 9223372036854775808)

abbrev has_ranges : List PortRange → Bool
has_ranges [] = false
has_ranges (r ∷ rs) = true
