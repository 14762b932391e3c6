-- ===== src/Catalog/Policy.antt =====
-- catalog.go: the summary of an exit policy, `allowsPort` and `rangesContainPort`.
use tor_country_manager.Shared.{
  ℕ, Bool, false, ◌||◌, ◌&&◌, not, List, [], ◌∷◌, Option, none, some, if◌then◌else◌, ◌==◌,
}
use tor_country_manager.Shared.Text.{Text}
use tor_country_manager.Shared.Int.{ℤ, leb_ℤ}
use tor_country_manager.Config.Validate.{atoi}

-- `strings.SplitN(value, "-", 2)`: what stands before the first `-`, and what stands after it.
unfoldable pub cut_step : ℕ → Text → Text × Option Text → Text × Option Text
cut_step c cs (before, after) = if c == b'-' then ([], some cs) else (c ∷ before, after)

unfoldable pub cut : Text → Text × Option Text
unfolding cut_step
cut [] = ([], none)
cut (c ∷ cs) = cut_step c cs (cut cs)

-- The ends of a range; `none` where one is no number.
unfoldable pub range_end : ℤ → Option Text → Option ℤ
range_end start none = some start
range_end start (some value) = atoi value

unfoldable pub covers : Option ℤ → Option Text → ℤ → Bool
unfolding range_end
covers none after port = false
covers (some start) after port = elim (range_end start after) [
  | none ↦ false
  | some last ↦ leb_ℤ start port && leb_ℤ port last
]

unfoldable pub range_contains : Text → ℤ → Bool
unfolding cut covers
range_contains value port = let (before, after) = cut value in covers (atoi before) after port

unfoldable pub ranges_contain_port : List Text → ℤ → Bool
unfolding range_contains
ranges_contain_port [] port = false
ranges_contain_port (value ∷ values) port =
    range_contains value port || ranges_contain_port values port

unfoldable pub allows_port : (accept reject : List Text) → ℤ → Bool
unfolding ranges_contain_port
allows_port (r ∷ rs) reject port = ranges_contain_port (r ∷ rs) port
allows_port [] (r ∷ rs) port = not (ranges_contain_port (r ∷ rs) port)
allows_port [] [] port = false
