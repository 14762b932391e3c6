-- ===== src/Catalog/Refresh/Countries.antt =====
-- catalog.go: `Countries`, the list of the countries with their numbers of nodes.
use tor_country_manager.Shared.{
  ℕ, suc, Bool, true, false, ◌||◌, ◌&&◌, not, List, [], ◌∷◌, Option, none, some, ltb, if◌then◌else◌,
  ◌==◌, map,
}
use tor_country_manager.Shared.Text.{Text}
use tor_country_manager.Shared.Assoc.{lookup, insert}
use tor_country_manager.Shared.Sort.{sort_slice}
use tor_country_manager.Catalog.Nodes.{ExitNode, ExitCatalog, all_nodes}
use tor_country_manager.Catalog.Names.{continent_order, country_display_name}

pub record ExitCountry : Type 0 where
  pub code : Text
  pub name : Text
  pub continent : Text
  pub node_count : ℕ

-- A country that the map does not have yet is the zero value.
abbrev pub count_before : Option ExitCountry → ℕ
count_before none = 0
count_before (some x) = x.node_count

unfoldable pub count_node : ExitNode → Option ExitCountry → ExitCountry
count_node n o = record {
  code = n.country_code;
  name = country_display_name n.country_code n.country_name;
  continent = n.continent;
  node_count = suc (count_before o);
}

unfoldable pub by_code : List ExitNode → List (Text × ExitCountry) → List (Text × ExitCountry)
unfolding count_node
by_code [] m = m
by_code (n ∷ ns) m = by_code ns (insert n.country_code (count_node n (lookup n.country_code m)) m)

-- `a < b` on strings.
unfoldable less_text : Text → Text → Bool
less_text a [] = false
less_text [] (y ∷ ys) = true
less_text (x ∷ xs) (y ∷ ys) = ltb x y || (x == y && less_text xs ys)

unfoldable less_country : ExitCountry → ExitCountry → Bool
unfolding less_text
less_country a b =
    if not (continent_order a.continent == continent_order b.continent)
    then ltb (continent_order a.continent) (continent_order b.continent)
    else less_text a.name b.name

unfoldable pub countries : ExitCatalog → List ExitCountry
unfolding by_code less_country
countries c =
    sort_slice less_country (map (λ (e : Text × ExitCountry). e.1) (by_code (all_nodes c) []))
