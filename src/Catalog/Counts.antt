-- ===== src/Catalog/Counts.antt =====
-- catalog.go: the numbers of nodes that `Countries` reports.
use tor_country_manager.Shared.{
  suc, ◌+◌, Bool, List, [], ◌∷◌, ◌≡◌, refl, sym, ap, subst, ◌∙◌, arith, length, keep, count_if,
  if_either,
}
use tor_country_manager.Shared.Text.{Text, same, same_iff}
use tor_country_manager.Shared.Assoc.{lookup, insert, lookup-insert}
use tor_country_manager.Shared.Sort.{insert_sorted, sort_slice}
use tor_country_manager.Config.Defs.{normalize_code}
use tor_country_manager.Catalog.Nodes.{
  ExitNode, ExitCatalog, all_nodes, is_of_country, nodes_for_country,
}
use tor_country_manager.Catalog.Refresh.{ExitCountry, count_before, count_node, by_code}

abbrev is_exactly_of : Text → ExitNode → Bool
is_exactly_of code n = same n.country_code code

-- The count of a country is that of the map before and the nodes of the country.
by_code-count :
    (code : Text) (ns : List ExitNode) (m : List (Text × ExitCountry))
    → count_before (lookup code (by_code ns m))
      ≡ count_before (lookup code m) + count_if (is_exactly_of code) ns
unfolding by_code count_node
by_code-count code [] m = omega arith
by_code-count code (n ∷ ns) m =
    let x = count_node n (lookup n.country_code m) in
    let rest = by_code-count code ns (insert n.country_code x m) in
    let written = lookup-insert n.country_code code x m in
    ground (arith, rest, written, same_iff n.country_code code)

module _ {ℓ} {A : Type ℓ} where
  length-insert_sorted :
      (before : A → A → Bool) (x : A) (xs : List A)
      → length (insert_sorted before x xs) ≡ suc (length xs)
  unfolding insert_sorted
  length-insert_sorted before x [] = refl
  length-insert_sorted before x (y ∷ ys) =
      if_either (λ (l : List A). length l ≡ suc (suc (length ys))) (before y x)
        (ap suc (length-insert_sorted before x ys)) refl

  length-sort_slice :
      (before : A → A → Bool) (xs : List A) → length (sort_slice before xs) ≡ length xs
  unfolding sort_slice
  length-sort_slice before [] = refl
  length-sort_slice before (x ∷ xs) =
      length-insert_sorted before x (sort_slice before xs) ∙ ap suc (length-sort_slice before xs)

  length-keep : (p : A → Bool) (xs : List A) → length (keep p xs) ≡ count_if p xs
  length-keep p [] = refl
  length-keep p (x ∷ xs) = ground (arith, length-keep p xs)

-- For a code in its normal form, the number of nodes that stands in the map from which the list of the
-- countries is made (0 where the code has no entry) is the number of nodes listed for the country.
pub by_code-length :
    (c : ExitCatalog) (code : Text)
    → normalize_code code ≡ code
    → count_before (lookup code (by_code (all_nodes c) [])) ≡ length (nodes_for_country c code)
unfolding nodes_for_country is_of_country lookup
by_code-length c code e =
    let counted = by_code-count code (all_nodes c) [] in
    rw
      (
        length-sort_slice _ (keep (is_of_country code) (all_nodes c)),
        length-keep (is_of_country code) (all_nodes c),
      )
      (subst
        (λ k.
          count_before (lookup code (by_code (all_nodes c) []))
          ≡ count_if (λ n. same n.country_code k) (all_nodes c))
        (sym e) (omega (arith, counted)))
