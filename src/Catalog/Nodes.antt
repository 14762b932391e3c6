-- ===== src/Catalog/Nodes.antt =====
-- catalog.go: the nodes, their order, and `SelectNode`.
use tor_country_manager.Shared.{
  ℕ, Bool, true, false, ◌||◌, ◌&&◌, not, List, [], ◌∷◌, ◌++◌, map, Option, none, some, ◌⊎◌, inl,
  inr, ltb, ◌==◌, if◌then◌else◌, keep, length,
}
use tor_country_manager.Shared.Text.{Text, text, same, is_empty, to_upper}
use tor_country_manager.Shared.Assoc.{lookup}
use tor_country_manager.Shared.Int.{ℤ, pos, negsuc, leb_ℤ, ltb_ℤ, eqb_ℤ}
use tor_country_manager.Shared.Sort.{sort_slice}
use tor_country_manager.Config.Defs.{Config, normalize_code, country_code_pattern}

pub record ExitNode : Type 0 where
  pub fingerprint : Text
  pub nickname : Text
  pub ip : Text
  pub or_address : Text
  pub country_code : Text
  pub country_name : Text
  pub continent : Text
  pub asn : Text
  pub isp : Text
  pub consensus_weight : ℤ
  pub latency_ms : ℤ
  pub latency_checked : ℕ

-- The nodes by fingerprint. The client is the one that `cfg` gives; a time is a number of nanoseconds,
-- and the zero time is 0.
pub record ExitCatalog : Type 0 where
  pub cfg : Config
  pub nodes : List (Text × ExitNode)
  pub fetched_at : ℕ
  pub last_error : Text

unfoldable pub latency_rank : ℤ → ℕ
latency_rank latency =
    if leb_ℤ (pos 0) latency then 0 else if eqb_ℤ latency (negsuc 0) then 1 else 2

-- The measured nodes first, the fastest first, then by their weight.
unfoldable pub less_exit_node : ExitNode → ExitNode → Bool
unfolding latency_rank
less_exit_node left right =
    if not (latency_rank left.latency_ms == latency_rank right.latency_ms)
    then ltb (latency_rank left.latency_ms) (latency_rank right.latency_ms)
    else if leb_ℤ (pos 0) left.latency_ms && not (eqb_ℤ left.latency_ms right.latency_ms)
    then ltb_ℤ left.latency_ms right.latency_ms
    else ltb_ℤ right.consensus_weight left.consensus_weight

abbrev pub all_nodes : ExitCatalog → List ExitNode
all_nodes c = map (λ (e : Text × ExitNode). e.1) c.nodes

unfoldable pub is_of_country : Text → ExitNode → Bool
is_of_country code n = same n.country_code (normalize_code code)

unfoldable pub nodes_for_country : ExitCatalog → Text → List ExitNode
unfolding sort_slice less_exit_node is_of_country
nodes_for_country c code = sort_slice less_exit_node (keep (is_of_country code) (all_nodes c))

-- `Node`.
unfoldable pub node_at : ExitCatalog → Text → Option ExitNode
node_at c fingerprint = lookup (to_upper fingerprint) c.nodes

unfoldable pub is_measured : Bool → ExitNode → Bool
is_measured require_measured n = not require_measured || leb_ℤ (pos 0) n.latency_ms

unfoldable pub first_measured : Bool → List ExitNode → Option ExitNode
unfolding is_measured
first_measured require_measured [] = none
first_measured require_measured (n ∷ ns) =
    let rest = first_measured require_measured ns in
    if is_measured require_measured n then some n else rest

abbrev first_of : Bool → List ExitNode → Option ExitNode
first_of require_measured [] = none
first_of require_measured (n ∷ ns) = if not require_measured then some n else none

abbrev or_else : Option ExitNode → Option ExitNode → Option ExitNode
or_else none o = o
or_else (some n) o = some n

-- What the policy `failover` returns at once for the nodes of one country.
unfoldable pub failover_choice : Bool → Bool → List ExitNode → Option ExitNode
unfolding first_measured
failover_choice failover require_measured nodes =
    if failover
    then or_else (first_measured require_measured nodes) (first_of require_measured nodes)
    else none

-- The loop over the countries: a node returned at once, or the candidates.
unfoldable pub candidates :
    ExitCatalog
    → (failover require_measured : Bool) → List ExitNode
    → List Text
    → ExitNode ⊎ List ExitNode
unfolding failover_choice nodes_for_country is_measured
candidates c failover require_measured acc [] = inr acc
candidates c failover require_measured acc (code ∷ codes) =
    let nodes = nodes_for_country c code in
    let rest =
      candidates c failover require_measured (acc ++ keep (is_measured require_measured) nodes)
        codes in
    elim (failover_choice failover require_measured nodes) [ some n ↦ inl n | none ↦ rest ]

unfoldable pub first_node : List ExitNode → Option ExitNode
first_node [] = none
first_node (n ∷ ns) = some n

unfoldable pub pick : ExitNode ⊎ List ExitNode → Option ExitNode
unfolding first_node sort_slice less_exit_node
pick (inl n) = some n
pick (inr ns) = first_node (sort_slice less_exit_node ns)

unfoldable pub best_candidate :
    ExitCatalog → List Text → (failover require_measured : Bool) → Option ExitNode
unfolding pick candidates
best_candidate c codes failover require_measured =
    pick (candidates c failover require_measured [] codes)

pub data SelectError : Type 0 where
  no_countries too_many_countries bad_policy cancelled no_usable_node : SelectError
  invalid_country : Text → SelectError

unfoldable pub has_code : Text → List Text → Bool
has_code code [] = false
has_code code (c ∷ cs) = same c code || has_code code cs

-- The codes without their repetitions.
unfoldable pub normalize_all : List Text → List Text → SelectError ⊎ List Text
unfolding has_code
normalize_all seen [] = inr seen
normalize_all seen (country ∷ rest) =
    let code = normalize_code country in
    let again = normalize_all seen rest in
    let more = normalize_all (seen ++ (code ∷ [])) rest in
    if not (country_code_pattern code)
    then inl (invalid_country country)
    else if has_code code seen
    then again
    else more

unfoldable pub policy_of : Text → Option Bool
policy_of policy =
    if is_empty policy || same policy (text "lowest_latency")
    then some false
    else if same policy (text "failover")
    then some true
    else none

abbrev answer_of : Option ExitNode → SelectError ⊎ ExitNode
answer_of none = inl no_usable_node
answer_of (some n) = inr n

-- The wait for the latency checks, in which the request may be cancelled; `c` is the catalog after it.
unfoldable pub choose : ExitCatalog → (gone : Bool) → List Text → Bool → SelectError ⊎ ExitNode
unfolding best_candidate
choose c gone codes failover =
    if gone
    then inl cancelled
    else answer_of
        (or_else (best_candidate c codes failover true) (best_candidate c codes failover false))

unfoldable pub select_known :
    ExitCatalog → (gone : Bool) → Option Bool → SelectError ⊎ List Text → SelectError ⊎ ExitNode
unfolding choose
select_known c gone policy (inl e) = inl e
select_known c gone none (inr codes) =
    if ltb 20 (length codes) then inl too_many_countries else inl bad_policy
select_known c gone (some failover) (inr codes) =
    if ltb 20 (length codes) then inl too_many_countries else choose c gone codes failover

unfoldable pub select_node :
    ExitCatalog → (gone : Bool) → List Text → (policy : Text) → SelectError ⊎ ExitNode
unfolding select_known policy_of normalize_all
select_node c gone [] policy = inl no_countries
select_node c gone (country ∷ rest) policy =
    select_known c gone (policy_of policy) (normalize_all [] (country ∷ rest))
