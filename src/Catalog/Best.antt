-- ===== src/Catalog/Best.antt =====
-- catalog.go: `SelectNode` finds a best node.
use mathlib.Core.List.{Memᴰ}
use mathlib.Core.List.Memᴰ
use tor_country_manager.Shared.{
  zero, suc, Bool, true, false, ltb, ◌==◌, ◌&&◌, ◌||◌, not, if◌then◌else◌, List, [], ◌∷◌, ◌++◌,
  Option, none, some, ◌⊎◌, ◌↔◌, ◌≡◌, refl, sym, ap, ◌∙◌, arith, inl, inr, keep, Bool-cases,
  if_either, if_cases,
}
use tor_country_manager.Shared.Text.{Text}
use tor_country_manager.Shared.Int.{ℤ, pos, negsuc, ltb_ℤ, leb_ℤ, eqb_ℤ}
use tor_country_manager.Shared.Sort.{insert_sorted, sort_slice}
use tor_country_manager.Catalog.Nodes.{
  ExitNode, ExitCatalog, latency_rank, less_exit_node, all_nodes, is_of_country, nodes_for_country,
  is_measured, candidates, first_node, pick, best_candidate, failover_choice,
}

-- The order of the nodes goes one way, and what is not before stays so.
less-asym : (a b : ExitNode) → less_exit_node a b ≡ true → less_exit_node b a ≡ false
unfolding less_exit_node latency_rank
less-asym a b h = ground arith

less-cotrans :
    (a b c : ExitNode)
    → less_exit_node a b ≡ false
    → less_exit_node b c ≡ false
    → less_exit_node a c ≡ false
unfolding less_exit_node latency_rank
less-cotrans a b c h k = ground arith

module _ {ℓ} {A : Type ℓ} where
  mem-keep : (p : A → Bool) (xs : List A) (x : A) → Memᴰ x (keep p xs) → Memᴰ x xs × (p x ≡ true)
  mem-keep p [] x m = absurd (Memᴰ.not-nil m)
  mem-keep p (y ∷ ys) x m =
      let below : Memᴰ x (keep p ys) → Memᴰ x (y ∷ ys) × (p x ≡ true) =
        λ n. (Memᴰ.tail (mem-keep p ys x n).0, (mem-keep p ys x n).1) in
      elim (Bool-cases (p y)) [
        | inl e ↦ elim (Memᴰ.cases_cons (rw e at m)) [
          | inl h ↦ (Memᴰ.head h, ap p h ∙ e)
          | inr n ↦ below n
        ]
        | inr e ↦ below (rw e at m)
      ]

  keep-mem : (p : A → Bool) (xs : List A) (x : A) → Memᴰ x xs → p x ≡ true → Memᴰ x (keep p xs)
  keep-mem p [] x m h = m
  keep-mem p (y ∷ ys) x (Memᴰ.head e) h =
      let k : p y ≡ true = ap p (sym e) ∙ h in rw k (Memᴰ.head e)
  keep-mem p (y ∷ ys) x (Memᴰ.tail m) h =
      if_either (Memᴰ x) (p y) (Memᴰ.tail (keep-mem p ys x m h)) (keep-mem p ys x m h)

-- The first entry of a list is not after any other.
abbrev Headed : List ExitNode → Type 0
Headed [] = Unit
Headed (y ∷ ys) = (z : ExitNode) → Memᴰ z (y ∷ ys) → less_exit_node z y ≡ false

less_irrefl : (a : ExitNode) → less_exit_node a a ≡ false
unfolding less_exit_node latency_rank
less_irrefl a = ground arith

mem-insert_sorted :
    (x z : ExitNode) (ys : List ExitNode)
    → Memᴰ z (insert_sorted less_exit_node x ys)
    → Memᴰ z (x ∷ ys)
unfolding insert_sorted
mem-insert_sorted x z [] m = m
mem-insert_sorted x z (y ∷ ys) m = elim (Bool-cases (less_exit_node y x)) [
  | inl e ↦ elim (Memᴰ.cases_cons (rw e at m)) [
    | inl h ↦ Memᴰ.tail (Memᴰ.head h)
    | inr n ↦ elim (Memᴰ.cases_cons (mem-insert_sorted x z ys n)) [
      | inl h ↦ Memᴰ.head h
      | inr k ↦ Memᴰ.tail (Memᴰ.tail k)
    ]
  ]
  | inr e ↦ rw e at m
]

insert_sorted-mem :
    (x z : ExitNode) (ys : List ExitNode)
    → Memᴰ z (x ∷ ys)
    → Memᴰ z (insert_sorted less_exit_node x ys)
unfolding insert_sorted
insert_sorted-mem x z [] m = m
insert_sorted-mem x z (y ∷ ys) m =
    if_either (Memᴰ z) (less_exit_node y x)
      (elim (Memᴰ.cases_cons m) [
        | inl h ↦ Memᴰ.tail (insert_sorted-mem x z ys (Memᴰ.head h))
        | inr n ↦ elim (Memᴰ.cases_cons n) [
          | inl h ↦ Memᴰ.head h
          | inr k ↦ Memᴰ.tail (insert_sorted-mem x z ys (Memᴰ.tail k))
        ]
      ])
      m

mem-sort_slice :
    (z : ExitNode) (xs : List ExitNode) → Memᴰ z (sort_slice less_exit_node xs) → Memᴰ z xs
unfolding sort_slice
mem-sort_slice z [] m = m
mem-sort_slice z (x ∷ xs) m =
    elim (Memᴰ.cases_cons (mem-insert_sorted x z (sort_slice less_exit_node xs) m)) [
      | inl e ↦ Memᴰ.head e
      | inr n ↦ Memᴰ.tail (mem-sort_slice z xs n)
    ]

sort_slice-mem :
    (z : ExitNode) (xs : List ExitNode) → Memᴰ z xs → Memᴰ z (sort_slice less_exit_node xs)
unfolding sort_slice
sort_slice-mem z [] m = m
sort_slice-mem z (x ∷ xs) (Memᴰ.head e) = insert_sorted-mem x z _ (Memᴰ.head e)
sort_slice-mem z (x ∷ xs) (Memᴰ.tail m) =
    insert_sorted-mem x z _ (Memᴰ.tail (sort_slice-mem z xs m))

insert_sorted-Headed :
    (x : ExitNode) (ys : List ExitNode) → Headed ys → Headed (insert_sorted less_exit_node x ys)
unfolding insert_sorted
insert_sorted-Headed x [] h = λ z m. rw (Memᴰ.eq_of_singleton m) (less_irrefl x)
insert_sorted-Headed x (y ∷ ys) h =
    if_cases Headed (less_exit_node y x)
      (λ e z m. elim (Memᴰ.cases_cons m) [
        | inl k ↦ rw k (less_irrefl y)
        | inr n ↦ elim (Memᴰ.cases_cons (mem-insert_sorted x z ys n)) [
          | inl k ↦ rw k (less-asym y x e)
          | inr j ↦ h z (Memᴰ.tail j)
        ]
      ])
      (λ e z m. elim (Memᴰ.cases_cons m) [
        | inl k ↦ rw k (less_irrefl x)
        | inr n ↦ less-cotrans z y x (h z n) e
      ])

sort_slice-Headed : (xs : List ExitNode) → Headed (sort_slice less_exit_node xs)
unfolding sort_slice
sort_slice-Headed [] = tt
sort_slice-Headed (x ∷ xs) =
    insert_sorted-Headed x (sort_slice less_exit_node xs) (sort_slice-Headed xs)

-- A node that may be chosen: one of the catalog, in one of the countries, and measured if that is
-- required.
abbrev pub Eligible :
    ExitCatalog → (codes : List Text) → (require_measured : Bool) → ExitNode → Type 0
Eligible c codes require_measured n =
    ((code : Text) × Memᴰ code codes × (is_of_country code n ≡ true))
    × Memᴰ n (all_nodes c)
    × (is_measured require_measured n ≡ true)

later-Eligible :
    (c : ExitCatalog) (code : Text) (codes : List Text) (rm : Bool) (n : ExitNode)
    → Eligible c codes rm n
    → Eligible c (code ∷ codes) rm n
later-Eligible c code codes rm n ((k, m, e), i, u) = ((k, Memᴰ.tail m, e), i, u)

mem-nodes_for_country :
    (c : ExitCatalog) (code : Text) (n : ExitNode)
    → Memᴰ n (nodes_for_country c code) ↔ (Memᴰ n (all_nodes c) × (is_of_country code n ≡ true))
unfolding nodes_for_country
mem-nodes_for_country c code n = (
  λ m. mem-keep (is_of_country code) (all_nodes c) n (mem-sort_slice n _ m),
  λ (m, e). sort_slice-mem n _ (keep-mem (is_of_country code) (all_nodes c) n m e),
)

-- The candidates are those there were and the eligible nodes.
abbrev Gathers : ExitCatalog → Bool → List ExitNode → List Text → Type 0
Gathers c rm acc codes =
    (found : List ExitNode) × (candidates c false rm acc codes ≡ inr found)
    × ((n : ExitNode) → Memᴰ n found ↔ (Memᴰ n acc ⊎ Eligible c codes rm n))

candidates-Gathers :
    (c : ExitCatalog) (rm : Bool) (acc : List ExitNode) (codes : List Text) → Gathers c rm acc codes
unfolding candidates failover_choice
candidates-Gathers c rm acc [] = (
  acc,
  refl,
  λ n. (
    λ m. inl m,
    λ (s : Memᴰ n acc ⊎ Eligible c [] rm n). elim s [
      | inl m ↦ m
      | inr ((k, m, e), i, u) ↦ absurd (Memᴰ.not-nil m)
    ],
  ),
)
candidates-Gathers c rm acc (code ∷ codes) =
    let here = keep (is_measured rm) (nodes_for_country c code) in
    let (found, e, members) = candidates-Gathers c rm (acc ++ here) codes in
    (
      found,
      e,
      λ n. (
        λ m. elim ((members n).0 m) [
          | inl k ↦ elim (Memᴰ.append_cases acc k) [
            | inl a ↦ inl a
            | inr b ↦
                let (i, u) = mem-keep (is_measured rm) (nodes_for_country c code) n b in
                let (j, o) = (mem-nodes_for_country c code n).0 i in
                inr ((code, Memᴰ.head refl, o), j, u)
          ]
          | inr l ↦ inr (later-Eligible c code codes rm n l)
        ],
        λ (s : Memᴰ n acc ⊎ Eligible c (code ∷ codes) rm n). elim s [
          | inl a ↦ (members n).1 (inl (Memᴰ.append_left here a))
          | inr ((k, m, o), j, u) ↦ elim (Memᴰ.cases_cons m) [
            | inl q ↦
                let own : is_of_country code n ≡ true = ap (λ t. is_of_country t n) (sym q) ∙ o in
                (members n).1 (
                  inl (
                    Memᴰ.append_right acc (
                      keep-mem (is_measured rm) (nodes_for_country c code) n
                        ((mem-nodes_for_country c code n).1 (j, own)) u)))
            | inr later ↦ (members n).1 (inr ((k, later, o), j, u))
          ]
        ],
      ),
    )

-- The order of the nodes: a node is better if it is measured and the other is not, or if both are measured
-- and it is faster, or as fast and heavier; among those that are not measured, the ones that no measurement
-- was tried of (-1) come before the ones whose measurement failed, and the heavier first.
abbrev better_by : ℤ → ℤ → ℤ → ℤ → Bool
better_by (pos l) (pos k) v w = ltb l k || (l == k && ltb_ℤ w v)
better_by (pos l) (negsuc k) v w = true
better_by (negsuc l) (pos k) v w = false
better_by (negsuc zero) (negsuc zero) v w = ltb_ℤ w v
better_by (negsuc zero) (negsuc (suc k)) v w = true
better_by (negsuc (suc l)) (negsuc zero) v w = false
better_by (negsuc (suc l)) (negsuc (suc k)) v w = ltb_ℤ w v

abbrev pub is_better : ExitNode → ExitNode → Bool
is_better a b = better_by a.latency_ms b.latency_ms a.consensus_weight b.consensus_weight

abbrev pub Best :
    ExitCatalog → (codes : List Text) → (require_measured : Bool) → Option ExitNode → Type 0
Best c codes rm none = (n : ExitNode) → ¬ Eligible c codes rm n
Best c codes rm (some b) =
    Eligible c codes rm b × ((n : ExitNode) → Eligible c codes rm n → is_better n b ≡ false)

-- The order of the code.
less-better_by :
    (l k v w : ℤ)
    → (if not (latency_rank l == latency_rank k)
        then ltb (latency_rank l) (latency_rank k)
        else if leb_ℤ (pos 0) l && not (eqb_ℤ l k)
        then ltb_ℤ l k
        else ltb_ℤ w v)
      ≡ better_by l k v w
unfolding latency_rank
less-better_by (pos l) (pos k) v w = ground arith
less-better_by (pos l) (negsuc k) v w = ground arith
less-better_by (negsuc l) (pos k) v w = ground arith
less-better_by (negsuc zero) (negsuc zero) v w = ground arith
less-better_by (negsuc zero) (negsuc (suc k)) v w = ground arith
less-better_by (negsuc (suc l)) (negsuc zero) v w = ground arith
less-better_by (negsuc (suc l)) (negsuc (suc k)) v w = ground arith

less-better : (a b : ExitNode) → less_exit_node a b ≡ is_better a b
unfolding less_exit_node
less-better a b = less-better_by a.latency_ms b.latency_ms a.consensus_weight b.consensus_weight

first-Best :
    (c : ExitCatalog) (codes : List Text) (rm : Bool) (found sorted : List ExitNode)
    → ((n : ExitNode) → Memᴰ n found ↔ (Memᴰ n [] ⊎ Eligible c codes rm n))
    → ((n : ExitNode) → Memᴰ n sorted ↔ Memᴰ n found)
    → Headed sorted
    → Best c codes rm (first_node sorted)
unfolding first_node
first-Best c codes rm found [] members same_members h =
    λ n l. absurd (Memᴰ.not-nil ((same_members n).1 ((members n).1 (inr l))))
first-Best c codes rm found (b ∷ bs) members same_members h = (
  elim ((members b).0 ((same_members b).0 (Memᴰ.head refl))) [
    | inl m ↦ absurd (Memᴰ.not-nil m)
    | inr l ↦ l
  ],
  λ n l. sym (less-better n b) ∙ h n ((same_members n).1 ((members n).1 (inr l))),
)

-- For the policy of the lowest latency, the candidate chosen among some countries is a node of the
-- catalog in one of them, measured if that is required, and no other such node is better: measured
-- where it is not, faster, or as fast and heavier; and none is chosen only if there is no such node.
pub best_candidate-Best :
    (c : ExitCatalog) (codes : List Text) (require_measured : Bool)
    → Best c codes require_measured (best_candidate c codes false require_measured)
unfolding best_candidate pick
best_candidate-Best c codes rm =
    let (found, e, members) = candidates-Gathers c rm [] codes in
    rw (e, pick)
      (first-Best c codes rm found (sort_slice less_exit_node found) members
        (λ n. (mem-sort_slice n found, sort_slice-mem n found)) (sort_slice-Headed found))
