-- ===== src/Catalog/Sound.antt =====
-- catalog.go: what holds of every node of the catalog, and what a refresh brings in.
use mathlib.Core.List.{Memᴰ}
use tor_country_manager.Shared.{
  ℕ, Bool, true, false, List, [], ◌∷◌, Option, none, some, if◌then◌else◌, ◌==◌, ◌≡◌, refl, arith,
  length, All, Option-cases, if_either, if_cases, inl, inr,
}
use tor_country_manager.Shared.Text.{Text, is_empty, to_upper}
use tor_country_manager.Shared.Assoc.{lookup, All-insert, All-lookup}
use tor_country_manager.Shared.Int.{pos, negsuc, leb_ℤ, eqb_ℤ}
use tor_country_manager.Config.Defs.{Config, country_code_pattern}
use tor_country_manager.Catalog.Nodes.{ExitNode, ExitCatalog}
use tor_country_manager.Catalog.Names.{continent_for}
use tor_country_manager.Catalog.Policy.{allows_port}
use tor_country_manager.Catalog.Refresh.{
  AddressLib, Relay, Fetched, document, FetchError, new_catalog, update_upstream, choose_exit_ip,
  node_of_relay, is_skipped, keep_latency, add_relays, take_document, refresh, ensure_fresh,
  measure_tcp_latency, latency_measured,
}

-- A node and its key: the key is its fingerprint, it has an address and a country's code, and its
-- latency is a positive number of milliseconds, or the value of no measurement or of one that failed.
abbrev pub Sound : Text × ExitNode → Type 0
Sound (key, n) =
    (key ≡ n.fingerprint)
    × (country_code_pattern n.country_code ≡ true)
    × (is_empty n.ip ≡ false)
    × (n.continent ≡ continent_for n.country_code)
    × (eqb_ℤ n.latency_ms (pos 0) ≡ false)
    × (leb_ℤ (negsuc 1) n.latency_ms ≡ true)

-- What a node that a refresh brings in has from a relay of the document.
abbrev pub FromRelay : AddressLib → List Relay → Text × ExitNode → Type 0
FromRelay lib relays (key, n) =
    (r : Relay) × Memᴰ r relays
    × (allows_port r.accept r.reject (pos 443) ≡ true)
    × (key ≡ to_upper r.fingerprint)
    × (n.fingerprint ≡ to_upper r.fingerprint)
    × (n.ip ≡ choose_exit_ip lib r.exit_addresses r.or_addresses)

-- The loop over the relays keeps what holds of the map before it and of each node that it adds.
add_relays-All :
    (lib : AddressLib) (P : Text × ExitNode → Type 0) (previous : List (Text × ExitNode)) (now : ℕ)
    (rs : List Relay) (updated : List (Text × ExitNode))
    → ((r : Relay)
        → Memᴰ r rs
        → is_skipped lib r ≡ false
        → (let n =
              keep_latency (lookup (to_upper r.fingerprint) previous) (node_of_relay lib r) now in
            P (n.fingerprint, n)))
    → All P updated
    → All P (add_relays lib previous now rs updated)
unfolding add_relays
add_relays-All lib P previous now [] updated each a = a
add_relays-All lib P previous now (r ∷ rs) updated each a =
    add_relays-All lib P previous now rs _ (λ q m s. each q (Memᴰ.tail m) s)
      (if_cases (All P) (is_skipped lib r) (λ e. a)
        (λ e. All-insert P _ _ updated (each r (Memᴰ.head refl) e) a))

-- A relay that the loop takes.
taken-Sound :
    (lib : AddressLib) (r : Relay) (previous : List (Text × ExitNode)) (now : ℕ)
    → All Sound previous
    → is_skipped lib r ≡ false
    → (let n = keep_latency (lookup (to_upper r.fingerprint) previous) (node_of_relay lib r) now in
        Sound (n.fingerprint, n))
unfolding is_skipped keep_latency node_of_relay
taken-Sound lib r previous now a s =
    elim (Option-cases (lookup (to_upper r.fingerprint) previous)) [
      | inl e ↦ rw e (ground arith)
      | inr (p, e) ↦
          let old = All-lookup Sound (to_upper r.fingerprint) p previous a e in
          rw e (ground (arith, old))
    ]

keep_latency-same :
    (o : Option ExitNode) (n : ExitNode) (now : ℕ)
    → ((keep_latency o n now).fingerprint ≡ n.fingerprint) × ((keep_latency o n now).ip ≡ n.ip)
unfolding keep_latency
keep_latency-same none n now = (refl, refl)
keep_latency-same (some p) n now = (ground arith, ground arith)

skipped-allows_port :
    (lib : AddressLib) (r : Relay)
    → is_skipped lib r ≡ false
    → allows_port r.accept r.reject (pos 443) ≡ true
unfolding is_skipped
skipped-allows_port lib r s = ground arith

taken-FromRelay :
    (lib : AddressLib) (rs : List Relay) (r : Relay) (previous : List (Text × ExitNode)) (now : ℕ)
    → Memᴰ r rs
    → is_skipped lib r ≡ false
    → (let n = keep_latency (lookup (to_upper r.fingerprint) previous) (node_of_relay lib r) now in
        FromRelay lib rs (n.fingerprint, n))
unfolding node_of_relay
taken-FromRelay lib rs r previous now m s =
    let (fp, ip) =
      keep_latency-same (lookup (to_upper r.fingerprint) previous) (node_of_relay lib r) now in
    (r, m, skipped-allows_port lib r s, fp, fp, ip)

-- The calls that write to the catalog.
pub data CatalogEvent : Type 0 where
  refreshed : (force : Bool) → Fetched → (now later : ℕ) → CatalogEvent
  upstream_changed : Config → CatalogEvent
  measurement_ended : ExitNode → (elapsed : Option ℕ) → (now : ℕ) → CatalogEvent

unfoldable pub catalog_step : AddressLib → ExitCatalog → CatalogEvent → ExitCatalog
unfolding refresh latency_measured
catalog_step lib c (refreshed force fetched now later) = (refresh lib c force fetched now later).0
catalog_step lib c (upstream_changed cfg) = update_upstream c cfg
catalog_step lib c (measurement_ended n elapsed now) = latency_measured c n elapsed now

unfoldable pub run_catalog : AddressLib → ExitCatalog → List CatalogEvent → ExitCatalog
unfolding catalog_step
run_catalog lib c [] = c
run_catalog lib c (e ∷ es) = run_catalog lib (catalog_step lib c e) es

document-Sound :
    (lib : AddressLib) (c : ExitCatalog) (fetched : Fetched) (now : ℕ)
    → All Sound c.nodes
    → All Sound (take_document lib c fetched now).0.nodes
unfolding take_document
document-Sound lib c (Fetched.unreachable e) now a = a
document-Sound lib c (Fetched.bad_status n) now a = a
document-Sound lib c (Fetched.unparsable e) now a = a
document-Sound lib c (Fetched.document rs) now a =
    add_relays-All lib Sound c.nodes now rs [] (λ r m s. taken-Sound lib r c.nodes now a s) tt

refresh-Sound :
    (lib : AddressLib) (c : ExitCatalog) (force : Bool) (fetched : Fetched) (now later : ℕ)
    → All Sound c.nodes
    → All Sound (refresh lib c force fetched now later).0.nodes
unfolding refresh
refresh-Sound lib c force fetched now later a =
    if_either (λ (r : ExitCatalog × Option FetchError). All Sound r.0.nodes) _ a
      (document-Sound lib c fetched later a)

measured-Sound :
    (c : ExitCatalog) (n : ExitNode) (elapsed : Option ℕ) (now : ℕ)
    → All Sound c.nodes
    → All Sound (latency_measured c n elapsed now).nodes
unfolding latency_measured measure_tcp_latency
measured-Sound c n elapsed now a = elim (Option-cases (lookup n.fingerprint c.nodes)) [
  | inl e ↦ rw e a
  | inr (p, e) ↦
      let (key, code, ip, continent, u, v) = All-lookup Sound n.fingerprint p c.nodes a e in
      rw e (All-insert Sound _ _ c.nodes (key, code, ip, continent, ground arith, ground arith) a)
]

step-Sound :
    (lib : AddressLib) (c : ExitCatalog) (e : CatalogEvent)
    → All Sound c.nodes
    → All Sound (catalog_step lib c e).nodes
unfolding catalog_step update_upstream
step-Sound lib c (CatalogEvent.refreshed force fetched now later) a =
    refresh-Sound lib c force fetched now later a
step-Sound lib c (CatalogEvent.upstream_changed cfg) a = a
step-Sound lib c (CatalogEvent.measurement_ended n elapsed now) a = measured-Sound c n elapsed now a

run-Sound :
    (lib : AddressLib) (es : List CatalogEvent) (c : ExitCatalog)
    → All Sound c.nodes
    → All Sound (run_catalog lib c es).nodes
unfolding run_catalog
run-Sound lib [] c a = a
run-Sound lib (e ∷ es) c a = run-Sound lib es _ (step-Sound lib c e a)

-- After any sequence of refreshes, changes of the upstream proxy and ends of latency measurements,
-- each node of the catalog stands under its own fingerprint, with an address, the code of a country
-- and the continent of that country; its latency is never 0 and never below -2.
pub catalog-Sound :
    (lib : AddressLib) (cfg : Config) (es : List CatalogEvent)
    → All Sound (run_catalog lib (new_catalog cfg) es).nodes
unfolding new_catalog
catalog-Sound lib cfg es = run-Sound lib es (new_catalog cfg) tt

-- After a forced refresh whose answer is a document, the catalog has no error, is as old as the
-- answer, and each of its nodes is of a relay of the document whose exit policy allows the port 443,
-- under that relay's fingerprint and with the address chosen for it.
pub refresh-FromRelay :
    (lib : AddressLib) (c : ExitCatalog) (relays : List Relay) (now later : ℕ)
    → (let (d, error) = refresh lib c true (document relays) now later in
        (error ≡ none)
        × (d.fetched_at ≡ later)
        × (d.last_error ≡ [])
        × All (FromRelay lib relays) d.nodes)
unfolding refresh take_document
refresh-FromRelay lib c relays now later = (
  refl,
  refl,
  refl,
  add_relays-All lib (FromRelay lib relays) c.nodes later relays []
      (λ r m s. taken-FromRelay lib relays r c.nodes later m s) tt,
)

-- A refresh that fails leaves the nodes, their age and the configuration as they are, so the nodes
-- remain in use; `EnsureFresh` reports such a failure exactly if there are no nodes.
pub failed_refresh :
    (lib : AddressLib) (c : ExitCatalog) (force : Bool) (fetched : Fetched) (now later : ℕ)
    (e : FetchError)
    → (refresh lib c force fetched now later).1 ≡ some e
    → (let d = (refresh lib c force fetched now later).0 in
        (d.nodes ≡ c.nodes)
        × (d.fetched_at ≡ c.fetched_at)
        × (d.cfg ≡ c.cfg)
        × ((ensure_fresh lib c fetched now later).1
            ≡ (if length c.nodes == 0 then some e else none)))
unfolding refresh take_document ensure_fresh
failed_refresh lib c force (Fetched.unreachable x) now later e h = ground arith
failed_refresh lib c force (Fetched.bad_status n) now later e h = ground arith
failed_refresh lib c force (Fetched.unparsable x) now later e h = ground arith
failed_refresh lib c force (Fetched.document rs) now later e h = ground arith
