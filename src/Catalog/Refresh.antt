-- ===== src/Catalog/Refresh.antt =====
-- catalog.go: `refresh` and what surrounds it, `UpdateUpstream`, `Countries` and the latency checks.
-- What the directory answers and what an address library says of a text are arguments. The client
-- that fetches is the one that the configuration gives.
pub mod Countries
pub mod Latency
use tor_country_manager.Shared.{
  ℕ, suc, ◌+◌, Bool, true, false, ◌||◌, ◌&&◌, not, List, [], ◌∷◌, ◌++◌, Option, none, some, ltb,
  leb, if◌then◌else◌, ◌==◌, length, map, take,
}
use mathlib.Core.List.{reverse}
use tor_country_manager.Shared.Text.{Text, text, is_empty, to_upper, has_byte, decimal}
use tor_country_manager.Shared.Assoc.{lookup, insert}
use tor_country_manager.Shared.Int.{ℤ, pos, negsuc}
use tor_country_manager.Shared.Sort.{sort_slice}
use tor_country_manager.Config.Defs.{Config, normalize_code, country_code_pattern}
use tor_country_manager.Catalog.Nodes.{ExitNode, ExitCatalog, nodes_for_country, all_nodes}
use tor_country_manager.Catalog.Names.{continent_for, continent_order, country_display_name}
use tor_country_manager.Catalog.Policy.{allows_port}
pub use tor_country_manager.Catalog.Refresh.Countries.{ExitCountry}
unfoldable pub use tor_country_manager.Catalog.Refresh.Countries.{
  count_before, count_node, by_code, countries,
}
unfoldable pub use tor_country_manager.Catalog.Refresh.Latency.{
  five_minutes, start_latency_checks, measure_tcp_latency, latency_measured,
}

-- The text of an address of the fourth version, `none` for any other text; and the two parts of
-- `host:port`, taken apart and put together.
pub record AddressLib : Type 0 where
  pub ipv4 : Text → Option Text
  pub split_host_port : Text → Option (Text × Text)
  pub join_host_port : Text → Text → Text

-- A relay of the directory's document.
pub record Relay : Type 0 where
  pub fingerprint : Text
  pub nickname : Text
  pub or_addresses : List Text
  pub exit_addresses : List Text
  pub country : Text
  pub country_name : Text
  pub asn : Text
  pub as_name : Text
  pub consensus_weight : ℤ
  pub accept : List Text
  pub reject : List Text

-- What comes of the request to the directory: no answer, a status, or, under the status 200, a body
-- that is no document, or its relays.
pub data Fetched : Type 0 where
  unreachable : (error : Text) → Fetched
  bad_status : ℕ → Fetched
  unparsable : (error : Text) → Fetched
  document : List Relay → Fetched

pub data FetchError : Type 0 where
  not_loaded : Text → FetchError
  bad_http_status : ℕ → FetchError
  not_parsed : Text → FetchError

unfoldable pub new_catalog : Config → ExitCatalog
new_catalog cfg = record { cfg = cfg; nodes = []; fetched_at = 0; last_error = [] }

unfoldable pub update_upstream : ExitCatalog → Config → ExitCatalog
update_upstream c cfg = record c {
  cfg = record c.cfg {
    upstream_socks5 = cfg.upstream_socks5;
    upstream_username = cfg.upstream_username;
    upstream_password = cfg.upstream_password;
  };
  fetched_at = 0;
}

unfoldable trim_set : Text → Text → Text
trim_set set [] = []
trim_set set (c ∷ cs) = let rest = trim_set set cs in if has_byte c set then rest else c ∷ cs

-- `strings.Trim`.
unfoldable trim : Text → Text → Text
unfolding trim_set
trim set s = reverse (trim_set set (reverse (trim_set set s)))

abbrev pub ten_minutes : ℕ
ten_minutes = 600000000000

unfoldable is_fresh : ExitCatalog → (force : Bool) → (now : ℕ) → Bool
is_fresh c force now =
    not force && (not (length c.nodes == 0) && ltb now (c.fetched_at + ten_minutes))

unfoldable set_error : ExitCatalog → Text → ExitCatalog
set_error c error = record c { last_error = error }

abbrev or_text : Option Text → Text → Text
or_text none other = other
or_text (some t) other = t

-- The latency that was measured in the last five minutes is kept.
unfoldable pub keep_latency : Option ExitNode → ExitNode → (now : ℕ) → ExitNode
keep_latency none n now = n
keep_latency (some previous) n now =
    if ltb now (previous.latency_checked + five_minutes)
    then record n { latency_ms = previous.latency_ms; latency_checked = previous.latency_checked }
    else n

module _ (lib : AddressLib) where
  open lib use {ipv4, split_host_port, join_host_port}

  unfoldable first_exit : List Text → Option Text
  unfolding trim
  first_exit [] = none
  first_exit (a ∷ others) =
      let rest = first_exit others in
      elim (ipv4 (trim (b'[' ∷ b']' ∷ []) a)) [ none ↦ rest | some ip ↦ some ip ]

  -- The address of the host, where it is of the fourth version.
  unfoldable host_ip : Option (Text × Text) → Option Text
  host_ip none = none
  host_ip (some (host, port)) = ipv4 host

  unfoldable first_or : List Text → Option Text
  unfolding host_ip
  first_or [] = none
  first_or (a ∷ others) =
      let rest = first_or others in
      elim (host_ip (split_host_port a)) [ none ↦ rest | some ip ↦ some ip ]

  unfoldable pub choose_exit_ip : (exit_addresses or_addresses : List Text) → Text
  unfolding first_exit first_or
  choose_exit_ip exit_addresses or_addresses =
      or_text (first_exit exit_addresses) (or_text (first_or or_addresses) [])

  unfoldable joined : Option (Text × Text) → Option Text
  joined none = none
  joined (some (host, port)) = elim (ipv4 host) [
    | none ↦ none
    | some ip ↦ some (join_host_port host port)
  ]

  unfoldable pub choose_or_address : List Text → Text
  unfolding joined
  choose_or_address [] = []
  choose_or_address (a ∷ others) =
      let rest = choose_or_address others in
      elim (joined (split_host_port a)) [ none ↦ rest | some address ↦ address ]

  unfoldable pub node_of_relay : Relay → ExitNode
  unfolding choose_exit_ip choose_or_address
  node_of_relay r = record {
    fingerprint = to_upper r.fingerprint;
    nickname = r.nickname;
    ip = choose_exit_ip r.exit_addresses r.or_addresses;
    or_address = choose_or_address r.or_addresses;
    country_code = normalize_code r.country;
    country_name = country_display_name (normalize_code r.country) r.country_name;
    continent = continent_for (normalize_code r.country);
    asn = r.asn;
    isp = r.as_name;
    consensus_weight = r.consensus_weight;
    latency_ms = negsuc 0;
    latency_checked = 0;
  }

  -- The relays that the loop leaves out.
  unfoldable pub is_skipped : Relay → Bool
  unfolding node_of_relay
  is_skipped r =
      is_empty (node_of_relay r).country_code
      || (is_empty (node_of_relay r).ip
          || (not (country_code_pattern (node_of_relay r).country_code)
              || not (allows_port r.accept r.reject (pos 443))))

  -- The loop over the relays, from the map so far.
  unfoldable pub add_relays :
      (previous : List (Text × ExitNode))
      → (now : ℕ) → List Relay
      → List (Text × ExitNode)
      → List (Text × ExitNode)
  unfolding is_skipped keep_latency
  add_relays previous now [] updated = updated
  add_relays previous now (r ∷ rs) updated =
      let n = keep_latency (lookup (to_upper r.fingerprint) previous) (node_of_relay r) now in
      add_relays previous now rs (if is_skipped r then updated else insert n.fingerprint n updated)

  unfoldable pub take_document : ExitCatalog → Fetched → (now : ℕ) → ExitCatalog × Option FetchError
  unfolding add_relays set_error text
  take_document c (unreachable e) now = (set_error c e, some (not_loaded e))
  take_document c (bad_status n) now = (
    set_error c (text "Tor exit directory returned HTTP " ++ decimal n),
    some (bad_http_status n),
  )
  take_document c (unparsable e) now = (set_error c e, some (not_parsed e))
  take_document c (document relays) now = (
    record c { nodes = add_relays c.nodes now relays []; fetched_at = now; last_error = [] },
    none,
  )

  -- `refresh`, called at `now`; the answer is there at `later`.
  unfoldable pub refresh :
      ExitCatalog → (force : Bool) → Fetched → (now later : ℕ) → ExitCatalog × Option FetchError
  unfolding take_document is_fresh
  refresh c force fetched now later =
      if is_fresh c force now then (c, none) else take_document c fetched later

  unfoldable forgive : ExitCatalog × Option FetchError → ExitCatalog × Option FetchError
  forgive (c, none) = (c, none)
  forgive (c, some e) = if not (length c.nodes == 0) then (c, none) else (c, some e)

  unfoldable pub ensure_fresh :
      ExitCatalog → Fetched → (now later : ℕ) → ExitCatalog × Option FetchError
  unfolding refresh forgive
  ensure_fresh c fetched now later = forgive (refresh c false fetched now later)

pub record CatalogStatus : Type 0 where
  pub last_updated : ℕ
  pub last_error : Text
  pub node_count : ℕ
  pub stale : Bool

unfoldable pub status : ExitCatalog → ℕ → CatalogStatus
status c now = record {
  last_updated = c.fetched_at;
  last_error = c.last_error;
  node_count = length c.nodes;
  stale =
      c.fetched_at == 0 || (leb (c.fetched_at + ten_minutes) now || not (is_empty c.last_error));
}
