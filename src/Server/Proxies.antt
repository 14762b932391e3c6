-- ===== src/Server/Proxies.antt =====
-- client_routes.go and proxy.go: the listeners of the countries, and one proxied connection up to where
-- the copying begins. A connection that is open when it begins is released at its end.
use tor_country_manager.Shared.{
  ℕ, Bool, true, false, ◌&&◌, ◌||◌, not, List, [], ◌∷◌, ◌++◌, Option, none, some, ◌⊎◌, inl, inr,
  if◌then◌else◌, is_some, ◌==◌,
}
use mathlib.Core.List.{reverse}
use tor_country_manager.Shared.Text.{Text, text, same, is_empty}
use tor_country_manager.Shared.Int.{ℤ, pos}
use tor_country_manager.Shared.Assoc.{lookup, insert}
use tor_country_manager.Config.Defs.{Country, normalize_code, country_port}
use tor_country_manager.Socks.Negotiate.{negotiate_client_auth}
use tor_country_manager.Manager.Defs.{
  Manager, Instance, Status, is_running_status, is_switching_status,
}
use tor_country_manager.Manager.Traffic.{acquire_instance, release_instance}
use tor_country_manager.Manager.Nodes.{instance_copy}

-- `countryListeners`, by code, with the port of each; and whether `countryProxyCtx` is set and not over.
pub record Proxies : Type 0 where
  pub listeners : List (Text × ℤ)
  pub is_serving : Bool

pub data ProxyError : Type 0 where
  invalid_code no_client_key not_serving : ProxyError
  no_such_country : Text → ProxyError
  cannot_listen : Text → ProxyError

-- `StartCountryProxies`, and what its goroutine does when the context ends.
unfoldable pub start_country_proxies : Proxies → Proxies
start_country_proxies p = record p { is_serving = true }

unfoldable pub end_country_proxies : Proxies → Proxies
end_country_proxies p = record { listeners = []; is_serving = false }

unfoldable open_listener : Proxies → Text → ℤ → Option Text → Proxies × (ProxyError ⊎ ℤ)
open_listener p code port (some e) = (p, inl (cannot_listen e))
open_listener p code port none = (record p { listeners = insert code port p.listeners }, inr port)

unfoldable ensure_port :
    Manager → Proxies → (key code : Text) → Option ℤ → Option Text → Proxies × (ProxyError ⊎ ℤ)
unfolding open_listener
ensure_port m p key code none failure = (p, inl invalid_code)
ensure_port m p key code (some port) failure =
    if is_empty key
    then (p, inl no_client_key)
    else if not (is_some (lookup code m.instances))
    then (p, inl (no_such_country code))
    else if is_some (lookup code p.listeners)
    then (p, inr port)
    else if not p.is_serving
    then (p, inl not_serving)
    else open_listener p code port failure

-- `EnsureCountryProxy`; `failure` is the error of `net.Listen`, if it fails.
unfoldable pub ensure_country_proxy :
    Manager → Proxies → (key : Text) → Text → (failure : Option Text) → Proxies × (ProxyError ⊎ ℤ)
unfolding ensure_port
ensure_country_proxy m p key code failure =
    ensure_port m p key (normalize_code code)
      (country_port m.cfg.country_proxy_port (normalize_code code)) failure

-- What the local port of the Tor process does: it cannot be dialled, does not answer the greeting, or
-- answers it with two bytes.
pub data TorAnswer : Type 0 where
  not_dialled no_answer : TorAnswer
  greeted : (version method : ℕ) → TorAnswer

unfoldable pub accepts_greeting : TorAnswer → Bool
accepts_greeting (greeted version method) = version == 5 && method == 0
accepts_greeting _ = false

-- The state, what was written to the client, and the instance to which the bytes are copied from now on.
pub record Forwarded : Type 0 where
  pub manager : Manager
  pub written : Text
  pub tunnel : Option ℕ

abbrev failure_reply : Text
failure_reply = 5 ∷ 1 ∷ 0 ∷ 1 ∷ 0 ∷ 0 ∷ 0 ∷ 0 ∷ 0 ∷ 0 ∷ []

-- `confirms` is whether the last answer to the client is written.
unfoldable pub forward_acquired :
    Text → Manager × Option ℕ → (tor : TorAnswer) → (confirms : Bool) → Forwarded
unfolding accepts_greeting
forward_acquired written (m, none) tor confirms = record {
  manager = m;
  written = written ++ failure_reply;
  tunnel = none;
}
forward_acquired written (m, some p) tor confirms =
    if not (accepts_greeting tor)
    then record {
      manager = release_instance m p;
      written = written ++ failure_reply;
      tunnel = none;
    }
    else if not confirms
    then record { manager = release_instance m p; written = written; tunnel = none }
    else record { manager = m; written = written ++ (1 ∷ 0 ∷ []); tunnel = some p }

-- `forwardCountry` on what the client sends; `sends` and `confirms` are whether the two answers that
-- the code checks are written.
unfoldable pub forward_country :
    Manager
    → (key code : Text) → (sends : Bool) → (input : Text) → TorAnswer
    → (confirms : Bool) → Forwarded
unfolding forward_acquired
forward_country m key code sends input tor confirms =
    let n = negotiate_client_auth sends code key input in
    if not n.accepted
    then record { manager = m; written = n.written; tunnel = none }
    else forward_acquired n.written (acquire_instance m code) tor confirms

unfoldable forward_active : Manager × Option ℕ → (dialled : Bool) → Manager × Option ℕ
forward_active (m, none) dialled = (m, none)
forward_active (m, some p) dialled =
    if not dialled then (release_instance m p, none) else (m, some p)

-- `forward` of proxy.go, a connection to the active country.
unfoldable pub forward : Manager → (dialled : Bool) → Manager × Option ℕ
unfolding forward_active
forward m dialled = forward_active (acquire_instance m m.active) dialled

pub record ClientRoute : Type 0 where
  pub country : Country
  pub host : Text
  pub port : ℤ
  pub username : Text
  pub status : Status
  pub ready : Bool
  pub exit_ip : Text
  pub selected_ip : Text
  pub selected_node : Text
  pub latency_ms : ℤ

unfoldable strip_left : Text → Text
strip_left [] = []
strip_left (c ∷ cs) = let rest = strip_left cs in if c == b'[' || c == b']' then rest else c ∷ cs

abbrev host_or : Option (Text × Text) → Text → Text
host_or none other = other
host_or (some (host, port)) other = host

unfoldable pub public_route_host :
    (Text → Option (Text × Text)) → (request_host configured_host : Text) → Text
unfolding strip_left text
public_route_host split_host_port request_host configured_host =
    if not (is_empty configured_host)
      && (not (same configured_host (text "0.0.0.0")) && not (same configured_host (text "::")))
    then configured_host
    else host_or (split_host_port request_host)
        (reverse (strip_left (reverse (strip_left request_host))))

unfoldable route_of_instance : Instance → Text → Text → ℤ → ClientRoute
route_of_instance i code host port = record {
  country = i.country;
  host = host;
  port = port;
  username = code;
  status = i.status;
  ready = is_running_status i.status || is_switching_status i.status;
  exit_ip = i.exit_ip;
  selected_ip = i.selected_ip;
  selected_node = i.selected_node;
  latency_ms = pos 0;
}

unfoldable routed :
    Instance → Text → Text → Proxies × (ProxyError ⊎ ℤ) → Proxies × (ProxyError ⊎ ClientRoute)
unfolding route_of_instance
routed i code host (p, inl e) = (p, inl e)
routed i code host (p, inr port) = (p, inr (route_of_instance i code host port))

-- `clientRouteForRequest`; `host` is what `publicRouteHost` makes of the request's.
unfoldable pub client_route_for_request :
    Manager
    → Proxies
    → (key host : Text) → Text
    → Option Text
    → Proxies × (ProxyError ⊎ ClientRoute)
unfolding routed ensure_country_proxy
client_route_for_request m p key host code0 failure =
    let code = normalize_code code0 in
    let ensured = ensure_country_proxy m p key code failure in
    elim (instance_copy m code) [
      | none ↦ (p, inl (no_such_country code))
      | some i ↦ routed i code host ensured
    ]
