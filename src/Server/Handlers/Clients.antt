-- ===== src/Server/Handlers/Clients.antt =====
-- main.go: the handlers for the clients of the country proxies, under `/api/v1/`.
use tor_country_manager.Shared.{
  ℕ, false, List, [], ◌∷◌, Option, none, some, ◌⊎◌, inl, inr, if◌then◌else◌, map,
}
use tor_country_manager.Shared.Text.{Text, is_empty}
use tor_country_manager.Shared.Int.{ℤ, pos}
use tor_country_manager.Config.Defs.{country_port}
use tor_country_manager.Catalog.Nodes.{ExitNode, ExitCatalog, SelectError, select_node}
use tor_country_manager.Catalog.Refresh.{
  FetchError, ExitCountry, ensure_fresh, countries, latency_measured,
}
use tor_country_manager.Manager.Defs.{Manager, ManagerError, no_country, unset}
use tor_country_manager.Manager.Stop.{stop}
use tor_country_manager.Manager.Nodes.{start_node}
use tor_country_manager.Server.Proxies.{
  Proxies, ProxyError, ClientRoute, ensure_country_proxy, public_route_host,
  client_route_for_request,
}
use tor_country_manager.Server.State.{
  Server, Request, RouteRequest, Response, Libraries, World, ServerError, of_manager, of_fetch,
  of_select, of_proxy, client_exit_countries, client_route, stopping,
}
use tor_country_manager.Server.Handlers.{respond, write_error, decode_json}
use tor_country_manager.Server.Handlers.Countries.{choice_of}

-- `PORT, _ :=`: a code without a port has the port 0 there, which is `none` here.
unfoldable pub after_client_countries : Server → ExitCatalog × Option FetchError → Server × Response
after_client_countries s (c, some e) = (record s { catalog = c }, write_error (of_fetch e))
after_client_countries s (c, none) = (
  record s { catalog = c },
  respond 200 (
      client_exit_countries (
        map (λ (x : ExitCountry). (x, country_port s.cfg.country_proxy_port x.code))
          (countries c))),
)

unfoldable pub handle_client_countries : Libraries → Server → World → Server × Response
unfolding after_client_countries
handle_client_countries lib s w =
    after_client_countries s (ensure_fresh lib.address s.catalog w.fetched w.now w.later)

-- The measurements that end while `SelectNode` waits.
unfoldable pub after_measurements : ExitCatalog → List (ExitNode × (Option ℕ × ℕ)) → ExitCatalog
after_measurements c [] = c
after_measurements c ((n, (elapsed, now)) ∷ rest) =
    after_measurements (latency_measured c n elapsed now) rest

-- What is read of the request for the address of a route.
unfoldable pub route_host : Libraries → Server → Request → Text
route_host lib s r = public_route_host lib.address.split_host_port r.host s.cfg.country_proxy_host

-- The zero value of a route.
abbrev empty_route : ClientRoute
empty_route = record {
  country = no_country;
  host = [];
  port = pos 0;
  username = [];
  status = unset;
  ready = false;
  exit_ip = [];
  selected_ip = [];
  selected_node = [];
  latency_ms = pos 0;
}

-- The route that was started, with the latency of its node; an error of the second call is ignored.
unfoldable pub route_response :
    Server → ExitNode → Proxies × (ProxyError ⊎ ClientRoute) → Server × Response
route_response s n (p, inl e) = (
  record s { proxies = p },
  respond 202 (client_route (record empty_route { latency_ms = n.latency_ms })),
)
route_response s n (p, inr route) = (
  record s { proxies = p },
  respond 202 (client_route (record route { latency_ms = n.latency_ms })),
)

unfoldable pub after_proxy :
    Server → Request → World → Text → ExitNode → Proxies × (ProxyError ⊎ ℤ) → Server × Response
unfolding route_response
after_proxy s r w host n (p, inl e) = (record s { proxies = p }, write_error (of_proxy e))
after_proxy s r w host n (p, inr port) =
    route_response (record s { proxies = p }) n
      (client_route_for_request s.manager p s.key host n.country_code none)

unfoldable pub after_start :
    Server → Request → World → Text → ExitNode → Manager × Option ManagerError → Server × Response
unfolding after_proxy
after_start s r w host n (m, some e) = (record s { manager = m }, write_error (of_manager e))
after_start s r w host n (m, none) =
    after_proxy (record s { manager = m }) r w host n
      (ensure_country_proxy m s.proxies s.key n.country_code w.listen_failure)

unfoldable pub after_select :
    Server → Request → World → Text → SelectError ⊎ ExitNode → Server × Response
unfolding after_start
after_select s r w host (inl e) = (s, write_error (of_select e))
after_select s r w host (inr n) =
    after_start s r w host n (start_node s.manager (choice_of n) false w.outside)

unfoldable pub candidate_countries : RouteRequest → List Text
candidate_countries q = if is_empty q.country then q.countries else q.country ∷ q.countries

unfoldable pub after_fresh_route :
    Server
    → Request
    → World
    → Text
    → RouteRequest
    → ExitCatalog × Option FetchError
    → Server × Response
unfolding after_select candidate_countries after_measurements
after_fresh_route s r w host q (c, some e) = (record s { catalog = c }, write_error (of_fetch e))
after_fresh_route s r w host q (c, none) =
    let measured = after_measurements c w.measured in
    after_select (record s { catalog = measured }) r w host
      (select_node measured w.cancelled (candidate_countries q) q.policy)

unfoldable pub do_create_route :
    Libraries → Server → Request → World → ServerError ⊎ RouteRequest → Server × Response
unfolding after_fresh_route route_host
do_create_route lib s r w (inl e) = (s, write_error e)
do_create_route lib s r w (inr q) =
    after_fresh_route s r w (route_host lib s r) q
      (ensure_fresh lib.address s.catalog w.fetched w.now w.later)

unfoldable pub handle_create_route : Libraries → Server → Request → World → Server × Response
unfolding do_create_route
handle_create_route lib s r w =
    do_create_route lib s r w (decode_json lib.json.route_request lib.json.is_end r)

unfoldable pub after_route : Server → Proxies × (ProxyError ⊎ ClientRoute) → Server × Response
after_route s (p, inl e) = (record s { proxies = p }, write_error (of_proxy e))
after_route s (p, inr route) = (record s { proxies = p }, respond 200 (client_route route))

unfoldable pub handle_get_route : Libraries → Server → Request → World → Text → Server × Response
unfolding after_route route_host
handle_get_route lib s r w code =
    after_route s (
      client_route_for_request s.manager s.proxies s.key (route_host lib s r) code w.listen_failure)

unfoldable pub after_delete : Server → Manager × Option ManagerError → Server × Response
after_delete s (m, some e) = (record s { manager = m }, write_error (of_manager e))
after_delete s (m, none) = (record s { manager = m }, respond 202 stopping)

unfoldable pub handle_delete_route : Server → Text → Server × Response
unfolding after_delete
handle_delete_route s code = after_delete s (stop s.manager code)
