-- ===== src/Server/Handlers/Countries.antt =====
-- main.go: the handlers of the countries and of the exit nodes.
use tor_country_manager.Shared.{
  true, not, List, Option, none, some, ◌⊎◌, inl, inr, if◌then◌else◌, ◌==◌, length,
}
use tor_country_manager.Shared.Text.{Text}
use tor_country_manager.Config.Defs.{normalize_code, country_code_pattern}
use tor_country_manager.Catalog.Nodes.{ExitNode, ExitCatalog, node_at, nodes_for_country}
use tor_country_manager.Catalog.Refresh.{FetchError, ensure_fresh, refresh, countries, status}
use tor_country_manager.Manager.Defs.{Manager, ManagerError}
use tor_country_manager.Manager.Start.{start, activate}
use tor_country_manager.Manager.Stop.{stop}
use tor_country_manager.Manager.Replace.{NodeChoice, cancel_replacement}
use tor_country_manager.Manager.Nodes.{start_node, state}
use tor_country_manager.Manager.Control.{tail_file}
use tor_country_manager.Manager.Upstream.{instance_log_path}
use tor_country_manager.Server.State.{
  Server, Response, Libraries, World, of_manager, of_fetch, bad_code, exit_gone, no_log,
  log_unreadable, manager_state, log_text, exit_countries, exit_nodes,
}
use tor_country_manager.Server.Handlers.{respond, write_error}

unfoldable pub handle_state : Server → Server × Response
handle_state s = (s, respond 200 (manager_state (state s.manager)))

-- The manager after a call, and the response that shows its state, or the error.
unfoldable pub after_call : Server → Manager × Option ManagerError → Server × Response
after_call s (m, some e) = (record s { manager = m }, write_error (of_manager e))
after_call s (m, none) = (record s { manager = m }, respond 202 (manager_state (state m)))

unfoldable pub handle_start : Server → World → Text → Server × Response
unfolding after_call
handle_start s w code = after_call s (start s.manager code w.spawn w.now)

unfoldable pub handle_stop : Server → Text → Server × Response
unfolding after_call
handle_stop s code = after_call s (stop s.manager code)

unfoldable pub handle_cancel : Server → Text → Server × Response
unfolding after_call
handle_cancel s code = after_call s (cancel_replacement s.manager code)

unfoldable pub handle_activate : Server → World → Text → Server × Response
unfolding after_call
handle_activate s w code = after_call s (activate s.manager code w.spawn w.now)

unfoldable pub read_log : Text ⊎ List Text → Response
read_log (inl e) = write_error (log_unreadable e)
read_log (inr lines) = respond 200 (log_text (tail_file lines 200))

unfoldable pub log_response : World → Option Text → Response
unfolding read_log
log_response w none = write_error no_log
log_response w (some path) = read_log (w.log path)

unfoldable pub handle_log : Server → World → Text → Server × Response
unfolding log_response
handle_log s w code0 =
    let code = normalize_code code0 in
    if not (country_code_pattern code)
    then (s, write_error bad_code)
    else (s, log_response w (instance_log_path s.manager w.log_path code))

unfoldable pub after_countries :
    Server → World → ExitCatalog × Option FetchError → Server × Response
after_countries s w (c, some e) = (record s { catalog = c }, write_error (of_fetch e))
after_countries s w (c, none) =
    (record s { catalog = c }, respond 200 (exit_countries (countries c) (status c w.later)))

unfoldable pub handle_countries : Libraries → Server → World → Server × Response
unfolding after_countries
handle_countries lib s w =
    after_countries s w (ensure_fresh lib.address s.catalog w.fetched w.now w.later)

-- A refresh that fails is reported only without nodes.
unfoldable pub after_refresh : Server → World → ExitCatalog × Option FetchError → Server × Response
after_refresh s w (c, none) =
    (record s { catalog = c }, respond 200 (exit_countries (countries c) (status c w.later)))
after_refresh s w (c, some e) =
    if length c.nodes == 0
    then (record s { catalog = c }, write_error (of_fetch e))
    else (record s { catalog = c }, respond 200 (exit_countries (countries c) (status c w.later)))

unfoldable pub handle_refresh : Libraries → Server → World → Server × Response
unfolding after_refresh
handle_refresh lib s w =
    after_refresh s w (refresh lib.address s.catalog true w.fetched w.now w.later)

unfoldable pub after_nodes : Server → Text → ExitCatalog × Option FetchError → Server × Response
after_nodes s code (c, some e) = (record s { catalog = c }, write_error (of_fetch e))
after_nodes s code (c, none) =
    (record s { catalog = c }, respond 200 (exit_nodes (nodes_for_country c code)))

-- The latency checks that it starts end later.
unfoldable pub handle_nodes : Libraries → Server → World → Text → Server × Response
unfolding after_nodes
handle_nodes lib s w code0 =
    let code = normalize_code code0 in
    let found = after_nodes s code (ensure_fresh lib.address s.catalog w.fetched w.now w.later) in
    if not (country_code_pattern code) then (s, write_error bad_code) else found

abbrev pub choice_of : ExitNode → NodeChoice
choice_of n = record {
  fingerprint = n.fingerprint;
  nickname = n.nickname;
  ip = n.ip;
  country_code = n.country_code;
  country_name = n.country_name;
}

unfoldable pub activate_found : Server → World → Option ExitNode → Server × Response
unfolding after_call
activate_found s w none = (s, write_error exit_gone)
activate_found s w (some n) = after_call s (start_node s.manager (choice_of n) true w.outside)

unfoldable pub after_fresh :
    Server → World → Text → ExitCatalog × Option FetchError → Server × Response
unfolding activate_found
after_fresh s w fingerprint (c, some e) = (record s { catalog = c }, write_error (of_fetch e))
after_fresh s w fingerprint (c, none) =
    activate_found (record s { catalog = c }) w (node_at c fingerprint)

unfoldable pub handle_activate_node : Libraries → Server → World → Text → Server × Response
unfolding after_fresh
handle_activate_node lib s w fingerprint =
    after_fresh s w fingerprint (ensure_fresh lib.address s.catalog w.fetched w.now w.later)
