-- ===== src/Server/Serve.antt =====
-- main.go: `authAPI` in front of the handlers, and the handler of each route.
use tor_country_manager.Shared.{
  Bool, true, false, ◌&&◌, ◌||◌, not, List, [], ◌∷◌, Option, none, some, if◌then◌else◌,
}
use tor_country_manager.Shared.Text.{Text, text, same, is_empty}
use tor_country_manager.Auth.Store.{configured, valid_session}
use tor_country_manager.Settings.Store.{valid_bearer_token}
use tor_country_manager.Health.Report.{report}
use tor_country_manager.Manager.Nodes.{State, state}
use tor_country_manager.Server.State.{
  Server, Request, Response, Libraries, World, asset, unauthorized, no_password_yet, login_required,
  cross_origin, health_report,
}
use tor_country_manager.Server.Routing.{
  Method, Route, route_table, find_route, path_of, Guard, open_to_all, administrator, client_key,
  guard_of,
}
use tor_country_manager.Server.Handlers.{respond}
use tor_country_manager.Server.Handlers.Account.{
  handle_session, handle_setup, handle_login, handle_logout, handle_password,
}
use tor_country_manager.Server.Handlers.Options.{
  handle_get_upstream, handle_get_runtime, handle_get_client, handle_put_client, handle_put_runtime,
  handle_put_upstream,
}
use tor_country_manager.Server.Handlers.Countries.{
  handle_state, handle_start, handle_stop, handle_cancel, handle_activate, handle_log,
  handle_countries, handle_refresh, handle_nodes, handle_activate_node,
}
use tor_country_manager.Server.Handlers.Clients.{
  handle_client_countries, handle_create_route, handle_get_route, handle_delete_route,
}

-- The report names the interval of a minute; a state that cannot be read is the fault of
-- `State`, which is served as an error of the server.
abbrev report_of : Server → World → Option State → Response
report_of s w none = respond 500 asset
report_of s w (some st) =
    respond 200 (health_report (report s.health st s.catalog 60000000000 w.now))

unfoldable pub handle_healthz : Server → World → Server × Response
handle_healthz s w = (s, report_of s w (state s.manager))

-- The only wildcard of a pattern.
abbrev pub only : List Text → Text
only [] = []
only (t ∷ ts) = t

unfoldable pub handle : Libraries → Server → Request → World → Route → List Text → Server × Response
handle lib s r w Route.healthz holes = handle_healthz s w
handle lib s r w Route.session holes = handle_session s r w
handle lib s r w Route.setup_password holes = handle_setup lib s r w
handle lib s r w Route.login holes = handle_login lib s r w
handle lib s r w Route.logout holes = handle_logout s r
handle lib s r w Route.get_upstream holes = handle_get_upstream s
handle lib s r w Route.get_runtime holes = handle_get_runtime s
handle lib s r w Route.get_client holes = handle_get_client s
handle lib s r w Route.put_client holes = handle_put_client lib s r w
handle lib s r w Route.put_runtime holes = handle_put_runtime lib s r w
handle lib s r w Route.put_upstream holes = handle_put_upstream lib s r w
handle lib s r w Route.put_password holes = handle_password lib s r w
handle lib s r w Route.get_state holes = handle_state s
handle lib s r w Route.start_country holes = handle_start s w (only holes)
handle lib s r w Route.stop_country holes = handle_stop s (only holes)
handle lib s r w Route.cancel_switch holes = handle_cancel s (only holes)
handle lib s r w Route.activate_country holes = handle_activate s w (only holes)
handle lib s r w Route.get_log holes = handle_log s w (only holes)
handle lib s r w Route.get_countries holes = handle_countries lib s w
handle lib s r w Route.refresh_exits holes = handle_refresh lib s w
handle lib s r w Route.get_nodes holes = handle_nodes lib s w (only holes)
handle lib s r w Route.activate_node holes = handle_activate_node lib s w (only holes)
handle lib s r w Route.client_countries holes = handle_client_countries lib s w
handle lib s r w Route.create_route holes = handle_create_route lib s r w
handle lib s r w Route.get_route holes = handle_get_route lib s r w (only holes)
handle lib s r w Route.delete_route holes = handle_delete_route s (only holes)

-- The file server, where no route is found.
unfoldable pub dispatch :
    Libraries → Server → Request → World → Option (Route × List Text) → Server × Response
unfolding handle
dispatch lib s r w none = (s, respond 200 asset)
dispatch lib s r w (some (route, holes)) = handle lib s r w route holes

unfoldable origin_matches : Text → Option (Text × Text) → Bool
unfolding text
origin_matches host none = false
origin_matches host (some (scheme, origin_host)) =
    same origin_host host && (same scheme (text "http") || same scheme (text "https"))

unfoldable pub same_origin_request : Libraries → Request → Bool
unfolding origin_matches
same_origin_request lib r = is_empty r.origin || origin_matches r.host (lib.parse_url r.origin)

abbrev pub is_get : Method → Bool
is_get Method.get = true
is_get _ = false

-- The refusal of a request whose path has this guard, or `none`.
unfoldable pub refusal : Libraries → Server → Request → World → Guard → Option Response
unfolding same_origin_request
refusal lib s r w open_to_all = none
refusal lib s r w client_key =
    if not (valid_bearer_token (some s.key) r.authorization)
    then some (respond 401 unauthorized)
    else none
refusal lib s r w administrator =
    if not (configured s.auth)
    then some (respond 428 no_password_yet)
    else if not (valid_session s.auth r.cookie w.now)
    then some (respond 401 login_required)
    else if not (is_get r.method) && not (same_origin_request lib r)
    then some (respond 403 cross_origin)
    else none

unfoldable pub refuse_or : Server → Option Response → Server × Response → Server × Response
refuse_or s none answer = answer
refuse_or s (some refused) answer = (s, refused)

-- `authAPI` around the routes.
unfoldable pub serve : Libraries → Server → Request → World → Server × Response
unfolding refuse_or refusal guard_of dispatch find_route
serve lib s r w =
    refuse_or s (refusal lib s r w (guard_of (path_of r.segments)))
      (dispatch lib s r w (find_route route_table r.method r.segments))
