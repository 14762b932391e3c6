-- ===== src/Server/Routing.antt =====
-- main.go: the routes of the web server, in the order of `routes`, how a request finds its handler, and
-- what `authAPI` asks of it. The path is given by its segments, unescaped, as `net/http` takes it apart.
use tor_country_manager.Shared.{
  Bool, true, false, ◌&&◌, ◌||◌, not, List, [], ◌∷◌, ◌++◌, Option, none, some, if◌then◌else◌,
}
use tor_country_manager.Shared.Text.{Text, text, same, is_empty, has_prefix}

-- The methods that the routes name, and any other.
pub data Method : Type 0 where
  get head post put delete other : Method

pub data Route : Type 0 where
  healthz session setup_password login logout : Route
  get_upstream get_runtime get_client put_client put_runtime put_upstream put_password : Route
  get_state start_country stop_country cancel_switch activate_country get_log : Route
  get_countries refresh_exits get_nodes activate_node : Route
  client_countries create_route get_route delete_route : Route

-- A segment of a pattern: a word, or a wildcard like `{code}`.
pub data Segment : Type 0 where
  word : Text → Segment
  hole : Segment

pub record Entry : Type 0 where
  pub method : Method
  pub pattern : List Segment
  pub route : Route

abbrev entry : Method → List Segment → Route → Entry
entry method pattern route = record { method = method; pattern = pattern; route = route }

abbrev api : List Segment → List Segment
api rest = word (text "api") ∷ rest

-- `/api/countries/{code}/` and a last word.
abbrev of_country : Text → List Segment
of_country last = api (word (text "countries") ∷ hole ∷ word last ∷ [])

abbrev pub route_table : List Entry
route_table =
    entry get (word (text "healthz") ∷ []) healthz
    ∷ entry get (api (word (text "session") ∷ [])) session
    ∷ entry post (api (word (text "setup-password") ∷ [])) setup_password
    ∷ entry post (api (word (text "login") ∷ [])) login
    ∷ entry post (api (word (text "logout") ∷ [])) logout
    ∷ entry get (api (word (text "settings") ∷ word (text "upstream") ∷ [])) get_upstream
    ∷ entry get (api (word (text "settings") ∷ word (text "runtime") ∷ [])) get_runtime
    ∷ entry get (api (word (text "settings") ∷ word (text "client") ∷ [])) get_client
    ∷ entry put (api (word (text "settings") ∷ word (text "client") ∷ [])) put_client
    ∷ entry put (api (word (text "settings") ∷ word (text "runtime") ∷ [])) put_runtime
    ∷ entry put (api (word (text "settings") ∷ word (text "upstream") ∷ [])) put_upstream
    ∷ entry put (api (word (text "settings") ∷ word (text "password") ∷ [])) put_password
    ∷ entry get (api (word (text "state") ∷ [])) get_state
    ∷ entry post (of_country (text "start")) start_country
    ∷ entry post (of_country (text "stop")) stop_country
    ∷ entry post (of_country (text "cancel-switch")) cancel_switch
    ∷ entry post (of_country (text "activate")) activate_country
    ∷ entry get (of_country (text "log")) get_log
    ∷ entry get (api (word (text "exits") ∷ word (text "countries") ∷ [])) get_countries
    ∷ entry post (api (word (text "exits") ∷ word (text "refresh") ∷ [])) refresh_exits
    ∷ entry get (api (word (text "exits") ∷ word (text "countries") ∷ hole ∷ [])) get_nodes
    ∷ entry post
        (api (word (text "exits") ∷ word (text "nodes") ∷ hole ∷ word (text "activate") ∷ []))
        activate_node
    ∷ entry get (api (word (text "v1") ∷ word (text "countries") ∷ [])) client_countries
    ∷ entry post (api (word (text "v1") ∷ word (text "routes") ∷ [])) create_route
    ∷ entry get (api (word (text "v1") ∷ word (text "routes") ∷ hole ∷ [])) get_route
    ∷ entry delete (api (word (text "v1") ∷ word (text "routes") ∷ hole ∷ [])) delete_route
    ∷ []

-- A pattern with the method GET takes HEAD too.
unfoldable pub takes_method : Method → Method → Bool
takes_method get get = true
takes_method get head = true
takes_method post post = true
takes_method put put = true
takes_method delete delete = true
takes_method _ _ = false

abbrev and_hole : Text → Option (List Text) → Option (List Text)
and_hole s none = none
and_hole s (some holes) = some (s ∷ holes)

-- The segments that stand for the wildcards, if the pattern takes the path.
-- A wildcard takes no empty segment; a path with `.` or `..` is redirected to a clean one.
unfoldable pub fills_hole : Text → Bool
unfolding text
fills_hole s = not (is_empty s) && (not (same s (text ".")) && not (same s (text "..")))

unfoldable pub match_pattern : List Segment → List Text → Option (List Text)
unfolding fills_hole
match_pattern [] [] = some []
match_pattern [] (s ∷ ss) = none
match_pattern (p ∷ ps) [] = none
match_pattern (word w ∷ ps) (s ∷ ss) =
    let rest = match_pattern ps ss in if same w s then rest else none
match_pattern (hole ∷ ps) (s ∷ ss) =
    let rest = match_pattern ps ss in if fills_hole s then and_hole s rest else none

unfoldable pub first_match :
    Entry → Option (List Text) → Option (Route × List Text) → Option (Route × List Text)
first_match e none rest = rest
first_match e (some holes) rest = some (e.route, holes)

-- No two patterns of the table with one method take the same path, so the first that takes it is the
-- one that `ServeMux` chooses. `none` is the file server, which `/` names.
unfoldable pub find_route : List Entry → Method → List Text → Option (Route × List Text)
unfolding takes_method match_pattern first_match
find_route [] method segments = none
find_route (e ∷ es) method segments =
    let rest = find_route es method segments in
    if takes_method e.method method
    then first_match e (match_pattern e.pattern segments) rest
    else rest

-- `r.URL.Path`.
unfoldable pub path_of : List Text → Text
path_of [] = []
path_of (s ∷ ss) = b'/' ∷ (s ++ path_of ss)

unfoldable pub public_api_path : Text → Bool
public_api_path path =
    same path (text "/api/session")
    || (same path (text "/api/login") || same path (text "/api/setup-password"))

-- What `authAPI` asks of a request to a path: nothing, a session of the administrator, or the key of
-- the clients.
pub data Guard : Type 0 where
  open_to_all administrator client_key : Guard

unfoldable pub guard_of : Text → Guard
unfolding public_api_path
guard_of path =
    if has_prefix path (text "/api/v1/")
    then client_key
    else if has_prefix path (text "/api/") && not (public_api_path path)
    then administrator
    else open_to_all
