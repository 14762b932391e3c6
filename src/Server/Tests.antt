-- ===== src/Server/Tests.antt =====
-- A small server, requests to it, and the theorems about main.go and client_routes.go applied to them.
use tor_country_manager.Shared.{
  ℕ, true, false, List, [], ◌∷◌, Option, none, some, ◌≡◌, ◌⊎◌, refl, inl, inr,
}
use tor_country_manager.Shared.Text.{Text, text}
use tor_country_manager.Shared.Assoc.{lookup}
use tor_country_manager.Config.Load.{default_config}
use tor_country_manager.Auth.Store.{Storing}
use tor_country_manager.Settings.Store.{Saving}
use tor_country_manager.Catalog.Refresh.{Fetched, new_catalog}
use tor_country_manager.Manager.Defs.{DiskAnswer, Manager, Instance, Spawn, zero_instance, running}
use tor_country_manager.Manager.Control.{Exchange}
use tor_country_manager.Manager.Nodes.{empty_manager}
use tor_country_manager.Manager.Replace.{Offer}
use tor_country_manager.Socks.Handshake.{message}
use tor_country_manager.Server.Proxies.{TorAnswer, forward_country}
use tor_country_manager.Server.Routing.{Method, Route, find_route, path_of}
use tor_country_manager.Server.State.{Server, Request, Libraries, World, Content, login_required}
use tor_country_manager.Server.Serve.{serve}
use tor_country_manager.Server.Guards.{routes_are_guarded}
use tor_country_manager.Server.Strangers.{Stranger, OnlyAccount, unauthorised_changes_nothing}
use tor_country_manager.Server.Guesses.{LockedOut, nobody_knows, nobody_gets_in, serve_all}
use tor_country_manager.Server.Connections.{Connected, forward_country-Connected}

abbrev us : Text
us = text "us"

-- No address, no JSON and no digest.
abbrev no_libraries : Libraries
no_libraries = record {
  net = record { is_ip = λ t. false; split_host_port = λ t. none };
  crypto = record { hmac = λ k m. m; encode64 = λ t. t; decode64 = λ t. some t };
  address = record { ipv4 = λ t. none; split_host_port = λ t. none; join_host_port = λ h p. h };
  json = record {
    password = λ t. none;
    passwords = λ t. none;
    client_update = λ t. none;
    runtime_settings = λ t. none;
    upstream_update = λ t. none;
    route_request = λ t. none;
    is_end = λ t. true;
  };
  parse_url = λ t. none;
}

abbrev nothing : World
nothing = record {
  now = 1;
  later = 2;
  token = none;
  storing = Storing.stores [];
  saving = Saving.saves;
  random_key = none;
  environment_key = [];
  environment_socks5 = [];
  environment_username = [];
  environment_password = [];
  fetched = Fetched.unreachable [];
  measured = [];
  cancelled = false;
  spawn = Spawn.started;
  outside = record {
    offers = λ n. Offer.no_listener [];
    control_offers = λ n. Offer.no_listener [];
    spawn = Spawn.started;
    now = 1;
  };
  exchanges =
      λ n. record { commands = λ k. Exchange.not_connected []; signal = Exchange.not_connected [] };
  listen_failure = none;
  log_path = λ t. t;
  log = λ t. inl [];
}

-- One country, whose process runs.
abbrev us_running : Instance
us_running = record zero_instance { country = record { code = us; name = [] }; status = running }

abbrev one_country : Manager
one_country = record (empty_manager (default_config false) (λ n. DiskAnswer.replaced)) {
  heap = λ p. us_running;
  next_instance = 1;
  instances = (us, 0) ∷ [];
}

-- A password is set, nobody is logged in, and the clients' key is `secret`.
abbrev small_server : Server
small_server = record {
  cfg = default_config false;
  manager = one_country;
  catalog = new_catalog (default_config false);
  health = record {
    records = [];
    global_failure = false;
    failures = 3;
    cooldown = 600;
    switches = [];
  };
  settings = record { path = us; cfg = default_config false; saved = some (default_config false) };
  auth = record { legacy = us; hash = []; saved = none; sessions = []; login_attempts = [] };
  key = text "secret";
  proxies = record { listeners = []; is_serving = true };
}

abbrev stop_us : Request
stop_us = record {
  method = Method.post;
  segments = text "api" ∷ text "countries" ∷ us ∷ text "stop" ∷ [];
  host = [];
  origin = [];
  authorization = text "Bearer wrong";
  cookie = none;
  remote_addr = [];
  body = [];
}

login_is_required : (serve no_libraries small_server stop_us nothing).1.content ≡ login_required
unfolding serve tor_country_manager.Shared.Text.has_prefix path_of
    tor_country_manager.Shared.Text.same tor_country_manager.Auth.Store.configured
    tor_country_manager.Shared.Text.is_empty tor_country_manager.Auth.Store.valid_session
login_is_required = refl

stop_us-Stranger : Stranger small_server stop_us nothing
unfolding tor_country_manager.Auth.Store.valid_session
    tor_country_manager.Settings.Store.valid_bearer_token tor_country_manager.Shared.Text.has_prefix
    text tor_country_manager.Shared.Text.is_empty
    tor_country_manager.Socks.Negotiate.constant_time_equal
    tor_country_manager.Shared.Text.trim_space
stop_us-Stranger = record { no_session = refl; no_key = refl }

unauthorised_changes_nothing_example :
    OnlyAccount small_server (serve no_libraries small_server stop_us nothing).0
unauthorised_changes_nothing_example =
    unauthorised_changes_nothing no_libraries small_server stop_us nothing stop_us-Stranger

-- Without a session the country is not stopped.
routes_are_guarded_example :
    ((serve no_libraries small_server stop_us nothing).0 ≡ small_server)
    × (((serve no_libraries small_server stop_us nothing).1.status ≡ 401)
        ⊎ (((serve no_libraries small_server stop_us nothing).1.status ≡ 403)
            ⊎ ((serve no_libraries small_server stop_us nothing).1.status ≡ 428)))
unfolding find_route tor_country_manager.Shared.Text.same tor_country_manager.Shared.Text.is_empty
    tor_country_manager.Auth.Store.configured tor_country_manager.Auth.Store.valid_session
routes_are_guarded_example =
    routes_are_guarded no_libraries small_server stop_us nothing Route.stop_country (us ∷ []) refl

-- What a client sends that knows the key.
abbrev hello : Text
hello = message (0 ∷ 2 ∷ []) us (text "secret") []

tunnel_opened :
    (forward_country one_country (text "secret") us true hello (TorAnswer.greeted 5 0) true).tunnel
    ≡ some 0
unfolding forward_country tor_country_manager.Socks.Negotiate.negotiate_client_auth
    tor_country_manager.Socks.Stream.read_full tor_country_manager.Shared.Text.has_byte text
    tor_country_manager.Shared.Text.same tor_country_manager.Manager.Traffic.acquire_instance lookup
    tor_country_manager.Config.Defs.normalize_code tor_country_manager.Shared.Text.lower
tunnel_opened = refl

forward_country-Connected_example :
    (let f =
        forward_country one_country (text "secret") us true hello (TorAnswer.greeted 5 0) true in
      Connected one_country (text "secret") us hello f f.tunnel)
forward_country-Connected_example =
    forward_country-Connected one_country (text "secret") us true hello (TorAnswer.greeted 5 0) true

-- Here the body is the password.
abbrev plain_bodies : Libraries
plain_bodies = record no_libraries {
  json = record (no_libraries.json) { password = λ t. some (t, []); is_end = λ t. true };
}

abbrev wrong_login : Request
wrong_login = record stop_us { segments = text "api" ∷ text "login" ∷ []; body = text "guess" }

abbrev guesses : List (Request × World)
guesses = (wrong_login, nothing) ∷ (stop_us, nothing) ∷ (wrong_login, nothing) ∷ []

wrong_password_is_answered :
    (serve plain_bodies small_server wrong_login nothing).1.content ≡ Content.wrong_password
unfolding serve tor_country_manager.Shared.Text.has_prefix path_of
    tor_country_manager.Shared.Text.same tor_country_manager.Server.Handlers.Account.handle_login
    tor_country_manager.Auth.Store.authenticate_at lookup tor_country_manager.Shared.Text.is_empty
wrong_password_is_answered = refl

guesses_are_wrong : nobody_knows plain_bodies small_server guesses ≡ true
unfolding nobody_knows tor_country_manager.Auth.Store.verify_locked
    tor_country_manager.Shared.Text.is_empty text tor_country_manager.Shared.Text.same
    tor_country_manager.Settings.Store.valid_bearer_token tor_country_manager.Shared.Text.has_prefix
    tor_country_manager.Socks.Negotiate.constant_time_equal
    tor_country_manager.Shared.Text.trim_space
guesses_are_wrong = refl

nobody_gets_in_example : LockedOut small_server (serve_all plain_bodies small_server guesses)
unfolding tor_country_manager.Auth.Store.configured tor_country_manager.Shared.Text.is_empty text
nobody_gets_in_example =
    nobody_gets_in plain_bodies guesses small_server refl refl guesses_are_wrong
