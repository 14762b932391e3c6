-- ===== src/Server/State.antt =====
-- main.go: what the handlers share, what a request brings, what the outside answers, and the responses.
use tor_country_manager.Shared.{ℕ, Bool, List, Option, ◌⊎◌}
use tor_country_manager.Shared.Text.{Text}
use tor_country_manager.Shared.Int.{ℤ}
use tor_country_manager.Config.Defs.{Config}
use tor_country_manager.Config.Validate.{NetLib}
use tor_country_manager.Auth.Password.{CryptoLib}
use tor_country_manager.Auth.Store.{AuthStore, AuthError, Storing}
use tor_country_manager.Settings.Store.{
  Saving, ConfigStore, SettingsError, RuntimeSettings, ClientUpdate, UpstreamUpdate,
  UpstreamSettings, ClientSettings,
}
use tor_country_manager.Catalog.Nodes.{ExitNode, ExitCatalog, SelectError}
use tor_country_manager.Catalog.Refresh.{
  AddressLib, Fetched, FetchError, ExitCountry, CatalogStatus,
}
use tor_country_manager.Health.Monitor.{RouteHealthMonitor}
use tor_country_manager.Health.Report.{HealthReport}
use tor_country_manager.Manager.Defs.{Manager, ManagerError, Spawn}
use tor_country_manager.Manager.Nodes.{Outside, State}
use tor_country_manager.Manager.Upstream.{Exchanges, UpstreamError}
use tor_country_manager.Server.Proxies.{Proxies, ProxyError, ClientRoute}
use tor_country_manager.Server.Routing.{Method}

-- `cfg` is the configuration that the program started with; `key` is that of `RuntimeClientAuth`.
pub record Server : Type 0 where
  pub cfg : Config
  pub manager : Manager
  pub catalog : ExitCatalog
  pub health : RouteHealthMonitor
  pub settings : ConfigStore
  pub auth : AuthStore
  pub key : Text
  pub proxies : Proxies

-- The headers that are not there are empty; `cookie` is that of the session.
pub record Request : Type 0 where
  pub method : Method
  pub segments : List Text
  pub host : Text
  pub origin : Text
  pub authorization : Text
  pub cookie : Option Text
  pub remote_addr : Text
  pub body : Text

pub record RouteRequest : Type 0 where
  pub country : Text
  pub countries : List Text
  pub policy : Text

-- The decoder of JSON at each type that is read: the value at the front of a text, if there is one
-- without unknown fields, and the rest of the text.
pub record JsonLib : Type 0 where
  pub password : Text → Option (Text × Text)
  pub passwords : Text → Option ((Text × Text) × Text)
  pub client_update : Text → Option (ClientUpdate × Text)
  pub runtime_settings : Text → Option (RuntimeSettings × Text)
  pub upstream_update : Text → Option (UpstreamUpdate × Text)
  pub route_request : Text → Option (RouteRequest × Text)
  pub is_end : Text → Bool

-- The scheme and the host of an address, by `url.Parse`.
pub record Libraries : Type 0 where
  pub net : NetLib
  pub crypto : CryptoLib
  pub address : AddressLib
  pub json : JsonLib
  pub parse_url : Text → Option (Text × Text)

-- What the system, the clock and the network answer while one request is handled. The environment is
-- that of the process; `log` is the content of a log file.
pub record World : Type 0 where
  pub now : ℕ
  pub later : ℕ
  pub token : Option Text
  pub storing : Storing
  pub saving : Saving
  pub random_key : Option Text
  pub environment_key : Text
  pub environment_socks5 : Text
  pub environment_username : Text
  pub environment_password : Text
  pub fetched : Fetched
  pub measured : List (ExitNode × (Option ℕ × ℕ))
  pub cancelled : Bool
  pub spawn : Spawn
  pub outside : Outside
  pub exchanges : ℕ → Exchanges
  pub listen_failure : Option Text
  pub log_path : Text → Text
  pub log : Text → Text ⊎ List Text

pub data ServerError : Type 0 where
  invalid_json not_one_value no_session_token : ServerError
  bad_code exit_gone no_log : ServerError
  log_unreadable : Text → ServerError
  of_auth : AuthError → ServerError
  of_settings : SettingsError → ServerError
  of_manager : ManagerError → ServerError
  of_upstream : (instance : ℕ) → UpstreamError → ServerError
  of_fetch : FetchError → ServerError
  of_select : SelectError → ServerError
  of_proxy : ProxyError → ServerError

-- What a response carries.
pub data Content : Type 0 where
  asset : Content
  unauthorized no_password_yet login_required cross_origin : Content
  failure : ServerError → Content
  too_many_attempts : (retry_after_seconds : ℕ) → Content
  wrong_password : Content
  health_report : HealthReport → Content
  session_state : (configured authenticated : Bool) → Content
  authenticated : Bool → Content
  password_changed : Content
  upstream_settings : UpstreamSettings → Content
  runtime_settings : RuntimeSettings → Content
  client_settings : ClientSettings → Content
  runtime_applied : RuntimeSettings → Content
  upstream_applied : UpstreamSettings → (managed_by_environment : Bool) → Content
  client_applied :
      ClientSettings
      → (restart_required managed_by_environment : Bool) → (generated : Option Text) → Content
  manager_state : Option State → Content
  log_text : Text → Content
  exit_countries : List ExitCountry → CatalogStatus → Content
  exit_nodes : List ExitNode → Content
  client_exit_countries : List (ExitCountry × Option ℤ) → Content
  client_route : ClientRoute → Content
  stopping : Content

-- The status, the content, and the token of the session whose cookie is set; `some []` clears it.
pub record Response : Type 0 where
  pub status : ℕ
  pub content : Content
  pub session_cookie : Option Text
