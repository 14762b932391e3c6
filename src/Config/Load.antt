-- ===== src/Config/Load.antt =====
-- config.go: `defaultConfig` and `loadConfig`. The file, what `json.Unmarshal` makes of it over the
-- default values, and the environment are arguments.
use tor_country_manager.Shared.{
  Bool, List, [], ◌∷◌, Option, none, some, ◌⊎◌, inl, inr, if◌then◌else◌, ◌≡◌, refl, ap, ◌∙◌,
}
use tor_country_manager.Shared.Text.{Text, text, is_empty}
use tor_country_manager.Shared.Int.{pos}
use tor_country_manager.Config.Defs.{Config, Country}
use tor_country_manager.Config.Validate.{NetLib, ConfigError, validate}

abbrev country : Text → Text → Country
country code name = record { code = code; name = name }

abbrev pub default_countries : List Country
default_countries =
    country (text "us") (text "美国")
    ∷ country (text "jp") (text "日本")
    ∷ country (text "de") (text "德国")
    ∷ country (text "gb") (text "英国")
    ∷ country (text "fr") (text "法国")
    ∷ country (text "nl") (text "荷兰")
    ∷ country (text "ca") (text "加拿大")
    ∷ country (text "sg") (text "新加坡")
    ∷ country (text "ch") (text "瑞士")
    ∷ country (text "se") (text "瑞典")
    ∷ []

unfoldable pub default_config : (windows : Bool) → Config
unfolding text
default_config windows = record {
  listen_address = text "127.0.0.1:8080";
  proxy_address = text "127.0.0.1:1080";
  tor_binary = if windows then text "./runtime/tor/tor.exe" else text "/usr/bin/tor";
  state_dir = if windows then text "./state" else text "/var/lib/tor-country-manager";
  geoip_file = if windows then text "./runtime/data/geoip" else text "/usr/share/tor/geoip";
  geoipv6_file = if windows then text "./runtime/data/geoip6" else text "/usr/share/tor/geoip6";
  base_socks_port = pos 19050;
  country_proxy_host = text "127.0.0.1";
  country_proxy_port = pos 20000;
  max_running = pos 10;
  drain_timeout_sec = pos 120;
  circuit_rotate_minutes = pos 0;
  auth_token = [];
  client_api_key = [];
  upstream_socks5 = [];
  upstream_username = [];
  upstream_password = [];
  countries = default_countries;
}

-- The variables that are read; one that is not set is empty.
pub record Environment : Type 0 where
  pub manager_token : Text
  pub client_api_key : Text
  pub upstream_socks5 : Text
  pub upstream_username : Text
  pub upstream_password : Text

-- The configuration file; `decoded` is what the decoder makes of it, if it can read it.
pub data ConfigFile : Type 0 where
  absent : ConfigFile
  unreadable : Text → ConfigFile
  decoded : Option Config → ConfigFile

pub record LoadedConfig : Type 0 where
  pub stored : Config
  pub effective : Config

pub data LoadError : Type 0 where
  parse_failed : LoadError
  read_failed : Text → LoadError
  not_valid : ConfigError → LoadError

abbrev if_set : Text → Text → Text
if_set value other = if is_empty value then other else value

unfoldable pub effective_config : Environment → Config → Config
effective_config env stored = record stored {
  auth_token = if_set env.manager_token stored.auth_token;
  client_api_key = if_set env.client_api_key stored.client_api_key;
  upstream_socks5 = if_set env.upstream_socks5 stored.upstream_socks5;
  upstream_username =
      if is_empty env.upstream_socks5 then stored.upstream_username else env.upstream_username;
  upstream_password =
      if is_empty env.upstream_socks5 then stored.upstream_password else env.upstream_password;
}

unfoldable pub loaded : Config → Config → Option ConfigError → LoadError ⊎ LoadedConfig
loaded stored effective (some e) = inl (not_valid e)
loaded stored effective none = inr (record { stored = stored; effective = effective })

unfoldable pub load_stored : NetLib → Environment → Config → LoadError ⊎ LoadedConfig
unfolding loaded effective_config
load_stored net env stored =
    loaded stored (effective_config env stored) (validate net (effective_config env stored))

unfoldable pub load_config :
    NetLib → Environment → (windows : Bool) → ConfigFile → LoadError ⊎ LoadedConfig
unfolding load_stored default_config
load_config net env windows absent = load_stored net env (default_config windows)
load_config net env windows (unreadable e) = inl (read_failed e)
load_config net env windows (decoded none) = inl parse_failed
load_config net env windows (decoded (some stored)) = load_stored net env stored

-- A variable that is set, else what is stored.
abbrev or_stored : Text → Text → Text
or_stored [] stored = stored
or_stored (c ∷ cs) stored = c ∷ cs

-- The address, the user and the password of the upstream proxy: all three of the environment if the
-- address is set there, else all three of the file.
abbrev proxy_of : Text → Environment → Config → Text × (Text × Text)
proxy_of [] env stored =
    (stored.upstream_socks5, (stored.upstream_username, stored.upstream_password))
proxy_of (c ∷ cs) env stored = (c ∷ cs, (env.upstream_username, env.upstream_password))

-- The stored configuration with what the environment sets.
abbrev pub overridden : Environment → Config → Config
overridden env stored =
    let (socks5, (username, password)) = proxy_of env.upstream_socks5 env stored in
    record stored {
      auth_token = or_stored env.manager_token stored.auth_token;
      client_api_key = or_stored env.client_api_key stored.client_api_key;
      upstream_socks5 = socks5;
      upstream_username = username;
      upstream_password = password;
    }

-- What a load gives: the file's configuration as it is stored and, as the effective one, what the
-- environment makes of it, which is valid; or an error, where that is not valid.
abbrev pub Loads : NetLib → Environment → Config → LoadError ⊎ LoadedConfig → Type 0
Loads net env stored (inl e) = (validate net (overridden env stored) ≡ none) → ⊥
Loads net env stored (inr l) =
    (validate net l.effective ≡ none) × (l.stored ≡ stored) × (l.effective ≡ overridden env stored)

or_stored-lem : (value stored : Text) → if_set value stored ≡ or_stored value stored
unfolding is_empty
or_stored-lem [] stored = refl
or_stored-lem (c ∷ cs) stored = refl

proxy_of-lem :
    (value : Text) (env : Environment) (stored : Config)
    → (
      if_set value stored.upstream_socks5,
      (
        (if is_empty value then stored.upstream_username else env.upstream_username),
        (if is_empty value then stored.upstream_password else env.upstream_password),
      ),
    )
      ≡ proxy_of value env stored
unfolding is_empty
proxy_of-lem [] env stored = refl
proxy_of-lem (c ∷ cs) env stored = refl

effective_config-lem :
    (env : Environment) (stored : Config) → effective_config env stored ≡ overridden env stored
unfolding effective_config
effective_config-lem env stored =
    let proxy = proxy_of-lem env.upstream_socks5 env stored in
    rw
      (
        or_stored-lem env.manager_token stored.auth_token,
        or_stored-lem env.client_api_key stored.client_api_key,
        ap (λ (t : Text × (Text × Text)). t.0) proxy,
        ap (λ (t : Text × (Text × Text)). t.1.0) proxy,
        ap (λ (t : Text × (Text × Text)). t.1.1) proxy,
      )
      refl

loaded-Loads :
    (net : NetLib) (env : Environment) (stored effective : Config) (o : Option ConfigError)
    → effective ≡ overridden env stored
    → validate net effective ≡ o
    → Loads net env stored (loaded stored effective o)
unfolding loaded
loaded-Loads net env stored effective none d e = (e, refl, d)
loaded-Loads net env stored effective (some x) d e =
    λ h. let here : validate net effective ≡ none = ap (validate net) d ∙ h in cc

-- A file that is decoded, or the default values without a file, are loaded exactly if they are valid
-- with what the environment sets: the token and the clients' key each by its own variable, and the
-- upstream proxy with its credentials if its address is set. The program then runs with that
-- configuration and keeps the stored one apart.
pub load_config-Loads :
    (net : NetLib) (env : Environment) (windows : Bool) (stored : Config)
    → Loads net env stored (load_config net env windows (decoded (some stored)))
      × Loads net env (default_config windows) (load_config net env windows absent)
unfolding load_config load_stored
load_config-Loads net env windows stored =
    let d = default_config windows in
    (
      loaded-Loads net env stored _ _ (effective_config-lem env stored) refl,
      loaded-Loads net env d _ _ (effective_config-lem env d) refl,
    )
