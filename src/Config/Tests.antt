-- ===== src/Config/Tests.antt =====
-- A configuration, and the theorems about config.go applied to it.
use tor_country_manager.Shared.{◌-◌, ◌^◌, false, [], ◌∷◌, none, some, ◌≡◌, refl, arith}
use tor_country_manager.Shared.Text.{Text, is_empty, is_space, trim_space, contains_any}
use tor_country_manager.Shared.Int.{pos, add_int}
use tor_country_manager.Config.Defs.{Config, normalize_code, country_code_pattern, ranges_overlap}
use tor_country_manager.Config.Validate.{NetLib, validate, missing, bad_host}
use tor_country_manager.Config.Load.{
  Environment, absent, decoded, default_config, load_config, Loads, load_config-Loads,
}
use tor_country_manager.Config.Ports.{validate_accepts_overflow}

abbrev us : Text
us = b'u' ∷ b's' ∷ []

-- No text is an address, and none has a port.
abbrev small_net : NetLib
small_net = record { is_ip = λ s. false; split_host_port = λ s. none }

abbrev plain_config : Config
plain_config = record {
  listen_address = us;
  proxy_address = us;
  tor_binary = us;
  state_dir = us;
  geoip_file = [];
  geoipv6_file = [];
  base_socks_port = pos 19050;
  country_proxy_host = us;
  country_proxy_port = pos 20000;
  max_running = pos 10;
  drain_timeout_sec = pos 120;
  circuit_rotate_minutes = pos 0;
  auth_token = [];
  client_api_key = [];
  upstream_socks5 = [];
  upstream_username = [];
  upstream_password = [];
  countries = record { code = us; name = us } ∷ [];
}

plain_valid : validate small_net plain_config ≡ none
unfolding validate missing is_empty ranges_overlap add_int bad_host trim_space is_space contains_any
    country_code_pattern normalize_code
plain_valid = refl

validate_accepts_overflow_example :
    validate small_net (record plain_config { base_socks_port = pos (2 ^ 63 - 1 - 100) }) ≡ none
validate_accepts_overflow_example =
    validate_accepts_overflow small_net plain_config 100 20000 (omega arith) refl (omega arith)
      plain_valid

-- No variable is set.
abbrev no_environment : Environment
no_environment = record {
  manager_token = [];
  client_api_key = [];
  upstream_socks5 = [];
  upstream_username = [];
  upstream_password = [];
}

load_config-Loads_example :
    Loads small_net no_environment plain_config
      (load_config small_net no_environment false (decoded (some plain_config)))
    × Loads small_net no_environment
        (default_config false)
        (load_config small_net no_environment false absent)
load_config-Loads_example = load_config-Loads small_net no_environment false plain_config
