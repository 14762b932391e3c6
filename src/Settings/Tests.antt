-- ===== src/Settings/Tests.antt =====
-- A store and its updates, and the theorems about settings.go applied to them.
use tor_country_manager.Shared.{true, false, [], ◌∷◌, none, some, ◌≡◌, ◌⊎◌, refl}
use tor_country_manager.Shared.Text.{Text, is_empty, is_space, trim_space, contains_any}
use tor_country_manager.Shared.Int.{pos, add_int}
use tor_country_manager.Config.Defs.{Config, ranges_overlap}
use tor_country_manager.Config.Validate.{NetLib, validate, bad_host, missing}
use tor_country_manager.Settings.Store.{
  ConfigStore, saves, cuts, commit, update_runtime, clear_legacy_auth,
}
use tor_country_manager.Settings.Valid.{
  Update, runtime, clears_token, update, updates, Settled, FileValid, any_torn, Commits,
  update-Commits, updates-Settled,
}

abbrev us : Text
us = b'u' ∷ b's' ∷ []

abbrev small_net : NetLib
small_net = record { is_ip = λ s. false; split_host_port = λ s. none }

abbrev no_countries : Config
no_countries = record {
  listen_address = us;
  proxy_address = us;
  tor_binary = us;
  state_dir = us;
  geoip_file = [];
  geoipv6_file = [];
  base_socks_port = pos 19050;
  country_proxy_host = us;
  country_proxy_port = pos 20000;
  max_running = pos 10;
  drain_timeout_sec = pos 120;
  circuit_rotate_minutes = pos 0;
  auth_token = us;
  client_api_key = [];
  upstream_socks5 = [];
  upstream_username = [];
  upstream_password = [];
  countries = [];
}

abbrev store : ConfigStore
store = record { path = us; cfg = no_countries; saved = some no_countries }

store-Settled : Settled small_net store
unfolding validate missing is_empty ranges_overlap add_int bad_host trim_space is_space contains_any
store-Settled = (refl, refl)

abbrev three : Update
three = runtime (record { max_running = pos 3; circuit_rotate_minutes = pos 5 }) saves

abbrev forty : Update
forty = runtime (record { max_running = pos 40; circuit_rotate_minutes = pos 5 }) saves

-- Forty running instances are too many.
limit_is_three :
    (updates small_net store (three ∷ forty ∷ clears_token saves ∷ [])).cfg.max_running ≡ pos 3
unfolding updates update update_runtime clear_legacy_auth commit validate missing is_empty
    ranges_overlap add_int bad_host trim_space is_space contains_any
limit_is_three = refl

abbrev cut_off : Update
cut_off = runtime (record { max_running = pos 4; circuit_rotate_minutes = pos 5 }) (cuts us)

update-Commits_example : Commits small_net store cut_off (update small_net store cut_off)
update-Commits_example = update-Commits small_net store cut_off store-Settled.0

updates-Settled_example :
    (let n = updates small_net store (three ∷ cut_off ∷ clears_token saves ∷ []) in
      (validate small_net n.cfg ≡ none)
      × FileValid small_net n.saved
      × ((n.saved ≡ some n.cfg) ⊎ (any_torn (three ∷ cut_off ∷ clears_token saves ∷ []) ≡ true)))
updates-Settled_example =
    updates-Settled small_net store (three ∷ cut_off ∷ clears_token saves ∷ []) store-Settled
