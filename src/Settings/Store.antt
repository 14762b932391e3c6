-- ===== src/Settings/Store.antt =====
-- settings.go: the store of the configuration. `saved` is the configuration in the file, `none` where
-- the file holds no whole one; what the system answers while it is written, and the random bytes of a
-- key, are arguments.
use tor_country_manager.Shared.{
  Bool, false, ◌&&◌, ◌||◌, not, [], ◌∷◌, Option, none, some, if◌then◌else◌, drop,
}
use tor_country_manager.Shared.Text.{Text, is_empty, trim_space, has_prefix}
use tor_country_manager.Shared.Int.{ℤ}
use tor_country_manager.Config.Defs.{Config}
use tor_country_manager.Config.Validate.{NetLib, ConfigError, validate}
use tor_country_manager.Socks.Negotiate.{constant_time_equal}

pub record ConfigStore : Type 0 where
  pub path : Text
  pub cfg : Config
  pub saved : Option Config

-- How the writing of the file ends: it is saved; it fails and leaves the file; or, where `replaceFile`
-- must rewrite a mounted file in place, it fails when the file is cut off, or when it is whole.
pub data Saving : Type 0 where
  saves : Saving
  fails cuts fills : Text → Saving

pub record RuntimeSettings : Type 0 where
  pub max_running : ℤ
  pub circuit_rotate_minutes : ℤ

pub record ClientUpdate : Type 0 where
  pub host : Text
  pub base_port : ℤ
  pub api_key : Option Text
  pub clear_api_key : Bool
  pub regenerate_key : Bool

pub record UpstreamUpdate : Type 0 where
  pub address : Text
  pub username : Text
  pub password : Option Text
  pub clear_password : Bool

pub data SettingsError : Type 0 where
  invalid : ConfigError → SettingsError
  no_path many_key_actions no_randomness : SettingsError
  not_saved : Text → SettingsError

pub record UpstreamSettings : Type 0 where
  pub address : Text
  pub username : Text
  pub has_password : Bool

pub record ClientSettings : Type 0 where
  pub host : Text
  pub base_port : ℤ
  pub has_api_key : Bool

-- `Upstream`, `Runtime` and `Client`: what the interface shows, never a secret.
unfoldable pub upstream : ConfigStore → UpstreamSettings
upstream s = record {
  address = s.cfg.upstream_socks5;
  username = s.cfg.upstream_username;
  has_password = not (is_empty s.cfg.upstream_password);
}

unfoldable pub runtime : ConfigStore → RuntimeSettings
runtime s = record {
  max_running = s.cfg.max_running;
  circuit_rotate_minutes = s.cfg.circuit_rotate_minutes;
}

unfoldable pub client : ConfigStore → (effective_has_api_key : Bool) → ClientSettings
client s effective_has_api_key = record {
  host = s.cfg.country_proxy_host;
  base_port = s.cfg.country_proxy_port;
  has_api_key = effective_has_api_key || not (is_empty s.cfg.client_api_key);
}

unfoldable pub saved_as : ConfigStore → Config → Saving → ConfigStore × Option SettingsError
saved_as s next saves = (record s { saved = some next }, none)
saved_as s next (fails e) = (s, some (not_saved e))
saved_as s next (cuts e) = (record s { saved = none }, some (not_saved e))
saved_as s next (fills e) = (record s { saved = some next }, some (not_saved e))

unfoldable pub save_locked : ConfigStore → Config → Saving → ConfigStore × Option SettingsError
unfolding saved_as
save_locked s next saving = if is_empty s.path then (s, some no_path) else saved_as s next saving

-- The end of every update: `s.cfg = next` where the configuration was saved.
unfoldable pub install :
    Config → ConfigStore × Option SettingsError → ConfigStore × Option SettingsError
install next (s, some e) = (s, some e)
install next (s, none) = (record s { cfg = next }, none)

unfoldable pub runtime_config : Config → RuntimeSettings → Config
runtime_config c settings = record c {
  max_running = settings.max_running;
  circuit_rotate_minutes = settings.circuit_rotate_minutes;
}

abbrev text_or_empty : Option Text → Text
text_or_empty none = []
text_or_empty (some t) = t

abbrev provides_key : ClientUpdate → Bool
provides_key u = not (is_empty (trim_space (text_or_empty u.api_key)))

unfoldable pub client_config : Config → ClientUpdate → (generated : Text) → Config
client_config c u generated = record c {
  country_proxy_host = trim_space u.host;
  country_proxy_port = u.base_port;
  client_api_key =
      if u.regenerate_key
      then generated
      else if u.clear_api_key
      then []
      else if provides_key u
      then trim_space (text_or_empty u.api_key)
      else c.client_api_key;
}

unfoldable pub upstream_config : Config → UpstreamUpdate → Config
upstream_config c u =
    let address = trim_space u.address in
    let password = text_or_empty u.password in
    record c {
      upstream_socks5 = address;
      upstream_username = if is_empty address then [] else trim_space u.username;
      upstream_password =
          if u.clear_password || is_empty address
          then []
          else if not (is_empty password)
          then password
          else c.upstream_password;
    }

module _ (net : NetLib) where
  abbrev checked :
      ConfigStore → Config → Option ConfigError → Saving → ConfigStore × Option SettingsError
  checked s next (some e) saving = (s, some (invalid e))
  checked s next none saving = install next (save_locked s next saving)

  -- Validation, the file, then the store.
  unfoldable pub commit : ConfigStore → Config → Saving → ConfigStore × Option SettingsError
  unfolding install save_locked
  commit s next saving = checked s next (validate net next) saving

  unfoldable pub update_runtime :
      ConfigStore → RuntimeSettings → Saving → ConfigStore × Option SettingsError
  unfolding commit runtime_config
  update_runtime s settings saving = commit s (runtime_config s.cfg settings) saving

  -- The random key, encoded; `none` if there was no randomness.
  unfoldable pub update_client :
      ConfigStore
      → ClientUpdate
      → (random : Option Text) → Saving
      → ConfigStore × Option SettingsError
  unfolding commit client_config
  update_client s u random saving =
      let ready = commit s (client_config s.cfg u (text_or_empty random)) saving in
      if (u.regenerate_key && u.clear_api_key)
        || (provides_key u && (u.regenerate_key || u.clear_api_key))
      then (s, some many_key_actions)
      else if u.regenerate_key
      then elim random [ none ↦ (s, some no_randomness) | some key ↦ ready ]
      else ready

  unfoldable pub update_upstream :
      ConfigStore → UpstreamUpdate → Saving → ConfigStore × Option SettingsError
  unfolding commit upstream_config
  update_upstream s u saving = commit s (upstream_config s.cfg u) saving

  unfoldable pub clear_legacy_auth : ConfigStore → Saving → ConfigStore × Option SettingsError
  unfolding install save_locked
  clear_legacy_auth s saving =
      let next = record s.cfg { auth_token = [] } in
      if is_empty s.cfg.auth_token then (s, none) else install next (save_locked s next saving)

-- `RuntimeClientAuth.Valid` and `validBearerToken` on the header `Authorization`.
unfoldable pub is_valid_key : (key value : Text) → Bool
is_valid_key key value = not (is_empty key) && constant_time_equal value key

abbrev pub bearer : Text
bearer = b'B' ∷ b'e' ∷ b'a' ∷ b'r' ∷ b'e' ∷ b'r' ∷ b' ' ∷ []

unfoldable pub valid_bearer_token : (key : Option Text) → (authorization : Text) → Bool
unfolding is_valid_key
valid_bearer_token none authorization = false
valid_bearer_token (some key) authorization =
    if has_prefix authorization bearer
    then is_valid_key key (trim_space (drop 7 authorization))
    else false
