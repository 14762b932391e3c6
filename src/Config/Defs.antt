-- ===== src/Config/Defs.antt =====
-- config.go: the configuration record, country codes and their ports. An `int` is ℤ with the
-- wrap-around of 64 bits in its sums.
use tor_country_manager.Shared.{
  ℕ, ◌+◌, ◌-◌, ◌*◌, Bool, false, ◌&&◌, ◌||◌, List, [], ◌∷◌, Option, none, some, leb, if◌then◌else◌,
}
use tor_country_manager.Shared.Text.{Text, to_lower, trim_space}
use tor_country_manager.Shared.Int.{ℤ, pos, add_int, leb_ℤ}

pub record Country : Type 0 where
  pub code : Text
  pub name : Text

pub record Config : Type 0 where
  pub listen_address : Text
  pub proxy_address : Text
  pub tor_binary : Text
  pub state_dir : Text
  pub geoip_file : Text
  pub geoipv6_file : Text
  pub base_socks_port : ℤ
  pub country_proxy_host : Text
  pub country_proxy_port : ℤ
  pub max_running : ℤ
  pub drain_timeout_sec : ℤ
  pub circuit_rotate_minutes : ℤ
  pub auth_token : Text
  pub client_api_key : Text
  pub upstream_socks5 : Text
  pub upstream_username : Text
  pub upstream_password : Text
  pub countries : List Country

-- `normalizeCode` of manager.go.
unfoldable pub normalize_code : Text → Text
unfolding to_lower trim_space
normalize_code code = to_lower (trim_space code)

unfoldable pub is_letter : ℕ → Bool
is_letter c = (leb b'a' c && leb c b'z') || (leb b'A' c && leb c b'Z')

-- `countryCodePattern`, `^[a-zA-Z]{2}$`.
unfoldable pub country_code_pattern : Text → Bool
unfolding is_letter
country_code_pattern (a ∷ b ∷ []) = is_letter a && is_letter b
country_code_pattern _ = false

unfoldable pub ranges_overlap : ℤ → ℤ → ℤ → ℤ → Bool
ranges_overlap first_start first_end second_start second_end =
    leb_ℤ first_start second_end && leb_ℤ second_start first_end

-- The index of two letters among the 676 pairs, on a code that the pattern lets through.
unfoldable pub port_index : Text → ℕ
port_index (a ∷ b ∷ []) = (a - b'a') * 26 + (b - b'a')
port_index _ = 0

-- `none` is the error of an invalid code.
unfoldable pub country_port : ℤ → Text → Option ℤ
unfolding country_code_pattern port_index
country_port base code0 =
    let code = normalize_code code0 in
    if country_code_pattern code then some (add_int base (pos (port_index code))) else none
