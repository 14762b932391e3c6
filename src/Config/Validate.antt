-- ===== src/Config/Validate.antt =====
-- config.go: `validate`. `net.ParseIP` and `net.SplitHostPort` are the Go library's; what they say
-- of a text is a parameter.
use tor_country_manager.Shared.{
  ℕ, ◌+◌, ◌-◌, ◌*◌, Bool, true, false, ◌&&◌, ◌||◌, not, List, [], ◌∷◌, ◌++◌, Option, none, some,
  ltb, leb, if◌then◌else◌, length, ◌==◌,
}
use tor_country_manager.Shared.Text.{Text, same, is_empty, trim_space, contains_any}
use tor_country_manager.Shared.Int.{ℤ, pos, negsuc, add_int, ltb_ℤ, leb_ℤ}
use tor_country_manager.Config.Defs.{
  Config, Country, normalize_code, is_letter, country_code_pattern, ranges_overlap,
}

-- The texts that are addresses, and the two parts of `host:port`.
pub record NetLib : Type 0 where
  pub is_ip : Text → Bool
  pub split_host_port : Text → Option (Text × Text)

pub data ConfigError : Type 0 where
  missing_field : ConfigError
  bad_base_socks_port bad_proxy_host bad_proxy_port : ConfigError
  ranges_collide controls_collide : ConfigError
  key_has_newline bad_key_length : ConfigError
  bad_max_running bad_drain_timeout bad_rotate_minutes : ConfigError
  bad_upstream bad_upstream_port upstream_has_newline unpaired_credentials : ConfigError
  invalid_code duplicate_code : Text → ConfigError

unfoldable pub host_byte : ℕ → Bool
unfolding is_letter
host_byte c = is_letter c || ((leb b'0' c && leb c b'9') || (c == b'.' || c == b'-'))

unfoldable pub host_bytes : Text → Bool
unfolding host_byte
host_bytes [] = true
host_bytes (c ∷ cs) = host_byte c && host_bytes cs

-- `proxyHostPattern`, `^[a-zA-Z0-9.-]+$`.
unfoldable pub proxy_host_pattern : Text → Bool
unfolding host_bytes
proxy_host_pattern s = not (is_empty s) && host_bytes s

-- The value of decimal digits; `none` if another byte stands among them.
unfoldable pub digits_value : ℕ → Text → Option ℕ
digits_value acc [] = some acc
digits_value acc (c ∷ cs) =
    let rest = digits_value (acc * 10 + (c - b'0')) cs in
    if leb b'0' c && leb c b'9' then rest else none

unfoldable pub unsigned : Text → Option ℕ
unfolding digits_value
unsigned [] = none
unsigned (c ∷ cs) = digits_value 0 (c ∷ cs)

abbrev int_limit : ℕ
int_limit = 9223372036854775808

-- A number of `strconv.Atoi` is refused if it does not fit an `int`.
unfoldable pub atoi_pos : Option ℕ → Option ℤ
atoi_pos none = none
atoi_pos (some n) = if ltb n int_limit then some (pos n) else none

unfoldable pub atoi_neg : Option ℕ → Option ℤ
atoi_neg none = none
atoi_neg (some n) =
    if n == 0 then some (pos 0) else if leb n int_limit then some (negsuc (n - 1)) else none

-- `strconv.Atoi`.
unfoldable pub atoi : Text → Option ℤ
unfolding unsigned atoi_pos atoi_neg
atoi [] = none
atoi (c ∷ cs) =
    if c == b'-'
    then atoi_neg (unsigned cs)
    else if c == b'+'
    then atoi_pos (unsigned cs)
    else atoi_pos (unsigned (c ∷ cs))

abbrev newlines : Text
newlines = 13 ∷ 10 ∷ []

module _ (net : NetLib) where
  open net use {is_ip, split_host_port}

  unfoldable pub bad_host : Text → Bool
  unfolding proxy_host_pattern
  bad_host host = is_empty host || (not (is_ip host) && not (proxy_host_pattern host))

  -- An error is found by the first of two checks, or by the second.
  abbrev pub first_error : Option ConfigError → Option ConfigError → Option ConfigError
  first_error none e = e
  first_error (some e) f = some e

  abbrev pub reject : Bool → ConfigError → Option ConfigError
  reject b e = if b then some e else none

  unfoldable pub check_upstream_port : Option ℤ → Option ConfigError
  check_upstream_port none = some bad_upstream_port
  check_upstream_port (some port) =
      reject (ltb_ℤ port (pos 1) || ltb_ℤ (pos 65535) port) bad_upstream_port

  unfoldable pub check_upstream_parts : Option (Text × Text) → Option ConfigError
  unfolding check_upstream_port bad_host
  check_upstream_parts none = some bad_upstream
  check_upstream_parts (some (host, port)) =
      if bad_host (trim_space host) then some bad_upstream else check_upstream_port (atoi port)

  unfoldable pub check_upstream : Text → Option ConfigError
  unfolding check_upstream_parts
  check_upstream address =
      if is_empty address then none else check_upstream_parts (split_host_port address)

unfoldable pub seen_code : Text → List Text → Bool
seen_code code [] = false
seen_code code (c ∷ cs) = same c code || seen_code code cs

-- The loop over the countries; the codes seen before it.
unfoldable pub check_countries : List Text → List Country → Option ConfigError
unfolding seen_code
check_countries seen [] = none
check_countries seen (c ∷ cs) =
    let code = normalize_code c.code in
    let rest = check_countries (code ∷ seen) cs in
    if not (country_code_pattern c.code)
    then some (invalid_code c.code)
    else if seen_code code seen
    then some (duplicate_code code)
    else rest

-- The ports of the configuration.
unfoldable pub check_ports : NetLib → Config → Option ConfigError
unfolding ranges_overlap bad_host
check_ports net c =
    if ltb_ℤ c.base_socks_port (pos 1024)
      || leb_ℤ (pos 65535) (add_int c.base_socks_port (pos 3675))
    then some bad_base_socks_port
    else if bad_host net (trim_space c.country_proxy_host)
    then some bad_proxy_host
    else if ltb_ℤ c.country_proxy_port (pos 1024)
        || leb_ℤ (pos 65535) (add_int c.country_proxy_port (pos 675))
    then some bad_proxy_port
    else if ranges_overlap c.base_socks_port (add_int c.base_socks_port (pos 675))
        c.country_proxy_port (add_int c.country_proxy_port (pos 675))
    then some ranges_collide
    else if ranges_overlap (add_int c.base_socks_port (pos 3000))
        (add_int c.base_socks_port (pos 3675)) c.country_proxy_port
        (add_int c.country_proxy_port (pos 675))
    then some controls_collide
    else none

-- The keys and the numbers.
unfoldable pub check_limits : Config → Option ConfigError
check_limits c =
    if contains_any c.client_api_key newlines
    then some key_has_newline
    else if not (is_empty c.client_api_key)
        && (ltb (length c.client_api_key) 6 || ltb 255 (length c.client_api_key))
    then some bad_key_length
    else if ltb_ℤ c.max_running (pos 1) || ltb_ℤ (pos 32) c.max_running
    then some bad_max_running
    else if ltb_ℤ c.drain_timeout_sec (pos 5) || ltb_ℤ (pos 3600) c.drain_timeout_sec
    then some bad_drain_timeout
    else if ltb_ℤ c.circuit_rotate_minutes (pos 0) || ltb_ℤ (pos 1440) c.circuit_rotate_minutes
    then some bad_rotate_minutes
    else none

-- The credentials of the upstream proxy.
unfoldable pub check_credentials : Config → Option ConfigError
check_credentials c =
    if contains_any (c.upstream_socks5 ++ (c.upstream_username ++ c.upstream_password)) newlines
    then some upstream_has_newline
    else if (if is_empty c.upstream_username
        then not (is_empty c.upstream_password)
        else is_empty c.upstream_password)
    then some unpaired_credentials
    else none

unfoldable pub missing : Config → Bool
missing c =
    is_empty c.listen_address
    || (is_empty c.proxy_address || (is_empty c.tor_binary || is_empty c.state_dir))

-- `validate`: the first error, in the order of the source, or `none`.
unfoldable pub validate : NetLib → Config → Option ConfigError
unfolding missing check_ports check_limits check_upstream check_credentials check_countries
validate net c =
    if missing c
    then some missing_field
    else first_error net (check_ports net c) (
        first_error net (check_limits c) (
          first_error net (check_upstream net c.upstream_socks5)
            (first_error net (check_credentials c) (check_countries [] c.countries))))
