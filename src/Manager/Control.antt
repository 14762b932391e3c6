-- ===== src/Manager/Control.antt =====
-- manager.go: the texts for the Tor process, `torrc`, `controlValue`, the control protocol and
-- `parseBootstrapProgress`, and its log, `tailFile`.
use tor_country_manager.Shared.{
  ℕ, Bool, true, false, ◌&&◌, ◌||◌, not, List, [], ◌∷◌, ◌++◌, Option, none, some, ◌⊎◌, inl, inr,
  ltb, leb, if◌then◌else◌, ◌==◌, length, drop, is_some,
}
use tor_country_manager.Shared.Text.{Text, text, is_empty, has_prefix, trim_space}
use tor_country_manager.Shared.Int.{pos, eqb_ℤ}
use tor_country_manager.Config.Defs.{Config, is_letter}
use tor_country_manager.Config.Validate.{digits_value}
use tor_country_manager.Manager.Defs.{Instance}
use tor_country_manager.Manager.Watch.{decimal_int}

unfoldable pub escaped : ℕ → Text → Text
escaped c rest = if c == b'\\' || c == b'"' then b'\\' ∷ c ∷ rest else c ∷ rest

unfoldable pub replaced : Text → Text
unfolding escaped
replaced [] = []
replaced (c ∷ cs) = escaped c (replaced cs)

-- `controlValue` and `torrcValue`.
unfoldable pub control_value : Text → Text
unfolding replaced
control_value value = b'"' ∷ (replaced value ++ (b'"' ∷ []))

abbrev newline : Text
newline = 10 ∷ []

-- One line of the file.
abbrev line : Text → Text
line t = t ++ newline

unfoldable upstream_lines : Config → Text
unfolding text control_value
upstream_lines cfg =
    if is_empty cfg.upstream_socks5
    then []
    else line (text "Socks5Proxy " ++ control_value cfg.upstream_socks5)
      ++ (if not (is_empty cfg.upstream_username) && not (is_empty cfg.upstream_password)
          then line (text "Socks5ProxyUsername " ++ control_value cfg.upstream_username)
            ++ line (text "Socks5ProxyPassword " ++ control_value cfg.upstream_password)
          else [])

unfoldable exit_line : Instance → Text
unfolding text
exit_line i =
    if not (is_empty i.exit_fingerprint)
    then line (text "ExitNodes $" ++ i.exit_fingerprint)
    else line (text "ExitNodes {" ++ (i.country.code ++ text "}"))

unfoldable optional_line : Text → Text → Text
optional_line name value = if is_empty value then [] else line (name ++ value)

-- `log_file` is `filepath.Join(logDir, "tor.log")`.
unfoldable pub torrc : Config → Instance → (data_dir log_file : Text) → Text
unfolding upstream_lines exit_line optional_line text
torrc cfg i data_dir log_file =
    line (text "ClientOnly 1")
    ++ (line (text "RunAsDaemon 0")
        ++ (line (text "SocksPort 127.0.0.1:" ++ decimal_int i.socks_port)
            ++ (line (text "ControlPort 127.0.0.1:" ++ decimal_int i.control_port)
                ++ (line (text "CookieAuthentication 1")
                    ++ (line (text "DataDirectory " ++ data_dir)
                        ++ (exit_line i
                            ++ (line (text "StrictNodes 1")
                                ++ (line (text "AvoidDiskWrites 1")
                                    ++ (line (text "Log notice file " ++ log_file)
                                        ++ (upstream_lines cfg
                                            ++ (optional_line (text "GeoIPFile ") cfg.geoip_file
                                                ++ optional_line (text "GeoIPv6File ")
                                                    cfg.geoipv6_file)))))))))))

-- What happens to one exchange with the control port: where it breaks off, or the two lines that Tor
-- answers, to the authentication and to the command.
pub data Exchange : Type 0 where
  not_connected no_cookie not_authenticated no_first_line : (error : Text) → Exchange
  not_sent no_second_line : (first error : Text) → Exchange
  answered : (first second : Text) → Exchange

-- The errors of `controlCommand` are those of the exchange, under a short name for each step.
pub data ControlError : Type 0 where
  port_not_ready : ControlError
  connect_failed cookie_failed authenticate_failed no_authentication : Text → ControlError
  rejected send_failed no_response : Text → ControlError

unfoldable pub after_first : Text → ControlError ⊎ Text → ControlError ⊎ Text
unfolding text
after_first first result =
    if not (has_prefix first (text "250")) then inl (rejected (trim_space first)) else result

unfoldable pub exchange : Exchange → ControlError ⊎ Text
unfolding after_first
exchange (not_connected e) = inl (connect_failed e)
exchange (no_cookie e) = inl (cookie_failed e)
exchange (not_authenticated e) = inl (authenticate_failed e)
exchange (no_first_line e) = inl (no_authentication e)
exchange (not_sent first e) = after_first first (inl (send_failed e))
exchange (no_second_line first e) = after_first first (inl (no_response e))
exchange (answered first second) = after_first first (inr second)

-- `controlCommand`: the answer to the command, which the exchange is about.
unfoldable pub control_command : Instance → Exchange → ControlError ⊎ Text
unfolding exchange
control_command i x =
    if eqb_ℤ i.control_port (pos 0) || is_empty i.data_dir then inl port_not_ready else exchange x

unfoldable is_word : ℕ → Bool
is_word c = is_letter c || ((leb b'0' c && leb c b'9') || c == b'_')

unfoldable ends_word : Text → Bool
unfolding is_word
ends_word [] = true
ends_word (c ∷ cs) = not (is_word c)

unfoldable is_digit : ℕ → Bool
is_digit c = leb b'0' c && leb c b'9'

-- The digits at the front, and the rest.
unfoldable digit_run : Text → Text × Text
unfolding is_digit
digit_run [] = ([], [])
digit_run (c ∷ cs) =
    let (ds, rest) = digit_run cs in if is_digit c then (c ∷ ds, rest) else ([], c ∷ cs)

unfoldable matched : Text × Text → Option Text
unfolding ends_word
matched (ds, rest) =
    if not (is_empty ds) && (leb (length ds) 3 && ends_word rest) then some ds else none

-- The first match of `\bPROGRESS=([0-9]{1,3})\b`; the Boolean is whether a word ends here.
unfoldable find_progress : Bool → Text → Option Text
unfolding digit_run matched is_word text
find_progress boundary [] = none
find_progress boundary (c ∷ cs) =
    let later = find_progress (not (is_word c)) cs in
    let here = matched (digit_run (drop 9 (c ∷ cs))) in
    if boundary && (has_prefix (c ∷ cs) (text "PROGRESS=") && is_some here) then here else later

unfoldable progress_of : Option ℕ → Option ℕ
progress_of none = none
progress_of (some n) = if ltb 100 n then none else some n

unfoldable read_progress : Option Text → Option ℕ
unfolding progress_of digits_value
read_progress none = none
read_progress (some ds) = progress_of (digits_value 0 ds)

unfoldable pub parse_bootstrap_progress : Text → Option ℕ
unfolding find_progress read_progress
parse_bootstrap_progress response = read_progress (find_progress true response)

-- `CleanupStaleInstanceDirs`: `^[a-z]{2}(?:-replacement-[0-9]+)?$`, and the entries that are removed.
unfoldable all_digits : Text → Bool
unfolding is_digit
all_digits [] = true
all_digits (c ∷ cs) = is_digit c && all_digits cs

unfoldable is_suffix : Text → Bool
unfolding all_digits text
is_suffix [] = true
is_suffix (c ∷ cs) =
    has_prefix (c ∷ cs) (text "-replacement-")
    && (not (is_empty (drop 13 (c ∷ cs))) && all_digits (drop 13 (c ∷ cs)))

unfoldable is_lower : ℕ → Bool
is_lower c = leb b'a' c && leb c b'z'

unfoldable pub instance_dir_pattern : Text → Bool
unfolding is_suffix is_lower
instance_dir_pattern (a ∷ b ∷ rest) = is_lower a && (is_lower b && is_suffix rest)
instance_dir_pattern _ = false

pub record DirEntry : Type 0 where
  pub name : Text
  pub is_dir : Bool

unfoldable pub stale_dirs : List DirEntry → List Text
unfolding instance_dir_pattern
stale_dirs [] = []
stale_dirs (e ∷ es) =
    let rest = stale_dirs es in
    if not e.is_dir || not (instance_dir_pattern e.name) then rest else e.name ∷ rest

-- The loop of `tailFile` over the lines of the file, with the lines kept so far.
unfoldable pub tail_loop : (lines : ℕ) → (buffer : List Text) → List Text → List Text
tail_loop lines buffer [] = buffer
tail_loop lines buffer (l ∷ ls) =
    tail_loop lines ((if length buffer == lines then drop 1 buffer else buffer) ++ (l ∷ [])) ls

unfoldable join_lines : List Text → Text
join_lines [] = []
join_lines (l ∷ []) = l
join_lines (l ∷ m ∷ ls) = l ++ (10 ∷ join_lines (m ∷ ls))

unfoldable pub tail_file : List Text → (lines : ℕ) → Text
unfolding tail_loop join_lines
tail_file file lines = join_lines (tail_loop lines [] file)
