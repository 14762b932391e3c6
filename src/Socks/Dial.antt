-- ===== src/Socks/Dial.antt =====
-- socks5.go: `dialSOCKS5`, once the connection to the proxy stands. What the proxy sends is a text;
-- the n-th write goes through if `sends n`.
use tor_country_manager.Shared.{
  ◌⊎◌, inl, inr, ℕ, ◌+◌, ◌/◌, ◌%◌, Bool, ◌||◌, not, [], ◌∷◌, ◌++◌, Option, none, some, ltb, ◌==◌,
  if◌then◌else◌, length,
}
use tor_country_manager.Shared.Text.{Text, is_empty}
use tor_country_manager.Shared.Int.{ℤ, pos, ltb_ℤ, pos_part}
use tor_country_manager.Config.Validate.{NetLib, atoi}
use tor_country_manager.Socks.Stream.{read_full}

pub data SocksError : Type 0 where
  unpaired not_dialled not_written not_read : SocksError
  invalid_response missing_credentials rejected_credentials failed_negotiation : SocksError
  invalid_address invalid_target unknown_address_type : SocksError
  proxy_status : ℕ → SocksError

-- How the dialling ends: the bytes written, and either an error or what is left to read.
pub record Dialled : Type 0 where
  pub written : Text
  pub outcome : SocksError ⊎ Text

-- The methods offered: none needed, and with a name a password.
unfoldable pub greeting : Text → Text
greeting username = if is_empty username then 5 ∷ 1 ∷ 0 ∷ [] else 5 ∷ 2 ∷ 0 ∷ 2 ∷ []

unfoldable pub credentials : (username password : Text) → Text
credentials username password =
    1 ∷ length username % 256 ∷ (username ++ (length password % 256 ∷ password))

unfoldable pub connect_request : (host : Text) (port : ℕ) → Text
connect_request host port =
    5 ∷ 1 ∷ 0 ∷ 3 ∷ length host % 256 ∷ (host ++ (port / 256 % 256 ∷ port % 256 ∷ []))

-- One more message before what the rest writes.
abbrev after_write : Text → Dialled → Dialled
after_write message d = record d { written = message ++ d.written }

abbrev fail : SocksError → Dialled
fail e = record { written = []; outcome = inl e }

-- The rest of the answer, the address in it, is read and dropped.
unfoldable pub skip_address : Option (Text × Text) → Dialled
skip_address none = fail not_read
skip_address (some (address, rest)) = record { written = []; outcome = inr rest }

unfoldable pub skip_name : Text → Dialled
unfolding skip_address
skip_name [] = fail not_read
skip_name (n ∷ rest) = skip_address (read_full (n + 2) rest)

unfoldable pub read_reply : Text → Dialled
unfolding skip_address skip_name
read_reply (v ∷ s ∷ r ∷ t ∷ rest) =
    if not (v == 5) || not (s == 0)
    then fail (proxy_status s)
    else if t == 1
    then skip_address (read_full 6 rest)
    else if t == 3
    then skip_name rest
    else if t == 4
    then skip_address (read_full 18 rest)
    else fail unknown_address_type
read_reply _ = fail not_read

module _ (net : NetLib) (sends : ℕ → Bool) (username password : Text) where
  unfoldable pub request_port : ℕ → (host : Text) → Option ℤ → Text → Dialled
  unfolding read_reply connect_request
  request_port n host none input = fail invalid_target
  request_port n host (some port) input =
      let request = connect_request host (pos_part port) in
      if ltb_ℤ port (pos 1) || (ltb_ℤ (pos 65535) port || ltb 255 (length host))
      then fail invalid_target
      else if sends n
      then after_write request (read_reply input)
      else fail not_written

  unfoldable pub request : ℕ → Option (Text × Text) → Text → Dialled
  unfolding request_port
  request n none input = fail invalid_address
  request n (some (host, port_text)) input = request_port n host (atoi port_text) input

  unfoldable pub read_verdict : (target : Text) → Text → Dialled
  unfolding request
  read_verdict target (v ∷ s ∷ rest) =
      if not (v == 1) || not (s == 0)
      then fail rejected_credentials
      else request 2 (net.split_host_port target) rest
  read_verdict target _ = fail not_read

  unfoldable pub authenticate : (target : Text) → Text → Dialled
  unfolding read_verdict credentials
  authenticate target input =
      if is_empty username || (ltb 255 (length username) || ltb 255 (length password))
      then fail missing_credentials
      else if sends 1
      then after_write (credentials username password) (read_verdict target input)
      else fail not_written

  unfoldable pub read_method : (target : Text) → Text → Dialled
  unfolding authenticate request
  read_method target (v ∷ method ∷ rest) =
      if not (v == 5)
      then fail invalid_response
      else if method == 0
      then request 1 (net.split_host_port target) rest
      else if method == 2
      then authenticate target rest
      else fail failed_negotiation
  read_method target _ = fail not_read

  unfoldable pub dial_socks5 : (dialled : Bool) (target : Text) → Text → Dialled
  unfolding read_method greeting
  dial_socks5 dialled target input =
      if (if is_empty username then not (is_empty password) else is_empty password)
      then fail unpaired
      else if not dialled
      then fail not_dialled
      else if sends 0
      then after_write (greeting username) (read_method target input)
      else fail not_written
