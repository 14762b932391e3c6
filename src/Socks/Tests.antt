-- ===== src/Socks/Tests.antt =====
-- A client that knows the key and one that does not, and the theorems about the handshake applied.
use tor_country_manager.Shared.{true, false, ◌&&◌, [], ◌∷◌, some, ◌≡◌, ◌↔◌, refl, arith}
use tor_country_manager.Shared.Text.{Text, same, is_empty, has_byte}
use tor_country_manager.Config.Validate.{NetLib}
use tor_country_manager.Socks.Stream.{read_full}
use tor_country_manager.Socks.Dial.{dial_socks5}
use tor_country_manager.Socks.Negotiate.{negotiate_client_auth}
use tor_country_manager.Socks.Handshake.{
  Authenticates, message, negotiate_client_auth_iff, dialled_negotiates,
}

abbrev us : Text
us = b'u' ∷ b's' ∷ []

abbrev key : Text
key = b's' ∷ b'e' ∷ b'c' ∷ b'r' ∷ b'e' ∷ b't' ∷ []

-- Every text is a host with the port 80.
abbrev small_net : NetLib
small_net = record { is_ip = λ s. false; split_host_port = λ s. some (s, b'8' ∷ b'0' ∷ []) }

abbrev hello : Text
hello = message (0 ∷ 2 ∷ []) us key []

negotiate_client_auth_iff_example :
    ((negotiate_client_auth true us key hello).accepted ≡ true) ↔ Authenticates us key hello
negotiate_client_auth_iff_example = negotiate_client_auth_iff us key hello

hello_accepted : (negotiate_client_auth true us key hello).accepted ≡ true
unfolding negotiate_client_auth read_full has_byte same
hello_accepted = refl

-- The proxy accepts the password and connects.
abbrev answer : Text
answer = 1 ∷ 0 ∷ 5 ∷ 0 ∷ 0 ∷ 1 ∷ 0 ∷ 0 ∷ 0 ∷ 0 ∷ 0 ∷ 0 ∷ 7 ∷ []

dialled_negotiates_example :
    (negotiate_client_auth true us key
      (dial_socks5 small_net (λ n. true) us key true us (5 ∷ 2 ∷ answer)).written).accepted
    ≡ (same us us && same key key)
unfolding is_empty
dialled_negotiates_example =
    dialled_negotiates small_net (λ n. true) us key us key us answer refl refl (omega arith)
      (omega arith) refl refl
