-- ===== src/Socks/Handshake.antt =====
-- client_routes.go and socks5.go: who passes `negotiateClientAuth`.
use tor_country_manager.Shared.{
  ℕ, ◌%◌, ◌≤◌, Bool, true, false, ◌&&◌, [], ◌∷◌, ◌++◌, Option, none, some, length, ◌≡◌, ◌≢◌, ◌↔◌,
  refl, ap, arith,
}
use tor_country_manager.Shared.Text.{Text, same, same_iff, same_refl, is_empty, has_byte}
use tor_country_manager.Socks.Stream.{read_full, read_full-append, read_full-sent}
use tor_country_manager.Config.Validate.{NetLib}
use tor_country_manager.Socks.Dial.{
  greeting, credentials, dial_socks5, read_method, authenticate, read_verdict,
}
use tor_country_manager.Socks.Negotiate.{
  constant_time_equal, judge, read_password, read_username, choose_method, negotiate_client_auth,
}

-- The comparison decides equality.
constant_time_equal_lem : (a b : Text) → constant_time_equal a b ≡ same a b
unfolding constant_time_equal
constant_time_equal_lem a b = ground (arith, same_iff a b)

-- What a client sends: the methods that it offers, a name and a password, each with its length before
-- it, and the rest.
abbrev pub message : (methods username password rest : Text) → Text
message methods username password rest =
    5
    ∷ length methods
    ∷ (methods ++ (1 ∷ length username ∷ (username ++ (length password ∷ (password ++ rest)))))

-- Every message of this form is read, and the answer is the comparison of both parts.
read_username-message :
    (eu ep u p rest : Text)
    → is_empty u ≡ false
    → is_empty p ≡ false
    → (read_username true eu ep (1 ∷ length u ∷ (u ++ (length p ∷ (p ++ rest))))).accepted
      ≡ (same u eu && same p ep)
unfolding read_username read_password judge is_empty
read_username-message eu ep [] p rest h k = cc
read_username-message eu ep (a ∷ u) [] rest h k = cc
read_username-message eu ep (a ∷ u) (b ∷ p) rest h k =
    let name = read_full-append (a ∷ u) (length (b ∷ p) ∷ ((b ∷ p) ++ rest)) in
    let secret = read_full-append (b ∷ p) rest in
    let first = constant_time_equal_lem (a ∷ u) eu in
    let second = constant_time_equal_lem (b ∷ p) ep in
    rw (name, secret, first, second) (ground arith)

judge-accepts :
    (sends : Bool) (eu ep u : Text) (o : Option (Text × Text))
    → (judge sends eu ep u o).accepted ≡ true
    → (u ≡ eu) × ((rest : Text) × (o ≡ some (ep, rest)))
unfolding judge
judge-accepts sends eu ep u none h = cc
judge-accepts sends eu ep u (some (p, rest)) h =
    let first = constant_time_equal_lem u eu in
    let second = constant_time_equal_lem p ep in
    let both : (u ≡ eu) × (p ≡ ep) = ground (arith, first, second, same_iff u eu, same_iff p ep) in
    (both.0, (rest, rw both.1 refl))

read_password-accepts :
    (sends : Bool) (eu ep : Text) (o : Option (Text × Text))
    → (read_password sends eu ep o).accepted ≡ true
    → ((rest : Text) × (o ≡ some (eu, length ep ∷ (ep ++ rest)))) × (1 ≤ length ep)
unfolding read_password
read_password-accepts sends eu ep none h = cc
read_password-accepts sends eu ep (some (u, [])) h = cc
read_password-accepts sends eu ep (some (u, n ∷ tail)) h =
    let positive : n ≢ 0 = λ e. ground arith in
    let (name, (rest, e)) = judge-accepts sends eu ep u (read_full n tail) (ground arith) in
    let (sent, size) = read_full-sent n tail ep rest e in
    ((rest, rw (name, sent, size) refl), omega arith)

read_username-accepts :
    (sends : Bool) (eu ep : Text) (input : Text)
    → (read_username sends eu ep input).accepted ≡ true
    → ((rest : Text) × (input ≡ 1 ∷ length eu ∷ (eu ++ (length ep ∷ (ep ++ rest)))))
      × ((1 ≤ length eu) × (1 ≤ length ep))
unfolding read_username
read_username-accepts sends eu ep [] h = cc
read_username-accepts sends eu ep (v ∷ []) h = cc
read_username-accepts sends eu ep (v ∷ n ∷ tail) h =
    let version : v ≡ 1 = ground arith in
    let positive : n ≢ 0 = λ e. ground arith in
    let ((rest, e), filled) = read_password-accepts sends eu ep (read_full n tail) (ground arith) in
    let (sent, size) = read_full-sent n tail eu (length ep ∷ (ep ++ rest)) e in
    ((rest, rw (version, sent, size) refl), (omega arith, filled))

choose_method-accepts :
    (sends : Bool) (eu ep : Text) (o : Option (Text × Text))
    → (choose_method sends eu ep o).accepted ≡ true
    → ((methods rest : Text) × (o
          ≡ some (methods, 1 ∷ length eu ∷ (eu ++ (length ep ∷ (ep ++ rest)))))
        × (has_byte 2 methods ≡ true))
      × ((1 ≤ length eu) × (1 ≤ length ep))
unfolding choose_method
choose_method-accepts sends eu ep none h = cc
choose_method-accepts sends eu ep (some (methods, tail)) h =
    let offered : has_byte 2 methods ≡ true = ground arith in
    let ((rest, e), filled) = read_username-accepts sends eu ep tail (ground arith) in
    ((methods, rest, rw e refl, offered), filled)

-- What `negotiateClientAuth` lets through: a message that offers passwords and carries exactly the
-- expected name and key, neither of them empty.
abbrev pub Authenticates : (username password : Text) → Text → Type 0
Authenticates username password input =
    ((methods rest : Text) × (input ≡ message methods username password rest)
      × (has_byte 2 methods ≡ true))
    × ((1 ≤ length username) × (1 ≤ length password))

negotiate-accepts :
    (sends : Bool) (eu ep : Text) (input : Text)
    → (negotiate_client_auth sends eu ep input).accepted ≡ true
    → Authenticates eu ep input
unfolding negotiate_client_auth
negotiate-accepts sends eu ep [] h = cc
negotiate-accepts sends eu ep (v ∷ []) h = cc
negotiate-accepts sends eu ep (v ∷ n ∷ tail) h =
    let version : v ≡ 5 = ground arith in
    let ((methods, rest, e, offered), filled) =
      choose_method-accepts sends eu ep (read_full n tail) (ground arith) in
    let (sent, size) = read_full-sent n tail methods _ e in
    ((methods, rest, rw (version, sent, size) refl, offered), filled)

-- A message of the form is answered by the comparison of both parts.
negotiate-message :
    (eu ep methods u p rest : Text)
    → has_byte 2 methods ≡ true
    → is_empty u ≡ false
    → is_empty p ≡ false
    → (negotiate_client_auth true eu ep (message methods u p rest)).accepted
      ≡ (same u eu && same p ep)
unfolding negotiate_client_auth choose_method has_byte
negotiate-message eu ep [] u p rest o h k = cc
negotiate-message eu ep (c ∷ methods) u p rest o h k =
    let tail = 1 ∷ length u ∷ (u ++ (length p ∷ (p ++ rest))) in
    let met = read_full-append (c ∷ methods) tail in
    let judged = read_username-message eu ep u p rest h k in rw (met, o) (ground (arith, judged))

filled-length : (s : Text) → (is_empty s ≡ false) ↔ (1 ≤ length s)
unfolding is_empty
filled-length [] = ((λ h. cc), λ h. absurd (omega arith))
filled-length (c ∷ s) = ((λ h. omega arith), λ h. refl)

-- `negotiateClientAuth` accepts, where its answer can be written, just what offers passwords and then
-- sends the expected name and key, neither empty: so with no key configured nobody passes.
pub negotiate_client_auth_iff :
    (username password input : Text)
    → ((negotiate_client_auth true username password input).accepted ≡ true)
      ↔ Authenticates username password input
negotiate_client_auth_iff username password input = (
  negotiate-accepts true username password input,
  λ ((methods, rest, e, offered), (some_name, some_key)).
      let judged =
        negotiate-message username password methods username password rest offered
          ((filled-length username).1 some_name) ((filled-length password).1 some_key) in
      rw e (ground (arith, judged, same_refl username, same_refl password)),
)

append-cons : (a b rest : Text) (x : ℕ) → (a ++ (x ∷ b)) ++ rest ≡ a ++ (x ∷ (b ++ rest))
append-cons [] b rest x = refl
append-cons (y ∷ a) b rest x = ap (λ t. y ∷ t) (append-cons a b rest x)

-- What the dialler writes is a message of the form.
dialled-message :
    (u p rest : Text)
    → is_empty u ≡ false
    → length u ≤ 255
    → length p ≤ 255
    → greeting u ++ (credentials u p ++ rest) ≡ message (0 ∷ 2 ∷ []) u p rest
unfolding greeting credentials
dialled-message u p rest h l m =
    let small : length u % 256 ≡ length u = omega arith in
    let small2 : length p % 256 ≡ length p = omega arith in
    rw (h, small, small2, append-cons u p rest (length p)) refl

-- The dialler, where the proxy asks for the password.
dial-writes :
    (net : NetLib) (sends : ℕ → Bool) (u p target answer : Text)
    → is_empty u ≡ false
    → is_empty p ≡ false
    → length u ≤ 255
    → length p ≤ 255
    → sends 0 ≡ true
    → sends 1 ≡ true
    → (dial_socks5 net sends u p true target (5 ∷ 2 ∷ answer)).written
      ≡ greeting u ++ (credentials u p ++ (read_verdict net sends u p target answer).written)
unfolding dial_socks5 read_method authenticate
dial-writes net sends u p target answer h k l m s t = rw (h, k, s, t) (ground arith)

-- The dialler of the program against its listener: if the listener asks for a password and the writes
-- go through, what `dialSOCKS5` sends with a name and a password of 1 to 255 bytes is accepted if and
-- only if they are the expected ones, whatever the listener's side answers later.
pub dialled_negotiates :
    (net : NetLib) (sends : ℕ → Bool) (username password u p target answer : Text)
    → is_empty u ≡ false
    → is_empty p ≡ false
    → length u ≤ 255
    → length p ≤ 255
    → sends 0 ≡ true
    → sends 1 ≡ true
    → (negotiate_client_auth true username password
        (dial_socks5 net sends u p true target (5 ∷ 2 ∷ answer)).written).accepted
      ≡ (same u username && same p password)
dialled_negotiates net sends username password u p target answer h k l m s t =
    let rest = (read_verdict net sends u p target answer).written in
    rw (dial-writes net sends u p target answer h k l m s t, dialled-message u p rest h l m)
      (negotiate-message username password (0 ∷ 2 ∷ []) u p rest (unfold has_byte in refl) h k)
