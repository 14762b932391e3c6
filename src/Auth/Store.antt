-- ===== src/Auth/Store.antt =====
-- auth.go: the store of the password, the sessions and the attempts to log in. A time is a number of
-- nanoseconds; the zero time is 0.
use tor_country_manager.Shared.{
  ℕ, suc, ◌+◌, ◌-◌, Bool, true, false, ◌||◌, not, List, [], ◌∷◌, ◌++◌, Option, none, some, ltb, leb,
  if◌then◌else◌, length, keep, take,
}
use tor_country_manager.Shared.Text.{Text, same, is_empty, trim_space}
use tor_country_manager.Shared.Assoc.{lookup, insert, delete}
use tor_country_manager.Config.Defs.{Config}
use tor_country_manager.Auth.Password.{CryptoLib, hash_password, verify_password}

pub record LoginAttempt : Type 0 where
  pub failures : ℕ
  pub blocked_until : ℕ
  pub last_seen : ℕ

-- `saved` is the content of the password file.
pub record AuthStore : Type 0 where
  pub legacy : Text
  pub hash : Text
  pub saved : Option Text
  pub sessions : List (Text × ℕ)
  pub login_attempts : List (Text × LoginAttempt)

pub data AuthError : Type 0 where
  already_configured incorrect_password password_too_short password_too_long : AuthError
  no_randomness cannot_make_dir cannot_save cannot_read : AuthError

-- How the storing of a password ends: it is stored, under the random salt; it fails before the file is
-- opened; or `os.WriteFile`, which empties the file first, fails after it has written `count` bytes.
pub data Storing : Type 0 where
  stores : (salt : Text) → Storing
  fails : AuthError → Storing
  cuts : (salt : Text) (count : ℕ) → Storing

abbrev pub login_failure_limit : ℕ
login_failure_limit = 5

abbrev pub login_block_duration : ℕ
login_block_duration = 300000000000

abbrev pub login_record_lifetime : ℕ
login_record_lifetime = 900000000000

abbrev pub session_lifetime : ℕ
session_lifetime = 43200000000000

abbrev hash_of : Option Text → Text
hash_of none = []
hash_of (some file) = trim_space file

-- `NewAuthStore` on the content of the file, `none` where there is none.
unfoldable pub new_auth_store : Config → Option Text → AuthStore
new_auth_store cfg file = record {
  legacy = cfg.auth_token;
  hash = hash_of file;
  saved = file;
  sessions = [];
  login_attempts = [];
}

unfoldable pub configured : AuthStore → Bool
configured a = not (is_empty a.hash) || not (is_empty a.legacy)

abbrev unknown : Text
unknown = b'u' ∷ b'n' ∷ b'k' ∷ b'n' ∷ b'o' ∷ b'w' ∷ b'n' ∷ []

abbrev pub client_key : Text → Text
client_key client = if is_empty client then unknown else client

abbrev pub no_attempt : LoginAttempt
no_attempt = record { failures = 0; blocked_until = 0; last_seen = 0 }

-- A read of the map gives the zero record where there is none.
abbrev pub attempt_or_zero : Option LoginAttempt → LoginAttempt
attempt_or_zero none = no_attempt
attempt_or_zero (some r) = r

unfoldable pub attempt_of : AuthStore → Text → LoginAttempt
attempt_of a client = attempt_or_zero (lookup client a.login_attempts)

abbrev pub is_recent : ℕ → Text × LoginAttempt → Bool
is_recent now entry = not (ltb (entry.1.last_seen + login_record_lifetime) now)

-- The records that are too old are deleted.
unfoldable pub purge : ℕ → AuthStore → AuthStore
purge now a = record a { login_attempts = keep (is_recent now) a.login_attempts }

abbrev pub set_attempt : AuthStore → Text → LoginAttempt → AuthStore
set_attempt a client r = record a { login_attempts = insert client r a.login_attempts }

-- One more failure, at the limit of which the client is blocked.
unfoldable pub failed : LoginAttempt → ℕ → LoginAttempt
failed r now =
    if leb login_failure_limit (suc r.failures)
    then record { failures = 0; blocked_until = now + login_block_duration; last_seen = now }
    else record r { failures = suc r.failures; last_seen = now }

abbrev pub is_blocked : LoginAttempt → ℕ → Bool
is_blocked r now = ltb now r.blocked_until

unfoldable pub changed : AuthStore × Option AuthError → AuthStore × Option AuthError
changed (a, some e) = (a, some e)
changed (a, none) = (record a { legacy = []; sessions = [] }, none)

module _ (lib : CryptoLib) where
  unfoldable pub store_password : AuthStore → Text → Storing → AuthStore × Option AuthError
  store_password a password (stores salt) =
      let hash = hash_password lib salt password in
      (record a { hash = hash; saved = some (hash ++ (10 ∷ [])) }, none)
  store_password a password (fails e) = (a, some e)
  store_password a password (cuts salt count) =
      let content = hash_password lib salt password ++ (10 ∷ []) in
      (record a { saved = some (take count content) }, some cannot_save)

  unfoldable pub set_password : AuthStore → Text → Storing → AuthStore × Option AuthError
  unfolding store_password
  set_password a password s =
      if ltb (length password) 8
      then (a, some password_too_short)
      else if ltb 256 (length password)
      then (a, some password_too_long)
      else store_password a password s

  unfoldable pub setup : AuthStore → Text → Storing → AuthStore × Option AuthError
  unfolding set_password configured
  setup a password s =
      if configured a then (a, some already_configured) else set_password a password s

  unfoldable pub verify_locked : AuthStore → Text → Bool
  verify_locked a password =
      if not (is_empty a.hash)
      then verify_password lib a.hash password
      else if not (is_empty a.legacy)
      then same a.legacy password
      else false

  unfoldable pub change :
      AuthStore → (current replacement : Text) → Storing → AuthStore × Option AuthError
  unfolding changed set_password verify_locked
  change a current replacement s =
      if not (verify_locked a current)
      then (a, some incorrect_password)
      else changed (set_password a replacement s)

  -- The answer is whether the password is right, and how long the client is blocked.
  unfoldable pub authenticate_known : AuthStore → Text → Text → ℕ → AuthStore × (Bool × ℕ)
  unfolding attempt_of verify_locked failed
  authenticate_known a client password now =
      let r = attempt_of a client in
      let f = failed r now in
      if is_blocked r now
      then (set_attempt a client (record r { last_seen = now }), (false, r.blocked_until - now))
      else if verify_locked a password
      then (record a { login_attempts = delete client a.login_attempts }, (true, 0))
      else if is_blocked f now
      then (set_attempt a client f, (false, f.blocked_until - now))
      else (set_attempt a client f, (false, 0))

  unfoldable pub authenticate_at : AuthStore → Text → Text → ℕ → AuthStore × (Bool × ℕ)
  unfolding authenticate_known purge
  authenticate_at a client password now =
      authenticate_known (purge now a) (client_key client) password now

-- `CreateSession`, with the random token; the loop deletes the sessions that are over.
unfoldable pub create_session : AuthStore → Text → ℕ → AuthStore
create_session a token now = record a {
  sessions = keep (λ s. not (ltb s.1 now)) (insert token (now + session_lifetime) a.sessions);
}

abbrev pub expires_later : Option ℕ → ℕ → Bool
expires_later none now = false
expires_later (some expires) now = ltb now expires

-- The cookie's value, `none` if the request has no cookie.
unfoldable pub valid_session : AuthStore → Option Text → ℕ → Bool
valid_session a none now = false
valid_session a (some token) now =
    if is_empty token then false else expires_later (lookup token a.sessions) now

unfoldable pub delete_session : AuthStore → Option Text → AuthStore
delete_session a none = a
delete_session a (some token) = record a { sessions = delete token a.sessions }
