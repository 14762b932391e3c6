-- ===== src/Auth/Roundtrip.antt =====
-- auth.go: a stored password is the one that logs in, and a change of it ends what the old one gave.
use tor_country_manager.Shared.{
  ℕ, zero, suc, ◌-◌, ◌≤◌, Bool, true, false, ◌&&◌, not, List, [], ◌∷◌, ◌++◌, Option, none, some,
  ltb, ◌≡◌, ◌∙◌, ◌⊎◌, refl, ap, arith, inl, inr, length, is_some, if_either, if_cases,
}
use tor_country_manager.Shared.Text.{Text, same, is_empty, has_byte}
use tor_country_manager.Shared.Int.{pos}
use tor_country_manager.Shared.Assoc.{lookup}
use tor_country_manager.Config.Validate.{atoi, atoi_pos, unsigned, digits_value}
use tor_country_manager.Auth.Password.{
  CryptoLib, split, split_more, xor_bytes, pbkdf2_rounds, pbkdf2_sha256, password_iterations,
  iterations_text, scheme, hash_password, verify_key, verify_salt, verify_iterations, verify_parts,
  verify_password,
}
use tor_country_manager.Auth.Store.{
  AuthStore, AuthError, already_configured, Storing, stores, fails, cuts, store_password,
  is_blocked, attempt_of, purge, client_key, configured, set_password, setup, verify_locked,
  changed, change, authenticate_known, authenticate_at, create_session, delete_session,
  valid_session,
}

-- What the code relies on: base64 without padding can be read back and has no `$`, and a digest has 32
-- bytes.
pub record Sound (lib : CryptoLib) : Type 0 where
  pub decodes : (s : Text) → lib.decode64 (lib.encode64 s) ≡ some s
  pub no_separator : (s : Text) → has_byte b'$' (lib.encode64 s) ≡ false
  pub digest_size : (key message : Text) → length (lib.hmac key message) ≡ 32

split-none : (c : ℕ) (xs : Text) → has_byte c xs ≡ false → split c xs ≡ (xs, [])
unfolding split split_more has_byte
split-none c [] h = refl
split-none c (x ∷ xs) h =
    let rest = split-none c xs (ground arith) in rw (rest, split_more) (ground arith)

-- The parts of a text, as one list.
abbrev parts_of : Text × List Text → List Text
parts_of (p, ps) = p ∷ ps

split-append :
    (c : ℕ) (xs ys : Text)
    → has_byte c xs ≡ false
    → split c (xs ++ (c ∷ ys)) ≡ (xs, parts_of (split c ys))
unfolding split split_more has_byte
split-append c [] ys h = ground arith
split-append c (x ∷ xs) ys h =
    let rest = split-append c xs ys (ground arith) in rw rest (ground arith)

length-xor_bytes : (a b : Text) → length (xor_bytes a b) ≡ length a
unfolding xor_bytes
length-xor_bytes [] b = refl
length-xor_bytes (x ∷ a) [] = refl
length-xor_bytes (x ∷ a) (y ∷ b) = omega (arith, length-xor_bytes a b)

length-pbkdf2_rounds :
    (lib : CryptoLib) (n : ℕ) (p u r : Text) → length (pbkdf2_rounds lib n p u r) ≡ length r
unfolding pbkdf2_rounds
length-pbkdf2_rounds lib zero p u r = refl
length-pbkdf2_rounds lib (suc n) p u r =
    let v = lib.hmac p u in length-pbkdf2_rounds lib n p v (xor_bytes r v) ∙ length-xor_bytes r v

length-pbkdf2_sha256 :
    (lib : CryptoLib) (p s : Text) (n : ℕ) → Sound lib → length (pbkdf2_sha256 lib p s n) ≡ 32
unfolding pbkdf2_sha256
length-pbkdf2_sha256 lib p s n g =
    let u = lib.hmac p (s ++ (0 ∷ 0 ∷ 0 ∷ 1 ∷ [])) in
    length-pbkdf2_rounds lib (n - 1) p u u ∙ g.digest_size p _

split-hash_password :
    (lib : CryptoLib) (salt password : Text)
    → Sound lib
    → split b'$' (hash_password lib salt password) ≡ (
      scheme,
      iterations_text
          ∷ lib.encode64 salt
          ∷ lib.encode64 (pbkdf2_sha256 lib password salt password_iterations)
          ∷ [],
    )
unfolding hash_password split split_more
split-hash_password lib salt password g =
    let key = lib.encode64 (pbkdf2_sha256 lib password salt password_iterations) in
    let last = split-none b'$' key (g.no_separator _) in
    let third = split-append b'$' (lib.encode64 salt) key (g.no_separator salt) in
    rw (third, last) refl

atoi-iterations : atoi (iterations_text) ≡ some (pos 210000)
unfolding atoi unsigned digits_value atoi_pos
atoi-iterations = refl

verify_parts-known :
    (lib : CryptoLib) (encoded_salt encoded_key salt key other : Text)
    → lib.decode64 encoded_salt ≡ some salt
    → lib.decode64 encoded_key ≡ some key
    → 16 ≤ length salt
    → length key ≡ 32
    → verify_parts lib (scheme, iterations_text ∷ encoded_salt ∷ encoded_key ∷ []) other
      ≡ same (pbkdf2_sha256 lib other salt password_iterations) key
unfolding verify_parts verify_iterations verify_salt verify_key same
verify_parts-known lib encoded_salt encoded_key salt key other s k l size =
    rw (atoi-iterations, s, k) (ground (arith, size))

-- The encoding accepts the passwords whose key is the stored one.
verify_password-hash_password :
    (lib : CryptoLib) (salt password other : Text)
    → Sound lib
    → 16 ≤ length salt
    → verify_password lib (hash_password lib salt password) other
      ≡ same
          (pbkdf2_sha256 lib other salt password_iterations)
          (pbkdf2_sha256 lib password salt password_iterations)
unfolding verify_password
verify_password-hash_password lib salt password other g l =
    ap (λ p. verify_parts lib p other) (split-hash_password lib salt password g)
    ∙ verify_parts-known lib _ _ salt _ other (g.decodes salt) (g.decodes _) l
        (length-pbkdf2_sha256 lib password salt password_iterations g)

-- The keys of two passwords under a salt are the same.
abbrev pub same_key : CryptoLib → (salt password other : Text) → Bool
same_key lib salt password other =
    same (pbkdf2_sha256 lib other salt password_iterations)
      (pbkdf2_sha256 lib password salt password_iterations)

hash_password-filled : (lib : CryptoLib) (s p : Text) → is_empty (hash_password lib s p) ≡ false
unfolding hash_password is_empty
hash_password-filled lib s p = refl

-- A store that holds the hash of a password accepts what has its key.
holds-verify :
    (lib : CryptoLib) (n : AuthStore) (salt password other : Text)
    → Sound lib
    → 16 ≤ length salt
    → n.hash ≡ hash_password lib salt password
    → verify_locked lib n other ≡ same_key lib salt password other
unfolding verify_locked
holds-verify lib n salt password other g l e =
    let filled = hash_password-filled lib salt password in
    let verified = verify_password-hash_password lib salt password other g l in
    rw (e, filled) verified

pub authenticate_at-answer :
    (lib : CryptoLib) (a : AuthStore) (client password : Text) (now : ℕ)
    → (authenticate_at lib a client password now).1.0 ≡ (
        not (is_blocked (attempt_of (purge now a) (client_key client)) now)
        && verify_locked lib a password)
unfolding authenticate_at authenticate_known purge verify_locked
authenticate_at-answer lib a client password now = ground arith

setup-stores :
    (lib : CryptoLib) (a : AuthStore) (salt password : Text)
    → configured a ≡ false
    → 8 ≤ length password
    → length password ≤ 256
    → ((setup lib a password (stores salt)).1 ≡ none)
      × ((setup lib a password (stores salt)).0.hash ≡ hash_password lib salt password)
unfolding setup set_password store_password
setup-stores lib a salt password c l u = ground arith

filled-configured :
    (lib : CryptoLib) (n : AuthStore) (salt password : Text)
    → n.hash ≡ hash_password lib salt password
    → configured n ≡ true
unfolding configured
filled-configured lib n salt password e =
    let filled = hash_password-filled lib salt password in rw (e, filled) refl

-- What may happen to the store after the first password is set: attempts to log in, sessions that begin
-- and end, and further calls of `Setup`.
pub data Use : Type 0 where
  logs_in : (client password : Text) (now : ℕ) → Use
  opens_session : (token : Text) (now : ℕ) → Use
  closes_session : (cookie : Option Text) → Use
  sets_up : (password : Text) → Storing → Use

unfoldable pub use_store : CryptoLib → AuthStore → Use → AuthStore
use_store lib a (logs_in client password now) = (authenticate_at lib a client password now).0
use_store lib a (opens_session token now) = create_session a token now
use_store lib a (closes_session cookie) = delete_session a cookie
use_store lib a (sets_up password s) = (setup lib a password s).0

unfoldable pub use_all : CryptoLib → AuthStore → List Use → AuthStore
use_all lib a [] = a
use_all lib a (u ∷ us) = use_all lib (use_store lib a u) us

setup_again-hash :
    (lib : CryptoLib) (a : AuthStore) (password : Text) (s : Storing)
    → configured a ≡ true
    → (setup lib a password s).0.hash ≡ a.hash
unfolding setup
setup_again-hash lib a password s h = rw h refl

use_store-hash :
    (lib : CryptoLib) (a : AuthStore) (u : Use)
    → configured a ≡ true
    → (use_store lib a u).hash ≡ a.hash
unfolding use_store authenticate_at authenticate_known purge create_session delete_session
use_store-hash lib a (logs_in client password now) h = ground arith
use_store-hash lib a (opens_session token now) h = refl
use_store-hash lib a (closes_session none) h = refl
use_store-hash lib a (closes_session (some token)) h = refl
use_store-hash lib a (sets_up password s) h = setup_again-hash lib a password s h

use_all-hash :
    (lib : CryptoLib) (a : AuthStore) (us : List Use) (salt password : Text)
    → a.hash ≡ hash_password lib salt password
    → (use_all lib a us).hash ≡ hash_password lib salt password
unfolding use_all
use_all-hash lib a [] salt password h = h
use_all-hash lib a (u ∷ us) salt password h =
    use_all-hash lib (use_store lib a u) us salt password
      (use_store-hash lib a u (filled-configured lib a salt password h) ∙ h)

-- Where no password is configured, `Setup` stores one of 8 to 256 bytes under a salt of at least 16;
-- after it, whatever attempts to log in, sessions and calls of `Setup` follow, a client that is not
-- blocked logs in with exactly the passwords that have its key, so with this password, and no further
-- `Setup` succeeds; this for a base64 that can be read back and digests of 32 bytes.
pub setup_then_login :
    (lib : CryptoLib) (a : AuthStore) (salt password : Text) (us : List Use)
    → Sound lib
    → 16 ≤ length salt
    → configured a ≡ false
    → 8 ≤ length password
    → length password ≤ 256
    → let n = use_all lib (setup lib a password (stores salt)).0 us in
      ((setup lib a password (stores salt)).1 ≡ none)
      × ((client other : Text) (now : ℕ)
          → (authenticate_at lib n client other now).1.0 ≡ (
              not (is_blocked (attempt_of (purge now n) (client_key client)) now)
              && same_key lib salt password other))
      × ((other : Text) (s : Storing) → setup lib n other s ≡ (n, some already_configured))
unfolding setup
setup_then_login lib a salt password us g l c lo hi =
    let (done, stored) = setup-stores lib a salt password c lo hi in
    let n = use_all lib (setup lib a password (stores salt)).0 us in
    let held = use_all-hash lib _ us salt password stored in
    (
      done,
      λ client other now.
          authenticate_at-answer lib n client other now
          ∙ ap (λ b. not (is_blocked (attempt_of (purge now n) (client_key client)) now) && b)
              (holds-verify lib n salt password other g l held),
      λ other s. rw (filled-configured lib n salt password held) refl,
    )

-- What `Change` comes to: an error, and then the hash, the token, the sessions and the attempts are as
-- they were; or the current password was right, every session is over, and there is a salt, that of the
-- storing, with which the new password logs in and nothing else does.
abbrev pub Changes :
    CryptoLib
    → AuthStore
    → (current replacement : Text) → Storing
    → AuthStore × Option AuthError
    → Type 0
Changes lib a current replacement storing r =
    ((is_some r.1 ≡ true)
      × ((r.0 ≡ a)
          ⊎ (((salt : Text) × (count : ℕ) × (storing ≡ cuts salt count))
              × ((saved : Option Text) × (r.0 ≡ record a { saved = saved })))))
    ⊎ ((r.1 ≡ none)
        × (verify_locked lib a current ≡ true)
        × ((cookie : Option Text) (now : ℕ) → valid_session r.0 cookie now ≡ false)
        × ((salt : Text) × (storing ≡ stores salt)
            × ((other : Text) → verify_locked lib r.0 other ≡ same_key lib salt replacement other)))

no-session :
    (n : AuthStore) (cookie : Option Text) (now : ℕ)
    → n.sessions ≡ []
    → valid_session n cookie now ≡ false
unfolding valid_session lookup
no-session n none now e = refl
no-session n (some token) now e = rw e (ground arith)

-- The random salt of a storing that comes so far has 16 bytes at least.
abbrev pub Salted : Storing → Type 0
Salted (stores salt) = 16 ≤ length salt
Salted _ = Unit

stored-Changes :
    (lib : CryptoLib) (a : AuthStore) (current replacement : Text) (storing : Storing)
    → Sound lib
    → Salted storing
    → verify_locked lib a current ≡ true
    → Changes lib a current replacement storing (changed (store_password lib a replacement storing))
unfolding changed store_password
stored-Changes lib a current replacement (stores salt) g l v = inr (
  refl,
  v,
  (λ cookie now. no-session _ cookie now refl),
  (salt, refl, λ other. holds-verify lib _ salt replacement other g l refl),
)
stored-Changes lib a current replacement (fails e) g l v = inl (refl, inl refl)
stored-Changes lib a current replacement (cuts salt count) g l v =
    inl (refl, inr ((salt, count, refl), (_, refl)))

changed-Changes :
    (lib : CryptoLib) (a : AuthStore) (current replacement : Text) (storing : Storing)
    → Sound lib
    → Salted storing
    → verify_locked lib a current ≡ true
    → Changes lib a current replacement storing (changed (set_password lib a replacement storing))
unfolding changed set_password
changed-Changes lib a current replacement storing g l v =
    let P : AuthStore × Option AuthError → Type 0 =
      λ r. Changes lib a current replacement storing (changed r) in
    if_either P (ltb (length replacement) 8) (inl (refl, inl refl)) (
      if_either P (ltb 256 (length replacement)) (inl (refl, inl refl))
        (stored-Changes lib a current replacement storing g l v))

-- However the storing ends, with a salt of at least 16 bytes where it succeeds, base64 that can be read
-- back and digests of 32 bytes, a change of the password fails and changes nothing, but for the password
-- file where `os.WriteFile` fails after it has emptied it; or the current password was right, and then
-- every session is over, also the caller's, and only passwords with the new one's key are accepted:
-- neither the old password nor the token of the configuration file.
pub change-Changes :
    (lib : CryptoLib) (a : AuthStore) (current replacement : Text) (storing : Storing)
    → Sound lib
    → Salted storing
    → Changes lib a current replacement storing (change lib a current replacement storing)
unfolding change
change-Changes lib a current replacement storing g l =
    if_cases (Changes lib a current replacement storing) (not (verify_locked lib a current))
      (λ _. inl (refl, inl refl))
      (λ e. changed-Changes lib a current replacement storing g l (ground arith))
