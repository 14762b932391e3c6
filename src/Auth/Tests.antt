-- ===== src/Auth/Tests.antt =====
-- A small library of digests, stores of passwords, and the theorems about auth.go applied to them.
use tor_country_manager.Shared.{
  ℕ, ◌+◌, ◌-◌, ◌≤◌, ◌<◌, false, not, ◌&&◌, List, [], ◌∷◌, map, none, some, ◌≡◌, refl, arith, length,
}
use tor_country_manager.Shared.Text.{Text, text, has_byte, same, is_empty}
use tor_country_manager.Shared.Assoc.{lookup, insert}
use tor_country_manager.Auth.Password.{CryptoLib}
use tor_country_manager.Auth.Refines.{store_answers, machine_answers, authenticate_at-refines}
use tor_country_manager.Auth.Store.{no_attempt}
use tor_country_manager.Auth.Store.{
  AuthStore, already_configured, Storing, stores, configured, login_block_duration, setup, change,
  verify_locked, failed, authenticate_at, is_blocked, attempt_of, purge, client_key,
}
use tor_country_manager.Auth.Throttle.{Login, is_checked, checked_passwords, five_guesses}
use tor_country_manager.Auth.Roundtrip.{
  Sound, Use, use_all, same_key, setup_then_login, Changes, change-Changes,
}

-- 32 bytes that tell some messages apart.
abbrev small_digest : ℕ → Text
small_digest n =
    n ∷ 0 ∷ 0 ∷ 0 ∷ 0 ∷ 0 ∷ 0 ∷ 0 ∷ 0 ∷ 0 ∷ 0 ∷ 0 ∷ 0 ∷ 0 ∷ 0 ∷ 0 ∷ 0 ∷ 0 ∷ 0 ∷ 0 ∷ 0 ∷ 0 ∷ 0 ∷ 0
    ∷ 0 ∷ 0 ∷ 0 ∷ 0 ∷ 0 ∷ 0 ∷ 0 ∷ 0 ∷ []

-- Every byte moves up, over the `$`; the way back moves it down.
abbrev encode_byte : ℕ → ℕ
encode_byte c = c + 37

abbrev small_lib : CryptoLib
small_lib = record {
  hmac = λ key message. small_digest (length key);
  encode64 = map encode_byte;
  decode64 = λ s. some (map (λ c. c - 37) s);
}

decodes_back : (s : Text) → map (λ c. c - 37) (map encode_byte s) ≡ s
decodes_back [] = refl
decodes_back (c ∷ s) = ground (arith, decodes_back s)

without_separator : (s : Text) → has_byte b'$' (map encode_byte s) ≡ false
unfolding has_byte
without_separator [] = refl
without_separator (c ∷ s) = ground (arith, without_separator s)

small_lib-Sound : Sound small_lib
small_lib-Sound = record {
  decodes = λ s. ground (arith, decodes_back s);
  no_separator = without_separator;
  digest_size = λ key message. refl;
}

abbrev empty_store : AuthStore
empty_store = record { legacy = []; hash = []; saved = none; sessions = []; login_attempts = [] }

abbrev sixteen : Text
sixteen = 1 ∷ 2 ∷ 3 ∷ 4 ∷ 5 ∷ 6 ∷ 7 ∷ 8 ∷ 9 ∷ 10 ∷ 11 ∷ 12 ∷ 13 ∷ 14 ∷ 15 ∷ 16 ∷ []

abbrev nine : Text
nine = 49 ∷ 50 ∷ 51 ∷ 52 ∷ 53 ∷ 54 ∷ 55 ∷ 56 ∷ 57 ∷ []

abbrev later_uses : List Use
later_uses =
    Use.logs_in nine sixteen 1000
    ∷ Use.opens_session sixteen 1001
    ∷ Use.sets_up sixteen (stores nine)
    ∷ Use.closes_session (some sixteen)
    ∷ []

setup_then_login_example :
    let n = use_all small_lib (setup small_lib empty_store nine (stores sixteen)).0 later_uses in
    ((setup small_lib empty_store nine (stores sixteen)).1 ≡ none)
    × ((client other : Text) (now : ℕ)
        → (authenticate_at small_lib n client other now).1.0 ≡ (
            not (is_blocked (attempt_of (purge now n) (client_key client)) now)
            && same_key small_lib sixteen nine other))
    × ((other : Text) (s : Storing) → setup small_lib n other s ≡ (n, some already_configured))
unfolding configured is_empty
setup_then_login_example =
    setup_then_login small_lib empty_store sixteen nine later_uses small_lib-Sound (omega arith)
      refl (omega arith) (omega arith)

abbrev with_token : AuthStore
with_token = record empty_store { legacy = nine; sessions = (sixteen, 100) ∷ [] }

change-Changes_example :
    Changes small_lib with_token nine sixteen
      (stores sixteen)
      (change small_lib with_token nine sixteen (stores sixteen))
change-Changes_example =
    change-Changes small_lib with_token nine sixteen (stores sixteen) small_lib-Sound (omega arith)

abbrev guesses : List Login
guesses =
    record { client = nine; password = sixteen; now = 1000 }
    ∷ record { client = []; password = sixteen; now = 1001 }
    ∷ record { client = nine; password = []; now = 1002 }
    ∷ record { client = nine; password = []; now = 1003 }
    ∷ record { client = nine; password = []; now = 1004 }
    ∷ record { client = nine; password = []; now = 1005 }
    ∷ record { client = nine; password = []; now = 1006 }
    ∷ []

-- The sixth attempt of the client is not compared.
five_compared : checked_passwords small_lib with_token nine guesses ≡ 5
unfolding checked_passwords is_checked text same is_empty attempt_of lookup insert purge
    authenticate_at verify_locked failed
five_compared = refl

five_guesses_example : checked_passwords small_lib with_token nine guesses ≤ 5
unfolding verify_locked same is_empty
five_guesses_example =
    five_guesses small_lib nine 1000 guesses with_token
      (
        within 1000 (omega arith),
        (
          within 1001 (omega arith),
          (
            within 1002 (omega arith),
            (
              within 1003 (omega arith),
              (
                within 1004 (omega arith),
                (within 1005 (omega arith), (within 1006 (omega arith), tt)),
              ),
            ),
          ),
        ),
      )
      (
        (λ _. refl),
        (
          (λ _. refl),
          ((λ _. refl), ((λ _. refl), ((λ _. refl), ((λ _. refl), ((λ _. refl), tt))))),
        ),
      )
  where
    within : (n : ℕ) → (1000 ≤ n) × (n < 1007) → (1000 ≤ n) × (n < 1000 + login_block_duration)
    within n h = (h.0, omega (arith, h.1))

authenticate_at-refines_example :
    store_answers small_lib nine with_token guesses
    ≡ machine_answers (verify_locked small_lib with_token) nine no_attempt guesses
unfolding attempt_of lookup
authenticate_at-refines_example =
    authenticate_at-refines small_lib nine 1000 guesses with_token tt (
      omega arith,
      (omega arith, (omega arith, (omega arith, (omega arith, (omega arith, (omega arith, tt)))))),
    )
