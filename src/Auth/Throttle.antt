-- ===== src/Auth/Throttle.antt =====
-- auth.go: `authenticateAt` bounds how fast a password can be guessed.
use tor_country_manager.Shared.{
  ℕ, suc, ◌+◌, ◌-◌, ◌≤◌, ◌<◌, Bool, false, ◌&&◌, not, List, [], ◌∷◌, some, ltb, leb, if◌then◌else◌,
  ◌≡◌, ◌∙◌, refl, arith, keep, All, inl, inr, Bool-cases,
}
use tor_country_manager.Shared.Text.{Text, text, is_empty, same, same_iff}
use tor_country_manager.Shared.Assoc.{lookup, lookup-insert, lookup-delete}
use tor_country_manager.Auth.Password.{CryptoLib}
use tor_country_manager.Auth.Roundtrip.{authenticate_at-answer}
use tor_country_manager.Auth.Store.{
  AuthStore, LoginAttempt, attempt_of, is_blocked, is_recent, purge, failed, verify_locked,
  client_key, authenticate_known, authenticate_at, login_block_duration, login_record_lifetime,
  set_attempt,
}

-- One call of `authenticateAt`.
pub record Login : Type 0 where
  pub client : Text
  pub password : Text
  pub now : ℕ

abbrev right : Text
right = text "right"

-- The store, if the administrator's password were this one.
abbrev with_password : AuthStore → Text → AuthStore
with_password a password = record a { hash = []; legacy = password }

-- Whether an attempt of this client at that time logs in with the right password, as one does whose
-- password is compared.
unfoldable pub is_checked : CryptoLib → AuthStore → Text → Login → Bool
is_checked lib a k l =
    same (client_key l.client) k
    && (authenticate_at lib (with_password a right) l.client right l.now).1.0

-- How many passwords of this client are compared while the attempts are handled in turn.
unfoldable pub checked_passwords : CryptoLib → AuthStore → Text → List Login → ℕ
unfolding is_checked
checked_passwords lib a k [] = 0
checked_passwords lib a k (l ∷ ls) =
    let rest = checked_passwords lib (authenticate_at lib a l.client l.password l.now).0 k ls in
    if is_checked lib a k l then suc rest else rest

is_checked-lem :
    (lib : CryptoLib) (a : AuthStore) (k : Text) (l : Login)
    → client_key l.client ≡ k
    → is_checked lib a k l ≡ not (is_blocked (attempt_of (purge l.now a) k) l.now)
unfolding is_checked purge attempt_of verify_locked is_empty text same
is_checked-lem lib a k l e =
    let answer = authenticate_at-answer lib (with_password a right) l.client right l.now in
    let named = (same_iff (client_key l.client) k).1 e in rw (named, answer, e) (ground arith)

is_checked-other :
    (lib : CryptoLib) (a : AuthStore) (k : Text) (l : Login)
    → same (client_key l.client) k ≡ false
    → is_checked lib a k l ≡ false
unfolding is_checked
is_checked-other lib a k l e = rw e refl

-- The attempt is made in the five minutes from `start` on.
abbrev pub InWindow : ℕ → Login → Type 0
InWindow start l = (start ≤ l.now) × (l.now < start + login_block_duration)

-- Attempts of the client with the right password are out of the question.
abbrev pub Wrong : CryptoLib → AuthStore → Text → Login → Type 0
Wrong lib a k l = client_key l.client ≡ k → verify_locked lib a l.password ≡ false

-- The passwords that may still be compared until `end`, after a failure in the window.
abbrev budget : LoginAttempt → ℕ → ℕ
budget r end = if leb end r.blocked_until then 0 else if ltb r.failures 5 then 5 - r.failures else 1

lookup-purge :
    (k : Text) (now : ℕ) (xs : List (Text × LoginAttempt)) (r : LoginAttempt)
    → lookup k xs ≡ some r
    → now ≤ r.last_seen + login_record_lifetime
    → lookup k (keep (is_recent now) xs) ≡ some r
unfolding lookup
lookup-purge k now [] r h l = cc
lookup-purge k now ((j, s) ∷ xs) r h l = ground (arith, lookup-purge k now xs r)

-- A failure spends one comparison.
failed-budget :
    (r : LoginAttempt) (now end : ℕ)
    → now < end
    → end ≤ now + login_block_duration
    → is_blocked r now ≡ false
    → suc (budget (failed r now) end) ≤ budget r end
unfolding failed
failed-budget r now end l u b = ground arith

budget-bound : (r : LoginAttempt) (end : ℕ) → budget r end ≤ 5
budget-bound r end = ground arith

failed-last_seen : (r : LoginAttempt) (now : ℕ) → (failed r now).last_seen ≡ now
unfolding failed
failed-last_seen r now = ground arith

-- The record of the client after an attempt of it that fails.
after_failure : LoginAttempt → ℕ → LoginAttempt
after_failure r now = if is_blocked r now then record r { last_seen = now } else failed r now

lookup-set_attempt :
    (a : AuthStore) (k : Text) (r : LoginAttempt)
    → lookup k (set_attempt a k r).login_attempts ≡ some r
lookup-set_attempt a k r = ground (arith, lookup-insert k k r a.login_attempts, same_iff k k)

authenticate-own :
    (lib : CryptoLib) (a : AuthStore) (password : Text) (k : Text) (now : ℕ)
    → verify_locked lib a password ≡ false
    → lookup k (authenticate_known lib a k password now).0.login_attempts
      ≡ some (after_failure (attempt_of a k) now)
unfolding authenticate_known after_failure
authenticate-own lib a password k now w =
    let r = attempt_of a k in
    let seen = lookup-set_attempt a k (record r { last_seen = now }) in
    let counted = lookup-set_attempt a k (failed r now) in ground (arith, seen, counted)

pub authenticate-other :
    (lib : CryptoLib) (a : AuthStore) (c password : Text) (k : Text) (now : ℕ)
    → same c k ≡ false
    → lookup k (authenticate_known lib a c password now).0.login_attempts
      ≡ lookup k a.login_attempts
unfolding authenticate_known
authenticate-other lib a c password k now w =
    let r = attempt_of a c in
    let seen = lookup-insert c k (record r { last_seen = now }) a.login_attempts in
    let counted = lookup-insert c k (failed r now) a.login_attempts in
    let gone = lookup-delete c k a.login_attempts in ground (arith, seen, counted, gone)

-- The password stays as it is.
pub authenticate-verify :
    (lib : CryptoLib) (a : AuthStore) (client password : Text) (now : ℕ) (p : Text)
    → verify_locked lib (authenticate_at lib a client password now).0 p ≡ verify_locked lib a p
unfolding authenticate_at authenticate_known purge verify_locked
authenticate-verify lib a client password now p = ground arith

All-Wrong :
    (lib : CryptoLib) (a : AuthStore) (k client password : Text) (now : ℕ) (ls : List Login)
    → All (Wrong lib a k) ls
    → All (Wrong lib (authenticate_at lib a client password now).0 k) ls
All-Wrong lib a k client password now [] h = tt
All-Wrong lib a k client password now (l ∷ ls) h = (
  λ e. authenticate-verify lib a client password now l.password ∙ h.0 e,
  All-Wrong lib a k client password now ls h.1,
)

-- The record of the client, where the attempt meets it, whether it was purged or not.
authenticate_at-own :
    (lib : CryptoLib) (a : AuthStore) (k : Text) (l : Login)
    → client_key l.client ≡ k
    → verify_locked lib a l.password ≡ false
    → lookup k (authenticate_at lib a l.client l.password l.now).0.login_attempts
      ≡ some (after_failure (attempt_of (purge l.now a) k) l.now)
unfolding authenticate_at
authenticate_at-own lib a k l e w =
    rw e (authenticate-own lib (purge l.now a) l.password k l.now (unfold purge verify_locked in w))

-- What one attempt of the client costs.
abbrev cost : LoginAttempt → ℕ → ℕ
cost r now = if is_blocked r now then 0 else 1

after_failure-budget :
    (r : LoginAttempt) (now end : ℕ)
    → now < end
    → end ≤ now + login_block_duration
    → cost r now + budget (after_failure r now) end ≤ budget r end
unfolding after_failure
after_failure-budget r now end l u = ground (arith, failed-budget r now end)

after_failure-last_seen : (r : LoginAttempt) (now : ℕ) → (after_failure r now).last_seen ≡ now
unfolding after_failure
after_failure-last_seen r now = ground (arith, failed-last_seen r now)

abbrev after : CryptoLib → AuthStore → Login → AuthStore
after lib a l = (authenticate_at lib a l.client l.password l.now).0

checked-own :
    (lib : CryptoLib) (a : AuthStore) (k : Text) (l : Login) (ls : List Login)
    → client_key l.client ≡ k
    → checked_passwords lib a k (l ∷ ls)
      ≡ cost (attempt_of (purge l.now a) k) l.now + checked_passwords lib (after lib a l) k ls
unfolding checked_passwords
checked-own lib a k l ls e = rw (is_checked-lem lib a k l e) (ground arith)

checked-other :
    (lib : CryptoLib) (a : AuthStore) (k : Text) (l : Login) (ls : List Login)
    → same (client_key l.client) k ≡ false
    → checked_passwords lib a k (l ∷ ls) ≡ checked_passwords lib (after lib a l) k ls
unfolding checked_passwords
checked-other lib a k l ls e = rw (is_checked-other lib a k l e) refl

-- A record of the window survives the purge.
purge-attempt_of :
    (a : AuthStore) (k : Text) (now : ℕ) (r : LoginAttempt)
    → lookup k a.login_attempts ≡ some r
    → now ≤ r.last_seen + login_record_lifetime
    → lookup k (purge now a).login_attempts ≡ some r
unfolding purge
purge-attempt_of a k now r f l = lookup-purge k now a.login_attempts r f l

some-attempt_of :
    (a : AuthStore) (k : Text) (r : LoginAttempt)
    → lookup k a.login_attempts ≡ some r
    → attempt_of a k ≡ r
unfolding attempt_of
some-attempt_of a k r f = rw f refl

authenticate_at-other :
    (lib : CryptoLib) (a : AuthStore) (k : Text) (l : Login)
    → same (client_key l.client) k ≡ false
    → lookup k (after lib a l).login_attempts ≡ lookup k (purge l.now a).login_attempts
unfolding authenticate_at
authenticate_at-other lib a k l e =
    authenticate-other lib (purge l.now a) (client_key l.client) l.password k l.now e

-- After a failure in the window, the budget bounds the comparisons.
checked-budget :
    (lib : CryptoLib) (k : Text) (start : ℕ) (ls : List Login) (a : AuthStore) (r : LoginAttempt)
    → lookup k a.login_attempts ≡ some r
    → start ≤ r.last_seen
    → All (InWindow start) ls
    → All (Wrong lib a k) ls
    → checked_passwords lib a k ls ≤ budget r (start + login_block_duration)
unfolding checked_passwords
checked-budget lib k start [] a r f s w h = omega arith
checked-budget lib k start (l ∷ ls) a r f s w h =
    let kept = purge-attempt_of a k l.now r f (omega (arith, w.0)) in
    let later = All-Wrong lib a k l.client l.password l.now ls h.1 in
    elim (Bool-cases (same (client_key l.client) k)) [
      | inl e ↦
          let name = (same_iff (client_key l.client) k).0 e in
          let here = some-attempt_of (purge l.now a) k r kept in
          let found = authenticate_at-own lib a k l name (h.0 name) in
          let rest =
            checked-budget lib k start ls (after lib a l) (after_failure r l.now) (rw here at found)
              (rw after_failure-last_seen w.0.0) w.1 later in
          let spent =
            after_failure-budget r l.now (start + login_block_duration) w.0.1
              (omega (arith, w.0)) in
          rw (checked-own lib a k l ls name, here) (omega (arith, rest, spent))
      | inr e ↦ rw (checked-other lib a k l ls e) (
          checked-budget lib k start ls (after lib a l) r (authenticate_at-other lib a k l e ∙ kept)
            s w.1 later)
    ]

-- Whatever happened before, in any five minutes at most five attempts of one client come at a time when
-- the right password would log it in, so that at most five of its passwords are compared with the
-- administrator's, however many attempts it and other clients make and in whatever order, if no attempt
-- of the client has the right password.
pub five_guesses :
    (lib : CryptoLib) (k : Text) (start : ℕ) (ls : List Login) (a : AuthStore)
    → All (InWindow start) ls
    → All (Wrong lib a k) ls
    → checked_passwords lib a k ls ≤ 5
unfolding checked_passwords
five_guesses lib k start [] a w h = omega arith
five_guesses lib k start (l ∷ ls) a w h =
    let later = All-Wrong lib a k l.client l.password l.now ls h.1 in
    elim (Bool-cases (same (client_key l.client) k)) [
      | inl e ↦
          let name = (same_iff (client_key l.client) k).0 e in
          let r = attempt_of (purge l.now a) k in
          let end = start + login_block_duration in
          let rest =
            checked-budget lib k start ls (after lib a l) (after_failure r l.now)
              (authenticate_at-own lib a k l name (h.0 name)) (rw after_failure-last_seen w.0.0) w.1
              later in
          let spent = after_failure-budget r l.now end w.0.1 (omega (arith, w.0)) in
          rw (checked-own lib a k l ls name) (omega (arith, rest, spent, budget-bound r end))
      | inr e ↦
          rw (checked-other lib a k l ls e) (five_guesses lib k start ls (after lib a l) w.1 later)
    ]
