-- ===== src/Auth/Refines.antt =====
-- auth.go: `authenticateAt` keeps the attempts of all clients in one table that it sweeps at each call;
-- for a single client it does what a machine with that client's record alone does.
use tor_country_manager.Shared.{
  ℕ, ◌+◌, ◌-◌, ◌≤◌, Bool, true, false, List, [], ◌∷◌, none, ltb, if◌then◌else◌, ◌≡◌, ◌∙◌, refl, sym,
  subst, ap, arith, keep, inl, inr, Bool-cases, if_either,
}
use mathlib.Core.Path.{fun_ext}
use tor_country_manager.Shared.Text.{Text, same, same_iff}
use tor_country_manager.Shared.Assoc.{lookup, lookup-insert, lookup-delete}
use tor_country_manager.Shared.Unique.{
  Unique, lookup-keep-none, keep-Unique, insert-Unique, delete-Unique,
}
use tor_country_manager.Auth.Password.{CryptoLib}
use tor_country_manager.Auth.Store.{
  AuthStore, LoginAttempt, no_attempt, attempt_or_zero, attempt_of, is_blocked, is_recent, purge,
  failed, verify_locked, client_key, authenticate_known, authenticate_at, login_record_lifetime,
}
use tor_country_manager.Auth.Throttle.{Login, authenticate-verify, authenticate-other}

-- A record that is too old counts as none.
abbrev pub effective : LoginAttempt → ℕ → LoginAttempt
effective r now = if ltb (r.last_seen + login_record_lifetime) now then no_attempt else r

lookup-sweep :
    (k : Text) (now : ℕ) (m : List (Text × LoginAttempt))
    → Unique m
    → attempt_or_zero (lookup k (keep (is_recent now) m))
      ≡ effective (attempt_or_zero (lookup k m)) now
unfolding lookup
lookup-sweep k now [] u = ground arith
lookup-sweep k now ((j, r) ∷ m) (a, u) = elim (Bool-cases (same j k)) [
  | inl e ↦
      let name = (same_iff j k).0 e in
      let empty : lookup k m ≡ none = subst (λ i. lookup i m ≡ none) name a in
      let gone = lookup-keep-none (is_recent now) k m empty in ground (arith, gone)
  | inr e ↦ ground (arith, lookup-sweep k now m u)
]

-- The machine of one client: its record alone, which is forgotten after fifteen minutes.
unfoldable pub attempt_known : (right : Bool) → LoginAttempt → ℕ → LoginAttempt × (Bool × ℕ)
unfolding failed
attempt_known right r now =
    let f = failed r now in
    if is_blocked r now
    then (record r { last_seen = now }, (false, r.blocked_until - now))
    else if right
    then (no_attempt, (true, 0))
    else if is_blocked f now
    then (f, (false, f.blocked_until - now))
    else (f, (false, 0))

unfoldable pub attempt : (right : Bool) → LoginAttempt → ℕ → LoginAttempt × (Bool × ℕ)
unfolding attempt_known
attempt right r now = attempt_known right (effective r now) now

-- The answers of the machine to a client's attempts, among those of others.
unfoldable pub machine_answers :
    (right : Text → Bool) → (client : Text) → LoginAttempt → List Login → List (Bool × ℕ)
unfolding attempt
machine_answers right k r [] = []
machine_answers right k r (l ∷ ls) =
    let (next, answer) = attempt (right l.password) r l.now in
    let own = machine_answers right k next ls in
    let later = machine_answers right k r ls in
    if same (client_key l.client) k then answer ∷ own else later

-- The answers of the store to the same client.
unfoldable pub store_answers :
    CryptoLib → (client : Text) → AuthStore → List Login → List (Bool × ℕ)
unfolding authenticate_at
store_answers lib k a [] = []
store_answers lib k a (l ∷ ls) =
    let (next, answer) = authenticate_at lib a l.client l.password l.now in
    let later = store_answers lib k next ls in
    if same (client_key l.client) k then answer ∷ later else later

-- The attempts are made one after the other.
abbrev pub Ordered : ℕ → List Login → Type 0
Ordered t [] = Unit
Ordered t (l ∷ ls) = (t ≤ l.now) × Ordered l.now ls

attempt_of-sweep :
    (a : AuthStore) (k : Text) (now : ℕ)
    → Unique a.login_attempts
    → attempt_of (purge now a) k ≡ effective (attempt_of a k) now
unfolding attempt_of purge
attempt_of-sweep a k now u = lookup-sweep k now a.login_attempts u

-- What one attempt of the client does to its record, and its answer.
known-own :
    (lib : CryptoLib) (a : AuthStore) (k password : Text) (now : ℕ)
    → (let (b, answer) = authenticate_known lib a k password now in
        let (r, machine_answer) =
          attempt_known (verify_locked lib a password) (attempt_of a k) now in
        (attempt_of b k ≡ r) × (answer ≡ machine_answer))
unfolding authenticate_known attempt_known attempt_of
known-own lib a k password now =
    let r = attempt_of a k in
    let own = (same_iff k k).1 refl in
    let seen = lookup-insert k k (record r { last_seen = now }) a.login_attempts in
    let counted = lookup-insert k k (failed r now) a.login_attempts in
    let gone = lookup-delete k k a.login_attempts in
    (ground (arith, own, seen, counted, gone), ground arith)

known-Unique :
    (lib : CryptoLib) (a : AuthStore) (k password : Text) (now : ℕ)
    → Unique a.login_attempts
    → Unique (authenticate_known lib a k password now).0.login_attempts
unfolding authenticate_known
known-Unique lib a k password now u =
    let P : AuthStore × (Bool × ℕ) → Type 0 = λ r. Unique r.0.login_attempts in
    let r = attempt_of a k in
    if_either P (is_blocked r now)
      (insert-Unique k (record r { last_seen = now }) a.login_attempts u)
      (if_either P (verify_locked lib a password) (delete-Unique k a.login_attempts u) (
        if_either P (is_blocked (failed r now) now)
          (insert-Unique k (failed r now) a.login_attempts u)
          (insert-Unique k (failed r now) a.login_attempts u)))

-- Forgetting a record earlier makes no difference later.
effective-effective :
    (r : LoginAttempt) (now later : ℕ)
    → now ≤ later
    → effective (effective r now) later ≡ effective r later
effective-effective r now later l = ground arith

-- The store knows as much of the client, from a time on, as the machine does.
abbrev Agrees : AuthStore → (client : Text) → LoginAttempt → ℕ → Type 0
Agrees a k r t = (now : ℕ) → t ≤ now → effective (attempt_of a k) now ≡ effective r now

authenticate-Unique :
    (lib : CryptoLib) (a : AuthStore) (l : Login)
    → Unique a.login_attempts
    → Unique (authenticate_at lib a l.client l.password l.now).0.login_attempts
unfolding authenticate_at purge
authenticate-Unique lib a l u =
    known-Unique lib (purge l.now a) (client_key l.client) l.password l.now
      (keep-Unique (is_recent l.now) a.login_attempts u)

-- An attempt of another client only sweeps.
other-Agrees :
    (lib : CryptoLib) (a : AuthStore) (k : Text) (r : LoginAttempt) (t : ℕ) (l : Login)
    → same (client_key l.client) k ≡ false
    → Unique a.login_attempts
    → t ≤ l.now
    → Agrees a k r t
    → Agrees (authenticate_at lib a l.client l.password l.now).0 k r l.now
unfolding authenticate_at
other-Agrees lib a k r t l e u o agrees = λ now later.
    let b = purge l.now a in
    let untouched = authenticate-other lib b (client_key l.client) l.password k l.now e in
    let kept : attempt_of (authenticate_known lib b (client_key l.client) l.password l.now).0 k
        ≡ effective (attempt_of a k) l.now =
      unfold attempt_of in ap attempt_or_zero untouched ∙ attempt_of-sweep a k l.now u in
    ap (λ x. effective x now) kept
    ∙ effective-effective (attempt_of a k) l.now now later
    ∙ agrees now (omega (arith, o, later))

-- An attempt of the client gives the machine's answer, and then the store has the machine's record.
own-attempt :
    (lib : CryptoLib) (a : AuthStore) (k : Text) (r : LoginAttempt) (t : ℕ) (l : Login)
    → client_key l.client ≡ k
    → Unique a.login_attempts
    → t ≤ l.now
    → Agrees a k r t
    → (let (b, answer) = authenticate_at lib a l.client l.password l.now in
        let (next, machine_answer) = attempt (verify_locked lib a l.password) r l.now in
        (attempt_of b k ≡ next) × (answer ≡ machine_answer))
unfolding authenticate_at attempt
own-attempt lib a k r t l e u o agrees =
    let known = known-own lib (purge l.now a) k l.password l.now in
    let start : attempt_of (purge l.now a) k ≡ effective r l.now =
      attempt_of-sweep a k l.now u ∙ agrees l.now o in
    let same_password : verify_locked lib (purge l.now a) l.password
        ≡ verify_locked lib a l.password =
      unfold purge verify_locked in refl in
    let step : attempt_known (verify_locked lib (purge l.now a) l.password)
          (attempt_of (purge l.now a) k) l.now
        ≡ attempt_known (verify_locked lib a l.password) (effective r l.now) l.now =
      ap (λ v. attempt_known v (attempt_of (purge l.now a) k) l.now) same_password
      ∙ ap (λ x. attempt_known (verify_locked lib a l.password) x l.now) start in
    let Known : Text → Type 0 = λ c.
      (attempt_of (authenticate_known lib (purge l.now a) c l.password l.now).0 k
        ≡ (attempt_known (verify_locked lib a l.password) (effective r l.now) l.now).0)
      × ((authenticate_known lib (purge l.now a) c l.password l.now).1
          ≡ (attempt_known (verify_locked lib a l.password) (effective r l.now) l.now).1) in
    subst Known (sym e) (known.0 ∙ ap (λ x. x.0) step, known.1 ∙ ap (λ x. x.1) step)

refines-from :
    (lib : CryptoLib) (k : Text) (ls : List Login) (a : AuthStore) (r : LoginAttempt) (t : ℕ)
    → Unique a.login_attempts
    → Ordered t ls
    → Agrees a k r t
    → store_answers lib k a ls ≡ machine_answers (verify_locked lib a) k r ls
unfolding store_answers machine_answers
refines-from lib k [] a r t u o agrees = refl
refines-from lib k (l ∷ ls) a r t u o agrees =
    let b = (authenticate_at lib a l.client l.password l.now).0 in
    let right : verify_locked lib b ≡ verify_locked lib a =
      fun_ext (authenticate-verify lib a l.client l.password l.now) in
    let unique = authenticate-Unique lib a l u in
    elim (Bool-cases (same (client_key l.client) k)) [
      | inl e ↦
          let (record_same, answer_same) =
            own-attempt lib a k r t l ((same_iff (client_key l.client) k).0 e) u o.0 agrees in
          let next = (attempt (verify_locked lib a l.password) r l.now).0 in
          let rest =
            refines-from lib k ls b next l.now unique o.1
              (λ now later. ap (λ x. effective x now) record_same) in
          rw e (
            ap (λ x. x ∷ store_answers lib k b ls) answer_same
            ∙ ap (λ xs. (attempt (verify_locked lib a l.password) r l.now).1 ∷ xs)
                (rest ∙ ap (λ v. machine_answers v k next ls) right))
      | inr e ↦
          let rest =
            refines-from lib k ls b r l.now unique o.1
              (other-Agrees lib a k r t l e u o.0 agrees) in
          rw e (rest ∙ ap (λ v. machine_answers v k r ls) right)
    ]

-- The store refines the machine of one client: over attempts made one after the other, by any clients in
-- any order, the answers to each client are those of a machine that knows this client's attempts alone
-- and forgets its record after fifteen minutes; no client can change the answers to another. The
-- table must not hold a client twice, as a new one does not.
pub authenticate_at-refines :
    (lib : CryptoLib) (k : Text) (t : ℕ) (ls : List Login) (a : AuthStore)
    → Unique a.login_attempts
    → Ordered t ls
    → store_answers lib k a ls ≡ machine_answers (verify_locked lib a) k (attempt_of a k) ls
authenticate_at-refines lib k t ls a u o =
    refines-from lib k ls a (attempt_of a k) t u o (λ now later. refl)
