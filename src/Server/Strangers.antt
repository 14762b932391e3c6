-- ===== src/Server/Strangers.antt =====
-- main.go: what a request without a session and without the clients' key can do.
use tor_country_manager.Shared.{
  ℕ, Bool, true, false, List, Option, none, some, ◌⊎◌, inl, inr, ◌≡◌, refl, sym, ◌∙◌, arith,
  Bool-cases, Option-cases, ltb,
}
use tor_country_manager.Shared.Text.{Text}
use tor_country_manager.Auth.Password.{CryptoLib}
use tor_country_manager.Auth.Store.{
  AuthStore, AuthError, Storing, configured, setup, authenticate_at, authenticate_known, purge,
  create_session, valid_session,
}
use tor_country_manager.Settings.Store.{valid_bearer_token}
use tor_country_manager.Server.State.{
  Server, Request, Response, Libraries, World, ServerError, Content, authenticated,
}
use tor_country_manager.Server.Routing.{
  Route, route_table, find_route, path_of, Guard, open_to_all, administrator, client_key, guard_of,
}
use tor_country_manager.Server.Handlers.Account.{
  handle_session, with_session, after_setup, do_setup, handle_setup, after_login, do_login,
  handle_login, login_client_key,
}
use tor_country_manager.Server.Serve.{handle, handle_healthz, dispatch, refusal, refuse_or, serve}
use tor_country_manager.Server.Guards.{route_guard, find_route-guarded}

-- The password is the one of before.
pub record SamePassword (a b : AuthStore) : Type 0 where
  pub same_hash : b.hash ≡ a.hash
  pub same_legacy : b.legacy ≡ a.legacy
  pub same_saved : b.saved ≡ a.saved

-- Nothing but the account has changed, and its password has not, if there was one.
pub record OnlyAccount (s t : Server) : Type 0 where
  pub same_cfg : t.cfg ≡ s.cfg
  pub same_manager : t.manager ≡ s.manager
  pub same_catalog : t.catalog ≡ s.catalog
  pub same_health : t.health ≡ s.health
  pub same_settings : t.settings ≡ s.settings
  pub same_key : t.key ≡ s.key
  pub same_proxies : t.proxies ≡ s.proxies
  pub same_password : configured s.auth ≡ true → SamePassword s.auth t.auth

account_set :
    (s : Server) (a : AuthStore)
    → (configured s.auth ≡ true → SamePassword s.auth a)
    → OnlyAccount s (record s { auth = a })
account_set s a p = record {
  same_cfg = refl;
  same_manager = refl;
  same_catalog = refl;
  same_health = refl;
  same_settings = refl;
  same_key = refl;
  same_proxies = refl;
  same_password = p;
}

SamePassword-refl : (a : AuthStore) → SamePassword a a
SamePassword-refl a = record { same_hash = refl; same_legacy = refl; same_saved = refl }

OnlyAccount-refl : (s : Server) → OnlyAccount s s
OnlyAccount-refl s = account_set s s.auth (λ h. SamePassword-refl s.auth)

session-SamePassword :
    (a b : AuthStore) (token : Text) (now : ℕ)
    → SamePassword a b
    → SamePassword a (create_session b token now)
unfolding create_session
session-SamePassword a b token now p = record {
  same_hash = p.same_hash;
  same_legacy = p.same_legacy;
  same_saved = p.same_saved;
}

with_session-OnlyAccount :
    (s : Server) (a : AuthStore) (w : World) (token : Option Text) (status : ℕ) (content : Content)
    → (configured s.auth ≡ true → SamePassword s.auth a)
    → OnlyAccount s (with_session (record s { auth = a }) w token status content).0
unfolding with_session
with_session-OnlyAccount s a w none status content p = account_set s a p
with_session-OnlyAccount s a w (some t) status content p =
    account_set s (create_session a t w.now) (λ h. session-SamePassword s.auth a t w.now (p h))

setup-SamePassword :
    (lib : CryptoLib) (a : AuthStore) (password : Text) (storing : Storing)
    → configured a ≡ true
    → SamePassword a (setup lib a password storing).0
unfolding setup
setup-SamePassword lib a password storing h = rw h (SamePassword-refl a)

after_setup-OnlyAccount :
    (s : Server) (w : World) (r : AuthStore × Option AuthError)
    → (configured s.auth ≡ true → SamePassword s.auth r.0)
    → OnlyAccount s (after_setup s w r).0
unfolding after_setup
after_setup-OnlyAccount s w (a, some e) p = account_set s a p
after_setup-OnlyAccount s w (a, none) p = with_session-OnlyAccount s a w w.token 201 _ p

do_setup-OnlyAccount :
    (lib : Libraries) (s : Server) (w : World) (i : ServerError ⊎ Text)
    → OnlyAccount s (do_setup lib s w i).0
unfolding do_setup
do_setup-OnlyAccount lib s w (inl e) = OnlyAccount-refl s
do_setup-OnlyAccount lib s w (inr password) =
    after_setup-OnlyAccount s w _ (setup-SamePassword lib.crypto s.auth password w.storing)

authenticate-SamePassword :
    (lib : CryptoLib) (a : AuthStore) (client password : Text) (now : ℕ)
    → SamePassword a (authenticate_at lib a client password now).0
unfolding authenticate_at authenticate_known purge
authenticate-SamePassword lib a client password now = record {
  same_hash = ground arith;
  same_legacy = ground arith;
  same_saved = ground arith;
}

after_login-OnlyAccount :
    (s : Server) (w : World) (a : AuthStore) (right : Bool) (retry_after : ℕ)
    → SamePassword s.auth a
    → OnlyAccount s (after_login s w (a, (right, retry_after))).0
unfolding after_login
after_login-OnlyAccount s w a right retry_after p = elim (Bool-cases (ltb 0 retry_after)) [
  | inl e ↦ rw e (account_set s a (λ h. p))
  | inr e ↦ rw e (elim (Bool-cases right) [
    | inl f ↦ rw f (with_session-OnlyAccount s a w w.token 200 (authenticated true) (λ h. p))
    | inr f ↦ rw f (account_set s a (λ h. p))
  ])
]

do_login-OnlyAccount :
    (lib : Libraries) (s : Server) (r : Request) (w : World) (i : ServerError ⊎ Text)
    → OnlyAccount s (do_login lib s r w i).0
unfolding do_login
do_login-OnlyAccount lib s r w (inl e) = OnlyAccount-refl s
do_login-OnlyAccount lib s r w (inr password) =
    let client = login_client_key lib.address.split_host_port r.remote_addr in
    after_login-OnlyAccount s w _ _ _
      (authenticate-SamePassword lib.crypto s.auth client password w.now)

-- A request of someone who is not logged in and does not have the key.
pub record Stranger (s : Server) (r : Request) (w : World) : Type 0 where
  pub no_session : valid_session s.auth r.cookie w.now ≡ false
  pub no_key : valid_bearer_token (some s.key) r.authorization ≡ false

-- The state of an answer.
record Answered (P : Server → Type 0) (answer : Server × Response) : Type 0 where
  state_kept : P answer.0

-- What holds of the server, and after each handler that is open to all, holds after a stranger's request.
module _ (P : Server → Type 0) (lib : Libraries) (s : Server) (r : Request) (w : World)
    (x : Stranger s r w) (kept : P s) where
  refused-Answered :
      (g : Guard) (answer : Server × Response)
      → (g ≡ open_to_all → P answer.0)
      → Answered P (refuse_or s (refusal lib s r w g) answer)
  unfolding refusal refuse_or
  refused-Answered open_to_all answer h = record { state_kept = h refl }
  refused-Answered client_key answer h = rw x.no_key (record { state_kept = kept })
  refused-Answered administrator answer h = elim (Bool-cases (configured s.auth)) [
    | inl e ↦ rw (e, x.no_session) (record { state_kept = kept })
    | inr e ↦ rw e (record { state_kept = kept })
  ]

  pub stranger_request :
      ((route : Route) (holes : List Text)
        → route_guard route ≡ open_to_all
        → P (handle lib s r w route holes).0)
      → P (serve lib s r w).0
  unfolding serve dispatch
  stranger_request h =
      (refused-Answered (guard_of (path_of r.segments)) _ (λ g.
        elim (Option-cases (find_route route_table r.method r.segments)) [
          | inl e ↦ rw (e, dispatch) kept
          | inr ((route, holes), e) ↦
              let own = find_route-guarded r.method r.segments route holes e in
              rw (e, dispatch) (h route holes (sym own ∙ g))
        ])).state_kept

-- The handlers of the routes that are open to all.
open-OnlyAccount :
    (lib : Libraries) (s : Server) (r : Request) (w : World) (route : Route) (holes : List Text)
    → route_guard route ≡ open_to_all
    → OnlyAccount s (handle lib s r w route holes).0
unfolding handle handle_setup handle_login handle_healthz handle_session
open-OnlyAccount lib s r w Route.healthz holes g = OnlyAccount-refl s
open-OnlyAccount lib s r w Route.session holes g = OnlyAccount-refl s
open-OnlyAccount lib s r w Route.setup_password holes g = do_setup-OnlyAccount lib s w _
open-OnlyAccount lib s r w Route.login holes g = do_login-OnlyAccount lib s r w _
open-OnlyAccount lib s r w _ holes g = cc

-- A request without a valid session and without the clients' key, whatever its method, path, headers and
-- body are, changes neither the instances and their processes, nor the catalog, the health records, the
-- settings, the key, nor the listeners; and once an administrator's password is set, it does not change
-- the password either.
pub unauthorised_changes_nothing :
    (lib : Libraries) (s : Server) (r : Request) (w : World)
    → Stranger s r w
    → OnlyAccount s (serve lib s r w).0
unauthorised_changes_nothing lib s r w x =
    stranger_request (OnlyAccount s) lib s r w x (OnlyAccount-refl s) (open-OnlyAccount lib s r w)
