-- ===== src/Server/Guesses.antt =====
-- main.go: whole histories of requests by someone who knows neither the password nor the clients' key.
use tor_country_manager.Shared.{
  Bool, true, false, not, ◌&&◌, ◌||◌, List, [], ◌∷◌, some, ◌⊎◌, inl, inr, ◌≡◌, refl, ◌∙◌, arith,
  Bool-cases, ltb, ℕ,
}
use tor_country_manager.Shared.Text.{Text}
use tor_country_manager.Shared.Assoc.{lookup}
use tor_country_manager.Auth.Password.{CryptoLib}
use tor_country_manager.Auth.Store.{
  AuthStore, AuthError, already_configured, Storing, configured, setup, authenticate_at,
  authenticate_known, purge, verify_locked, valid_session,
}
use tor_country_manager.Settings.Store.{valid_bearer_token}
use tor_country_manager.Server.State.{Server, Request, Libraries, World, ServerError}
use tor_country_manager.Server.Routing.{Route, open_to_all}
use tor_country_manager.Server.Handlers.{decode_json}
use tor_country_manager.Server.Handlers.Account.{
  handle_session, after_setup, do_setup, handle_setup, after_login, do_login, handle_login,
  login_client_key,
}
use tor_country_manager.Server.Serve.{handle, handle_healthz, serve}
use tor_country_manager.Server.Guards.{route_guard}
use tor_country_manager.Server.Strangers.{
  Stranger, SamePassword, unauthorised_changes_nothing, stranger_request,
}

-- The requests of a history in their order, each with what the outside answers to it.
unfoldable pub serve_all : Libraries → Server → List (Request × World) → Server
serve_all lib s [] = s
serve_all lib s ((r, w) ∷ rest) = serve_all lib (serve lib s r w).0 rest

-- The body of the request is a right password for the store.
unfoldable pub right_guess : CryptoLib → AuthStore → ServerError ⊎ Text → Bool
right_guess lib a (inl e) = false
right_guess lib a (inr password) = verify_locked lib a password

-- The request carries the administrator's password or the clients' key.
unfoldable pub knows : Libraries → Server → Request → Bool
unfolding right_guess
knows lib s r =
    right_guess lib.crypto s.auth (decode_json lib.json.password lib.json.is_end r)
    || valid_bearer_token (some s.key) r.authorization

unfoldable pub nobody_knows : Libraries → Server → List (Request × World) → Bool
unfolding knows
nobody_knows lib s [] = true
nobody_knows lib s ((r, w) ∷ rest) = not (knows lib s r) && nobody_knows lib s rest

-- `t` is `s` but for the record of failed attempts, and nobody is logged in.
pub record LockedOut (s t : Server) : Type 0 where
  pub no_sessions : t.auth.sessions ≡ []
  pub same_password : SamePassword s.auth t.auth
  pub same_cfg : t.cfg ≡ s.cfg
  pub same_manager : t.manager ≡ s.manager
  pub same_catalog : t.catalog ≡ s.catalog
  pub same_health : t.health ≡ s.health
  pub same_settings : t.settings ≡ s.settings
  pub same_key : t.key ≡ s.key
  pub same_proxies : t.proxies ≡ s.proxies

-- A server that nobody is logged in to.
record Empty (s : Server) : Type 0 where
  empty : s.auth.sessions ≡ []

after_setup-Empty :
    (s : Server) (w : World) (a : AuthStore) (e : AuthError)
    → a.sessions ≡ []
    → Empty (after_setup s w (a, some e)).0
unfolding after_setup
after_setup-Empty s w a e h = record { empty = h }

setup-refused :
    (lib : CryptoLib) (a : AuthStore) (password : Text) (storing : Storing)
    → configured a ≡ true
    → setup lib a password storing ≡ (a, some already_configured)
unfolding setup
setup-refused lib a password storing h = rw h refl

do_setup-Empty :
    (lib : Libraries) (s : Server) (w : World) (i : ServerError ⊎ Text)
    → configured s.auth ≡ true
    → s.auth.sessions ≡ []
    → Empty (do_setup lib s w i).0
unfolding do_setup
do_setup-Empty lib s w (inl e) h q = record { empty = q }
do_setup-Empty lib s w (inr password) h q =
    rw (setup-refused lib.crypto s.auth password w.storing h)
      (after_setup-Empty s w s.auth already_configured q)

authenticate-wrong :
    (lib : CryptoLib) (a : AuthStore) (client password : Text) (now : ℕ)
    → verify_locked lib a password ≡ false
    → ((authenticate_at lib a client password now).0.sessions ≡ a.sessions)
      × ((authenticate_at lib a client password now).1.0 ≡ false)
unfolding authenticate_at authenticate_known purge verify_locked
authenticate-wrong lib a client password now h = ground (arith, h)

after_login-Empty :
    (s : Server) (w : World) (a : AuthStore) (right : Bool) (retry_after : ℕ)
    → right ≡ false
    → a.sessions ≡ []
    → Empty (after_login s w (a, (right, retry_after))).0
unfolding after_login
after_login-Empty s w a right retry_after h q = elim (Bool-cases (ltb 0 retry_after)) [
  | inl e ↦ rw e (record { empty = q })
  | inr e ↦ rw (e, h) (record { empty = q })
]

do_login-Empty :
    (lib : Libraries) (s : Server) (r : Request) (w : World) (i : ServerError ⊎ Text)
    → right_guess lib.crypto s.auth i ≡ false
    → s.auth.sessions ≡ []
    → Empty (do_login lib s r w i).0
unfolding do_login right_guess
do_login-Empty lib s r w (inl e) h q = record { empty = q }
do_login-Empty lib s r w (inr password) h q =
    let (same, wrong) =
      authenticate-wrong lib.crypto s.auth
        (login_client_key lib.address.split_host_port r.remote_addr) password w.now h in
    after_login-Empty s w _ _ _ wrong (same ∙ q)

open-Empty :
    (lib : Libraries) (s : Server) (r : Request) (w : World) (route : Route) (holes : List Text)
    → configured s.auth ≡ true
    → right_guess lib.crypto s.auth (decode_json lib.json.password lib.json.is_end r) ≡ false
    → s.auth.sessions ≡ []
    → route_guard route ≡ open_to_all
    → Empty (handle lib s r w route holes).0
unfolding handle handle_setup handle_login handle_healthz handle_session
open-Empty lib s r w Route.healthz holes c h q g = record { empty = q }
open-Empty lib s r w Route.session holes c h q g = record { empty = q }
open-Empty lib s r w Route.setup_password holes c h q g = do_setup-Empty lib s w _ c q
open-Empty lib s r w Route.login holes c h q g = do_login-Empty lib s r w _ h q
open-Empty lib s r w _ holes c h q g = cc

nobody-Stranger :
    (s : Server) (r : Request) (w : World)
    → s.auth.sessions ≡ []
    → valid_bearer_token (some s.key) r.authorization ≡ false
    → Stranger s r w
unfolding valid_session lookup
nobody-Stranger s r w q k = record { no_session = ground (arith, q); no_key = k }

serve-LockedOut :
    (lib : Libraries) (s : Server) (r : Request) (w : World)
    → configured s.auth ≡ true
    → s.auth.sessions ≡ []
    → knows lib s r ≡ false
    → LockedOut s (serve lib s r w).0
unfolding knows
serve-LockedOut lib s r w c q h =
    let x = nobody-Stranger s r w q (ground (arith, h)) in
    let o = unauthorised_changes_nothing lib s r w x in
    let none_in =
      stranger_request Empty lib s r w x (record { empty = q })
        (λ route holes. open-Empty lib s r w route holes c (ground (arith, h)) q) in
    record {
      no_sessions = none_in.empty;
      same_password = o.same_password c;
      same_cfg = o.same_cfg;
      same_manager = o.same_manager;
      same_catalog = o.same_catalog;
      same_health = o.same_health;
      same_settings = o.same_settings;
      same_key = o.same_key;
      same_proxies = o.same_proxies;
    }

LockedOut-trans : {s t u : Server} → LockedOut s t → LockedOut t u → LockedOut s u
LockedOut-trans a b = record {
  no_sessions = b.no_sessions;
  same_password = record {
    same_hash = b.same_password.same_hash ∙ a.same_password.same_hash;
    same_legacy = b.same_password.same_legacy ∙ a.same_password.same_legacy;
    same_saved = b.same_password.same_saved ∙ a.same_password.same_saved;
  };
  same_cfg = b.same_cfg ∙ a.same_cfg;
  same_manager = b.same_manager ∙ a.same_manager;
  same_catalog = b.same_catalog ∙ a.same_catalog;
  same_health = b.same_health ∙ a.same_health;
  same_settings = b.same_settings ∙ a.same_settings;
  same_key = b.same_key ∙ a.same_key;
  same_proxies = b.same_proxies ∙ a.same_proxies;
}

configured-same : (a b : AuthStore) → SamePassword a b → configured b ≡ configured a
unfolding configured
configured-same a b p = rw (p.same_hash, p.same_legacy) refl

right_guess-same :
    (lib : CryptoLib) (a b : AuthStore) (i : ServerError ⊎ Text)
    → SamePassword a b
    → right_guess lib b i ≡ right_guess lib a i
unfolding right_guess verify_locked
right_guess-same lib a b (inl e) p = refl
right_guess-same lib a b (inr password) p = rw (p.same_hash, p.same_legacy) refl

knows-same :
    (lib : Libraries) (s t : Server) (r : Request) → LockedOut s t → knows lib t r ≡ knows lib s r
unfolding knows
knows-same lib s t r l =
    rw
      (
        right_guess-same lib.crypto s.auth t.auth (decode_json lib.json.password lib.json.is_end r)
            l.same_password,
        l.same_key,
      )
      refl

nobody_knows-same :
    (lib : Libraries) (s t : Server) (rs : List (Request × World))
    → LockedOut s t
    → nobody_knows lib t rs ≡ nobody_knows lib s rs
unfolding nobody_knows
nobody_knows-same lib s t [] l = refl
nobody_knows-same lib s t ((r, w) ∷ rest) l =
    rw (knows-same lib s t r l, nobody_knows-same lib s t rest l) refl

LockedOut-refl : (s : Server) → s.auth.sessions ≡ [] → LockedOut s s
LockedOut-refl s q = record {
  no_sessions = q;
  same_password = record { same_hash = refl; same_legacy = refl; same_saved = refl };
  same_cfg = refl;
  same_manager = refl;
  same_catalog = refl;
  same_health = refl;
  same_settings = refl;
  same_key = refl;
  same_proxies = refl;
}

-- A server has an administrator's password and nobody is logged in. Whatever requests come in whatever
-- order, if none carries the right password or the clients' key, then nobody is logged in afterwards
-- either, and the password, the key, the settings, the instances and their processes, the catalog, the
-- health records and the listeners are as before.
pub nobody_gets_in :
    (lib : Libraries) (rs : List (Request × World)) (s : Server)
    → configured s.auth ≡ true
    → s.auth.sessions ≡ []
    → nobody_knows lib s rs ≡ true
    → LockedOut s (serve_all lib s rs)
unfolding serve_all nobody_knows
nobody_gets_in lib [] s c q h = LockedOut-refl s q
nobody_gets_in lib ((r, w) ∷ rest) s c q h =
    let t = (serve lib s r w).0 in
    let first = serve-LockedOut lib s r w c q (ground (arith, h)) in
    LockedOut-trans first (
      nobody_gets_in lib rest t (configured-same s.auth t.auth first.same_password ∙ c)
        first.no_sessions (nobody_knows-same lib s t rest first ∙ ground (arith, h)))
