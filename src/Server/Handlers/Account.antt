-- ===== src/Server/Handlers/Account.antt =====
-- main.go: the handlers of the administrator's account: `session`, `setup-password`, `login`, `logout`
-- and `settings/password`.
use tor_country_manager.Shared.{
  ℕ, ◌+◌, ◌-◌, ◌/◌, Bool, true, false, not, [], Option, none, some, ◌⊎◌, inl, inr, if◌then◌else◌,
  ltb,
}
use tor_country_manager.Shared.Text.{Text, is_empty, trim_space}
use tor_country_manager.Auth.Store.{
  AuthStore, AuthError, configured, setup, change, authenticate_at, create_session, valid_session,
  delete_session,
}
use tor_country_manager.Settings.Store.{ConfigStore, SettingsError, clear_legacy_auth}
use tor_country_manager.Server.State.{
  Server, Request, Response, Libraries, World, ServerError, no_session_token, of_auth, of_settings,
  Content, session_state, authenticated, too_many_attempts, wrong_password, password_changed,
}
use tor_country_manager.Server.Handlers.{respond, write_error, decode_json}

-- `loginClientKey`.
abbrev remote_host : Option (Text × Text) → Text → Text
remote_host none address = address
remote_host (some (host, port)) address = if is_empty host then address else host

unfoldable pub login_client_key : (Text → Option (Text × Text)) → Text → Text
login_client_key split_host_port remote_addr =
    remote_host (split_host_port (trim_space remote_addr)) (trim_space remote_addr)

unfoldable pub handle_session : Server → Request → World → Server × Response
handle_session s r w =
    (s, respond 200 (session_state (configured s.auth) (valid_session s.auth r.cookie w.now)))

-- `CreateSession` and the response after it.
unfoldable pub with_session : Server → World → Option Text → ℕ → Content → Server × Response
with_session s w none status content = (s, write_error no_session_token)
with_session s w (some token) status content = (
  record s { auth = create_session s.auth token w.now },
  record { status = status; content = content; session_cookie = some token },
)

unfoldable pub after_setup : Server → World → AuthStore × Option AuthError → Server × Response
unfolding with_session
after_setup s w (a, some e) = (record s { auth = a }, write_error (of_auth e))
after_setup s w (a, none) = with_session (record s { auth = a }) w w.token 201 (authenticated true)

unfoldable pub do_setup : Libraries → Server → World → ServerError ⊎ Text → Server × Response
unfolding after_setup
do_setup lib s w (inl e) = (s, write_error e)
do_setup lib s w (inr password) = after_setup s w (setup lib.crypto s.auth password w.storing)

unfoldable pub handle_setup : Libraries → Server → Request → World → Server × Response
unfolding do_setup
handle_setup lib s r w = do_setup lib s w (decode_json lib.json.password lib.json.is_end r)

-- The wait is rounded up to seconds.
unfoldable pub after_login : Server → World → AuthStore × (Bool × ℕ) → Server × Response
unfolding with_session
after_login s w (a, (right, retry_after)) =
    let seconds = (retry_after + 1000000000 - 1) / 1000000000 in
    if ltb 0 retry_after
    then (record s { auth = a }, respond 429 (too_many_attempts seconds))
    else if not right
    then (record s { auth = a }, respond 401 wrong_password)
    else with_session (record s { auth = a }) w w.token 200 (authenticated true)

unfoldable pub do_login :
    Libraries → Server → Request → World → ServerError ⊎ Text → Server × Response
unfolding after_login login_client_key
do_login lib s r w (inl e) = (s, write_error e)
do_login lib s r w (inr password) = after_login s w (
    authenticate_at lib.crypto s.auth (login_client_key lib.address.split_host_port r.remote_addr)
      password w.now)

unfoldable pub handle_login : Libraries → Server → Request → World → Server × Response
unfolding do_login
handle_login lib s r w = do_login lib s r w (decode_json lib.json.password lib.json.is_end r)

unfoldable pub handle_logout : Server → Request → Server × Response
handle_logout s r = (
  record s { auth = delete_session s.auth r.cookie },
  record { status = 200; content = authenticated false; session_cookie = some [] },
)

unfoldable pub after_clear : Server → World → ConfigStore × Option SettingsError → Server × Response
unfolding with_session
after_clear s w (c, some e) = (record s { settings = c }, write_error (of_settings e))
after_clear s w (c, none) = with_session (record s { settings = c }) w w.token 200 password_changed

unfoldable pub after_change :
    Libraries → Server → World → AuthStore × Option AuthError → Server × Response
unfolding after_clear
after_change lib s w (a, some e) = (record s { auth = a }, write_error (of_auth e))
after_change lib s w (a, none) =
    after_clear (record s { auth = a }) w (clear_legacy_auth lib.net s.settings w.saving)

unfoldable pub do_change_password :
    Libraries → Server → World → ServerError ⊎ (Text × Text) → Server × Response
unfolding after_change
do_change_password lib s w (inl e) = (s, write_error e)
do_change_password lib s w (inr (current, replacement)) =
    after_change lib s w (change lib.crypto s.auth current replacement w.storing)

unfoldable pub handle_password : Libraries → Server → Request → World → Server × Response
unfolding do_change_password
handle_password lib s r w =
    do_change_password lib s w (decode_json lib.json.passwords lib.json.is_end r)
