-- ===== src/Server/Handlers/Options.antt =====
-- main.go: the handlers of the settings.
use tor_country_manager.Shared.{ℕ, ◌||◌, not, Option, none, some, ◌⊎◌, inl, inr, if◌then◌else◌}
use tor_country_manager.Shared.Text.{Text, same, is_empty}
use tor_country_manager.Shared.Int.{eqb_ℤ}
use tor_country_manager.Config.Defs.{Config}
use tor_country_manager.Settings.Store.{
  ConfigStore, SettingsError, ClientUpdate, UpstreamUpdate, RuntimeSettings, update_client,
  update_runtime, update_upstream, upstream, runtime, client,
}
use tor_country_manager.Manager.Defs.{Manager}
use tor_country_manager.Manager.Limits.{update_max_running}
use tor_country_manager.Manager.Upstream.{
  UpstreamError, change_upstream, update_circuit_rotate_minutes,
}
use tor_country_manager.Catalog.Refresh
use tor_country_manager.Server.State.{
  Server, Request, Response, Libraries, World, ServerError, of_settings, of_upstream,
  upstream_settings, runtime_settings, client_settings, runtime_applied, upstream_applied,
  client_applied,
}
use tor_country_manager.Server.Handlers.{respond, write_error, decode_json}

unfoldable pub handle_get_upstream : Server → Server × Response
handle_get_upstream s = (s, respond 200 (upstream_settings (upstream s.settings)))

unfoldable pub handle_get_runtime : Server → Server × Response
handle_get_runtime s = (s, respond 200 (runtime_settings (runtime s.settings)))

unfoldable pub handle_get_client : Server → Server × Response
handle_get_client s =
    (s, respond 200 (client_settings (client s.settings (not (is_empty s.cfg.client_api_key)))))

-- A key that the request brings is not shown again; a generated one is.
abbrev generated_key : ClientUpdate → Option Text → Option Text
generated_key u random = if u.regenerate_key then random else none

unfoldable pub after_client :
    Server → ClientUpdate → World → ConfigStore × Option SettingsError → Server × Response
after_client s u w (c, some e) = (record s { settings = c }, write_error (of_settings e))
after_client s u w (c, none) =
    let restart_required =
      not (same u.host s.cfg.country_proxy_host)
      || not (eqb_ℤ u.base_port s.cfg.country_proxy_port) in
    let managed = not (is_empty w.environment_key) in
    let effective = if managed then w.environment_key else c.cfg.client_api_key in
    (
      record s { settings = c; key = effective },
      respond 200 (
          client_applied (client c (not (is_empty effective))) restart_required managed
            (generated_key u w.random_key)),
    )

unfoldable pub do_put_client :
    Libraries → Server → World → ServerError ⊎ ClientUpdate → Server × Response
unfolding after_client
do_put_client lib s w (inl e) = (s, write_error e)
do_put_client lib s w (inr u) =
    after_client s u w (update_client lib.net s.settings u w.random_key w.saving)

unfoldable pub handle_put_client : Libraries → Server → Request → World → Server × Response
unfolding do_put_client
handle_put_client lib s r w =
    do_put_client lib s w (decode_json lib.json.client_update lib.json.is_end r)

unfoldable pub after_runtime :
    Server → RuntimeSettings → ConfigStore × Option SettingsError → Server × Response
after_runtime s u (c, some e) = (record s { settings = c }, write_error (of_settings e))
after_runtime s u (c, none) = (
  record s {
    settings = c;
    manager =
        update_circuit_rotate_minutes (update_max_running s.manager u.max_running)
          u.circuit_rotate_minutes;
  },
  respond 200 (runtime_applied (runtime c)),
)

unfoldable pub do_put_runtime :
    Libraries → Server → World → ServerError ⊎ RuntimeSettings → Server × Response
unfolding after_runtime
do_put_runtime lib s w (inl e) = (s, write_error e)
do_put_runtime lib s w (inr u) = after_runtime s u (update_runtime lib.net s.settings u w.saving)

unfoldable pub handle_put_runtime : Libraries → Server → Request → World → Server × Response
unfolding do_put_runtime
handle_put_runtime lib s r w =
    do_put_runtime lib s w (decode_json lib.json.runtime_settings lib.json.is_end r)

-- The environment's proxy goes before the stored one.
unfoldable pub upstream_in_force : World → Config → Config
upstream_in_force w cfg = if is_empty w.environment_socks5 then cfg else record cfg {
  upstream_socks5 = w.environment_socks5;
  upstream_username = w.environment_username;
  upstream_password = w.environment_password;
}

unfoldable pub after_manager :
    Server → World → Config → Manager × Option (ℕ × UpstreamError) → Server × Response
after_manager s w cfg (m, some (p, e)) = (record s { manager = m }, write_error (of_upstream p e))
after_manager s w cfg (m, none) = (
  record s { manager = m; catalog = Refresh.update_upstream s.catalog cfg },
  respond 200 (upstream_applied (upstream s.settings) (not (is_empty w.environment_socks5))),
)

unfoldable pub after_upstream :
    Server → World → ConfigStore × Option SettingsError → Server × Response
unfolding after_manager upstream_in_force
after_upstream s w (c, some e) = (record s { settings = c }, write_error (of_settings e))
after_upstream s w (c, none) =
    let cfg = upstream_in_force w c.cfg in
    after_manager (record s { settings = c }) w cfg (change_upstream s.manager cfg w.exchanges)

unfoldable pub do_put_upstream :
    Libraries → Server → World → ServerError ⊎ UpstreamUpdate → Server × Response
unfolding after_upstream
do_put_upstream lib s w (inl e) = (s, write_error e)
do_put_upstream lib s w (inr u) = after_upstream s w (update_upstream lib.net s.settings u w.saving)

unfoldable pub handle_put_upstream : Libraries → Server → Request → World → Server × Response
unfolding do_put_upstream
handle_put_upstream lib s r w =
    do_put_upstream lib s w (decode_json lib.json.upstream_update lib.json.is_end r)
