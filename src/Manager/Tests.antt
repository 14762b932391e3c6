-- ===== src/Manager/Tests.antt =====
-- A manager with two countries, on which the theorems about manager.go are applied, and runs of it.
mod Served
use tor_country_manager.Shared.{
  ℕ, true, false, List, [], ◌∷◌, ◌++◌, none, some, ◌≡◌, refl, arith, if◌then◌else◌, ◌==◌, is_some,
}
use tor_country_manager.Shared.Text.{Text, same, is_space, lower}
use tor_country_manager.Shared.Int.{pos}
use tor_country_manager.Shared.Assoc.{lookup}
use tor_country_manager.Config.Defs.{Config, normalize_code}
use tor_country_manager.Manager.Defs.{
  DiskAnswer, Manager, Instance, running, stopped, started, zero_instance, is_occupied,
  is_draining_status,
}
use tor_country_manager.Manager.Stop.{stop, drain_round}
use tor_country_manager.Manager.Persist.{forget_instance, remember_instance}
use tor_country_manager.Manager.Ready.{bootstrap_round, ready_round}
use tor_country_manager.Manager.Watch.{watch_exit, release_instance_ports, watch_settle}
use tor_country_manager.Manager.Traffic.{acquire_instance}
use tor_country_manager.Manager.Start.{start, make_room}
use tor_country_manager.Manager.Limits.{count_running}
use tor_country_manager.Manager.Replace.{offered, reserve_local_port}
use tor_country_manager.Manager.Reserve.{Reserves, reserve_local_port-Reserves}
use tor_country_manager.Manager.Down.{no_start_after_shutdown}
use tor_country_manager.Manager.System.{
  begins_shutdown, Event, starts, exits, releases_ports, settles, dials, bootstraps, drains, run,
  step,
}
use tor_country_manager.Manager.Draining.{Drained, releases, stop_drains}
use tor_country_manager.Manager.Lost.Forever.{stopped_country_refuses, stopped_country_runs_on}
use tor_country_manager.Manager.Running.Limit.{InOrder, WithinLimit, start-WithinLimit}
use tor_country_manager.Manager.Running.Eviction.{Evicts, make_room-Evicts}
use tor_country_manager.Manager.Control.{Exchange, tail_loop}
use tor_country_manager.Manager.Logs.{tail_loop-lem}
use tor_country_manager.Manager.Upstream.{Exchanges}
use tor_country_manager.Manager.Applied.{Applied}

abbrev pub us : Text
us = b'u' ∷ b's' ∷ []

abbrev jp : Text
jp = b'j' ∷ b'p' ∷ []

abbrev pub small_config : Config
small_config = record {
  listen_address = [];
  proxy_address = [];
  tor_binary = [];
  state_dir = [];
  geoip_file = [];
  geoipv6_file = [];
  base_socks_port = pos 19050;
  country_proxy_host = [];
  country_proxy_port = pos 20000;
  max_running = pos 1;
  drain_timeout_sec = pos 120;
  circuit_rotate_minutes = pos 0;
  auth_token = [];
  client_api_key = [];
  upstream_socks5 = [];
  upstream_username = [];
  upstream_password = [];
  countries = [];
}

abbrev us_running : Instance
us_running = record zero_instance {
  country = record { code = us; name = [] };
  status = running;
  cmd = some 7;
  started_at = 5;
}

abbrev jp_stopped : Instance
jp_stopped = record zero_instance { country = record { code = jp; name = [] }; status = stopped }

-- The United States run, Japan does not; one may run at a time.
abbrev two_countries : Manager
two_countries = record {
  cfg = small_config;
  heap = λ p. if p == 0 then us_running else jp_stopped;
  next_instance = 2;
  instances = (us, 0) ∷ (jp, 1) ∷ [];
  all_instances = 0 ∷ 1 ∷ [];
  resume_nodes = [];
  resume_active = [];
  active = [];
  reserved_ports = [];
  shutting_down = false;
  tasks = [];
  next_cmd = 8;
  signalled = [];
  cancelled = [];
  next_rotation = 0;
  disk = λ n. DiskAnswer.replaced;
  writes = 0;
  state_file = none;
}

us-normal : normalize_code us ≡ us
unfolding normalize_code is_space lower
us-normal = refl

jp-normal : normalize_code jp ≡ jp
unfolding normalize_code is_space lower
jp-normal = refl

us-found : lookup (normalize_code us) two_countries.instances ≡ some 0
unfolding normalize_code is_space lower lookup same
us-found = refl

-- The process of the stopped country is drained and exits; a new one starts and finds its exit.
abbrev restarted : List Event
restarted =
    drains 0 true
    ∷ exits 0 7 none
    ∷ releases_ports 0
    ∷ settles 0
    ∷ starts us started 9
    ∷ dials 0 8 false true none
    ∷ bootstraps 0 8 false none (some (b'1' ∷ [])) none
    ∷ []

restarted_runs : ((run (stop two_countries us).0 restarted).heap 0).status ≡ running
unfolding run step stop start normalize_code is_space lower lookup same bootstrap_round ready_round
    watch_exit release_instance_ports watch_settle drain_round forget_instance remember_instance
    is_occupied is_draining_status
restarted_runs = refl

restarted_has_process : is_some ((run (stop two_countries us).0 restarted).heap 0).cmd ≡ true
unfolding run step stop start normalize_code is_space lower lookup same bootstrap_round ready_round
    watch_exit release_instance_ports watch_settle drain_round forget_instance remember_instance
    is_occupied is_draining_status
restarted_has_process = refl

-- The country runs again, and its connections are refused.
stopped_country_refuses_example :
    (acquire_instance (run (stop two_countries us).0 restarted) us).1 ≡ none
stopped_country_refuses_example =
    stopped_country_refuses two_countries us 0 restarted us-found (omega arith) refl

stopped_country_runs_on_example :
    let n = run (stop two_countries us).0 restarted in
    ((stop n us).1 ≡ none)
    × ((stop n us).0.signalled ≡ n.signalled)
    × ((stop n us).0.tasks ≡ n.tasks)
stopped_country_runs_on_example =
    stopped_country_runs_on two_countries us 0 restarted us-found (omega arith) refl
      restarted_has_process

two_countries-InOrder : InOrder two_countries
unfolding is_occupied lookup same
two_countries-InOrder = record {
  keyed = (refl, us-normal, (refl, jp-normal, tt));
  distinct = (refl, (refl, tt));
  serves = ((λ _. refl), ((λ _. refl), tt));
}

two_countries-WithinLimit : WithinLimit two_countries
unfolding count_running is_occupied
two_countries-WithinLimit = refl

start-WithinLimit_example : WithinLimit (start two_countries jp started 9).0
start-WithinLimit_example =
    start-WithinLimit two_countries jp started 9 two_countries-InOrder two_countries-WithinLimit

-- Japan takes the place of the United States.
jp_starts : count_running (start two_countries jp started 9).0.heap two_countries.instances ≡ 1
unfolding start stop normalize_code is_space lower lookup same count_running is_occupied
    is_draining_status remember_instance forget_instance
jp_starts = refl

make_room-Evicts_example : Evicts two_countries (make_room two_countries jp)
unfolding lookup same is_occupied count_running
make_room-Evicts_example =
    make_room-Evicts two_countries jp two_countries-InOrder (λ p h. idle p h) refl
  where
    idle :
        (p : ℕ)
        → lookup jp two_countries.instances ≡ some p
        → is_occupied (two_countries.heap p).status ≡ false
    idle p h = ground arith

reserve_local_port-Reserves_example :
    Reserves []
      (reserve_local_port two_countries (λ n. offered (pos 40000))).0.reserved_ports
      (reserve_local_port two_countries (λ n. offered (pos 40000))).1.0
reserve_local_port-Reserves_example =
    reserve_local_port-Reserves two_countries (λ n. offered (pos 40000))

-- The last two lines are kept.
tail_loop-lem_example : tail_loop 2 [] (us ∷ jp ∷ us ∷ []) ≡ jp ∷ us ∷ []
tail_loop-lem_example = tail_loop-lem 2 (us ∷ jp ∷ us ∷ []) (omega arith)

-- No process answers on its control port.
abbrev silent : ℕ → Exchanges
silent p = record { commands = λ n. Exchange.not_connected []; signal = Exchange.not_connected [] }

no_start_after_shutdown_example :
    (run (step two_countries begins_shutdown) restarted).next_cmd ≡ two_countries.next_cmd
no_start_after_shutdown_example = no_start_after_shutdown two_countries restarted

-- The United States carry two connections. They are stopped, and both connections end.
abbrev two_connections : Manager
two_connections = (acquire_instance (acquire_instance two_countries us).0 us).0

two_connections-found : lookup (normalize_code us) two_connections.instances ≡ some 0
unfolding normalize_code is_space lower lookup same acquire_instance
two_connections-found = refl

stop_drains_example :
    Drained 2 0 7 false two_connections
      (drain_round (releases 2 (stop two_connections us).0 0) 0 false)
unfolding acquire_instance lookup same normalize_code lower
stop_drains_example =
    stop_drains two_connections us 0 7 2 false two_connections-found refl refl refl refl
