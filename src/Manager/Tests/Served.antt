-- ===== src/Manager/Tests/Served.antt =====
-- A manager with one country from its configuration on, on which the theorems about whole histories are
-- applied.
use tor_country_manager.Shared.{
  ℕ, ◌+◌, ◌≤◌, true, false, List, [], ◌∷◌, none, some, ◌≡◌, refl, arith,
}
use tor_country_manager.Shared.Text.{same, is_space, lower}
use tor_country_manager.Shared.Assoc.{lookup}
use tor_country_manager.Config.Defs.{Config, normalize_code}
use tor_country_manager.Manager.Defs.{DiskAnswer, Spawn, started, drain_and_stop, go}
use tor_country_manager.Manager.Stop.{drain_round}
use tor_country_manager.Manager.Replace.{drain_old_round}
use tor_country_manager.Manager.Traffic.{acquire_instance}
use tor_country_manager.Manager.Traffic.{release_instance}
use tor_country_manager.Shared.Assoc.{insert}
use tor_country_manager.Shared.Sort.{sort_slice}
use tor_country_manager.Manager.Stop.{stop}
use tor_country_manager.Manager.Start.{start}
use tor_country_manager.Manager.Defs.{is_occupied, is_draining_status}
use tor_country_manager.Manager.Persist.{forget_instance, remember_instance, nodes_of}
use tor_country_manager.Manager.Ready.{bootstrap_round, ready_round}
use tor_country_manager.Manager.Nodes.{new_manager, restore}
use tor_country_manager.Manager.System.{
  Event, starts, exits, releases_ports, settles, claims_restart, ends_restart, dials, bootstraps,
  connects, disconnects, stops, run, step,
}
use tor_country_manager.Manager.Ordered.Served.{served, clients_get_their_country}
use tor_country_manager.Manager.Watch.{
  auto_restart_limit, restart_delay, watch_exit, release_instance_ports, watch_settle, claim_round,
  after_restart, schedule_auto_restart,
}
use tor_country_manager.Manager.Restarts.{restarts_are_few}
use tor_country_manager.Manager.Counters.{arrivals, departures, paired}
use tor_country_manager.Manager.Counters.Shown.{connections_are_counted, drain_spares_connections}
use tor_country_manager.Manager.Tests.{us, small_config}

abbrev one_country : Config
one_country = record small_config { countries = record { code = us; name = [] } ∷ [] }

abbrev spawns : ℕ → Spawn
spawns n = started

-- The country starts and finds its exit.
abbrev comes_up : List Event
comes_up =
    starts us started 5
    ∷ dials 0 0 false true none
    ∷ bootstraps 0 0 false none (some (b'1' ∷ [])) none
    ∷ []

-- Two connections come, one ends, and the country is stopped.
abbrev busy : List Event
busy =
    starts us started 5
    ∷ dials 0 0 false true none
    ∷ bootstraps 0 0 false none (some (b'1' ∷ [])) none
    ∷ connects us
    ∷ connects us
    ∷ disconnects 0
    ∷ stops us
    ∷ []

us_is_served :
    (acquire_instance
      (served one_country (λ n. DiskAnswer.replaced) none spawns (λ n. n) comes_up)
      us).1
    ≡ some 0
unfolding run step stop start normalize_code is_space lower lookup insert same bootstrap_round
    ready_round forget_instance remember_instance is_occupied is_draining_status acquire_instance
    release_instance restore sort_slice nodes_of new_manager
us_is_served = refl

busy_is_paired :
    paired 0 0
      (restore (new_manager one_country (λ n. DiskAnswer.replaced) none) spawns (λ n. n))
      busy
    ≡ true
unfolding run step stop start normalize_code is_space lower lookup insert same bootstrap_round
    ready_round forget_instance remember_instance is_occupied is_draining_status acquire_instance
    release_instance restore sort_slice nodes_of new_manager paired
busy_is_paired = refl

two_arrive :
    arrivals 0
      (restore (new_manager one_country (λ n. DiskAnswer.replaced) none) spawns (λ n. n))
      busy
    ≡ 2
unfolding run step stop start normalize_code is_space lower lookup insert same bootstrap_round
    ready_round forget_instance remember_instance is_occupied is_draining_status acquire_instance
    release_instance restore sort_slice nodes_of new_manager arrivals
two_arrive = refl

one_departs : departures 0 busy ≡ 1
unfolding departures
one_departs = refl

clients_get_their_country_example :
    ((served one_country (λ n. DiskAnswer.replaced) none spawns (λ n. n) comes_up).heap
      0).country.code
    ≡ normalize_code us
clients_get_their_country_example =
    clients_get_their_country one_country (λ n. DiskAnswer.replaced) none spawns (λ n. n) comes_up
      us 0 us_is_served

connections_are_counted_example :
    ((served one_country (λ n. DiskAnswer.replaced) none spawns (λ n. n) busy).heap
        0).active_connections
      + departures 0 busy
    ≡ arrivals 0
        (restore (new_manager one_country (λ n. DiskAnswer.replaced) none) spawns (λ n. n))
        busy
connections_are_counted_example =
    connections_are_counted one_country (λ n. DiskAnswer.replaced) none spawns (λ n. n) busy 0
      busy_is_paired

drain_spares_connections_example :
    let n = served one_country (λ n. DiskAnswer.replaced) none spawns (λ n. n) busy in
    (drain_round n 0 false ≡ go (drain_and_stop 0) n)
    × ((drain_old_round n 0 1 false).signalled ≡ n.signalled)
drain_spares_connections_example =
    drain_spares_connections one_country (λ n. DiskAnswer.replaced) none spawns (λ n. n) busy 0 1
      busy_is_paired (omega (arith, two_arrive, one_departs))

-- The process goes down by itself, and is started again.
abbrev goes_down : List Event
goes_down =
    starts us started 5
    ∷ exits 0 0 none
    ∷ releases_ports 0
    ∷ settles 0
    ∷ claims_restart 0 1
    ∷ starts us started 6
    ∷ ends_restart 0 none
    ∷ exits 0 1 none
    ∷ settles 0
    ∷ []

restarted_twice :
    ((served one_country (λ n. DiskAnswer.replaced) none spawns (λ n. n) goes_down).heap
      0).restart_attempts
    ≡ 2
unfolding run step stop start normalize_code is_space lower lookup insert same bootstrap_round
    ready_round forget_instance remember_instance is_occupied is_draining_status acquire_instance
    release_instance restore sort_slice nodes_of new_manager watch_exit release_instance_ports
    watch_settle claim_round after_restart schedule_auto_restart
restarted_twice = refl

restarts_are_few_example :
    let n = (served one_country (λ n. DiskAnswer.replaced) none spawns (λ n. n) goes_down).heap 0 in
    (n.restart_attempts ≤ auto_restart_limit) × (restart_delay n.restart_attempts ≤ 4)
restarts_are_few_example =
    restarts_are_few one_country (λ n. DiskAnswer.replaced) none spawns (λ n. n) goes_down 0
