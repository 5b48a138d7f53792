-- ===== src/Tests/LifecycleTests.antt =====
-- The life of the server on a small system.
use nshgeoip.Prelude.{
  ◌==◌, if◌then◌else◌, length, Bytes, codes, to_string, equal, ℕ, ◌+◌, ◌≡◌, refl, false, some, [],
  ◌∷◌, ◌++◌,
}
use nshgeoip.Ip.{c_str}
use nshgeoip.Geoip.{install, open_slot}
use nshgeoip.External.{OpenResult, opened, failed}
use nshgeoip.Pool.Descriptors.{count}
use nshgeoip.Server.Os.{
  Trace, initial_server, eexist, enoent, ◌>>=◌, ret, throw, modify, call, must, Call, signalfd,
  socket_unix, socket_tcp, connect_unix, bind_tcp, mkdir, lstat, Answer, done, errs, Os,
  ServerState, returns,
}
use nshgeoip.Server.Os.Held.{opened_fds, closed_fds}
use nshgeoip.Server.Listen.{
  sun_path, before_last, setup_signals, probe, path_has_live_listener, check_directory,
  made_directory, ensure_parent, ensure_socket_directory, remove_stale, clear_path, bind_socket,
  bind_checked, setup_socket, closed_unless, or_close, bind_one_tcp, bind_family, bind_address,
  setup_tcp_listeners,
}
use nshgeoip.Server.Lifecycle.{
  open_database, open_configured, require_database, init, reload_slot, reload_databases,
  close_optional, close_all, close_listener, close_tcp_listeners, close_signals, unlink_if,
  remove_socket, stop_pool, destroy_server, serve, life,
}
use nshgeoip.Server.Lifecycle.Descriptors.{life_closes_all}
use nshgeoip.Server.Lifecycle.Removal.{Guarded}
use nshgeoip.Server.Lifecycle.Guards.{life-Guarded}
use nshgeoip.Server.Lifecycle.Reload.{reload_databases-IsReloaded, IsReloaded}
use nshgeoip.Server.Lifecycle.Readiness.{IsReady}
use nshgeoip.Server.Lifecycle.Ready.{init-IsReady}
use nshgeoip.Tests.Sample.{sample_pton, sample_databases}
use nshgeoip.Tests.ConfigTests.{sample_config}

-- A new descriptor is the number of the calls so far. Something is at the socket's path; connections
-- to it are refused, and the TCP port is in use over IPv6.
abbrev sample_answer : ℕ → Trace → Call → Answer
sample_answer mode t (signalfd mask) = done (1 + length t)
sample_answer mode t (socket_unix nonblocking) = done (1 + length t)
sample_answer mode t (socket_tcp family) = done (1 + length t)
sample_answer mode t (mkdir path) = errs eexist
sample_answer mode t (lstat path) =
    if equal path (codes "/run/nshgeoip") then done 16877 else done mode
sample_answer mode t (connect_unix fd path) = errs 111
sample_answer mode t (bind_tcp fd addr) = if length addr.address == 16 then errs 98 else done 0
sample_answer mode t _ = done 0

abbrev sample_os : ℕ → Os ℕ
sample_os mode = record {
  answer = sample_answer mode;
  open_db = λ t path. opened (length t);
  strerror = λ e. codes "error " ++ to_string e;
}

-- A socket is there: it is removed, the server's own is bound, and removed at the end.
port_in_use_trace : Trace
port_in_use_trace = (life (sample_os 49152) sample_pton sample_config 0).trace

port_in_use_fds :
    (opened_fds port_in_use_trace ≡ 21 ∷ 17 ∷ 13 ∷ 9 ∷ 2 ∷ [])
    × (closed_fds port_in_use_trace ≡ 2 ∷ 17 ∷ 13 ∷ 21 ∷ 9 ∷ [])
unfolding port_in_use_trace life serve init ◌>>=◌ ret throw modify call must setup_signals
    open_configured open_database require_database setup_socket ensure_socket_directory
    ensure_parent made_directory check_directory before_last sun_path c_str clear_path remove_stale
    path_has_live_listener probe bind_checked bind_socket setup_tcp_listeners bind_address
    bind_family bind_one_tcp or_close closed_unless destroy_server stop_pool close_listener
    close_tcp_listeners close_signals close_optional close_all remove_socket unlink_if open_slot
    equal install
port_in_use_fds = (refl, refl)

life_closes_all_example :
    count 2 (opened_fds (life (sample_os 49152) sample_pton sample_config 1).trace)
    ≡ count 2 (closed_fds (life (sample_os 49152) sample_pton sample_config 1).trace)
life_closes_all_example = life_closes_all (sample_os 49152) sample_pton sample_config 1 2

life-Guarded_example : Guarded (life (sample_os 49152) sample_pton sample_config 1).trace
life-Guarded_example = life-Guarded (sample_os 49152) sample_pton sample_config 1

-- One database opens, one does not, and one is not configured.
abbrev some_files : Bytes → OpenResult ℕ
some_files path =
    if equal path (codes "/var/lib/crowdsec/data/GeoLite2-ASN.mmdb")
    then opened 7
    else failed (codes "no such file")

abbrev reload_os : Os ℕ
reload_os = record (sample_os 0) { open_db = λ t path. some_files path }

abbrev running_server : ServerState ℕ
running_server = record initial_server { db = sample_databases }

reload_test :
    let (well, s) = reload_databases reload_os sample_config running_server in
    (well ≡ returns false)
    × (s.db ≡ record { country = some 1; asn = some 7; city = some 3; closed = 2 ∷ [] })
unfolding reload_databases reload_slot ◌>>=◌ ret open_database open_slot install equal
reload_test = (refl, refl)

reload_databases-IsReloaded_example :
    IsReloaded some_files sample_config running_server
      (reload_databases reload_os sample_config running_server)
reload_databases-IsReloaded_example =
    reload_databases-IsReloaded some_files reload_os (λ t path. refl) sample_config running_server

-- With nothing at the socket's path and both loopback addresses free, start-up succeeds.
abbrev free_answer : Trace → Call → Answer
free_answer t (lstat path) = errs enoent
free_answer t c = done (1 + length t)

abbrev free_os : Os ℕ
free_os = record (sample_os 0) { answer = free_answer }

started : ServerState ℕ
unfolding init
started = (init free_os sample_pton sample_config initial_server).1

started_well : init free_os sample_pton sample_config initial_server ≡ (returns tt, started)
unfolding started init ◌>>=◌ ret modify call must setup_signals open_configured open_database
    require_database setup_socket ensure_socket_directory ensure_parent made_directory before_last
    sun_path c_str clear_path bind_checked bind_socket setup_tcp_listeners bind_one_tcp or_close
    closed_unless open_slot install equal
started_well = refl

init-IsReady_example : IsReady sample_pton sample_config started
init-IsReady_example = init-IsReady free_os sample_pton sample_config started started_well
