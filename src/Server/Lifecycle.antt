-- ===== src/Server/Lifecycle.antt =====
-- src/server.cpp: `Server::init`, `reload_databases`, `cleanup` and the destructor.
pub mod Descriptors
pub mod Quiet
pub mod Closing
pub mod Removal
pub mod Guards
pub mod Reload
pub mod Readiness
pub mod Listening
pub mod Ready
use nshgeoip.Prelude.{
  Bytes, codes, ℕ, zero, suc, Bool, true, false, not, ◌&&◌, ◌||◌, Option, none, some, List, [], ◌∷◌,
}
use nshgeoip.Ip.{InetPton}
use nshgeoip.External.{OpenResult, opened, failed}
use nshgeoip.Geoip.{has_value, open_slot, GeoIpDatabases, Slot, country_slot, asn_slot, city_slot}
use nshgeoip.Pool.{new_pool}
use nshgeoip.Config.{Config}
use nshgeoip.Server.Os.{
  initial_server, M, ◌>>=◌, ◌>>◌, ret, throw, modify, call, close_fd, unlink, mmdb_open, Answer,
  done, errs, Os, ServerState, returns,
}
use nshgeoip.Server.Listen.{setup_signals, setup_socket, setup_tcp_listeners}

-- A function that reads the members first.
abbrev pub reading : {S A B : Type 0} → (S → A) → (A → M S B) → M S B
reading get f s = f (get s) s

abbrev pub opened_answer : {Handle : Type 0} → OpenResult Handle → Answer
opened_answer (opened h) = done 0
opened_answer (failed reason) = errs 0

abbrev pub is_open : {Handle : Type 0} → GeoIpDatabases Handle → Bool
is_open db = has_value db.country || (has_value db.asn || has_value db.city)

module _ {Handle : Type 0} (os : Os Handle) where
  -- `open_*` on a path: what it returns, and the databases.
  unfoldable pub open_database : Slot → Bytes → M (ServerState Handle) (Option Bytes)
  open_database slot path s =
      let r = os.open_db s.trace path in
      let (db, err) = open_slot s.db slot path r in
      (returns err, record s { db = db; trace = (mmdb_open path, opened_answer r) ∷ s.trace })

  abbrev pub failing : Option Bytes → M (ServerState Handle) (Unit {0})
  failing none = ret tt
  failing (some err) = throw err

  unfoldable pub open_configured : Slot → Bytes → M (ServerState Handle) (Unit {0})
  open_configured slot [] = ret tt
  open_configured slot (c ∷ path) = open_database slot (c ∷ path) >>= failing

  unfoldable pub require_database : Bool → M (ServerState Handle) (Unit {0})
  require_database true = ret tt
  require_database false =
      throw (codes "no databases configured (set country_db, asn_db, and/or city_db)")

  unfoldable pub init : InetPton → Config → M (ServerState Handle) (Unit {0})
  init inet_pton cfg = do
    setup_signals os
    open_configured country_slot cfg.country_db
    open_configured asn_slot cfg.asn_db
    open_configured city_slot cfg.city_db
    reading (λ s. is_open s.db) require_database
    setup_socket os cfg
    setup_tcp_listeners os inet_pton cfg
    modify (λ s. record s { pool = some (new_pool cfg.threads) })

  -- One database of `reload_databases`: false if it could not be opened.
  unfoldable pub reload_slot : Slot → Bytes → M (ServerState Handle) Bool
  reload_slot slot [] = ret true
  reload_slot slot (c ∷ path) = open_database slot (c ∷ path) >>= λ err. ret (not (has_value err))

  -- The result is `ok`, which decides the last line that is logged.
  unfoldable pub reload_databases : Config → M (ServerState Handle) Bool
  reload_databases cfg = do
    a ← reload_slot country_slot cfg.country_db
    b ← reload_slot asn_slot cfg.asn_db
    c ← reload_slot city_slot cfg.city_db
    ret (a && (b && c))

  unfoldable pub close_optional : Option ℕ → M (ServerState Handle) (Unit {0})
  close_optional none = ret tt
  close_optional (some fd) = call os (close_fd fd) >> ret tt

  unfoldable pub close_all : List ℕ → M (ServerState Handle) (Unit {0})
  close_all [] = ret tt
  close_all (fd ∷ fds) = call os (close_fd fd) >> close_all fds

  unfoldable pub close_listener : M (ServerState Handle) (Unit {0})
  unfolding close_optional
  close_listener =
      reading (λ s. s.listen_fd) close_optional >> modify (λ s. record s { listen_fd = none })

  unfoldable pub close_tcp_listeners : M (ServerState Handle) (Unit {0})
  unfolding close_all
  close_tcp_listeners =
      reading (λ s. s.tcp_listen_fds) close_all >> modify (λ s. record s { tcp_listen_fds = [] })

  unfoldable pub close_signals : M (ServerState Handle) (Unit {0})
  unfolding close_optional
  close_signals =
      reading (λ s. s.signal_fd) close_optional >> modify (λ s. record s { signal_fd = none })

  unfoldable pub unlink_if : Bytes → Bool → M (ServerState Handle) (Unit {0})
  unlink_if path false = ret tt
  unlink_if path true = call os (unlink path) >> ret tt

  unfoldable pub remove_socket : Bytes → M (ServerState Handle) (Unit {0})
  unfolding unlink_if
  remove_socket path =
      reading (λ s. s.socket_created) (unlink_if path)
      >> modify (λ s. record s { socket_created = false })

  -- `pool_->shutdown()` and `pool_.reset()`; what the workers do before they are joined is in
  -- Pool/Drain.
  unfoldable pub stop_pool : M (ServerState Handle) (Unit {0})
  stop_pool = modify (λ s. record s { pool = none })

  unfoldable pub cleanup : Config → M (ServerState Handle) (Unit {0})
  cleanup cfg = do
    stop_pool
    close_listener
    close_tcp_listeners
    remove_socket cfg.socket_path
    close_signals

  -- The destructor; the members end with it, so it does not matter that only this model clears
  -- them.
  unfoldable pub destroy_server : Config → M (ServerState Handle) (Unit {0})
  destroy_server cfg = do
    stop_pool
    close_listener
    close_tcp_listeners
    close_signals
    remove_socket cfg.socket_path

  -- `run` seen from here: one reload for each SIGHUP, then the clean-up.
  unfoldable pub reload_times : Config → ℕ → M (ServerState Handle) (Unit {0})
  reload_times cfg zero = ret tt
  reload_times cfg (suc n) = reload_databases cfg >> reload_times cfg n

  -- main() from the construction of the server on: init() and, if it succeeds, run().
  unfoldable pub serve : InetPton → Config → ℕ → M (ServerState Handle) (Unit {0})
  serve inet_pton cfg hangups = do init inet_pton cfg; reload_times cfg hangups; cleanup cfg

  -- The state at the end of the server's life, whatever init() returned.
  unfoldable pub life : InetPton → Config → ℕ → ServerState Handle
  life inet_pton cfg hangups = (destroy_server cfg (serve inet_pton cfg hangups initial_server).1).1
