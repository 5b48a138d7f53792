-- ===== src/Server/Lifecycle/Ready.antt =====
-- What a successful `Server::init` has set up.
use nshgeoip.Prelude.{Bytes, ℕ, ◌≡◌, refl, subst, Bool, true, false, Option, none, some, [], ◌∷◌}
use nshgeoip.Ip.{InetPton}
use nshgeoip.Geoip.{Slot, country_slot, asn_slot, city_slot}
use nshgeoip.Config.{Config}
use nshgeoip.Server.Os.{
  initial_server, ret, throw, block_signals, signalfd, Os, ServerState, returns,
}
use nshgeoip.Server.Os.Rules.{Post, >>=-Triple, ret-Triple, modify-Triple, must-Triple, Triple}
use nshgeoip.Server.Listen.{shutdown_signals, setup_signals}
use nshgeoip.Server.Listen.Ran.{gave, Happened, just_now, earlier, reads}
use nshgeoip.Server.Listen.Members.{Fact, On, Leads, opening-Leads, throw-Leads}
use nshgeoip.Server.Lifecycle.{
  reading, is_open, open_database, failing, open_configured, require_database, init,
}
use nshgeoip.Server.Lifecycle.Readiness.{
  is_open-HasDatabase, signalled, with_database, signalled-Grows, IsReady,
}
use nshgeoip.Server.Lifecycle.Listening.{setup_socket-Leads, setup_tcp_listeners-Leads}

module _ {Handle : Type 0} (os : Os Handle) where
  abbrev fresh : Fact Handle
  fresh t l ts g created db = ts ≡ []

  -- Behind sigprocmask().
  abbrev blocked : ℕ → Fact Handle
  blocked n t l ts g created db = (ts ≡ []) × Happened (block_signals shutdown_signals) n [] t

  setup_signals-Leads : Leads fresh (setup_signals os) signalled
  unfolding setup_signals
  setup_signals-Leads =
      >>=-Triple {Q = λ n. On (blocked n)}
        (must-Triple os (block_signals shutdown_signals) _ (λ s n p. (p, just_now (gave s.trace)))
          (λ s e p. tt))
        λ n.
          >>=-Triple
            (opening-Leads os (blocked n) (λ s x p. (p.0, earlier x p.1))
              (signalfd shutdown_signals) _)
            λ fd. modify-Triple _ (λ s p. (p.0.0, reads p.0.1 (just_now p.1)))

  failing-Leads : (o : Option Bytes) → Leads signalled (failing os o) signalled
  failing-Leads none = ret-Triple tt
  failing-Leads (some err) = throw-Leads os signalled signalled-Grows err

  open_database-Leads :
      (slot : Slot) (path : Bytes) → Leads signalled (open_database os slot path) signalled
  unfolding open_database
  open_database-Leads slot path = record { ends = λ s p. signalled-Grows s _ p }

  open_configured-Leads :
      (slot : Slot) (path : Bytes) → Leads signalled (open_configured os slot path) signalled
  unfolding open_configured
  open_configured-Leads slot [] = ret-Triple tt
  open_configured-Leads slot (c ∷ path) =
      >>=-Triple (open_database-Leads slot (c ∷ path)) failing-Leads

  require_database-Leads :
      Leads signalled (reading (λ s. is_open s.db) (require_database os)) with_database
  unfolding require_database ret throw
  require_database-Leads = record { ends = λ s p. go s p (is_open s.db) refl }
    where
      go :
          (s : ServerState Handle)
          → On signalled s
          → (b : Bool) → is_open s.db ≡ b
          → Post (λ _. On with_database) (λ _. Unit {0}) (require_database os b s)
      go s p true e = (p.0, (p.1, is_open-HasDatabase s.db e))
      go s p false e = tt

  init-Triple :
      (inet_pton : InetPton) (cfg : Config)
      → Triple
          (λ s. s.tcp_listen_fds ≡ [])
          (init os inet_pton cfg)
          (λ _. IsReady inet_pton cfg)
          (λ _. Unit {0})
  unfolding init
  init-Triple inet_pton cfg = >>=-Triple setup_signals-Leads λ _.
      >>=-Triple (open_configured-Leads country_slot cfg.country_db) λ _.
        >>=-Triple (open_configured-Leads asn_slot cfg.asn_db) λ _.
          >>=-Triple (open_configured-Leads city_slot cfg.city_db) λ _.
            >>=-Triple require_database-Leads λ _. >>=-Triple (setup_socket-Leads os cfg) λ _.
              >>=-Triple (setup_tcp_listeners-Leads os inet_pton cfg) λ _. modify-Triple _ (λ s p.
                record {
                  signals = p.1.1.1.0;
                  database = p.1.1.1.1.0;
                  socket = p.1.1.1.1.1.0;
                  created = p.1.1.1.1.1.1;
                  addresses = p.0;
                  asked = p.1.0;
                  listeners = p.1.1.0;
                  workers = refl;
                })

  -- Whatever the system answers: if init() of a new server returns true, then SIGTERM, SIGINT and SIGHUP
  -- were blocked and `signal_fd_` is a descriptor that signalfd() gave for just these; at least one
  -- database is open; `listen_fd_` is a UNIX socket that was bound to the socket's path (up to its
  -- first NUL), got the configured mode and was made to listen, in this order and all with success;
  -- `tcp_listen_fds_` are TCP sockets, one for each address asked for and in the same order, each of
  -- which reuses its address, is for IPv6 only if it is an IPv6 one, was bound to the address and
  -- the port (as a uint16_t) and was made to listen; the addresses asked for are none for port 0,
  -- 127.0.0.1 and ::1 without an address, and else the one that inet_pton() reads; and the pool
  -- has the configured number of workers.
  pub init-IsReady :
      (inet_pton : InetPton) (cfg : Config) (s : ServerState Handle)
      → init os inet_pton cfg initial_server ≡ (returns tt, s)
      → IsReady inet_pton cfg s
  init-IsReady inet_pton cfg s e =
      subst (Post (λ _. IsReady inet_pton cfg) (λ _. Unit {0})) e
        ((init-Triple inet_pton cfg).ends initial_server refl)
