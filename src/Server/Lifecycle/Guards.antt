-- ===== src/Server/Lifecycle/Guards.antt =====
-- When the socket's path is removed, at start-up and at the end.
use nshgeoip.Prelude.{leb, length, ℕ, refl, inl, true, ◌∷◌}
use nshgeoip.Ip.{InetPton}
use nshgeoip.Geoip.{country_slot, asn_slot, city_slot}
use nshgeoip.Config.{Config}
use nshgeoip.Server.Os.{
  initial_server, socket_unix, bind_unix, listen, lstat, chmod, Os, ServerState, Result, returns,
  throws,
}
use nshgeoip.Server.Os.Rules.{
  Post, >>=-Triple, ret-Triple, throw-Triple, modify-Triple, if-Triple, call-Triple, must-Triple,
  Triple,
}
use nshgeoip.Server.Listen.{
  sun_path, sun_path_size, ensure_socket_directory, bind_socket, bind_checked, setup_socket,
}
use nshgeoip.Server.Lifecycle.{is_open, init, cleanup, destroy_server, serve, life}
use nshgeoip.Server.Lifecycle.Quiet.{
  At, Lasts, must-Keeps, setup_signals-Keeps, ensure_parent-Keeps, setup_tcp_listeners-Keeps,
  open_configured-Keeps, require_database-Keeps, reload_times-Keeps, close_listener-Keeps,
  close_tcp_listeners-Keeps, close_signals-Keeps, stop_pool-Keeps,
}
use nshgeoip.Server.Lifecycle.Removal.{
  Bound, Guarded, Safe, Safe-Lasts, Latest, clear_path-Safe, remove_socket-Safe,
}

module _ {Handle : Type 0} (os : Os Handle) (inet_pton : InetPton) (cfg : Config) where
  -- Behind bind().
  abbrev IsBound : ServerState Handle → Type 0
  IsBound s = Guarded s.trace × Bound cfg.socket_path s.trace

  bind_socket-Safe :
      (mode fd : ℕ)
      → Triple
          (At (Safe cfg.socket_path))
          (bind_socket os cfg.socket_path mode fd)
          (λ _. At (Safe cfg.socket_path))
          (At (Safe cfg.socket_path))
  unfolding bind_socket
  bind_socket-Safe mode fd =
      >>=-Triple {Q = λ _. IsBound}
        (must-Triple os (bind_unix fd (sun_path cfg.socket_path)) _ (λ s n p. (p.0, inl refl))
          (λ s e p. p))
        λ _. >>=-Triple (modify-Triple _ (λ s p. (p.0, λ _. p.1))) λ _.
          >>=-Triple
            (must-Keeps os (Safe cfg.socket_path) (Safe-Lasts cfg.socket_path)
              (chmod cfg.socket_path mode) _ tt)
            λ _.
              >>=-Triple
                (must-Keeps os (Safe cfg.socket_path) (Safe-Lasts cfg.socket_path) (listen fd) _ tt)
                λ _. ret-Triple tt

  setup_socket-Safe :
      Triple
        (At (Safe cfg.socket_path))
        (setup_socket os cfg)
        (λ _. At (Safe cfg.socket_path))
        (At (Safe cfg.socket_path))
  unfolding setup_socket ensure_socket_directory bind_checked
  setup_socket-Safe =
      >>=-Triple (ensure_parent-Keeps os (Safe cfg.socket_path) (Safe-Lasts cfg.socket_path) _) λ _.
        >>=-Triple {Q = λ a. Latest os cfg.socket_path (λ t. (lstat cfg.socket_path, a) ∷ t)}
          (call-Triple os (lstat cfg.socket_path) (λ s a p. (p, (s.trace, refl))))
          λ there. >>=-Triple (clear_path-Safe os cfg.socket_path there) λ _.
            >>=-Triple
              (must-Keeps os (Safe cfg.socket_path) (Safe-Lasts cfg.socket_path) (socket_unix true)
                _ tt)
              λ fd. >>=-Triple (modify-Triple _ (λ s p. p)) λ _.
                if-Triple (leb sun_path_size (length cfg.socket_path)) (throw-Triple _)
                  (bind_socket-Safe cfg.socket_mode fd)

  serve-Safe :
      (hangups : ℕ)
      → Triple
          (At (Safe cfg.socket_path))
          (serve os inet_pton cfg hangups)
          (λ _. At (Safe cfg.socket_path))
          (At (Safe cfg.socket_path))
  unfolding serve init cleanup
  serve-Safe hangups =
      >>=-Triple
        (>>=-Triple (setup_signals-Keeps os (Safe cfg.socket_path) lasts) λ _.
          >>=-Triple
            (open_configured-Keeps os (Safe cfg.socket_path) lasts country_slot cfg.country_db)
            λ _.
              >>=-Triple (open_configured-Keeps os (Safe cfg.socket_path) lasts asn_slot cfg.asn_db)
                λ _.
                  >>=-Triple
                    (open_configured-Keeps os (Safe cfg.socket_path) lasts city_slot cfg.city_db)
                    λ _.
                      >>=-Triple
                        (record {
                          ends = λ s p.
                              (require_database-Keeps os (Safe cfg.socket_path) lasts
                                  (is_open s.db)).ends
                                s p;
                        })
                        λ _. >>=-Triple setup_socket-Safe λ _.
                          >>=-Triple
                            (setup_tcp_listeners-Keeps os (Safe cfg.socket_path) lasts inet_pton
                              cfg)
                            λ _. modify-Triple _ (λ s p. p))
        λ _. >>=-Triple (reload_times-Keeps os (Safe cfg.socket_path) lasts cfg hangups) λ _.
          >>=-Triple (stop_pool-Keeps os (Safe cfg.socket_path) lasts) λ _.
            >>=-Triple (close_listener-Keeps os (Safe cfg.socket_path) lasts) λ _.
              >>=-Triple (close_tcp_listeners-Keeps os (Safe cfg.socket_path) lasts) λ _.
                >>=-Triple (remove_socket-Safe os cfg.socket_path)
                  λ _. close_signals-Keeps os (Safe cfg.socket_path) lasts
    where
      lasts : Lasts (Safe cfg.socket_path)
      lasts = Safe-Lasts cfg.socket_path

  destroy_server-Safe :
      Triple
        (At (Safe cfg.socket_path))
        (destroy_server os cfg)
        (λ _. At (Safe cfg.socket_path))
        (At (Safe cfg.socket_path))
  unfolding destroy_server
  destroy_server-Safe = >>=-Triple (stop_pool-Keeps os (Safe cfg.socket_path) lasts) λ _.
      >>=-Triple (close_listener-Keeps os (Safe cfg.socket_path) lasts) λ _.
        >>=-Triple (close_tcp_listeners-Keeps os (Safe cfg.socket_path) lasts) λ _.
          >>=-Triple (close_signals-Keeps os (Safe cfg.socket_path) lasts)
            λ _. remove_socket-Safe os cfg.socket_path
    where
      lasts : Lasts (Safe cfg.socket_path)
      lasts = Safe-Lasts cfg.socket_path

  any_end :
      (r : Result (Unit {0}) × ServerState Handle)
      → Post (λ _. At (Safe cfg.socket_path)) (At (Safe cfg.socket_path)) r
      → At (Safe cfg.socket_path) r.1
  any_end (returns a, s) p = p
  any_end (throws err, s) p = p

  -- Whatever the system answers, whether start-up fails, and where: in the whole life of the server a
  -- path is removed only if the calls just before found a socket there that refused a connection
  -- to the path as far as a socket address holds it (or the probe could get no socket), or if the
  -- server has bound its own socket to the path before.
  pub life-Guarded : (hangups : ℕ) → Guarded (life os inet_pton cfg hangups).trace
  unfolding life
  life-Guarded hangups =
      let end = serve os inet_pton cfg hangups initial_server in
      let safe = any_end end ((serve-Safe hangups).ends initial_server (tt, λ e. cc)) in
      (any_end _ (destroy_server-Safe.ends end.1 safe)).0
