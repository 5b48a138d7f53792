-- ===== src/Server/Lifecycle/Descriptors.antt =====
-- Every descriptor that the server opens is closed.
use nshgeoip.Prelude.{
  Bytes, ℕ, zero, suc, ◌≡◌, refl, ap, Bool, true, false, Option, none, some, [], ◌∷◌, arith,
}
use nshgeoip.Ip.{InetPton}
use nshgeoip.Geoip.{Slot, country_slot, asn_slot, city_slot}
use nshgeoip.Pool.Descriptors.{count}
use nshgeoip.Config.{Config}
use nshgeoip.Server.Os.{initial_server, Os, ServerState, Result, returns, throws}
use nshgeoip.Server.Os.Rules.{Post, >>=-Triple, ret-Triple, modify-Triple, Triple}
use nshgeoip.Server.Os.Held.{
  opened_fds, closed_fds, optional, Frame, anything, no_listener, neither, Balanced, Held,
  throws-Triple,
}
use nshgeoip.Server.Listen.Descriptors.{
  setup_tcp_listeners-Keeps, setup_socket-Held, setup_signals-Held,
}
use nshgeoip.Server.Lifecycle.{
  is_open, open_database, failing, open_configured, require_database, init, reload_slot,
  reload_databases, reload_times, serve, life,
}
use nshgeoip.Server.Lifecycle.Closing.{Closing, cleanup-Closing, destroy_server-Closing}

module _ {Handle : Type 0} (os : Os Handle) where
  open_database-Held :
      (slot : Slot) (path : Bytes) (R : Frame)
      → Triple (Held R []) (open_database os slot path) (λ _. Held R []) (Held anything [])
  unfolding open_database
  open_database-Held slot path R = record { ends = λ s p. p }

  open_configured-Held :
      (slot : Slot) (path : Bytes) (R : Frame)
      → Triple (Held R []) (open_configured os slot path) (λ _. Held R []) (Held anything [])
  unfolding open_configured
  open_configured-Held slot [] R = ret-Triple tt
  open_configured-Held slot (c ∷ path) R = >>=-Triple (open_database-Held slot (c ∷ path) R) (go)
    where
      go :
          (o : Option Bytes) → Triple (Held R []) (failing os o) (λ _. Held R []) (Held anything [])
      go none = ret-Triple tt
      go (some err) = throws-Triple os R err

  require_database-Held :
      (b : Bool) (R : Frame)
      → Triple (Held R []) (require_database os b) (λ _. Held R []) (Held anything [])
  unfolding require_database
  require_database-Held true R = ret-Triple tt
  require_database-Held false R = throws-Triple os R _

  init-Held :
      (inet_pton : InetPton) (cfg : Config)
      → Triple (Held neither []) (init os inet_pton cfg) (λ _. Held anything []) (Held anything [])
  unfolding init
  init-Held inet_pton cfg = >>=-Triple (setup_signals-Held os) λ _.
      >>=-Triple (open_configured-Held country_slot cfg.country_db no_listener) λ _.
        >>=-Triple (open_configured-Held asn_slot cfg.asn_db no_listener) λ _.
          >>=-Triple (open_configured-Held city_slot cfg.city_db no_listener) λ _.
            >>=-Triple
              (record { ends = λ s p. (require_database-Held (is_open s.db) no_listener).ends s p })
              λ _. >>=-Triple (setup_socket-Held os cfg) λ _.
                >>=-Triple (setup_tcp_listeners-Keeps os anything inet_pton cfg)
                  λ _. modify-Triple _ (λ s p. p)

  reload_slot-Held :
      (slot : Slot) (path : Bytes)
      → Triple
          (Held anything [])
          (reload_slot os slot path)
          (λ _. Held anything [])
          (Held anything [])
  unfolding reload_slot
  reload_slot-Held slot [] = ret-Triple true
  reload_slot-Held slot (c ∷ path) =
      >>=-Triple (open_database-Held slot (c ∷ path) anything) λ err. ret-Triple _

  reload_times-Held :
      (cfg : Config) (n : ℕ)
      → Triple (Held anything []) (reload_times os cfg n) (λ _. Held anything []) (Held anything [])
  unfolding reload_times reload_databases
  reload_times-Held cfg zero = ret-Triple tt
  reload_times-Held cfg (suc n) =
      >>=-Triple
        (>>=-Triple (reload_slot-Held country_slot cfg.country_db) λ a.
          >>=-Triple (reload_slot-Held asn_slot cfg.asn_db)
            λ b. >>=-Triple (reload_slot-Held city_slot cfg.city_db) λ c. ret-Triple _)
        λ _. reload_times-Held cfg n

module _ {Handle : Type 0} (os : Os Handle) where
  serve-Held :
      (inet_pton : InetPton) (cfg : Config) (hangups : ℕ)
      → Triple
          (Held neither [])
          (serve os inet_pton cfg hangups)
          (λ _. Held anything [])
          (Held anything [])
  unfolding serve
  serve-Held inet_pton cfg hangups = >>=-Triple (init-Held os inet_pton cfg) λ _.
      >>=-Triple (reload_times-Held os cfg hangups) λ _. record {
        ends = λ s p.
            held_of _
              ((cleanup-Closing os (Held anything []) cfg).ends s (tt, λ x. omega (arith, p.1 x)));
      }
    where
      held_of :
          (r : Result (Unit {0}) × ServerState Handle)
          → Post (λ _. Closing (λ l ts g. Unit) []) (Held anything []) r
          → Post (λ _. Held anything []) (Held anything []) r
      held_of (returns a, s) p = (tt, λ x. omega (arith, p.1 x))
      held_of (throws err, s) p = p

  initial-Held : Held {Handle = Handle} neither [] initial_server
  initial-Held = ((refl, refl), λ x. omega arith)

  after_serve :
      (r : Result (Unit {0}) × ServerState Handle)
      → Post (λ _. Held anything []) (Held anything []) r
      → Balanced [] r.1
  after_serve (returns a, s) p = p.1
  after_serve (throws err, s) p = p.1

  after_destroy :
      (r : Result (Unit {0}) × ServerState Handle)
      → Post (λ _. Closing (λ l ts g. (g ≡ none) × ((ts ≡ []) × ((l ≡ none) × Unit))) []) (λ _. ⊥) r
      → (c : ℕ) → count c (opened_fds r.1.trace) ≡ count c (closed_fds r.1.trace)
  after_destroy (returns a, s) p c = omega (
    arith,
    p.1 c,
    ap (λ g. count c (optional g)) p.0.0,
    ap (count c) p.0.1.0,
    ap (λ l. count c (optional l)) p.0.1.1.0,
  )
  after_destroy (throws err, s) p c = absurd p

  -- Whatever the system answers, whether start-up fails, and where, and however often SIGHUP comes:
  -- at the end of the server's life each descriptor that it got from socket() or signalfd() has
  -- been closed exactly as often as it was got, and no other has been closed.
  pub life_closes_all :
      (inet_pton : InetPton) (cfg : Config) (hangups c : ℕ)
      → let t = (life os inet_pton cfg hangups).trace in
        count c (opened_fds t) ≡ count c (closed_fds t)
  unfolding life
  life_closes_all inet_pton cfg hangups =
      let end = serve os inet_pton cfg hangups initial_server in
      let balanced =
        after_serve end ((serve-Held inet_pton cfg hangups).ends initial_server initial-Held) in
      after_destroy _
        ((destroy_server-Closing os (λ _. ⊥) cfg).ends end.1 (tt, λ x. omega (arith, balanced x)))
