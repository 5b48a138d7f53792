-- ===== src/Server/Lifecycle/Closing.antt =====
-- What the clean-up and the destructor close.
use nshgeoip.Prelude.{
  Bytes, ℕ, ◌+◌, ◌≡◌, refl, ap, Bool, true, false, Option, none, some, List, [], ◌∷◌, ◌++◌, arith,
}
use nshgeoip.Pool.Descriptors.{count, count-append}
use nshgeoip.Config.{Config}
use nshgeoip.Server.Os.{call, close_fd, unlink, Os, ServerState}
use nshgeoip.Server.Os.Rules.{
  >>=-Triple, ret-Triple, modify-Triple, weaken-Triple, call-Triple, Triple,
}
use nshgeoip.Server.Os.Held.{opened_fds, closed_fds, optional}
use nshgeoip.Server.Lifecycle.{
  close_optional, close_all, close_listener, close_tcp_listeners, close_signals, unlink_if,
  remove_socket, stop_pool, cleanup, destroy_server,
}

-- A fact about the members, which calls leave as they are.
abbrev Fact : Type 1
Fact = Option ℕ → List ℕ → Option ℕ → Type 0

-- Descriptors that were closed and are still in the members.
module _ {Handle : Type 0} where
  abbrev Over : List ℕ → ServerState Handle → Type 0
  Over fds s =
      (c : ℕ)
      → count c (opened_fds s.trace) + count c fds
        ≡ count c (closed_fds s.trace)
          + (count c (optional s.listen_fd)
              + count c s.tcp_listen_fds
              + count c (optional s.signal_fd))

  abbrev pub Closing : Fact → List ℕ → ServerState Handle → Type 0
  Closing F fds s = F s.listen_fd s.tcp_listen_fds s.signal_fd × Over fds s

module _ {Handle : Type 0} (os : Os Handle) (F : Fact) (E : ServerState Handle → Type 0) where
  close_one :
      (fd : ℕ) (fds : List ℕ)
      → Triple (Closing F fds) (call os (close_fd fd)) (λ _. Closing F (fd ∷ fds)) E
  close_one fd fds = call-Triple os (close_fd fd) (λ s a p. (p.0, λ x. omega (arith, p.1 x)))

  close_optional-Closing :
      (o : Option ℕ) → Triple (Closing F []) (close_optional os o) (λ _. Closing F (optional o)) E
  unfolding close_optional
  close_optional-Closing none = ret-Triple tt
  close_optional-Closing (some fd) = >>=-Triple (close_one fd []) λ _. ret-Triple tt

  close_all-Closing :
      (fds more : List ℕ)
      → Triple (Closing F more) (close_all os fds) (λ _. Closing F (fds ++ more)) E
  unfolding close_all
  close_all-Closing [] more = ret-Triple tt
  close_all-Closing (fd ∷ fds) more =
      weaken-Triple (>>=-Triple (close_one fd more) λ _. close_all-Closing fds (fd ∷ more))
        (λ _ s p.
          (p.0, λ x. omega (arith, p.1 x, count-append x fds (fd ∷ more), count-append x fds more)))

  unlink_if-Closing :
      (path : Bytes) (b : Bool) → Triple (Closing F []) (unlink_if os path b) (λ _. Closing F []) E
  unfolding unlink_if
  unlink_if-Closing path false = ret-Triple tt
  unlink_if-Closing path true =
      >>=-Triple (call-Triple os (unlink path) (λ s a p. p)) λ _. ret-Triple tt

  remove_socket-Closing :
      (path : Bytes) → Triple (Closing F []) (remove_socket os path) (λ _. Closing F []) E
  unfolding remove_socket
  remove_socket-Closing path =
      >>=-Triple (record { ends = λ s p. (unlink_if-Closing path s.socket_created).ends s p })
        λ _. modify-Triple _ (λ s p. p)

  stop_pool-Closing : Triple (Closing F []) (stop_pool os) (λ _. Closing F []) E
  unfolding stop_pool
  stop_pool-Closing = modify-Triple _ (λ s p. p)

module _ {Handle : Type 0} (os : Os Handle) (E : ServerState Handle → Type 0) where
  close_listener-Closing :
      (G : List ℕ → Option ℕ → Type 0)
      → Triple
          (Closing (λ l ts g. G ts g) [])
          (close_listener os)
          (λ _. Closing (λ l ts g. (l ≡ none) × G ts g) [])
          E
  unfolding close_listener
  close_listener-Closing G =
      >>=-Triple {Q = λ _ s. (o : Option ℕ) × Closing (λ l ts g. (l ≡ o) × G ts g) (optional o) s}
        (record {
          ends = λ s p.
              (weaken-Triple
                  (close_optional-Closing os (λ l ts g. (l ≡ s.listen_fd) × G ts g) E s.listen_fd)
                  (λ a t q. (s.listen_fd, q))).ends
                s ((refl, p.0), p.1);
        })
        λ _. modify-Triple _ (λ s p.
          ((refl, p.1.0.1), λ x. omega (arith, p.1.1 x, ap (λ l. count x (optional l)) p.1.0.0)))

  close_tcp_listeners-Closing :
      (G : Option ℕ → Option ℕ → Type 0)
      → Triple
          (Closing (λ l ts g. G l g) [])
          (close_tcp_listeners os)
          (λ _. Closing (λ l ts g. (ts ≡ []) × G l g) [])
          E
  unfolding close_tcp_listeners
  close_tcp_listeners-Closing G =
      >>=-Triple {Q = λ _ s. (fds : List ℕ) × Closing (λ l ts g. (ts ≡ fds) × G l g) (fds ++ []) s}
        (record {
          ends = λ s p.
              (weaken-Triple
                  (close_all-Closing os (λ l ts g. (ts ≡ s.tcp_listen_fds) × G l g) E
                    s.tcp_listen_fds [])
                  (λ a t q. (s.tcp_listen_fds, q))).ends
                s ((refl, p.0), p.1);
        })
        λ _. modify-Triple _ (λ s p. (
          (refl, p.1.0.1),
          λ x. omega (arith, p.1.1 x, count-append x p.0 [], ap (count x) p.1.0.0),
        ))

  close_signals-Closing :
      (G : Option ℕ → List ℕ → Type 0)
      → Triple
          (Closing (λ l ts g. G l ts) [])
          (close_signals os)
          (λ _. Closing (λ l ts g. (g ≡ none) × G l ts) [])
          E
  unfolding close_signals
  close_signals-Closing G =
      >>=-Triple {Q = λ _ s. (o : Option ℕ) × Closing (λ l ts g. (g ≡ o) × G l ts) (optional o) s}
        (record {
          ends = λ s p.
              (weaken-Triple
                  (close_optional-Closing os (λ l ts g. (g ≡ s.signal_fd) × G l ts) E s.signal_fd)
                  (λ a t q. (s.signal_fd, q))).ends
                s ((refl, p.0), p.1);
        })
        λ _. modify-Triple _ (λ s p.
          ((refl, p.1.0.1), λ x. omega (arith, p.1.1 x, ap (λ g. count x (optional g)) p.1.0.0)))

  pub cleanup-Closing :
      (cfg : Config)
      → Triple (Closing (λ l ts g. Unit) []) (cleanup os cfg) (λ _. Closing (λ l ts g. Unit) []) E
  unfolding cleanup
  cleanup-Closing cfg = >>=-Triple (stop_pool-Closing os (λ l ts g. Unit) E) λ _.
      >>=-Triple (close_listener-Closing (λ ts g. Unit)) λ _.
        >>=-Triple (close_tcp_listeners-Closing (λ l g. (l ≡ none) × Unit)) λ _.
          >>=-Triple
            (remove_socket-Closing os (λ l ts g. (ts ≡ []) × ((l ≡ none) × Unit)) E cfg.socket_path)
            λ _.
              weaken-Triple (close_signals-Closing (λ l ts. (ts ≡ []) × ((l ≡ none) × Unit)))
                (λ a s q. (tt, q.1))

  pub destroy_server-Closing :
      (cfg : Config)
      → Triple
          (Closing (λ l ts g. Unit) [])
          (destroy_server os cfg)
          (λ _. Closing (λ l ts g. (g ≡ none) × ((ts ≡ []) × ((l ≡ none) × Unit))) [])
          E
  unfolding destroy_server
  destroy_server-Closing cfg = >>=-Triple (stop_pool-Closing os (λ l ts g. Unit) E) λ _.
      >>=-Triple (close_listener-Closing (λ ts g. Unit)) λ _.
        >>=-Triple (close_tcp_listeners-Closing (λ l g. (l ≡ none) × Unit)) λ _.
          >>=-Triple (close_signals-Closing (λ l ts. (ts ≡ []) × ((l ≡ none) × Unit))) λ _.
            remove_socket-Closing os (λ l ts g. (g ≡ none) × ((ts ≡ []) × ((l ≡ none) × Unit))) E
              cfg.socket_path
