-- ===== src/Server/Lifecycle/Listening.antt =====
-- The sockets that `setup_socket` and `setup_tcp_listeners` of src/server.cpp set up.
use nshgeoip.Prelude.{
  leb, ◌==◌, Bool-cases, length, Bytes, is_empty, ℕ, ◌%◌, ◌≡◌, refl, ◌≢◌, inl, inr, true, false,
  Option, none, some, List, [], ◌∷◌, ◌++◌, arith,
}
use nshgeoip.Ip.{InetPton, parse_ip_address, Family, af_unspec, af_inet, af_inet6, ParsedAddr}
use nshgeoip.Ip.Accepts.{parse_ip_address-IsAddressOf}
use nshgeoip.Config.{Config}
use nshgeoip.Server.Os.{
  throw, TcpAddress, socket_unix, socket_tcp, bind_unix, bind_tcp, reuse_addr, listen, lstat, chmod,
  Os,
}
use nshgeoip.Server.Os.Rules.{>>=-Triple, ret-Triple, modify-Triple, weaken-Triple}
use nshgeoip.Server.Listen.{
  sun_path, sun_path_size, ensure_socket_directory, bind_socket, bind_checked, setup_socket,
  bind_one_tcp, bind_family, bind_address, setup_tcp_listeners,
}
use nshgeoip.Server.Listen.Ran.{Listeners-append, just_now}
use nshgeoip.Server.Listen.Members.{
  Fact, On, Leads, Just, call-Leads, opening-Leads, further-Leads, throw-Leads, ensure_parent-Leads,
  clear_path-Leads, or_close-Leads, only_v6-Leads,
}
use nshgeoip.Server.Lifecycle.Readiness.{
  with_database, with_socket, named, listening, with_database-Grows, with_socket-Grows, named-Grows,
  listening-Grows, bound-listening, IsAsked, switched_off, loopback, given,
}

module _ {Handle : Type 0} (os : Os Handle) where
  bind_one_tcp-Leads :
      (cfg : Config) (addrs : List TcpAddress) (addr : TcpAddress)
      → Leads (listening cfg addrs) (bind_one_tcp os addr) (listening cfg (addrs ++ addr ∷ []))
  unfolding bind_one_tcp
  bind_one_tcp-Leads cfg addrs addr =
      let J = listening cfg addrs in
      let grows = listening-Grows cfg addrs in
      >>=-Triple (opening-Leads os J grows (socket_tcp addr.family) _) λ fd.
        >>=-Triple (or_close-Leads os J grows _ _ [] fd (reuse_addr fd) _) λ _.
          >>=-Triple (only_v6-Leads os J grows _ _ _ addr.family fd) λ _.
            >>=-Triple (or_close-Leads os J grows _ _ _ fd (bind_tcp fd addr) _) λ _.
              >>=-Triple (or_close-Leads os J grows _ _ _ fd (listen fd) _)
                λ _. modify-Triple _ (λ s p. (Listeners-append addr fd p.0.0 (just_now p.1), p.0.1))

  bind_socket-Leads :
      (cfg : Config) (fd : ℕ)
      → leb sun_path_size (length cfg.socket_path) ≡ false
      → Leads
          (Just (with_socket fd) (socket_unix true) fd [])
          (bind_socket os cfg.socket_path cfg.socket_mode fd)
          (listening cfg [])
  unfolding bind_socket
  bind_socket-Leads cfg fd e =
      let grows = named-Grows fd in
      >>=-Triple (further-Leads os (with_socket fd) (with_socket-Grows fd) _ _ _ (bind_unix fd _) _)
        λ _.
          >>=-Triple
            (modify-Triple
              {Q = On (
                Just (named fd) (socket_unix true) fd
                  (bind_unix fd (sun_path cfg.socket_path) ∷ []))}
              _ (λ s p. ((p.0, refl), p.1)))
            λ _.
              >>=-Triple
                (further-Leads os (named fd) grows _ _ _ (chmod cfg.socket_path cfg.socket_mode) _)
                λ _.
                  >>=-Triple (further-Leads os (named fd) grows _ _ _ (listen fd) _)
                    λ _. weaken-Triple (ret-Triple tt) (λ u s p. bound-listening cfg fd e s p)

  pub setup_socket-Leads :
      (cfg : Config) → Leads with_database (setup_socket os cfg) (listening cfg [])
  unfolding setup_socket ensure_socket_directory bind_checked throw
  setup_socket-Leads cfg =
      let grows = with_database-Grows in
      >>=-Triple (ensure_parent-Leads os with_database grows _) λ _.
        >>=-Triple (call-Leads os with_database grows (lstat cfg.socket_path)) λ there.
          >>=-Triple (clear_path-Leads os with_database grows cfg.socket_path there) λ _.
            >>=-Triple (opening-Leads os with_database grows (socket_unix true) _) λ fd.
              >>=-Triple
                (modify-Triple {Q = On (Just (with_socket fd) (socket_unix true) fd [])} _
                  (λ s p. ((p.0.0, (p.0.1.0, (p.0.1.1, refl))), p.1)))
                λ _. elim (Bool-cases (leb sun_path_size (length cfg.socket_path))) [
                  | inl e ↦ rw e (record { ends = λ s p. tt })
                  | inr e ↦ rw e (bind_socket-Leads cfg fd e)
                ]

  bind_family-Leads :
      (cfg : Config) (f : Family) (bytes : Bytes)
      → Leads
          (listening cfg [])
          (bind_family os cfg f bytes)
          (listening cfg (record { family = f; address = bytes; port = cfg.tcp_port % 65536 } ∷ []))
  unfolding bind_family
  bind_family-Leads cfg af_inet bytes = bind_one_tcp-Leads cfg [] _
  bind_family-Leads cfg af_inet6 bytes = bind_one_tcp-Leads cfg [] _
  bind_family-Leads cfg af_unspec bytes =
      throw-Leads os (listening cfg []) (listening-Grows cfg []) _

  -- Some addresses that were asked for.
  abbrev pub asked_for : InetPton → Config → Fact Handle
  asked_for inet_pton cfg t l ts g created db =
      (addrs : List TcpAddress) × (IsAsked inet_pton cfg addrs
        × listening cfg addrs t l ts g created db)

  bind_address-Leads :
      (inet_pton : InetPton) (cfg : Config)
      → cfg.tcp_port ≢ 0
      → (o : Option ParsedAddr) → parse_ip_address inet_pton cfg.tcp_address ≡ o
      → Leads (listening cfg []) (bind_address os cfg o) (asked_for inet_pton cfg)
  unfolding bind_address throw
  bind_address-Leads inet_pton cfg n none e = record { ends = λ s p. tt }
  bind_address-Leads inet_pton cfg n (some a) e =
      weaken-Triple (bind_family-Leads cfg a.family a.address) (λ u s p.
        (_, (given a n ((parse_ip_address-IsAddressOf inet_pton cfg.tcp_address a).0 e), p)))

  nonzero : (n : ℕ) → (n == 0) ≡ false → n ≢ 0
  nonzero n e z = ground arith

  empty : (s : Bytes) → is_empty s ≡ true → s ≡ []
  empty [] e = refl
  empty (c ∷ s) e = cc

  pub setup_tcp_listeners-Leads :
      (inet_pton : InetPton) (cfg : Config)
      → Leads (listening cfg []) (setup_tcp_listeners os inet_pton cfg) (asked_for inet_pton cfg)
  unfolding setup_tcp_listeners
  setup_tcp_listeners-Leads inet_pton cfg = elim (Bool-cases (cfg.tcp_port == 0)) [
    | inl e ↦ rw e (weaken-Triple (ret-Triple tt) (λ u s p. ([], (switched_off (grind arith), p))))
    | inr e ↦ rw e (elim (Bool-cases (is_empty cfg.tcp_address)) [
      | inl z ↦ rw z (
          weaken-Triple (>>=-Triple (bind_one_tcp-Leads cfg [] _) λ _. bind_one_tcp-Leads cfg _ _)
            (λ u s p. (_, (loopback (nonzero cfg.tcp_port e) (empty cfg.tcp_address z), p))))
      | inr z ↦ rw z (bind_address-Leads inet_pton cfg (nonzero cfg.tcp_port e) _ refl)
    ])
  ]
