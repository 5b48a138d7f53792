-- ===== src/Server/Lifecycle/Readiness.antt =====
-- What a server is that is ready to run, told from the calls, and the steps on the way.
use nshgeoip.Prelude.{
  leb, length, Bytes, ℕ, zero, suc, ◌%◌, ◌≤◌, ◌≡◌, refl, sym, ap, subst, ◌≢◌, true, false, ◌||◌,
  Option, none, some, List, [], ◌∷◌, arith,
}
use nshgeoip.Ip.{InetPton, c_str, af_inet, af_inet6, ParsedAddr}
use nshgeoip.Ip.Accepts.{IsAddressOf}
use nshgeoip.Geoip.{has_value, GeoIpDatabases}
use nshgeoip.Pool.{new_pool}
use nshgeoip.Config.{Config}
use nshgeoip.Server.Os.{TcpAddress, socket_unix, bind_unix, listen, chmod, ServerState}
use nshgeoip.Server.Write.{take}
use nshgeoip.Server.Listen.{sun_path, sun_path_size}
use nshgeoip.Server.Listen.Ran.{
  ReadsSignals-grows, ListensAt-grows, Listeners-grows, Happened, just_now, ReadsSignals, ListensAt,
  listens, Listeners, no_more,
}
use nshgeoip.Server.Listen.Members.{Fact, On, Grows, Just}
use nshgeoip.Server.Lifecycle.{is_open}

-- The addresses that a configuration asks to listen on, the port as a uint16_t: none for port 0,
-- 127.0.0.1 and ::1 if no address is set, else the one that inet_pton() reads.
pub data IsAsked (inet_pton : InetPton) (cfg : Config) : List TcpAddress → Type 0 where
  switched_off : cfg.tcp_port ≡ 0 → IsAsked inet_pton cfg []
  loopback :
      cfg.tcp_port ≢ 0
      → cfg.tcp_address ≡ []
      → IsAsked inet_pton cfg (
          record { family = af_inet; address = 127 ∷ 0 ∷ 0 ∷ 1 ∷ []; port = cfg.tcp_port % 65536 }
          ∷ record {
            family = af_inet6;
            address = 0 ∷ 0 ∷ 0 ∷ 0 ∷ 0 ∷ 0 ∷ 0 ∷ 0 ∷ 0 ∷ 0 ∷ 0 ∷ 0 ∷ 0 ∷ 0 ∷ 0 ∷ 1 ∷ [];
            port = cfg.tcp_port % 65536;
          }
          ∷ [])
  given :
      (a : ParsedAddr)
      → cfg.tcp_port ≢ 0
      → IsAddressOf inet_pton cfg.tcp_address a
      → IsAsked inet_pton cfg
          (record { family = a.family; address = a.address; port = cfg.tcp_port % 65536 } ∷ [])

module _ {Handle : Type 0} where
  pub data HasDatabase (db : GeoIpDatabases Handle) : Type 0 where
    has_country : (h : Handle) → db.country ≡ some h → HasDatabase db
    has_asn : (h : Handle) → db.asn ≡ some h → HasDatabase db
    has_city : (h : Handle) → db.city ≡ some h → HasDatabase db

  -- The signals are read, a database is open, the server's own socket listens, and so does one TCP
  -- socket for each address asked for, and the pool has as many workers as the configuration says.
  pub record IsReady (inet_pton : InetPton) (cfg : Config) (s : ServerState Handle) : Type 0 where
    pub signals : ReadsSignals s.trace s.signal_fd
    pub database : HasDatabase s.db
    pub socket : ListensAt cfg.socket_path cfg.socket_mode s.trace s.listen_fd
    pub created : s.socket_created ≡ true
    pub addresses : List TcpAddress
    pub asked : IsAsked inet_pton cfg addresses
    pub listeners : Listeners s.trace addresses s.tcp_listen_fds
    pub workers : s.pool ≡ some (new_pool cfg.threads)

  pub is_open-HasDatabase : (db : GeoIpDatabases Handle) → is_open db ≡ true → HasDatabase db
  is_open-HasDatabase db e = go db.country db.asn db.city refl refl refl e
    where
      go :
          (country asn city : Option Handle)
          → db.country ≡ country
          → db.asn ≡ asn
          → db.city ≡ city
          → has_value country || (has_value asn || has_value city) ≡ true
          → HasDatabase db
      go (some h) asn city p q r e = has_country h p
      go none (some h) city p q r e = has_asn h q
      go none none (some h) p q r e = has_city h r
      go none none none p q r e = cc

  abbrev pub signalled : Fact Handle
  signalled t l ts g created db = (ts ≡ []) × ReadsSignals t g

  abbrev pub with_database : Fact Handle
  with_database t l ts g created db = (ts ≡ []) × (ReadsSignals t g × HasDatabase db)

  -- The listening socket is there, and not yet bound.
  abbrev pub with_socket : ℕ → Fact Handle
  with_socket fd t l ts g created db =
      (ts ≡ []) × (ReadsSignals t g × (HasDatabase db × (l ≡ some fd)))

  abbrev pub named : ℕ → Fact Handle
  named fd t l ts g created db = with_socket fd t l ts g created db × (created ≡ true)

  abbrev pub listening : Config → List TcpAddress → Fact Handle
  listening cfg addrs t l ts g created db =
      Listeners t addrs ts
      × (ReadsSignals t g
          × (HasDatabase db × (ListensAt cfg.socket_path cfg.socket_mode t l × (created ≡ true))))

  pub signalled-Grows : Grows signalled
  signalled-Grows s x p = (p.0, ReadsSignals-grows x p.1)

  pub with_database-Grows : Grows with_database
  with_database-Grows s x p = (p.0, (ReadsSignals-grows x p.1.0, p.1.1))

  pub with_socket-Grows : (fd : ℕ) → Grows (with_socket fd)
  with_socket-Grows fd s x p = (p.0, (ReadsSignals-grows x p.1.0, p.1.1))

  pub named-Grows : (fd : ℕ) → Grows (named fd)
  named-Grows fd s x p = (with_socket-Grows fd s x p.0, p.1)

  pub listening-Grows : (cfg : Config) (addrs : List TcpAddress) → Grows (listening cfg addrs)
  listening-Grows cfg addrs s x p = (
    Listeners-grows x p.0,
    (ReadsSignals-grows x p.1.0, (p.1.1.0, (ListensAt-grows x p.1.1.1.0, p.1.1.1.1))),
  )

-- A path that fits keeps all its bytes up to the first NUL.
take_all : (n : ℕ) (s : Bytes) → length s ≤ n → take n s ≡ s
take_all zero [] h = refl
take_all zero (c ∷ s) h = absurd (omega (arith, h))
take_all (suc n) [] h = refl
take_all (suc n) (c ∷ s) h = ap (λ r. c ∷ r) (take_all n s (omega (arith, h)))

length-c_str : (s : Bytes) → length (c_str s) ≤ length s
unfolding c_str
length-c_str [] = omega arith
length-c_str (c ∷ s) = ground (arith, length-c_str s)

pub sun_path_whole :
    (path : Bytes) → leb sun_path_size (length path) ≡ false → sun_path path ≡ c_str path
unfolding sun_path
sun_path_whole path e = take_all 107 (c_str path) (ground (arith, length-c_str path))

-- Behind the calls of `bind_socket`.
pub bound-listening :
    {Handle : Type 0} (cfg : Config) (fd : ℕ)
    → leb sun_path_size (length cfg.socket_path) ≡ false
    → (s : ServerState Handle)
    → On
        (Just (named fd) (socket_unix true) fd (
          listen fd
          ∷ chmod cfg.socket_path cfg.socket_mode
          ∷ bind_unix fd (sun_path cfg.socket_path)
          ∷ []))
        s
    → On (listening cfg []) s
bound-listening cfg fd e s p =
    let path = cfg.socket_path in
    let mode = cfg.socket_mode in
    let called =
      subst
        (λ name.
          Happened (socket_unix true) fd (listen fd ∷ chmod path mode ∷ bind_unix fd name ∷ [])
            s.trace)
        (sun_path_whole path e) (just_now p.1) in
    (
      subst (Listeners s.trace []) (sym p.0.0.0) no_more,
      (
        p.0.0.1.0,
        (
          p.0.0.1.1.0,
          (subst (ListensAt path mode s.trace) (sym p.0.0.1.1.1) (listens called), p.0.1),
        ),
      ),
    )
