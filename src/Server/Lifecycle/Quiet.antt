-- ===== src/Server/Lifecycle/Quiet.antt =====
-- The functions that neither remove a file nor bind the UNIX socket.
use nshgeoip.Prelude.{
  ◌==◌, Bytes, is_empty, ℕ, zero, suc, Bool, true, false, Option, none, some, List, [], ◌∷◌,
}
use nshgeoip.Ip.{InetPton, Family, af_unspec, af_inet, af_inet6, ParsedAddr}
use nshgeoip.Geoip.{Slot, country_slot, asn_slot, city_slot}
use nshgeoip.Config.{Config}
use nshgeoip.Server.Os.{
  Trace, eexist, is_directory, M, call, must, TcpAddress, Call, block_signals, signalfd, socket_tcp,
  bind_unix, bind_tcp, reuse_addr, v6_only, listen, close_fd, mkdir, lstat, access_write, unlink,
  mmdb_open, Answer, done, errs, Os, ServerState,
}
use nshgeoip.Server.Os.Rules.{
  >>=-Triple, ret-Triple, throw-Triple, modify-Triple, if-Triple, call-Triple, must-Triple, Triple,
}
use nshgeoip.Server.Listen.{
  setup_signals, check_directory, made_directory, ensure_parent, closed_unless, or_close, only_v6,
  bind_one_tcp, bind_family, bind_address, setup_tcp_listeners,
}
use nshgeoip.Server.Lifecycle.{
  open_database, failing, open_configured, require_database, reload_slot, reload_databases,
  close_optional, close_all, close_listener, close_tcp_listeners, close_signals, stop_pool,
  reload_times,
}

abbrev pub IsQuiet : Call → Type 0
IsQuiet (unlink path) = ⊥
IsQuiet (bind_unix fd path) = ⊥
IsQuiet _ = Unit

-- A fact about the calls so far and `socket_created`.
abbrev pub Known : Type 1
Known = Trace → Bool → Type 0

abbrev pub At : {Handle : Type 0} → Known → ServerState Handle → Type 0
At I s = I s.trace s.socket_created

-- Such calls leave it true.
abbrev pub Lasts : Known → Type 0
Lasts I = (c : Call) (a : Answer) (t : Trace) (b : Bool) → IsQuiet c → I t b → I ((c, a) ∷ t) b

module _ {Handle : Type 0} (os : Os Handle) (I : Known) (lasts : Lasts I) where
  abbrev Keeps : {A : Type 0} → M (ServerState Handle) A → Type 0
  Keeps m = Triple (At I) m (λ _. At I) (At I)

  pub call-Keeps : (c : Call) → IsQuiet c → Keeps (call os c)
  call-Keeps c q = call-Triple os c (λ s a p. lasts c a s.trace s.socket_created q p)

  pub must-Keeps : (c : Call) (message : Bytes → Bytes) → IsQuiet c → Keeps (must os c message)
  must-Keeps c message q =
      must-Triple os c message (λ s n p. lasts c (done n) s.trace s.socket_created q p)
        (λ s e p. lasts c (errs e) s.trace s.socket_created q p)

  pub setup_signals-Keeps : Keeps (setup_signals os)
  unfolding setup_signals
  setup_signals-Keeps =
      >>=-Triple (must-Keeps (block_signals _) _ tt)
        λ _. >>=-Triple (must-Keeps (signalfd _) _ tt) λ fd. modify-Triple _ (λ s p. p)

  check_directory-Keeps : (dir : Bytes) (mode : ℕ) → Keeps (check_directory os dir mode)
  unfolding check_directory
  check_directory-Keeps dir mode =
      if-Triple (is_directory mode)
        (>>=-Triple (must-Keeps (access_write dir) _ tt) λ _. ret-Triple tt) (throw-Triple _)

  made_directory-Keeps : (dir : Bytes) (a : Answer) → Keeps (made_directory os dir a)
  unfolding made_directory
  made_directory-Keeps dir (done n) = ret-Triple tt
  made_directory-Keeps dir (errs e) =
      if-Triple (e == eexist) (>>=-Triple (must-Keeps (lstat dir) _ tt) (check_directory-Keeps dir))
        (throw-Triple _)

  pub ensure_parent-Keeps : (o : Option Bytes) → Keeps (ensure_parent os o)
  unfolding ensure_parent
  ensure_parent-Keeps none = ret-Triple tt
  ensure_parent-Keeps (some []) = ret-Triple tt
  ensure_parent-Keeps (some (c ∷ dir)) =
      >>=-Triple (call-Keeps (mkdir (c ∷ dir)) tt) (made_directory-Keeps (c ∷ dir))

  closed_unless-Keeps : (fd : ℕ) (what : Bytes) (a : Answer) → Keeps (closed_unless os fd what a)
  unfolding closed_unless
  closed_unless-Keeps fd what (done n) = ret-Triple tt
  closed_unless-Keeps fd what (errs e) =
      >>=-Triple (call-Keeps (close_fd fd) tt) λ _. throw-Triple _

  or_close-Keeps : (fd : ℕ) (c : Call) (what : Bytes) → IsQuiet c → Keeps (or_close os fd c what)
  unfolding or_close
  or_close-Keeps fd c what q = >>=-Triple (call-Keeps c q) (closed_unless-Keeps fd what)

  only_v6-Keeps : (f : Family) (fd : ℕ) → Keeps (only_v6 os f fd)
  only_v6-Keeps af_inet6 fd = or_close-Keeps fd (v6_only fd) _ tt
  only_v6-Keeps af_inet fd = ret-Triple tt
  only_v6-Keeps af_unspec fd = ret-Triple tt

  bind_one_tcp-Keeps : (addr : TcpAddress) → Keeps (bind_one_tcp os addr)
  unfolding bind_one_tcp
  bind_one_tcp-Keeps addr = >>=-Triple (must-Keeps (socket_tcp addr.family) _ tt) λ fd.
      >>=-Triple (or_close-Keeps fd (reuse_addr fd) _ tt) λ _.
        >>=-Triple (only_v6-Keeps addr.family fd) λ _.
          >>=-Triple (or_close-Keeps fd (bind_tcp fd addr) _ tt)
            λ _. >>=-Triple (or_close-Keeps fd (listen fd) _ tt) λ _. modify-Triple _ (λ s p. p)

  bind_family-Keeps :
      (cfg : Config) (f : Family) (bytes : Bytes) → Keeps (bind_family os cfg f bytes)
  unfolding bind_family
  bind_family-Keeps cfg af_inet bytes = bind_one_tcp-Keeps _
  bind_family-Keeps cfg af_inet6 bytes = bind_one_tcp-Keeps _
  bind_family-Keeps cfg af_unspec bytes = throw-Triple _

  bind_address-Keeps : (cfg : Config) (o : Option ParsedAddr) → Keeps (bind_address os cfg o)
  unfolding bind_address
  bind_address-Keeps cfg none = throw-Triple _
  bind_address-Keeps cfg (some addr) = bind_family-Keeps cfg addr.family addr.address

  pub setup_tcp_listeners-Keeps :
      (inet_pton : InetPton) (cfg : Config) → Keeps (setup_tcp_listeners os inet_pton cfg)
  unfolding setup_tcp_listeners
  setup_tcp_listeners-Keeps inet_pton cfg = if-Triple (cfg.tcp_port == 0) (ret-Triple tt) (
      if-Triple (is_empty cfg.tcp_address)
        (>>=-Triple (bind_one_tcp-Keeps _) λ _. bind_one_tcp-Keeps _) (bind_address-Keeps cfg _))

  open_database-Keeps : (slot : Slot) (path : Bytes) → Keeps (open_database os slot path)
  unfolding open_database
  open_database-Keeps slot path = record {
    ends = λ s p. lasts (mmdb_open path) _ s.trace s.socket_created tt p;
  }

  failing-Keeps : (o : Option Bytes) → Keeps (failing os o)
  failing-Keeps none = ret-Triple tt
  failing-Keeps (some err) = throw-Triple err

  pub open_configured-Keeps : (slot : Slot) (path : Bytes) → Keeps (open_configured os slot path)
  unfolding open_configured
  open_configured-Keeps slot [] = ret-Triple tt
  open_configured-Keeps slot (c ∷ path) =
      >>=-Triple (open_database-Keeps slot (c ∷ path)) failing-Keeps

  pub require_database-Keeps : (b : Bool) → Keeps (require_database os b)
  unfolding require_database
  require_database-Keeps true = ret-Triple tt
  require_database-Keeps false = throw-Triple _

  reload_slot-Keeps : (slot : Slot) (path : Bytes) → Keeps (reload_slot os slot path)
  unfolding reload_slot
  reload_slot-Keeps slot [] = ret-Triple true
  reload_slot-Keeps slot (c ∷ path) =
      >>=-Triple (open_database-Keeps slot (c ∷ path)) λ err. ret-Triple _

  pub reload_times-Keeps : (cfg : Config) (n : ℕ) → Keeps (reload_times os cfg n)
  unfolding reload_times reload_databases
  reload_times-Keeps cfg zero = ret-Triple tt
  reload_times-Keeps cfg (suc n) =
      >>=-Triple
        (>>=-Triple (reload_slot-Keeps country_slot cfg.country_db) λ a.
          >>=-Triple (reload_slot-Keeps asn_slot cfg.asn_db)
            λ b. >>=-Triple (reload_slot-Keeps city_slot cfg.city_db) λ c. ret-Triple _)
        λ _. reload_times-Keeps cfg n

  close_optional-Keeps : (o : Option ℕ) → Keeps (close_optional os o)
  unfolding close_optional
  close_optional-Keeps none = ret-Triple tt
  close_optional-Keeps (some fd) = >>=-Triple (call-Keeps (close_fd fd) tt) λ _. ret-Triple tt

  close_all-Keeps : (fds : List ℕ) → Keeps (close_all os fds)
  unfolding close_all
  close_all-Keeps [] = ret-Triple tt
  close_all-Keeps (fd ∷ fds) = >>=-Triple (call-Keeps (close_fd fd) tt) λ _. close_all-Keeps fds

  pub close_listener-Keeps : Keeps (close_listener os)
  unfolding close_listener
  close_listener-Keeps =
      >>=-Triple (record { ends = λ s p. (close_optional-Keeps s.listen_fd).ends s p })
        λ _. modify-Triple _ (λ s p. p)

  pub close_tcp_listeners-Keeps : Keeps (close_tcp_listeners os)
  unfolding close_tcp_listeners
  close_tcp_listeners-Keeps =
      >>=-Triple (record { ends = λ s p. (close_all-Keeps s.tcp_listen_fds).ends s p })
        λ _. modify-Triple _ (λ s p. p)

  pub close_signals-Keeps : Keeps (close_signals os)
  unfolding close_signals
  close_signals-Keeps =
      >>=-Triple (record { ends = λ s p. (close_optional-Keeps s.signal_fd).ends s p })
        λ _. modify-Triple _ (λ s p. p)

  pub stop_pool-Keeps : Keeps (stop_pool os)
  unfolding stop_pool
  stop_pool-Keeps = modify-Triple _ (λ s p. p)
