-- ===== src/Server/Listen.antt =====
-- src/server.cpp: `setup_signals`, `path_has_live_listener`, `ensure_socket_directory`,
-- `setup_socket`, `bind_one_tcp` and `setup_tcp_listeners`.
pub mod Descriptors
pub mod Members
pub mod Ran
use nshgeoip.Prelude.{
  leb, ◌==◌, if◌then◌else◌, length, Bytes, codes, is_empty, ℕ, ◌%◌, Bool, true, false, Option, none,
  some, List, [], ◌∷◌, ◌++◌,
}
use nshgeoip.Ip.{
  InetPton, c_str, parse_ip_address, Family, af_unspec, af_inet, af_inet6, ParsedAddr,
}
use nshgeoip.Config.{Config}
use nshgeoip.Server.Os.{
  eexist, enoent, is_socket, is_directory, is_done, M, ◌>>=◌, ◌>>◌, ret, throw, modify, call, must,
  TcpAddress, Call, block_signals, signalfd, socket_unix, socket_tcp, connect_unix, bind_unix,
  bind_tcp, reuse_addr, v6_only, listen, close_fd, mkdir, lstat, access_write, unlink, chmod,
  Answer, done, errs, Os, ServerState,
}
use nshgeoip.Server.Write.{take}

-- `strncpy` into `sun_path`, with room for the NUL.
unfoldable pub sun_path : Bytes → Bytes
sun_path path = take 107 (c_str path)

abbrev pub sun_path_size : ℕ
sun_path_size = 108

-- `find_last_of(c)`: the text before the last `c`.
unfoldable pub before_last : ℕ → Bytes → Option Bytes
before_last c [] = none
before_last c (x ∷ xs) = elim (before_last c xs) [
  | some p ↦ some (x ∷ p)
  | none ↦ if x == c then some [] else none
]

-- The set `mask`: SIGTERM, SIGINT and SIGHUP.
abbrev pub shutdown_signals : List ℕ
shutdown_signals = 15 ∷ 2 ∷ 1 ∷ []

abbrev explain : Bytes → Bytes → Bytes
explain what why = what ++ b':' ∷ b' ' ∷ why

-- 127.0.0.1 and ::1.
abbrev pub loopback4 : Bytes
loopback4 = 127 ∷ 0 ∷ 0 ∷ 1 ∷ []

abbrev pub loopback6 : Bytes
loopback6 = 0 ∷ 0 ∷ 0 ∷ 0 ∷ 0 ∷ 0 ∷ 0 ∷ 0 ∷ 0 ∷ 0 ∷ 0 ∷ 0 ∷ 0 ∷ 0 ∷ 0 ∷ 1 ∷ []

module _ {Handle : Type 0} (os : Os Handle) where
  unfoldable pub setup_signals : M (ServerState Handle) (Unit {0})
  setup_signals = do
    must os (block_signals shutdown_signals) (explain (codes "sigprocmask() failed"))
    fd ← must os (signalfd shutdown_signals) (explain (codes "signalfd() failed"))
    modify (λ s. record s { signal_fd = some fd })

  unfoldable pub probe : Bytes → Answer → M (ServerState Handle) Bool
  probe path (errs e) = ret false
  probe path (done fd) = do
    rc ← call os (connect_unix fd (sun_path path))
    call os (close_fd fd)
    ret (is_done rc)

  unfoldable pub path_has_live_listener : Bytes → M (ServerState Handle) Bool
  unfolding probe
  path_has_live_listener path = call os (socket_unix false) >>= probe path

  -- The text behind the first colon of the error for a directory that cannot be made.
  abbrev mkdir_failed : Bytes → Bytes → Bytes
  mkdir_failed dir why =
      codes "failed to create socket directory '"
      ++ dir
      ++ codes "': "
      ++ why
      ++ codes
          " (if running under systemd, set RuntimeDirectory=nshgeoip; otherwise create it manually, e.g. 'mkdir -p "
      ++ dir
      ++ codes "')"

  -- What is there already: its mode.
  unfoldable pub check_directory : Bytes → ℕ → M (ServerState Handle) (Unit {0})
  check_directory dir mode =
      if is_directory mode
      then must os (access_write dir) (λ why.
        codes "socket directory '" ++ dir ++ codes "' exists but is not writable: " ++ why)
        >> ret tt
      else throw (codes "socket directory path '" ++ dir ++ codes "' exists but is not a directory")

  -- Behind mkdir().
  unfoldable pub made_directory : Bytes → Answer → M (ServerState Handle) (Unit {0})
  unfolding check_directory
  made_directory dir (done n) = ret tt
  made_directory dir (errs e) =
      if e == eexist
      then must os (lstat dir)
          (λ why. codes "failed to stat socket directory '" ++ dir ++ codes "': " ++ why)
        >>= check_directory dir
      else throw (mkdir_failed dir (os.strerror e))

  -- The parent directory of the socket, if it has one that is not the root.
  unfoldable pub ensure_parent : Option Bytes → M (ServerState Handle) (Unit {0})
  unfolding made_directory
  ensure_parent none = ret tt
  ensure_parent (some []) = ret tt
  ensure_parent (some (c ∷ dir)) = call os (mkdir (c ∷ dir)) >>= made_directory (c ∷ dir)

  unfoldable pub ensure_socket_directory : Bytes → M (ServerState Handle) (Unit {0})
  unfolding ensure_parent
  ensure_socket_directory socket_path = ensure_parent (before_last b'/' socket_path)

  unfoldable pub remove_stale : Bytes → Bool → M (ServerState Handle) (Unit {0})
  remove_stale path true = throw (
      codes "another process is already listening on "
      ++ path
      ++ codes
          " -- refusing to remove its socket. Stop that instance first, or configure a different socket= path.")
  remove_stale path false =
      must os (unlink path) (explain (codes "failed to remove stale socket " ++ path)) >> ret tt

  -- Behind lstat() on the socket's path.
  unfoldable pub clear_path : Bytes → Answer → M (ServerState Handle) (Unit {0})
  unfolding remove_stale
  clear_path path (errs e) =
      if e == enoent
      then ret tt
      else throw (codes "failed to stat socket path " ++ path ++ codes ": " ++ os.strerror e)
  clear_path path (done mode) =
      if is_socket mode
      then path_has_live_listener path >>= remove_stale path
      else throw (codes "refusing to remove non-socket file at " ++ path)

  unfoldable pub bind_socket : Bytes → ℕ → ℕ → M (ServerState Handle) (Unit {0})
  bind_socket path mode fd = do
    must os (bind_unix fd (sun_path path)) (explain (codes "bind(" ++ path ++ codes ") failed"))
    modify (λ s. record s { socket_created = true })
    must os (chmod path mode) (explain (codes "chmod(" ++ path ++ codes ") failed"))
    must os (listen fd) (explain (codes "listen() failed"))
    ret tt

  unfoldable pub bind_checked : Config → ℕ → M (ServerState Handle) (Unit {0})
  unfolding bind_socket
  bind_checked cfg fd =
      if leb sun_path_size (length cfg.socket_path)
      then throw (codes "socket path too long: " ++ cfg.socket_path)
      else bind_socket cfg.socket_path cfg.socket_mode fd

  unfoldable pub setup_socket : Config → M (ServerState Handle) (Unit {0})
  unfolding clear_path bind_checked
  setup_socket cfg = do
    ensure_socket_directory cfg.socket_path
    there ← call os (lstat cfg.socket_path)
    clear_path cfg.socket_path there
    fd ← must os (socket_unix true) (explain (codes "socket() failed"))
    modify (λ s. record s { listen_fd = some fd })
    bind_checked cfg fd

  -- A call on the new socket: if it fails, the socket is closed.
  unfoldable pub closed_unless : ℕ → Bytes → Answer → M (ServerState Handle) (Unit {0})
  closed_unless fd what (done n) = ret tt
  closed_unless fd what (errs e) = call os (close_fd fd) >> throw (explain what (os.strerror e))

  unfoldable pub or_close : ℕ → Call → Bytes → M (ServerState Handle) (Unit {0})
  unfolding closed_unless
  or_close fd c what = call os c >>= closed_unless fd what

  abbrev pub only_v6 : Family → ℕ → M (ServerState Handle) (Unit {0})
  only_v6 af_inet6 fd = or_close fd (v6_only fd) (codes "setsockopt(IPV6_V6ONLY) failed")
  only_v6 _ fd = ret tt

  unfoldable pub bind_one_tcp : TcpAddress → M (ServerState Handle) (Unit {0})
  bind_one_tcp addr = do
    fd ← must os (socket_tcp addr.family) (explain (codes "socket() failed for TCP listener"))
    or_close fd (reuse_addr fd) (codes "setsockopt(SO_REUSEADDR) failed")
    only_v6 addr.family fd
    or_close fd (bind_tcp fd addr) (codes "bind() failed for TCP listener")
    or_close fd (listen fd) (codes "listen() failed for TCP listener")
    modify (λ s. record s { tcp_listen_fds = s.tcp_listen_fds ++ fd ∷ [] })

  -- The port is cast to uint16_t.
  abbrev at_port : Config → Family → Bytes → TcpAddress
  at_port cfg family bytes = record {
    family = family;
    address = bytes;
    port = cfg.tcp_port % 65536;
  }

  -- The branches on the family of the configured address.
  unfoldable pub bind_family : Config → Family → Bytes → M (ServerState Handle) (Unit {0})
  bind_family cfg af_inet bytes = bind_one_tcp (at_port cfg af_inet bytes)
  bind_family cfg af_inet6 bytes = bind_one_tcp (at_port cfg af_inet6 bytes)
  bind_family cfg af_unspec bytes =
      throw (codes "unsupported address family for tcp_address: " ++ cfg.tcp_address)

  unfoldable pub bind_address : Config → Option ParsedAddr → M (ServerState Handle) (Unit {0})
  unfolding bind_family
  bind_address cfg none = throw (codes "invalid tcp_address: " ++ cfg.tcp_address)
  bind_address cfg (some addr) = bind_family cfg addr.family addr.address

  unfoldable pub setup_tcp_listeners : InetPton → Config → M (ServerState Handle) (Unit {0})
  unfolding bind_address
  setup_tcp_listeners inet_pton cfg =
      if cfg.tcp_port == 0
      then ret tt
      else if is_empty cfg.tcp_address
      then bind_one_tcp (at_port cfg af_inet loopback4)
        >> bind_one_tcp (at_port cfg af_inet6 loopback6)
      else bind_address cfg (parse_ip_address inet_pton cfg.tcp_address)
