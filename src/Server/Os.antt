-- ===== src/Server/Os.antt =====
-- What src/server.cpp asks of the operating system, and the state of `Server`. Every answer may
-- depend on all calls so far; the calls are kept, newest first, with their answers.
pub mod Rules
pub mod Held
use nshgeoip.Prelude.{◌==◌, Bytes, ℕ, ◌/◌, ◌%◌, Bool, true, false, Option, none, List, [], ◌∷◌}
use nshgeoip.Ip.{Family}
use nshgeoip.External.{OpenResult}
use nshgeoip.Geoip.{no_databases, GeoIpDatabases}
use nshgeoip.Pool.{ThreadPool}

-- An address with its port, in host order.
pub record TcpAddress : Type 0 where
  pub family : Family
  pub address : Bytes
  pub port : ℕ

pub data Call : Type 0 where
  -- sigprocmask(SIG_BLOCK) and signalfd() for a set of signals.
  block_signals signalfd : List ℕ → Call
  -- socket(); the flag is SOCK_NONBLOCK.
  socket_unix : Bool → Call
  socket_tcp : Family → Call
  connect_unix : ℕ → Bytes → Call
  bind_unix : ℕ → Bytes → Call
  bind_tcp : ℕ → TcpAddress → Call
  -- setsockopt(): SO_REUSEADDR and IPV6_V6ONLY.
  reuse_addr v6_only : ℕ → Call
  listen close_fd : ℕ → Call
  mkdir lstat access_write unlink : Bytes → Call
  chmod : Bytes → ℕ → Call
  mmdb_open : Bytes → Call

-- The result of a call (the mode, for lstat), or errno.
pub data Answer : Type 0 where
  done : ℕ → Answer
  errs : ℕ → Answer

abbrev pub Trace : Type 0
Trace = List (Call × Answer)

pub record Os (Handle : Type 0) : Type 0 where
  pub answer : Trace → Call → Answer
  pub open_db : Trace → Bytes → OpenResult Handle
  pub strerror : ℕ → Bytes

-- The members of `Server`; `none` stands for a descriptor of -1 and for a null `pool_`.
pub record ServerState (Handle : Type 0) : Type 0 where
  pub listen_fd : Option ℕ
  pub tcp_listen_fds : List ℕ
  pub signal_fd : Option ℕ
  pub socket_created : Bool
  pub db : GeoIpDatabases Handle
  pub pool : Option ThreadPool
  pub trace : Trace

abbrev pub initial_server : {Handle : Type 0} → ServerState Handle
initial_server = record {
  listen_fd = none;
  tcp_listen_fds = [];
  signal_fd = none;
  socket_created = false;
  db = no_databases;
  pool = none;
  trace = [];
}

-- A function that returns true, or false with `err`.
pub data Result (A : Type 0) : Type 0 where
  returns : A → Result A
  throws : Bytes → Result A

abbrev pub eexist : ℕ
eexist = 17

abbrev pub enoent : ℕ
enoent = 2

-- S_ISSOCK and S_ISDIR.
abbrev pub is_socket : ℕ → Bool
is_socket mode = mode / 4096 % 16 == 12

abbrev pub is_directory : ℕ → Bool
is_directory mode = mode / 4096 % 16 == 4

abbrev pub is_done : Answer → Bool
is_done (done n) = true
is_done (errs e) = false

-- The functions over a state that may end with an error.
abbrev pub M : Type 0 → Type 0 → Type 0
M S A = S → Result A × S

abbrev pub bind_result : {S A B : Type 0} → Result A × S → (A → M S B) → Result B × S
bind_result (returns a, s) f = f a s
bind_result (throws err, s) f = (throws err, s)

infixl 5 ◌>>=◌ ◌>>◌
unfoldable pub ◌>>=◌ : {S A B : Type 0} → M S A → (A → M S B) → M S B
◌>>=◌ m f s = bind_result (m s) f

abbrev pub ◌>>◌ : {S A B : Type 0} → M S A → M S B → M S B
m >> k = m >>= λ _. k

unfoldable pub ret : {S A : Type 0} → A → M S A
ret a s = (returns a, s)

unfoldable pub throw : {S A : Type 0} → Bytes → M S A
throw err s = (throws err, s)

unfoldable pub modify : {S : Type 0} → (S → S) → M S (Unit {0})
modify f s = (returns tt, f s)

module _ {Handle : Type 0} (os : Os Handle) where
  unfoldable pub call : Call → M (ServerState Handle) Answer
  call c s = let a = os.answer s.trace c in (returns a, record s { trace = (c, a) ∷ s.trace })

  abbrev pub require : (Bytes → Bytes) → Answer → M (ServerState Handle) ℕ
  require message (done n) = ret n
  require message (errs e) = throw (message (os.strerror e))

  -- A call whose failure ends the function with `err`.
  unfoldable pub must : Call → (Bytes → Bytes) → M (ServerState Handle) ℕ
  must c message = call c >>= require message
