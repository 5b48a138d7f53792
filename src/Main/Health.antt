-- ===== src/Main/Health.antt =====
-- src/main.cpp: `check_health`. What the system calls return is an argument.
pub mod Answered
use nshgeoip.Prelude.{
  leb, ◌==◌, if◌then◌else◌, length, Bytes, codes, starts_with, to_string, ℕ, not, [], ◌∷◌, ◌++◌,
}

-- socket(), connect() and write(): success, or the text of strerror(errno).
pub data Called : Type 0 where
  succeeds : Called
  errs : Bytes → Called

-- read() into 63 bytes: the bytes, none at the end of the stream, or an error.
pub data ReadCall : Type 0 where
  gets : Bytes → ReadCall
  read_errs : Bytes → ReadCall

pub data Health : Type 0 where
  healthy : Health
  unhealthy : Bytes → Health

-- What the client meets, in order; a call after a failed one is not made.
pub record Peer : Type 0 where
  pub socketed : Called
  pub connected : Called
  pub written : Called
  pub answer : ReadCall

-- `kRequest`.
abbrev pub health_request : Bytes
health_request = codes "GET /health HTTP/1.1\r\nHost: localhost\r\nConnection: close\r\n\r\n"

-- `sizeof(addr.sun_path)` on Linux.
abbrev pub sun_path_size : ℕ
sun_path_size = 108

-- Up to a NUL, which ends a C string.
abbrev pub before_nul : Bytes → Bytes
before_nul [] = []
before_nul (c ∷ s) = if c == 0 then [] else c ∷ before_nul s

-- `substr(0, find("\r\n"))`.
abbrev pub first_line : Bytes → Bytes
first_line [] = []
first_line (c ∷ s) = if starts_with (13 ∷ 10 ∷ []) (c ∷ s) then [] else c ∷ first_line s

unfoldable pub judge : ReadCall → Health
judge (read_errs why) = unhealthy (codes "read failed: " ++ why)
judge (gets []) = unhealthy (codes "connection closed with no response")
judge (gets (c ∷ buf)) =
    if starts_with (codes "HTTP/1.1 200") (before_nul (c ∷ buf))
    then healthy
    else unhealthy (codes "unexpected response: " ++ first_line (before_nul (c ∷ buf)))

unfoldable pub exchange : Called → ReadCall → Health
unfolding judge
exchange (errs why) answer = unhealthy (codes "write failed: " ++ why)
exchange succeeds answer = judge answer

unfoldable pub connect_to : Bytes → Peer → Called → Health
unfolding exchange
connect_to target p (errs why) =
    unhealthy (codes "connect to " ++ target ++ codes " failed: " ++ why)
connect_to target p succeeds = exchange p.written p.answer

unfoldable pub open_socket : Bytes → ℕ → Peer → Called → Health
unfolding connect_to
open_socket socket_path tcp_port p (errs why) = unhealthy (codes "socket() failed: " ++ why)
open_socket socket_path tcp_port p succeeds =
    if not (tcp_port == 0)
    then connect_to (codes "127.0.0.1:" ++ to_string tcp_port) p p.connected
    else if leb sun_path_size (length socket_path)
    then unhealthy (codes "socket path too long: " ++ socket_path)
    else connect_to socket_path p p.connected

unfoldable pub check_health : Bytes → ℕ → Peer → Health
unfolding open_socket
check_health socket_path tcp_port p = open_socket socket_path tcp_port p p.socketed
