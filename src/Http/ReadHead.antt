-- ===== src/Http/ReadHead.antt =====
-- src/http.cpp, `read_http_head`: the receive loop. What the kernel answers is a list of events,
-- one for each round; poll() and recv() of the source are read off them.
pub mod Outcome
use nshgeoip.Prelude.{
  ltb, if◌then◌else◌, length, Bytes, contains, ℕ, Option, none, some, List, [], ◌∷◌, ◌++◌,
}

pub data ReadResult : Type 0 where
  ok too_large connection_closed timeout io_error : ReadResult

-- One round: the clock is past the deadline, or poll() times out; poll() or recv() is interrupted
-- (EINTR) or fails otherwise; recv() returns 0; recv() returns `n > 0` bytes.
pub data Event : Type 0 where
  expires interrupted fails closes : Event
  receives : Bytes → Event

-- `out.find("\r\n\r\n") != npos`.
abbrev pub head_end : Bytes
head_end = 13 ∷ 10 ∷ 13 ∷ 10 ∷ []

-- The result and the text in `out`; with no event left the loop still waits.
unfoldable pub read_from : ℕ → Bytes → List Event → Option (ReadResult × Bytes)
read_from max_bytes out [] = none
read_from max_bytes out (expires ∷ es) = some (timeout, out)
read_from max_bytes out (interrupted ∷ es) = read_from max_bytes out es
read_from max_bytes out (fails ∷ es) = some (io_error, out)
read_from max_bytes out (closes ∷ es) = some (connection_closed, out)
read_from max_bytes out (receives buf ∷ es) =
    let more = read_from max_bytes (out ++ buf) es in
    if ltb max_bytes (length (out ++ buf))
    then some (too_large, out ++ buf)
    else if contains head_end (out ++ buf)
    then some (ok, out ++ buf)
    else more

unfoldable pub read_http_head : ℕ → List Event → Option (ReadResult × Bytes)
unfolding read_from
read_http_head max_bytes events = read_from max_bytes [] events
