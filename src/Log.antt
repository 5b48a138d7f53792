-- ===== src/Log.antt =====
-- src/log.h: the logger. The time stamp is an argument.
pub mod Lines
use nshgeoip.Ip.{c_str}
use nshgeoip.Prelude.{
  if◌then◌else◌, Bytes, codes, streamed, Bool, true, false, not, ◌&&◌, Option, none, some, [], ◌∷◌,
}

pub data LogLevel : Type 0 where
  debug info warn error fatal : LogLevel

pub data Stream : Type 0 where
  to_stdout to_stderr : Stream

pub record Logger : Type 0 where
  pub debug_enabled : Bool

abbrev pub new_logger : Logger
new_logger = record { debug_enabled = false }

abbrev pub set_debug_enabled : Bool → Logger → Logger
set_debug_enabled enabled logger = record logger { debug_enabled = enabled }

unfoldable pub level_name : LogLevel → Bytes
level_name debug = codes "DEBUG"
level_name info = codes "INFO"
level_name warn = codes "WARN"
level_name error = codes "ERROR"
level_name fatal = codes "FATAL"

abbrev is_debug : LogLevel → Bool
is_debug debug = true
is_debug _ = false

abbrev stream_of : LogLevel → Stream
stream_of info = to_stdout
stream_of _ = to_stderr

-- `log`: the stream and the line, if one is written; a NUL in the message ends it.
unfoldable pub log : Logger → Bytes → LogLevel → Bytes → Option (Stream × Bytes)
unfolding level_name
log logger timestamp level msg =
    if is_debug level && not logger.debug_enabled
    then none
    else some (
      stream_of level,
      streamed
          (timestamp ∷ codes " [" ∷ level_name level ∷ codes "] " ∷ c_str msg ∷ codes "\n" ∷ []),
    )
