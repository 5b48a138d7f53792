-- ===== src/Log/Lines.antt =====
-- Log lines read back.
use nshgeoip.Prelude.{
  if◌then◌else◌, All-append, Bytes, codes, Without, split_first-Without, equal, split_first, ◌≡◌,
  refl, sym, ap, ◌∙◌, true, Option, none, some, [], ◌∷◌, ◌++◌, map, append_assoc, arith,
}
use nshgeoip.Ip.Accepts.{c_str_whole}
use nshgeoip.Ip.{c_str}
use nshgeoip.Log.{level_name, log, LogLevel, debug, info, warn, error, fatal, Stream, Logger}
use nshgeoip.Config.File.{getlines}
use nshgeoip.Config.Written.{getlines-append}

unfoldable pub level_named : Bytes → Option LogLevel
level_named s =
    if equal s (codes "DEBUG")
    then some debug
    else if equal s (codes "INFO")
    then some info
    else if equal s (codes "WARN")
    then some warn
    else if equal s (codes "ERROR")
    then some error
    else if equal s (codes "FATAL")
    then some fatal
    else none

-- A line: what stands before the first bracket, the level in brackets, and the message behind the
-- space that follows.
pub data Entry : Type 0 where
  entry : Bytes → LogLevel → Bytes → Entry
  no_entry : Entry

unfoldable pub leveled : Bytes → Option LogLevel → Bytes → Entry
leveled stamp (some level) (c ∷ msg) = entry stamp level msg
leveled stamp _ _ = no_entry

abbrev pub of_name : Bytes → Option (Bytes × Bytes) → Entry
of_name stamp none = no_entry
of_name stamp (some (name, msg)) = leveled stamp (level_named name) msg

abbrev pub of_stamp : Option (Bytes × Bytes) → Entry
of_stamp none = no_entry
of_stamp (some (stamp, rest)) = of_name stamp (split_first b']' rest)

unfoldable pub read_line : Bytes → Entry
read_line l = of_stamp (split_first b'[' l)

abbrev pub texts : Option (Stream × Bytes) → Bytes
texts none = []
texts (some (stream, s)) = s

named_back :
    (stamp : Bytes) (level : LogLevel) (msg : Bytes)
    → of_name stamp (split_first b']' (level_name level ++ (codes "] " ++ msg)))
      ≡ entry stamp level msg
unfolding level_name split_first level_named leveled equal
named_back stamp debug msg = refl
named_back stamp info msg = refl
named_back stamp warn msg = refl
named_back stamp error msg = refl
named_back stamp fatal msg = refl

module _ (timestamp : Bytes) (level : LogLevel) (msg : Bytes) where
  abbrev behind : Bytes
  behind = level_name level ++ (codes "] " ++ msg)

  abbrev line : Bytes
  line = timestamp ++ (codes " [" ++ behind)

  name_line : Without 10 (level_name level)
  unfolding level_name
  name_line = go level
    where
      go : (l : LogLevel) → Without 10 (level_name l)
      go debug = omega arith
      go info = omega arith
      go warn = omega arith
      go error = omega arith
      go fatal = omega arith

  log_text :
      (logger : Logger)
      → (level ≡ debug → logger.debug_enabled ≡ true)
      → Without 0 msg
      → texts (log logger timestamp level msg) ≡ line ++ 10 ∷ []
  unfolding log
  log_text logger d z =
      written level d
      ∙ ap (λ t. timestamp ++ (codes " [" ++ (level_name level ++ (codes "] " ++ (t ++ 10 ∷ [])))))
          (c_str_whole msg z)
      ∙ ends
    where
      written :
          (l : LogLevel)
          → (l ≡ debug → logger.debug_enabled ≡ true)
          → texts (log logger timestamp l msg)
            ≡ timestamp ++ (codes " [" ++ (level_name l ++ (codes "] " ++ (c_str msg ++ 10 ∷ []))))
      written debug e = rw (e refl) refl
      written info e = refl
      written warn e = refl
      written error e = refl
      written fatal e = refl

      ends :
          timestamp ++ (codes " [" ++ (level_name level ++ (codes "] " ++ (msg ++ 10 ∷ []))))
          ≡ line ++ 10 ∷ []
      ends = sym (
          append_assoc timestamp _ (10 ∷ [])
          ∙ ap (λ t. timestamp ++ (codes " [" ++ t)) (append_assoc (level_name level) _ (10 ∷ [])))

  line-read : Without b'[' timestamp → read_line line ≡ entry (timestamp ++ codes " ") level msg
  unfolding read_line
  line-read k =
      ap of_stamp (
        ap (split_first b'[') (sym (append_assoc timestamp (codes " ") (b'[' ∷ behind)))
        ∙ split_first-Without b'[' (timestamp ++ codes " ") behind
            (All-append _ timestamp (codes " ") k (omega arith)))
      ∙ named_back (timestamp ++ codes " ") level msg

-- A message without a line break and without NUL, at a level that is logged, with a time stamp that
-- has neither a line break nor a bracket, is one line from which the level and the message are read
-- back.
pub log-read_line :
    (logger : Logger) (timestamp : Bytes) (level : LogLevel) (msg : Bytes)
    → (level ≡ debug → logger.debug_enabled ≡ true)
    → Without 10 timestamp
    → Without b'[' timestamp
    → Without 10 msg
    → Without 0 msg
    → map read_line (getlines (texts (log logger timestamp level msg)))
      ≡ entry (timestamp ++ codes " ") level msg ∷ []
unfolding getlines
log-read_line logger timestamp level msg d h k m z =
    ap (λ t. map read_line (getlines t)) (log_text timestamp level msg logger d z)
    ∙ ap (map read_line) (
        getlines-append (line timestamp level msg) [] (
          All-append _ timestamp _ h (
            omega arith,
            (
              omega arith,
              All-append _ (level_name level) _ (name_line timestamp level msg)
                  (omega arith, (omega arith, m)),
            ),
          )))
    ∙ ap (λ e. e ∷ []) (line-read timestamp level msg k)
