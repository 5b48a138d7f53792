-- ===== src/Config/File.antt =====
-- src/config.cpp: `load_config`.
use nshgeoip.Prelude.{
  ◌==◌, if◌then◌else◌, Bytes, codes, to_string, split_first, ℕ, suc, Bool, true, Option, none, some,
  List, [], ◌∷◌, ◌++◌,
}
use nshgeoip.Config.Number.{trim}
use nshgeoip.Config.{set_key, Config, Handled, set, invalid, unknown}

-- `cfg` and `warnings` are written as the lines come, also when a later line is refused. A null
-- `warnings` is none.
pub record LoadState : Type 0 where
  pub cfg : Config
  pub warnings : Option (List Bytes)

-- `return true`, or `return false` with `err`.
pub data Loaded : Type 0 where
  loaded : LoadState → Loaded
  refused : LoadState → Bytes → Loaded

abbrev pub state_of : Loaded → LoadState
state_of (loaded s) = s
state_of (refused s err) = s

abbrev pub push_back : Bytes → Option (List Bytes) → Option (List Bytes)
push_back message none = none
push_back message (some ms) = some (ms ++ message ∷ [])

-- The lines that std::getline() gives; a file that ends with a newline has no empty line behind it.
abbrev pub push_front : ℕ → List Bytes → List Bytes
push_front c [] = (c ∷ []) ∷ []
push_front c (line ∷ lines) = (c ∷ line) ∷ lines

unfoldable pub getlines : Bytes → List Bytes
getlines [] = []
getlines (c ∷ cs) = if c == 10 then [] ∷ getlines cs else push_front c (getlines cs)

-- "<path>:<line>: <what>".
abbrev pub at_line : Bytes → ℕ → Bytes → Bytes
at_line path line_no what = path ++ b':' ∷ to_string line_no ++ b':' ∷ b' ' ∷ what

abbrev pub after_key : Bytes → ℕ → Bytes → LoadState → Handled → Loaded
after_key path line_no key s (set cfg) = loaded (record s { cfg = cfg })
after_key path line_no key s (invalid what) = refused s (at_line path line_no what)
after_key path line_no key s unknown = loaded (record s {
  warnings =
      push_back (at_line path line_no (codes "unknown config key '" ++ key ++ codes "'"))
        s.warnings;
})

-- A line that is neither empty nor a comment, split at its first '='.
abbrev pub set_pair : Bytes → ℕ → LoadState → Option (Bytes × Bytes) → Loaded
set_pair path line_no s none = refused s (at_line path line_no (codes "expected key=value"))
set_pair path line_no s (some (before, behind)) =
    let key = trim before in after_key path line_no key s (set_key key (trim behind) s.cfg)

unfoldable pub load_setting : Bytes → ℕ → Bytes → LoadState → Loaded
load_setting path line_no trimmed s = set_pair path line_no s (split_first b'=' trimmed)

-- `trimmed.empty() || trimmed[0] == '#'`.
abbrev pub is_skipped : Bytes → Bool
is_skipped [] = true
is_skipped (c ∷ cs) = c == b'#'

unfoldable pub load_line : Bytes → ℕ → Bytes → LoadState → Loaded
load_line path line_no line s =
    let trimmed = trim line in
    if is_skipped trimmed then loaded s else load_setting path line_no trimmed s

-- `line_no` is the number of lines read.
unfoldable pub load_lines : Bytes → ℕ → List Bytes → LoadState → Loaded
load_lines path line_no [] s = loaded s
load_lines path line_no (line ∷ lines) s = elim (load_line path (suc line_no) line s) [
  | loaded t ↦ load_lines path (suc line_no) lines t
  | refused t err ↦ refused t err
]

-- `file` is what the opened file holds, none if it cannot be opened.
unfoldable pub load_config : Bytes → Option Bytes → LoadState → Loaded
load_config path none s = refused s (codes "cannot open config file: " ++ path)
load_config path (some file) s = load_lines path 0 (getlines file) s
