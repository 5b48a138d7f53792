-- ===== src/Config/Written.antt =====
-- A configuration file that says certain settings, one on a line.
use mathlib.Core.Path.{fun_ext}
use nshgeoip.Prelude.{
  if◌then◌else◌, Bool-cases, length, All, All-append, Bytes, is_empty, Without, split_first-Without,
  ℕ, suc, ◌≤◌, ◌≡◌, refl, sym, ap, ◌∙◌, inl, inr, Bool, true, false, some, List, [], ◌∷◌, ◌++◌,
  arith,
}
use nshgeoip.Config.Number.{is_space, skip_space, drop_space_end, trim}
use nshgeoip.Config.{set_key, Config, Handled, set, invalid, unknown}
use nshgeoip.Config.File.{
  getlines, after_key, load_setting, is_skipped, load_line, load_lines, load_config, LoadState,
  Loaded, loaded, refused,
}
use nshgeoip.Config.Settings.{after_set, set_all}

abbrev pub write_settings : List (Bytes × Bytes) → Bytes
write_settings [] = []
write_settings ((key, value) ∷ rest) = (key ++ b'=' ∷ value) ++ 10 ∷ write_settings rest

-- White space at neither end.
abbrev pub IsTrimmed : Bytes → Type 0
IsTrimmed s = (skip_space s ≡ s) × (drop_space_end s ≡ s)

-- The key is not empty, does not start with '#' and holds no '='; neither part holds a newline.
abbrev pub IsSetting : Bytes × Bytes → Type 0
IsSetting (key, value) =
    IsTrimmed key
    × IsTrimmed value
    × (is_skipped key ≡ false)
    × Without b'=' key
    × Without 10 key
    × Without 10 value

pub getlines-append :
    (a rest : Bytes) → Without 10 a → getlines (a ++ 10 ∷ rest) ≡ a ∷ getlines rest
unfolding getlines
getlines-append [] rest h = refl
getlines-append (c ∷ a) rest h = ground (arith, getlines-append a rest h.1)

trim-IsTrimmed : (s : Bytes) → IsTrimmed s → trim s ≡ s
unfolding trim
trim-IsTrimmed s h = ap drop_space_end h.0 ∙ h.1

drop_space_end-pair :
    (key value : Bytes)
    → drop_space_end value ≡ value
    → drop_space_end (key ++ b'=' ∷ value) ≡ key ++ b'=' ∷ value
drop_space_end-pair [] value h =
    rw h (elim (Bool-cases (is_empty value)) [ inl e ↦ rw e refl | inr e ↦ rw e refl ])
drop_space_end-pair (c ∷ []) value h = rw (drop_space_end-pair [] value h) refl
drop_space_end-pair (c ∷ d ∷ key) value h = rw (drop_space_end-pair (d ∷ key) value h) refl

skip_space_shortens : (s : Bytes) → length (skip_space s) ≤ length s
skip_space_shortens [] = omega arith
skip_space_shortens (c ∷ s) = ground (arith, skip_space_shortens s)

skip_space-first : (c : ℕ) (s : Bytes) → skip_space (c ∷ s) ≡ c ∷ s → is_space c ≡ false
skip_space-first c s h = elim (Bool-cases (is_space c)) [
  | inl e ↦ absurd (
      omega (
        arith,
        skip_space_shortens s,
        ap length (ap (λ b. if b then skip_space s else c ∷ s) (sym e) ∙ h),
      ))
  | inr e ↦ e
]

skip_space-pair :
    (key rest : Bytes)
    → skip_space key ≡ key
    → is_skipped key ≡ false
    → skip_space (key ++ rest) ≡ key ++ rest
skip_space-pair [] rest h k = cc
skip_space-pair (c ∷ key) rest h k = rw (skip_space-first c key h) refl

is_skipped-pair : (key rest : Bytes) → is_skipped key ≡ false → is_skipped (key ++ rest) ≡ false
is_skipped-pair [] rest k = cc
is_skipped-pair (c ∷ key) rest k = k

Without-pair :
    (key value : Bytes) → Without 10 key → Without 10 value → Without 10 (key ++ b'=' ∷ value)
Without-pair key value h k = All-append _ key (b'=' ∷ value) h ((omega arith), k)

abbrev after_loaded : Loaded → (LoadState → Config × Bool) → Config × Bool
after_loaded (loaded t) k = k t
after_loaded (refused t err) k = (t.cfg, false)

abbrev pub outcome_of : Loaded → Config × Bool
outcome_of r = after_loaded r (λ t. (t.cfg, true))

after_key-setting :
    (path : Bytes) (line_no : ℕ) (key : Bytes) (s : LoadState) (h : Handled)
    (k : Config → Config × Bool)
    → after_loaded (after_key path line_no key s h) (λ t. k t.cfg) ≡ after_set s.cfg h k
after_key-setting path line_no key s (set c) k = refl
after_key-setting path line_no key s (invalid message) k = refl
after_key-setting path line_no key s unknown k = refl

load_line-setting :
    (path : Bytes) (line_no : ℕ) (key value : Bytes) (s : LoadState)
    → IsSetting (key, value)
    → load_line path line_no (key ++ b'=' ∷ value) s
      ≡ after_key path line_no key s (set_key key value s.cfg)
unfolding load_line load_setting
load_line-setting path line_no key value s (k, v, skipped, eq, _, _) =
    rw
      (
        trim-IsTrimmed (key ++ b'=' ∷ value)
            (skip_space-pair key _ k.0 skipped, drop_space_end-pair key value v.1),
        is_skipped-pair key (b'=' ∷ value) skipped,
        split_first-Without b'=' key value eq,
        trim-IsTrimmed key k,
        trim-IsTrimmed value v,
      )
      refl

load_lines_cons :
    (path : Bytes) (line_no : ℕ) (line : Bytes) (lines : List Bytes) (s : LoadState)
    → outcome_of (load_lines path line_no (line ∷ lines) s)
      ≡ after_loaded
          (load_line path (suc line_no) line s)
          (λ t. outcome_of (load_lines path (suc line_no) lines t))
unfolding load_lines
load_lines_cons path line_no line lines s = go (load_line path (suc line_no) line s)
  where
    go :
        (r : Loaded)
        → outcome_of (elim r [
          | loaded t ↦ load_lines path (suc line_no) lines t
          | refused t err ↦ refused t err
        ])
          ≡ after_loaded r (λ t. outcome_of (load_lines path (suc line_no) lines t))
    go (loaded t) = refl
    go (refused t err) = refl

load_lines-settings :
    (path : Bytes) (line_no : ℕ) (ps : List (Bytes × Bytes))
    → All IsSetting ps
    → (s : LoadState)
    → outcome_of (load_lines path line_no (getlines (write_settings ps)) s) ≡ set_all ps s.cfg
unfolding load_lines getlines set_all
load_lines-settings path line_no [] h s = refl
load_lines-settings path line_no ((key, value) ∷ ps) h s =
    rw
      (getlines-append (key ++ b'=' ∷ value) (write_settings ps)
        (Without-pair key value h.0.4 h.0.5))
      (load_lines_cons path line_no (key ++ b'=' ∷ value) (getlines (write_settings ps)) s
        ∙ ap (after_loaded (load_line path (suc line_no) (key ++ b'=' ∷ value) s))
            (fun_ext (load_lines-settings path (suc line_no) ps h.1))
        ∙ ap (λ r. after_loaded r (λ t. set_all ps t.cfg))
            (load_line-setting path (suc line_no) key value s h.0)
        ∙ after_key-setting path (suc line_no) key s _ (set_all ps))

-- A file that holds settings, one on a line as key=value (both without white space at their ends and
-- without newline, the key neither empty, nor starting with '#', nor with '=' in it), is read as those
-- settings in order: the same configuration comes out, also when a value is refused, and the same
-- values are refused.
pub load_config-settings :
    (path : Bytes) (ps : List (Bytes × Bytes)) (s : LoadState)
    → All IsSetting ps
    → outcome_of (load_config path (some (write_settings ps)) s) ≡ set_all ps s.cfg
unfolding load_config
load_config-settings path ps s h = load_lines-settings path 0 ps h s
