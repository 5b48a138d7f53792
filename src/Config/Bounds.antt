-- ===== src/Config/Bounds.antt =====
-- The ranges of the numbers in a configuration.
use nshgeoip.Prelude.{
  Bool-cases, All, Bytes, equal, ℕ, ◌≤◌, ◌≡◌, refl, inl, inr, Option, none, some, List, [], ◌∷◌,
  arith,
}
use nshgeoip.Config.Number.{parse_port, parse_ranged_bounds}
use nshgeoip.Config.{
  default_thread_count, default_config, checked, Branch, branches, first_branch, set_key, Config,
  Handled, set, invalid, unknown,
}

-- A TCP port of 0 stands for no TCP listener.
abbrev pub IsValid : Config → Type 0
IsValid cfg =
    (cfg.socket_mode ≤ 4095)
    × ((1 ≤ cfg.threads) × (cfg.threads ≤ 256))
    × ((256 ≤ cfg.max_request_bytes) × (cfg.max_request_bytes ≤ 1048576))
    × (cfg.tcp_port ≤ 65535)
    × ((1 ≤ cfg.metrics_interval_seconds) × (cfg.metrics_interval_seconds ≤ 86400))

pub default_config-IsValid : (detected : ℕ) → IsValid (default_config detected)
unfolding default_config default_thread_count
default_config-IsValid detected = (omega arith, ground arith, omega arith, omega arith, omega arith)

-- A configuration that the branch leaves is valid.
pub data Sets : Handled → Type 0 where
  sets : {c : Config} → IsValid c → Sets (set c)
  refuses : {message : Bytes} → Sets (invalid message)
  ignores : Sets unknown

checked-Sets {ℓ} :
    {A : Type ℓ} (o : Option A) (f : A → Config) (message : Bytes)
    → ((a : A) → o ≡ some a → IsValid (f a))
    → Sets (checked o f message)
unfolding checked
checked-Sets none f message h = refuses
checked-Sets (some a) f message h = sets (h a refl)

branch_keeps :
    All (λ b. (cfg : Config) (value : Bytes) → IsValid cfg → Sets (b.1 cfg value)) branches
unfolding parse_port
branch_keeps = (
  (λ cfg value v. sets v),
  (
    (λ cfg value v. sets v),
    (
      (λ cfg value v. sets v),
      (
        (λ cfg value v. sets v),
        (
          (λ cfg value v.
              checked-Sets _ _ _
                (λ m e. ((parse_ranged_bounds 8 0 4095 value m e).1, v.1, v.2, v.3, v.4))),
          (
            (λ cfg value v.
                checked-Sets _ _ _
                  (λ m e. (v.0, parse_ranged_bounds 10 1 256 value m e, v.2, v.3, v.4))),
            (
              (λ cfg value v.
                  checked-Sets _ _ _
                    (λ m e. (v.0, v.1, parse_ranged_bounds 10 256 1048576 value m e, v.3, v.4))),
              (
                (λ cfg value v. checked-Sets _ _ _ (λ m e. v)),
                (
                  (λ cfg value v.
                      checked-Sets _ _ _ (λ m e.
                        (v.0, v.1, v.2, (parse_ranged_bounds 10 1 65535 value m e).1, v.4))),
                  (
                    (λ cfg value v. sets v),
                    (
                      (λ cfg value v. sets v),
                      (
                        (λ cfg value v. checked-Sets _ _ _ (λ m e.
                            (v.0, v.1, v.2, v.3, parse_ranged_bounds 10 1 86400 value m e))),
                        tt,
                      ),
                    ),
                  ),
                ),
              ),
            ),
          ),
        ),
      ),
    ),
  ),
)

first_branch-Sets :
    (bs : List Branch)
    → All (λ b. (cfg : Config) (value : Bytes) → IsValid cfg → Sets (b.1 cfg value)) bs
    → (key value : Bytes) (cfg : Config) → IsValid cfg
    → Sets (first_branch bs key value cfg)
unfolding first_branch
first_branch-Sets [] h key value cfg v = ignores
first_branch-Sets ((name, f) ∷ bs) h key value cfg v = elim (Bool-cases (equal key name)) [
  | inl e ↦ rw e (h.0 cfg value v)
  | inr e ↦ rw e (first_branch-Sets bs h.1 key value cfg v)
]

pub set_key-IsValid :
    (key value : Bytes) (cfg : Config) → IsValid cfg → Sets (set_key key value cfg)
unfolding set_key
set_key-IsValid key value cfg v = first_branch-Sets branches branch_keeps key value cfg v
