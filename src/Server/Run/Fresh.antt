-- ===== src/Server/Run/Fresh.antt =====
-- How old the metrics file gets while the loop of `run` goes round.
use nshgeoip.Prelude.{is_empty, ℕ, ◌+◌, ◌≤◌, ◌<◌, ◌≡◌, Bool, true, false, List, [], ◌∷◌}
use nshgeoip.Config.{Config}
use nshgeoip.Config.Bounds.{IsValid}
use nshgeoip.Server.Run.{interval_ns, Round, poll_fails, polled, RunState}

-- The last write was less than an interval ago.
abbrev pub WrittenWithin : ℕ → ℕ → List ℕ → Type 0
WrittenWithin interval clock [] = ⊥
WrittenWithin interval clock (w ∷ ws) = clock < w + interval

-- poll() has returned in one of the rounds.
abbrev pub has_polled : List Round → Bool
has_polled [] = false
has_polled (poll_fails e ∷ rounds) = has_polled rounds
has_polled (polled p ∷ rounds) = true

-- The next write is due an interval after the last one.
abbrev Follows : ℕ → ℕ → ℕ → List ℕ → Type 0
Follows interval next clock [] = next ≤ clock
Follows interval next clock (w ∷ ws) = (next ≡ w + interval) × (clock < next)

abbrev IsDue : Config → RunState → Type 0
IsDue cfg s = Follows (interval_ns cfg) s.next_metrics_write s.clock s.metrics_writes

module _ (cfg : Config) (v : IsValid cfg) (file : is_empty cfg.metrics_file ≡ false) where
  -- What holds at the start of each round: a write is due, or was the last thing but less than an
  -- interval ago.
  abbrev IsFresh : RunState → Type 0
  IsFresh s = WrittenWithin (interval_ns cfg) s.clock s.metrics_writes
