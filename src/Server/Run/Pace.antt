-- ===== src/Server/Run/Pace.antt =====
-- How often the loop of `run` writes the metrics file.
use nshgeoip.Prelude.{
  ◌==◌, Bool-cases, length, ℕ, suc, ◌+◌, ◌*◌, ◌≤◌, ◌≡◌, inl, inr, Bool, true, false, List, [], ◌∷◌,
  ◌++◌, arith,
}
use nshgeoip.Config.{Config}
use nshgeoip.Server.Run.{
  start, accept_listeners, on_signal, interval_ns, on_metrics, eintr, round, loop, run, Signal,
  no_signal, other_signal, terminate, hang_up, Polled, Round, poll_fails, polled, RunState,
}
use nshgeoip.Server.Run.Timeout.{IsSteady, loop-IsNear}

-- The next write is at least one interval after the last for each write so far.
abbrev IsPaced : Config → ℕ → RunState → Type 0
IsPaced cfg begin s = begin + length s.metrics_writes * interval_ns cfg ≤ s.next_metrics_write

on_signal-IsPaced :
    (cfg : Config) (begin : ℕ) (g : Signal) (s : RunState)
    → IsPaced cfg begin s
    → IsPaced cfg begin (on_signal g s)
unfolding on_signal
on_signal-IsPaced cfg begin no_signal s h = h
on_signal-IsPaced cfg begin other_signal s h = h
on_signal-IsPaced cfg begin terminate s h = h
on_signal-IsPaced cfg begin hang_up s h = h

suc-times : (w i : ℕ) → suc w * i ≡ w * i + i
suc-times w i = ground arith

on_metrics-IsPaced :
    (cfg : Config) (begin now now_written : ℕ) (s : RunState)
    → now ≤ now_written
    → IsPaced cfg begin s
    → IsPaced cfg begin (on_metrics cfg now now_written s)
unfolding on_metrics
on_metrics-IsPaced cfg begin now now_written s b h =
    ground (arith, suc-times (length s.metrics_writes) (interval_ns cfg))

fails-IsPaced :
    (cfg : Config) (begin e : ℕ) (s : RunState)
    → IsPaced cfg begin s
    → IsPaced cfg begin (round cfg s (poll_fails e))
unfolding round
fails-IsPaced cfg begin e s h = elim (Bool-cases (e == eintr)) [ inl y ↦ rw y h | inr y ↦ rw y h ]

polled-IsPaced :
    (cfg : Config) (begin : ℕ) (p : Polled) (s : RunState)
    → p.now ≤ p.now_written
    → IsPaced cfg begin s
    → IsPaced cfg begin (round cfg s (polled p))
unfolding round
polled-IsPaced cfg begin p s b h =
    let t : RunState = record s { submitted = s.submitted ++ accept_listeners p.accepted } in
    on_metrics-IsPaced cfg begin p.now p.now_written (on_signal p.signal t) b
      (on_signal-IsPaced cfg begin p.signal t h)

loop-IsPaced :
    (cfg : Config) (begin : ℕ) (running : Bool) (rounds : List Round) (s : RunState) (clock : ℕ)
    → IsSteady clock rounds
    → IsPaced cfg begin s
    → IsPaced cfg begin (loop cfg running s rounds)
unfolding loop
loop-IsPaced cfg begin running [] s clock st h = h
loop-IsPaced cfg begin false (r ∷ rounds) s clock st h = h
loop-IsPaced cfg begin true (poll_fails e ∷ rounds) s clock st h =
    loop-IsPaced cfg begin (round cfg s (poll_fails e)).running rounds (round cfg s (poll_fails e))
      clock st (fails-IsPaced cfg begin e s h)
loop-IsPaced cfg begin true (polled p ∷ rounds) s clock st h =
    loop-IsPaced cfg begin (round cfg s (polled p)).running rounds (round cfg s (polled p))
      p.now_written st.1.1 (polled-IsPaced cfg begin p s st.1.0 h)

-- Over any rounds with a steady clock, however often poll() wakes up: for each write of the metrics
-- file but one, a whole interval has passed since the start.
pub run_paces :
    (cfg : Config) (begin : ℕ) (rounds : List Round)
    → IsSteady begin rounds
    → let s = run cfg begin rounds in
      let interval = cfg.metrics_interval_seconds * 1_000_000_000 in
      begin + length s.metrics_writes * interval ≤ s.clock + interval
unfolding run start
run_paces cfg begin rounds st =
    let near = loop-IsNear cfg true rounds (start begin) begin (omega arith) st (omega arith) in
    let paced = loop-IsPaced cfg begin true rounds (start begin) begin st (omega arith) in
    omega (arith, near, paced)
