-- ===== src/Server/Run/Timeout.antt =====
-- The timeout of poll() over the rounds.
use nshgeoip.Prelude.{
  ◌==◌, Bool-cases, is_empty, ℕ, ◌+◌, ◌-◌, ◌*◌, ◌/◌, ◌^◌, ◌≤◌, ◌<◌, ◌≡◌, refl, inl, inr, Bool, true,
  false, List, [], ◌∷◌, ◌++◌, arith,
}
use nshgeoip.Config.Number.{pos}
use nshgeoip.Config.{Config}
use nshgeoip.Config.Bounds.{IsValid}
use nshgeoip.Server.Run.{
  start, to_int, poll_timeout, accept_listeners, on_signal, interval_ns, on_metrics, eintr, round,
  loop, run, Signal, no_signal, other_signal, terminate, hang_up, Polled, Round, poll_fails, polled,
  RunState,
}

-- The steady clock does not go back.
abbrev pub IsSteady : ℕ → List Round → Type 0
IsSteady clock [] = Unit
IsSteady clock (poll_fails e ∷ rounds) = IsSteady clock rounds
IsSteady clock (polled p ∷ rounds) =
    (clock ≤ p.now) × ((p.now ≤ p.now_written) × IsSteady p.now_written rounds)

-- The next write is at most one interval away.
abbrev pub IsNear : Config → RunState → Type 0
IsNear cfg s = s.next_metrics_write ≤ s.clock + interval_ns cfg

on_signal-IsNear :
    (cfg : Config) (g : Signal) (s : RunState) → IsNear cfg s → IsNear cfg (on_signal g s)
unfolding on_signal
on_signal-IsNear cfg no_signal s h = h
on_signal-IsNear cfg other_signal s h = h
on_signal-IsNear cfg terminate s h = h
on_signal-IsNear cfg hang_up s h = h

on_signal-clock : (g : Signal) (s : RunState) → (on_signal g s).clock ≡ s.clock
unfolding on_signal
on_signal-clock no_signal s = refl
on_signal-clock other_signal s = refl
on_signal-clock terminate s = refl
on_signal-clock hang_up s = refl

on_metrics-IsNear :
    (cfg : Config) (now now_written : ℕ) (s : RunState)
    → s.clock ≤ now
    → now ≤ now_written
    → IsNear cfg s
    → IsNear cfg (on_metrics cfg now now_written s)
      × ((on_metrics cfg now now_written s).clock ≤ now_written)
unfolding on_metrics
on_metrics-IsNear cfg now now_written s a b h = ground arith

fails-IsNear :
    (cfg : Config) (e : ℕ) (s : RunState) (clock : ℕ)
    → s.clock ≤ clock
    → IsNear cfg s
    → IsNear cfg (round cfg s (poll_fails e)) × ((round cfg s (poll_fails e)).clock ≤ clock)
unfolding round
fails-IsNear cfg e s clock l h = elim (Bool-cases (e == eintr)) [
  | inl y ↦ rw y (h, l)
  | inr y ↦ rw y (h, l)
]

polled-IsNear :
    (cfg : Config) (p : Polled) (s : RunState) (clock : ℕ)
    → s.clock ≤ clock
    → clock ≤ p.now
    → p.now ≤ p.now_written
    → IsNear cfg s
    → IsNear cfg (round cfg s (polled p)) × ((round cfg s (polled p)).clock ≤ p.now_written)
unfolding round
polled-IsNear cfg p s clock l a b h =
    let t : RunState = record s { submitted = s.submitted ++ accept_listeners p.accepted } in
    on_metrics-IsNear cfg p.now p.now_written (on_signal p.signal t)
      (omega (arith, on_signal-clock p.signal t)) b (on_signal-IsNear cfg p.signal t h)

pub loop-IsNear :
    (cfg : Config) (running : Bool) (rounds : List Round) (s : RunState) (clock : ℕ)
    → s.clock ≤ clock
    → IsSteady clock rounds
    → IsNear cfg s
    → IsNear cfg (loop cfg running s rounds)
unfolding loop
loop-IsNear cfg running [] s clock l st h = h
loop-IsNear cfg false (r ∷ rounds) s clock l st h = h
loop-IsNear cfg true (poll_fails e ∷ rounds) s clock l st h =
    let (n, m) = fails-IsNear cfg e s clock l h in
    loop-IsNear cfg (round cfg s (poll_fails e)).running rounds (round cfg s (poll_fails e)) clock m
      st n
loop-IsNear cfg true (polled p ∷ rounds) s clock l st h =
    let (n, m) = polled-IsNear cfg p s clock l st.0 st.1.0 h in
    loop-IsNear cfg (round cfg s (polled p)).running rounds (round cfg s (polled p)) p.now_written m
      st.1.1 n

to_int_small : (n : ℕ) → n < 2 ^ 31 → to_int n ≡ pos n
unfolding to_int
to_int_small n h = ground arith

-- With a configuration in its ranges and a metrics file, over any rounds with a steady clock: the
-- timeout of the next poll() is the time to the next write in whole milliseconds, 0 if it has come,
-- and never more than one interval; the cast to int loses nothing.
pub poll_timeout_bounds :
    (cfg : Config) (begin : ℕ) (rounds : List Round) (now : ℕ)
    → IsValid cfg
    → is_empty cfg.metrics_file ≡ false
    → IsSteady begin rounds
    → (run cfg begin rounds).clock ≤ now
    → let left = ((run cfg begin rounds).next_metrics_write - now) / 1_000_000 in
      (poll_timeout cfg (run cfg begin rounds).next_metrics_write now ≡ pos left)
      × (left ≤ cfg.metrics_interval_seconds * 1000)
unfolding run start poll_timeout
poll_timeout_bounds cfg begin rounds now v file st l =
    let near = loop-IsNear cfg true rounds (start begin) begin (omega arith) st (omega arith) in
    let bound : ((run cfg begin rounds).next_metrics_write - now) / 1_000_000
        ≤ cfg.metrics_interval_seconds * 1000 =
      omega (arith, near, l) in
    (rw file (to_int_small _ (omega (arith, bound, v.4.1))), bound)
