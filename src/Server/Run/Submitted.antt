-- ===== src/Server/Run/Submitted.antt =====
-- What the loop of `run` submits to the pool.
use nshgeoip.Prelude.{
  leb, ◌==◌, if◌then◌else◌, Bool-cases, is_empty, ℕ, ◌≡◌, refl, sym, ap, ◌∙◌, inl, inr, Bool, true,
  false, not, ◌&&◌, List, [], ◌∷◌, ◌++◌, append-nil, append_assoc,
}
use nshgeoip.Config.{Config}
use nshgeoip.Server.Run.{
  start, accept_all, accept_listeners, on_signal, on_metrics, eintr, round, loop, run, Accept,
  accepts, accept_fails, Signal, no_signal, other_signal, terminate, hang_up, Polled, Round,
  poll_fails, polled, RunState,
}

-- The rounds that come about: up to the one in which SIGTERM or SIGINT is read, or until poll() fails
-- for another reason than EINTR, which is 4.
abbrev goes_on : Signal → Bool
goes_on terminate = false
goes_on _ = true

abbrev pub begun : List Round → List Round
begun [] = []
begun (poll_fails e ∷ rounds) = let later = begun rounds in if e == 4 then later else []
begun (polled p ∷ rounds) =
    let later = begun rounds in polled p ∷ (if goes_on p.signal then later else [])

-- The results of accept4() on one listener hold these descriptors: those before the first failure,
-- behind which there is no call, whatever their numbers.
pub data Accepted : List Accept → List ℕ → Type 0 where
  none_left : Accepted [] []
  failing : (e : ℕ) (results : List Accept) → Accepted (accept_fails e ∷ results) []
  accepting :
      (fd : ℕ) {results : List Accept} {fds : List ℕ}
      → Accepted results fds
      → Accepted (accepts fd ∷ results) (fd ∷ fds)

pub data AcceptedOn : List (List Accept) → List ℕ → Type 0 where
  no_listeners : AcceptedOn [] []
  listener :
      {results : List Accept} {listeners : List (List Accept)} {fds more : List ℕ}
      → Accepted results fds
      → AcceptedOn listeners more
      → AcceptedOn (results ∷ listeners) (fds ++ more)

-- accept4() returns these descriptors in the rounds, in order.
pub data Returned : List Round → List ℕ → Type 0 where
  no_rounds : Returned [] []
  interrupted :
      (e : ℕ) {rounds : List Round} {fds : List ℕ}
      → Returned rounds fds
      → Returned (poll_fails e ∷ rounds) fds
  returning :
      (p : Polled) {rounds : List Round} {fds more : List ℕ}
      → AcceptedOn p.accepted fds
      → Returned rounds more
      → Returned (polled p ∷ rounds) (fds ++ more)

accept_all-Accepted :
    {results : List Accept} {fds : List ℕ} → Accepted results fds → accept_all results ≡ fds
unfolding accept_all
accept_all-Accepted none_left = refl
accept_all-Accepted (failing e results) = refl
accept_all-Accepted (accepting fd h) = ap (λ fds. fd ∷ fds) (accept_all-Accepted h)

accept_listeners-AcceptedOn :
    {listeners : List (List Accept)} {fds : List ℕ}
    → AcceptedOn listeners fds
    → accept_listeners listeners ≡ fds
unfolding accept_listeners
accept_listeners-AcceptedOn no_listeners = refl
accept_listeners-AcceptedOn (listener {listeners} {fds} h hs) =
    ap (λ t. t ++ accept_listeners listeners) (accept_all-Accepted h)
    ∙ ap (λ t. fds ++ t) (accept_listeners-AcceptedOn hs)

-- The descriptors as the program takes them.
abbrev returned : List Round → List ℕ
returned [] = []
returned (poll_fails e ∷ rounds) = returned rounds
returned (polled p ∷ rounds) = accept_listeners p.accepted ++ returned rounds

returned-Returned :
    {rounds : List Round} {fds : List ℕ} → Returned rounds fds → returned rounds ≡ fds
returned-Returned no_rounds = refl
returned-Returned (interrupted e h) = returned-Returned h
returned-Returned (returning p {rounds} {fds} a h) =
    ap (λ t. t ++ returned rounds) (accept_listeners-AcceptedOn a)
    ∙ ap (λ t. fds ++ t) (returned-Returned h)

on_signal-running :
    (g : Signal) (s : RunState) → s.running ≡ true → (on_signal g s).running ≡ goes_on g
unfolding on_signal
on_signal-running no_signal s e = e
on_signal-running other_signal s e = e
on_signal-running terminate s e = refl
on_signal-running hang_up s e = e

on_signal-submitted : (g : Signal) (s : RunState) → (on_signal g s).submitted ≡ s.submitted
unfolding on_signal
on_signal-submitted no_signal s = refl
on_signal-submitted other_signal s = refl
on_signal-submitted terminate s = refl
on_signal-submitted hang_up s = refl

on_metrics-keeps :
    (cfg : Config) (now now_written : ℕ) (s : RunState)
    → ((on_metrics cfg now now_written s).running ≡ s.running)
      × ((on_metrics cfg now now_written s).submitted ≡ s.submitted)
unfolding on_metrics
on_metrics-keeps cfg now now_written s =
    elim (Bool-cases (not (is_empty cfg.metrics_file) && leb s.next_metrics_write now)) [
      | inl e ↦ rw e (refl, refl)
      | inr e ↦ rw e (refl, refl)
    ]

module _ (cfg : Config) (s : RunState) (p : Polled) (e : s.running ≡ true) where
  with_accepted : RunState
  with_accepted = record s { submitted = s.submitted ++ accept_listeners p.accepted }

  round-running : (round cfg s (polled p)).running ≡ goes_on p.signal
  unfolding round with_accepted
  round-running =
      (on_metrics-keeps cfg p.now p.now_written (on_signal p.signal with_accepted)).0
      ∙ on_signal-running p.signal with_accepted e

  round-submitted : (round cfg s (polled p)).submitted ≡ s.submitted ++ accept_listeners p.accepted
  unfolding round with_accepted
  round-submitted =
      (on_metrics-keeps cfg p.now p.now_written (on_signal p.signal with_accepted)).1
      ∙ on_signal-submitted p.signal with_accepted

round-poll_fails :
    (cfg : Config) (s : RunState) (n : ℕ)
    → round cfg s (poll_fails n) ≡ (if n == eintr then s else record s { running = false })
unfolding round
round-poll_fails cfg s n = refl

loop-false : (cfg : Config) (s : RunState) (rounds : List Round) → loop cfg false s rounds ≡ s
unfolding loop
loop-false cfg s [] = refl
loop-false cfg s (r ∷ rounds) = refl

loop-submitted :
    (cfg : Config) (s : RunState) (rounds : List Round)
    → s.running ≡ true
    → (loop cfg true s rounds).submitted ≡ s.submitted ++ returned (begun rounds)
unfolding loop
loop-submitted cfg s [] e = sym (append-nil s.submitted)
loop-submitted cfg s (poll_fails n ∷ rounds) e =
    ap (λ t. (loop cfg t.running t rounds).submitted) (round-poll_fails cfg s n)
    ∙ elim (Bool-cases (n == eintr)) [
      | inl y ↦ rw y (ap (λ b. (loop cfg b s rounds).submitted) e ∙ loop-submitted cfg s rounds e)
      | inr y ↦ rw y (
          ap (λ t. t.submitted) (loop-false cfg (record s { running = false }) rounds)
          ∙ sym (append-nil s.submitted))
    ]
loop-submitted cfg s (polled p ∷ rounds) e =
    let r : RunState = round cfg s (polled p) in
    ap (λ b. (loop cfg b r rounds).submitted) (round-running cfg s p e)
    ∙ elim (Bool-cases (goes_on p.signal)) [
      | inl y ↦ rw y (
          loop-submitted cfg r rounds (round-running cfg s p e ∙ y)
          ∙ ap (λ t. t ++ returned (begun rounds)) (round-submitted cfg s p e)
          ∙ append_assoc s.submitted (accept_listeners p.accepted) (returned (begun rounds)))
      | inr y ↦ rw y (
          ap (λ t. t.submitted) (loop-false cfg r rounds)
          ∙ round-submitted cfg s p e
          ∙ ap (λ t. s.submitted ++ t) (sym (append-nil (accept_listeners p.accepted))))
    ]

-- All that accept4() returns in the rounds that come about is submitted, in order, and no more.
pub run-Returned :
    (cfg : Config) (now : ℕ) (rounds : List Round) {fds : List ℕ}
    → Returned (begun rounds) fds
    → (run cfg now rounds).submitted ≡ fds
unfolding run start
run-Returned cfg now rounds h = loop-submitted cfg (start now) rounds refl ∙ returned-Returned h
