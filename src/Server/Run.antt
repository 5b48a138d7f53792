-- ===== src/Server/Run.antt =====
-- src/server.cpp: `Server::run`. What a round of its loop meets is an argument. Times are in
-- nanoseconds of the steady clock.
pub mod Timeout
pub mod Submitted
pub mod Served
pub mod Pace
pub mod Fresh
use nshgeoip.Prelude.{
  ltb, leb, ◌==◌, if◌then◌else◌, is_empty, ℕ, suc, ◌+◌, ◌-◌, ◌*◌, ◌/◌, ◌%◌, ◌^◌, Bool, true, false,
  not, ◌&&◌, List, [], ◌∷◌, ◌++◌,
}
use nshgeoip.Config.Number.{ℤ, pos, negsuc}
use nshgeoip.Config.{Config}

-- What accept4() returns: a descriptor, or -1 with errno.
pub data Accept : Type 0 where
  accepts : ℕ → Accept
  accept_fails : ℕ → Accept

-- What read() on the signal descriptor gives, if poll() reports it: nothing, a short read or
-- another signal, SIGTERM or SIGINT, SIGHUP.
pub data Signal : Type 0 where
  no_signal other_signal terminate hang_up : Signal

-- A poll() that returns: for each listener that it reports the results of accept4(), the signal,
-- and the clock at the end of the round, before and behind write_metrics_file().
pub record Polled : Type 0 where
  pub accepted : List (List Accept)
  pub signal : Signal
  pub now : ℕ
  pub now_written : ℕ

pub data Round : Type 0 where
  poll_fails : ℕ → Round
  polled : Polled → Round

-- The variables of `run`, and what it has done: the descriptors that it has submitted to the pool,
-- in order, how often it has reloaded the databases, and the times at which it had written the
-- metrics file, newest first. `clock` is the last time read.
pub record RunState : Type 0 where
  pub running : Bool
  pub next_metrics_write : ℕ
  pub submitted : List ℕ
  pub reloads : ℕ
  pub metrics_writes : List ℕ
  pub clock : ℕ

unfoldable pub start : ℕ → RunState
start now = record {
  running = true;
  next_metrics_write = now;
  submitted = [];
  reloads = 0;
  metrics_writes = [];
  clock = now;
}

-- `static_cast<int>`.
unfoldable pub to_int : ℕ → ℤ
to_int n =
    let bits = n % 2 ^ 32 in if ltb bits (2 ^ 31) then pos bits else negsuc (2 ^ 32 - 1 - bits)

-- The timeout of poll() in milliseconds; -1 is for ever. A time that has passed gives 0.
unfoldable pub poll_timeout : Config → ℕ → ℕ → ℤ
unfolding to_int
poll_timeout cfg next_metrics_write now =
    if not (is_empty cfg.metrics_file)
    then to_int ((next_metrics_write - now) / 1_000_000)
    else negsuc 0

-- The inner loop over accept4(): any failure ends it, EINTR and EAGAIN silently.
unfoldable pub accept_all : List Accept → List ℕ
accept_all [] = []
accept_all (accepts fd ∷ results) = fd ∷ accept_all results
accept_all (accept_fails e ∷ results) = []

unfoldable pub accept_listeners : List (List Accept) → List ℕ
unfolding accept_all
accept_listeners [] = []
accept_listeners (results ∷ listeners) = accept_all results ++ accept_listeners listeners

unfoldable pub on_signal : Signal → RunState → RunState
on_signal terminate s = record s { running = false }
on_signal hang_up s = record s { reloads = suc s.reloads }
on_signal _ s = s

abbrev pub interval_ns : Config → ℕ
interval_ns cfg = cfg.metrics_interval_seconds * 1_000_000_000

unfoldable pub on_metrics : Config → ℕ → ℕ → RunState → RunState
on_metrics cfg now now_written s =
    if not (is_empty cfg.metrics_file) && leb s.next_metrics_write now
    then record s {
      metrics_writes = now_written ∷ s.metrics_writes;
      next_metrics_write = now_written + interval_ns cfg;
      clock = now_written;
    }
    else record s { clock = now }

abbrev pub eintr : ℕ
eintr = 4

unfoldable pub round : Config → RunState → Round → RunState
unfolding accept_listeners on_signal on_metrics
round cfg s (poll_fails e) = if e == eintr then s else record s { running = false }
round cfg s (polled p) =
    on_metrics cfg p.now p.now_written
      (on_signal p.signal (record s { submitted = s.submitted ++ accept_listeners p.accepted }))

-- `while (running)`; the flag is `running`.
unfoldable pub loop : Config → Bool → RunState → List Round → RunState
loop cfg running s [] = s
loop cfg false s (r ∷ rounds) = s
loop cfg true s (r ∷ rounds) = loop cfg (round cfg s r).running (round cfg s r) rounds

-- The rounds so far, from the start of `run` at a time.
unfoldable pub run : Config → ℕ → List Round → RunState
unfolding start
run cfg now rounds = loop cfg true (start now) rounds
