-- ===== src/Tests/RunTests.antt =====
-- The loop of the server, and the metrics file.
use nshgeoip.Prelude.{
  length, All, Bytes, codes, ℕ, ◌+◌, ◌-◌, ◌*◌, ◌/◌, ◌≤◌, ◌≡◌, refl, ap, true, false, none, some,
  List, [], ◌∷◌, arith,
}
use nshgeoip.Config.Number.{pos}
use nshgeoip.Config.{Config}
use nshgeoip.Config.Bounds.{IsValid}
use nshgeoip.Pool.{new_pool, submit, begin_shutdown, ThreadPool}
use nshgeoip.Pool.Drain.{WorkerRun}
use nshgeoip.Server.Run.{
  start, poll_timeout, accept_all, accept_listeners, on_signal, on_metrics, eintr, round, loop, run,
  Accept, accepts, accept_fails, Signal, no_signal, terminate, hang_up, Round, poll_fails, polled,
}
use nshgeoip.Server.Run.Timeout.{IsSteady, poll_timeout_bounds}
use nshgeoip.Server.Run.Submitted.{
  begun, none_left, failing, accepting, no_listeners, listener, Returned, no_rounds, returning,
}
use nshgeoip.Server.Run.Served.{run_serves, rests, submitting, IsServed}
use nshgeoip.Server.Run.Pace.{run_paces}
use nshgeoip.Server.MetricsFile.{
  rename_file, write_file, write_metrics_file, SeesWhole, last_of, write_metrics_file-SeesWhole,
  FileIo, Files, replaced,
}
use nshgeoip.Server.Connection.{metrics_response}
use nshgeoip.Metrics.{initial_metrics}
use nshgeoip.Tests.Sample.{sample_ext, sample_context}

abbrev two_threads : Config
two_threads = record {
  country_db = [];
  asn_db = [];
  city_db = codes "/c";
  socket_path = codes "/run/s";
  socket_mode = 432;
  threads = 2;
  max_request_bytes = 8192;
  debug_log = false;
  tcp_port = 0;
  tcp_address = [];
  metrics_file = codes "/m";
  metrics_interval_seconds = 60;
}

two_threads-IsValid : IsValid two_threads
two_threads-IsValid = (omega arith, omega arith, omega arith, omega arith, omega arith)

abbrev polled_at : ℕ → List Accept → Signal → Round
polled_at now results signal =
    polled (record { accepted = results ∷ []; signal = signal; now = now; now_written = now + 5 })

-- Two connections, a poll() that a signal interrupts, SIGHUP, SIGTERM, and a round that does not
-- come.
abbrev sample_rounds : List Round
sample_rounds =
    polled_at 100 (accepts 7 ∷ accepts 8 ∷ accept_fails 11 ∷ accepts 9 ∷ []) no_signal
    ∷ poll_fails eintr
    ∷ polled_at 200 [] hang_up
    ∷ polled_at 300 (accepts 7 ∷ []) terminate
    ∷ polled_at 400 (accepts 5 ∷ []) no_signal
    ∷ []

sample_end : run two_threads 0 sample_rounds ≡ record {
  running = false;
  next_metrics_write = 60_000_000_105;
  submitted = 7 ∷ 8 ∷ 7 ∷ [];
  reloads = 1;
  metrics_writes = 105 ∷ [];
  clock = 300;
}
unfolding run start loop round on_metrics on_signal accept_listeners accept_all
sample_end = refl

sample_rounds-IsSteady : IsSteady 0 sample_rounds
sample_rounds-IsSteady = grind arith

late : (run two_threads 0 sample_rounds).clock ≤ 1_000_300
late = omega (arith, ap (λ s. s.clock) sample_end)

poll_timeout_bounds_example :
    (poll_timeout two_threads (run two_threads 0 sample_rounds).next_metrics_write 1_000_300
      ≡ pos (((run two_threads 0 sample_rounds).next_metrics_write - 1_000_300) / 1_000_000))
    × (((run two_threads 0 sample_rounds).next_metrics_write - 1_000_300) / 1_000_000 ≤ 60 * 1000)
poll_timeout_bounds_example =
    poll_timeout_bounds two_threads 0 sample_rounds 1_000_300 two_threads-IsValid refl
      sample_rounds-IsSteady late

run_paces_example :
    let s = run two_threads 0 sample_rounds in
    let interval = two_threads.metrics_interval_seconds * 1_000_000_000 in
    0 + length s.metrics_writes * interval ≤ s.clock + interval
run_paces_example = run_paces two_threads 0 sample_rounds sample_rounds-IsSteady

sample_rounds-Returned : Returned (begun sample_rounds) (7 ∷ 8 ∷ 7 ∷ [])
sample_rounds-Returned =
    returning _ (listener (accepting 7 (accepting 8 (failing 11 _))) no_listeners) (
      returning _ (listener none_left no_listeners)
        (returning _ (listener (accepting 7 none_left) no_listeners) no_rounds))

run_serves_example :
    (q : ThreadPool) × WorkerRun (begin_shutdown (submit (submit (submit (new_pool 2) 7) 8) 7)) q
    × IsServed (7 ∷ 8 ∷ 7 ∷ []) q
unfolding run start loop round on_metrics on_signal accept_listeners accept_all
run_serves_example =
    run_serves two_threads 0 sample_rounds (7 ∷ 8 ∷ 7 ∷ []) two_threads-IsValid
      sample_rounds-Returned (submitting 7 (submitting 8 (submitting 7 rests)))

abbrev full_disk : FileIo
full_disk = record { opens = true; written = 0; is_good = true; flushed = 3; renames = true }

abbrev old_files : Files
old_files = record { tmp = none; target = some (codes "old") }

-- The stream is good until its destructor fails to write out the text: a part of it is renamed into
-- place.
part_is_seen : write_file (codes "nshgeoip_up 1") full_disk old_files ≡ (
  replaced,
  record { tmp = some []; target = some (codes "old") }
      ∷ record { tmp = some []; target = some (codes "old") }
      ∷ record { tmp = some (codes "nsh"); target = some (codes "old") }
      ∷ record { tmp = none; target = some (codes "nsh") }
      ∷ [],
)
unfolding write_file rename_file
part_is_seen = refl

abbrev sample_body : Bytes
sample_body = (metrics_response sample_ext initial_metrics sample_context).body

-- A left-over temporary file, and nothing fails.
abbrev good_disk : FileIo
good_disk = record {
  opens = true;
  written = 10;
  is_good = true;
  flushed = length sample_body;
  renames = true;
}

abbrev files_before : Files
files_before = record { tmp = some (codes "left"); target = some (codes "old") }

write_metrics_file-SeesWhole_example :
    let moments =
      (write_metrics_file sample_ext initial_metrics sample_context good_disk files_before).1 in
    All (SeesWhole sample_body files_before) moments
    × ((last_of files_before moments).target ≡ some sample_body)
write_metrics_file-SeesWhole_example =
    write_metrics_file-SeesWhole sample_ext initial_metrics sample_context good_disk files_before
      (λ e. omega arith)
