-- ===== src/Lib.antt =====
-- nshgeoip, a local GeoIP lookup daemon: a model of src/*.cpp and what it guarantees.
--
-- The daemon accepts connections on a UNIX socket and hands each to a worker thread. A worker reads
-- one HTTP request head, parses it, looks the address up in up to three MMDB databases and writes one
-- response; counters record the traffic.
--
-- Files, and the code that they model (paths from the repository's root):
--   Prelude    shared names, Boolean tests, byte strings, decimal numbers
--   Text       src/text_util.cpp: json_escape, sanitize_header_value
--   Log        src/log.h: Logger::log
--   Ip         src/ip_addr.cpp: parse_ip_address
--   Http       src/http.cpp: percent_decode, parse_http_request, negotiate_format,
--              build_http_response, make_error_response, read_http_head
--   External   what is called and not contained: libmaxminddb, inet_pton, doubles, the calendar
--   Geoip      src/geoip.cpp: the databases, their replacement and the lookup; Geoip/CheckDb the
--              report of --check-db
--   Metrics    src/metrics.cpp: the counters and the bodies of /metrics and /health
--   Server     src/server.cpp: Bodies, Connection and Write the handling of a connection; Listen the
--              set-up of signals and sockets; Lifecycle init, reload_databases, cleanup and the
--              destructor; Run the loop of run(); MetricsFile write_metrics_file; Describe the
--              texts of describe_db and mode_octal; Os what these ask of the operating system
--   Pool       src/thread_pool.cpp: the queue, the workers and the shutdown
--   Config     src/config.cpp: load_config, apply_env_overrides, apply_default_db_paths; the
--              configuration part of main() in src/main.cpp
--   Main       src/main.cpp: Args the option parser, Health the client of --health-check
--   Tests      tests at concrete inputs, and the theorems at inputs that meet their hypotheses
--
-- A std::string is a list of byte values. A result that the source returns through a reference and a
-- bool is an Option. The header loop and the query loop of the parser run on fuel, the length of the
-- text: Http/Request/Fuel has the lemmas that more fuel changes nothing. The receive loop runs over a
-- list of events, one for each round. Counters are numbers modulo 2^64.
--
-- The pool is a step relation: the mutex makes each critical section one step, so an interleaving is a
-- sequence of steps, and a waiting worker may wake whenever its predicate holds. The pool and the
-- connection handler are separate models: descriptors are numbers there, receive events here. The
-- environment, the presence of files and the text of the configuration file are arguments.
--
-- The functions that set up and close sockets run over a state that keeps every system call with its
-- answer, newest first; the answer is a function of the calls so far, so a theorem over all such
-- functions covers every failure at every place. Server/Listen/Ran says what calls have brought about
-- from this list alone, in which order they came included. An error return is a result of its own, and
-- Server/Os/Rules has the rules by which a condition is followed through calls and errors. The loop of
-- run() takes what each round meets (the results of accept4(), the signal, the clock) as an argument,
-- so the number of rounds bounds it; Server/Run/Served puts it together with the pool, whose workers
-- may take steps between any two submissions. write_metrics_file gives the files behind each of its
-- calls.
--
-- The predicate of a condition variable is modelled, its notify calls are not: that a waiting worker is
-- woken is assumed. The absolute deadline of a receive is the event `expires`. reload_databases gives
-- the `ok` that picks its last log line. `life` in Server/Lifecycle puts together start-up, reloads and
-- the end; the clients' descriptors that run() accepts are in Server/Run and Pool instead.
--
-- Not modelled: which log messages the program writes, the help text, SIGPIPE and the time-outs of
-- the health client, the interleaving of a reload with lookups (a lock makes either one step), the
-- shell scripts, and the interleaving of worker threads inside one request (each connection is
-- handled as a whole).
pub mod Prelude
pub mod Text
pub mod Log
pub mod Http
pub mod Ip
pub mod External
pub mod Geoip
pub mod Metrics
pub mod Pool
pub mod Config
pub mod Main
pub mod Server
mod Tests
